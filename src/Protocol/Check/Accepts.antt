-- ===== src/Protocol/Check/Accepts.antt =====
-- What `check_frame` answers, in terms of the buffer alone.
use instruction_parser.Prelude.{
  ℕ, zero, suc, ◌+◌, ◌*◌, ◌≤◌, ◌<◌, ◌≡◌, ◌≢◌, refl, ap, ◌∙◌, ◌↔◌, ◌⊎◌, ℤ, pos, negsuc, Option, none,
  some, ◌>>=◌, List, [], ◌∷◌, ◌++◌, get_elem?, length, take, ◌==◌, leb, ◌&&◌, if◌then◌else◌, arith,
}
use instruction_parser.Crc.{crc_from, IsBytes}
use instruction_parser.Crc.Frames.{uhf_crc-in_bounds}
use instruction_parser.Crc.Detect.{crc_from-residue_iff}
use instruction_parser.Protocol.Words.{word_at, word_at_lem, word_at-past_end, byte_at}
use instruction_parser.Protocol.Check.{check_body, check_frame, ht_check_data, sl_check_data}

pub get_elem?-past_end : {A : Type 0} (xs : List A) (i : ℕ) → length xs ≤ i → get_elem? xs i ≡ none
get_elem?-past_end [] i h = refl
get_elem?-past_end (x ∷ xs) zero h = absurd (omega arith)
get_elem?-past_end (x ∷ xs) (suc i) h = get_elem?-past_end xs i (omega arith)

pub take_two :
    (xs : List ℕ) (n a b : ℕ)
    → get_elem? xs n ≡ some a
    → get_elem? xs (suc n) ≡ some b
    → take (suc (suc n)) xs ≡ take n xs ++ a ∷ b ∷ []
take_two [] n a b ea eb = cc
take_two (x ∷ []) zero a b ea eb = cc
take_two (x ∷ y ∷ xs) zero a b ea eb = ground arith
take_two (x ∷ xs) (suc n) a b ea eb = ap (λ t. x ∷ t) (take_two xs n a b ea eb)

==_congr : (p q r s : ℕ) → ((p ≡ q → r ≡ s) × (r ≡ s → p ≡ q)) → (p == q) ≡ (r == s)
==_congr p q r s h = ground arith

module _ (buf : List ℕ) (n : ℕ) (bytes : IsBytes buf) (len_field : word_at buf 2 ≡ some n) where
  body_past_end : length buf < n + 2 → check_body buf ≡ none
  unfolding check_body
  body_past_end h =
      rw (len_field, ◌>>=◌)
        (rw (word_at-past_end buf n (get_elem?-past_end buf (n + 1) (omega arith)), ◌>>=◌))

  body_in_bounds :
      (a b : ℕ)
      → get_elem? buf n ≡ some a
      → get_elem? buf (n + 1) ≡ some b
      → a < 256
      → b < 256
      → n + 2 ≤ length buf
      → check_body buf ≡ some (if crc_from 0 (take n buf) == a * 256 + b then pos 0 else negsuc 0)
  unfolding check_body
  body_in_bounds a b ea eb ha hb h =
      rw (len_field, ◌>>=◌)
        (rw (word_at_lem buf n a b ea eb ha hb, ◌>>=◌)
          (rw (uhf_crc-in_bounds buf n (omega arith), ◌>>=◌)))

  -- Of a complete body the answer is 0 if the checksum of body and checksum together is zero.
  body_answer :
      n + 2 ≤ length buf
      → check_body buf ≡ some (if crc_from 0 (take (suc (suc n)) buf) == 0 then pos 0 else negsuc 0)
  body_answer h =
      let (a, ea, ha) = byte_at buf n bytes (omega arith) in
      let (b, eb, hb) = byte_at buf (n + 1) bytes (omega arith) in
      let next : n + 1 ≡ suc n = omega arith in
      let residue = crc_from-residue_iff (take n buf) a b ha hb in
      body_in_bounds a b ea eb ha hb h
      ∙ rw (take_two buf n a b ea (rw next at eb)) (
          ap (λ t. some (if t then pos 0 else negsuc 0))
            (==_congr (crc_from 0 (take n buf)) (a * 256 + b)
              (crc_from 0 (take n buf ++ a ∷ b ∷ [])) 0 (residue.1, residue.0)))

module _ (h0 h1 b0 b1 hi lo : ℕ) (rest : List ℕ) where
  abbrev pub whole : List ℕ
  whole = b0 ∷ b1 ∷ hi ∷ lo ∷ rest

  -- With another head the answer is -1, whatever follows.
  pub wrong_head : (b0 ≢ h0) ⊎ (b1 ≢ h1) → check_frame h0 h1 whole ≡ some (negsuc 0)
  unfolding check_frame
  wrong_head ne = ground arith

  right_head : b0 ≡ h0 → b1 ≡ h1 → check_frame h0 h1 whole ≡ check_body whole
  unfolding check_frame
  right_head e0 e1 = ground arith

-- What the answer should be for a buffer of at least four bytes: -1 for another head; undefined
-- behaviour if the length field asks for more than there is; otherwise 0 or -1, as the checksum of
-- the whole frame, its own checksum included, is zero or not.
unfoldable pub verdict : ℕ → ℕ → ℕ → ℕ → ℕ → ℕ → List ℕ → Option ℤ
verdict h0 h1 b0 b1 hi lo rest =
    let buf = b0 ∷ b1 ∷ hi ∷ lo ∷ rest in
    let n = hi * 256 + lo in
    if b0 == h0 && b1 == h1
    then if leb (n + 2) (length buf)
      then some (if crc_from 0 (take (suc (suc n)) buf) == 0 then pos 0 else negsuc 0)
      else none
    else some (negsuc 0)

-- On every buffer of at least four bytes, for either head, the check gives that answer: it reads
-- behind the buffer exactly if the head fits and the length field asks for more than there is.
pub check_frame-eq-verdict :
    (h0 h1 b0 b1 hi lo : ℕ) (rest : List ℕ)
    → IsBytes (b0 ∷ b1 ∷ hi ∷ lo ∷ rest)
    → check_frame h0 h1 (b0 ∷ b1 ∷ hi ∷ lo ∷ rest) ≡ verdict h0 h1 b0 b1 hi lo rest
unfolding verdict
check_frame-eq-verdict h0 h1 b0 b1 hi lo rest bytes =
    let buf : List ℕ = b0 ∷ b1 ∷ hi ∷ lo ∷ rest in
    let n : ℕ = hi * 256 + lo in
    let field : word_at buf 2 ≡ some n =
      word_at_lem buf 2 hi lo refl refl bytes.1.1.0 bytes.1.1.1.0 in
    ground (
      arith,
      wrong_head h0 h1 b0 b1 hi lo rest,
      right_head h0 h1 b0 b1 hi lo rest,
      body_past_end buf n bytes field,
      body_answer buf n bytes field,
    )

-- A buffer that begins with a frame: the head, a length `n` that the buffer has room for with the
-- checksum behind, and checksum zero over all `n + 2` bytes.
abbrev pub IsFrame : ℕ → ℕ → ℕ → ℕ → ℕ → ℕ → List ℕ → Type 0
IsFrame h0 h1 b0 b1 hi lo rest =
    (b0 ≡ h0)
    × (b1 ≡ h1)
    × (hi * 256 + lo + 2 ≤ length (b0 ∷ b1 ∷ hi ∷ lo ∷ rest))
    × (crc_from 0 (take (suc (suc (hi * 256 + lo))) (b0 ∷ b1 ∷ hi ∷ lo ∷ rest)) ≡ 0)

pub verdict-accepts :
    (h0 h1 b0 b1 hi lo : ℕ) (rest : List ℕ)
    → (verdict h0 h1 b0 b1 hi lo rest ≡ some (pos 0)) ↔ IsFrame h0 h1 b0 b1 hi lo rest
unfolding verdict
verdict-accepts h0 h1 b0 b1 hi lo rest = ground arith

-- `ht_check_data` and `sl_check_data` return 0 for exactly the buffers of at least four bytes that
-- begin with a frame of their own head.
pub check_data-accepts_iff :
    (b0 b1 hi lo : ℕ) (rest : List ℕ)
    → IsBytes (b0 ∷ b1 ∷ hi ∷ lo ∷ rest)
    → ((ht_check_data (b0 ∷ b1 ∷ hi ∷ lo ∷ rest) ≡ some (pos 0))
        ↔ IsFrame 0x48 0x54 b0 b1 hi lo rest)
      × ((sl_check_data (b0 ∷ b1 ∷ hi ∷ lo ∷ rest) ≡ some (pos 0))
          ↔ IsFrame 0x22 0x53 b0 b1 hi lo rest)
unfolding ht_check_data sl_check_data
check_data-accepts_iff b0 b1 hi lo rest bytes = (
  rw (check_frame-eq-verdict 0x48 0x54 b0 b1 hi lo rest bytes)
      (verdict-accepts 0x48 0x54 b0 b1 hi lo rest),
  rw (check_frame-eq-verdict 0x22 0x53 b0 b1 hi lo rest bytes)
      (verdict-accepts 0x22 0x53 b0 b1 hi lo rest),
)
