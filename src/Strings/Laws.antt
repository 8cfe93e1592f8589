-- ===== src/Strings/Laws.antt =====
-- Laws of memory and strings.
use instruction_parser.Prelude.{
  ℕ, zero, suc, ◌+◌, ◌-◌, ◌≤◌, ◌<◌, ◌≡◌, ◌≢◌, refl, sym, ap, ap₂, ◌∙◌, none, some, List, [], ◌∷◌,
  ◌++◌, length, take, drop, arith, length-append, length-take, length-drop,
}
use instruction_parser.Strings.{fetch, store, strcpy, c_string, split, tokens}

pub fetch_in :
    (mem : List ℕ) (off n : ℕ)
    → off + n ≤ length mem
    → fetch mem off n ≡ some (take n (drop off mem))
unfolding fetch
fetch_in mem off n h = ground arith

pub fetch_out : (mem : List ℕ) (off n : ℕ) → length mem < off + n → fetch mem off n ≡ none
unfolding fetch
fetch_out mem off n h = ground arith

pub store_in :
    (mem : List ℕ) (off : ℕ) (bs : List ℕ)
    → off + length bs ≤ length mem
    → store mem off bs ≡ some (take off mem ++ (bs ++ drop (off + length bs) mem))
unfolding store
store_in mem off bs h = ground arith

pub store_out :
    (mem : List ℕ) (off : ℕ) (bs : List ℕ) → length mem < off + length bs → store mem off bs ≡ none
unfolding store
store_out mem off bs h = ground arith

module _ {ℓ} {A : Type ℓ} where
  pub take-append : (xs ys : List A) → take (length xs) (xs ++ ys) ≡ xs
  take-append [] ys = refl
  take-append (x ∷ xs) ys = ap (λ t. x ∷ t) (take-append xs ys)

  pub drop-append : (xs ys : List A) → drop (length xs) (xs ++ ys) ≡ ys
  drop-append [] ys = refl
  drop-append (x ∷ xs) ys = drop-append xs ys

  pub drop-append_more : (xs ys : List A) (n : ℕ) → drop (length xs + n) (xs ++ ys) ≡ drop n ys
  drop-append_more [] ys n = ap (λ m. drop m ys) (omega arith)
  drop-append_more (x ∷ xs) ys n =
      ap (λ m. drop m (x ∷ (xs ++ ys)))
        (let e : suc (length xs) + n ≡ suc (length xs + n) = omega arith in e)
      ∙ drop-append_more xs ys n

  pub take_at : (n : ℕ) (xs ys : List A) → length xs ≡ n → take n (xs ++ ys) ≡ xs
  take_at n xs ys e = rw (← e) (take-append xs ys)

  pub drop_at : (n : ℕ) (xs ys : List A) → length xs ≡ n → drop n (xs ++ ys) ≡ ys
  drop_at n xs ys e = rw (← e) (drop-append xs ys)

-- What is stored is read back, and the bytes before and behind it stay.
pub fetch-store :
    (mem : List ℕ) (off : ℕ) (bs : List ℕ)
    → off + length bs ≤ length mem
    → (mem' : List ℕ) × (store mem off bs ≡ some mem')
      × (fetch mem' off (length bs) ≡ some bs)
      × (take off mem' ≡ take off mem)
      × (length mem' ≡ length mem)
fetch-store mem off bs h =
    let back = drop (off + length bs) mem in
    let front = take off mem in
    let lf : length front ≡ off = omega (arith, length-take off mem) in
    let lb : length back ≡ length mem - (off + length bs) = length-drop (off + length bs) mem in
    let lbb : length (bs ++ back) ≡ length bs + length back = length-append bs back in
    let len : length (front ++ (bs ++ back)) ≡ length mem =
      length-append front (bs ++ back) ∙ omega arith in
    (
      front ++ (bs ++ back),
      store_in mem off bs h,
      fetch_in (front ++ (bs ++ back)) off (length bs) (omega arith)
          ∙ ap some
              (ap (take (length bs)) (drop_at off front (bs ++ back) lf) ∙ take-append bs back),
      take_at off front (bs ++ back) lf,
      len,
    )

-- No byte of the list is the given one.
abbrev pub Free : ℕ → List ℕ → Type 0
Free d [] = Unit {0}
Free d (c ∷ cs) = (c ≢ d) × Free d cs

pub Free-append : (d : ℕ) (xs ys : List ℕ) → Free d xs → Free d ys → Free d (xs ++ ys)
Free-append d [] ys f g = g
Free-append d (x ∷ xs) ys f g = (f.0, Free-append d xs ys f.1 g)

pub c_string_lem : (s rest : List ℕ) → Free 0 s → c_string (s ++ 0 ∷ rest) ≡ some s
unfolding c_string
c_string_lem [] rest f = refl
c_string_lem (c ∷ s) rest f = ground (arith, c_string_lem s rest f.1)

pub split-Free : (d : ℕ) (s : List ℕ) → Free d s → split d s ≡ (s, [])
unfolding split
split-Free d [] f = refl
split-Free d (c ∷ s) f = ground (arith, split-Free d s f.1)

pub split_word : (d : ℕ) (s rest : List ℕ) → Free d s → split d (s ++ d ∷ rest) ≡ (s, tokens d rest)
unfolding split tokens
split_word d [] rest f = ground arith
split_word d (c ∷ s) rest f = ground (arith, split_word d s rest f.1)

-- A non-empty word that a delimiter ends is the first token.
pub tokens_word :
    (d c : ℕ) (s rest : List ℕ)
    → Free d (c ∷ s)
    → tokens d ((c ∷ s) ++ d ∷ rest) ≡ (c ∷ s) ∷ tokens d rest
tokens_word d c s rest f = unfold tokens in rw (split_word d (c ∷ s) rest f)

pub tokens_last : (d c : ℕ) (s : List ℕ) → Free d (c ∷ s) → tokens d (c ∷ s) ≡ (c ∷ s) ∷ []
tokens_last d c s f = unfold tokens in rw (split-Free d (c ∷ s) f)

pub cons_tail : {A : Type 0} {x y : A} {xs ys : List A} → x ∷ xs ≡ y ∷ ys → xs ≡ ys
cons_tail e = cc

pub cons_head : {A : Type 0} {x y : A} {xs ys : List A} → x ∷ xs ≡ y ∷ ys → x ≡ y
cons_head e = cc

pub some_injective : {A : Type 0} {x y : A} → some x ≡ some y → x ≡ y
some_injective e = cc

-- A piece of memory depends on no byte behind it.
pub take-drop :
    (k off n : ℕ) (xs ys : List ℕ)
    → off + k ≤ n
    → take n xs ≡ take n ys
    → take k (drop off xs) ≡ take k (drop off ys)
take-drop zero off n xs ys h e = refl
take-drop (suc k) zero zero xs ys h e = absurd (omega arith)
take-drop (suc k) zero (suc n) [] [] h e = refl
take-drop (suc k) zero (suc n) [] (y ∷ ys) h e = cc
take-drop (suc k) zero (suc n) (x ∷ xs) [] h e = cc
take-drop (suc k) zero (suc n) (x ∷ xs) (y ∷ ys) h e =
    ap₂ ◌∷◌ (cons_head e) (take-drop k zero n xs ys (omega arith) (cons_tail e))
take-drop (suc k) (suc off) zero xs ys h e = absurd (omega arith)
take-drop (suc k) (suc off) (suc n) [] [] h e = refl
take-drop (suc k) (suc off) (suc n) [] (y ∷ ys) h e = cc
take-drop (suc k) (suc off) (suc n) (x ∷ xs) [] h e = cc
take-drop (suc k) (suc off) (suc n) (x ∷ xs) (y ∷ ys) h e =
    take-drop (suc k) off n xs ys (omega arith) (cons_tail e)

-- A string is read the same from memory that agrees as far as its NUL.
pub c_string_prefix :
    (s : List ℕ) (n : ℕ) (back mem : List ℕ)
    → take n mem ≡ take n (s ++ 0 ∷ back)
    → length s < n
    → Free 0 s
    → c_string mem ≡ some s
unfolding c_string
c_string_prefix s zero back mem e h f = absurd (omega arith)
c_string_prefix [] (suc n) back [] e h f = cc
c_string_prefix [] (suc n) back (c ∷ mem) e h f = ground arith
c_string_prefix (x ∷ s) (suc n) back [] e h f = cc
c_string_prefix (x ∷ s) (suc n) back (c ∷ mem) e h f =
    ground (arith, c_string_prefix s n back mem (cons_tail e) (omega arith) f.1)

-- After `strcpy` the string is read back; what stands before it, and the size, stay.
pub record Copied (mem : List ℕ) (off : ℕ) (s mem' : List ℕ) : Type 0 where
  pub there : take (length s + 1) (drop off mem') ≡ s ++ 0 ∷ []
  pub before_kept : take off mem' ≡ take off mem
  pub same_size : length mem' ≡ length mem

pub strcpy-Copied :
    (mem : List ℕ) (off : ℕ) (s : List ℕ)
    → off + length s + 1 ≤ length mem
    → (mem' : List ℕ) × (strcpy mem off s ≡ some mem') × Copied mem off s mem'
unfolding strcpy
strcpy-Copied mem off s h =
    let one : length (s ++ 0 ∷ []) ≡ length s + 1 = length-append s (0 ∷ []) in
    let (mem', stored, back, front, size) = fetch-store mem off (s ++ 0 ∷ []) (omega arith) in
    let fetched = fetch_in mem' off (length (s ++ 0 ∷ [])) (omega arith) in
    (
      mem',
      stored,
      record {
        there = ap (λ n. take n (drop off mem')) (sym one) ∙ some_injective (sym fetched ∙ back);
        before_kept = front;
        same_size = size;
      },
    )
