-- ===== src/Protocol/Check/Corrupt.antt =====
-- A frame that lost one byte to the line is refused.
use instruction_parser.Prelude.{
  ℕ, zero, suc, ◌+◌, ◌*◌, ◌<◌, ◌≡◌, ◌≢◌, refl, sym, ap, ◌∙◌, negsuc, some, List, [], ◌∷◌, ◌++◌,
  get_elem?, set, length-set, take, arith,
}
use instruction_parser.Crc.{crc_from, IsBytes}
use instruction_parser.Crc.Frames.{take-IsBytes}
use instruction_parser.Crc.Detect.{one_byte_detected}
use instruction_parser.Protocol.Check.{check_frame}
use instruction_parser.Protocol.Check.Accepts.{verdict, check_frame-eq-verdict, IsFrame}

pub set-IsBytes : (bs : List ℕ) (i b : ℕ) → IsBytes bs → b < 256 → IsBytes (set bs i b)
set-IsBytes [] i b h hb = tt
set-IsBytes (x ∷ bs) zero b h hb = (hb, h.1)
set-IsBytes (x ∷ bs) (suc i) b h hb = (h.0, set-IsBytes bs i b h.1 hb)

IsBytes-behind :
    (xs : List ℕ) (a : ℕ) (ys : List ℕ) → IsBytes (xs ++ a ∷ ys) → (a < 256) × IsBytes ys
IsBytes-behind [] a ys h = h
IsBytes-behind (x ∷ xs) a ys h = IsBytes-behind xs a ys h.1

-- The part of a list that a cut keeps, opened at one place in it.
record Opened (xs : List ℕ) (m i a b : ℕ) : Type 0 where
  front : List ℕ
  back : List ℕ
  before : take m xs ≡ front ++ a ∷ back
  after : take m (set xs i b) ≡ front ++ b ∷ back

open_at : (xs : List ℕ) (m i a b : ℕ) → i < m → get_elem? xs i ≡ some a → Opened xs m i a b
open_at [] m i a b h e = cc
open_at (x ∷ xs) zero i a b h e = absurd (omega arith)
open_at (x ∷ xs) (suc m) zero a b h e = record {
  front = [];
  back = take m xs;
  before = ap (λ t. t ∷ take m xs) (ground arith);
  after = refl;
}
open_at (x ∷ xs) (suc m) (suc i) a b h e =
    let o = open_at xs m i a b (omega arith) e in
    record {
      front = x ∷ o.front;
      back = o.back;
      before = ap (λ t. x ∷ t) o.before;
      after = ap (λ t. x ∷ t) o.after;
    }

-- Changing one byte of a list changes the checksum of a cut that holds it.
crc_from-set_ne :
    (xs : List ℕ) (m i a b : ℕ)
    → IsBytes xs
    → i < m
    → get_elem? xs i ≡ some a
    → b < 256
    → a ≢ b
    → crc_from 0 (take m xs) ≢ crc_from 0 (take m (set xs i b))
crc_from-set_ne xs m i a b bytes h e hb ne same =
    let o = open_at xs m i a b h e in
    let parts = IsBytes-behind o.front a o.back (rw o.before at (take-IsBytes m xs bytes)) in
    one_byte_detected o.front o.back a b parts.1 parts.0 hb ne
      (sym (ap (crc_from 0) o.before) ∙ same ∙ ap (crc_from 0) o.after)

-- If a buffer begins with a frame, and one byte behind the length field, of the body or of the
-- checksum, is replaced by another byte, then the check answers -1.
pub check_frame-corrupt :
    (h0 h1 b0 b1 hi lo : ℕ) (rest : List ℕ) (i a b : ℕ)
    → IsBytes (b0 ∷ b1 ∷ hi ∷ lo ∷ rest)
    → IsFrame h0 h1 b0 b1 hi lo rest
    → i + 4 < hi * 256 + lo + 2
    → get_elem? rest i ≡ some a
    → b < 256
    → a ≢ b
    → check_frame h0 h1 (b0 ∷ b1 ∷ hi ∷ lo ∷ set rest i b) ≡ some (negsuc 0)
unfolding verdict
check_frame-corrupt h0 h1 b0 b1 hi lo rest i a b bytes frame inside e hb ne =
    let whole : List ℕ = b0 ∷ b1 ∷ hi ∷ lo ∷ rest in
    let m : ℕ = suc (suc (hi * 256 + lo)) in
    let bytes' : IsBytes (b0 ∷ b1 ∷ hi ∷ lo ∷ set rest i b) = (
      bytes.0,
      (bytes.1.0, (bytes.1.1.0, (bytes.1.1.1.0, set-IsBytes rest i b bytes.1.1.1.1 hb))),
    ) in
    let changed : crc_from 0 (take m whole)
        ≢ crc_from 0 (take m (b0 ∷ b1 ∷ hi ∷ lo ∷ set rest i b)) =
      crc_from-set_ne whole m (suc (suc (suc (suc i)))) a b bytes (omega arith) e hb ne in
    check_frame-eq-verdict h0 h1 b0 b1 hi lo (set rest i b) bytes'
    ∙ ground (arith, length-set rest i b, changed)
