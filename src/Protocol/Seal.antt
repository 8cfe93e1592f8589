-- ===== src/Protocol/Seal.antt =====
-- A frame as a sender builds it: a body whose length field counts the body, and its checksum.
use instruction_parser.Prelude.{
  ℕ, suc, ◌+◌, ◌*◌, ◌/◌, ◌%◌, ◌≤◌, ◌≡◌, refl, ap, ◌∙◌, subst, pos, some, List, [], ◌∷◌, ◌++◌,
  length, length-append, take, arith,
}
use instruction_parser.Crc.{crc_from, IsBytes}
use instruction_parser.Crc.Frames.{crc_from-residue, crc_from-lt}
use instruction_parser.Strings.Laws.{take_at}
use instruction_parser.Protocol.Check.{check_frame}
use instruction_parser.Protocol.Check.Accepts.{verdict-accepts, check_frame-eq-verdict}

unfoldable pub seal : List ℕ → List ℕ
seal body = body ++ crc_from 0 body / 256 ∷ crc_from 0 body % 256 ∷ []

pub IsBytes-append : (xs ys : List ℕ) → IsBytes xs → IsBytes ys → IsBytes (xs ++ ys)
IsBytes-append [] ys hx hy = hy
IsBytes-append (x ∷ xs) ys hx hy = (hx.0, IsBytes-append xs ys hx.1 hy)

pub seal-IsBytes : (body : List ℕ) → IsBytes body → IsBytes (seal body)
unfolding seal
seal-IsBytes body h =
    let c = crc_from-lt 0 body (omega arith) in
    IsBytes-append body _ h (omega arith, (omega arith, tt))

pub length-seal : (body : List ℕ) → length (seal body) ≡ length body + 2
unfolding seal
length-seal body = length-append body _

-- The check accepts a sealed body with the right head and length field, whatever follows it.
pub check_frame-seal :
    (h0 h1 hi lo : ℕ) (body rest : List ℕ)
    → IsBytes (h0 ∷ h1 ∷ hi ∷ lo ∷ body)
    → IsBytes rest
    → hi * 256 + lo ≡ length (h0 ∷ h1 ∷ hi ∷ lo ∷ body)
    → check_frame h0 h1 (seal (h0 ∷ h1 ∷ hi ∷ lo ∷ body) ++ rest) ≡ some (pos 0)
check_frame-seal h0 h1 hi lo body rest bytes rest_bytes len =
    let whole : List ℕ = h0 ∷ h1 ∷ hi ∷ lo ∷ body in
    let sealed : IsBytes (seal whole ++ rest) =
      IsBytes-append (seal whole) rest (seal-IsBytes whole bytes) rest_bytes in
    let size : length (seal whole ++ rest) ≡ length whole + 2 + length rest =
      length-append (seal whole) rest ∙ ap (λ t. t + length rest) (length-seal whole) in
    let kept : take (suc (suc (hi * 256 + lo))) (seal whole ++ rest) ≡ seal whole =
      take_at (suc (suc (hi * 256 + lo))) (seal whole) rest (length-seal whole ∙ omega arith) in
    let clear : crc_from 0 (take (suc (suc (hi * 256 + lo))) (seal whole ++ rest)) ≡ 0 =
      ap (crc_from 0) kept ∙ unfold seal in crc_from-residue whole in
    let tail : List ℕ = (body ++ crc_from 0 whole / 256 ∷ crc_from 0 whole % 256 ∷ []) ++ rest in
    let shape : seal whole ++ rest ≡ h0 ∷ h1 ∷ hi ∷ lo ∷ tail = unfold seal in refl in
    let room : hi * 256 + lo + 2 ≤ length (seal whole ++ rest) = omega (arith, size) in
    ap (check_frame h0 h1) shape
    ∙ check_frame-eq-verdict h0 h1 h0 h1 hi lo tail (subst IsBytes shape sealed)
    ∙ (verdict-accepts h0 h1 h0 h1 hi lo tail).1 (
      refl,
      refl,
      subst (λ t. hi * 256 + lo + 2 ≤ length t) shape room,
      subst (λ t. crc_from 0 (take (suc (suc (hi * 256 + lo))) t) ≡ 0) shape clear,
    )
