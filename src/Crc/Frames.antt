-- ===== src/Crc/Frames.antt =====
-- `uhf_crc16_ccitt_tab` on a buffer that holds `len` bytes, and on one that does not.
use instruction_parser.Prelude.{
  ℕ, zero, suc, ◌*◌, ◌/◌, ◌%◌, ◌≤◌, ◌<◌, ◌≡◌, refl, ap, ◌∙◌, arith, List, [], ◌∷◌, ◌++◌, none, some,
  length, take,
}
use instruction_parser.Prelude.Bits.{xor_self, zero-xor}
use instruction_parser.Crc.{crc16_tab, crc_step, crc_from, crc_loop, uhf_crc16_ccitt_tab, IsBytes}
use instruction_parser.Crc.Table.{entry}
use instruction_parser.Crc.Reference.{crc_step_lem, crc_step-lt, serial_crc, crc_from-eq-serial_crc}

crc_loop-in_bounds :
    (len : ℕ) (buf : List ℕ) (c : ℕ)
    → len ≤ length buf
    → crc_loop len buf c ≡ some (crc_from c (take len buf))
unfolding crc_loop
crc_loop-in_bounds zero buf c h = refl
crc_loop-in_bounds (suc n) [] c h = absurd (omega arith)
crc_loop-in_bounds (suc n) (b ∷ buf) c h = crc_loop-in_bounds n buf (crc_step c b) (omega arith)

crc_loop-past_end : (len : ℕ) (buf : List ℕ) (c : ℕ) → length buf < len → crc_loop len buf c ≡ none
unfolding crc_loop
crc_loop-past_end zero buf c h = absurd (omega arith)
crc_loop-past_end (suc n) [] c h = refl
crc_loop-past_end (suc n) (b ∷ buf) c h = crc_loop-past_end n buf (crc_step c b) (omega arith)

pub uhf_crc-in_bounds :
    (buf : List ℕ) (len : ℕ)
    → len ≤ length buf
    → uhf_crc16_ccitt_tab buf len ≡ some (crc_from 0 (take len buf))
unfolding uhf_crc16_ccitt_tab
uhf_crc-in_bounds buf len h = crc_loop-in_bounds len buf 0 h

pub uhf_crc-past_end :
    (buf : List ℕ) (len : ℕ) → length buf < len → uhf_crc16_ccitt_tab buf len ≡ none
unfolding uhf_crc16_ccitt_tab
uhf_crc-past_end buf len h = crc_loop-past_end len buf 0 h

pub take-IsBytes : (n : ℕ) (bs : List ℕ) → IsBytes bs → IsBytes (take n bs)
take-IsBytes zero bs h = tt
take-IsBytes (suc n) [] h = tt
take-IsBytes (suc n) (b ∷ bs) h = (h.0, take-IsBytes n bs h.1)

-- If the buffer holds at least `len` bytes, the checksum of the first `len` of them is the
-- remainder that the bit-serial register for x^16 + x^12 + x^5 + 1 computes.
pub uhf_crc-eq-serial :
    (buf : List ℕ) (len : ℕ)
    → len ≤ length buf
    → IsBytes buf
    → uhf_crc16_ccitt_tab buf len ≡ some (serial_crc 0 (take len buf))
uhf_crc-eq-serial buf len h bytes =
    uhf_crc-in_bounds buf len h
    ∙ ap some (crc_from-eq-serial_crc 0 (take len buf) (omega arith) (take-IsBytes len buf bytes))

pub crc_from-append : (c : ℕ) (xs ys : List ℕ) → crc_from c (xs ++ ys) ≡ crc_from (crc_from c xs) ys
crc_from-append c [] ys = refl
crc_from-append c (x ∷ xs) ys = crc_from-append (crc_step c x) xs ys

pub crc_from-lt : (c : ℕ) (bs : List ℕ) → c < 65536 → crc_from c bs < 65536
crc_from-lt c [] h = h
crc_from-lt c (b ∷ bs) h = crc_from-lt (crc_step c b) bs (crc_step-lt c b)

pub entry-zero : entry 0 ≡ 0
unfolding entry crc16_tab
entry-zero = refl

-- Feeding a register its own two bytes, high byte first, clears it.
pub crc_step_self : (c : ℕ) → c < 65536 → crc_step (crc_step c (c / 256)) (c % 256) ≡ 0
crc_step_self c h =
    let first : crc_step c (c / 256) ≡ c % 256 * 256 =
      crc_step_lem c (c / 256) h (omega arith) ∙ rw (xor_self, entry-zero) (zero-xor _) in
    let hi : c % 256 * 256 / 256 ≡ c % 256 = omega arith in
    let lo : c % 256 * 256 % 256 ≡ 0 = omega arith in
    rw first (
      crc_step_lem (c % 256 * 256) (c % 256) (omega arith) (omega arith)
      ∙ rw (hi, lo, xor_self, entry-zero) (xor_self 0))

-- A message followed by its own checksum, high byte first, has checksum zero.
pub crc_from-residue :
    (msg : List ℕ) → crc_from 0 (msg ++ crc_from 0 msg / 256 ∷ crc_from 0 msg % 256 ∷ []) ≡ 0
crc_from-residue msg =
    crc_from-append 0 msg _ ∙ crc_step_self (crc_from 0 msg) (crc_from-lt 0 msg (omega arith))
