-- ===== src/Crc/Reference.antt =====
-- The table-driven step is division by the polynomial: eight shifts of a feedback register.
use instruction_parser.Prelude.{
  ℕ, zero, suc, ◌+◌, ◌*◌, ◌/◌, ◌%◌, ◌<◌, ◌≡◌, refl, sym, ap, ◌∙◌, bit_xor, arith, List, [], ◌∷◌,
  ◌==◌, if◌then◌else◌,
}
use instruction_parser.Prelude.Bits.{
  xor_comm, xor_assoc, zero-xor, xor-zero, xor-parity, xor_split, xor-div_byte, xor-mod_byte,
  xor-lt_byte, xor-mod_word, xor-top_bit, bytes_ext,
}
use instruction_parser.Crc.{crc_step, crc_from, IsBytes}
use instruction_parser.Crc.Table.{
  entry, entry_lem, entry-lt, shift_bit, shift_bits, shift_bits_byte,
}

-- The bit-serial definition: the byte is added at the top of the register, which then shifts.
pub serial_step : ℕ → ℕ → ℕ
serial_step c b = shift_bits 8 (bit_xor c (b * 256))

pub serial_crc : ℕ → List ℕ → ℕ
serial_crc c [] = c
serial_crc c (b ∷ bs) = serial_crc (serial_step c b) bs

xor-double : (a b : ℕ) → bit_xor (a * 2) (b * 2) ≡ bit_xor a b * 2
xor-double a b =
    let ea : a * 2 / 2 ≡ a = omega arith in
    let eb : b * 2 / 2 ≡ b = omega arith in xor_split (a * 2) (b * 2) ∙ rw (ea, eb) (omega arith)

xor_swap : (a b c d : ℕ) → bit_xor (bit_xor a b) (bit_xor c d) ≡ bit_xor (bit_xor a c) (bit_xor b d)
xor_swap a b c d =
    rw (xor_assoc, ← xor_assoc b c d, xor_comm b c, xor_assoc c b d)
      (sym (xor_assoc a c (bit_xor b d)))

feedback : ℕ → ℕ
feedback n = if n == 1 then 0x1021 else 0

feedback-xor :
    (x y z : ℕ) → z ≡ (x + y) % 2 → x < 2 → y < 2 → feedback z ≡ bit_xor (feedback x) (feedback y)
feedback-xor zero zero z e p q = rw e (unfold feedback in refl)
feedback-xor zero (suc zero) z e p q = rw e (unfold feedback in refl)
feedback-xor (suc zero) zero z e p q = rw e (unfold feedback in refl)
feedback-xor (suc zero) (suc zero) z e p q = rw e (unfold feedback in refl)
feedback-xor zero (suc (suc y)) z e p q = absurd (omega arith)
feedback-xor (suc zero) (suc (suc y)) z e p q = absurd (omega arith)
feedback-xor (suc (suc x)) y z e p q = absurd (omega arith)

shift_bit-xor : (a b : ℕ) → shift_bit (bit_xor a b) ≡ bit_xor (shift_bit a) (shift_bit b)
unfolding shift_bit feedback
shift_bit-xor a b =
    let doubled : bit_xor a b * 2 % 65536 ≡ bit_xor (a * 2 % 65536) (b * 2 % 65536) =
      rw (← xor-double a b) (xor-mod_word (a * 2) (b * 2)) in
    let top : bit_xor a b / 32768 % 2 ≡ (a / 32768 % 2 + b / 32768 % 2) % 2 =
      rw (xor-top_bit a b) (omega (arith, xor-parity (a / 32768) (b / 32768))) in
    rw
      (
        doubled,
        feedback-xor (a / 32768 % 2) (b / 32768 % 2) (bit_xor a b / 32768 % 2) top (omega arith)
            (omega arith),
      )
      (xor_swap _ _ _ _)

shift_bits-xor :
    (k a b : ℕ) → shift_bits k (bit_xor a b) ≡ bit_xor (shift_bits k a) (shift_bits k b)
unfolding shift_bits
shift_bits-xor zero a b = refl
shift_bits-xor (suc k) a b = rw (shift_bit-xor a b) (shift_bits-xor k (shift_bit a) (shift_bit b))

-- The table step, byte by byte.
pub crc_step_lem :
    (c b : ℕ)
    → c < 65536
    → b < 256
    → crc_step c b ≡ bit_xor (entry (bit_xor (c / 256) b)) (c % 256 * 256)
unfolding crc_step entry
crc_step_lem c b hc hb =
    let t = bit_xor (c / 256) b in
    let t_fits : t < 256 = xor-lt_byte (c / 256) b (omega arith) hb in
    let et : t % 256 ≡ t = omega arith in
    let ee : entry t % 65536 ≡ entry t = omega (arith, entry-lt t t_fits) in
    let ec : c * 256 % 65536 ≡ c % 256 * 256 = omega arith in
    rw et (xor-mod_word (entry t) (c * 256) ∙ rw (ee, ec))

pub crc_step-lt : (c b : ℕ) → crc_step c b < 65536
unfolding crc_step
crc_step-lt c b = omega arith

split_register :
    (c b : ℕ)
    → c < 65536
    → b < 256
    → bit_xor c (b * 256) ≡ bit_xor (bit_xor (c / 256) b * 256) (c % 256)
split_register c b hc hb =
    let x = bit_xor (c / 256) b in
    let eb : b * 256 / 256 ≡ b = omega arith in
    let eb' : b * 256 % 256 ≡ 0 = omega arith in
    let ex : x * 256 / 256 ≡ x = omega arith in
    let ex' : x * 256 % 256 ≡ 0 = omega arith in
    let el : c % 256 / 256 ≡ 0 = omega arith in
    let el' : c % 256 % 256 ≡ c % 256 = omega arith in
    bytes_ext _ _
      (xor-div_byte c (b * 256)
        ∙ rw eb (sym (xor-div_byte (x * 256) (c % 256) ∙ rw (ex, el) (xor-zero x))))
      (xor-mod_byte c (b * 256)
        ∙ rw eb' (
            xor-zero (c % 256)
            ∙ sym (xor-mod_byte (x * 256) (c % 256) ∙ rw (ex', el') (zero-xor (c % 256)))))

pub crc_step-eq-serial : (c b : ℕ) → c < 65536 → b < 256 → crc_step c b ≡ serial_step c b
unfolding serial_step
crc_step-eq-serial c b hc hb =
    let x = bit_xor (c / 256) b in
    crc_step_lem c b hc hb
    ∙ rw (
      split_register c b hc hb,
      shift_bits-xor 8 (x * 256) (c % 256),
      ← entry_lem x (xor-lt_byte (c / 256) b (omega arith) hb),
      shift_bits_byte (c % 256) (omega arith),
    )

-- On a buffer of bytes the table-driven checksum is the remainder that the bit-serial register
-- computes, from any 16-bit start.
pub crc_from-eq-serial_crc :
    (c : ℕ) (bs : List ℕ) → c < 65536 → IsBytes bs → crc_from c bs ≡ serial_crc c bs
unfolding serial_crc
crc_from-eq-serial_crc c [] hc h = refl
crc_from-eq-serial_crc c (b ∷ bs) hc h =
    crc_from-eq-serial_crc (crc_step c b) bs (crc_step-lt c b) h.1
    ∙ ap (λ r. serial_crc r bs) (crc_step-eq-serial c b hc h.0)
