-- ===== src/Crc/Detect.antt =====
-- What the checksum detects.
use instruction_parser.Prelude.{
  ℕ, ◌+◌, ◌*◌, ◌/◌, ◌%◌, ◌<◌, ◌≡◌, ◌≢◌, sym, ap, ◌∙◌, ◌↔◌, bit_xor, arith, List, [], ◌∷◌, ◌++◌,
}
use instruction_parser.Prelude.Bits.{
  xor_self, zero-xor, xor_comm, xor_injective, xor-lt_byte, xor-mod_byte, xor-zero, bytes_ext,
}
use instruction_parser.Crc.{crc_step, crc_from, IsBytes}
use instruction_parser.Crc.Table.{entry, entry-injective}
use instruction_parser.Crc.Reference.{crc_step_lem, crc_step-lt}
use instruction_parser.Crc.Frames.{crc_from-append, crc_from-lt, entry-zero, crc_from-residue}

-- The low byte of the new register is that of the table entry.
crc_step-low :
    (c b : ℕ) → c < 65536 → b < 256 → crc_step c b % 256 ≡ entry (bit_xor (c / 256) b) % 256
crc_step-low c b hc hb =
    let e : c % 256 * 256 % 256 ≡ 0 = omega arith in
    rw (crc_step_lem c b hc hb)
      (xor-mod_byte (entry (bit_xor (c / 256) b)) (c % 256 * 256) ∙ rw e (xor-zero _))

step_index :
    (c d a b : ℕ)
    → c < 65536
    → d < 65536
    → a < 256
    → b < 256
    → crc_step c a ≡ crc_step d b
    → bit_xor (c / 256) a ≡ bit_xor (d / 256) b
step_index c d a b hc hd ha hb e =
    entry-injective _ _ (xor-lt_byte (c / 256) a (omega arith) ha)
      (xor-lt_byte (d / 256) b (omega arith) hb)
      (sym (crc_step-low c a hc ha) ∙ ap (λ t. t % 256) e ∙ crc_step-low d b hd hb)

-- From one register, different bytes lead to different registers.
crc_step-byte_injective :
    (c a b : ℕ) → c < 65536 → a < 256 → b < 256 → crc_step c a ≡ crc_step c b → a ≡ b
crc_step-byte_injective c a b hc ha hb e =
    xor_injective a b (c / 256)
      (xor_comm a (c / 256) ∙ step_index c c a b hc hc ha hb e ∙ xor_comm (c / 256) b)

-- Under one byte, different registers lead to different registers.
crc_step-injective :
    (c d b : ℕ) → c < 65536 → d < 65536 → b < 256 → crc_step c b ≡ crc_step d b → c ≡ d
crc_step-injective c d b hc hd hb e =
    let x = bit_xor (c / 256) b in
    let index = step_index c d b b hc hd hb hb e in
    let lows : c % 256 * 256 ≡ d % 256 * 256 =
      xor_injective (c % 256 * 256) (d % 256 * 256) (entry x) (
        xor_comm _ _
        ∙ sym (crc_step_lem c b hc hb)
        ∙ e
        ∙ crc_step_lem d b hd hb
        ∙ rw (← index) (xor_comm _ _)) in
    bytes_ext c d (xor_injective (c / 256) (d / 256) b index) (omega arith)

crc_from-injective :
    (bs : List ℕ) (c d : ℕ)
    → IsBytes bs
    → c < 65536
    → d < 65536
    → crc_from c bs ≡ crc_from d bs
    → c ≡ d
crc_from-injective [] c d h hc hd e = e
crc_from-injective (b ∷ bs) c d h hc hd e =
    crc_step-injective c d b hc hd h.0 (
      crc_from-injective bs (crc_step c b) (crc_step d b) h.1 (crc_step-lt c b) (crc_step-lt d b) e)

-- Two messages of bytes that differ in exactly one byte have different checksums.
pub one_byte_detected :
    (xs ys : List ℕ) (a b : ℕ)
    → IsBytes ys
    → a < 256
    → b < 256
    → a ≢ b
    → crc_from 0 (xs ++ a ∷ ys) ≢ crc_from 0 (xs ++ b ∷ ys)
one_byte_detected xs ys a b h ha hb ne e =
    let c = crc_from 0 xs in
    let hc : c < 65536 = crc_from-lt 0 xs (omega arith) in
    ne (
      crc_step-byte_injective c a b hc ha hb (
        crc_from-injective ys (crc_step c a) (crc_step c b) h (crc_step-lt c a) (crc_step-lt c b)
          (sym (crc_from-append 0 xs (a ∷ ys)) ∙ e ∙ crc_from-append 0 xs (b ∷ ys))))

xor-eq_zero : (a b : ℕ) → bit_xor a b ≡ 0 → a ≡ b
xor-eq_zero a b e = xor_injective a b b (e ∙ sym (xor_self b))

-- Which register and byte clear the register.
crc_step-eq_zero :
    (c b : ℕ) → c < 65536 → b < 256 → crc_step c b ≡ 0 → (c / 256 ≡ b) × (c % 256 ≡ 0)
crc_step-eq_zero c b hc hb e =
    let x = bit_xor (c / 256) b in
    let fits : x < 256 = xor-lt_byte (c / 256) b (omega arith) hb in
    let low : entry x % 256 ≡ entry 0 % 256 =
      sym (crc_step-low c b hc hb) ∙ ap (λ t. t % 256) e ∙ sym (ap (λ t. t % 256) entry-zero) in
    let index : x ≡ 0 = entry-injective x 0 fits (omega arith) low in
    let rest : c % 256 * 256 ≡ 0 =
      sym (zero-xor (c % 256 * 256))
      ∙ ap (λ t. bit_xor t (c % 256 * 256)) (sym (ap entry index ∙ entry-zero))
      ∙ sym (crc_step_lem c b hc hb)
      ∙ e in
    (xor-eq_zero (c / 256) b index, omega arith)

-- The checksum of a message and two bytes is zero exactly if the bytes are the message's checksum,
-- high byte first.
pub crc_from-residue_iff :
    (msg : List ℕ) (a b : ℕ)
    → a < 256
    → b < 256
    → (crc_from 0 (msg ++ a ∷ b ∷ []) ≡ 0) ↔ (crc_from 0 msg ≡ a * 256 + b)
crc_from-residue_iff msg a b ha hb =
    let c = crc_from 0 msg in
    let hc : c < 65536 = crc_from-lt 0 msg (omega arith) in
    (
      λ e.
          let x = crc_step c a in
          let second =
            crc_step-eq_zero x b (crc_step-lt c a) hb
              (sym (crc_from-append 0 msg (a ∷ b ∷ [])) ∙ e) in
          let low : entry (bit_xor (c / 256) a) % 256 ≡ entry 0 % 256 =
            sym (crc_step-low c a hc ha) ∙ second.1 ∙ sym (ap (λ t. t % 256) entry-zero) in
          let index : bit_xor (c / 256) a ≡ 0 =
            entry-injective _ 0 (xor-lt_byte (c / 256) a (omega arith) ha) (omega arith) low in
          let ea : c / 256 ≡ a = xor-eq_zero (c / 256) a index in
          let ex : x ≡ c % 256 * 256 =
            crc_step_lem c a hc ha ∙ rw (index, entry-zero) (zero-xor (c % 256 * 256)) in
          let eb : c % 256 * 256 / 256 ≡ b = ap (λ t. t / 256) (sym ex) ∙ second.0 in omega arith,
      λ e.
          let ea : c / 256 ≡ a = omega arith in
          let eb : c % 256 ≡ b = omega arith in rw (ea, eb) at (crc_from-residue msg),
    )
