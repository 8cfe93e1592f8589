-- ===== src/Protocol/Words.antt =====
-- Big-endian numbers in a buffer, as the parsers put them together.
use instruction_parser.Prelude.{
  ℕ, zero, suc, ◌+◌, ◌*◌, ◌%◌, ◌^◌, ◌<◌, ◌≡◌, refl, ap, bit_or, Option, none, some, ◌>>=◌, List, [],
  ◌∷◌, get_elem?, arith, length,
}
use instruction_parser.Prelude.Bits.{or-byte, or-word, or-three_bytes}
use instruction_parser.Crc.{IsBytes}

-- `buf[i] << 8 | buf[i + 1]`, as a `u16_t`.
unfoldable pub word_at : List ℕ → ℕ → Option ℕ
word_at buf i = do
  h ← get_elem? buf i
  l ← get_elem? buf (i + 1)
  some (bit_or (h * 2 ^ 8) l % 2 ^ 16)

-- `buf[i] << 24 | buf[i + 1] << 16 | buf[i + 2] << 8 | buf[i + 3]`, as a `u32_t`.
unfoldable pub long_at : List ℕ → ℕ → Option ℕ
long_at buf i = do
  a ← get_elem? buf i
  b ← get_elem? buf (i + 1)
  c ← get_elem? buf (i + 2)
  d ← get_elem? buf (i + 3)
  some (bit_or (bit_or (bit_or (a * 2 ^ 24) (b * 2 ^ 16)) (c * 2 ^ 8)) d % 2 ^ 32)

-- The byte at an index, and that it is one.
pub byte_at :
    (buf : List ℕ) (i : ℕ)
    → IsBytes buf
    → i < length buf
    → (b : ℕ) × (get_elem? buf i ≡ some b) × (b < 256)
byte_at [] i bytes h = absurd (omega arith)
byte_at (b ∷ bs) zero bytes h = (b, refl, bytes.0)
byte_at (b ∷ bs) (suc i) bytes h = byte_at bs i bytes.1 (omega arith)

pub word_at_lem :
    (buf : List ℕ) (i h l : ℕ)
    → get_elem? buf i ≡ some h
    → get_elem? buf (i + 1) ≡ some l
    → h < 256
    → l < 256
    → word_at buf i ≡ some (h * 256 + l)
unfolding word_at
word_at_lem buf i h l eh el hh hl = rw (eh, el, ◌>>=◌) (ap some (rw (or-byte h l hl) (omega arith)))

pub word_at-past_end : (buf : List ℕ) (i : ℕ) → get_elem? buf (i + 1) ≡ none → word_at buf i ≡ none
unfolding word_at
word_at-past_end buf i e = ground arith

pub long_at_lem :
    (buf : List ℕ) (i a b c d : ℕ)
    → get_elem? buf i ≡ some a
    → get_elem? buf (i + 1) ≡ some b
    → get_elem? buf (i + 2) ≡ some c
    → get_elem? buf (i + 3) ≡ some d
    → a < 256
    → b < 256
    → c < 256
    → d < 256
    → long_at buf i ≡ some (a * 16777216 + b * 65536 + c * 256 + d)
unfolding long_at
long_at_lem buf i a b c d ea eb ec ed ha hb hc hd =
    let top : bit_or (a * 16777216) (b * 65536) ≡ a * 16777216 + b * 65536 =
      or-three_bytes a (b * 65536) (omega arith) in
    let high : a * 16777216 + b * 65536 ≡ (a * 256 + b) * 65536 = omega arith in
    let mid : bit_or ((a * 256 + b) * 65536) (c * 256) ≡ (a * 256 + b) * 65536 + c * 256 =
      or-word (a * 256 + b) (c * 256) (omega arith) in
    let low : (a * 256 + b) * 65536 + c * 256 ≡ (a * 65536 + b * 256 + c) * 256 = omega arith in
    rw (ea, eb, ec, ed, ◌>>=◌)
      (ap some (rw (top, high, mid, low, or-byte (a * 65536 + b * 256 + c) d hd) (omega arith)))
