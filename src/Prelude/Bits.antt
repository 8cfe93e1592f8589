-- ===== src/Prelude/Bits.antt =====
-- Laws of `^` (exclusive or) at every width, from the digit recursion that it stands for.
use Prim.Native.Nat.{
  ℕ, zero, suc, ◌+◌, ◌*◌, ◌/◌, ◌%◌, ◌≤◌, ◌<◌, bit_xor, bit_or, max, digits, bitwise,
  bit_xor-bitwise, bit_or-bitwise, differ,
}
use mathlib.Core.Path.{◌≡◌, refl, ap, sym, ◌∙◌}
use native.Mathlib.Omega.{arith}
use native.Mathlib.Decide.{dec_le}

-- `digits` has a count of rounds that starts at the first number, which is more than it needs.
-- A round more than that changes nothing.
round_more :
    (f : ℕ → ℕ → ℕ) (n a b : ℕ) → a ≤ n → digits (λ y. y) f (suc n) a b ≡ digits (λ y. y) f n a b
round_more f n zero b h =
    elim n as (λ m. digits (λ y. y) f (suc m) zero b ≡ digits (λ y. y) f m zero b) [
      | zero ↦ refl
      | suc m ↦ refl
    ]
round_more f zero (suc a) b h = absurd (omega arith)
round_more f (suc n) (suc a) b h =
    ap (λ t. t * 2 + f (suc a % 2) (b % 2)) (round_more f n (suc a / 2) (b / 2) (omega arith))

-- So every count that is large enough gives the same.
rounds : (f : ℕ → ℕ → ℕ) (n a b : ℕ) → a ≤ n → digits (λ y. y) f n a b ≡ bitwise (λ y. y) f a b
rounds f zero a b h = let e : a ≡ 0 = omega arith in rw e
rounds f (suc n) a b h = elim (dec_le a n) [
  | yes p ↦ round_more f n a b p ∙ rounds f n a b p
  | no p ↦ let e : a ≡ suc n = omega arith in rw e
]

lowest_digit :
    (f : ℕ → ℕ → ℕ) (a b : ℕ)
    → bitwise (λ y. y) f (suc a) b
      ≡ bitwise (λ y. y) f (suc a / 2) (b / 2) * 2 + f (suc a % 2) (b % 2)
lowest_digit f a b =
    ap (λ t. t * 2 + f (suc a % 2) (b % 2)) (rounds f a (suc a / 2) (b / 2) (omega arith))

xor_of_digits : {x y : ℕ} → y < 2 → x < 2 → (x + y) % 2 ≡ differ x y
xor_of_digits {x = zero} {y = n} low_y low_x = omega arith
xor_of_digits {x = suc zero} {y = suc zero} low_y low_x = refl
xor_of_digits {x = suc zero} {y = zero} low_y low_x = refl
xor_of_digits {x = suc (suc m)} {y = n} low_y low_x = absurd (omega arith)
xor_of_digits {x = suc zero} {y = suc (suc n)} low_y low_x = absurd (omega arith)

-- Exclusive or is the sum of the lowest digits without its carry, and the rest shifted back.
pub xor_split : (a b : ℕ) → bit_xor a b ≡ (a + b) % 2 + bit_xor (a / 2) (b / 2) * 2
xor_split (suc a) b =
    let last : (suc a % 2 + b % 2) % 2 ≡ differ (suc a % 2) (b % 2) =
      xor_of_digits (omega arith) (omega arith) in
    simp bit_xor-bitwise (omega (lowest_digit differ a b, last, arith))
xor_split zero b = simp bit_xor-bitwise (omega arith)

xor_self_fuel : (n a : ℕ) → a ≤ n → bit_xor a a ≡ 0
xor_self_fuel n zero h = refl
xor_self_fuel zero (suc a) h = absurd (omega arith)
xor_self_fuel (suc n) (suc a) h =
    omega (arith, xor_split (suc a) (suc a), xor_self_fuel n (suc a / 2) (omega arith))

pub xor_self : (a : ℕ) → bit_xor a a ≡ 0
xor_self a = xor_self_fuel a a (omega arith)

pub zero-xor : (a : ℕ) → bit_xor 0 a ≡ a
zero-xor a = bit_xor-bitwise 0 a

xor_comm_fuel : (n a b : ℕ) → a ≤ n → b ≤ n → bit_xor a b ≡ bit_xor b a
xor_comm_fuel zero zero zero p q = refl
xor_comm_fuel zero (suc a) b p q = absurd (omega arith)
xor_comm_fuel zero zero (suc b) p q = absurd (omega arith)
xor_comm_fuel (suc n) a b p q = omega (
  arith,
  xor_split a b,
  xor_split b a,
  xor_comm_fuel n (a / 2) (b / 2) (omega arith) (omega arith),
)

pub xor_comm : (a b : ℕ) → bit_xor a b ≡ bit_xor b a
xor_comm a b = xor_comm_fuel (a + b) a b (omega arith) (omega arith)

pub xor-zero : (a : ℕ) → bit_xor a 0 ≡ a
xor-zero a = xor_comm a 0 ∙ zero-xor a

-- The two parts of an exclusive or, with the operation shut behind them.
pub xor-half : (a b : ℕ) → bit_xor a b / 2 ≡ bit_xor (a / 2) (b / 2)
xor-half a b = omega (arith, xor_split a b)

pub xor-parity : (a b : ℕ) → bit_xor a b % 2 ≡ (a + b) % 2
xor-parity a b = omega (arith, xor_split a b)

xor_assoc_fuel :
    (n a b c : ℕ) → a ≤ n → b ≤ n → c ≤ n → bit_xor (bit_xor a b) c ≡ bit_xor a (bit_xor b c)
xor_assoc_fuel zero a b c p q r =
    let za : a ≡ 0 = omega arith in
    let zb : b ≡ 0 = omega arith in let zc : c ≡ 0 = omega arith in rw (za, zb, zc)
xor_assoc_fuel (suc n) a b c p q r =
    xor_split (bit_xor a b) c
    ∙ rw
        (
          xor-half a b,
          xor_assoc_fuel n (a / 2) (b / 2) (c / 2) (omega arith) (omega arith) (omega arith),
          ← xor-half b c,
        )
        (omega (arith, xor_split a (bit_xor b c), xor-parity a b, xor-parity b c))

pub xor_assoc : (a b c : ℕ) → bit_xor (bit_xor a b) c ≡ bit_xor a (bit_xor b c)
xor_assoc a b c = xor_assoc_fuel (a + b + c) a b c (omega arith) (omega arith) (omega arith)

pub xor_cancel : (a b : ℕ) → bit_xor (bit_xor a b) b ≡ a
xor_cancel a b = rw (xor_assoc, xor_self) (xor-zero a)

pub xor_injective : (a b c : ℕ) → bit_xor a c ≡ bit_xor b c → a ≡ b
xor_injective a b c e = sym (xor_cancel a c) ∙ ap (λ t. bit_xor t c) e ∙ xor_cancel b c

-- `n >> k`, and the low `k` bits, digit by digit.
abbrev high : ℕ → ℕ → ℕ
high zero n = n
high (suc k) n = high k (n / 2)

abbrev low : ℕ → ℕ → ℕ
low zero n = 0
low (suc k) n = low k (n / 2) * 2 + n % 2

high-xor : (k a b : ℕ) → high k (bit_xor a b) ≡ bit_xor (high k a) (high k b)
high-xor zero a b = refl
high-xor (suc k) a b = rw xor-half (high-xor k (a / 2) (b / 2))

xor-digits :
    (x y p q : ℕ) → p < 2 → q < 2 → bit_xor (x * 2 + p) (y * 2 + q) ≡ bit_xor x y * 2 + (p + q) % 2
xor-digits x y p q hp hq =
    let ex : (x * 2 + p) / 2 ≡ x = omega arith in
    let ey : (y * 2 + q) / 2 ≡ y = omega arith in
    xor_split (x * 2 + p) (y * 2 + q) ∙ rw (ex, ey) (omega arith)

low-xor : (k a b : ℕ) → low k (bit_xor a b) ≡ bit_xor (low k a) (low k b)
low-xor zero a b = refl
low-xor (suc k) a b =
    rw (xor-half a b, low-xor k (a / 2) (b / 2))
      (omega (
        arith,
        xor-parity a b,
        xor-digits (low k (a / 2)) (low k (b / 2)) (a % 2) (b % 2) (omega arith) (omega arith),
      ))

-- The high and low bytes of an exclusive or.
pub xor-div_byte : (a b : ℕ) → bit_xor a b / 256 ≡ bit_xor (a / 256) (b / 256)
xor-div_byte a b =
    let e : (n : ℕ) → n / 256 ≡ high 8 n = λ n. omega arith in
    rw (e (bit_xor a b), e a, e b) (high-xor 8 a b)

pub xor-mod_byte : (a b : ℕ) → bit_xor a b % 256 ≡ bit_xor (a % 256) (b % 256)
xor-mod_byte a b =
    let e : (n : ℕ) → n % 256 ≡ low 8 n = λ n. omega arith in
    rw (e (bit_xor a b), e a, e b) (low-xor 8 a b)

pub xor-lt_byte : (a b : ℕ) → a < 256 → b < 256 → bit_xor a b < 256
xor-lt_byte a b p q =
    let ea : a % 256 ≡ a = omega arith in
    let eb : b % 256 ≡ b = omega arith in
    let e : bit_xor a b ≡ bit_xor a b % 256 = sym (rw (ea, eb) at (xor-mod_byte a b)) in
    rw e (omega arith)

-- The same for a 16-bit word, and for its top bit.
pub xor-mod_word : (a b : ℕ) → bit_xor a b % 65536 ≡ bit_xor (a % 65536) (b % 65536)
xor-mod_word a b =
    let e : (n : ℕ) → n % 65536 ≡ low 16 n = λ n. omega arith in
    rw (e (bit_xor a b), e a, e b) (low-xor 16 a b)

pub xor-top_bit : (a b : ℕ) → bit_xor a b / 32768 ≡ bit_xor (a / 32768) (b / 32768)
xor-top_bit a b =
    let e : (n : ℕ) → n / 32768 ≡ high 15 n = λ n. omega arith in
    rw (e (bit_xor a b), e a, e b) (high-xor 15 a b)

pub bytes_ext : (x y : ℕ) → x / 256 ≡ y / 256 → x % 256 ≡ y % 256 → x ≡ y
bytes_ext x y p q = omega arith

pub xor-lt_word : (a b : ℕ) → a < 65536 → b < 65536 → bit_xor a b < 65536
xor-lt_word a b p q =
    let ea : a % 65536 ≡ a = omega arith in
    let eb : b % 65536 ≡ b = omega arith in
    let e : bit_xor a b ≡ bit_xor a b % 65536 = sym (rw (ea, eb) at (xor-mod_word a b)) in
    rw e (omega arith)

-- In an inclusive or the lowest digits have no carry either.
pub or_split : (a b : ℕ) → bit_or a b ≡ max (a % 2) (b % 2) + bit_or (a / 2) (b / 2) * 2
or_split (suc a) b = simp bit_or-bitwise (omega (lowest_digit max a b, arith))
or_split zero b = simp bit_or-bitwise (omega arith)

or-zero_fuel : (n a : ℕ) → a ≤ n → bit_or a 0 ≡ a
or-zero_fuel n zero h = refl
or-zero_fuel zero (suc a) h = absurd (omega arith)
or-zero_fuel (suc n) (suc a) h =
    omega (arith, or_split (suc a) 0, or-zero_fuel n (suc a / 2) (omega arith))

abbrev doubled : ℕ → ℕ → ℕ
doubled zero n = n
doubled (suc k) n = doubled k n * 2

or-doubled : (k h l : ℕ) → high k l ≡ 0 → bit_or (doubled k h) l ≡ doubled k h + l
or-doubled zero h l e = rw e (or-zero_fuel h h (omega arith) ∙ omega arith)
or-doubled (suc k) h l e =
    let x : doubled k h * 2 / 2 ≡ doubled k h = omega arith in
    or_split (doubled k h * 2) l ∙ rw x (omega (arith, or-doubled k h (l / 2) e))

-- `h << 8 | l`, `h << 16 | l` and `h << 24 | l` of fields that do not overlap are sums.
pub or-byte : (h l : ℕ) → l < 256 → bit_or (h * 256) l ≡ h * 256 + l
or-byte h l p = let e : h * 256 ≡ doubled 8 h = omega arith in rw e (or-doubled 8 h l (omega arith))

pub or-word : (h l : ℕ) → l < 65536 → bit_or (h * 65536) l ≡ h * 65536 + l
or-word h l p =
    let e : h * 65536 ≡ doubled 16 h = omega arith in rw e (or-doubled 16 h l (omega arith))

pub or-three_bytes : (h l : ℕ) → l < 16777216 → bit_or (h * 16777216) l ≡ h * 16777216 + l
or-three_bytes h l p =
    let e : h * 16777216 ≡ doubled 24 h = omega arith in rw e (or-doubled 24 h l (omega arith))
