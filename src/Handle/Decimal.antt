-- ===== src/Handle/Decimal.antt =====
-- The numbers of text replies can be read back by `string_to_integer`.
use instruction_parser.Prelude.{
  length, length-append, ℕ, zero, suc, ◌+◌, ◌*◌, ◌/◌, ◌%◌, ◌≤◌, ◌<◌, ◌≡◌, refl, ap, ◌∙◌, some,
  ◌>>=◌, List, [], ◌∷◌, ◌++◌, ltb, arith, Bool-cases, Option-cases, inl, inr,
}
use instruction_parser.Strings.Laws.{Free, Free-append}
use instruction_parser.Protocol.Text.{add_digit, string_to_integer, string_to_integer_from}
use instruction_parser.Handle.{decimal_from, decimal}

-- Reading on from one string into another.
pub read-append :
    (xs ys : List ℕ) (v : ℕ)
    → string_to_integer_from v (xs ++ ys)
      ≡ (string_to_integer_from v xs >>= λ u. string_to_integer_from u ys)
unfolding string_to_integer_from
read-append [] ys v = refl
read-append (x ∷ xs) ys v = elim (Option-cases (add_digit v x)) [
  | inl e ↦ rw (e, ◌>>=◌)
  | inr (u, e) ↦ rw (e, ◌>>=◌) (read-append xs ys u)
]

read_digit :
    (v d : ℕ)
    → d < 10
    → v * 10 + 48 + d < 2147483648
    → string_to_integer_from v ((48 + d) ∷ []) ≡ some (v * 10 + d)
unfolding string_to_integer_from add_digit
read_digit v d h small = ground arith

read-decimal_from :
    (fuel n : ℕ) → n ≤ fuel → n < 1000000 → string_to_integer_from 0 (decimal_from fuel n) ≡ some n
unfolding decimal_from
read-decimal_from zero n h small =
    read_digit 0 (n % 10) (omega arith) (omega arith) ∙ ap some (omega arith)
read-decimal_from (suc fuel) n h small = elim (Bool-cases (ltb n 10)) [
  | inl e ↦ rw e (read_digit 0 n (ground arith) (ground arith) ∙ ap some (omega arith))
  | inr e ↦
      let big : 10 ≤ n = ground arith in
      rw e (
        read-append (decimal_from fuel (n / 10)) ((48 + n % 10) ∷ []) 0
        ∙ rw (read-decimal_from fuel (n / 10) (omega arith) (omega arith), ◌>>=◌)
            (read_digit (n / 10) (n % 10) (omega arith) (omega arith) ∙ ap some (omega arith)))
]

-- Every frame number, printed by a reply, is read back by the text parser.
pub string_to_integer-decimal : (n : ℕ) → n < 65536 → string_to_integer (decimal n) ≡ some n
unfolding string_to_integer decimal
string_to_integer-decimal n h = read-decimal_from n n (omega arith) (omega arith)

-- The characters of a number are digits, and there is at least one.
decimal_from-Free : (d fuel n : ℕ) → d < 48 → Free d (decimal_from fuel n)
unfolding decimal_from
decimal_from-Free d zero n h = (omega arith, tt)
decimal_from-Free d (suc fuel) n h = elim (Bool-cases (ltb n 10)) [
  | inl e ↦ rw e (omega arith, tt)
  | inr e ↦ rw e (
      Free-append d (decimal_from fuel (n / 10)) ((48 + n % 10) ∷ [])
        (decimal_from-Free d fuel (n / 10) h) (omega arith, tt))
]

pub decimal-Free : (d n : ℕ) → d < 48 → Free d (decimal n)
unfolding decimal
decimal-Free d n h = decimal_from-Free d n n h

one_digit : (fuel n : ℕ) → n < 10 → length (decimal_from fuel n) ≡ 1
unfolding decimal_from
one_digit zero n h = refl
one_digit (suc fuel) n h = ground arith

-- One digit more for a factor of ten.
digit_more :
    (k limit : ℕ)
    → ((fuel n : ℕ) → n < limit → length (decimal_from fuel n) ≤ suc k)
    → (fuel n : ℕ) → n < limit * 10
    → length (decimal_from fuel n) ≤ suc (suc k)
unfolding decimal_from
digit_more k limit shorter zero n h = omega arith
digit_more k limit shorter (suc fuel) n h = elim (Bool-cases (ltb n 10)) [
  | inl e ↦ rw e (omega arith)
  | inr e ↦ rw e (
      omega (
        arith,
        length-append (decimal_from fuel (n / 10)) ((48 + n % 10) ∷ []),
        shorter fuel (n / 10) (omega arith),
      ))
]

pub length-decimal : (n : ℕ) → n < 256 → length (decimal n) ≤ 3
unfolding decimal
length-decimal n h =
    digit_more 1 100 (digit_more 0 10 (λ f m l. omega (arith, one_digit f m l))) n n (omega arith)

pub length-decimal_word : (n : ℕ) → n < 65536 → length (decimal n) ≤ 5
unfolding decimal
length-decimal_word n h =
    digit_more 3 10000
      (digit_more 2 1000
        (digit_more 1 100 (digit_more 0 10 (λ f m l. omega (arith, one_digit f m l)))))
      n n (omega arith)

append-cons : (xs : List ℕ) (y : ℕ) → (c : ℕ) × (s : List ℕ) × (xs ++ y ∷ [] ≡ c ∷ s)
append-cons [] y = (y, [], refl)
append-cons (x ∷ xs) y = (x, xs ++ y ∷ [], refl)

decimal_from-cons : (fuel n : ℕ) → (c : ℕ) × (s : List ℕ) × (decimal_from fuel n ≡ c ∷ s)
unfolding decimal_from
decimal_from-cons zero n = (48 + n % 10, [], refl)
decimal_from-cons (suc fuel) n = elim (Bool-cases (ltb n 10)) [
  | inl e ↦ rw e (48 + n, [], refl)
  | inr e ↦ rw e (append-cons (decimal_from fuel (n / 10)) (48 + n % 10))
]

pub decimal-cons : (n : ℕ) → (c : ℕ) × (s : List ℕ) × (decimal n ≡ c ∷ s)
unfolding decimal
decimal-cons n = decimal_from-cons n n
