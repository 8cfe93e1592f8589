-- ===== src/Functions/Network.antt =====
-- functions/network.c `check_right_ip`. `atoi` is a parameter.
pub mod Requests
pub mod Failures
pub mod Dotted
pub mod Answers
pub mod TextAnswers
use instruction_parser.Prelude.{
  ℕ, zero, suc, ◌≡◌, ◌↔◌, refl, ℤ, pos, negsuc, is_nonzero, is_neg, Bool, true, false, ◌||◌, List,
  [], ◌∷◌, length, ltb, ◌==◌, if◌then◌else◌, Bool-cases, inl, inr, arith,
}
use instruction_parser.Strings.{tokens}
use instruction_parser.Clients.{decrement}

-- The string `ip` after the first call of `strtok`, which puts a NUL behind the first token.
unfoldable pub up_to : ℕ → List ℕ → List ℕ
up_to d [] = []
up_to d (c ∷ cs) = let rest = up_to d cs in if c == d then [] else c ∷ rest

unfoldable pub cut : ℕ → List ℕ → List ℕ
unfolding up_to
cut d [] = []
cut d (c ∷ cs) = let rest = cut d cs in if c == d then c ∷ rest else c ∷ up_to d cs

unfoldable pub out_of_range : ℤ → Bool
out_of_range v = is_neg v || (elim v [ pos n ↦ ltb 255 n | negsuc n ↦ false ])

-- The loop. `value` is `atoi(ip)`, which is the same in each round.
unfoldable pub count_down : ℤ → ℤ → List (List ℕ) → ℤ
count_down value i [] = i
count_down value i (t ∷ ts) =
    let rest = count_down value (decrement i) ts in if out_of_range value then i else rest

unfoldable pub check_right_ip : (List ℕ → ℤ) → List ℕ → ℤ
check_right_ip atoi ip =
    let i = count_down (atoi (cut b'.' ip)) (pos 4) (tokens b'.' ip) in
    if is_nonzero i then negsuc 0 else pos 0

below : (v : ℤ) (n : ℕ) (ts : List (List ℕ)) → is_nonzero (count_down v (negsuc n) ts) ≡ true
unfolding count_down
below v n [] = refl
below v n (t ∷ ts) = ground (arith, below v (suc n) ts)

stopped : (v : ℤ) (ts : List (List ℕ)) → out_of_range v ≡ true → count_down v (pos 4) ts ≡ pos 4
unfolding count_down
stopped v [] e = refl
stopped v (t ∷ ts) e = rw e

counted :
    (v : ℤ) (k : ℕ) (ts : List (List ℕ))
    → out_of_range v ≡ false
    → (is_nonzero (count_down v (pos k) ts) ≡ false) ↔ (length ts ≡ k)
unfolding count_down
counted v zero [] e = ((λ h. refl), λ h. refl)
counted v (suc k) [] e = ((λ h. cc), λ h. cc)
counted v zero (t ∷ ts) e = ground (arith, below v 0 ts)
counted v (suc k) (t ∷ ts) e = ground (arith, counted v k ts e)

-- `check_right_ip` returns 0 for exactly the strings of four tokens whose beginning, up to the end of
-- the first token, `atoi` reads as a number from 0 to 255: the other three numbers are not looked at.
pub check_right_ip-accepts_iff :
    (atoi : List ℕ → ℤ) (ip : List ℕ)
    → (check_right_ip atoi ip ≡ pos 0)
      ↔ ((length (tokens b'.' ip) ≡ 4) × (out_of_range (atoi (cut b'.' ip)) ≡ false))
unfolding check_right_ip
check_right_ip-accepts_iff atoi ip = elim (Bool-cases (out_of_range (atoi (cut b'.' ip)))) [
  | inl bad ↦ ground (arith, stopped (atoi (cut b'.' ip)) (tokens b'.' ip) bad)
  | inr good ↦ ground (arith, counted (atoi (cut b'.' ip)) 4 (tokens b'.' ip) good)
]
