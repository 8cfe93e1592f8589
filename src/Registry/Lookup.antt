-- ===== src/Registry/Lookup.antt =====
-- The walks that look for the first node that fits: `do_protocol_handle`, `do_cmd_list` and
-- `do_text_cmd` stop at it.
use instruction_parser.Prelude.{
  ℕ, zero, suc, ◌<◌, ◌≡◌, ◌⊎◌, inl, inr, refl, ◌++◌, Bool-cases, >>=-eq-some, Bool, Option, none,
  some, ◌>>=◌, List, [], ◌∷◌, length, arith, if◌then◌else◌,
}
use instruction_parser.Registry.Chains.{Chain}

-- `while (ptTmp) { if (fits) return ptTmp; else ptTmp = ptTmp->ptNext; } return NULL;` The outer
-- option is undefined behaviour in the test, or the end of the fuel.
unfoldable pub find_node : (ℕ → Option Bool) → (ℕ → Option ℕ) → ℕ → Option ℕ → Option (Option ℕ)
find_node fits next zero cur = none
find_node fits next (suc fuel) none = some none
find_node fits next (suc fuel) (some p) = fits p >>= λ b.
    let rest = find_node fits next fuel (next p) in if b then some (some p) else rest

-- The first of the list that fits.
unfoldable pub first_fit : (ℕ → Option Bool) → List ℕ → Option (Option ℕ)
first_fit fits [] = some none
first_fit fits (p ∷ ps) =
    fits p >>= λ b. let rest = first_fit fits ps in if b then some (some p) else rest

-- On the beginning of a list the search finds the same node or none.
pub first_fit-append :
    (fits : ℕ → Option Bool) (xs ys : List ℕ) (r : Option ℕ)
    → first_fit fits (xs ++ ys) ≡ some r
    → (first_fit fits xs ≡ some none) ⊎ (first_fit fits xs ≡ some r)
unfolding first_fit
first_fit-append fits [] ys r e = inl refl
first_fit-append fits (x ∷ xs) ys r e =
    let (b, fit, h) = >>=-eq-some (fits x) _ e in
    elim (Bool-cases b) [
      | inl t ↦ let h' = rw t at h in inr (rw (fit, ◌>>=◌, t) h')
      | inr f ↦ let h' = rw f at h in rw (fit, ◌>>=◌, f) (first_fit-append fits xs ys r h')
    ]

-- With fuel for the nodes and the final NULL, the walk finds the first node of the chain that fits.
pub find_node-eq-first_fit :
    (fits : ℕ → Option Bool) (next : ℕ → Option ℕ) (fuel : ℕ) (cur : Option ℕ) (xs : List ℕ)
    → Chain next cur xs
    → length xs < fuel
    → find_node fits next fuel cur ≡ first_fit fits xs
unfolding find_node first_fit
find_node-eq-first_fit fits next zero cur xs c h = absurd (omega arith)
find_node-eq-first_fit fits next (suc fuel) cur [] c h = rw c
find_node-eq-first_fit fits next (suc fuel) cur (x ∷ xs) c h =
    rw (c.0) (rw (find_node-eq-first_fit fits next fuel (next x) xs c.1 (omega arith)))
