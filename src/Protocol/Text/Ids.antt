-- ===== src/Protocol/Text/Ids.antt =====
-- Which tokens the pattern lets through as the id of a line.
use instruction_parser.Prelude.{
  ℕ, ◌≡◌, ◌≢◌, ◌↔◌, refl, ap, ◌∙◌, true, List, [], ◌∷◌, ◌++◌, arith, ◌≤◌, ◌⊎◌,
}
use instruction_parser.Protocol.Text.{in_class, id_rest, id_matches}

-- Every character is `[` or a digit from 1 to 9.
abbrev pub AllInClass : List ℕ → Type 0
AllInClass [] = Unit {0}
AllInClass (c ∷ cs) = ((c ≡ b'[') ⊎ ((b'1' ≤ c) × (c ≤ b'9'))) × AllInClass cs

in_class_sound : (c : ℕ) → in_class c ≡ true → (c ≡ b'[') ⊎ ((b'1' ≤ c) × (c ≤ b'9'))
unfolding in_class
in_class_sound c h = ground arith

in_class_complete : (c : ℕ) → (c ≡ b'[') ⊎ ((b'1' ≤ c) × (c ≤ b'9')) → in_class c ≡ true
unfolding in_class
in_class_complete c h = ground arith

id_rest_sound :
    (t : List ℕ) → id_rest t ≡ true → (xs : List ℕ) × (t ≡ xs ++ b']' ∷ []) × AllInClass xs
unfolding id_rest
id_rest_sound [] h = cc
id_rest_sound (c ∷ []) h = ([], ground arith, tt)
id_rest_sound (c ∷ d ∷ cs) h =
    let (xs, e, all) = id_rest_sound (d ∷ cs) (ground arith) in
    (c ∷ xs, ap (λ t. c ∷ t) e, (in_class_sound c (ground arith), all))

id_rest_complete : (xs : List ℕ) → AllInClass xs → id_rest (xs ++ b']' ∷ []) ≡ true
unfolding id_rest
id_rest_complete [] h = refl
id_rest_complete (c ∷ []) h = ground (arith, in_class_complete c)
id_rest_complete (c ∷ d ∷ cs) h = ground (arith, in_class_complete c, id_rest_complete (d ∷ cs) h.1)

id_matches_sound :
    (t : List ℕ)
    → id_matches t ≡ true
    → (xs : List ℕ) × (t ≡ xs ++ b']' ∷ []) × (xs ≢ []) × AllInClass xs
unfolding id_matches
id_matches_sound [] h = cc
id_matches_sound (c ∷ cs) h =
    let (xs, e, all) = id_rest_sound cs (ground arith) in
    (c ∷ xs, ap (λ t. c ∷ t) e, (λ n. cc), (in_class_sound c (ground arith), all))

id_matches_complete : (xs : List ℕ) → xs ≢ [] → AllInClass xs → id_matches (xs ++ b']' ∷ []) ≡ true
unfolding id_matches
id_matches_complete [] ne all = absurd (ne refl)
id_matches_complete (c ∷ xs) ne all = ground (arith, in_class_complete c, id_rest_complete xs all.1)

-- A token passes as an id exactly if it is one or more of `[` and the digits 1 to 9, and then `]`.
-- No opening bracket is needed, and the digit 0 is refused.
pub id_matches_iff :
    (t : List ℕ)
    → (id_matches t ≡ true) ↔ ((xs : List ℕ) × (t ≡ xs ++ b']' ∷ []) × (xs ≢ []) × AllInClass xs)
id_matches_iff t =
    (id_matches_sound t, λ (xs, e, ne, all). ap id_matches e ∙ id_matches_complete xs ne all)
