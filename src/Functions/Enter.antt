-- ===== src/Functions/Enter.antt =====
-- `cmd_register_enter`. The command structures are the nodes 0 to 8, in the order of their
-- registration.
use instruction_parser.Prelude.{
  ℕ, ◌+◌, ◌≡◌, pos, Option, none, some, ◌>>=◌, List, [], ◌∷◌, refl, sym, subst, ◌≢◌, ◌≤◌, ◌++◌,
  length, length-append, append-nil, append_assoc, arith,
}
use instruction_parser.Registry.{Links, register}
use instruction_parser.Registry.Chains.{Chain, Distinct, before, before-Free, register-Chain}
use instruction_parser.Strings.Laws.{Free}

-- The registrations of one file, one node after another. Their results are all 0, and so is the sum,
-- which is left out.
unfoldable pub register_all : ℕ → Links → List ℕ → Option Links
register_all fuel l [] = some l
register_all fuel l (p ∷ ps) = register fuel l p >>= λ r. register_all fuel r.1 ps

unfoldable pub cmd_register_enter : Links → Option Links
cmd_register_enter l = do
  l1 ← register_all 9 l (0 ∷ [])
  l2 ← register_all 9 l1 (1 ∷ [])
  l3 ← register_all 9 l2 (2 ∷ 3 ∷ [])
  l4 ← register_all 9 l3 (4 ∷ 5 ∷ [])
  register_all 9 l4 (6 ∷ 7 ∷ 8 ∷ [])

-- A node that comes later in the list is not among those before it.
later-Free : (xs ps : List ℕ) (p : ℕ) → Distinct (xs ++ p ∷ ps) → Free p xs
later-Free [] ps p d = tt
later-Free (x ∷ xs) ps p d = (λ e. middle xs d.0 (sym e), later-Free xs ps p d.1)
  where
    middle : (ys : List ℕ) → Free x (ys ++ p ∷ ps) → p ≢ x
    middle [] f = f.0
    middle (y ∷ ys) f = middle ys f.1

earlier-Free : (x : ℕ) (xs ps : List ℕ) → Free x (xs ++ ps) → Free x xs
earlier-Free x [] ps f = tt
earlier-Free x (y ∷ xs) ps f = (f.0, earlier-Free x xs ps f.1)

earlier-Distinct : (xs ps : List ℕ) → Distinct (xs ++ ps) → Distinct xs
earlier-Distinct [] ps d = tt
earlier-Distinct (x ∷ xs) ps d = (earlier-Free x xs ps d.0, earlier-Distinct xs ps d.1)

-- One registration of a node that is not in the list.
pub register_next-Chain :
    (fuel : ℕ) (ps : List ℕ) (p : ℕ) (l : Links) (xs : List ℕ)
    → Chain l.next l.head xs
    → Distinct (xs ++ p ∷ ps)
    → length xs ≤ fuel
    → (l' : Links) × (register fuel l p ≡ some (pos 0, l')) × Chain l'.next l'.head (xs ++ p ∷ [])
register_next-Chain fuel ps p l xs c d h =
    let (l1, e1, c1) = register-Chain fuel l xs p c (earlier-Distinct xs (p ∷ ps) d) h in
    let kept : before p xs ≡ xs = before-Free p xs (later-Free xs ps p d) in
    (l1, e1, subst (λ t. Chain l1.next l1.head (t ++ p ∷ [])) kept c1)

-- Registering nodes that are not in the list appends them in their order.
register_all-Chain :
    (fuel : ℕ) (ps : List ℕ) (l : Links) (xs : List ℕ)
    → Chain l.next l.head xs
    → Distinct (xs ++ ps)
    → length xs + length ps ≤ fuel
    → (l' : Links) × (register_all fuel l ps ≡ some l') × Chain l'.next l'.head (xs ++ ps)
unfolding register_all
register_all-Chain fuel [] l xs c d h =
    (l, refl, subst (Chain l.next l.head) (sym (append-nil xs)) c)
register_all-Chain fuel (p ∷ ps) l xs c d h =
    let (l1, e1, c1) = register_next-Chain fuel ps p l xs c d (omega arith) in
    let shape : (xs ++ p ∷ []) ++ ps ≡ xs ++ p ∷ ps = append_assoc xs (p ∷ []) ps in
    let (l2, e2, c2) =
      register_all-Chain fuel ps l1 (xs ++ p ∷ []) c1 (subst Distinct (sym shape) d)
        (omega (arith, length-append xs (p ∷ []))) in
    (l2, rw (e1, ◌>>=◌) e2, subst (Chain l2.next l2.head) shape c2)

-- From an empty list, the registrations leave all nine commands in their order, the help first.
pub cmd_register_enter-Chain :
    (l : Links)
    → l.head ≡ none
    → (l' : Links) × (cmd_register_enter l ≡ some l')
      × Chain l'.next l'.head (0 ∷ 1 ∷ 2 ∷ 3 ∷ 4 ∷ 5 ∷ 6 ∷ 7 ∷ 8 ∷ [])
unfolding cmd_register_enter
cmd_register_enter-Chain l e =
    let (l1, e1, c1) = register_all-Chain 9 (0 ∷ []) l [] e (omega arith) (omega arith) in
    let (l2, e2, c2) = register_all-Chain 9 (1 ∷ []) l1 (0 ∷ []) c1 (omega arith) (omega arith) in
    let (l3, e3, c3) =
      register_all-Chain 9 (2 ∷ 3 ∷ []) l2 (0 ∷ 1 ∷ []) c2 (omega arith) (omega arith) in
    let (l4, e4, c4) =
      register_all-Chain 9 (4 ∷ 5 ∷ []) l3 (0 ∷ 1 ∷ 2 ∷ 3 ∷ []) c3 (omega arith) (omega arith) in
    let (l5, e5, c5) =
      register_all-Chain 9 (6 ∷ 7 ∷ 8 ∷ []) l4 (0 ∷ 1 ∷ 2 ∷ 3 ∷ 4 ∷ 5 ∷ []) c4 (omega arith)
        (omega arith) in
    (l5, rw (e1, ◌>>=◌) (rw (e2, ◌>>=◌) (rw (e3, ◌>>=◌) (rw (e4, ◌>>=◌) e5))), c5)
