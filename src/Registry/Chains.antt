-- ===== src/Registry/Chains.antt =====
-- A registry holds a list of nodes, and `register` appends to it.
use instruction_parser.Prelude.{
  ℕ, zero, suc, ◌≤◌, ◌<◌, ◌≡◌, ◌≢◌, refl, sym, ap, ◌∙◌, subst, pos, Option, none, some, ◌>>=◌, List,
  [], ◌∷◌, ◌++◌, length, arith, ◌==◌, if◌then◌else◌, ℕ_discrete,
}
use instruction_parser.Strings.Laws.{Free}
use instruction_parser.Registry.{Links, set_next, last_node, append_node, register}

-- Following `next` from `start` meets exactly the nodes of the list, in their order.
abbrev pub Chain : (ℕ → Option ℕ) → Option ℕ → List ℕ → Type 0
Chain next start [] = start ≡ none
Chain next start (x ∷ xs) = (start ≡ some x) × Chain next (next x) xs

abbrev pub Distinct : List ℕ → Type 0
Distinct [] = Unit {0}
Distinct (x ∷ xs) = Free x xs × Distinct xs

-- A write at a node outside the chain leaves the chain.
Chain-set_next :
    (next : ℕ → Option ℕ) (start : Option ℕ) (xs : List ℕ) (p : ℕ) (q : Option ℕ)
    → Free p xs
    → Chain next start xs
    → Chain (set_next next p q) start xs
unfolding set_next
Chain-set_next next start [] p q f c = c
Chain-set_next next start (x ∷ xs) p q f c = (
  c.0,
  subst (λ s. Chain (set_next next p q) s xs) (ground arith)
      (Chain-set_next next (next x) xs p q f.1 c.1),
)

-- The nodes before the first that is `p`.
unfoldable pub before : ℕ → List ℕ → List ℕ
before p [] = []
before p (x ∷ xs) = if x == p then [] else x ∷ before p xs

pub before-Free : (p : ℕ) (xs : List ℕ) → Free p xs → before p xs ≡ xs
unfolding before
before-Free p [] f = refl
before-Free p (x ∷ xs) f = ground (arith, before-Free p xs f.1)

abbrev linked : (ℕ → Option ℕ) → ℕ → ℕ → ℕ → Option ℕ
linked next t p = set_next (set_next next t (some p)) p none

linked_self : (next : ℕ → Option ℕ) (t p : ℕ) → linked next t p p ≡ none
unfolding set_next
linked_self next t p = ground arith

linked_last : (next : ℕ → Option ℕ) (t p : ℕ) → t ≢ p → linked next t p t ≡ some p
unfolding set_next
linked_last next t p ne = ground arith

linked_other : (next : ℕ → Option ℕ) (t p x : ℕ) → x ≢ p → x ≢ t → linked next t p x ≡ next x
unfolding set_next
linked_other next t p x ne ne' = ground arith

before_nil : (p : ℕ) → before p [] ≡ []
unfolding before
before_nil p = refl

before_hit : (p x : ℕ) (xs : List ℕ) → x ≡ p → before p (x ∷ xs) ≡ []
unfolding before
before_hit p x xs e = ground arith

before_miss : (p x : ℕ) (xs : List ℕ) → x ≢ p → before p (x ∷ xs) ≡ x ∷ before p xs
unfolding before
before_miss p x xs ne = ground arith

-- Where the walk from `x` ends, and what the two writes there make of the chain.
record Appended (fuel : ℕ) (next : ℕ → Option ℕ) (x : ℕ) (xs : List ℕ) (p : ℕ) : Type 0 where
  t : ℕ
  walked : last_node fuel next x ≡ some t
  inside : (z : ℕ) → Free z (x ∷ xs) → z ≢ t
  chain : Chain (linked next t p) (some x) (before p (x ∷ xs) ++ p ∷ [])

append-Appended :
    (fuel : ℕ) (next : ℕ → Option ℕ) (x : ℕ) (xs : List ℕ) (p : ℕ)
    → Chain next (next x) xs
    → Distinct (x ∷ xs)
    → length xs < fuel
    → Appended fuel next x xs p
unfolding last_node
append-Appended zero next x xs p c d h = absurd (omega arith)
append-Appended (suc fuel) next x [] p c d h = record {
  t = x;
  walked = ground arith;
  inside = λ z f e. f.0 (sym e);
  chain = elim (ℕ_discrete x p) [
    | yes e ↦ rw (before_hit p x [] e) (ap some e, linked_self next x p)
    | no ne ↦
        rw (before_miss p x [] ne, before_nil p)
          (refl, (linked_last next x p ne, linked_self next x p))
  ];
}
append-Appended (suc fuel) next x (y ∷ ys) p c d h =
    let rest = append-Appended fuel next y ys p c.1 d.1 (omega arith) in
    record {
      t = rest.t;
      walked = ground (arith, c.0, rest.walked);
      inside = λ z f. rest.inside z f.1;
      chain = elim (ℕ_discrete x p) [
        | yes e ↦ rw (before_hit p x (y ∷ ys) e) (ap some e, linked_self next rest.t p)
        | no ne ↦ rw (before_miss p x (y ∷ ys) ne) (
          refl,
          subst (λ s. Chain (linked next rest.t p) s (before p (y ∷ ys) ++ p ∷ []))
              (sym (linked_other next rest.t p x ne (rest.inside x d.0) ∙ c.0)) rest.chain,
        )
      ];
    }

-- Registering a node, with fuel for the nodes there are, returns 0, and leaves a chain of the nodes
-- that stood before it and the node itself. So a new node comes last, and a node that is
-- registered again cuts off all that was registered after it.
pub register-Chain :
    (fuel : ℕ) (l : Links) (xs : List ℕ) (p : ℕ)
    → Chain l.next l.head xs
    → Distinct xs
    → length xs ≤ fuel
    → (l' : Links) × (register fuel l p ≡ some (pos 0, l'))
      × Chain l'.next l'.head (before p xs ++ p ∷ [])
unfolding register
register-Chain fuel l [] p c d h = (
  record { head = some p; next = set_next l.next p none },
  rw c,
  rw (before_nil p) (refl, unfold set_next in ground arith),
)
register-Chain fuel l (x ∷ xs) p c d h =
    let a = append-Appended fuel l.next x xs p c.1 d (omega arith) in
    (
      record l { next = linked l.next a.t p },
      rw (c.0) (unfold append_node in rw (a.walked, ◌>>=◌)),
      subst (λ s. Chain (linked l.next a.t p) s (before p (x ∷ xs) ++ p ∷ [])) (sym c.0) a.chain,
    )
