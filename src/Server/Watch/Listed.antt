-- ===== src/Server/Watch/Listed.antt =====
-- Whether a client with a descriptor is in a list.
use instruction_parser.Prelude.{
  ℕ, ◌≡◌, ◌≢◌, refl, sym, ap, Bool, true, false, Bool-cases, inl, inr, ◌||◌, List, [], ◌∷◌, ◌++◌,
  ◌==◌, arith,
}
use instruction_parser.Clients.{ClientMember}
use instruction_parser.Clients.Shift.{Absent}

abbrev pub listed : ℕ → List ClientMember → Bool
listed x [] = false
listed x (c ∷ cs) = (c.fd == x) || listed x cs

-- No descriptor is there twice.
abbrev pub Once : List ClientMember → Type 0
Once [] = Unit {0}
Once (c ∷ cs) = Absent c.fd cs × Once cs

pub listed-append :
    (x : ℕ) (as' bs : List ClientMember) → listed x (as' ++ bs) ≡ (listed x as' || listed x bs)
listed-append x [] bs = refl
listed-append x (a ∷ as') bs = ground (arith, listed-append x as' bs)

pub listed-Absent : (x : ℕ) (cs : List ClientMember) → Absent x cs → listed x cs ≡ false
listed-Absent x [] a = refl
listed-Absent x (c ∷ cs) a = ground (arith, listed-Absent x cs a.1)

pub Absent-unlisted : (x : ℕ) (cs : List ClientMember) → listed x cs ≡ false → Absent x cs
Absent-unlisted x [] h = tt
Absent-unlisted x (c ∷ cs) h = elim (Bool-cases (c.fd == x)) [
  | inl hit ↦ absurd (ground arith)
  | inr miss ↦ ((ground arith), Absent-unlisted x cs (ground arith))
]

-- Where a listed descriptor stands.
pub listed-split :
    (x : ℕ) (cs : List ClientMember)
    → listed x cs ≡ true
    → (as' : List ClientMember) × (c : ClientMember) × (bs : List ClientMember) × (cs
        ≡ as' ++ c ∷ bs)
      × (c.fd ≡ x)
listed-split x [] h = absurd (ground arith)
listed-split x (c ∷ cs) h = elim (Bool-cases (c.fd == x)) [
  | inl hit ↦ ([], c, cs, refl, ground arith)
  | inr miss ↦
      let (as', d, bs, e, same) = listed-split x cs (ground arith) in
      (c ∷ as', d, bs, ap (λ t. c ∷ t) e, same)
]

pub Absent-drop :
    (x : ℕ) (as' : List ClientMember) (c : ClientMember) (bs : List ClientMember)
    → Absent x (as' ++ c ∷ bs)
    → (c.fd ≢ x) × Absent x (as' ++ bs)
Absent-drop x [] c bs h = h
Absent-drop x (a ∷ as') c bs h = let (n, r) = Absent-drop x as' c bs h.1 in (n, (h.0, r))

-- The one that leaves is not among the others.
pub Once-drop :
    (as' : List ClientMember) (c : ClientMember) (bs : List ClientMember)
    → Once (as' ++ c ∷ bs)
    → Absent c.fd as' × Absent c.fd bs × Once (as' ++ bs)
Once-drop [] c bs h = (tt, h.0, h.1)
Once-drop (a ∷ as') c bs h =
    let (l, r, o) = Once-drop as' c bs h.1 in
    let (n, left) = Absent-drop a.fd as' c bs h.0 in (((λ e. n (sym e)), l), r, (left, o))

pub Absent-add :
    (x : ℕ) (cs : List ClientMember) (c : ClientMember)
    → Absent x cs
    → c.fd ≢ x
    → Absent x (cs ++ c ∷ [])
Absent-add x [] c a n = (n, tt)
Absent-add x (d ∷ cs) c a n = (a.0, Absent-add x cs c a.1 n)

pub Once-add :
    (cs : List ClientMember) (c : ClientMember) → Once cs → Absent c.fd cs → Once (cs ++ c ∷ [])
Once-add [] c o a = (tt, tt)
Once-add (d ∷ cs) c o a = (Absent-add d.fd cs c o.0 (λ e. a.0 (sym e)), Once-add cs c o.1 a.1)
