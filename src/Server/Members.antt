-- ===== src/Server/Members.antt =====
-- The calls on the client list stay inside its array.
use instruction_parser.Prelude.{
  ℕ, zero, suc, ◌+◌, ◌≤◌, ◌<◌, ◌≡◌, refl, ◌∙◌, ℤ, pos, negsuc, Bool, true, false, Bool-cases, inl,
  inr, some, ◌>>=◌, List, [], ◌∷◌, get_elem?, set, length, length-set, ltb, ◌==◌, arith,
}
use instruction_parser.Clients.{
  ClientMember, CliList, add_clilist, decrement, shift_left, remove_fd, del_clilist, op_read,
}

pub get_elem?-in :
    {A : Type 0} (xs : List A) (i : ℕ) → i < length xs → (x : A) × (get_elem? xs i ≡ some x)
get_elem?-in [] i h = absurd (omega arith)
get_elem?-in (x ∷ xs) zero h = (x, refl)
get_elem?-in (x ∷ xs) (suc i) h = get_elem?-in xs i (omega arith)

-- The array of clients has 256 entries, and `tailindex` is at most their number.
abbrev pub Below : ℤ → Type 0
Below (pos n) = n ≤ 256
Below (negsuc n) = Unit {0}

pub record IsBounded (l : CliList) : Type 0 where
  pub entries : length l.clilist ≡ 256
  pub below : Below l.tailindex

pub shift_left-in :
    (k j : ℕ) (xs : List ClientMember)
    → j + k < length xs
    → (ys : List ClientMember) × (shift_left k j xs ≡ some ys) × (length ys ≡ length xs)
unfolding shift_left
shift_left-in zero j xs h = (xs, refl, refl)
shift_left-in (suc k) j xs h =
    let (y, got) = get_elem?-in xs (suc j) (omega arith) in
    let size = length-set xs j y in
    let (ys, e, len) = shift_left-in k (suc j) (set xs j y) (omega arith) in
    (ys, rw (got, ◌>>=◌) e, len ∙ size)

pub remove_fd-in :
    (fd k i : ℕ) (xs : List ClientMember)
    → i + k ≤ length xs
    → (ys : List ClientMember) × (remove_fd fd k i xs ≡ some ys) × (length ys ≡ length xs)
unfolding remove_fd
remove_fd-in fd zero i xs h = (xs, refl, refl)
remove_fd-in fd (suc k) i xs h =
    let (c, got) = get_elem?-in xs i (omega arith) in
    elim (Bool-cases (c.fd == fd)) [
      | inl hit ↦
          let (zs, shifted, size) = shift_left-in k i xs (omega arith) in
          let (ys, e, len) = remove_fd-in fd k (suc i) zs (omega arith) in
          (ys, rw (got, ◌>>=◌, hit, shifted, ◌>>=◌) e, len ∙ size)
      | inr miss ↦
          let (ys, e, len) = remove_fd-in fd k (suc i) xs (omega arith) in
          (ys, rw (got, ◌>>=◌, miss, ◌>>=◌) e, len)
    ]

pub Below-decrement : (t : ℤ) → Below t → Below (decrement t)
Below-decrement (pos zero) h = tt
Below-decrement (pos (suc n)) h = omega arith
Below-decrement (negsuc n) h = tt

pub del_parts :
    (fd : ℕ) (xs : List ClientMember) (t : ℤ)
    → length xs ≡ 256
    → Below t
    → (ys : List ClientMember) × (del_clilist fd (record { clilist = xs; tailindex = t })
        ≡ some (decrement t, record { clilist = ys; tailindex = decrement t }))
      × (length ys ≡ 256)
unfolding del_clilist
del_parts fd xs (pos n) size b =
    let (ys, e, len) = remove_fd-in fd n 0 xs (omega arith) in (ys, rw (e, ◌>>=◌), len ∙ size)
del_parts fd xs (negsuc n) size b = (xs, refl, size)

-- A departure is defined whatever its descriptor is, and so is a call of `op_read`.
pub del_clilist-IsBounded :
    (fd : ℕ) (l : CliList)
    → IsBounded l
    → (ret : ℤ) × (l' : CliList) × (del_clilist fd l ≡ some (ret, l')) × IsBounded l'
del_clilist-IsBounded fd l b =
    let (ys, e, size) = del_parts fd l.clilist l.tailindex b.entries b.below in
    (
      decrement l.tailindex,
      record { clilist = ys; tailindex = decrement l.tailindex },
      e,
      record { entries = size; below = Below-decrement l.tailindex b.below },
    )

pub op_read-IsBounded :
    (again : Bool) (n : ℤ) (fd : ℕ) (l : CliList)
    → IsBounded l
    → (ret : ℤ) × (l' : CliList) × (op_read again n fd l ≡ some (ret, l')) × IsBounded l'
unfolding op_read
op_read-IsBounded again (pos (suc n)) fd l b = (pos (suc n), l, refl, b)
op_read-IsBounded again (pos zero) fd l b =
    let (ret, l', e, b') = del_clilist-IsBounded fd l b in (negsuc 1, l', rw (e, ◌>>=◌), b')
op_read-IsBounded true (negsuc n) fd l b = (negsuc 0, l, refl, b)
op_read-IsBounded false (negsuc n) fd l b =
    let (ret, l', e, b') = del_clilist-IsBounded fd l b in (negsuc 2, l', rw (e, ◌>>=◌), b')

pub add_parts :
    (c : ClientMember) (xs : List ClientMember) (t ret : ℤ) (l' : CliList)
    → length xs ≡ 256
    → add_clilist c (record { clilist = xs; tailindex = t }) ≡ some (ret, l')
    → IsBounded l'
unfolding add_clilist
add_parts c xs (negsuc n) ret l' size h = cc
add_parts c xs (pos n) ret l' size h = elim (Bool-cases (ltb n (length xs))) [
  | inl fits ↦
      let shape : l' ≡ record { clilist = set xs n c; tailindex = pos (suc n) } = ground arith in
      let len = length-set xs n c in
      rw shape (record { entries = len ∙ size; below = ground arith })
  | inr full ↦ let h' = rw full at h in cc
]
