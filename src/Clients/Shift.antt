-- ===== src/Clients/Shift.antt =====
-- The loops of `del_clilist` on a list of clients.
use instruction_parser.Prelude.{
  ℕ, suc, ◌≡◌, ◌≢◌, refl, sym, ap, ◌∙◌, subst, true, false, some, ◌>>=◌, List, [], ◌∷◌, ◌++◌,
  append_assoc, get_elem?, set, length, ◌==◌, arith,
}
use instruction_parser.Clients.{ClientMember, shift_left, remove_fd}

-- No client of the list has the descriptor.
abbrev pub Absent : ℕ → List ClientMember → Type 0
Absent fd [] = Unit {0}
Absent fd (c ∷ cs) = (c.fd ≢ fd) × Absent fd cs

get_at :
    (xs ys : List ClientMember) (c : ClientMember) → get_elem? (xs ++ c ∷ ys) (length xs) ≡ some c
get_at [] ys c = refl
get_at (x ∷ xs) ys c = get_at xs ys c

set_at :
    (xs ys : List ClientMember) (c d : ClientMember)
    → set (xs ++ c ∷ ys) (length xs) d ≡ xs ++ d ∷ ys
set_at [] ys c d = refl
set_at (x ∷ xs) ys c d = ap (λ t. x ∷ t) (set_at xs ys c d)

pub length_snoc :
    (xs : List ClientMember) (c : ClientMember) → length (xs ++ c ∷ []) ≡ suc (length xs)
length_snoc [] c = refl
length_snoc (x ∷ xs) c = ap suc (length_snoc xs c)

-- The last of a list that is not empty.
abbrev pub last_of : ClientMember → List ClientMember → ClientMember
last_of c [] = c
last_of c (b ∷ bs) = last_of b bs

get_next :
    (xs ys : List ClientMember) (b c : ClientMember)
    → get_elem? (xs ++ c ∷ b ∷ ys) (suc (length xs)) ≡ some b
get_next [] ys b c = refl
get_next (x ∷ xs) ys b c = get_next xs ys b c

-- The shift drops the entry it starts at, and doubles the last one.
shift_left_lem :
    (bs xs unused : List ClientMember) (c : ClientMember)
    → shift_left (length bs) (length xs) (xs ++ c ∷ (bs ++ unused))
      ≡ some (xs ++ (bs ++ last_of c bs ∷ unused))
unfolding shift_left
shift_left_lem [] xs unused c = refl
shift_left_lem (b ∷ bs) xs unused c =
    rw (get_next xs (bs ++ unused) b c, ◌>>=◌, set_at xs (b ∷ (bs ++ unused)) c b)
      (subst
        (λ n.
          shift_left (length bs) n (xs ++ b ∷ b ∷ (bs ++ unused))
          ≡ some (xs ++ b ∷ (bs ++ last_of b bs ∷ unused)))
        (length_snoc xs b)
        (ap (shift_left (length bs) (length (xs ++ b ∷ [])))
            (sym (append_assoc xs (b ∷ []) (b ∷ (bs ++ unused))))
          ∙ shift_left_lem bs (xs ++ b ∷ []) unused b
          ∙ ap some (append_assoc xs (b ∷ []) (bs ++ last_of b bs ∷ unused))))

==_ne : {a b : ℕ} → a ≢ b → (a == b) ≡ false
==_ne ne = ground arith

==_eq : {a b : ℕ} → a ≡ b → (a == b) ≡ true
==_eq e = ground arith

-- Passing one entry.
pass :
    (fd k : ℕ) (xs t : List ClientMember) (y : ClientMember)
    → remove_fd fd k (suc (length xs)) (xs ++ y ∷ t)
      ≡ remove_fd fd k (length (xs ++ y ∷ [])) ((xs ++ y ∷ []) ++ t)
pass fd k xs t y = rw (length_snoc xs y, append_assoc xs (y ∷ []) t)

-- Entries with other descriptors stay.
pub remove_fd-Absent :
    (fd : ℕ) (ys xs rest : List ClientMember)
    → Absent fd ys
    → remove_fd fd (length ys) (length xs) (xs ++ (ys ++ rest)) ≡ some (xs ++ (ys ++ rest))
unfolding remove_fd
remove_fd-Absent fd [] xs rest a = refl
remove_fd-Absent fd (y ∷ ys) xs rest a =
    rw (get_at xs (ys ++ rest) y, ◌>>=◌, ==_ne a.0, ◌>>=◌)
      (pass fd (length ys) xs (ys ++ rest) y
        ∙ remove_fd-Absent fd ys (xs ++ y ∷ []) rest a.1
        ∙ ap some (append_assoc xs (y ∷ []) (ys ++ rest)))

last_Absent :
    (fd : ℕ) (b : ClientMember) (bs : List ClientMember)
    → Absent fd (b ∷ bs)
    → (last_of b bs).fd ≢ fd
last_Absent fd b [] a = a.0
last_Absent fd b (d ∷ bs) a = last_Absent fd d bs a.1

Absent-snoc :
    (fd : ℕ) (bs : List ClientMember) (z : ClientMember)
    → Absent fd bs
    → z.fd ≢ fd
    → Absent fd (bs ++ z ∷ [])
Absent-snoc fd [] z a n = (n, tt)
Absent-snoc fd (b ∷ bs) z a n = (a.0, Absent-snoc fd bs z a.1 n)

-- Behind the entry that goes, the loop finds no other to drop.
after_hit :
    (fd : ℕ) (xs bs unused : List ClientMember) (c : ClientMember)
    → Absent fd bs
    → remove_fd fd (length bs) (suc (length xs)) (xs ++ (bs ++ last_of c bs ∷ unused))
      ≡ some (xs ++ (bs ++ last_of c bs ∷ unused))
after_hit fd xs [] unused c a = unfold remove_fd in refl
after_hit fd xs (b ∷ bs) unused c a =
    let z : ClientMember = last_of b bs in
    let ys : List ClientMember = bs ++ z ∷ [] in
    let e : ys ++ unused ≡ bs ++ z ∷ unused = append_assoc bs (z ∷ []) unused in
    pass fd (suc (length bs)) xs (bs ++ z ∷ unused) b
    ∙ subst
        (λ t.
          remove_fd fd (suc (length bs)) (length (xs ++ b ∷ [])) ((xs ++ b ∷ []) ++ t)
          ≡ some ((xs ++ b ∷ []) ++ t))
        e
        (subst
          (λ k.
            remove_fd fd k (length (xs ++ b ∷ [])) ((xs ++ b ∷ []) ++ (ys ++ unused))
            ≡ some ((xs ++ b ∷ []) ++ (ys ++ unused)))
          (length_snoc bs z)
          (remove_fd-Absent fd ys (xs ++ b ∷ []) unused
            (Absent-snoc fd bs z a.1 (last_Absent fd b bs a))))
    ∙ ap some (append_assoc xs (b ∷ []) (bs ++ z ∷ unused))

-- The whole loop, on a list that holds the client once.
pub remove_fd-hit :
    (fd : ℕ) (as' xs bs unused : List ClientMember) (c : ClientMember)
    → c.fd ≡ fd
    → Absent fd as'
    → Absent fd bs
    → remove_fd fd (length (as' ++ c ∷ bs)) (length xs) (xs ++ (as' ++ c ∷ (bs ++ unused)))
      ≡ some (xs ++ (as' ++ (bs ++ last_of c bs ∷ unused)))
unfolding remove_fd
remove_fd-hit fd [] xs bs unused c e a b =
    rw (get_at xs (bs ++ unused) c, ◌>>=◌, ==_eq e, shift_left_lem bs xs unused c, ◌>>=◌)
      (after_hit fd xs bs unused c b)
remove_fd-hit fd (y ∷ as') xs bs unused c e a b =
    rw (get_at xs (as' ++ c ∷ (bs ++ unused)) y, ◌>>=◌, ==_ne a.0, ◌>>=◌)
      (pass fd (length (as' ++ c ∷ bs)) xs (as' ++ c ∷ (bs ++ unused)) y
        ∙ remove_fd-hit fd as' (xs ++ y ∷ []) bs unused c e a.1 b
        ∙ ap some (append_assoc xs (y ∷ []) (as' ++ (bs ++ last_of c bs ∷ unused))))
