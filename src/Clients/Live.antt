-- ===== src/Clients/Live.antt =====
-- Which clients the list holds after an arrival and after a departure.
use instruction_parser.Prelude.{
  ℕ, suc, ◌+◌, ◌<◌, ◌≡◌, refl, sym, ap, ◌∙◌, pos, true, some, ◌>>=◌, List, [], ◌∷◌, ◌++◌,
  append_assoc, set, length, length-append, length-set, ltb, lt→ltb, arith,
}
use instruction_parser.Clients.{
  ClientMember, CliList, add_clilist, remove_fd, del_clilist, decrement,
}
use instruction_parser.Clients.Shift.{Absent, last_of, length_snoc, remove_fd-hit, remove_fd-Absent}

-- The live clients are the first entries of the array, which has room for 256.
pub record Live (l : CliList) (cs : List ClientMember) : Type 0 where
  pub unused : List ClientMember
  pub entries : l.clilist ≡ cs ++ unused
  pub counted : l.tailindex ≡ pos (length cs)
  pub room : length l.clilist ≡ 256

set_end :
    (cs unused : List ClientMember) (c : ClientMember)
    → length cs < length (cs ++ unused)
    → (more : List ClientMember) × (set (cs ++ unused) (length cs) c ≡ (cs ++ c ∷ []) ++ more)
set_end [] [] c h = absurd (omega arith)
set_end [] (u ∷ us) c h = (us, refl)
set_end (d ∷ cs) unused c h =
    let (more, e) = set_end cs unused c (omega arith) in (more, ap (λ t. d ∷ t) e)

-- Of a list with room, an arrival is put at the end, and the result is the number of clients.
pub add_clilist-Live :
    (l : CliList) (cs : List ClientMember) (c : ClientMember)
    → Live l cs
    → length cs < 256
    → (l' : CliList) × (add_clilist c l ≡ some (pos (length cs + 1), l')) × Live l' (cs ++ c ∷ [])
unfolding add_clilist
add_clilist-Live l cs c v h =
    let fits : ltb (length cs) (length l.clilist) ≡ true = lt→ltb _ _ (omega (arith, v.room)) in
    let (more, e) = set_end cs v.unused c (omega (arith, v.room, ap length v.entries)) in
    let next : pos (suc (length cs)) ≡ pos (length cs + 1) = ap pos (omega arith) in
    (
      record { clilist = set l.clilist (length cs) c; tailindex = pos (suc (length cs)) },
      rw (v.counted, fits, next),
      record {
        unused = more;
        entries = ap (λ t. set t (length cs) c) v.entries ∙ e;
        counted = ap pos (sym (length_snoc cs c));
        room = length-set l.clilist (length cs) c ∙ v.room;
      },
    )

-- A departure takes the client out of the list and keeps the order of the others.
pub del_clilist-Live :
    (l : CliList) (as' bs : List ClientMember) (c : ClientMember)
    → Live l (as' ++ c ∷ bs)
    → Absent c.fd as'
    → Absent c.fd bs
    → (l' : CliList) × (del_clilist c.fd l ≡ some (pos (length as' + length bs), l'))
      × Live l' (as' ++ bs)
unfolding del_clilist
del_clilist-Live l as' bs c v a b =
    let whole : l.clilist ≡ as' ++ c ∷ (bs ++ v.unused) =
      v.entries ∙ append_assoc as' (c ∷ bs) v.unused in
    let xs : List ClientMember = as' ++ (bs ++ last_of c bs ∷ v.unused) in
    let n : length (as' ++ c ∷ bs) ≡ suc (length as' + length bs) =
      omega (arith, length-append as' (c ∷ bs)) in
    let t : decrement l.tailindex ≡ pos (length as' + length bs) = rw (v.counted, n) in
    let left : remove_fd c.fd (length (as' ++ c ∷ bs)) 0 l.clilist ≡ some xs =
      ap (remove_fd c.fd (length (as' ++ c ∷ bs)) 0) whole
      ∙ remove_fd-hit c.fd as' [] bs v.unused c refl a b in
    (
      record { clilist = xs; tailindex = pos (length as' + length bs) },
      rw (v.counted, left, n, ◌>>=◌),
      record {
        unused = last_of c bs ∷ v.unused;
        entries = sym (append_assoc as' bs (last_of c bs ∷ v.unused));
        counted = ap pos (sym (length-append as' bs));
        room = omega (
          arith,
          v.room,
          ap length whole,
          length-append as' (c ∷ (bs ++ v.unused)),
          length-append bs v.unused,
          length-append as' (bs ++ last_of c bs ∷ v.unused),
          length-append bs (last_of c bs ∷ v.unused),
        );
      },
    )

-- A departure of a client that is not in the list takes the last client out.
pub del_clilist-Absent :
    (l : CliList) (cs : List ClientMember) (c : ClientMember) (fd : ℕ)
    → Live l (cs ++ c ∷ [])
    → Absent fd (cs ++ c ∷ [])
    → (l' : CliList) × (del_clilist fd l ≡ some (pos (length cs), l')) × Live l' cs
unfolding del_clilist
del_clilist-Absent l cs c fd v a =
    let left : remove_fd fd (length (cs ++ c ∷ [])) 0 l.clilist ≡ some l.clilist =
      ap (remove_fd fd (length (cs ++ c ∷ [])) 0) v.entries
      ∙ remove_fd-Absent fd (cs ++ c ∷ []) [] v.unused a
      ∙ ap some (sym v.entries) in
    (
      record { clilist = l.clilist; tailindex = pos (length cs) },
      rw (v.counted, left, length_snoc cs c, ◌>>=◌),
      record {
        unused = c ∷ v.unused;
        entries = v.entries ∙ append_assoc cs (c ∷ []) v.unused;
        counted = refl;
        room = v.room;
      },
    )
