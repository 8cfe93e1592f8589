-- ===== src/Server/Watch/Watched.antt =====
-- The epoll set and the client list agree.
use instruction_parser.Prelude.{
  ℕ, zero, suc, ◌<◌, ◌≤◌, ◌≡◌, ◌↔◌, length-append, Option-cases, ◌≢◌, refl, sym, ap, subst, ◌∙◌, ℤ,
  pos, negsuc, Bool, true, false, not, ◌&&◌, ◌||◌, Bool-cases, inl, inr, none, some, ◌>>=◌,
  >>=-eq-some, List, [], ◌∷◌, ◌++◌, length, ltb, ltb→lt, ◌==◌, arith,
}
use instruction_parser.Strings.Laws.{some_injective}
use instruction_parser.Clients.{ClientMember, CliList, add_clilist}
use instruction_parser.Clients.Live.{Live, add_clilist-Live, del_clilist-Live}
use instruction_parser.Clients.Shift.{Absent}
use instruction_parser.Server.Room.{IsFull, add_clilist-none_iff}
use instruction_parser.Server.Watch.{
  Epoll, Connections, watch_listener, connect, disconnect, op_delete_event, transfer, arrive, moved,
  Moves, here, next,
}
use instruction_parser.Server.Watch.Listed.{
  listed, Once, listed-append, listed-Absent, Absent-unlisted, listed-split, Absent-drop, Once-drop,
  Absent-add, Once-add,
}

-- An arrival only finds room if there are less than 256 clients.
room_left :
    (l : CliList) (cs : List ClientMember) (c : ClientMember) (r : ℤ × CliList)
    → Live l cs
    → add_clilist c l ≡ some r
    → length cs < 256
unfolding add_clilist
room_left l cs c r v e = elim (Bool-cases (ltb (length cs) (length l.clilist))) [
  | inl fits ↦ omega (arith, ltb→lt _ _ fits, v.room)
  | inr full ↦ let refused : add_clilist c l ≡ none = rw (v.counted, full) in cc
]

-- An arrival is written outside the array exactly if the list has 256 clients.
connect-none_iff :
    {E : Type 0} (k : Epoll E) (s : Connections E) (cs : List ClientMember) (c : ClientMember)
    → Live s.clients cs
    → (connect k c s ≡ none) ↔ (length cs ≡ 256)
unfolding connect
connect-none_iff k s cs c v =
    let size : length cs ≤ 256 =
      omega (arith, v.room, ap length v.entries, length-append cs v.unused) in
    let full = add_clilist-none_iff c s.clients.clilist s.clients.tailindex v.room in
    let count : IsFull s.clients.tailindex ≡ (256 ≤ length cs) = ap IsFull v.counted in
    elim (Option-cases (add_clilist c s.clients)) [
      | inl outside ↦
          let many : 256 ≤ length cs = subst (λ T. T) count (full.0 outside) in
          ((λ e. omega arith), λ h. rw (outside, ◌>>=◌))
      | inr (r, added) ↦ (
        (λ e. let e' = rw (added, ◌>>=◌) at e in cc),
        λ h.
            let outside : add_clilist c s.clients ≡ none =
              full.1 (subst (λ T. T) (sym count) (omega arith)) in
            cc,
      )
    ]

module _ {E : Type 0} (k : Epoll E) (listenfd : ℕ)
    (adds : (fd x : ℕ) (e : E) → k.watches (k.ctl_add fd e) x ≡ ((fd == x) || k.watches e x))
    (dels : (fd x : ℕ) (e : E)
      → k.watches (k.ctl_del fd e) x ≡ (not (fd == x) && k.watches e x)) where
  -- The clients of the list, each once, and the listening socket are what the epoll set holds.
  record IsWatched (s : Connections E) (cs : List ClientMember) : Type 0 where
    live : Live s.clients cs
    once : Once cs
    not_listening : Absent listenfd cs
    shows : (x : ℕ) → k.watches s.epoll x ≡ ((listenfd == x) || listed x cs)

  connect-IsWatched :
      (s t : Connections E) (cs : List ClientMember) (c : ClientMember)
      → IsWatched s cs
      → k.watches s.epoll c.fd ≡ false
      → connect k c s ≡ some t
      → IsWatched t (cs ++ c ∷ [])
  unfolding connect
  connect-IsWatched s t cs c v fresh e =
      let (r, added, same) = >>=-eq-some (add_clilist c s.clients) _ e in
      let (l', done, live) =
        add_clilist-Live s.clients cs c v.live (room_left s.clients cs c r v.live added) in
      let is : record { clients = l'; epoll = k.ctl_add c.fd s.epoll } ≡ t = cc in
      let unseen : ((listenfd == c.fd) || listed c.fd cs) ≡ false = sym (v.shows c.fd) ∙ fresh in
      subst (λ u. IsWatched u (cs ++ c ∷ [])) is
        (record {
          live = live;
          once = Once-add cs c v.once (Absent-unlisted c.fd cs (ground arith));
          not_listening = Absent-add listenfd cs c v.not_listening (ground arith);
          shows = λ x.
              adds c.fd x s.epoll
              ∙ ap (λ b. (c.fd == x) || b) (v.shows x)
              ∙ or_last (c.fd == x) (listenfd == x) (listed x cs)
              ∙ ap (λ b. (listenfd == x) || b) (sym (listed-append x cs (c ∷ [])));
        })
    where
      or_last : (a b d : Bool) → (a || (b || d)) ≡ (b || (d || (a || false)))
      or_last a b d = ground arith

  -- The others stay listed.
  left_out :
      (x : ℕ) (as' bs : List ClientMember) (c : ClientMember)
      → Absent c.fd as'
      → Absent c.fd bs
      → c.fd ≢ listenfd
      → (not (c.fd == x) && ((listenfd == x) || listed x (as' ++ c ∷ bs)))
        ≡ ((listenfd == x) || listed x (as' ++ bs))
  left_out x as' bs c l r other =
      rw (listed-append x as' (c ∷ bs), listed-append x as' bs)
        (elim (Bool-cases (c.fd == x)) [
          | inl hit ↦
              let e : c.fd ≡ x = ground arith in
              let none_left = listed-Absent x as' (subst (λ y. Absent y as') e l) in
              let none_right = listed-Absent x bs (subst (λ y. Absent y bs) e r) in
              ground (arith, none_left, none_right)
          | inr miss ↦ ground arith
        ])

  disconnect-IsWatched :
      (s : Connections E) (as' bs : List ClientMember) (c : ClientMember)
      → IsWatched s (as' ++ c ∷ bs)
      → (t : Connections E) × (disconnect k c.fd s ≡ some t) × IsWatched t (as' ++ bs)
  unfolding disconnect op_delete_event
  disconnect-IsWatched s as' bs c v =
      let (l, r, o) = Once-drop as' c bs v.once in
      let (l', e, live) = del_clilist-Live s.clients as' bs c v.live l r in
      (
        record { clients = l'; epoll = k.ctl_del c.fd s.epoll },
        rw (e, ◌>>=◌),
        record {
          live = live;
          once = o;
          not_listening = (Absent-drop listenfd as' c bs v.not_listening).1;
          shows = λ x.
              dels c.fd x s.epoll
              ∙ ap (λ b. not (c.fd == x) && b) (v.shows x)
              ∙ left_out x as' bs c l r (Absent-drop listenfd as' c bs v.not_listening).0;
        },
      )

  -- A transfer on a watched connection never leaves the array.
  transfer-IsWatched :
      (again : Bool) (n : ℤ) (fd : ℕ) (s : Connections E) (cs : List ClientMember)
      → IsWatched s cs
      → k.watches s.epoll fd ≡ true
      → fd ≢ listenfd
      → (ret : ℤ) × (t : Connections E) × (cs' : List ClientMember) × (transfer k again n fd s
          ≡ some (ret, t))
        × IsWatched t cs'
  unfolding transfer
  transfer-IsWatched again n fd s cs v seen other =
      let found : listed fd cs ≡ true = (let e = sym (v.shows fd) ∙ seen in ground arith) in
      let (as', c, bs, e, same) = listed-split fd cs found in
      let (t, done, v') = disconnect-IsWatched s as' bs c (subst (IsWatched s) e v) in
      answers again n t (ap (λ x. disconnect k x s) (sym same) ∙ done) v'
    where
      answers :
          (again : Bool) (n : ℤ) (t : Connections E) {ds : List ClientMember}
          → disconnect k fd s ≡ some t
          → IsWatched t ds
          → (ret : ℤ) × (t : Connections E) × (cs' : List ClientMember) × (transfer k again n fd s
              ≡ some (ret, t))
            × IsWatched t cs'
      answers again (pos (suc n)) t e w = (pos (suc n), s, cs, refl, v)
      answers again (pos zero) t e w = (negsuc 1, t, _, rw (e, ◌>>=◌), w)
      answers true (negsuc n) t e w = (negsuc 0, s, cs, refl, v)
      answers false (negsuc n) t e w = (negsuc 2, t, _, rw (e, ◌>>=◌), w)

  Moves-IsWatched :
      (s t : Connections E) (cs : List ClientMember)
      → IsWatched s cs
      → Moves k listenfd s t
      → (ds : List ClientMember) × IsWatched t ds
  Moves-IsWatched s t cs v here = (cs, v)
  Moves-IsWatched s t cs v (next {t = m} r (arrive c fresh fits e)) =
      let (ds, w) = Moves-IsWatched s m cs v r in
      (ds ++ c ∷ [], connect-IsWatched m t ds c w fresh e)
  Moves-IsWatched s t cs v (next {t = m} r (moved again n ret fd seen other e)) =
      let (ds, w) = Moves-IsWatched s m cs v r in
      let (ret', t', ds', e', w') = transfer-IsWatched again n fd m ds w seen other in
      (ds', subst (λ x. IsWatched x ds') (ap (λ p. p.1) (some_injective (sym e' ∙ e))) w')

  -- From an empty list and an empty epoll set, which gets the listening socket, after any arrivals of clients
  -- with new descriptors, as long as each finds an entry in the array, and any calls of `op_read` and `op_write` on watched ones: the epoll set holds
  -- the listening socket and the clients of the list, each of which is there once; and the next such
  -- call, whatever `read` or `write` answers, stays inside the array. The next arrival is written outside
  -- it exactly if the list has 256 clients, which the code does not test. `epoll_ctl` adds and deletes the
  -- one descriptor that it is given.
  pub Moves-watched :
      (s t : Connections E) (again : Bool) (n : ℤ) (fd : ℕ) (cli : ClientMember)
      → Live s.clients []
      → ((x : ℕ) → k.watches s.epoll x ≡ false)
      → Moves k listenfd (watch_listener k listenfd s) t
      → k.watches t.epoll fd ≡ true
      → fd ≢ listenfd
      → (cs : List ClientMember) × (ret : ℤ) × (u : Connections E) × Live t.clients cs
        × Once cs
        × ((x : ℕ) → k.watches t.epoll x ≡ ((listenfd == x) || listed x cs))
        × (transfer k again n fd t ≡ some (ret, u))
        × ((connect k cli t ≡ none) ↔ (length cs ≡ 256))
  unfolding watch_listener
  Moves-watched s t again n fd cli empty nothing r seen other =
      let (cs, v) =
        Moves-IsWatched (watch_listener k listenfd s) t []
          (record {
            live = empty;
            once = tt;
            not_listening = tt;
            shows = λ x. adds listenfd x s.epoll ∙ ap (λ b. (listenfd == x) || b) (nothing x);
          })
          r in
      let (ret, u, ds, e, w) = transfer-IsWatched again n fd t cs v seen other in
      (cs, ret, u, v.live, v.once, v.shows, e, connect-none_iff k t cs cli v.live)
