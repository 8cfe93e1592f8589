-- ===== src/Server/Room.antt =====
-- Which calls leave the array of clients.
use instruction_parser.Prelude.{
  ℕ, suc, ◌≤◌, ◌≡◌, ◌↔◌, refl, ◌∙◌, ℤ, pos, negsuc, Bool, true, false, Bool-cases, inl, inr, Option,
  none, some, ◌>>=◌, List, [], ◌∷◌, ◌++◌, length, length-set, drop, set, ltb, lt→ltb, ◌==◌, arith,
}
use instruction_parser.Clients.{ClientMember, CliList, add_clilist, op_write}
use instruction_parser.Server.{
  Event, Server, accept_client, serve_event, serve_events, serve_round, run_task, Reach, arrivals,
  Fits,
}
use instruction_parser.Server.Members.{op_read-IsBounded}
use instruction_parser.Server.Bounds.{IsSound, Reach-IsSound, run_task-IsSound, serve_round-IsSound}

-- There is no entry at this index.
abbrev pub IsFull : ℤ → Type 0
IsFull (pos n) = 256 ≤ n
IsFull (negsuc n) = Unit {0}

-- An arrival is written outside the array exactly if there is no entry at `tailindex`.
pub add_clilist-none_iff :
    (c : ClientMember) (xs : List ClientMember) (t : ℤ)
    → length xs ≡ 256
    → (add_clilist c (record { clilist = xs; tailindex = t }) ≡ none) ↔ IsFull t
unfolding add_clilist
add_clilist-none_iff c xs (negsuc n) size = ((λ e. tt), λ h. refl)
add_clilist-none_iff c xs (pos n) size = ground arith

add_clilist-Fits :
    (c : ClientMember) (l : CliList) (k : ℕ)
    → length l.clilist ≡ 256
    → Fits (suc k) l.tailindex
    → (ret : ℤ) × (l' : CliList) × (add_clilist c l ≡ some (ret, l'))
      × (length l'.clilist ≡ 256)
      × Fits k l'.tailindex
unfolding add_clilist
add_clilist-Fits c l k size (inl never) = absurd (omega arith)
add_clilist-Fits c l k size (inr (n, at, room)) =
    let fits : ltb n (length l.clilist) ≡ true = lt→ltb _ _ (omega arith) in
    (
      pos (suc n),
      record { clilist = set l.clilist n c; tailindex = pos (suc n) },
      rw (at, fits),
      length-set l.clilist n c ∙ size,
      inr (suc n, refl, omega arith),
    )

Fits-fewer : (k : ℕ) (t : ℤ) → Fits (suc k) t → Fits k t
Fits-fewer k t (inl never) = absurd (omega arith)
Fits-fewer k t (inr (n, at, room)) = inr (n, at, omega arith)

module _ (listenfd : ℕ) where
  -- The events of a round whose arrivals fit are all served, or the server stops where `accept` fails.
  serve_events-Fits :
      (accepted : ℕ → Option ClientMember) (i : ℕ) (evs : List Event) (s : Server)
      → length s.clients.clilist ≡ 256
      → Fits (arrivals listenfd evs) s.clients.tailindex
      → (go_on : Bool) × (t : Server) × (serve_events listenfd accepted i evs s ≡ some (go_on, t))
  unfolding serve_events serve_event accept_client
  serve_events-Fits accepted i [] s size fits = (true, s, refl)
  serve_events-Fits accepted i (ev ∷ evs) s size fits = elim (Bool-cases (ev.fd == listenfd)) [
    | inl new ↦
        arrive (λ l. serve_events-Fits accepted (suc i) evs (record s { clients = l })) (accepted i)
          refl new (rw new at fits)
    | inr old ↦ elim (Bool-cases ev.epollin) [
      | inl ready ↦
          let (go_on, t, e) =
            serve_events-Fits accepted (suc i) evs (record s { tasks = s.tasks ++ i ∷ [] }) size
              (rw old at fits) in
          (go_on, t, rw (old, ready, ◌>>=◌) e)
      | inr other ↦
          let (go_on, t, e) = serve_events-Fits accepted (suc i) evs s size (rw old at fits) in
          (go_on, t, rw (old, other, ◌>>=◌) e)
    ]
  ]
    where
      arrive :
          ((l : CliList)
            → length l.clilist ≡ 256
            → Fits (arrivals listenfd evs) l.tailindex
            → (go_on : Bool) × (t : Server) × (serve_events listenfd accepted
                  (suc i)
                  evs
                  (record s { clients = l })
                ≡ some (go_on, t)))
          → (o : Option ClientMember) → accepted i ≡ o
          → ev.fd == listenfd ≡ true
          → Fits (suc (arrivals listenfd evs)) s.clients.tailindex
          → (go_on : Bool) × (t : Server) × (serve_events listenfd accepted i (ev ∷ evs) s
              ≡ some (go_on, t))
      arrive rest none got new room = (false, s, rw (new, got, ◌>>=◌))
      arrive rest (some c) got new room =
          let (ret, l, added, size', room') =
            add_clilist-Fits c s.clients (arrivals listenfd evs) size room in
          let (go_on, t, e) = rest l size' room' in (go_on, t, rw (new, got, added, ◌>>=◌) e)

  -- From a sound server, while the event loop, the tasks and the replies of the command thread run in
  -- any order and with any results of `read` and `write`, as long as the arrivals of each round find
  -- entries in the array: the oldest waiting task reads its event and its client inside the arrays, even
  -- if the client has left the list; so does each call of `op_write`; the next round is served inside the
  -- arrays if its arrivals fit; and each of these leaves the server sound. The next arrival is written
  -- outside the array exactly if `tailindex` is 256 or negative.
  pub Reach-inside :
      (s t : Server) (again : Bool) (n m : ℤ) (fd i : ℕ) (is : List ℕ)
      (accepted : ℕ → Option ClientMember) (evs : List Event) (c : ClientMember)
      → IsSound s
      → Reach listenfd s t
      → t.tasks ≡ i ∷ is
      → length evs ≤ 256
      → Fits (arrivals listenfd evs) t.clients.tailindex
      → (ret ret' : ℤ) × (u v : Server) × (l : CliList) × (go_on : Bool) × (run_task again n t
          ≡ some (ret, u))
        × IsSound u
        × (op_write again m fd t.clients ≡ some (ret', l))
        × IsSound (record t { clients = l })
        × (serve_round listenfd accepted evs t ≡ some (go_on, v))
        × IsSound v
        × ((add_clilist c t.clients ≡ none) ↔ IsFull t.clients.tailindex)
  unfolding serve_round op_write
  Reach-inside s t again n m fd i is accepted evs c sound r waiting few fits =
      let v = Reach-IsSound sound r in
      let (ret, u, ran, after) = run_task-IsSound again n t i is waiting v in
      let (ret', l, wrote, b) = op_read-IsBounded again m fd t.clients v.bounded in
      let (go_on, w, served) =
        serve_events-Fits accepted 0 evs (record t { events = evs ++ drop (length evs) t.events })
          v.bounded.entries fits in
      (
        ret,
        ret',
        u,
        w,
        l,
        go_on,
        ran,
        after,
        wrote,
        record { bounded = b; slots = v.slots; tasks_in = v.tasks_in },
        served,
        serve_round-IsSound listenfd accepted evs t go_on w few v served,
        add_clilist-none_iff c t.clients.clilist t.clients.tailindex v.bounded.entries,
      )
