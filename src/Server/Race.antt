-- ===== src/Server/Race.antt =====
-- Which descriptor a task reads.
use instruction_parser.Prelude.{
  ℕ, suc, ◌≡◌, ◌≢◌, refl, sym, ap, ap₂, ◌∙◌, true, false, Bool-cases, inl, inr, Option, some, ◌>>=◌,
  List, [], ◌∷◌, ◌++◌, map, append-nil, append_assoc, get_elem?, length, length-append, drop, ◌==◌,
  if◌then◌else◌, arith,
}
use instruction_parser.Clients.{ClientMember}
use instruction_parser.Server.{Event, Server, serve_event, serve_events, serve_round}

-- The events that the waiting tasks point to, in order.
unfoldable pub pending : Server → List (Option Event)
pending s = map (get_elem? s.events) s.tasks

-- The events that are handed to the pool.
unfoldable pub ready : List Event → List Event
ready [] = []
ready (ev ∷ evs) = let rest = ready evs in if ev.epollin then ev ∷ rest else rest

ready_on : (ev : Event) (evs : List Event) → ev.epollin ≡ true → ready (ev ∷ evs) ≡ ev ∷ ready evs
unfolding ready
ready_on ev evs e = ap (λ b. if b then ev ∷ ready evs else ready evs) e

ready_off : (ev : Event) (evs : List Event) → ev.epollin ≡ false → ready (ev ∷ evs) ≡ ready evs
unfolding ready
ready_off ev evs e = ap (λ b. if b then ev ∷ ready evs else ready evs) e

-- No event is for the listening socket.
abbrev pub NoneNew : ℕ → List Event → Type 0
NoneNew listenfd [] = Unit {0}
NoneNew listenfd (ev ∷ evs) = (ev.fd ≢ listenfd) × NoneNew listenfd evs

get_at : (xs ys : List Event) (ev : Event) → get_elem? (xs ++ ev ∷ ys) (length xs) ≡ some ev
get_at [] ys ev = refl
get_at (x ∷ xs) ys ev = get_at xs ys ev

module _ (listenfd : ℕ) (accepted : ℕ → Option ClientMember) where
  -- The tasks that some events add, from the index of the first of them on.
  added :
      (evs front back : List Event) (s : Server)
      → s.events ≡ front ++ (evs ++ back)
      → NoneNew listenfd evs
      → (is : List ℕ) × (serve_events listenfd accepted (length front) evs s
          ≡ some (true, record s { tasks = s.tasks ++ is }))
        × (map (get_elem? s.events) is ≡ map some (ready evs))
  unfolding serve_events serve_event
  added [] front back s e h = ([], rw append-nil, unfold ready in refl)
  added (ev ∷ evs) front back s e h =
      let old : ev.fd == listenfd ≡ false = ground arith in
      let one : length (front ++ ev ∷ []) ≡ suc (length front) =
        length-append front (ev ∷ []) ∙ omega arith in
      let shifted : s.events ≡ (front ++ ev ∷ []) ++ (evs ++ back) =
        e ∙ sym (append_assoc front (ev ∷ []) (evs ++ back)) in
      let got : get_elem? s.events (length front) ≡ some ev =
        ap (λ xs. get_elem? xs (length front)) e ∙ get_at front (evs ++ back) ev in
      elim (Bool-cases ev.epollin) [
        | inl on ↦
            let s1 : Server = record s { tasks = s.tasks ++ length front ∷ [] } in
            let (is, done, read) = added evs (front ++ ev ∷ []) back s1 shifted h.1 in
            (
              length front ∷ is,
              rw (old, on, ◌>>=◌)
                  (ap (λ n. serve_events listenfd accepted n evs s1) (sym one)
                    ∙ done
                    ∙ ap (λ ts. some (true, record s { tasks = ts }))
                        (append_assoc s.tasks (length front ∷ []) is)),
              ap₂ ◌∷◌ got read ∙ ap (map some) (sym (ready_on ev evs on)),
            )
        | inr off ↦
            let (is, done, read) = added evs (front ++ ev ∷ []) back s shifted h.1 in
            (
              is,
              rw (old, off, ◌>>=◌)
                  (ap (λ n. serve_events listenfd accepted n evs s) (sym one) ∙ done),
              read ∙ ap (map some) (sym (ready_off ev evs off)),
            )
      ]

  -- A round with no event for the listening socket, on a server with no task waiting, leaves a task
  -- for each readable connection, and each will read the descriptor of its own event.
  pub serve_round-pending :
      (evs : List Event) (s : Server)
      → s.tasks ≡ []
      → NoneNew listenfd evs
      → (t : Server) × (serve_round listenfd accepted evs s ≡ some (true, t))
        × (pending t ≡ map some (ready evs))
        × (t.clients ≡ s.clients)
  unfolding serve_round pending
  serve_round-pending evs s none_waiting h =
      let back : List Event = drop (length evs) s.events in
      let s1 : Server = record s { events = evs ++ back } in
      let (is, done, read) = added evs [] back s1 refl h in
      (
        record s1 { tasks = s.tasks ++ is },
        done,
        ap (λ ts. map (get_elem? (evs ++ back)) (ts ++ is)) none_waiting ∙ read,
        refl,
      )

  -- If no task waits and two readable connections come one after the other, with no worker running
  -- between them, the two tasks that wait both read the descriptor of the second connection.
  pub serve_round-overwrites :
      (ev1 ev2 : Event) (s : Server)
      → s.tasks ≡ []
      → ev1.fd ≢ listenfd
      → ev2.fd ≢ listenfd
      → ev1.epollin ≡ true
      → ev2.epollin ≡ true
      → (t u : Server) × (serve_round listenfd accepted (ev1 ∷ []) s ≡ some (true, t))
        × (serve_round listenfd accepted (ev2 ∷ []) t ≡ some (true, u))
        × (pending t ≡ some ev1 ∷ [])
        × (pending u ≡ some ev2 ∷ some ev2 ∷ [])
  unfolding serve_round pending serve_events serve_event
  serve_round-overwrites ev1 ev2 s none_waiting n1 n2 r1 r2 =
      let old1 : ev1.fd == listenfd ≡ false = ground arith in
      let old2 : ev2.fd == listenfd ≡ false = ground arith in
      let s1 : Server = record s { events = ev1 ∷ drop 1 s.events; tasks = 0 ∷ [] } in
      (
        s1,
        record s1 { events = ev2 ∷ drop 1 s.events; tasks = 0 ∷ 0 ∷ [] },
        rw (old1, r1, none_waiting),
        rw (old2, r2),
        refl,
        refl,
      )
