-- ===== src/Server/Bounds.antt =====
-- Which accesses of the arrays stay inside them.
use instruction_parser.Prelude.{
  ℕ, suc, ◌+◌, ◌≤◌, ◌<◌, ◌≡◌, refl, sym, ap, subst, ◌∙◌, ℤ, Bool, true, Bool-cases, inl, inr,
  >>=-eq-some, Option, none, some, ◌>>=◌, List, [], ◌∷◌, ◌++◌, length, length-append, length-drop,
  drop, ◌==◌, arith,
}
use instruction_parser.Clients.{ClientMember, CliList, add_clilist, op_read, op_write}
use instruction_parser.Server.{
  Event, Server, accept_client, serve_event, serve_events, serve_round, run_task, Step, poll, work,
  answer, Reach, here, next,
}
use instruction_parser.Server.Members.{get_elem?-in, IsBounded, op_read-IsBounded, add_parts}

-- Tasks name entries of the array of events.
abbrev pub TasksIn : List ℕ → Type 0
TasksIn [] = Unit {0}
TasksIn (i ∷ is) = (i < 256) × TasksIn is

pub record IsSound (s : Server) : Type 0 where
  pub bounded : IsBounded s.clients
  pub slots : length s.events ≡ 256
  pub tasks_in : TasksIn s.tasks

TasksIn-append : (is js : List ℕ) → TasksIn is → TasksIn js → TasksIn (is ++ js)
TasksIn-append [] js h k = k
TasksIn-append (i ∷ is) js h k = (h.0, TasksIn-append is js h.1 k)

-- The three ways in which an event is served.
accept_client-IsSound :
    (accepted : Option ClientMember) (s : Server) (go_on : Bool) (t : Server)
    → IsSound s
    → accept_client accepted s ≡ some (go_on, t)
    → IsSound t
unfolding accept_client
accept_client-IsSound none s go_on t v e = let same : s ≡ t = cc in subst IsSound same v
accept_client-IsSound (some cli) s go_on t v e =
    let (r, added, h) = >>=-eq-some (add_clilist cli s.clients) _ e in
    let same : record s { clients = r.1 } ≡ t = cc in
    subst IsSound same (record {
      bounded = add_parts cli s.clients.clilist s.clients.tailindex r.0 r.1 v.bounded.entries added;
      slots = v.slots;
      tasks_in = v.tasks_in;
    })

queue-IsSound :
    (s : Server) (i : ℕ) → i < 256 → IsSound s → IsSound (record s { tasks = s.tasks ++ i ∷ [] })
queue-IsSound s i h v = record {
  bounded = v.bounded;
  slots = v.slots;
  tasks_in = TasksIn-append s.tasks (i ∷ []) v.tasks_in (h, tt);
}

module _ (listenfd : ℕ) where
  serve_event-IsSound :
      (accepted : Option ClientMember) (i : ℕ) (ev : Event) (s : Server) (go_on : Bool) (t : Server)
      → i < 256
      → IsSound s
      → serve_event listenfd accepted i ev s ≡ some (go_on, t)
      → IsSound t
  unfolding serve_event
  serve_event-IsSound accepted i ev s go_on t h v e = elim (Bool-cases (ev.fd == listenfd)) [
    | inl new ↦ accept_client-IsSound accepted s go_on t v (rw new at e)
    | inr old ↦ elim (Bool-cases ev.epollin) [
      | inl ready ↦
          let e' = rw (old, ready) at e in
          let same : record s { tasks = s.tasks ++ i ∷ [] } ≡ t = cc in
          subst IsSound same (queue-IsSound s i h v)
      | inr other ↦ let e' = rw (old, other) at e in let same : s ≡ t = cc in subst IsSound same v
    ]
  ]

  serve_events-IsSound :
      (accepted : ℕ → Option ClientMember) (i : ℕ) (evs : List Event) (s : Server) (go_on : Bool)
      (t : Server)
      → i + length evs ≤ 256
      → IsSound s
      → serve_events listenfd accepted i evs s ≡ some (go_on, t)
      → IsSound t
  unfolding serve_events
  serve_events-IsSound accepted i [] s go_on t h v e = let same : s ≡ t = cc in subst IsSound same v
  serve_events-IsSound accepted i (ev ∷ evs) s go_on t h v e =
      let (r, served, h1) = >>=-eq-some (serve_event listenfd (accepted i) i ev s) _ e in
      let v1 = serve_event-IsSound (accepted i) i ev s r.0 r.1 (omega arith) v served in
      elim (Bool-cases r.0) [
        | inl more ↦
            serve_events-IsSound accepted (suc i) evs r.1 go_on t (omega arith) v1 (rw more at h1)
        | inr stop ↦ let h2 = rw stop at h1 in let same : r.1 ≡ t = cc in subst IsSound same v1
      ]

  pub serve_round-IsSound :
      (accepted : ℕ → Option ClientMember) (evs : List Event) (s : Server) (go_on : Bool)
      (t : Server)
      → length evs ≤ 256
      → IsSound s
      → serve_round listenfd accepted evs s ≡ some (go_on, t)
      → IsSound t
  unfolding serve_round
  serve_round-IsSound accepted evs s go_on t h v =
      let size : length (evs ++ drop (length evs) s.events) ≡ 256 = omega (
        arith,
        v.slots,
        length-append evs (drop (length evs) s.events),
        length-drop (length evs) s.events,
      ) in
      serve_events-IsSound accepted 0 evs (record s { events = evs ++ drop (length evs) s.events })
        go_on t (omega arith) (record { bounded = v.bounded; slots = size; tasks_in = v.tasks_in })

-- In a sound state the oldest task is defined, and leaves a sound state.
run_parts :
    (again : Bool) (n : ℤ) (clients : CliList) (events : List Event) (i : ℕ) (is : List ℕ)
    → IsSound (record { clients = clients; events = events; tasks = i ∷ is })
    → (ret : ℤ) × (t : Server) × (run_task again n
          (record { clients = clients; events = events; tasks = i ∷ is })
        ≡ some (ret, t))
      × IsSound t
unfolding run_task
run_parts again n clients events i is v =
    let slots : length events ≡ 256 = v.slots in
    let (ev, got) = get_elem?-in events i (omega (arith, v.tasks_in.0)) in
    let (ret, l, e, b) = op_read-IsBounded again n ev.fd clients v.bounded in
    (
      ret,
      record { clients = l; events = events; tasks = is },
      rw (got, ◌>>=◌, ◌>>=◌) (rw (e, ◌>>=◌)),
      record { bounded = b; slots = v.slots; tasks_in = v.tasks_in.1 },
    )

with_tasks : {s : Server} {js : List ℕ} → s.tasks ≡ js → s ≡ record s { tasks = js }
with_tasks {s} e = ap (λ js. record s { tasks = js }) e

pub run_task-IsSound :
    (again : Bool) (n : ℤ) (s : Server) (i : ℕ) (is : List ℕ)
    → s.tasks ≡ i ∷ is
    → IsSound s
    → (ret : ℤ) × (t : Server) × (run_task again n s ≡ some (ret, t)) × IsSound t
run_task-IsSound again n s i is e v =
    let same : s ≡ record s { tasks = i ∷ is } = with_tasks {s = s} e in
    subst (λ x. (ret : ℤ) × (t : Server) × (run_task again n x ≡ some (ret, t)) × IsSound t)
      (sym same) (run_parts again n s.clients s.events i is (subst IsSound same v))

idle :
    (again : Bool) (n : ℤ) (clients : CliList) (events : List Event)
    → run_task again n (record { clients = clients; events = events; tasks = [] }) ≡ none
unfolding run_task
idle again n clients events = refl

work-IsSound :
    (again : Bool) (n ret : ℤ) (s t : Server) (js : List ℕ)
    → s.tasks ≡ js
    → IsSound s
    → run_task again n s ≡ some (ret, t)
    → IsSound t
work-IsSound again n ret s t (i ∷ is) e v h =
    let (ret', u, ran, w) = run_task-IsSound again n s i is e v in
    let same : u ≡ t = cc in subst IsSound same w
work-IsSound again n ret s t [] e v h =
    let same : s ≡ record s { tasks = [] } = with_tasks {s = s} e in
    let h' = sym (ap (run_task again n) same) ∙ h in
    let idle' = idle again n s.clients s.events in cc

pub Step-IsSound : {listenfd : ℕ} {s t : Server} → Step listenfd s t → IsSound s → IsSound t
Step-IsSound (poll {s} {t} accepted evs few fits e) v =
    serve_round-IsSound _ accepted evs s true t few v e
Step-IsSound (work {s} {t} again n ret e) v = work-IsSound again n ret s t s.tasks refl v e
Step-IsSound (answer {s} again n ret fd l e) v =
    let (ret', l', e', b) = op_read-IsBounded again n fd s.clients v.bounded in
    let wrote : op_read again n fd s.clients ≡ some (ret, l) = unfold op_write in e in
    let same : l' ≡ l = cc in
    record { bounded = subst IsBounded same b; slots = v.slots; tasks_in = v.tasks_in }

pub Reach-IsSound : {listenfd : ℕ} {s t : Server} → IsSound s → Reach listenfd s t → IsSound t
Reach-IsSound v here = v
Reach-IsSound v (next r st) = Step-IsSound st (Reach-IsSound v r)
