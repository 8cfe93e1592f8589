-- ===== src/Server.antt =====
-- tcp_server/op_epoll.c `start_server`: the event loop, and the tasks that it gives to the thread pool.
-- The pool, `epoll_wait` and `accept` are outside: what they answer is an argument. A task is the
-- address of an event's descriptor in the array `events`, so it is an index here; the worker reads the
-- descriptor from the array when it runs.
pub mod Members
pub mod Bounds
pub mod Room
pub mod Race
pub mod Watch
pub mod Work
use instruction_parser.Prelude.{
  ℕ, zero, suc, ◌+◌, ◌≤◌, ◌≡◌, ◌⊎◌, ℤ, pos, negsuc, is_neg, Bool, true, false, Option, none, some,
  ◌>>=◌, List, [], ◌∷◌, ◌++◌, get_elem?, length, drop, leb, ◌==◌, if◌then◌else◌,
}
use instruction_parser.Clients.{ClientMember, CliList, add_clilist, op_read, op_write}

-- `init_servsock`, for what `socket` and `bind` return; a failure of `listen` is only logged.
unfoldable pub init_servsock : ℤ → ℤ → ℤ
init_servsock socket bound = if is_neg bound then negsuc 0 else socket

-- `start_server` up to its loop, and the `listenfd` with which it enters it: it returns -1, here
-- `none`, only if there is no thread pool.
unfoldable pub start_server : Bool → ℤ → ℤ → Option ℤ
start_server pool socket bound = if pool then some (init_servsock socket bound) else none

-- `epoll_event`: the descriptor, and whether `EPOLLIN` is set.
pub record Event : Type 0 where
  pub fd : ℕ
  pub epollin : Bool

-- The client list, the array `events` of `MAX_CONNECT` entries, and the tasks that wait.
pub record Server : Type 0 where
  pub clients : CliList
  pub events : List Event
  pub tasks : List ℕ

-- `accept`, which gives none where it fails; the Boolean is false where the server returns -1.
unfoldable pub accept_client : Option ClientMember → Server → Option (Bool × Server)
accept_client none s = some (false, s)
accept_client (some cli) s =
    add_clilist cli s.clients >>= λ r. some (true, record s { clients = r.1 })

module _ (listenfd : ℕ) where
  -- The body of the loop for the event at index `i`.
  unfoldable pub serve_event : Option ClientMember → ℕ → Event → Server → Option (Bool × Server)
  unfolding accept_client
  serve_event accepted i ev s =
      if ev.fd == listenfd
      then accept_client accepted s
      else if ev.epollin
      then some (true, record s { tasks = s.tasks ++ i ∷ [] })
      else some (true, s)

  -- `for(i = 0; i < nfds; ++i)`, from `i` on.
  unfoldable pub serve_events :
      (ℕ → Option ClientMember) → ℕ → List Event → Server → Option (Bool × Server)
  serve_events accepted i [] s = some (true, s)
  serve_events accepted i (ev ∷ evs) s = serve_event (accepted i) i ev s >>= λ r.
      let rest = serve_events accepted (suc i) evs r.1 in if r.0 then rest else some r

  -- One round of `for(;;)`: `epoll_wait` writes the first entries of the array.
  unfoldable pub serve_round :
      (ℕ → Option ClientMember) → List Event → Server → Option (Bool × Server)
  serve_round accepted evs s =
      serve_events accepted 0 evs (record s { events = evs ++ drop (length evs) s.events })

-- What the oldest task finds, once it runs: the descriptor, and what `read` gives for it.
unfoldable pub task_fd : Server → Option ℕ
task_fd s = elim s.tasks [ [] ↦ none | i ∷ ts ↦ get_elem? s.events i >>= λ ev. some ev.fd ]

-- The oldest task runs `handle` as far as `op_read`.
unfoldable pub run_task : Bool → ℤ → Server → Option (ℤ × Server)
unfolding task_fd
run_task again n s = do
  fd ← task_fd s
  (ret, clients) ← op_read again n fd s.clients
  some (ret, record s { clients = clients; tasks = drop 1 s.tasks })

-- How many of the events are those of the listening socket.
abbrev pub arrivals : ℕ → List Event → ℕ
arrivals listenfd [] = 0
arrivals listenfd (ev ∷ evs) =
    let n = arrivals listenfd evs in if ev.fd == listenfd then suc n else n

-- That many clients still have an entry in the array, at `tailindex` and behind it. `add_clilist` does
-- not test it.
abbrev pub Fits : ℕ → ℤ → Type 0
Fits k t = (k ≡ 0) ⊎ ((n : ℕ) × (t ≡ pos n) × (n + k ≤ 256))

-- The server's thread, the workers, and the replies of the command thread, in any order, as long as
-- arrivals fit.
pub data Step (listenfd : ℕ) : Server → Server → Type 0 where
  poll :
      {s t : Server} (accepted : ℕ → Option ClientMember) (evs : List Event)
      → length evs ≤ 256
      → Fits (arrivals listenfd evs) s.clients.tailindex
      → serve_round listenfd accepted evs s ≡ some (true, t)
      → Step listenfd s t
  work :
      {s t : Server} (again : Bool) (n ret : ℤ)
      → run_task again n s ≡ some (ret, t)
      → Step listenfd s t
  answer :
      {s : Server} (again : Bool) (n ret : ℤ) (fd : ℕ) (l : CliList)
      → op_write again n fd s.clients ≡ some (ret, l)
      → Step listenfd s (record s { clients = l })

pub data Reach (listenfd : ℕ) (s : Server) : Server → Type 0 where
  here : Reach listenfd s s
  next : {t u : Server} → Reach listenfd s t → Step listenfd t u → Reach listenfd s u
