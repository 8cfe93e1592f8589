-- ===== src/Server/Work.antt =====
-- A task of the thread pool: the whole of handle/handle.c `handle`, `op_read` included.
use instruction_parser.Prelude.{
  ℕ, suc, ◌+◌, ◌≤◌, ◌≡◌, ◌≢◌, refl, ℤ, pos, Bool, true, false, Option, some, ◌>>=◌, List, [], ◌∷◌,
  ◌++◌, length, drop, replicate, ◌==◌, arith,
}
use instruction_parser.Strings.{store}
use instruction_parser.Strings.Laws.{store_in}
use instruction_parser.Frame.{CmdFrame}
use instruction_parser.Registry.{Links}
use instruction_parser.Queue.Static.{CmdQueue}
use instruction_parser.Clients.{ClientMember, op_read}
use instruction_parser.Handle.Receive.{handle}
use instruction_parser.Server.{Server, serve_event, serve_events, serve_round, task_fd, run_task}

-- `line`, after `read` has put its bytes there.
unfoldable pub line_of : List ℕ → Option (List ℕ)
line_of bytes = store (replicate 255 0) 0 bytes

-- `read` gives `n`, and the bytes.
unfoldable pub work :
    Links → List ℕ → CmdFrame → Bool → ℤ → List ℕ → Server → CmdQueue → Option (Server × CmdQueue)
work protocols tmp_str stack again n bytes s q = do
  fd ← task_fd s
  line ← line_of bytes
  (ret, t) ← run_task again n s
  q' ← handle 4 protocols tmp_str stack fd ret line q
  some (t, q')

pub line_of_lem :
    (bytes : List ℕ)
    → length bytes ≤ 255
    → line_of bytes ≡ some (bytes ++ drop (0 + length bytes) (replicate 255 0))
unfolding line_of
line_of_lem bytes h = store_in (replicate 255 0) 0 bytes (omega arith)

-- An event of a client, and the server when it waits again.
pub notified : ℕ → Server → Server
notified fd s = record s {
  events = record { fd = fd; epollin = true } ∷ drop 1 s.events;
  tasks = 0 ∷ [];
}

pub serve_round-notified :
    (listenfd fd : ℕ) (accepted : ℕ → Option ClientMember) (s : Server)
    → fd ≢ listenfd
    → s.tasks ≡ []
    → serve_round listenfd accepted (record { fd = fd; epollin = true } ∷ []) s
      ≡ some (true, notified fd s)
unfolding serve_round serve_events serve_event notified
serve_round-notified listenfd fd accepted s other idle =
    let e : (fd == listenfd) ≡ false = ground arith in rw (e, idle, ◌>>=◌)

-- The task reads from the client, and the list of clients stays.
pub run_task-notified :
    (fd n : ℕ) (again : Bool) (s : Server)
    → (task_fd (notified fd s) ≡ some fd)
      × (run_task again (pos (suc n)) (notified fd s)
          ≡ some (pos (suc n), record (notified fd s) { tasks = [] }))
unfolding task_fd run_task notified op_read
run_task-notified fd n again s = (refl, refl)
