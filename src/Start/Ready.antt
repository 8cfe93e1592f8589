-- ===== src/Start/Ready.antt =====
-- The state in which `main` leaves the program.
use instruction_parser.Prelude.{
  ℕ, zero, suc, ℤ, pos, negsuc, is_nonzero, Bool, true, false, not, Option, none, some, ◌>>=◌, List,
  [], ◌∷◌, ◌++◌, ◌≡◌, refl,
}
use instruction_parser.Frame.{CmdFrame}
use instruction_parser.Queue.{CircleQueue, init_circle_queue}
use instruction_parser.Queue.Static.{init_cmd_queue}
use instruction_parser.Registry.Chains.{Chain}
use instruction_parser.Config.{entry}
use instruction_parser.Config.Lines.{text, Others}
use instruction_parser.Config.Rewrite.{config_file-appends}
use instruction_parser.Handle.Receive.Route.{IsReady, register_protocols-IsReady}
use instruction_parser.Functions.Enter.{cmd_register_enter-Chain}
use instruction_parser.Start.{
  Program, sleeping, start_server_thread, start_cmd_thread, version_key, version, main,
}

-- There is a command thread if `malloc` has given a block and `pthread_create` returned 0.
abbrev pub has_cmd_thread : Option (CircleQueue CmdFrame) → ℤ → Bool
has_cmd_thread none created = false
has_cmd_thread (some b) created = not (is_nonzero created)

-- Whatever the start of the command thread returns, the queue stays as it was.
start_cmd_thread-keeps :
    (block : Option (CircleQueue CmdFrame)) (created : ℤ) (q : CircleQueue CmdFrame)
    → ((start_cmd_thread block created q).1 ≡ q)
      × ((start_cmd_thread block created q).2 ≡ has_cmd_thread block created)
unfolding start_cmd_thread init_cmd_queue init_circle_queue
start_cmd_thread-keeps none created q = (refl, refl)
start_cmd_thread-keeps (some b) created q = (refl, refl)

start_server_thread_lem : (served : ℤ) → (start_server_thread served).1 ≡ not (is_nonzero served)
unfolding start_server_thread
start_server_thread_lem (pos zero) = refl
start_server_thread_lem (pos (suc n)) = refl
start_server_thread_lem (negsuc n) = refl

-- From empty registries, if /etc/os-release is a text of lines under other keys, `fseek` works and the
-- logger starts, `main` gets to its endless loop: the version is appended to the file, the three
-- protocols and the nine commands are registered in their order, and the queue is as it was, whatever
-- `malloc` and `pthread_create` return. The server's thread exists exactly if its `pthread_create`
-- returned 0, and the command thread exactly if its own did and `malloc` gave the block for the queue.
pub main-IsReady :
    (seek : ℕ → Bool × Bool) (served : ℤ) (block : Option (CircleQueue CmdFrame)) (created : ℤ)
    (ls : List (List ℕ)) (p : Program)
    → ((n : ℕ) → seek n ≡ (true, true))
    → p.os_release ≡ some (text ls)
    → Others version_key ls
    → p.protocols.head ≡ none
    → p.commands.head ≡ none
    → (p' : Program) × (main seek (pos 0) true served block created p ≡ some (sleeping, p'))
      × (p'.os_release ≡ some (text ls ++ entry version_key version))
      × IsReady p'.protocols
      × Chain p'.commands.next p'.commands.head (0 ∷ 1 ∷ 2 ∷ 3 ∷ 4 ∷ 5 ∷ 6 ∷ 7 ∷ 8 ∷ [])
      × (p'.queue ≡ p.queue)
      × (p'.server_thread ≡ not (is_nonzero served))
      × (p'.cmd_thread ≡ has_cmd_thread block created)
unfolding main
main-IsReady seek served block created ls p always lines o h h' =
    let (protocols, e, ready) = register_protocols-IsReady p.protocols h in
    let (commands, e', chain) = cmd_register_enter-Chain p.commands h' in
    let (kept, thread) = start_cmd_thread-keeps block created p.queue in
    let appended = config_file-appends seek version_key version ls always (λ z. cc) o in
    (
      record {
        os_release = some (text ls ++ entry version_key version);
        protocols = protocols;
        commands = commands;
        queue = p.queue;
        server_thread = not (is_nonzero served);
        cmd_thread = has_cmd_thread block created;
      },
      rw (lines, appended, e, ◌>>=◌, e', ◌>>=◌, start_server_thread_lem served, kept, thread),
      refl,
      ready,
      chain,
      refl,
      refl,
      refl,
    )
