-- ===== src/Start/Running.antt =====
-- The program after `main` has got to its endless loop: what its other threads do, one act at a time.
-- A thread acts only if it has been created.
use instruction_parser.Prelude.{
  ℕ, ◌≡◌, ℤ, pos, true, Bool, Option, none, some, List, [], ◌∷◌, length, if◌then◌else◌,
}
use instruction_parser.Frame.{CmdFrame}
use instruction_parser.Queue.Static.{CmdQueue}
use instruction_parser.Commands.{Command}
use instruction_parser.Clients.{ClientMember}
use instruction_parser.Handle.{CmdThread, get_cmd_step}
use instruction_parser.Server.{Server, serve_round}
use instruction_parser.Server.Work.{work}
use instruction_parser.Start.{Program, server_start}

-- The descriptor on which the loop of `start_server` listens, if its thread is there and got so far.
unfoldable pub listening : Bool → ℤ → ℤ → Program → Option ℤ
listening pool socket bound p = if p.server_thread then (server_start pool socket bound).0 else none

pub record Running (W : Type 0) : Type 0 where
  pub program : Program
  pub server : Server
  pub reply : List ℕ
  pub world : W

-- A round of the event loop for one readable client, a task that reads bytes, a round of `get_cmd`.
pub data Act : Type 0 where
  readable : ℕ → Act
  reading : List ℕ → Act
  answering : Act

module _ {W : Type 0} (op_write : ℕ → List ℕ → W → Option (ℤ × W)) (cmds : ℕ → Command W)
    (memory pool : Bool) (socket bound : ℤ) where
  pub data Step : Act → Running W → Running W → Type 0 where
    polls :
        {r : Running W} (fd listenfd : ℕ) (accepted : ℕ → Option ClientMember) (t : Server)
        → listening pool socket bound r.program ≡ some (pos listenfd)
        → serve_round listenfd accepted (record { fd = fd; epollin = true } ∷ []) r.server
          ≡ some (true, t)
        → Step (readable fd) r (record r { server = t })
    works :
        {r : Running W} (bytes tmp_str : List ℕ) (stack : CmdFrame) (again : Bool) (listenfd : ℕ)
        (t : Server) (q : CmdQueue)
        → listening pool socket bound r.program ≡ some (pos listenfd)
        → work r.program.protocols tmp_str stack again
            (pos (length bytes))
            bytes
            r.server
            r.program.queue
          ≡ some (t, q)
        → Step (reading bytes) r (record r { program = record r.program { queue = q }; server = t })
    rounds :
        {r : Running W} (t : CmdThread W)
        → r.program.cmd_thread ≡ true
        → get_cmd_step op_write cmds r.program.commands 10 memory
            (record { queue = r.program.queue; reply = r.reply; world = r.world })
          ≡ some t
        → Step answering r (record r {
          program = record r.program { queue = t.queue };
          reply = t.reply;
          world = t.world;
        })

  pub data Steps : List Act → Running W → Running W → Type 0 where
    done : {r : Running W} → Steps [] r r
    then :
        {a : Act} {acts : List Act} {r s t : Running W}
        → Step a r s
        → Steps acts s t
        → Steps (a ∷ acts) r t
