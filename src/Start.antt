-- ===== src/Start.antt =====
-- main.c, and what it calls to start the command thread and the logger: handle/handle.c
-- `start_cmd_thread`, common/logger.c `logger_init`. What `zlog_init`, `zlog_get_category` and
-- `pthread_create` return are arguments. `main` does not look at the results of the thread starts, and
-- those of the registrations are at most printed; which of the two threads there are is part of the
-- state.
pub mod Ready
pub mod Early
pub mod Boots
pub mod Gone
pub mod Served
pub mod Running
pub mod Whole
pub mod Requests
pub mod TextRequests
use instruction_parser.Prelude.{
  ℕ, ℤ, pos, negsuc, is_nonzero, Bool, true, false, not, Option, none, some, ◌>>=◌, List, [], ◌∷◌,
  ◌++◌, ◌≡◌, ◌≢◌, refl, ap, ◌∙◌, if◌then◌else◌, arith, ◌==◌,
}
use instruction_parser.Strings.{codes}
use instruction_parser.Frame.{CmdFrame}
use instruction_parser.Queue.{CircleQueue}
use instruction_parser.Queue.Static.{CmdQueue, init_cmd_queue}
use instruction_parser.Registry.{Links}
use instruction_parser.Registry.Chains.{Chain}
use instruction_parser.Config.{entry, config_file}
use instruction_parser.Config.Lines.{text, Others}
use instruction_parser.Config.Rewrite.{config_file-appends}
use instruction_parser.Handle.Receive.{register_protocols}
use instruction_parser.Handle.Receive.Route.{IsReady, register_protocols-IsReady}
use instruction_parser.Server.{start_server}
use instruction_parser.Functions.Enter.{cmd_register_enter, cmd_register_enter-Chain}

-- What outlives the calls: the file /etc/os-release, the two registries and the queue; and whether the
-- threads of `server_start` and of `get_cmd` have been created.
pub record Program : Type 0 where
  pub os_release : Option (List ℕ)
  pub protocols : Links
  pub commands : Links
  pub queue : CmdQueue
  pub server_thread : Bool
  pub cmd_thread : Bool

-- Where `main` is: it has returned, or it is in its endless loop of `sleep`.
pub data Progress : Type 0 where
  returned : ℤ → Progress
  sleeping : Progress

-- The Boolean is whether there is a category.
unfoldable pub logger_init : ℤ → Bool → ℤ
logger_init zlog category =
    if is_nonzero zlog then negsuc 0 else if category then pos 0 else negsuc 1

-- `malloc` gives the block, and `pthread_create` the number. The Boolean is whether there is a thread.
unfoldable pub start_cmd_thread : Option (CircleQueue CmdFrame) → ℤ → CmdQueue → ℤ × CmdQueue × Bool
start_cmd_thread block created q =
    let (ret, lost, q') = init_cmd_queue block q in
    if is_nonzero ret then (negsuc 0, q', false) else (created, q', not (is_nonzero created))

-- The server's thread: how far `start_server` got, and what the thread returns.
unfoldable pub server_start : Bool → ℤ → ℤ → Option ℤ × ℤ
server_start pool socket bound = (start_server pool socket bound, pos 0)

-- `pthread_create` gives the number; its failure is also printed.
unfoldable pub start_server_thread : ℤ → ℤ × Bool
start_server_thread created = if is_nonzero created then (created, false) else (created, true)

abbrev pub version_key : List ℕ
version_key = codes "CMD_SERVER_VER"

abbrev pub version : List ℕ
version = codes "V1.0.00"

module _ (seek : ℕ → Bool × Bool) (zlog : ℤ) (category : Bool) (served : ℤ)
    (block : Option (CircleQueue CmdFrame)) (created : ℤ) where
  -- `served` is what `pthread_create` gives for the server, and `created` for the command thread.
  unfoldable pub main : Program → Option (Progress × Program)
  unfolding logger_init start_server_thread start_cmd_thread
  main p =
      let (ret, file) = config_file seek p.os_release version_key version in
      let p1 = record p { os_release = file } in
      let ret' = logger_init zlog category in
      let (started, serving) = start_server_thread served in
      let (started', q, handling) = start_cmd_thread block created p.queue in
      if is_nonzero ret
      then some (returned ret, p1)
      else if is_nonzero ret'
      then some (returned ret', p1)
      else (register_protocols p.protocols >>= λ protocols.
          cmd_register_enter p.commands >>= λ commands. some (
            sleeping,
            record p1 {
              protocols = protocols;
              commands = commands;
              queue = q;
              server_thread = serving;
              cmd_thread = handling;
            },
          ))
