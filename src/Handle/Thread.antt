-- ===== src/Handle/Thread.antt =====
-- How the command thread tells binary from text, and success from failure.
use instruction_parser.Prelude.{
  ℕ, suc, ◌+◌, ◌%◌, ◌≤◌, ◌<◌, ◌≡◌, ℤ, pos, Bool, true, Option, none, some, ◌>>=◌, List, ◌∷◌, length,
  drop, ◌==◌, if◌then◌else◌, arith,
}
use instruction_parser.Strings.Laws.{fetch_out}
use instruction_parser.Frame.{CmdFrame, cmd_name}
use instruction_parser.Registry.{Links}
use instruction_parser.Registry.Chains.{Chain}
use instruction_parser.Queue.Static.{pop_cmd_queue}
use instruction_parser.Queue.Refine.{Represents, pop_some}
use instruction_parser.Commands.{Command, call_if, run_cmd}
use instruction_parser.Commands.Dispatch.{find_cmd, NamesFree, do_cmd_list-eq}
use instruction_parser.Handle.{
  CmdThread, response, do_response, get_binary_cmd, get_text_cmd, get_cmd_step,
}

module _ {W : Type 0} (op_write : ℕ → List ℕ → W → Option (ℤ × W)) (cmds : ℕ → Command W)
    (links : Links) (fuel : ℕ) where
  -- A round takes the oldest frame of the queue, and runs it as text exactly if its command number
  -- is zero; the other form is not tried.
  pub get_cmd_step-oldest :
      (memory : Bool) (st : CmdThread W) (cmd : CmdFrame) (rest : List CmdFrame)
      → Represents st.queue (cmd ∷ rest)
      → get_cmd_step op_write cmds links fuel memory st ≡ (
          (if cmd.cmd_id == 0
            then get_text_cmd op_write cmds links fuel cmd st.reply st.world
            else get_binary_cmd op_write cmds links fuel memory cmd st.reply st.world)
          >>= λ r. some (record {
            queue = record st.queue { front = (st.queue.front + 1) % 100 };
            reply = r.0;
            world = r.1;
          }))
  unfolding get_cmd_step pop_cmd_queue
  get_cmd_step-oldest memory st cmd rest v = rw (pop_some st.queue cmd rest v)

  -- If the registered command of a binary frame's name fails with a status that is positive and
  -- exceeds the size of the reply buffer, and `malloc` succeeds, the reply buffer is read beyond its
  -- end: the status is taken for the length of a reply.
  pub failed_cmd_overreads :
      (cmd : CmdFrame) (xs : List ℕ) (s reply : List ℕ) (w w' : W) (p status : ℕ)
      → Chain links.next links.head xs
      → length xs < fuel
      → NamesFree cmds xs
      → cmd_name cmd ≡ some s
      → find_cmd cmds s xs ≡ some p
      → call_if (cmds p).do_cmd (drop 16 cmd.arrays) cmd.cmd_len w ≡ some (pos (suc status), w')
      → length reply ≤ status
      → get_binary_cmd op_write cmds links fuel true cmd reply w ≡ none
  unfolding get_binary_cmd run_cmd do_response response
  failed_cmd_overreads cmd xs s reply w w' p status c h f e found fails long =
      rw (do_cmd_list-eq cmds links.next fuel links.head xs cmd s reply w c h f e)
        (rw found (rw (fails, ◌>>=◌) (rw (fetch_out reply 0 (suc status) (omega arith), ◌>>=◌))))
