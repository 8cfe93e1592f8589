-- ===== src/Handle/Stale.antt =====
-- What a text command without a reply of its own is answered.
use instruction_parser.Prelude.{ℕ, ◌<◌, ◌≡◌, ◌≢◌, ℤ, pos, Option, none, some, List, length, drop}
use instruction_parser.Strings.{codes, c_string}
use instruction_parser.Frame.{CmdFrame, cmd_name, cmd_data_at}
use instruction_parser.Registry.{Links}
use instruction_parser.Registry.Chains.{Chain}
use instruction_parser.Commands.{Command, call_if, reply_of}
use instruction_parser.Commands.Dispatch.{find_cmd, NamesFree}
use instruction_parser.Handle.TextAnswered.{done_line, get_text_cmd-answers}
use instruction_parser.Handle.{get_text_cmd}

module _ {W : Type 0} (op_write : ℕ → List ℕ → W → Option (ℤ × W)) (cmds : ℕ → Command W)
    (links : Links) (fuel : ℕ) where
  -- If the text command of a frame, other than `help`, succeeds and has no `get_reply`, the line that
  -- is written repeats as its answer the string that earlier commands left in the reply buffer, and
  -- the buffer stays as it was, for the next command.
  pub stale_answer :
      (cmd : CmdFrame) (xs s old reply : List ℕ) (p : ℕ) (ret : ℤ) (w w1 w2 : W)
      → Chain links.next links.head xs
      → length xs < fuel
      → NamesFree cmds xs
      → cmd_name cmd ≡ some s
      → s ≢ codes "help"
      → find_cmd cmds s xs ≡ some p
      → call_if (cmds p).do_text_cmd (drop (cmd_data_at 0) cmd.arrays) cmd.cmd_len w
        ≡ some (pos 0, w1)
      → (cmds p).get_reply ≡ none
      → c_string reply ≡ some old
      → length (done_line cmd.frame_id s old) < 512
      → op_write cmd.fd (done_line cmd.frame_id s old) w1 ≡ some (ret, w2)
      → get_text_cmd op_write cmds links fuel cmd reply w ≡ some (reply, w2)
  stale_answer cmd xs s old reply p ret w w1 w2 c h f e other found runs silent left short sent =
      get_text_cmd-answers op_write cmds links fuel cmd xs s old reply reply p 0 ret w w1 w1 w2 c h
        f e other found runs (unfold reply_of in rw silent) left short sent
