-- ===== src/Handle/Progress.antt =====
-- What the command thread does in several rounds.
use instruction_parser.Prelude.{
  ℕ, zero, suc, ◌+◌, ◌%◌, ◌≡◌, ℤ, Bool, Option, some, ◌>>=◌, >>=-eq-some, List, [], ◌∷◌, ◌++◌,
  length, ◌==◌, if◌then◌else◌, arith,
}
use instruction_parser.Frame.{CmdFrame}
use instruction_parser.Registry.{Links}
use instruction_parser.Queue.{CircleQueue}
use instruction_parser.Queue.Refine.{Represents, popped-Represents}
use instruction_parser.Commands.{Command}
use instruction_parser.Handle.{CmdThread, get_binary_cmd, get_text_cmd, get_cmd_step}
use instruction_parser.Handle.Thread.{get_cmd_step-oldest}

module _ {W : Type 0} (op_write : ℕ → List ℕ → W → Option (ℤ × W)) (cmds : ℕ → Command W)
    (links : Links) (fuel : ℕ) (memory : Bool) where
  -- The frames of a list, one after another, with no queue between.
  unfoldable pub run_frames : List CmdFrame → List ℕ → W → Option (List ℕ × W)
  run_frames [] reply w = some (reply, w)
  run_frames (cmd ∷ rest) reply w =
      (if cmd.cmd_id == 0
        then get_text_cmd op_write cmds links fuel cmd reply w
        else get_binary_cmd op_write cmds links fuel memory cmd reply w)
      >>= λ r. run_frames rest r.0 r.1

  -- The first rounds of `get_cmd`.
  unfoldable pub get_cmd_rounds : ℕ → CmdThread W → Option (CmdThread W)
  get_cmd_rounds zero st = some st
  get_cmd_rounds (suc n) st = get_cmd_step op_write cmds links fuel memory st >>= get_cmd_rounds n

  -- If the commands of the queued frames return, then after as many rounds as there are frames before
  -- it, and one more, each frame has been handled: the first rounds handle the oldest frames, in
  -- their order, with the effect of running them one after another, and leave the younger ones.
  pub get_cmd_rounds-run_frames :
      (xs ys : List CmdFrame) (st : CmdThread W) (reply : List ℕ) (w : W)
      → Represents st.queue (xs ++ ys)
      → run_frames xs st.reply st.world ≡ some (reply, w)
      → (q : CircleQueue CmdFrame) × (get_cmd_rounds (length xs) st
          ≡ some (record { queue = q; reply = reply; world = w }))
        × Represents q ys
  unfolding run_frames get_cmd_rounds
  get_cmd_rounds-run_frames [] ys st reply w v e = (st.queue, ground arith, v)
  get_cmd_rounds-run_frames (cmd ∷ xs) ys st reply w v e =
      let (r, ran, h) =
        >>=-eq-some
          (if cmd.cmd_id == 0
            then get_text_cmd op_write cmds links fuel cmd st.reply st.world
            else get_binary_cmd op_write cmds links fuel memory cmd st.reply st.world)
          _ e in
      let q1 : CircleQueue CmdFrame = record st.queue { front = (st.queue.front + 1) % 100 } in
      let (q, rounds, left) =
        get_cmd_rounds-run_frames xs ys (record { queue = q1; reply = r.0; world = r.1 }) reply w
          (popped-Represents st.queue cmd (xs ++ ys) v) h in
      (
        q,
        rw (get_cmd_step-oldest op_write cmds links fuel memory st cmd (xs ++ ys) v, ran, ◌>>=◌)
            rounds,
        left,
      )
