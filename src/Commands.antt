-- ===== src/Commands.antt =====
-- functions/function_manager.c and `T_CmdList`: the registered commands, and how a decoded frame gets
-- to one of them. The state that the commands share, with all that they ask of the system, is a
-- parameter `W`, and so is `op_write` on it. `none` is undefined behaviour.
pub mod Dispatch
use instruction_parser.Prelude.{
  ℕ, zero, suc, ◌+◌, ℤ, pos, negsuc, is_nonzero, is_neg, Bool, true, false, Option, none, some,
  ◌>>=◌, List, [], ◌∷◌, ◌++◌, drop, length, ltb, ◌==◌, if◌then◌else◌,
}
use instruction_parser.Strings.{codes}
use instruction_parser.Frame.{CmdFrame, cmd_name_at, data_at, cmd_data_at}

-- Is `strcmp(name, mem) == 0`? It reads `mem` up to the first difference.
unfoldable pub same_string : List ℕ → List ℕ → Option Bool
same_string name [] = none
same_string [] (c ∷ cs) = some (c == 0)
same_string (a ∷ as') (c ∷ cs) =
    let rest = same_string as' cs in if a == c then rest else some false

-- `T_CmdList`; `ptNext` is in the registry's links.
pub record Command (W : Type 0) : Type 0 where
  pub name : List ℕ
  pub usage : List ℕ
  pub help_info : List ℕ
  pub cmd_id : ℕ
  pub do_cmd : Option (List ℕ → ℕ → W → Option (ℤ × W))
  pub do_text_cmd : Option (List ℕ → ℕ → W → Option (ℤ × W))
  pub get_reply : Option (List ℕ → W → Option (ℤ × List ℕ × W))

module _ {W : Type 0} where
  -- A callback that may be NULL. One that is not there counts as a success.
  unfoldable pub call_if :
      Option (List ℕ → ℕ → W → Option (ℤ × W)) → List ℕ → ℕ → W → Option (ℤ × W)
  call_if none mem len w = some (pos 0, w)
  call_if (some f) mem len w = f mem len w

  unfoldable pub reply_of : Command W → List ℕ → W → Option (ℤ × List ℕ × W)
  reply_of c reply w = elim c.get_reply [ none ↦ some (pos 0, reply, w) | some g ↦ g reply w ]

  -- The body of `do_cmd_list` for the command that fits.
  unfoldable pub run_cmd : Command W → CmdFrame → List ℕ → W → Option (ℤ × List ℕ × W)
  unfolding call_if reply_of
  run_cmd c cmd reply w = do
    (ret, w') ← call_if c.do_cmd (drop data_at cmd.arrays) cmd.cmd_len w
    if is_nonzero ret then some (ret, reply, w') else reply_of c reply w'

  unfoldable pub do_cmd_list :
      (ℕ → Command W)
      → (ℕ → Option ℕ)
      → ℕ
      → Option ℕ
      → CmdFrame
      → List ℕ
      → W
      → Option (ℤ × List ℕ × W)
  do_cmd_list cmds next zero cur cmd reply w = none
  do_cmd_list cmds next (suc fuel) none cmd reply w = some (negsuc 0, reply, w)
  do_cmd_list cmds next (suc fuel) (some p) cmd reply w =
      same_string (cmds p).name (drop cmd_name_at cmd.arrays) >>= λ same.
      let rest = do_cmd_list cmds next fuel (next p) cmd reply w in
      if same then run_cmd (cmds p) cmd reply w else rest

module _ {W : Type 0} (op_write : ℕ → List ℕ → W → Option (ℤ × W)) where
  -- `sprintf(help, "%s\t\t%s\n", ...)` into 256 bytes.
  unfoldable pub help_line : Command W → Option (List ℕ)
  help_line c =
      let line = c.usage ++ 9 ∷ 9 ∷ (c.help_info ++ 10 ∷ []) in
      if ltb (length line) 256 then some line else none

  -- One line for each command, until a write fails for good.
  unfoldable pub text_do_help :
      (ℕ → Command W) → (ℕ → Option ℕ) → ℕ → Option ℕ → ℕ → W → Option (ℤ × W)
  text_do_help cmds next zero cur fd w = none
  text_do_help cmds next (suc fuel) none fd w = some (pos 0, w)
  text_do_help cmds next (suc fuel) (some p) fd w = help_line (cmds p) >>= λ line.
      op_write fd line w >>= λ r.
      let rest = text_do_help cmds next fuel (next p) fd r.1 in
      elim r.0 [ negsuc (suc n) ↦ some (negsuc (suc n), r.1) | _ ↦ rest ]

  -- The body of `do_text_cmd` for the command that fits. The result of the help is dropped.
  unfoldable pub run_text_cmd :
      (ℕ → Command W)
      → (ℕ → Option ℕ)
      → ℕ
      → Option ℕ
      → Command W
      → CmdFrame
      → List ℕ
      → W
      → Option (ℤ × List ℕ × W)
  unfolding text_do_help call_if reply_of
  run_text_cmd cmds next fuel head c cmd reply w = do
    help ← same_string (codes "help") (drop cmd_name_at cmd.arrays)
    (ret, w') ←
        (if help
          then (text_do_help cmds next fuel head cmd.fd w >>= λ r. some (pos 0, r.1))
          else call_if c.do_text_cmd (drop (cmd_data_at 0) cmd.arrays) cmd.cmd_len w)
    if is_nonzero ret then some (ret, reply, w') else reply_of c reply w'

  unfoldable pub do_text_cmd_from :
      (ℕ → Command W)
      → (ℕ → Option ℕ)
      → ℕ
      → Option ℕ
      → ℕ
      → Option ℕ
      → CmdFrame
      → List ℕ
      → W
      → Option (ℤ × List ℕ × W)
  do_text_cmd_from cmds next all head zero cur cmd reply w = none
  do_text_cmd_from cmds next all head (suc fuel) none cmd reply w = some (negsuc 0, reply, w)
  do_text_cmd_from cmds next all head (suc fuel) (some p) cmd reply w =
      same_string (cmds p).name (drop cmd_name_at cmd.arrays) >>= λ same.
      let rest = do_text_cmd_from cmds next all head fuel (next p) cmd reply w in
      if same then run_text_cmd cmds next all head (cmds p) cmd reply w else rest

  -- The loop starts at the head, and the help lists from there too.
  unfoldable pub do_text_cmd :
      (ℕ → Command W)
      → (ℕ → Option ℕ)
      → ℕ
      → Option ℕ
      → CmdFrame
      → List ℕ
      → W
      → Option (ℤ × List ℕ × W)
  do_text_cmd cmds next fuel head = do_text_cmd_from cmds next fuel head fuel head
