-- ===== src/Frame.antt =====
-- include/handle.h: `st_cmd_frame`, a decoded command. Its three arrays are adjacent at the end of
-- the structure, with no padding: `cmd_name[16]`, `data[1024]` and `cmd_data[5][64]`. They are one
-- piece of memory here, since the code can run from one into the next.
use instruction_parser.Prelude.{ℕ, ◌+◌, ◌*◌, List, drop, Option}
use instruction_parser.Strings.{c_string}

pub record CmdFrame : Type 0 where
  pub fd : ℕ
  pub len : ℕ
  pub frame_id : ℕ
  pub cmd_id : ℕ
  pub cmd_len : ℕ
  pub device_id : ℕ
  pub arrays : List ℕ

-- Where the arrays begin, and where the structure ends.
abbrev pub cmd_name_at : ℕ
cmd_name_at = 0

abbrev pub data_at : ℕ
data_at = 16

abbrev pub cmd_data_at : ℕ → ℕ
cmd_data_at i = 1040 + i * 64

abbrev pub arrays_size : ℕ
arrays_size = 1360

-- `cmd->cmd_name` and `cmd->cmd_data[i]`, read as strings.
unfoldable pub cmd_name : CmdFrame → Option (List ℕ)
cmd_name cmd = c_string (drop cmd_name_at cmd.arrays)

unfoldable pub cmd_arg : CmdFrame → ℕ → Option (List ℕ)
cmd_arg cmd i = c_string (drop (cmd_data_at i) cmd.arrays)
