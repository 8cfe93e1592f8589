-- ===== src/Protocol/Sl.antt =====
-- `sl_parse`, in the form of `Ht`. A direction byte at 8 is skipped, and the device's number stands
-- at 9. The `printf` of the name is left out.
pub mod Decode
pub mod Limits
use instruction_parser.Prelude.{ℕ, ◌+◌, ◌-◌, ◌%◌, ◌^◌, Option, none, some, ◌>>=◌, List}
use instruction_parser.Strings.{fetch, store}
use instruction_parser.Frame.{CmdFrame, data_at}
use instruction_parser.Queue.Static.{CmdQueue, push_cmd_queue}
use instruction_parser.Protocol.Words.{word_at, long_at}
use instruction_parser.Protocol.Names.{get_cmd_name, sl_cmd_list, copy_name}

-- `cmd.len - 13`, as a `u16_t`
unfoldable pub sl_cmd_len : ℕ → ℕ
sl_cmd_len len = (len + 2 ^ 16 - 13) % 2 ^ 16

unfoldable pub sl_frame_of : ℕ → List ℕ → CmdFrame → Option CmdFrame
sl_frame_of fd buf cmd = do
  len ← word_at buf 2
  frame_id ← word_at buf 4
  cmd_id ← word_at buf 6
  named ← copy_name (get_cmd_name sl_cmd_list cmd_id) cmd.arrays
  device_id ← long_at buf 9
  body ← fetch buf 13 (sl_cmd_len len)
  arrays ← store named data_at body
  some (record cmd {
    fd = fd;
    len = len;
    frame_id = frame_id;
    cmd_id = cmd_id;
    cmd_len = sl_cmd_len len;
    device_id = device_id;
    arrays = arrays;
  })

unfoldable pub sl_parse : ℕ → List ℕ → CmdFrame → CmdQueue → Option CmdQueue
sl_parse fd buf cmd q = do cmd' ← sl_frame_of fd buf cmd; some (push_cmd_queue q cmd').1
