-- ===== src/Protocol/Ht.antt =====
-- `ht_parse`. The frame is a local variable that nothing initialises: `cmd` is what it holds before.
-- The result is the frame that is queued; `push` of it is the last call, and its code is only
-- printed.
pub mod Decode
pub mod Limits
use instruction_parser.Prelude.{ℕ, ◌+◌, ◌-◌, ◌%◌, ◌^◌, Option, none, some, ◌>>=◌, List}
use instruction_parser.Strings.{fetch, store, strcpy}
use instruction_parser.Frame.{CmdFrame, cmd_name_at, data_at}
use instruction_parser.Queue.Static.{CmdQueue, push_cmd_queue}
use instruction_parser.Protocol.Words.{word_at}
use instruction_parser.Protocol.Names.{get_cmd_name, ht_cmd_list, copy_name}

-- `cmd.len - 8`, as a `u16_t`
unfoldable pub ht_cmd_len : ℕ → ℕ
ht_cmd_len len = (len + 2 ^ 16 - 8) % 2 ^ 16

unfoldable pub ht_frame_of : ℕ → List ℕ → CmdFrame → Option CmdFrame
ht_frame_of fd buf cmd = do
  len ← word_at buf 2
  frame_id ← word_at buf 4
  cmd_id ← word_at buf 6
  named ← copy_name (get_cmd_name ht_cmd_list cmd_id) cmd.arrays
  body ← fetch buf 8 (ht_cmd_len len)
  arrays ← store named data_at body
  some (record cmd {
    fd = fd;
    len = len;
    frame_id = frame_id;
    cmd_id = cmd_id;
    cmd_len = ht_cmd_len len;
    arrays = arrays;
  })

unfoldable pub ht_parse : ℕ → List ℕ → CmdFrame → CmdQueue → Option CmdQueue
ht_parse fd buf cmd q = do cmd' ← ht_frame_of fd buf cmd; some (push_cmd_queue q cmd').1
