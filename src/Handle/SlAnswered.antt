-- ===== src/Handle/SlAnswered.antt =====
-- From an SL request in the receive buffer to its reply.
use instruction_parser.Prelude.{
  ℕ, suc, ◌≤◌, ◌<◌, ◌≡◌, ◌≢◌, ap, ◌∙◌, ℤ, pos, true, Option, some, List, [], ◌++◌, length, take,
  arith,
}
use instruction_parser.Crc.{IsBytes}
use instruction_parser.Strings.{fetch}
use instruction_parser.Protocol.Words.{word_at}
use instruction_parser.Frame.{CmdFrame}
use instruction_parser.Registry.{Links}
use instruction_parser.Registry.Chains.{Chain}
use instruction_parser.Queue.Static.{CmdQueue}
use instruction_parser.Queue.Refine.{Represents}
use instruction_parser.Protocol.Names.{get_cmd_name, sl_cmd_list}
use instruction_parser.Protocol.Check.{sl_check_data}
use instruction_parser.Protocol.Sl.Decode.{sl_encode}
use instruction_parser.Commands.{Command, call_if, reply_of}
use instruction_parser.Commands.Dispatch.{find_cmd, NamesFree}
use instruction_parser.Handle.{get_cmd_step}
use instruction_parser.Handle.Receive.{handle}
use instruction_parser.Handle.Receive.Route.{IsReady, handle-sl_encode}
use instruction_parser.Handle.Answered.{pushed_frame-answered}

module _ {W : Type 0} (op_write : ℕ → List ℕ → W → Option (ℤ × W)) (cmds : ℕ → Command W)
    (links : Links) (fuel : ℕ) where
  -- With the protocols and the commands registered and the queue empty, an SL request of at most 240
  -- bytes of payload is answered by one call of `handle` and one round of `get_cmd`, if the number has
  -- a name, the first command of that name succeeds whatever stands behind its payload, its reply is
  -- not empty and fits the reply buffer, and `malloc` and `op_write` succeed. What is written to the
  -- client is a frame that `sl_check_data` accepts, with the numbers of the request and the bytes of
  -- the command's reply, and the queue is empty again.
  pub sl_request-answered :
      (protocols : Links) (tmp_str : List ℕ) (fd n frame_id cmd_id direction device : ℕ)
      (payload rest : List ℕ) (stack : CmdFrame) (q : CmdQueue) (xs name reply reply' : List ℕ)
      (p k : ℕ) (w w1 w2 : W) (ret : List ℕ → ℤ) (sent : List ℕ → W)
      → IsReady protocols
      → Represents q []
      → frame_id < 65536
      → cmd_id < 65536
      → direction < 256
      → device < 4294967296
      → cmd_id ≢ 0
      → length payload ≤ 240
      → IsBytes payload
      → IsBytes rest
      → length stack.arrays ≡ 1360
      → get_cmd_name sl_cmd_list cmd_id ≡ some name
      → Chain links.next links.head xs
      → length xs < fuel
      → NamesFree cmds xs
      → find_cmd cmds name xs ≡ some p
      → ((mem : List ℕ)
          → fetch mem 0 (length payload) ≡ some payload
          → call_if (cmds p).do_cmd mem (length payload) w ≡ some (pos 0, w1))
      → reply_of (cmds p) reply w1 ≡ some (pos (suc k), reply', w2)
      → suc k ≤ length reply'
      → suc k < 65000
      → IsBytes reply'
      → ((buf : List ℕ) → op_write fd buf w2 ≡ some (ret buf, sent buf))
      → (q1 q2 : CmdQueue) × (buf : List ℕ) × (handle 4 protocols tmp_str stack fd
            (pos (suc n))
            (sl_encode frame_id cmd_id direction device payload ++ rest)
            q
          ≡ some q1)
        × (get_cmd_step op_write cmds links fuel true
              (record { queue = q1; reply = reply; world = w })
            ≡ some (record { queue = q2; reply = reply'; world = sent buf }))
        × Represents q2 []
        × (sl_check_data buf ≡ some (pos 0))
        × (word_at buf 4 ≡ some frame_id)
        × (word_at buf 6 ≡ some cmd_id)
        × (fetch buf 11 (suc k) ≡ some (take (suc k) reply'))
  sl_request-answered protocols tmp_str fd n f c dir dev payload rest stack q xs name reply reply' p
        k w w1 w2 ret sent ready empty hf hc hdir hdev nonzero small bytes rest_bytes full named
        chain enough free found runs answers fits short reply_bytes writes =
      let (cmd, handled, d) =
        handle-sl_encode protocols tmp_str fd n f c dir dev payload rest stack q ready hf hc hdir
          hdev small bytes rest_bytes full in
      let (q1, q2, buf, pushed, stepped, left, ok, r4, r6, r11) =
        pushed_frame-answered op_write cmds links fuel cmd (get_cmd_name sl_cmd_list c) fd f c
          stack.arrays payload q xs name reply reply' p k w w1 w2 ret sent empty hf hc nonzero
          (omega arith) d.fd_is d.frame_id_is d.cmd_id_is d.cmd_len_is d.arrays_are named chain
          enough free found runs answers fits short reply_bytes writes in
      (q1, q2, buf, handled ∙ ap some pushed, stepped, left, ok, r4, r6, r11)
