-- ===== src/Handle.antt =====
-- handle/handle.c: what a worker thread does with a readable connection, what the command thread does
-- with a queued frame, and the replies. `op_write` on the shared state `W` is a parameter, as in
-- `Commands`.
pub mod Decimal
pub mod Response
pub mod Thread
pub mod Receive
pub mod Progress
pub mod Answered
pub mod SlAnswered
pub mod TextAnswered
pub mod Stale
pub mod Arrivals
pub mod Pipeline
use instruction_parser.Prelude.{
  ℕ, zero, suc, ◌+◌, ◌-◌, ◌*◌, ◌/◌, ◌%◌, ◌^◌, ℤ, pos, negsuc, is_neg, is_pos, is_nonzero, not, Bool,
  true, false, Option, none, some, ◌>>=◌, List, [], ◌∷◌, ◌++◌, length, ltb, ◌==◌, if◌then◌else◌,
}
use instruction_parser.Crc.{uhf_crc16_ccitt_tab}
use instruction_parser.Strings.{c_string, fetch, codes}
use instruction_parser.Frame.{CmdFrame, cmd_name}
use instruction_parser.Registry.{Links}
use instruction_parser.Queue.Static.{CmdQueue, pop_cmd_queue}
use instruction_parser.Commands.{Command, do_cmd_list, do_text_cmd}

-- `(x & 0xff00) >> 8` and `x & 0x00ff`
abbrev pub high_byte : ℕ → ℕ
high_byte x = x / 2 ^ 8 % 2 ^ 8

abbrev pub low_byte : ℕ → ℕ
low_byte x = x % 2 ^ 8

-- The buffer of `do_response`, of which every byte is written: nothing of the `malloc` is left.
unfoldable pub response : CmdFrame → List ℕ → ℕ → Option (List ℕ)
response cmd reply len = do
  let n = 13 + len - 2
  copied ← fetch reply 0 len
  let body =
      0x22
      ∷ 0x53
      ∷ high_byte n
      ∷ low_byte n
      ∷ high_byte cmd.frame_id
      ∷ low_byte cmd.frame_id
      ∷ high_byte cmd.cmd_id
      ∷ low_byte cmd.cmd_id
      ∷ 0xff
      ∷ high_byte cmd.device_id
      ∷ low_byte cmd.device_id
      ∷ copied
  crc ← uhf_crc16_ccitt_tab body (11 + len)
  some (body ++ high_byte crc ∷ low_byte crc ∷ [])

-- `%d` of a number that is not negative; the fuel is the number itself.
unfoldable pub decimal_from : ℕ → ℕ → List ℕ
decimal_from zero n = (b'0' + n % 10) ∷ []
decimal_from (suc fuel) n =
    let rest = decimal_from fuel (n / 10) in
    if ltb n 10 then (b'0' + n) ∷ [] else rest ++ (b'0' + n % 10) ∷ []

unfoldable pub decimal : ℕ → List ℕ
decimal n = decimal_from n n

unfoldable pub decimal_ℤ : ℤ → List ℕ
unfolding decimal
decimal_ℤ (pos n) = decimal n
decimal_ℤ (negsuc n) = b'-' ∷ decimal (suc n)

-- `if (ret < -1) return ret; return 0;`
abbrev pub write_code : ℤ → ℤ
write_code (negsuc (suc n)) = negsuc (suc n)
write_code _ = pos 0

-- `sprintf(respone, "[%d] %s %s  ...done.\n", ...)` into 512 bytes.
unfoldable pub text_response : CmdFrame → List ℕ → Option (List ℕ)
text_response cmd reply = do
  name ← cmd_name cmd
  answer ← c_string reply
  let line =
      b'['
      ∷ (decimal cmd.frame_id
          ++ (codes "] " ++ (name ++ (codes " " ++ (answer ++ (codes "  ...done." ++ 10 ∷ []))))))
  if ltb (length line) 512 then some line else none

module _ {W : Type 0} (op_write : ℕ → List ℕ → W → Option (ℤ × W)) where
  -- `memory` is whether `malloc` succeeds.
  unfoldable pub do_response : Bool → CmdFrame → List ℕ → ℕ → W → Option (ℤ × W)
  do_response false cmd reply len w = some (negsuc 0, w)
  do_response true cmd reply len w = do
    buf ← response cmd reply len
    (ret, w') ← op_write cmd.fd buf w
    some (write_code ret, w')

  unfoldable pub do_text_response : CmdFrame → List ℕ → W → Option (ℤ × W)
  do_text_response cmd reply w = do
    line ← text_response cmd reply
    (ret, w') ← op_write cmd.fd line w
    some (write_code ret, w')

  -- `sprintf(respone, "[%d] ERROR [%d]\n", ...)`: two numbers of at most 11 characters in 128 bytes.
  unfoldable pub do_text_response_error : CmdFrame → ℤ → W → Option (ℤ × W)
  do_text_response_error cmd code w = do
    let line =
        b'['
        ∷ (decimal cmd.frame_id
            ++ (codes "] ERROR [" ++ (decimal_ℤ code ++ (codes "]" ++ 10 ∷ []))))
    (ret, w') ← op_write cmd.fd line w
    some (write_code ret, w')

-- What the command thread has between two rounds of its loop: the queue, and the local variables
-- `cmd` and `reply`, which keep their contents from round to round.
pub record CmdThread (W : Type 0) : Type 0 where
  pub queue : CmdQueue
  pub reply : List ℕ
  pub world : W

module _ {W : Type 0} (op_write : ℕ → List ℕ → W → Option (ℤ × W)) (cmds : ℕ → Command W)
    (links : Links) (fuel : ℕ) where
  -- A frame of a binary protocol: a result below 0 is printed, one above 0 is the reply's length.
  unfoldable pub get_binary_cmd : Bool → CmdFrame → List ℕ → W → Option (List ℕ × W)
  get_binary_cmd memory cmd reply w = do
    (ret, reply', w') ← do_cmd_list cmds links.next fuel links.head cmd reply w
    elim ret [
      | pos (suc n) ↦ do_response op_write memory cmd reply' (suc n) w' >>= λ r. some (reply', r.1)
      | _ ↦ some (reply', w')
    ]

  -- A frame of the text protocol.
  unfoldable pub get_text_cmd : CmdFrame → List ℕ → W → Option (List ℕ × W)
  get_text_cmd cmd reply w = do
    (ret, reply', w') ← do_text_cmd op_write cmds links.next fuel links.head cmd reply w
    r ←
        (if is_neg ret
          then do_text_response_error op_write cmd ret w'
          else do_text_response op_write cmd reply' w')
    some (reply', r.1)

  -- One round of `get_cmd`. `memory` is whether the `malloc` of a reply succeeds.
  unfoldable pub get_cmd_step : Bool → CmdThread W → Option (CmdThread W)
  get_cmd_step memory st =
      let (ret, out, q) = pop_cmd_queue st.queue in
      if is_nonzero ret
      then some (record st { queue = q })
      else (out >>= λ cmd.
          (if cmd.cmd_id == 0
            then get_text_cmd cmd st.reply st.world
            else get_binary_cmd memory cmd st.reply st.world)
          >>= λ r. some (record { queue = q; reply = r.0; world = r.1 }))
