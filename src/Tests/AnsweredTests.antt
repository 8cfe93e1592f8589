-- ===== src/Tests/AnsweredTests.antt =====
-- SL frames and text lines, from the receive buffer to the answer.
use instruction_parser.Prelude.{
  ℕ, ◌+◌, ◌%◌, ◌<◌, ◌≡◌, refl, pos, true, some, List, [], ◌∷◌, ◌++◌, take, length, replicate, drop,
  arith, ◌==◌, if◌then◌else◌,
}
use instruction_parser.Strings.{codes, fetch, c_string}
use instruction_parser.Frame.{cmd_data_at}
use instruction_parser.Queue.Static.{CmdQueue}
use instruction_parser.Queue.Refine.{Represents}
use instruction_parser.Protocol.Words.{word_at}
use instruction_parser.Protocol.Names.{get_cmd_name, sl_cmd_list}
use instruction_parser.Protocol.Check.{sl_check_data}
use instruction_parser.Protocol.Sl.Decode.{sl_encode}
use instruction_parser.Protocol.Text.Decode.{spaced}
use instruction_parser.Commands.{Command, call_if, reply_of}
use instruction_parser.Commands.Dispatch.{find_cmd, same_bytes}
use instruction_parser.Handle.{get_cmd_step, decimal, decimal_from}
use instruction_parser.Handle.Receive.{handle}
use instruction_parser.Handle.SlAnswered.{sl_request-answered}
use instruction_parser.Handle.TextAnswered.{done_line, text_request-answered}
use instruction_parser.Tests.ProtocolTests.{stale}
use instruction_parser.Tests.RegistryTests.{two_links, write_all}
use instruction_parser.Tests.RouteTests.{ready, empty_queue}
use instruction_parser.Tests.TextTests.{id, id_number, id-IsWord, name_IsWord, arg_IsWord}
use instruction_parser.Tests.AnswerTests.{
  answering, empty_queue-Represents, get_ip_found, get_ip_runs, get_ip_replies, id_passes,
}

sl_get_ip_id : get_cmd_name sl_cmd_list 0x109 ≡ some (codes "get_ip")
unfolding get_cmd_name sl_cmd_list
sl_get_ip_id = refl

sl_request-answered_example :
    (q1 q2 : CmdQueue) × (buf : List ℕ) × (handle 4 ready
        (replicate 128 1)
        stale
        7
        (pos 19)
        (sl_encode 1 0x109 0 70000 (codes "eth0") ++ [])
        empty_queue
      ≡ some q1)
    × (get_cmd_step write_all answering two_links 3 true
          (record { queue = q1; reply = replicate 512 0; world = 5 })
        ≡ some (record { queue = q2; reply = 1 ∷ 2 ∷ 3 ∷ []; world = 9 }))
    × Represents q2 []
    × (sl_check_data buf ≡ some (pos 0))
    × (word_at buf 4 ≡ some 1)
    × (word_at buf 6 ≡ some 0x109)
    × (fetch buf 11 2 ≡ some (take 2 (1 ∷ 2 ∷ 3 ∷ [])))
sl_request-answered_example =
    sl_request-answered write_all answering two_links 3 ready (replicate 128 1) 7 18 1 0x109 0 70000
      (codes "eth0") [] stale empty_queue (0 ∷ 1 ∷ []) (codes "get_ip") (replicate 512 0)
      (1 ∷ 2 ∷ 3 ∷ []) 1 1 5 9 9 (λ buf. pos 1) (λ buf. 9) (refl, (refl, (refl, refl)))
      empty_queue-Represents (omega arith) (omega arith) (omega arith) (omega arith) (omega arith)
      (omega arith) (omega arith) tt refl sl_get_ip_id (refl, (refl, refl)) (omega arith)
      (omega arith, (omega arith, tt)) get_ip_found (λ mem e. get_ip_runs mem) get_ip_replies
      (omega arith) (omega arith) (omega arith) (λ buf. refl)

-- The command of node 1 counts its arguments and leaves the name of an interface in the buffer.
abbrev telling : ℕ → Command ℕ
telling n = if n == 0 then answering 0 else record (answering 1) {
  do_text_cmd = some (λ mem len w. some (pos 0, w + len));
  get_reply = some (λ reply w. some (pos 4, codes "eth0" ++ 0 ∷ [], w));
}

telling_found : find_cmd telling (codes "get_ip") (0 ∷ 1 ∷ []) ≡ some 1
unfolding find_cmd same_bytes
telling_found = refl

telling_runs : (mem : List ℕ) → call_if (telling 1).do_text_cmd mem 3 5 ≡ some (pos 0, 8)
unfolding call_if
telling_runs mem = refl

telling_replies : reply_of (telling 1) (replicate 512 0) 8 ≡ some (pos 4, codes "eth0" ++ 0 ∷ [], 8)
unfolding reply_of
telling_replies = refl

eth0_told : c_string (codes "eth0" ++ 0 ∷ []) ≡ some (codes "eth0")
unfolding c_string
eth0_told = refl

decimal_twelve : decimal 12 ≡ codes "12"
unfolding decimal decimal_from
decimal_twelve = refl

answer_fits : length (done_line (12 % 65536) (codes "get_ip") (codes "eth0")) < 512
answer_fits = rw decimal_twelve (omega arith)

text_request-answered_example :
    (q1 q2 : CmdQueue) × (handle 4 ready
        (replicate 128 1)
        (record stale { cmd_id = 0 })
        7
        (pos 16)
        ((id ++ spaced (codes "get_ip" ∷ codes "eth0" ∷ [])) ++ 0 ∷ [])
        empty_queue
      ≡ some q1)
    × (get_cmd_step write_all telling two_links 3 true
          (record { queue = q1; reply = replicate 512 0; world = 5 })
        ≡ some (record { queue = q2; reply = codes "eth0" ++ 0 ∷ []; world = 8 }))
    × Represents q2 []
text_request-answered_example =
    text_request-answered write_all telling two_links 3 ready (replicate 128 1) 7 15 12 b'['
      (codes "12]") (codes "get_ip") (codes "eth0" ∷ []) [] (record stale { cmd_id = 0 })
      empty_queue (0 ∷ 1 ∷ []) (codes "eth0") (replicate 512 0) (codes "eth0" ++ 0 ∷ []) 1 4 (pos 1)
      5 8 8 8 true (refl, (refl, (refl, refl))) empty_queue-Represents refl id_passes id_number
      id-IsWord name_IsWord (arg_IsWord, tt) (omega arith) (omega arith) refl refl
      (refl, (refl, refl)) (omega arith) (omega arith, (omega arith, tt)) (λ e. cc) telling_found
      (λ arrays held. telling_runs (drop (cmd_data_at 0) arrays)) telling_replies eth0_told
      answer_fits refl
