-- ===== src/Tests/TextRequestTests.antt =====
-- A text line to the whole program.
use instruction_parser.Prelude.{
  ℕ, ◌≡◌, refl, pos, true, some, List, [], ◌∷◌, ◌++◌, replicate, arith,
}
use instruction_parser.Strings.{codes}
use instruction_parser.Queue.Static.{CmdQueue}
use instruction_parser.Queue.Refine.{Represents}
use instruction_parser.Protocol.Text.Decode.{spaced}
use instruction_parser.Handle.{get_cmd_step}
use instruction_parser.Handle.Receive.{handle}
use instruction_parser.Functions.Table.{Statics, command_at, net_part, with_net}
use instruction_parser.Functions.Network.TextAnswers.{found_text}
use instruction_parser.Start.TextRequests.{text_get_ip-answered}
use instruction_parser.Tests.ProtocolTests.{stale}
use instruction_parser.Tests.RouteTests.{ready, empty_queue}
use instruction_parser.Tests.TextTests.{id, id_number, id-IsWord, arg_IsWord}
use instruction_parser.Tests.AnswerTests.{empty_queue-Represents, id_passes}
use instruction_parser.Tests.StartTests.{nine, board, statics, counted, write}

abbrev told : Statics ℕ
told = counted (with_net statics (found_text (codes "eth0") 192 168 1 9 (net_part statics) 1))

text_get_ip-answered_example :
    (q1 q2 : CmdQueue) × (reply' : List ℕ) × (handle 4 ready
        (replicate 128 1)
        (record stale { cmd_id = 0 })
        7
        (pos 16)
        ((id ++ spaced (codes "get_ip" ∷ codes "eth0" ∷ [])) ++ 0 ∷ [])
        empty_queue
      ≡ some q1)
    × (get_cmd_step write
          (command_at board)
          nine
          10
          true
          (record { queue = q1; reply = replicate 512 0; world = statics })
        ≡ some (record { queue = q2; reply = reply'; world = told }))
    × Represents q2 []
text_get_ip-answered_example =
    text_get_ip-answered board write ready nine (replicate 128 1) 7 15 12 b'[' (codes "12]")
      (codes "eth0") [] (record stale { cmd_id = 0 }) empty_queue (replicate 512 0) statics told 1
      192 168 1 9 (pos 1) true refl (refl, (refl, (refl, refl)))
      (refl, (refl, (refl, (refl, (refl, (refl, (refl, (refl, (refl, refl)))))))))
      empty_queue-Represents refl id_passes id_number id-IsWord arg_IsWord (omega arith)
      (omega arith) refl refl refl refl (omega arith) (omega arith) (omega arith) (omega arith) refl
      refl
