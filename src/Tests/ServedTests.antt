-- ===== src/Tests/ServedTests.antt =====
-- A client of the event loop gets a reply.
use instruction_parser.Prelude.{
  ℕ, ◌≡◌, refl, pos, true, false, some, none, List, [], ◌∷◌, ◌++◌, take, replicate, arith,
}
use instruction_parser.Strings.{codes, fetch}
use instruction_parser.Queue.Static.{CmdQueue}
use instruction_parser.Queue.Refine.{Represents}
use instruction_parser.Protocol.Words.{word_at}
use instruction_parser.Protocol.Check.{sl_check_data}
use instruction_parser.Protocol.Ht.Decode.{ht_encode}
use instruction_parser.Protocol.Seal.{seal}
use instruction_parser.Handle.{get_cmd_step}
use instruction_parser.Server.{Server, serve_round}
use instruction_parser.Server.Work.{work}
use instruction_parser.Start.Served.{served_request-answered}
use instruction_parser.Tests.ProtocolTests.{stale}
use instruction_parser.Tests.RegistryTests.{two_links, write_all}
use instruction_parser.Tests.RouteTests.{ready, empty_queue}
use instruction_parser.Tests.ServerTests.{started}
use instruction_parser.Tests.AnswerTests.{
  answering, empty_queue-Represents, get_ip_id, get_ip_found, get_ip_runs, get_ip_replies,
}

served_request-answered_example :
    (s : Server) × (q1 q2 : CmdQueue) × (buf : List ℕ) × (serve_round 3
        (λ n. none)
        (record { fd = 7; epollin = true } ∷ [])
        started
      ≡ some (true, s))
    × (work ready
          (replicate 128 1)
          stale
          false
          (pos 16)
          (ht_encode 1 0x109 (codes "eth0") ++ 1 ∷ 2 ∷ [])
          s
          empty_queue
        ≡ some (record s { tasks = [] }, q1))
    × (get_cmd_step write_all answering two_links 3 true
          (record { queue = q1; reply = replicate 512 0; world = 5 })
        ≡ some (record { queue = q2; reply = 1 ∷ 2 ∷ 3 ∷ []; world = 9 }))
    × Represents q2 []
    × (sl_check_data buf ≡ some (pos 0))
    × (word_at buf 4 ≡ some 1)
    × (word_at buf 6 ≡ some 0x109)
    × (fetch buf 11 2 ≡ some (take 2 (1 ∷ 2 ∷ 3 ∷ [])))
unfolding ht_encode seal
served_request-answered_example =
    served_request-answered write_all answering two_links 3 3 7 (λ n. none) false started ready
      (replicate 128 1) 1 0x109 (codes "eth0") (1 ∷ 2 ∷ []) stale empty_queue (0 ∷ 1 ∷ [])
      (codes "get_ip") (replicate 512 0) (1 ∷ 2 ∷ 3 ∷ []) 1 1 5 9 9 (λ buf. pos 1) (λ buf. 9)
      (omega arith) refl (refl, (refl, (refl, refl))) empty_queue-Represents (omega arith)
      (omega arith) (omega arith) (omega arith) (omega arith) (omega arith) refl get_ip_id
      (refl, (refl, refl)) (omega arith) (omega arith, (omega arith, tt)) get_ip_found
      (λ mem e. get_ip_runs mem) get_ip_replies (omega arith) (omega arith) (omega arith)
      (λ buf. refl)
