-- ===== src/Tests/PipelineTests.antt =====
-- One request through both threads.
use instruction_parser.Prelude.{
  ℕ, ◌≡◌, refl, pos, true, Option, some, List, [], ◌∷◌, ◌++◌, take, replicate, arith,
}
use instruction_parser.Strings.{codes, fetch}
use instruction_parser.Frame.{CmdFrame}
use instruction_parser.Queue.Static.{CmdQueue}
use instruction_parser.Queue.Refine.{Represents}
use instruction_parser.Protocol.Words.{word_at}
use instruction_parser.Protocol.Check.{sl_check_data}
use instruction_parser.Protocol.Ht.Decode.{ht_encode}
use instruction_parser.Handle.{CmdThread, get_cmd_step}
use instruction_parser.Handle.Receive.{handle}
use instruction_parser.Handle.Progress.{run_frames}
use instruction_parser.Handle.Answered.{ht_request-answered}
use instruction_parser.Handle.Arrivals.{Pushes, handle-Pushes}
use instruction_parser.Handle.Pipeline.{
  one_or_none, taken, Traced, start, receive, round, Traced-run_frames,
}
use instruction_parser.Tests.ProtocolTests.{stale}
use instruction_parser.Tests.RegistryTests.{two_links, write_all}
use instruction_parser.Tests.RouteTests.{ready, empty_queue}
use instruction_parser.Tests.AnswerTests.{
  answering, empty_queue-Represents, get_ip_id, get_ip_found, get_ip_runs, get_ip_replies,
}

abbrev request : List ℕ
request = ht_encode 1 0x109 (codes "eth0") ++ []

abbrev first : CmdThread ℕ
first = record { queue = empty_queue; reply = replicate 512 0; world = 5 }

-- The call of `handle` and the round of `get_cmd` that answer it.
exchange :
    (q1 q2 : CmdQueue) × (buf : List ℕ) × (handle 4 ready
        (replicate 128 1)
        stale
        7
        (pos 14)
        request
        empty_queue
      ≡ some q1)
    × (get_cmd_step write_all answering two_links 3 true (record first { queue = q1 })
        ≡ some (record { queue = q2; reply = 1 ∷ 2 ∷ 3 ∷ []; world = 9 }))
    × Represents q2 []
    × (sl_check_data buf ≡ some (pos 0))
    × (word_at buf 4 ≡ some 1)
    × (word_at buf 6 ≡ some 0x109)
    × (fetch buf 11 2 ≡ some (take 2 (1 ∷ 2 ∷ 3 ∷ [])))
exchange =
    ht_request-answered write_all answering two_links 3 ready (replicate 128 1) 7 13 1 0x109
      (codes "eth0") [] stale empty_queue (0 ∷ 1 ∷ []) (codes "get_ip") (replicate 512 0)
      (1 ∷ 2 ∷ 3 ∷ []) 1 1 5 9 9 (λ buf. pos 1) (λ buf. 9) (refl, (refl, (refl, refl)))
      empty_queue-Represents (omega arith) (omega arith) (omega arith) (omega arith) (omega arith)
      tt refl get_ip_id (refl, (refl, refl)) (omega arith) (omega arith, (omega arith, tt))
      get_ip_found (λ mem e. get_ip_runs mem) get_ip_replies (omega arith) (omega arith)
      (omega arith) (λ buf. refl)

arrival : (cmd : Option CmdFrame) × Pushes empty_queue exchange.0 cmd
arrival =
    handle-Pushes ready empty_queue exchange.0 [] (replicate 128 1) request stale 7 (pos 14)
      empty_queue-Represents exchange.3

answered :
    Traced write_all answering two_links 3 true ready first
      (record { queue = exchange.1; reply = 1 ∷ 2 ∷ 3 ∷ []; world = 9 })
      ([] ++ one_or_none arrival.0)
      ([] ++ taken exchange.0)
answered =
    round (receive (replicate 128 1) request stale 7 (pos 14) arrival.0 start exchange.3 arrival.1)
      exchange.4

Traced-run_frames_example :
    (ys : List CmdFrame) × (([] ++ one_or_none arrival.0) ≡ ([] ++ taken exchange.0) ++ ys)
    × Represents exchange.1 ys
    × (run_frames write_all answering two_links 3 true ([] ++ taken exchange.0) (replicate 512 0) 5
        ≡ some (1 ∷ 2 ∷ 3 ∷ [], 9))
Traced-run_frames_example =
    Traced-run_frames write_all answering two_links 3 true ready first
      (record { queue = exchange.1; reply = 1 ∷ 2 ∷ 3 ∷ []; world = 9 })
      ([] ++ one_or_none arrival.0) ([] ++ taken exchange.0) empty_queue-Represents answered
