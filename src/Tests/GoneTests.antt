-- ===== src/Tests/GoneTests.antt =====
-- A client that breaks off before its reply.
use instruction_parser.Prelude.{
  ℕ, ◌+◌, ◌≡◌, refl, pos, negsuc, true, false, some, none, List, [], ◌∷◌, ◌++◌, replicate, arith,
  ◌==◌, if◌then◌else◌,
}
use instruction_parser.Strings.{codes}
use instruction_parser.Queue.Static.{CmdQueue}
use instruction_parser.Queue.Refine.{Represents}
use instruction_parser.Protocol.Ht.Decode.{ht_encode}
use instruction_parser.Commands.{Command, call_if, reply_of}
use instruction_parser.Commands.Dispatch.{find_cmd, same_bytes}
use instruction_parser.Clients.{CliList}
use instruction_parser.Clients.Live.{Live}
use instruction_parser.Handle.{get_cmd_step}
use instruction_parser.Handle.Receive.{handle}
use instruction_parser.Start.Gone.{World, Sockets, world_write, gone_client-leaves}
use instruction_parser.Tests.ProtocolTests.{stale}
use instruction_parser.Tests.RegistryTests.{two_links}
use instruction_parser.Tests.RouteTests.{ready, empty_queue}
use instruction_parser.Tests.DeviceTests.{client, two_clients, two_clients-Live}
use instruction_parser.Tests.AnswerTests.{empty_queue-Represents, get_ip_id}

-- Each command replies with two bytes; the second one is `get_ip`.
abbrev replying : ℕ → Command (World ℕ ℕ)
replying n = record {
  name = if n == 0 then codes "help" else codes "get_ip";
  usage = [];
  help_info = [];
  cmd_id = n;
  do_cmd = some (λ mem len w. some (pos 0, record w { shared = w.shared + len }));
  do_text_cmd = none;
  get_reply = some (λ reply w. some (pos 2, 1 ∷ 2 ∷ 3 ∷ [], w));
}

-- Every write fails, and is counted.
abbrev broken : Sockets ℕ
broken = record { write = λ fd buf k. (negsuc 0, false, k + 1) }

abbrev before : World ℕ ℕ
before = record { shared = 5; clients = two_clients; kernel = 0 }

abbrev ran : World ℕ ℕ
ran = record before { shared = 9 }

replying_found : find_cmd replying (codes "get_ip") (0 ∷ 1 ∷ []) ≡ some 1
unfolding find_cmd same_bytes
replying_found = refl

replying_runs : (mem : List ℕ) → call_if (replying 1).do_cmd mem 4 before ≡ some (pos 0, ran)
unfolding call_if
replying_runs mem = refl

replying_replies : reply_of (replying 1) (replicate 512 0) ran ≡ some (pos 2, 1 ∷ 2 ∷ 3 ∷ [], ran)
unfolding reply_of
replying_replies = refl

gone_client-leaves_example :
    (q1 q2 : CmdQueue) × (buf : List ℕ) × (l : CliList) × (handle 4 ready
        (replicate 128 1)
        stale
        5
        (pos 14)
        (ht_encode 1 0x109 (codes "eth0") ++ [])
        empty_queue
      ≡ some q1)
    × (get_cmd_step
          (world_write broken)
          replying
          two_links
          3
          true
          (record { queue = q1; reply = replicate 512 0; world = before })
        ≡ some (record {
          queue = q2;
          reply = 1 ∷ 2 ∷ 3 ∷ [];
          world = record ran { clients = l; kernel = 1 };
        }))
    × Represents q2 []
    × Live l ([] ++ client 6 ∷ [])
gone_client-leaves_example =
    gone_client-leaves broken replying two_links 3 ready (replicate 128 1) 13 1 0x109 (codes "eth0")
      [] stale empty_queue (0 ∷ 1 ∷ []) (codes "get_ip") (replicate 512 0) (1 ∷ 2 ∷ 3 ∷ []) 1 1 0
      before ran ran [] (client 6 ∷ []) (client 5) (λ buf. 1) (refl, (refl, (refl, refl)))
      empty_queue-Represents (omega arith) (omega arith) (omega arith) (omega arith) (omega arith)
      tt refl get_ip_id (refl, (refl, refl)) (omega arith) (omega arith, (omega arith, tt))
      replying_found (λ mem e. replying_runs mem) replying_replies (omega arith) (omega arith)
      (omega arith) two_clients-Live tt (omega arith, tt) (λ buf. refl)
