-- ===== src/Tests/BootTests.antt =====
-- Requests that come while the program starts.
use instruction_parser.Prelude.{
  ℕ, ◌≡◌, refl, ◌⊎◌, pos, negsuc, true, some, none, List, [], ◌∷◌, ◌++◌, replicate, arith, ◌==◌,
  if◌then◌else◌,
}
use instruction_parser.Strings.{codes}
use instruction_parser.Frame.{CmdFrame}
use instruction_parser.Registry.{register, last_node, append_node, set_next}
use instruction_parser.Registry.Chains.{Chain}
use instruction_parser.Queue.Static.{push_cmd_queue}
use instruction_parser.Protocol.Ht.Decode.{ht_encode, Decoded}
use instruction_parser.Commands.{do_cmd_list}
use instruction_parser.Handle.Receive.{handle}
use instruction_parser.Handle.Receive.Route.{IsReady, handle-ht_encode}
use instruction_parser.Functions.Table.{Statics, command_at}
use instruction_parser.Start.Early.{Boot, all_protocols, all_commands, Reach, here, next, protocol}
use instruction_parser.Start.Early.Dropped.{Reach-early}
use instruction_parser.Start.Boots.{Reach-boots}
use instruction_parser.Start.Requests.{names_free}
use instruction_parser.Tests.ProtocolTests.{stale}
use instruction_parser.Tests.RegistryTests.{get_ip_frame, get_ip_name}
use instruction_parser.Tests.RouteTests.{ready, empty_queue}
use instruction_parser.Tests.StartTests.{no_links, nine, board, statics, write}

abbrev booting : Boot (Statics ℕ)
booting = record {
  protocols = no_links;
  commands = no_links;
  protocols_left = all_protocols;
  commands_left = all_commands;
  thread = record { queue = empty_queue; reply = replicate 512 0; world = statics };
}

-- Only the first protocol is registered.
abbrev one_protocol : Boot (Statics ℕ)
one_protocol = record booting {
  protocols = record { head = some 0; next = λ n. if n == 0 then none else none };
  protocols_left = 1 ∷ 2 ∷ [];
}

first_registers : register 3 no_links 0 ≡ some (pos 0, one_protocol.protocols)
unfolding register last_node append_node set_next
first_registers = refl

one_Reach : Reach write (command_at board) true booting one_protocol
one_Reach = next here (protocol 0 (1 ∷ 2 ∷ []) (pos 0) one_protocol.protocols refl first_registers)

Reach-boots_example :
    (d : Boot (Statics ℕ)) × Reach write (command_at board) true one_protocol d
    × (d.protocols_left ≡ [])
    × (d.commands_left ≡ [])
    × IsReady d.protocols
    × Chain d.commands.next d.commands.head all_commands
Reach-boots_example =
    Reach-boots write (command_at board) true booting one_protocol refl refl refl refl one_Reach

abbrev request : List ℕ
request = ht_encode 1 0x109 (codes "eth0") ++ []

request_handled :
    (cmd : CmdFrame) × (handle 4 ready
        (replicate 128 1)
        stale
        7
        (pos 14)
        (ht_encode 1 0x109 (codes "eth0") ++ [])
        empty_queue
      ≡ some (push_cmd_queue empty_queue cmd).1)
    × Decoded 7 1 0x109 (codes "eth0") stale cmd
request_handled =
    handle-ht_encode ready (replicate 128 1) 7 13 1 0x109 (codes "eth0") [] stale empty_queue
      (refl, (refl, (refl, refl))) (omega arith) (omega arith) (omega arith) (omega arith) tt refl

Reach-early_example :
    ((handle 4 one_protocol.protocols (replicate 128 1) stale 7 (pos 14) request empty_queue
        ≡ some empty_queue)
      ⊎ (handle 4 one_protocol.protocols (replicate 128 1) stale 7 (pos 14) request empty_queue
          ≡ some (push_cmd_queue empty_queue request_handled.0).1))
    × ((do_cmd_list (command_at board) (λ n. none) 10 none get_ip_frame (replicate 512 0) statics
          ≡ some (negsuc 0, replicate 512 0, statics))
        ⊎ (do_cmd_list (command_at board) (λ n. none) 10 none get_ip_frame (replicate 512 0) statics
            ≡ do_cmd_list
                (command_at board)
                nine.next
                10
                nine.head
                get_ip_frame
                (replicate 512 0)
                statics))
Reach-early_example =
    Reach-early write (command_at board) true booting one_protocol ready nine (replicate 128 1)
      request (codes "get_ip") (replicate 512 0) stale get_ip_frame 7 (pos 14) empty_queue
      (push_cmd_queue empty_queue request_handled.0).1 statics refl refl refl refl one_Reach
      (refl, (refl, (refl, refl)))
      (refl, (refl, (refl, (refl, (refl, (refl, (refl, (refl, (refl, refl)))))))))
      (names_free board) request_handled.1 get_ip_name
