-- ===== src/Tests/HandleTests.antt =====
-- The replies and the command thread.
use instruction_parser.Prelude.{
  ℕ, ◌<◌, length, ◌+◌, ◌*◌, ◌%◌, ◌≡◌, refl, pos, true, some, none, List, [], ◌∷◌, ◌++◌, drop,
  replicate, arith,
}
use instruction_parser.Strings.{codes, c_string}
use instruction_parser.Frame.{CmdFrame, cmd_data_at}
use instruction_parser.Queue.{CircleQueue}
use instruction_parser.Queue.Refine.{Represents}
use instruction_parser.Protocol.Words.{long_at}
use instruction_parser.Commands.{call_if}
use instruction_parser.Commands.Dispatch.{find_cmd, same_bytes}
use instruction_parser.Handle.TextAnswered.{done_line}
use instruction_parser.Handle.Stale.{stale_answer}
use instruction_parser.Handle.{
  decimal, decimal_from, response, CmdThread, get_text_cmd, get_binary_cmd,
}
use instruction_parser.Handle.Response.{response-device}
use instruction_parser.Handle.Thread.{failed_cmd_overreads}
use instruction_parser.Tests.ProtocolTests.{stale}
use instruction_parser.Tests.RegistryTests.{
  two_links, two_commands, get_ip_frame, get_ip_name, two_NamesFree, write_all,
}

response-device_example :
    (buf : List ℕ) × (response stale (1 ∷ 2 ∷ 3 ∷ []) 3 ≡ some buf)
    × (long_at buf 9 ≡ some (77 % 65536 * 65536 + 1 * 256 + 2))
response-device_example =
    response-device stale 1 2 (3 ∷ []) 1 (omega arith) (omega arith) (omega arith) (omega arith)

-- A queue with one frame.
abbrev one_frame : CircleQueue CmdFrame
one_frame = record { slots = stale ∷ (get_ip_frame ∷ replicate 98 stale); front = 0; tail = 1 }

one_frame-Represents : Represents one_frame (get_ip_frame ∷ [])
one_frame-Represents = record {
  room = refl;
  front_in = omega arith;
  short = omega arith;
  at_tail = refl;
  held = (refl, tt);
}

abbrev thread : CmdThread ℕ
thread = record { queue = one_frame; reply = replicate 512 0; world = 5 }

found_get_ip : find_cmd two_commands (codes "get_ip") (0 ∷ 1 ∷ []) ≡ some 1
unfolding find_cmd same_bytes
found_get_ip = refl

get_ip_fails :
    call_if (two_commands 1).do_cmd (drop 16 get_ip_frame.arrays) get_ip_frame.cmd_len 5
    ≡ some (pos 600, 9)
unfolding call_if
get_ip_fails = refl

failed_cmd_overreads_example :
    get_binary_cmd write_all two_commands two_links 3 true get_ip_frame (replicate 512 0) 5 ≡ none
failed_cmd_overreads_example =
    failed_cmd_overreads write_all two_commands two_links 3 get_ip_frame (0 ∷ 1 ∷ [])
      (codes "get_ip") (replicate 512 0) 5 9 1 599 (refl, (refl, refl)) (omega arith) two_NamesFree
      get_ip_name found_get_ip get_ip_fails (omega arith)

get_ip_text_runs :
    call_if
      (two_commands 1).do_text_cmd
      (drop (cmd_data_at 0) get_ip_frame.arrays)
      get_ip_frame.cmd_len
      5
    ≡ some (pos 0, 9)
unfolding call_if
get_ip_text_runs = refl

eth0_left : c_string (codes "eth0" ++ 0 ∷ []) ≡ some (codes "eth0")
unfolding c_string
eth0_left = refl

decimal_zero : decimal 0 ≡ codes "0"
unfolding decimal decimal_from
decimal_zero = refl

zero_fits : length (done_line 0 (codes "get_ip") (codes "eth0")) < 512
zero_fits = rw decimal_zero (omega arith)

stale_answer_example :
    get_text_cmd write_all two_commands two_links 3 get_ip_frame (codes "eth0" ++ 0 ∷ []) 5
    ≡ some (codes "eth0" ++ 0 ∷ [], 9)
stale_answer_example =
    stale_answer write_all two_commands two_links 3 get_ip_frame (0 ∷ 1 ∷ []) (codes "get_ip")
      (codes "eth0") (codes "eth0" ++ 0 ∷ []) 1 (pos 1) 5 9 9 (refl, (refl, refl)) (omega arith)
      two_NamesFree get_ip_name (λ e. cc) found_get_ip get_ip_text_runs refl eth0_left zero_fits
      refl
