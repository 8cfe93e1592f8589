-- ===== src/Tests/AnswerTests.antt =====
-- From the receive buffer to the reply, and two threads at the queue.
use instruction_parser.Prelude.{
  ℕ, ◌+◌, ◌≡◌, refl, pos, true, some, none, List, [], ◌∷◌, ◌++◌, replicate, arith, ◌==◌,
  if◌then◌else◌,
}
use instruction_parser.Strings.{codes}
use instruction_parser.Frame.{CmdFrame}
use instruction_parser.Queue.{CircleQueue}
use instruction_parser.Queue.Refine.{Represents}
use instruction_parser.Queue.Halves.{advance_tail, write_tail, two_pushes-lose}
use instruction_parser.Protocol.Names.{get_cmd_name, ht_cmd_list}
use instruction_parser.Protocol.Text.{id_matches, id_rest, in_class}
use instruction_parser.Commands.{Command, call_if, reply_of, do_cmd_list, same_string}
use instruction_parser.Commands.Dispatch.{find_cmd, same_bytes}
use instruction_parser.Handle.{get_binary_cmd}
use instruction_parser.Handle.Progress.{run_frames, get_cmd_rounds, get_cmd_rounds-run_frames}
use instruction_parser.Tests.ProtocolTests.{stale}
use instruction_parser.Tests.RegistryTests.{two_links, write_all}
use instruction_parser.Tests.RouteTests.{empty_queue}
use instruction_parser.Tests.TextTests.{id}

-- The command of node 1 adds the length of its data to the state, and replies with two bytes.
abbrev pub answering : ℕ → Command ℕ
answering n =
    if n == 0
    then record {
      name = codes "help";
      usage = [];
      help_info = [];
      cmd_id = 1;
      do_cmd = none;
      do_text_cmd = none;
      get_reply = none;
    }
    else record {
      name = codes "get_ip";
      usage = [];
      help_info = [];
      cmd_id = 10;
      do_cmd = some (λ mem len w. some (pos 0, w + len));
      do_text_cmd = none;
      get_reply = some (λ reply w. some (pos 2, 1 ∷ 2 ∷ 3 ∷ [], w));
    }

pub empty_queue-Represents : Represents empty_queue []
empty_queue-Represents = record {
  room = refl;
  front_in = omega arith;
  short = omega arith;
  at_tail = refl;
  held = tt;
}

pub get_ip_id : get_cmd_name ht_cmd_list 0x109 ≡ some (codes "get_ip")
unfolding get_cmd_name ht_cmd_list
get_ip_id = refl

pub get_ip_found : find_cmd answering (codes "get_ip") (0 ∷ 1 ∷ []) ≡ some 1
unfolding find_cmd same_bytes
get_ip_found = refl

pub get_ip_runs : (mem : List ℕ) → call_if (answering 1).do_cmd mem 4 5 ≡ some (pos 0, 9)
unfolding call_if
get_ip_runs mem = refl

pub get_ip_replies : reply_of (answering 1) (replicate 512 0) 9 ≡ some (pos 2, 1 ∷ 2 ∷ 3 ∷ [], 9)
unfolding reply_of
get_ip_replies = refl

pub id_passes : id_matches id ≡ true
unfolding id_matches id_rest in_class
id_passes = refl

-- A frame of a command that is not registered is dropped.
abbrev unknown : CmdFrame
unknown = record stale { arrays = codes "no" ++ replicate 1358 0 }

abbrev one_unknown : CircleQueue CmdFrame
one_unknown = record { slots = stale ∷ (unknown ∷ replicate 98 stale); front = 0; tail = 1 }

one_unknown-Represents : Represents one_unknown (unknown ∷ [])
one_unknown-Represents = record {
  room = refl;
  front_in = omega arith;
  short = omega arith;
  at_tail = refl;
  held = (refl, tt);
}

unknown_runs :
    run_frames write_all answering two_links 3 true (unknown ∷ []) (0 ∷ []) 5 ≡ some (0 ∷ [], 5)
unfolding run_frames get_binary_cmd do_cmd_list same_string
unknown_runs = refl

get_cmd_rounds-run_frames_example :
    (q : CircleQueue CmdFrame) × (get_cmd_rounds write_all answering two_links 3 true 1
        (record { queue = one_unknown; reply = 0 ∷ []; world = 5 })
      ≡ some (record { queue = q; reply = 0 ∷ []; world = 5 }))
    × Represents q []
get_cmd_rounds-run_frames_example =
    get_cmd_rounds-run_frames write_all answering two_links 3 true (unknown ∷ []) []
      (record { queue = one_unknown; reply = 0 ∷ []; world = 5 }) (0 ∷ []) 5 one_unknown-Represents
      unknown_runs

two_pushes-lose_example :
    Represents
      (write_tail unknown (write_tail unknown (advance_tail (advance_tail empty_queue))))
      ([] ++ stale ∷ unknown ∷ [])
two_pushes-lose_example =
    two_pushes-lose empty_queue [] unknown unknown stale empty_queue-Represents (omega arith) refl
