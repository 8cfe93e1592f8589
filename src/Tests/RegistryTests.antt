-- ===== src/Tests/RegistryTests.antt =====
-- The registries, and what is run from them.
use instruction_parser.Prelude.{
  ℕ, ◌+◌, ◌≡◌, refl, ℤ, pos, negsuc, Bool, Option, some, none, List, [], ◌∷◌, ◌++◌, ◌==◌, replicate,
  arith, if◌then◌else◌,
}
use instruction_parser.Strings.{codes, c_string}
use instruction_parser.Frame.{CmdFrame, cmd_name}
use instruction_parser.Registry.{Links, register}
use instruction_parser.Registry.Chains.{Chain, before, register-Chain}
use instruction_parser.Commands.{Command, run_cmd, do_cmd_list}
use instruction_parser.Commands.Dispatch.{find_cmd, NamesFree, do_cmd_list-eq}
use instruction_parser.Tests.ProtocolTests.{stale}

abbrev no_links : Links
no_links = record { head = none; next = λ n. none }

-- Nodes 0 and 1, in this order.
abbrev pub two_next : ℕ → Option ℕ
two_next n = if n == 0 then some 1 else none

abbrev pub two_links : Links
two_links = record { head = some 0; next = two_next }

register-Chain_example :
    (l' : Links) × (register 3 two_links 2 ≡ some (pos 0, l'))
    × Chain l'.next l'.head (before 2 (0 ∷ 1 ∷ []) ++ 2 ∷ [])
register-Chain_example =
    register-Chain 3 two_links (0 ∷ 1 ∷ []) 2 (refl, (refl, refl)) (omega arith) (omega arith)

abbrev is_one : ℕ → Option Bool
is_one n = some (n == 1)

-- A command that adds its argument's length to the state, and one that fails with status 600.
abbrev pub two_commands : ℕ → Command ℕ
two_commands n =
    if n == 0
    then record {
      name = codes "help";
      usage = codes "[id] help";
      help_info = codes "help";
      cmd_id = 1;
      do_cmd = none;
      do_text_cmd = none;
      get_reply = none;
    }
    else record {
      name = codes "get_ip";
      usage = codes "[id] get_ip dev";
      help_info = codes "ip";
      cmd_id = 10;
      do_cmd = some (λ mem len w. some (pos 600, w + len));
      do_text_cmd = some (λ mem len w. some (pos 0, w + len));
      get_reply = none;
    }

abbrev pub get_ip_frame : CmdFrame
get_ip_frame = record stale { arrays = codes "get_ip" ++ replicate 1354 0; cmd_len = 4 }

pub get_ip_name : cmd_name get_ip_frame ≡ some (codes "get_ip")
unfolding cmd_name c_string
get_ip_name = refl

pub two_NamesFree : NamesFree two_commands (0 ∷ 1 ∷ [])
two_NamesFree = (omega arith, (omega arith, tt))

do_cmd_list-eq_example :
    do_cmd_list two_commands two_next 3 (some 0) get_ip_frame (0 ∷ []) 5
    ≡ elim (find_cmd two_commands (codes "get_ip") (0 ∷ 1 ∷ [])) [
      | none ↦ some (negsuc 0, 0 ∷ [], 5)
      | some p ↦ run_cmd (two_commands p) get_ip_frame (0 ∷ []) 5
    ]
do_cmd_list-eq_example =
    do_cmd_list-eq two_commands two_next 3 (some 0) (0 ∷ 1 ∷ []) get_ip_frame (codes "get_ip")
      (0 ∷ []) 5 (refl, (refl, refl)) (omega arith) two_NamesFree get_ip_name

-- A write that takes everything.
abbrev pub write_all : ℕ → List ℕ → ℕ → Option (ℤ × ℕ)
write_all fd bytes w = some (pos 1, w)
