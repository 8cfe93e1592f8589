-- ===== src/Handle/Receive.antt =====
-- protocol/protocol.c and `handle`: a received buffer goes to the first registered protocol that
-- accepts it. The three structures `g_tHTProtocol`, `g_tSLProtocol` and `g_tTEXTProtocol` are the
-- nodes 0, 1 and 2.
pub mod Route
pub mod TextRoute
use instruction_parser.Prelude.{
  ℕ, zero, suc, ℤ, pos, negsuc, is_nonzero, not, Bool, Option, none, some, ◌>>=◌, List, [], ◌∷◌,
}
use instruction_parser.Frame.{CmdFrame}
use instruction_parser.Registry.{Links, register}
use instruction_parser.Registry.Lookup.{find_node}
use instruction_parser.Queue.Static.{CmdQueue}
use instruction_parser.Protocol.Check.{ht_check_data, sl_check_data}
use instruction_parser.Protocol.Ht.{ht_parse}
use instruction_parser.Protocol.Sl.{sl_parse}
use instruction_parser.Protocol.Text.{text_check_data, text_parse}

abbrev pub ht_protocol : ℕ
ht_protocol = 0

abbrev pub sl_protocol : ℕ
sl_protocol = 1

abbrev pub text_protocol : ℕ
text_protocol = 2

-- `ptTmp->check_data(pucBufHead)`. `tmp_str` is what the stack holds for `text_check_data`.
unfoldable pub check_data : List ℕ → ℕ → List ℕ → Option ℤ
check_data tmp_str zero = ht_check_data
check_data tmp_str (suc zero) = sl_check_data
check_data tmp_str (suc (suc n)) = text_check_data tmp_str

-- `protocol->parse(clisockfd, line)`. `cmd` is what the stack holds for the parser's frame.
unfoldable pub parse : ℕ → ℕ → List ℕ → CmdFrame → CmdQueue → Option CmdQueue
parse zero = ht_parse
parse (suc zero) = sl_parse
parse (suc (suc n)) = text_parse

-- `check_data` returns 0
unfoldable pub accepts : List ℕ → List ℕ → ℕ → Option Bool
accepts tmp_str buf p = check_data tmp_str p buf >>= λ ret. some (not (is_nonzero ret))

unfoldable pub do_protocol_handle : ℕ → Links → List ℕ → List ℕ → Option (Option ℕ)
do_protocol_handle fuel links tmp_str buf =
    find_node (accepts tmp_str buf) links.next fuel links.head

-- The three registrations of `main`, in their order, each with fuel for the nodes there are.
unfoldable pub register_protocols : Links → Option Links
register_protocols l = do
  (ret, l1) ← register 3 l ht_protocol
  (ret', l2) ← register 3 l1 sl_protocol
  (ret'', l3) ← register 3 l2 text_protocol
  some l3

-- `handle`, once `op_read` has returned `n` and filled `line`. The result is the queue.
unfoldable pub handle : ℕ → Links → List ℕ → CmdFrame → ℕ → ℤ → List ℕ → CmdQueue → Option CmdQueue
handle fuel links tmp_str cmd fd (pos (suc n)) line q = do
  found ← do_protocol_handle fuel links tmp_str line
  elim found [ none ↦ some q | some p ↦ parse p fd line cmd q ]
handle fuel links tmp_str cmd fd _ line q = some q
