-- ===== src/Handle/Receive/Route.antt =====
-- Which protocol a received buffer goes to, and what is queued for it.
use instruction_parser.Prelude.{
  ℕ, suc, ◌≤◌, ◌<◌, ◌≡◌, pos, negsuc, none, some, ◌>>=◌, List, [], ◌∷◌, ◌++◌, length, arith, inl,
}
use instruction_parser.Crc.{IsBytes}
use instruction_parser.Frame.{CmdFrame}
use instruction_parser.Registry.{Links}
use instruction_parser.Registry.Chains.{Chain, before, register-Chain}
use instruction_parser.Registry.Lookup.{first_fit, find_node-eq-first_fit}
use instruction_parser.Queue.Static.{CmdQueue, push_cmd_queue}
use instruction_parser.Protocol.Check.{ht_check_data, sl_check_data}
use instruction_parser.Protocol.Check.Accepts.{wrong_head}
use instruction_parser.Protocol.Seal.{seal}
use instruction_parser.Protocol.Ht.{ht_frame_of, ht_parse}
use instruction_parser.Protocol.Ht.Decode as Ht
use instruction_parser.Protocol.Ht.Decode.{ht_encode, ht_encode-Decoded}
use instruction_parser.Protocol.Sl.{sl_frame_of, sl_parse}
use instruction_parser.Protocol.Sl.Decode as Sl
use instruction_parser.Protocol.Sl.Decode.{sl_encode, sl_encode-Decoded}
use instruction_parser.Handle.Receive.{
  check_data, parse, accepts, do_protocol_handle, register_protocols, handle,
}

-- The three protocols are registered, in the order of `main`.
abbrev pub IsReady : Links → Type 0
IsReady l = Chain l.next l.head (0 ∷ 1 ∷ 2 ∷ [])

-- From an empty list the three registrations leave the three protocols, HT first and text last.
pub register_protocols-IsReady :
    (l : Links) → l.head ≡ none → (l' : Links) × (register_protocols l ≡ some l') × IsReady l'
unfolding register_protocols before
register_protocols-IsReady l e =
    let (l1, e1, c1) = register-Chain 3 l [] 0 e tt (omega arith) in
    let (l2, e2, c2) = register-Chain 3 l1 (0 ∷ []) 1 c1 (omega arith) (omega arith) in
    let (l3, e3, c3) = register-Chain 3 l2 (0 ∷ 1 ∷ []) 2 c2 (omega arith) (omega arith) in
    (l3, rw (e1, ◌>>=◌) (rw (e2, ◌>>=◌) (rw (e3, ◌>>=◌))), c3)

-- A buffer that HT accepts is parsed as HT.
handle_ht :
    (links : Links) (tmp_str buf : List ℕ) (stack cmd : CmdFrame) (fd n : ℕ) (q : CmdQueue)
    → IsReady links
    → ht_check_data buf ≡ some (pos 0)
    → ht_frame_of fd buf stack ≡ some cmd
    → handle 4 links tmp_str stack fd (pos (suc n)) buf q ≡ some (push_cmd_queue q cmd).1
unfolding handle do_protocol_handle accepts check_data parse ht_parse first_fit
handle_ht links tmp_str buf stack cmd fd n q ready ok got =
    rw
      (find_node-eq-first_fit (accepts tmp_str buf) links.next 4 links.head (0 ∷ 1 ∷ 2 ∷ []) ready
        (omega arith))
      (rw (ok, ◌>>=◌) (rw (got, ◌>>=◌)))

handle_sl :
    (links : Links) (tmp_str buf : List ℕ) (stack cmd : CmdFrame) (fd n : ℕ) (q : CmdQueue)
    → IsReady links
    → ht_check_data buf ≡ some (negsuc 0)
    → sl_check_data buf ≡ some (pos 0)
    → sl_frame_of fd buf stack ≡ some cmd
    → handle 4 links tmp_str stack fd (pos (suc n)) buf q ≡ some (push_cmd_queue q cmd).1
unfolding handle do_protocol_handle accepts check_data parse sl_parse first_fit
handle_sl links tmp_str buf stack cmd fd n q ready refused ok got =
    rw
      (find_node-eq-first_fit (accepts tmp_str buf) links.next 4 links.head (0 ∷ 1 ∷ 2 ∷ []) ready
        (omega arith))
      (rw (refused, ◌>>=◌) (rw (ok, ◌>>=◌) (rw (got, ◌>>=◌))))

-- With the three protocols registered, an HT frame with a payload of at most 245 bytes in the receive
-- buffer, with any bytes behind it, leads to one push: the pushed frame holds the sender's numbers
-- and payload. (A full queue drops it.)
pub handle-ht_encode :
    (links : Links) (tmp_str : List ℕ) (fd n frame_id cmd_id : ℕ) (payload rest : List ℕ)
    (stack : CmdFrame) (q : CmdQueue)
    → IsReady links
    → frame_id < 65536
    → cmd_id < 65536
    → length payload ≤ 245
    → IsBytes payload
    → IsBytes rest
    → length stack.arrays ≡ 1360
    → (cmd : CmdFrame) × (handle 4 links tmp_str stack fd
          (pos (suc n))
          (ht_encode frame_id cmd_id payload ++ rest)
          q
        ≡ some (push_cmd_queue q cmd).1)
      × Ht.Decoded fd frame_id cmd_id payload stack cmd
handle-ht_encode links tmp_str fd n f c payload rest stack q ready hf hc small bytes rest_bytes
      full =
    let (ok, cmd, got, decoded) =
      ht_encode-Decoded fd f c payload rest stack hf hc small bytes rest_bytes full in
    (
      cmd,
      handle_ht links tmp_str (ht_encode f c payload ++ rest) stack cmd fd n q ready ok got,
      decoded,
    )

ht_refuses_sl :
    (f c dir d : ℕ) (payload rest : List ℕ)
    → ht_check_data (sl_encode f c dir d payload ++ rest) ≡ some (negsuc 0)
unfolding ht_check_data sl_encode seal
ht_refuses_sl f c dir d payload rest = wrong_head 0x48 0x54 0x22 0x53 _ _ _ (inl (omega arith))

-- With the three protocols registered, an SL frame with a payload of at most 240 bytes in the receive
-- buffer, with any bytes behind it, leads to one push: the pushed frame holds the sender's numbers,
-- that of the device included, and the payload. (A full queue drops it.)
pub handle-sl_encode :
    (links : Links) (tmp_str : List ℕ) (fd n frame_id cmd_id direction device : ℕ)
    (payload rest : List ℕ) (stack : CmdFrame) (q : CmdQueue)
    → IsReady links
    → frame_id < 65536
    → cmd_id < 65536
    → direction < 256
    → device < 4294967296
    → length payload ≤ 240
    → IsBytes payload
    → IsBytes rest
    → length stack.arrays ≡ 1360
    → (cmd : CmdFrame) × (handle 4 links tmp_str stack fd
          (pos (suc n))
          (sl_encode frame_id cmd_id direction device payload ++ rest)
          q
        ≡ some (push_cmd_queue q cmd).1)
      × Sl.Decoded fd frame_id cmd_id device payload stack.arrays cmd
handle-sl_encode links tmp_str fd n f c dir d payload rest stack q ready hf hc hdir hd small bytes
      rest_bytes full =
    let (ok, cmd, got, decoded) =
      sl_encode-Decoded fd f c dir d payload rest stack hf hc hdir hd small bytes rest_bytes full in
    (
      cmd,
      handle_sl links tmp_str (sl_encode f c dir d payload ++ rest) stack cmd fd n q ready
          (ht_refuses_sl f c dir d payload rest) ok got,
      decoded,
    )
