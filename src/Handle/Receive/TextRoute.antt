-- ===== src/Handle/Receive/TextRoute.antt =====
-- A text line in the receive buffer.
use instruction_parser.Prelude.{
  ℕ, suc, ◌≤◌, ◌≡◌, ◌≢◌, ◌∙◌, pos, negsuc, true, some, ◌>>=◌, List, [], ◌∷◌, ◌++◌, length, arith,
}
use instruction_parser.Frame.{CmdFrame}
use instruction_parser.Strings.Laws.{Free, Free-append}
use instruction_parser.Registry.{Links}
use instruction_parser.Registry.Lookup.{first_fit, find_node-eq-first_fit}
use instruction_parser.Queue.Static.{CmdQueue, push_cmd_queue}
use instruction_parser.Protocol.Check.{check_frame, ht_check_data, sl_check_data}
use instruction_parser.Protocol.Text.{
  in_class, id_matches, string_to_integer, text_check_data, text_parse,
}
use instruction_parser.Protocol.Text.Check.{text_check_word}
use instruction_parser.Protocol.Text.Decode as Text
use instruction_parser.Protocol.Text.Decode.{
  IsWord, AllWords, spaced, count, spaced-Free, text_line-Decoded,
}
use instruction_parser.Handle.Receive.{check_data, parse, accepts, do_protocol_handle, handle}
use instruction_parser.Handle.Receive.Route.{IsReady}

-- The first byte alone can refuse a frame.
check_frame-refuses :
    (h0 h1 c : ℕ) (rest : List ℕ) → c ≢ h0 → check_frame h0 h1 (c ∷ rest) ≡ some (negsuc 0)
unfolding check_frame
check_frame-refuses h0 h1 c rest ne = ground arith

-- An id begins like no binary frame.
id_matches-begins : (c : ℕ) (t : List ℕ) → id_matches (c ∷ t) ≡ true → (c ≢ 0x48) × (c ≢ 0x22)
unfolding id_matches in_class
id_matches-begins c t h = ground arith

-- With the three protocols registered, a line `id name args` in the receive buffer, of at most 128
-- bytes with a number in an id that passes, a name of at most 15 bytes and at most five arguments of
-- at most 63, is refused by both binary checks and leads to one push: the pushed frame holds the
-- number, the name, the arguments and their count. (A full queue drops it.)
pub handle-text_line :
    (links : Links) (tmp_str : List ℕ) (fd n number c : ℕ) (t name : List ℕ) (args : List (List ℕ))
    (rest : List ℕ) (stack : CmdFrame) (q : CmdQueue)
    → IsReady links
    → length tmp_str ≡ 128
    → id_matches (c ∷ t) ≡ true
    → string_to_integer (c ∷ t) ≡ some number
    → IsWord 128 (c ∷ t)
    → IsWord 16 name
    → AllWords args
    → count args ≤ 5
    → length ((c ∷ t) ++ spaced (name ∷ args)) ≤ 128
    → length stack.arrays ≡ 1360
    → (cmd : CmdFrame) × (handle 4 links tmp_str stack fd
          (pos (suc n))
          (((c ∷ t) ++ spaced (name ∷ args)) ++ 0 ∷ rest)
          q
        ≡ some (push_cmd_queue q cmd).1)
      × Text.Decoded fd number name args stack cmd
unfolding handle do_protocol_handle accepts check_data parse text_parse first_fit ht_check_data
    sl_check_data
handle-text_line links tmp_str fd n number c t name args rest stack q ready size passes parsed wid w
      ws few short full =
    let buf : List ℕ = ((c ∷ t) ++ spaced (name ∷ args)) ++ 0 ∷ rest in
    let (cmd, got, decoded) =
      text_line-Decoded fd number (c ∷ t) name args rest stack parsed wid w ws few full in
    let (not_ht, not_sl) = id_matches-begins c t passes in
    let refused =
      check_frame-refuses 0x48 0x54 c ((t ++ spaced (name ∷ args)) ++ 0 ∷ rest) not_ht in
    let refused' =
      check_frame-refuses 0x22 0x53 c ((t ++ spaced (name ∷ args)) ++ 0 ∷ rest) not_sl in
    let free : Free 0 (name ++ spaced args) =
      Free-append 0 name (spaced args) w.no_nul (spaced-Free args ws) in
    let ok : text_check_data tmp_str buf ≡ some (pos 0) =
      text_check_word c t (name ++ spaced args) rest tmp_str wid.no_nul wid.no_space free size short
      ∙ rw passes in
    (
      cmd,
      rw
          (find_node-eq-first_fit (accepts tmp_str buf) links.next 4 links.head (0 ∷ 1 ∷ 2 ∷ [])
            ready (omega arith))
          (rw (refused, ◌>>=◌, refused', ◌>>=◌, ok, ◌>>=◌, got, ◌>>=◌)),
      decoded,
    )
