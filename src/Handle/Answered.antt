-- ===== src/Handle/Answered.antt =====
-- From a binary request in the receive buffer to its reply.
use instruction_parser.Prelude.{
  ℕ, suc, ◌+◌, ◌%◌, ◌≤◌, ◌<◌, ◌≡◌, ◌≢◌, sym, ap, ◌∙◌, ℤ, pos, true, false, Option, some, ◌>>=◌,
  List, [], ◌∷◌, ◌++◌, append-nil, length, length-drop, take, drop, set, ◌==◌, arith,
}
use instruction_parser.Crc.{IsBytes}
use instruction_parser.Strings.{fetch}
use instruction_parser.Strings.Laws.{fetch_in}
use instruction_parser.Protocol.Words.{word_at}
use instruction_parser.Frame.{CmdFrame, cmd_name}
use instruction_parser.Registry.{Links}
use instruction_parser.Registry.Chains.{Chain}
use instruction_parser.Queue.Static.{CmdQueue, push_cmd_queue}
use instruction_parser.Queue.Refine.{Represents, push_room, pushed-Represents, popped-Represents}
use instruction_parser.Protocol.Names.{get_cmd_name, ht_cmd_list}
use instruction_parser.Protocol.Check.{sl_check_data}
use instruction_parser.Protocol.Arrays.{Filled}
use instruction_parser.Protocol.Ht.Decode.{ht_encode}
use instruction_parser.Commands.{Command, call_if, reply_of, run_cmd}
use instruction_parser.Commands.Dispatch.{find_cmd, NamesFree, do_cmd_list-eq}
use instruction_parser.Handle.{response, do_response, get_binary_cmd, get_cmd_step}
use instruction_parser.Handle.Response.{response-accepted, response-numbers}
use instruction_parser.Handle.Thread.{get_cmd_step-oldest}
use instruction_parser.Handle.Receive.{handle}
use instruction_parser.Handle.Receive.Route.{IsReady, handle-ht_encode}

module _ {W : Type 0} (op_write : ℕ → List ℕ → W → Option (ℤ × W)) (cmds : ℕ → Command W)
    (links : Links) (fuel : ℕ) where
  -- A binary frame whose command is found, succeeds and has a reply.
  get_binary_cmd-replies :
      (cmd : CmdFrame) (xs s reply reply' buf : List ℕ) (p k : ℕ) (ret : ℤ) (w w1 w2 w3 : W)
      → Chain links.next links.head xs
      → length xs < fuel
      → NamesFree cmds xs
      → cmd_name cmd ≡ some s
      → find_cmd cmds s xs ≡ some p
      → call_if (cmds p).do_cmd (drop 16 cmd.arrays) cmd.cmd_len w ≡ some (pos 0, w1)
      → reply_of (cmds p) reply w1 ≡ some (pos (suc k), reply', w2)
      → response cmd reply' (suc k) ≡ some buf
      → op_write cmd.fd buf w2 ≡ some (ret, w3)
      → get_binary_cmd op_write cmds links fuel true cmd reply w ≡ some (reply', w3)
  unfolding get_binary_cmd run_cmd do_response
  get_binary_cmd-replies cmd xs s reply reply' buf p k ret w w1 w2 w3 c h f e found runs answers
        built sent =
      rw (do_cmd_list-eq cmds links.next fuel links.head xs cmd s reply w c h f e)
        (rw (found) (rw (runs, ◌>>=◌, answers, ◌>>=◌, built, ◌>>=◌, sent, ◌>>=◌)))

  -- A decoded binary frame, pushed to an empty queue, and the round that answers it.
  pub pushed_frame-answered :
      (cmd : CmdFrame) (known : Option (List ℕ)) (fd f c : ℕ) (old payload : List ℕ) (q : CmdQueue)
      (xs name reply reply' : List ℕ) (p k : ℕ) (w w1 w2 : W) (ret : List ℕ → ℤ) (sent : List ℕ → W)
      → Represents q []
      → f < 65536
      → c < 65536
      → c ≢ 0
      → length payload ≤ 245
      → cmd.fd ≡ fd
      → cmd.frame_id ≡ f
      → cmd.cmd_id ≡ c
      → cmd.cmd_len ≡ length payload
      → Filled known old payload cmd.arrays
      → known ≡ some name
      → Chain links.next links.head xs
      → length xs < fuel
      → NamesFree cmds xs
      → find_cmd cmds name xs ≡ some p
      → ((mem : List ℕ)
          → fetch mem 0 (length payload) ≡ some payload
          → call_if (cmds p).do_cmd mem (length payload) w ≡ some (pos 0, w1))
      → reply_of (cmds p) reply w1 ≡ some (pos (suc k), reply', w2)
      → suc k ≤ length reply'
      → suc k < 65000
      → IsBytes reply'
      → ((buf : List ℕ) → op_write fd buf w2 ≡ some (ret buf, sent buf))
      → (q1 q2 : CmdQueue) × (buf : List ℕ) × ((push_cmd_queue q cmd).1 ≡ q1)
        × (get_cmd_step op_write cmds links fuel true
              (record { queue = q1; reply = reply; world = w })
            ≡ some (record { queue = q2; reply = reply'; world = sent buf }))
        × Represents q2 []
        × (sl_check_data buf ≡ some (pos 0))
        × (word_at buf 4 ≡ some f)
        × (word_at buf 6 ≡ some c)
        × (fetch buf 11 (suc k) ≡ some (take (suc k) reply'))
  unfolding push_cmd_queue
  pushed_frame-answered cmd known fd f c old payload q xs name reply reply' p k w w1 w2 ret sent
        empty hf hc nonzero small fd_is frame_id_is cmd_id_is cmd_len_is filled named chain enough
        free found runs answers fits short reply_bytes writes =
      let (buf, built, ok) = response-accepted cmd reply' [] (suc k) fits short reply_bytes tt in
      let (r4, r6, r11) = response-numbers cmd reply' buf (suc k) fits short built in
      let word4 : cmd.frame_id % 65536 ≡ f = omega arith in
      let word6 : cmd.cmd_id % 65536 ≡ c = omega arith in
      let q1 : CmdQueue = record q {
        slots = set q.slots ((q.tail + 1) % 100) cmd;
        tail = (q.tail + 1) % 100;
      } in
      let q2 : CmdQueue = record q1 { front = (q.front + 1) % 100 } in
      let v1 : Represents q1 (cmd ∷ []) = pushed-Represents q [] cmd empty (omega arith) in
      let body : fetch (drop 16 cmd.arrays) 0 (length payload) ≡ some payload =
        fetch_in (drop 16 cmd.arrays) 0 (length payload)
          (omega (arith, filled.complete, length-drop 16 cmd.arrays))
        ∙ sym (fetch_in cmd.arrays 16 (length payload) (omega (arith, filled.complete)))
        ∙ filled.body_there in
      let ran = runs (drop 16 cmd.arrays) body in
      let replied =
        get_binary_cmd-replies cmd xs name reply reply' buf p k (ret buf) w w1 w2 (sent buf) chain
          enough free (unfold cmd_name in filled.name_there name named) found
          (ap (λ l. call_if (cmds p).do_cmd (drop 16 cmd.arrays) l w) cmd_len_is ∙ ran) answers
          built (ap (λ i. op_write i buf w2) fd_is ∙ writes buf) in
      let binary : cmd.cmd_id == 0 ≡ false = ap (λ i. i == 0) cmd_id_is ∙ other c nonzero in
      (
        q1,
        q2,
        buf,
        ap (λ t. t.1) (push_room q [] cmd empty (omega arith)),
        get_cmd_step-oldest op_write cmds links fuel true
              (record { queue = q1; reply = reply; world = w }) cmd [] v1
            ∙ rw (binary, replied, ◌>>=◌),
        popped-Represents q1 cmd [] v1,
        ap sl_check_data (sym (append-nil buf)) ∙ ok,
        r4 ∙ ap some word4,
        r6 ∙ ap some word6,
        r11,
      )
    where
      other : (i : ℕ) → i ≢ 0 → i == 0 ≡ false
      other i h = ground arith

  -- With the protocols and the commands registered and the queue empty, an HT request of at most 245
  -- bytes of payload is answered by one call of `handle` and one round of `get_cmd`, if the number has
  -- a name, the first command of that name succeeds whatever stands behind its payload, its reply is
  -- not empty and fits the reply buffer, and `malloc` and `op_write` succeed. What is written to the
  -- client is a frame that `sl_check_data` accepts, with the numbers of the request and the bytes of
  -- the command's reply, and the queue is empty again.
  pub ht_request-answered :
      (protocols : Links) (tmp_str : List ℕ) (fd n frame_id cmd_id : ℕ) (payload rest : List ℕ)
      (stack : CmdFrame) (q : CmdQueue) (xs name reply reply' : List ℕ) (p k : ℕ) (w w1 w2 : W)
      (ret : List ℕ → ℤ) (sent : List ℕ → W)
      → IsReady protocols
      → Represents q []
      → frame_id < 65536
      → cmd_id < 65536
      → cmd_id ≢ 0
      → length payload ≤ 245
      → IsBytes payload
      → IsBytes rest
      → length stack.arrays ≡ 1360
      → get_cmd_name ht_cmd_list cmd_id ≡ some name
      → Chain links.next links.head xs
      → length xs < fuel
      → NamesFree cmds xs
      → find_cmd cmds name xs ≡ some p
      → ((mem : List ℕ)
          → fetch mem 0 (length payload) ≡ some payload
          → call_if (cmds p).do_cmd mem (length payload) w ≡ some (pos 0, w1))
      → reply_of (cmds p) reply w1 ≡ some (pos (suc k), reply', w2)
      → suc k ≤ length reply'
      → suc k < 65000
      → IsBytes reply'
      → ((buf : List ℕ) → op_write fd buf w2 ≡ some (ret buf, sent buf))
      → (q1 q2 : CmdQueue) × (buf : List ℕ) × (handle 4 protocols tmp_str stack fd
            (pos (suc n))
            (ht_encode frame_id cmd_id payload ++ rest)
            q
          ≡ some q1)
        × (get_cmd_step op_write cmds links fuel true
              (record { queue = q1; reply = reply; world = w })
            ≡ some (record { queue = q2; reply = reply'; world = sent buf }))
        × Represents q2 []
        × (sl_check_data buf ≡ some (pos 0))
        × (word_at buf 4 ≡ some frame_id)
        × (word_at buf 6 ≡ some cmd_id)
        × (fetch buf 11 (suc k) ≡ some (take (suc k) reply'))
  ht_request-answered protocols tmp_str fd n f c payload rest stack q xs name reply reply' p k w w1
        w2 ret sent ready empty hf hc nonzero small bytes rest_bytes full named chain enough free
        found runs answers fits short reply_bytes writes =
      let (cmd, handled, d) =
        handle-ht_encode protocols tmp_str fd n f c payload rest stack q ready hf hc small bytes
          rest_bytes full in
      let (q1, q2, buf, pushed, stepped, left, ok, r4, r6, r11) =
        pushed_frame-answered cmd (get_cmd_name ht_cmd_list c) fd f c stack.arrays payload q xs name
          reply reply' p k w w1 w2 ret sent empty hf hc nonzero (omega arith) d.fd_is d.frame_id_is
          d.cmd_id_is d.cmd_len_is d.arrays_are named chain enough free found runs answers fits
          short reply_bytes writes in
      (q1, q2, buf, handled ∙ ap some pushed, stepped, left, ok, r4, r6, r11)
