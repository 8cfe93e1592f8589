-- ===== src/Handle/TextAnswered.antt =====
-- From a text line in the receive buffer to the line that answers it.
use instruction_parser.Prelude.{
  ℕ, suc, ◌+◌, ◌%◌, ◌≤◌, ◌<◌, ◌≡◌, ◌≢◌, ap, ◌∙◌, ℤ, pos, Bool, true, Option, some, ◌>>=◌, List, [],
  ◌∷◌, ◌++◌, length, length-append, drop, set, ltb, ◌==◌, arith,
}
use instruction_parser.Strings.{codes, c_string}
use instruction_parser.Frame.{CmdFrame, cmd_name, cmd_data_at}
use instruction_parser.Registry.{Links}
use instruction_parser.Registry.Chains.{Chain}
use instruction_parser.Queue.Static.{CmdQueue, push_cmd_queue}
use instruction_parser.Queue.Refine.{Represents, push_room, pushed-Represents, popped-Represents}
use instruction_parser.Protocol.Text.{id_matches, string_to_integer}
use instruction_parser.Protocol.Text.Decode.{IsWord, AllWords, ArgsAt, spaced, count}
use instruction_parser.Commands.{Command, call_if, reply_of, run_text_cmd, do_text_cmd}
use instruction_parser.Commands.Dispatch.{
  find_cmd, NamesFree, same_bytes-ne, same_string_lem, do_text_cmd-eq,
}
use instruction_parser.Handle.{decimal, text_response, do_text_response, get_text_cmd, get_cmd_step}
use instruction_parser.Handle.Thread.{get_cmd_step-oldest}
use instruction_parser.Handle.Receive.{handle}
use instruction_parser.Handle.Receive.Route.{IsReady}
use instruction_parser.Handle.Receive.TextRoute.{handle-text_line}

-- `[id] name answer  ...done.`
abbrev pub done_line : ℕ → List ℕ → List ℕ → List ℕ
done_line id name answer =
    b'['
    ∷ (decimal id
        ++ (codes "] " ++ (name ++ (codes " " ++ (answer ++ (codes "  ...done." ++ 10 ∷ []))))))

pub length-done_line :
    (id : ℕ) (name answer : List ℕ)
    → length (done_line id name answer) ≡ length (decimal id) + length name + length answer + 15
length-done_line id name answer =
    let tail : List ℕ = codes "  ...done." ++ 10 ∷ [] in
    omega (
      arith,
      length-append (decimal id) (codes "] " ++ (name ++ (codes " " ++ (answer ++ tail)))),
      length-append name (codes " " ++ (answer ++ tail)),
      length-append answer tail,
    )

module _ {W : Type 0} (op_write : ℕ → List ℕ → W → Option (ℤ × W)) (cmds : ℕ → Command W)
    (links : Links) (fuel : ℕ) where
  do_text_cmd-answers :
      (cmd : CmdFrame) (xs s reply reply' : List ℕ) (p k : ℕ) (w w1 w2 : W)
      → Chain links.next links.head xs
      → length xs < fuel
      → NamesFree cmds xs
      → cmd_name cmd ≡ some s
      → s ≢ codes "help"
      → find_cmd cmds s xs ≡ some p
      → call_if (cmds p).do_text_cmd (drop (cmd_data_at 0) cmd.arrays) cmd.cmd_len w
        ≡ some (pos 0, w1)
      → reply_of (cmds p) reply w1 ≡ some (pos k, reply', w2)
      → do_text_cmd op_write cmds links.next fuel links.head cmd reply w ≡ some (pos k, reply', w2)
  unfolding do_text_cmd run_text_cmd cmd_name
  do_text_cmd-answers cmd xs s reply reply' p k w w1 w2 c h f e other found runs answers =
      let no_help = same_string_lem (codes "help") (drop 0 cmd.arrays) s (omega arith) e in
      let differs = same_bytes-ne (codes "help") s other in
      do_text_cmd-eq op_write cmds links.next fuel links.head fuel links.head xs cmd s reply w c h f
        e
      ∙ rw (found, no_help, ◌>>=◌, differs, runs, ◌>>=◌, answers)

  -- A text frame whose command, other than `help`, is found, succeeds and replies.
  pub get_text_cmd-answers :
      (cmd : CmdFrame) (xs s answer reply reply' : List ℕ) (p k : ℕ) (ret : ℤ) (w w1 w2 w3 : W)
      → Chain links.next links.head xs
      → length xs < fuel
      → NamesFree cmds xs
      → cmd_name cmd ≡ some s
      → s ≢ codes "help"
      → find_cmd cmds s xs ≡ some p
      → call_if (cmds p).do_text_cmd (drop (cmd_data_at 0) cmd.arrays) cmd.cmd_len w
        ≡ some (pos 0, w1)
      → reply_of (cmds p) reply w1 ≡ some (pos k, reply', w2)
      → c_string reply' ≡ some answer
      → length (done_line cmd.frame_id s answer) < 512
      → op_write cmd.fd (done_line cmd.frame_id s answer) w2 ≡ some (ret, w3)
      → get_text_cmd op_write cmds links fuel cmd reply w ≡ some (reply', w3)
  unfolding get_text_cmd do_text_response text_response
  get_text_cmd-answers cmd xs s answer reply reply' p k ret w w1 w2 w3 c h f e other found runs
        answers left short sent =
      let fits : ltb (length (done_line cmd.frame_id s answer)) 512 ≡ true = ground arith in
      rw (
        do_text_cmd-answers cmd xs s reply reply' p k w w1 w2 c h f e other found runs answers,
        ◌>>=◌,
        e,
        left,
        ◌>>=◌,
        fits,
        ◌>>=◌,
        sent,
      )

  -- With the protocols and the commands registered and the queue empty, and if the parser's frame on
  -- the stack happens to hold command number 0, a line `id name args` of at most 128 bytes is answered
  -- by one call of `handle` and one round of `get_cmd`: the first command of that name, not `help`,
  -- runs on the arguments, and the line `[number] name answer  ...done.` is written to the client. The
  -- number is that of the id, modulo 65536; the command succeeds whatever else the frame's arrays
  -- hold, its reply is a string, the line is shorter than 512 bytes, and `op_write` succeeds. The
  -- queue is empty again.
  pub text_request-answered :
      (protocols : Links) (tmp_str : List ℕ) (fd n number c : ℕ) (t name : List ℕ)
      (args : List (List ℕ)) (rest : List ℕ) (stack : CmdFrame) (q : CmdQueue)
      (xs answer reply reply' : List ℕ) (p k : ℕ) (ret : ℤ) (w w1 w2 w3 : W) (memory : Bool)
      → IsReady protocols
      → Represents q []
      → length tmp_str ≡ 128
      → id_matches (c ∷ t) ≡ true
      → string_to_integer (c ∷ t) ≡ some number
      → IsWord 128 (c ∷ t)
      → IsWord 16 name
      → AllWords args
      → count args ≤ 5
      → length ((c ∷ t) ++ spaced (name ∷ args)) ≤ 128
      → length stack.arrays ≡ 1360
      → stack.cmd_id ≡ 0
      → Chain links.next links.head xs
      → length xs < fuel
      → NamesFree cmds xs
      → name ≢ codes "help"
      → find_cmd cmds name xs ≡ some p
      → ((arrays : List ℕ)
          → ArgsAt arrays 2 args
          → call_if (cmds p).do_text_cmd (drop (cmd_data_at 0) arrays) (2 + count args) w
            ≡ some (pos 0, w1))
      → reply_of (cmds p) reply w1 ≡ some (pos k, reply', w2)
      → c_string reply' ≡ some answer
      → length (done_line (number % 65536) name answer) < 512
      → op_write fd (done_line (number % 65536) name answer) w2 ≡ some (ret, w3)
      → (q1 q2 : CmdQueue) × (handle 4 protocols tmp_str stack fd
            (pos (suc n))
            (((c ∷ t) ++ spaced (name ∷ args)) ++ 0 ∷ rest)
            q
          ≡ some q1)
        × (get_cmd_step op_write cmds links fuel memory
              (record { queue = q1; reply = reply; world = w })
            ≡ some (record { queue = q2; reply = reply'; world = w3 }))
        × Represents q2 []
  unfolding push_cmd_queue
  text_request-answered protocols tmp_str fd n number c t name args rest stack q xs answer reply
        reply' p k ret w w1 w2 w3 memory ready empty size passes parsed wid wname wargs few short
        full zero_id chain enough free other found runs answers left fits sent =
      let (cmd, handled, d) =
        handle-text_line protocols tmp_str fd n number c t name args rest stack q ready size passes
          parsed wid wname wargs few short full in
      let v1 = pushed-Represents q [] cmd empty (omega arith) in
      let q1 : CmdQueue = record q {
        slots = set q.slots ((q.tail + 1) % 100) cmd;
        tail = (q.tail + 1) % 100;
      } in
      let text : cmd.cmd_id == 0 ≡ true = ap (λ i. i == 0) (d.cmd_id_stale ∙ zero_id) in
      let ran =
        ap (λ l. call_if (cmds p).do_text_cmd (drop (cmd_data_at 0) cmd.arrays) l w) d.cmd_len_is
        ∙ runs cmd.arrays d.args_are in
      let written =
        ap (λ i. op_write i (done_line cmd.frame_id name answer) w2) d.fd_is
        ∙ ap (λ i. op_write fd (done_line i name answer) w2) d.frame_id_is
        ∙ sent in
      let fits' : length (done_line cmd.frame_id name answer) < 512 = rw d.frame_id_is fits in
      (
        q1,
        record q1 { front = (q.front + 1) % 100 },
        handled ∙ ap (λ r. some r.1) (push_room q [] cmd empty (omega arith)),
        get_cmd_step-oldest op_write cmds links fuel memory
              (record { queue = q1; reply = reply; world = w }) cmd [] v1
            ∙ rw (
              text,
              get_text_cmd-answers cmd xs name answer reply reply' p k ret w w1 w2 w3 chain enough
                  free d.name_is other found ran answers left fits' written,
              ◌>>=◌,
            ),
        popped-Represents q1 cmd [] v1,
      )
