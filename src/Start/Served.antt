-- ===== src/Start/Served.antt =====
-- From an event of a client's socket to the reply that the client gets.
use instruction_parser.Prelude.{
  ℕ, zero, suc, ◌+◌, ◌≤◌, ◌<◌, ◌≡◌, ◌≢◌, ap, ◌∙◌, ℤ, pos, true, Bool, Option, some, ◌>>=◌, List, [],
  ◌∷◌, ◌++◌, append_assoc, length, length-append, take, drop, replicate, arith,
}
use instruction_parser.Crc.{IsBytes}
use instruction_parser.Strings.{fetch}
use instruction_parser.Frame.{CmdFrame}
use instruction_parser.Registry.{Links}
use instruction_parser.Registry.Chains.{Chain}
use instruction_parser.Queue.Static.{CmdQueue}
use instruction_parser.Queue.Refine.{Represents}
use instruction_parser.Protocol.Words.{word_at}
use instruction_parser.Protocol.Seal.{length-seal, IsBytes-append}
use instruction_parser.Protocol.Names.{get_cmd_name, ht_cmd_list}
use instruction_parser.Protocol.Check.{sl_check_data}
use instruction_parser.Protocol.Ht.Decode.{ht_encode}
use instruction_parser.Commands.{Command, call_if, reply_of}
use instruction_parser.Commands.Dispatch.{find_cmd, NamesFree}
use instruction_parser.Handle.{get_cmd_step}
use instruction_parser.Handle.Receive.Route.{IsReady}
use instruction_parser.Handle.Receive.{handle}
use instruction_parser.Handle.Answered.{ht_request-answered}
use instruction_parser.Clients.{ClientMember}
use instruction_parser.Server.{Server, serve_round}
use instruction_parser.Server.Work.{
  line_of, line_of_lem, work, notified, serve_round-notified, run_task-notified,
}
use instruction_parser.Start.Requests.{IsBytes-drop}

pub length-ht_encode :
    (frame_id cmd_id : ℕ) (payload : List ℕ)
    → length (ht_encode frame_id cmd_id payload) ≡ length payload + 10
unfolding ht_encode
length-ht_encode frame_id cmd_id payload = length-seal _ ∙ omega arith

IsBytes-replicate : (n : ℕ) → IsBytes (replicate n 0)
IsBytes-replicate zero = tt
IsBytes-replicate (suc n) = (omega arith, IsBytes-replicate n)

-- A task with bytes for `handle`.
work-handle :
    (protocols : Links) (tmp_str : List ℕ) (stack : CmdFrame) (again : Bool) (fd n : ℕ)
    (bytes line : List ℕ) (s : Server) (q q' : CmdQueue)
    → line_of bytes ≡ some line
    → handle 4 protocols tmp_str stack fd (pos (suc n)) line q ≡ some q'
    → work protocols tmp_str stack again (pos (suc n)) bytes (notified fd s) q
      ≡ some (record (notified fd s) { tasks = [] }, q')
unfolding work
work-handle protocols tmp_str stack again fd n bytes line s q q' e h =
    let (found, ran) = run_task-notified fd n again s in
    rw (found, ◌>>=◌, e, ◌>>=◌, ran, ◌>>=◌, h, ◌>>=◌)

-- What stands in `line` behind the bytes that were read.
abbrev pub padding : List ℕ → List ℕ
padding bytes = drop (0 + length bytes) (replicate 255 0)

pub padded-IsBytes : (more bytes : List ℕ) → IsBytes more → IsBytes (more ++ padding bytes)
padded-IsBytes more bytes h =
    IsBytes-append more (padding bytes) h
      (IsBytes-drop (0 + length bytes) (replicate 255 0) (IsBytes-replicate 255))

-- A task that reads a frame and what came with it.
pub work-frame :
    (protocols : Links) (tmp_str : List ℕ) (stack : CmdFrame) (again : Bool) (fd n : ℕ)
    (frame more : List ℕ) (s : Server) (q q' : CmdQueue)
    → length (frame ++ more) ≤ 255
    → length (frame ++ more) ≡ suc n
    → handle 4 protocols tmp_str stack fd
        (pos (suc n))
        (frame ++ (more ++ padding (frame ++ more)))
        q
      ≡ some q'
    → work protocols tmp_str stack again
        (pos (length (frame ++ more)))
        (frame ++ more)
        (notified fd s)
        q
      ≡ some (record (notified fd s) { tasks = [] }, q')
work-frame protocols tmp_str stack again fd n frame more s q q' room size h =
    let got : List ℕ = frame ++ more in
    ap (λ i. work protocols tmp_str stack again (pos i) got (notified fd s) q) size
    ∙ work-handle protocols tmp_str stack again fd n got (frame ++ (more ++ padding got)) s q q'
        (line_of_lem got room ∙ ap some (append_assoc frame more (padding got))) h

module _ {W : Type 0} (op_write : ℕ → List ℕ → W → Option (ℤ × W)) (cmds : ℕ → Command W)
    (links : Links) (fuel : ℕ) where
  -- With the protocols and the commands registered, the queue empty and no task waiting, a client whose
  -- socket becomes readable with an HT request is answered by one round of the event loop, one task of
  -- the thread pool and one round of `get_cmd`: the command of that name runs, and a frame that
  -- `sl_check_data` accepts, with the numbers of the request and the bytes of the command's reply, is
  -- written to that client. What one `read` gives besides the request, up to 255 bytes together, is
  -- dropped. The number has a name, the first command of that name succeeds whatever stands behind its
  -- payload, its reply is not empty and fits the reply buffer, and `malloc` and `op_write` succeed.
  pub served_request-answered :
      (listenfd fd : ℕ) (accepted : ℕ → Option ClientMember) (again : Bool) (server : Server)
      (protocols : Links) (tmp_str : List ℕ) (frame_id cmd_id : ℕ) (payload more : List ℕ)
      (stack : CmdFrame) (q : CmdQueue) (xs name reply reply' : List ℕ) (p k : ℕ) (w w1 w2 : W)
      (ret : List ℕ → ℤ) (sent : List ℕ → W)
      → fd ≢ listenfd
      → server.tasks ≡ []
      → IsReady protocols
      → Represents q []
      → frame_id < 65536
      → cmd_id < 65536
      → cmd_id ≢ 0
      → length (ht_encode frame_id cmd_id payload ++ more) ≤ 255
      → IsBytes payload
      → IsBytes more
      → length stack.arrays ≡ 1360
      → get_cmd_name ht_cmd_list cmd_id ≡ some name
      → Chain links.next links.head xs
      → length xs < fuel
      → NamesFree cmds xs
      → find_cmd cmds name xs ≡ some p
      → ((mem : List ℕ)
          → fetch mem 0 (length payload) ≡ some payload
          → call_if (cmds p).do_cmd mem (length payload) w ≡ some (pos 0, w1))
      → reply_of (cmds p) reply w1 ≡ some (pos (suc k), reply', w2)
      → suc k ≤ length reply'
      → suc k < 65000
      → IsBytes reply'
      → ((buf : List ℕ) → op_write fd buf w2 ≡ some (ret buf, sent buf))
      → (s : Server) × (q1 q2 : CmdQueue) × (buf : List ℕ) × (serve_round listenfd accepted
            (record { fd = fd; epollin = true } ∷ [])
            server
          ≡ some (true, s))
        × (work protocols tmp_str stack again
              (pos (length (ht_encode frame_id cmd_id payload ++ more)))
              (ht_encode frame_id cmd_id payload ++ more)
              s
              q
            ≡ some (record s { tasks = [] }, q1))
        × (get_cmd_step op_write cmds links fuel true
              (record { queue = q1; reply = reply; world = w })
            ≡ some (record { queue = q2; reply = reply'; world = sent buf }))
        × Represents q2 []
        × (sl_check_data buf ≡ some (pos 0))
        × (word_at buf 4 ≡ some frame_id)
        × (word_at buf 6 ≡ some cmd_id)
        × (fetch buf 11 (suc k) ≡ some (take (suc k) reply'))
  served_request-answered listenfd fd accepted again server protocols tmp_str f c payload more stack
        q xs name reply reply' p k w w1 w2 ret sent other idle ready empty hf hc nonzero room bytes
        more_bytes full named chain enough free found runs answers fits short reply_bytes writes =
      let got : List ℕ = ht_encode f c payload ++ more in
      let n : ℕ = length payload + 9 + length more in
      let size : length got ≡ suc n =
        length-append (ht_encode f c payload) more ∙ omega (arith, length-ht_encode f c payload) in
      let (q1, q2, buf, handled, stepped, left, ok, r4, r6, r11) =
        ht_request-answered op_write cmds links fuel protocols tmp_str fd n f c payload
          (more ++ padding got) stack q xs name reply reply' p k w w1 w2 ret sent ready empty hf hc
          nonzero (omega arith) bytes (padded-IsBytes more got more_bytes) full named chain enough
          free found runs answers fits short reply_bytes writes in
      (
        notified fd server,
        q1,
        q2,
        buf,
        serve_round-notified listenfd fd accepted server other idle,
        work-frame protocols tmp_str stack again fd n (ht_encode f c payload) more server q q1 room
            size handled,
        stepped,
        left,
        ok,
        r4,
        r6,
        r11,
      )
