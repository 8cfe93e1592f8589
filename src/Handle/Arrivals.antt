-- ===== src/Handle/Arrivals.antt =====
-- How a call of `handle` changes the queue.
use instruction_parser.Prelude.{
  ℕ, zero, suc, ◌≡◌, sym, ap, ◌∙◌, ℤ, pos, negsuc, Option, none, some, >>=-eq-some, List, length,
  arith, dec_lt,
}
use instruction_parser.Strings.Laws.{some_injective}
use instruction_parser.Frame.{CmdFrame}
use instruction_parser.Registry.{Links}
use instruction_parser.Queue.Static.{CmdQueue, push_cmd_queue}
use instruction_parser.Queue.Refine.{Represents, push_room, push_full}
use instruction_parser.Protocol.Ht.{ht_parse, ht_frame_of}
use instruction_parser.Protocol.Sl.{sl_parse, sl_frame_of}
use instruction_parser.Protocol.Text.{text_parse, text_frame_of}
use instruction_parser.Handle.Receive.{handle, parse, do_protocol_handle}

-- How a call of `handle` may change the queue: not at all, or by one push that has room.
abbrev pub Pushes : CmdQueue → CmdQueue → Option CmdFrame → Type 0
Pushes q q' none = q' ≡ q
Pushes q q' (some cmd) = push_cmd_queue q cmd ≡ (pos 0, q')

-- A push on a queue either has room, or leaves it as it is.
push-Pushes :
    (q q' : CmdQueue) (ys : List CmdFrame) (cmd : CmdFrame)
    → Represents q ys
    → (push_cmd_queue q cmd).1 ≡ q'
    → (pushed : Option CmdFrame) × Pushes q q' pushed
unfolding push_cmd_queue
push-Pushes q q' ys cmd v e = elim (dec_lt (length ys) 99) [
  | yes h ↦
      let room = push_room q ys cmd v h in
      (some cmd, room ∙ ap (λ x. (pos 0, x)) (sym (ap (λ r. r.1) room) ∙ e))
  | no h ↦
      let full = push_full q ys cmd v (omega (arith, v.short)) in (none, sym e ∙ ap (λ r. r.1) full)
]

parse-Pushes :
    (k fd : ℕ) (line : List ℕ) (stack : CmdFrame) (q q' : CmdQueue) (ys : List CmdFrame)
    → Represents q ys
    → parse k fd line stack q ≡ some q'
    → (pushed : Option CmdFrame) × Pushes q q' pushed
unfolding parse ht_parse sl_parse text_parse
parse-Pushes zero fd line stack q q' ys v e =
    let (cmd, built, h) = >>=-eq-some (ht_frame_of fd line stack) _ e in
    push-Pushes q q' ys cmd v (some_injective h)
parse-Pushes (suc zero) fd line stack q q' ys v e =
    let (cmd, built, h) = >>=-eq-some (sl_frame_of fd line stack) _ e in
    push-Pushes q q' ys cmd v (some_injective h)
parse-Pushes (suc (suc k)) fd line stack q q' ys v e =
    let (cmd, built, h) = >>=-eq-some (text_frame_of fd line stack) _ e in
    push-Pushes q q' ys cmd v (some_injective h)

-- So each call of `handle` that returns changes the queue in one of the two ways.
pub handle-Pushes :
    (protocols : Links) (q q' : CmdQueue) (ys : List CmdFrame) (tmp_str line : List ℕ)
    (stack : CmdFrame) (fd : ℕ) (n : ℤ)
    → Represents q ys
    → handle 4 protocols tmp_str stack fd n line q ≡ some q'
    → (pushed : Option CmdFrame) × Pushes q q' pushed
unfolding handle
handle-Pushes protocols q q' ys tmp_str line stack fd (negsuc n) v e =
    (none, some_injective (sym e))
handle-Pushes protocols q q' ys tmp_str line stack fd (pos zero) v e =
    (none, some_injective (sym e))
handle-Pushes protocols q q' ys tmp_str line stack fd (pos (suc n)) v e =
    let (p, found, h) = >>=-eq-some (do_protocol_handle 4 protocols tmp_str line) _ e in parsed p h
  where
    parsed :
        (p : Option ℕ)
        → (elim p [ none ↦ some q | some k ↦ parse k fd line stack q ]) ≡ some q'
        → (pushed : Option CmdFrame) × Pushes q q' pushed
    parsed none h = (none, some_injective (sym h))
    parsed (some k) h = parse-Pushes k fd line stack q q' ys v h
