-- ===== src/Handle/Pipeline.antt =====
-- Worker threads and the command thread, one call at a time, in any order.
use instruction_parser.Prelude.{
  ℕ, ◌≡◌, refl, sym, ap, ◌∙◌, subst, subst₂, ℤ, pos, Bool, Option, none, some, ◌>>=◌, >>=-eq-some,
  List, [], ◌∷◌, ◌++◌, append-nil, append_assoc, length, ◌==◌, if◌then◌else◌, arith, dec_lt,
}
use instruction_parser.Strings.Laws.{some_injective}
use instruction_parser.Frame.{CmdFrame}
use instruction_parser.Registry.{Links}
use instruction_parser.Queue.Static.{CmdQueue, push_cmd_queue, pop_cmd_queue}
use instruction_parser.Queue.Refine.{
  Represents, push_room, push_full, pushed-Represents, pop_empty, pop_some, popped-Represents,
}
use instruction_parser.Commands.{Command}
use instruction_parser.Handle.{CmdThread, get_binary_cmd, get_text_cmd, get_cmd_step}
use instruction_parser.Handle.Receive.{handle}
use instruction_parser.Handle.Thread.{get_cmd_step-oldest}
use instruction_parser.Handle.Progress.{run_frames}
use instruction_parser.Handle.Arrivals.{Pushes}

abbrev pub one_or_none : Option CmdFrame → List CmdFrame
one_or_none none = []
one_or_none (some cmd) = cmd ∷ []

-- The frame that a round takes out.
unfoldable pub taken : CmdQueue → List CmdFrame
taken q = one_or_none (pop_cmd_queue q).1

module _ {W : Type 0} (op_write : ℕ → List ℕ → W → Option (ℤ × W)) (cmds : ℕ → Command W)
    (commands : Links) (fuel : ℕ) (memory : Bool) (protocols : Links) where
  -- Calls of `handle` and rounds of `get_cmd` from a first state, with the frames that have been queued
  -- and those that have been taken out.
  pub data Traced (s0 : CmdThread W) : CmdThread W → List CmdFrame → List CmdFrame → Type 0 where
    start : Traced s0 s0 [] []
    receive :
        {s : CmdThread W} {queued done : List CmdFrame} {q : CmdQueue} (tmp_str line : List ℕ)
        (stack : CmdFrame) (fd : ℕ) (n : ℤ) (cmd : Option CmdFrame)
        → Traced s0 s queued done
        → handle 4 protocols tmp_str stack fd n line s.queue ≡ some q
        → Pushes s.queue q cmd
        → Traced s0 (record s { queue = q }) (queued ++ one_or_none cmd) done
    round :
        {s t : CmdThread W} {queued done : List CmdFrame}
        → Traced s0 s queued done
        → get_cmd_step op_write cmds commands fuel memory s ≡ some t
        → Traced s0 t queued (done ++ taken s.queue)

  run_frames-append :
      (xs ys : List CmdFrame) (reply : List ℕ) (w : W) (mid end : List ℕ × W)
      → run_frames op_write cmds commands fuel memory xs reply w ≡ some mid
      → run_frames op_write cmds commands fuel memory ys mid.0 mid.1 ≡ some end
      → run_frames op_write cmds commands fuel memory (xs ++ ys) reply w ≡ some end
  unfolding run_frames
  run_frames-append [] ys reply w mid end e h =
      let same : (reply, w) ≡ mid = some_injective e in
      ap (λ (p : List ℕ × W). run_frames op_write cmds commands fuel memory ys p.0 p.1) same ∙ h
  run_frames-append (x ∷ xs) ys reply w mid end e h =
      let (r, ran, e') =
        >>=-eq-some
          (if x.cmd_id == 0
            then get_text_cmd op_write cmds commands fuel x reply w
            else get_binary_cmd op_write cmds commands fuel memory x reply w)
          _ e in
      rw (ran, ◌>>=◌) (run_frames-append xs ys r.0 r.1 mid end e' h)

  -- A round on an empty queue does nothing, and one on a queue with a frame runs it.
  round_empty :
      (s t : CmdThread W)
      → Represents s.queue []
      → get_cmd_step op_write cmds commands fuel memory s ≡ some t
      → (t ≡ s) × (taken s.queue ≡ [])
  unfolding get_cmd_step taken pop_cmd_queue
  round_empty s t v e =
      let popped = pop_empty s.queue v in
      let e' = rw popped at e in (sym (some_injective e'), rw popped)

  round_some :
      (s t : CmdThread W) (cmd : CmdFrame) (ys : List CmdFrame)
      → Represents s.queue (cmd ∷ ys)
      → get_cmd_step op_write cmds commands fuel memory s ≡ some t
      → (taken s.queue ≡ cmd ∷ [])
        × Represents t.queue ys
        × (run_frames op_write cmds commands fuel memory (cmd ∷ []) s.reply s.world
            ≡ some (t.reply, t.world))
  unfolding taken pop_cmd_queue run_frames
  round_some s t cmd ys v e =
      let popped = pop_some s.queue cmd ys v in
      let (r, ran, e') =
        >>=-eq-some
          (if cmd.cmd_id == 0
            then get_text_cmd op_write cmds commands fuel cmd s.reply s.world
            else get_binary_cmd op_write cmds commands fuel memory cmd s.reply s.world)
          _ (sym (get_cmd_step-oldest op_write cmds commands fuel memory s cmd ys v) ∙ e) in
      let same = some_injective e' in
      (
        rw popped,
        subst (λ (x : CmdThread W). Represents x.queue ys) same
            (popped-Represents s.queue cmd ys v),
        rw (ran, ◌>>=◌) (ap (λ (x : CmdThread W). some (x.reply, x.world)) same),
      )

  pushed_room :
      (q q' : CmdQueue) (ys : List CmdFrame) (cmd : CmdFrame)
      → Represents q ys
      → push_cmd_queue q cmd ≡ (pos 0, q')
      → Represents q' (ys ++ cmd ∷ [])
  unfolding push_cmd_queue
  pushed_room q q' ys cmd v e = elim (dec_lt (length ys) 99) [
    | yes h ↦
        let same = ap (λ r. r.1) (sym (push_room q ys cmd v h) ∙ e) in
        subst (λ x. Represents x (ys ++ cmd ∷ [])) same (pushed-Represents q ys cmd v h)
    | no h ↦ let full = push_full q ys cmd v (omega (arith, v.short)) in cc
  ]

  -- What is kept along the way.
  abbrev InStep : CmdThread W → CmdThread W → List CmdFrame → List CmdFrame → Type 0
  InStep s0 s queued done =
      (ys : List CmdFrame) × (queued ≡ done ++ ys)
      × Represents s.queue ys
      × (run_frames op_write cmds commands fuel memory done s0.reply s0.world
          ≡ some (s.reply, s.world))

  InStep-round :
      (s0 s t : CmdThread W) (queued done ys : List CmdFrame)
      → queued ≡ done ++ ys
      → Represents s.queue ys
      → run_frames op_write cmds commands fuel memory done s0.reply s0.world
        ≡ some (s.reply, s.world)
      → get_cmd_step op_write cmds commands fuel memory s ≡ some t
      → InStep s0 t queued (done ++ taken s.queue)
  InStep-round s0 s t queued done [] split v ran e =
      let (same, nothing) = round_empty s t v e in
      let kept : done ++ taken s.queue ≡ done = ap (λ xs. done ++ xs) nothing ∙ append-nil done in
      subst₂ (λ x xs. InStep s0 x queued xs) (sym same) (sym kept) ([], split, v, ran)
  InStep-round s0 s t queued done (cmd ∷ ys) split v ran e =
      let (one, v', ran') = round_some s t cmd ys v e in
      subst (λ xs. InStep s0 t queued (done ++ xs)) (sym one)
        (
          ys,
          split ∙ sym (append_assoc done (cmd ∷ []) ys),
          v',
          run_frames-append done (cmd ∷ []) s0.reply s0.world (s.reply, s.world) (t.reply, t.world)
              ran ran',
        )

  -- From an empty queue, in whatever order calls of `handle` that return, each with at most one push
  -- that has room, and rounds of `get_cmd` that return follow each other: the frames that have been
  -- taken out are the first of those that were queued, in their order, the others wait in the queue,
  -- and the state of the commands and the reply buffer are those of running the frames taken out one
  -- after another.
  pub Traced-run_frames :
      (s0 s : CmdThread W) (queued done : List CmdFrame)
      → Represents s0.queue []
      → Traced s0 s queued done
      → (ys : List CmdFrame) × (queued ≡ done ++ ys)
        × Represents s.queue ys
        × (run_frames op_write cmds commands fuel memory done s0.reply s0.world
            ≡ some (s.reply, s.world))
  Traced-run_frames s0 s [] [] v start = ([], refl, v, unfold run_frames in refl)
  Traced-run_frames s0 s queued done v (receive tmp_str line stack fd n none tr e p) =
      let (ys, split, kept, ran) = Traced-run_frames s0 _ _ done v tr in
      (ys, append-nil _ ∙ split, subst (λ x. Represents x ys) (sym p) kept, ran)
  Traced-run_frames s0 s queued done v (receive tmp_str line stack fd n (some cmd) tr e p) =
      let (ys, split, kept, ran) = Traced-run_frames s0 _ _ done v tr in
      (
        ys ++ cmd ∷ [],
        ap (λ xs. xs ++ cmd ∷ []) split ∙ append_assoc done ys (cmd ∷ []),
        pushed_room _ s.queue ys cmd kept p,
        ran,
      )
  Traced-run_frames s0 s queued done v (round tr e) =
      let (ys, split, kept, ran) = Traced-run_frames s0 _ _ _ v tr in
      InStep-round s0 _ s queued _ ys split kept ran e
