-- ===== src/Start/Boots.antt =====
-- `main` can always finish its registrations.
use instruction_parser.Prelude.{
  ℕ, ◌≡◌, refl, sym, ap, ◌∙◌, subst, ℤ, pos, Option, none, List, [], ◌∷◌, ◌++◌, append-nil, Bool,
  arith,
}
use instruction_parser.Registry.Chains.{Chain}
use instruction_parser.Commands.{Command}
use instruction_parser.Handle.Receive.Route.{IsReady}
use instruction_parser.Start.Early.{
  Boot, all_protocols, all_commands, protocol, command, Reach, here, next, AsFar, IsStarting,
  AsFar-register, Step-IsStarting, Reach-IsStarting, starting,
}

module _ {W : Type 0} (op_write : ℕ → List ℕ → W → Option (ℤ × W)) (cmds : ℕ → Command W)
    (memory : Bool) where
  -- A state that can be reached and has nothing left.
  Finished : Boot W → Type 0
  Finished b =
      (d : Boot W) × Reach op_write cmds memory b d
      × (d.protocols_left ≡ [])
      × (d.commands_left ≡ [])
      × IsStarting op_write cmds memory d

  finish_commands :
      (ps : List ℕ) (b c : Boot W)
      → Reach op_write cmds memory b c
      → c.protocols_left ≡ []
      → c.commands_left ≡ ps
      → IsStarting op_write cmds memory c
      → Finished b
  unfolding Finished
  finish_commands [] b c r e e' v = (c, r, e, e', v)
  finish_commands (p ∷ ps) b c r e e' v =
      let (l, done, far) =
        AsFar-register 9 c.commands p ps all_commands
          (subst (λ xs. AsFar c.commands xs all_commands) e' v.commands_are) (omega arith)
          (omega arith) in
      let st = command p ps (pos 0) l e e' done in
      finish_commands ps b (record c { commands = l; commands_left = ps }) (next r st) e refl
        (Step-IsStarting op_write cmds memory st v)

  finish_protocols :
      (ps : List ℕ) (b c : Boot W)
      → Reach op_write cmds memory b c
      → c.protocols_left ≡ ps
      → IsStarting op_write cmds memory c
      → Finished b
  finish_protocols [] b c r e v = finish_commands c.commands_left b c r e refl v
  finish_protocols (p ∷ ps) b c r e v =
      let (l, done, far) =
        AsFar-register 3 c.protocols p ps all_protocols
          (subst (λ xs. AsFar c.protocols xs all_protocols) e v.protocols_are) (omega arith)
          (omega arith) in
      let st = protocol p ps (pos 0) l e done in
      finish_protocols ps b (record c { protocols = l; protocols_left = ps }) (next r st) refl
        (Step-IsStarting op_write cmds memory st v)

  -- From empty registries, whatever registrations, calls of `handle` and rounds of `get_cmd` have come
  -- before, there is a way on to a state with nothing left to register, in which the three protocols
  -- and the nine commands are registered in their order.
  pub Reach-boots :
      (b c : Boot W)
      → b.protocols.head ≡ none
      → b.commands.head ≡ none
      → b.protocols_left ≡ all_protocols
      → b.commands_left ≡ all_commands
      → Reach op_write cmds memory b c
      → (d : Boot W) × Reach op_write cmds memory c d
        × (d.protocols_left ≡ [])
        × (d.commands_left ≡ [])
        × IsReady d.protocols
        × Chain d.commands.next d.commands.head all_commands
  unfolding Finished
  Reach-boots b c h1 h2 left1 left2 r =
      let v =
        Reach-IsStarting op_write cmds memory (starting op_write cmds memory b h1 h2 left1 left2)
          r in
      let (d, r', e, e', v') = finish_protocols c.protocols_left c c here refl v in
      let (xs, cp, ep) = v'.protocols_are in
      let (ys, ck, ec) = v'.commands_are in
      (
        d,
        r',
        e,
        e',
        subst (Chain d.protocols.next d.protocols.head)
            (whole xs d.protocols_left all_protocols e ep) cp,
        subst (Chain d.commands.next d.commands.head) (whole ys d.commands_left all_commands e' ec)
            ck,
      )
    where
      whole : (xs left all : List ℕ) → left ≡ [] → xs ++ left ≡ all → xs ≡ all
      whole xs left all e h = sym (append-nil xs) ∙ ap (λ t. xs ++ t) (sym e) ∙ h
