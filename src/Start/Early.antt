-- ===== src/Start/Early.antt =====
-- The other threads run while `main` still registers protocols and commands.
pub mod Dropped
use instruction_parser.Prelude.{
  ℕ, zero, suc, ◌+◌, ◌≤◌, ◌≡◌, ◌⊎◌, inl, inr, refl, sym, ap, ◌∙◌, subst, ℤ, pos, negsuc, Bool,
  Option, none, some, ◌>>=◌, >>=-eq-some, List, [], ◌∷◌, ◌++◌, append_assoc, length, length-append,
  arith,
}
use instruction_parser.Strings.Laws.{some_injective}
use instruction_parser.Frame.{CmdFrame, cmd_name}
use instruction_parser.Registry.{Links, register}
use instruction_parser.Registry.Chains.{Chain, Distinct}
use instruction_parser.Registry.Lookup.{first_fit, find_node-eq-first_fit, first_fit-append}
use instruction_parser.Queue.Static.{CmdQueue}
use instruction_parser.Commands.{Command, do_cmd_list}
use instruction_parser.Commands.Dispatch.{NamesFree, find_cmd-append, do_cmd_list-eq}
use instruction_parser.Handle.{CmdThread, get_cmd_step}
use instruction_parser.Handle.Receive.{handle, accepts, do_protocol_handle}
use instruction_parser.Handle.Receive.Route.{IsReady}
use instruction_parser.Functions.Enter.{register_next-Chain}

-- The registrations in the order of `main` and `cmd_register_enter`.
abbrev pub all_protocols : List ℕ
all_protocols = 0 ∷ 1 ∷ 2 ∷ []

abbrev pub all_commands : List ℕ
all_commands = 0 ∷ 1 ∷ 2 ∷ 3 ∷ 4 ∷ 5 ∷ 6 ∷ 7 ∷ 8 ∷ []

-- The two registries, the nodes that `main` has still to register, and the command thread.
pub record Boot (W : Type 0) : Type 0 where
  pub protocols : Links
  pub commands : Links
  pub protocols_left : List ℕ
  pub commands_left : List ℕ
  pub thread : CmdThread W

-- A registry holds the nodes that are not left, in their order.
abbrev pub AsFar : Links → List ℕ → List ℕ → Type 0
AsFar l left all = (xs : List ℕ) × Chain l.next l.head xs × (xs ++ left ≡ all)

-- One registration, and that it works.
pub AsFar-register :
    (fuel : ℕ) (l : Links) (p : ℕ) (ps all : List ℕ)
    → AsFar l (p ∷ ps) all
    → Distinct all
    → length all ≤ fuel
    → (l' : Links) × (register fuel l p ≡ some (pos 0, l')) × AsFar l' ps all
AsFar-register fuel l p ps all (xs, c, e) d h =
    let size : length xs + suc (length ps) ≡ length all =
      sym (length-append xs (p ∷ ps)) ∙ ap length e in
    let (l', done, c') =
      register_next-Chain fuel ps p l xs c (subst Distinct (sym e) d) (omega arith) in
    (l', done, (xs ++ p ∷ [], c', append_assoc xs (p ∷ []) ps ∙ e))

module _ {W : Type 0} (op_write : ℕ → List ℕ → W → Option (ℤ × W)) (cmds : ℕ → Command W)
    (memory : Bool) where
  -- A registration of `main`, a call of `handle`, or a round of `get_cmd`.
  pub data Step : Boot W → Boot W → Type 0 where
    protocol :
        {b : Boot W} (p : ℕ) (ps : List ℕ) (ret : ℤ) (l : Links)
        → b.protocols_left ≡ p ∷ ps
        → register 3 b.protocols p ≡ some (ret, l)
        → Step b (record b { protocols = l; protocols_left = ps })
    command :
        {b : Boot W} (p : ℕ) (ps : List ℕ) (ret : ℤ) (l : Links)
        → b.protocols_left ≡ []
        → b.commands_left ≡ p ∷ ps
        → register 9 b.commands p ≡ some (ret, l)
        → Step b (record b { commands = l; commands_left = ps })
    receive :
        {b : Boot W} (tmp_str line : List ℕ) (stack : CmdFrame) (fd : ℕ) (n : ℤ) (q : CmdQueue)
        → handle 4 b.protocols tmp_str stack fd n line b.thread.queue ≡ some q
        → Step b (record b { thread = record b.thread { queue = q } })
    round :
        {b : Boot W} (t : CmdThread W)
        → get_cmd_step op_write cmds b.commands 10 memory b.thread ≡ some t
        → Step b (record b { thread = t })

  pub data Reach (b : Boot W) : Boot W → Type 0 where
    here : Reach b b
    next : {c d : Boot W} → Reach b c → Step c d → Reach b d

  pub record IsStarting (b : Boot W) : Type 0 where
    pub protocols_are : AsFar b.protocols b.protocols_left all_protocols
    pub commands_are : AsFar b.commands b.commands_left all_commands

  pub Step-IsStarting : {b c : Boot W} → Step b c → IsStarting b → IsStarting c
  Step-IsStarting (protocol {b} p ps ret l left e) v =
      let (l', done, far) =
        AsFar-register 3 b.protocols p ps all_protocols
          (subst (λ xs. AsFar b.protocols xs all_protocols) left v.protocols_are) (omega arith)
          (omega arith) in
      let same : l' ≡ l = ap (λ r. r.1) (some_injective (sym done ∙ e)) in
      record {
        protocols_are = subst (λ x. AsFar x ps all_protocols) same far;
        commands_are = v.commands_are;
      }
  Step-IsStarting (command {b} p ps ret l none_left left e) v =
      let (l', done, far) =
        AsFar-register 9 b.commands p ps all_commands
          (subst (λ xs. AsFar b.commands xs all_commands) left v.commands_are) (omega arith)
          (omega arith) in
      let same : l' ≡ l = ap (λ r. r.1) (some_injective (sym done ∙ e)) in
      record {
        protocols_are = v.protocols_are;
        commands_are = subst (λ x. AsFar x ps all_commands) same far;
      }
  Step-IsStarting (receive tmp_str line stack fd n q e) v = record {
    protocols_are = v.protocols_are;
    commands_are = v.commands_are;
  }
  Step-IsStarting (round t e) v = record {
    protocols_are = v.protocols_are;
    commands_are = v.commands_are;
  }

  pub Reach-IsStarting : {b c : Boot W} → IsStarting b → Reach b c → IsStarting c
  Reach-IsStarting v here = v
  Reach-IsStarting v (next r st) = Step-IsStarting st (Reach-IsStarting v r)

  pub starting :
      (a : Boot W)
      → a.protocols.head ≡ none
      → a.commands.head ≡ none
      → a.protocols_left ≡ all_protocols
      → a.commands_left ≡ all_commands
      → IsStarting a
  starting a k1 k2 e1 e2 = record { protocols_are = ([], k1, e1); commands_are = ([], k2, e2) }
