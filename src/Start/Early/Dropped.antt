-- ===== src/Start/Early/Dropped.antt =====
-- What becomes of a request that comes before all is registered.
use instruction_parser.Prelude.{
  ℕ, zero, suc, ◌+◌, ◌≡◌, ◌⊎◌, inl, inr, refl, sym, ap, ◌∙◌, subst, ℤ, pos, negsuc, Bool, Option,
  none, some, ◌>>=◌, >>=-eq-some, List, [], ◌∷◌, ◌++◌, length, length-append, arith,
}
use instruction_parser.Frame.{CmdFrame, cmd_name}
use instruction_parser.Registry.{Links}
use instruction_parser.Registry.Chains.{Chain}
use instruction_parser.Registry.Lookup.{first_fit, find_node-eq-first_fit, first_fit-append}
use instruction_parser.Queue.Static.{CmdQueue}
use instruction_parser.Commands.{Command, do_cmd_list}
use instruction_parser.Commands.Dispatch.{NamesFree, find_cmd-append, do_cmd_list-eq}
use instruction_parser.Handle.Receive.{handle, accepts, do_protocol_handle}
use instruction_parser.Handle.Receive.Route.{IsReady}
use instruction_parser.Start.Early.{
  Boot, all_protocols, all_commands, Reach, Reach-IsStarting, starting,
}

-- A call of `handle` with some of the protocols.
handle-early :
    (links full : Links) (xs left : List ℕ) (tmp_str line : List ℕ) (stack : CmdFrame) (fd : ℕ)
    (n : ℤ) (q q1 : CmdQueue)
    → Chain links.next links.head xs
    → xs ++ left ≡ all_protocols
    → IsReady full
    → handle 4 full tmp_str stack fd n line q ≡ some q1
    → (handle 4 links tmp_str stack fd n line q ≡ some q)
      ⊎ (handle 4 links tmp_str stack fd n line q ≡ some q1)
unfolding handle do_protocol_handle
handle-early links full xs left tmp_str line stack fd (negsuc n) q q1 c e ready h = inl refl
handle-early links full xs left tmp_str line stack fd (pos zero) q q1 c e ready h = inl refl
handle-early links full xs left tmp_str line stack fd (pos (suc n)) q q1 c e ready h =
    let fits = accepts tmp_str line in
    let size : length xs + length left ≡ 3 = sym (length-append xs left) ∙ ap length e in
    let (r, found, h') = >>=-eq-some (do_protocol_handle 4 full tmp_str line) _ h in
    let all =
      sym (find_node-eq-first_fit fits full.next 4 full.head all_protocols ready (omega arith))
      ∙ found in
    let some_of = find_node-eq-first_fit fits links.next 4 links.head xs c (omega arith) in
    elim (first_fit-append fits xs left r (ap (first_fit fits) e ∙ all)) [
      | inl none_fits ↦ inl (rw (some_of, none_fits, ◌>>=◌))
      | inr same ↦ inr (rw (some_of, same, ◌>>=◌) h')
    ]

module _ {W : Type 0} (cmds : ℕ → Command W) where
  -- A call of `do_cmd_list` with some of the commands.
  do_cmd_list-early :
      (links full : Links) (xs left s reply : List ℕ) (cmd : CmdFrame) (w : W)
      → Chain links.next links.head xs
      → xs ++ left ≡ all_commands
      → Chain full.next full.head all_commands
      → NamesFree cmds all_commands
      → cmd_name cmd ≡ some s
      → (do_cmd_list cmds links.next 10 links.head cmd reply w ≡ some (negsuc 0, reply, w))
        ⊎ (do_cmd_list cmds links.next 10 links.head cmd reply w
            ≡ do_cmd_list cmds full.next 10 full.head cmd reply w)
  do_cmd_list-early links full xs left s reply cmd w c e c' free named =
      let size : length xs + length left ≡ 9 = sym (length-append xs left) ∙ ap length e in
      let some_of =
        do_cmd_list-eq cmds links.next 10 links.head xs cmd s reply w c (omega arith)
          (NamesFree-append xs left (subst (NamesFree cmds) (sym e) free)) named in
      let all =
        do_cmd_list-eq cmds full.next 10 full.head all_commands cmd s reply w c' (omega arith) free
          named in
      elim (find_cmd-append cmds s xs left) [
        | inl none_fits ↦ inl (some_of ∙ rw none_fits)
        | inr same ↦ inr (some_of ∙ (rw (same, e)) ∙ sym all)
      ]
    where
      NamesFree-append : (ys zs : List ℕ) → NamesFree cmds (ys ++ zs) → NamesFree cmds ys
      NamesFree-append [] zs f = tt
      NamesFree-append (y ∷ ys) zs f = (f.0, NamesFree-append ys zs f.1)

module _ {W : Type 0} (op_write : ℕ → List ℕ → W → Option (ℤ × W)) (cmds : ℕ → Command W)
    (memory : Bool) where
  -- From empty registries, however the registrations of `main`, calls of `handle` and rounds of
  -- `get_cmd` interleave: a buffer that `handle` takes with all protocols registered is dropped, or
  -- handled just as then; and a binary frame is refused with -1 and no effect, or runs as it does with
  -- all commands registered. The names of the commands hold no NUL.
  pub Reach-early :
      (b c : Boot W) (protocols commands : Links) (tmp_str line s reply : List ℕ)
      (stack cmd : CmdFrame) (fd : ℕ) (n : ℤ) (q q1 : CmdQueue) (w : W)
      → b.protocols.head ≡ none
      → b.commands.head ≡ none
      → b.protocols_left ≡ all_protocols
      → b.commands_left ≡ all_commands
      → Reach op_write cmds memory b c
      → IsReady protocols
      → Chain commands.next commands.head all_commands
      → NamesFree cmds all_commands
      → handle 4 protocols tmp_str stack fd n line q ≡ some q1
      → cmd_name cmd ≡ some s
      → ((handle 4 c.protocols tmp_str stack fd n line q ≡ some q)
          ⊎ (handle 4 c.protocols tmp_str stack fd n line q ≡ some q1))
        × ((do_cmd_list cmds c.commands.next 10 c.commands.head cmd reply w
              ≡ some (negsuc 0, reply, w))
            ⊎ (do_cmd_list cmds c.commands.next 10 c.commands.head cmd reply w
                ≡ do_cmd_list cmds commands.next 10 commands.head cmd reply w))
  Reach-early b c protocols commands tmp_str line s reply stack cmd fd n q q1 w h1 h2 left1 left2 r
        ready chain free e named =
      let v =
        Reach-IsStarting op_write cmds memory (starting op_write cmds memory b h1 h2 left1 left2)
          r in
      let (xs, cp, ep) = v.protocols_are in
      let (ys, cc', ec) = v.commands_are in
      (
        handle-early c.protocols protocols xs c.protocols_left tmp_str line stack fd n q q1 cp ep
            ready e,
        do_cmd_list-early cmds c.commands commands ys c.commands_left s reply cmd w cc' ec chain
            free named,
      )
