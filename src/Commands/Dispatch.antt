-- ===== src/Commands/Dispatch.antt =====
-- Which command runs: the first that was registered under the frame's name.
use instruction_parser.Prelude.{
  ℕ, zero, suc, ◌<◌, ◌≡◌, ◌↔◌, ◌⊎◌, ◌++◌, refl, ℤ, negsuc, Bool, true, false, ◌&&◌, Option, none,
  some, ◌>>=◌, List, [], ◌∷◌, length, ◌==◌, if◌then◌else◌, arith, Option-cases, inl, inr, ◌≢◌, sym,
  Bool-cases,
}
use instruction_parser.Strings.{c_string}
use instruction_parser.Strings.Laws.{Free}
use instruction_parser.Frame.{CmdFrame, cmd_name}
use instruction_parser.Registry.Chains.{Chain}
use instruction_parser.Commands.{
  Command, same_string, run_cmd, do_cmd_list, run_text_cmd, do_text_cmd_from,
}

unfoldable pub same_bytes : List ℕ → List ℕ → Bool
same_bytes [] [] = true
same_bytes [] (c ∷ cs) = false
same_bytes (a ∷ as') [] = false
same_bytes (a ∷ as') (c ∷ cs) = a == c && same_bytes as' cs

pub same_bytes_iff : (xs ys : List ℕ) → (same_bytes xs ys ≡ true) ↔ (xs ≡ ys)
unfolding same_bytes
same_bytes_iff [] [] = ((λ h. refl), λ e. refl)
same_bytes_iff [] (y ∷ ys) = ((λ h. cc), λ e. cc)
same_bytes_iff (x ∷ xs) [] = ((λ h. cc), λ e. cc)
same_bytes_iff (x ∷ xs) (y ∷ ys) = ground (arith, same_bytes_iff xs ys)

pub same_bytes-ne : (xs ys : List ℕ) → ys ≢ xs → same_bytes xs ys ≡ false
same_bytes-ne xs ys ne = elim (Bool-cases (same_bytes xs ys)) [
  | inl e ↦ absurd (ne (sym ((same_bytes_iff xs ys).0 e)))
  | inr e ↦ e
]

-- `strcmp` with a terminated string compares the two strings.
pub same_string_lem :
    (name mem s : List ℕ)
    → Free 0 name
    → c_string mem ≡ some s
    → same_string name mem ≡ some (same_bytes name s)
unfolding same_string c_string same_bytes
same_string_lem name [] s f e = cc
same_string_lem [] (c ∷ mem) s f e = ground arith
same_string_lem (a ∷ name) (c ∷ mem) s f e = elim (Option-cases (c_string mem)) [
  | inl n ↦ ground arith
  | inr (t, m) ↦ ground (arith, same_string_lem name mem t f.1 m)
]

module _ {W : Type 0} where
  -- The first node of the list whose command has the name.
  unfoldable pub find_cmd : (ℕ → Command W) → List ℕ → List ℕ → Option ℕ
  find_cmd cmds s [] = none
  find_cmd cmds s (p ∷ ps) = if same_bytes (cmds p).name s then some p else find_cmd cmds s ps

  -- On the beginning of a list the search finds the same command or none.
  pub find_cmd-append :
      (cmds : ℕ → Command W) (s : List ℕ) (xs ys : List ℕ)
      → (find_cmd cmds s xs ≡ none) ⊎ (find_cmd cmds s xs ≡ find_cmd cmds s (xs ++ ys))
  unfolding find_cmd
  find_cmd-append cmds s [] ys = inl refl
  find_cmd-append cmds s (p ∷ ps) ys = elim (Bool-cases (same_bytes (cmds p).name s)) [
    | inl e ↦ inr (rw e)
    | inr e ↦ rw e (find_cmd-append cmds s ps ys)
  ]

  abbrev pub NamesFree : (ℕ → Command W) → List ℕ → Type 0
  NamesFree cmds [] = Unit {0}
  NamesFree cmds (p ∷ ps) = Free 0 (cmds p).name × NamesFree cmds ps

  -- On a chain of commands whose names hold no NUL, with fuel for it, and a frame whose name ends,
  -- `do_cmd_list` runs the first registered command whose name is the frame's, and returns -1, with
  -- nothing changed, if there is none.
  pub do_cmd_list-eq :
      (cmds : ℕ → Command W) (next : ℕ → Option ℕ) (fuel : ℕ) (cur : Option ℕ) (xs : List ℕ)
      (cmd : CmdFrame) (s reply : List ℕ) (w : W)
      → Chain next cur xs
      → length xs < fuel
      → NamesFree cmds xs
      → cmd_name cmd ≡ some s
      → do_cmd_list cmds next fuel cur cmd reply w ≡ elim (find_cmd cmds s xs) [
        | none ↦ some (negsuc 0, reply, w)
        | some p ↦ run_cmd (cmds p) cmd reply w
      ]
  unfolding do_cmd_list find_cmd cmd_name
  do_cmd_list-eq cmds next zero cur xs cmd s reply w c h f e = absurd (omega arith)
  do_cmd_list-eq cmds next (suc fuel) cur [] cmd s reply w c h f e = rw c
  do_cmd_list-eq cmds next (suc fuel) cur (p ∷ ps) cmd s reply w c h f e =
      rw (c.0, same_string_lem (cmds p).name cmd.arrays s f.0 e, ◌>>=◌)
        (ground
          (arith, do_cmd_list-eq cmds next fuel (next p) ps cmd s reply w c.1 (omega arith) f.1 e))

module _ {W : Type 0} (op_write : ℕ → List ℕ → W → Option (ℤ × W)) where
  -- On a chain of commands whose names hold no NUL, with fuel for it, and a frame whose name ends,
  -- the loop of `do_text_cmd` runs the text form of the first registered command whose name is the
  -- frame's, or the help, and returns -1, with nothing changed, if there is none.
  pub do_text_cmd-eq :
      (cmds : ℕ → Command W) (next : ℕ → Option ℕ) (all : ℕ) (head : Option ℕ) (fuel : ℕ)
      (cur : Option ℕ) (xs : List ℕ) (cmd : CmdFrame) (s reply : List ℕ) (w : W)
      → Chain next cur xs
      → length xs < fuel
      → NamesFree cmds xs
      → cmd_name cmd ≡ some s
      → do_text_cmd_from op_write cmds next all head fuel cur cmd reply w
        ≡ elim (find_cmd cmds s xs) [
          | none ↦ some (negsuc 0, reply, w)
          | some p ↦ run_text_cmd op_write cmds next all head (cmds p) cmd reply w
        ]
  unfolding do_text_cmd_from find_cmd cmd_name
  do_text_cmd-eq cmds next all head zero cur xs cmd s reply w c h f e = absurd (omega arith)
  do_text_cmd-eq cmds next all head (suc fuel) cur [] cmd s reply w c h f e = rw c
  do_text_cmd-eq cmds next all head (suc fuel) cur (p ∷ ps) cmd s reply w c h f e =
      rw (c.0, same_string_lem (cmds p).name cmd.arrays s f.0 e, ◌>>=◌)
        (ground (
          arith,
          do_text_cmd-eq cmds next all head fuel (next p) ps cmd s reply w c.1 (omega arith) f.1 e,
        ))
