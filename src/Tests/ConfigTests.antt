-- ===== src/Tests/ConfigTests.antt =====
-- The configuration file.
use instruction_parser.Prelude.{
  ℕ, ◌≡◌, ◌≢◌, refl, pos, Bool, true, some, List, [], ◌∷◌, ◌++◌, length, drop, replicate, arith,
}
use instruction_parser.Strings.{codes, c_string, store}
use instruction_parser.Config.{
  newline, equals, until, config_file, shell_cmd, append_lines, fgets_all, prepend, entry,
}
use instruction_parser.Config.Lines.{text, IsLine}
use instruction_parser.Config.Rewrite.{config_file-twice, config_file-replaces}

abbrev seek : ℕ → Bool × Bool
seek n = (true, true)

abbrev lines : List (List ℕ)
lines = codes "port=80" ∷ []

port_IsLine : IsLine (codes "port=80")
port_IsLine = record { no_newline = omega arith; no_nul = omega arith; short = omega arith }

ip_IsLine : IsLine (codes "ip=10.0.0.1")
ip_IsLine = record { no_newline = omega arith; no_nul = omega arith; short = omega arith }

port_other : until equals (codes "port=80" ++ newline ∷ []) ≢ codes "ip"
unfolding until
port_other h = cc

config_file-twice_example :
    (file : List ℕ) × (config_file seek (some (text lines)) (codes "ip") (codes "10.0.0.1")
      ≡ (pos 0, some file))
    × (config_file seek (some file) (codes "ip") (codes "10.0.0.1") ≡ (pos 0, some file))
config_file-twice_example =
    config_file-twice seek (codes "ip") (codes "10.0.0.1") lines (λ n. refl) (λ h. cc) (omega arith)
      ip_IsLine (port_IsLine, port_other, tt)

config_file-replaces_example :
    config_file seek
      (some (text lines ++ (entry (codes "ip") (codes "10.0.0.1") ++ codes "a=1")))
      (codes "ip")
      (codes "10.0.0.123")
    ≡ (
      pos 0,
      some (
          text lines
          ++ (entry (codes "ip") (codes "10.0.0.123")
              ++ drop
                  (length (entry (codes "ip") (codes "10.0.0.123")))
                  (replicate (length (entry (codes "ip") (codes "10.0.0.1"))) 0 ++ codes "a=1"))),
    )
config_file-replaces_example =
    config_file-replaces seek (codes "ip") (codes "10.0.0.123") lines (codes "10.0.0.1")
      (codes "a=1") (λ n. refl) (λ h. cc) (omega arith) ip_IsLine (port_IsLine, port_other, tt)

-- The lines of a pipe behind what the buffer holds.
shell_cmd-appends :
    shell_cmd (some (codes "ab" ++ newline ∷ codes "c")) (codes "x" ++ replicate 6 0)
    ≡ some (pos 0, codes "xab" ++ newline ∷ codes "c" ++ 0 ∷ 0 ∷ [])
unfolding shell_cmd append_lines fgets_all prepend until c_string store
shell_cmd-appends = refl
