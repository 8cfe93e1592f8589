-- ===== src/Tests/StartTests.antt =====
-- From the start of the program to an answer.
use instruction_parser.Prelude.{
  ℕ, zero, suc, ◌+◌, ◌≡◌, ◌≢◌, refl, ℤ, pos, negsuc, true, false, Option, some, none, List, [], ◌∷◌,
  ◌++◌, replicate, arith, ◌==◌, if◌then◌else◌,
}
use instruction_parser.Strings.{codes}
use instruction_parser.Crc.{IsBytes}
use instruction_parser.Registry.{Links}
use instruction_parser.Registry.Chains.{Chain}
use instruction_parser.Handle.Receive.Route.{IsReady}
use instruction_parser.Config.{newline, equals, until, entry, config_file}
use instruction_parser.Config.Lines.{text, IsLine}
use instruction_parser.Functions.System.{Clock}
use instruction_parser.Functions.Table.{Os, Statics}
use instruction_parser.Start.{Program, returned, sleeping, version_key, version, logger_init, main}
use instruction_parser.Start.Ready.{main-IsReady}
use instruction_parser.Tests.RouteTests.{empty_queue}
use instruction_parser.Tests.NetworkTests.{kernel}

abbrev pub release : List (List ℕ)
release = codes "ID=buildroot" ∷ []

pub release-IsLine : IsLine (codes "ID=buildroot")
release-IsLine = record { no_newline = omega arith; no_nul = omega arith; short = omega arith }

pub id_other : until equals (codes "ID=buildroot" ++ newline ∷ []) ≢ version_key
unfolding until
id_other h = cc

abbrev pub no_links : Links
no_links = record { head = none; next = λ n. none }

abbrev pub loaded : Program
loaded = record {
  os_release = some (text release);
  protocols = no_links;
  commands = no_links;
  queue = empty_queue;
  server_thread = false;
  cmd_thread = false;
}

main-IsReady_example :
    (p' : Program) × (main
        (λ n. (true, true))
        (pos 0)
        true
        (pos 0)
        (some empty_queue)
        (pos 0)
        loaded
      ≡ some (sleeping, p'))
    × (p'.os_release ≡ some (text release ++ entry version_key version))
    × IsReady p'.protocols
    × Chain p'.commands.next p'.commands.head (0 ∷ 1 ∷ 2 ∷ 3 ∷ 4 ∷ 5 ∷ 6 ∷ 7 ∷ 8 ∷ [])
    × (p'.queue ≡ empty_queue)
    × (p'.server_thread ≡ true)
    × (p'.cmd_thread ≡ true)
main-IsReady_example =
    main-IsReady (λ n. (true, true)) (pos 0) (some empty_queue) (pos 0) release loaded (λ n. refl)
      refl (release-IsLine, id_other, tt) refl refl

-- Without the file `main` returns, and nothing has started.
stops :
    main (λ n. (true, true)) (pos 0) true (pos 0) none (pos 0) (record loaded { os_release = none })
    ≡ some (returned (negsuc 0), record loaded { os_release = none })
unfolding main logger_init config_file
stops = refl

abbrev after9 : ℕ → Option ℕ
after9 n = if n == 8 then none else some (suc n)

abbrev pub nine : Links
nine = record { head = some 0; next = after9 }

abbrev midnight : Clock
midnight = record {
  tm_year = 119;
  tm_mon = 11;
  tm_mday = 12;
  tm_hour = 0;
  tm_min = 0;
  tm_sec = 0;
  tv_usec = 0;
}

abbrev pub board : Os ℕ
board = record {
  system = λ cmd e. (pos 0, e);
  clock = λ e. midnight;
  sync = λ e. e;
  reboot = λ e. (pos 0, e);
  net = kernel;
  memory = true;
}

abbrev pub statics : Statics ℕ
statics = record {
  ip_info = replicate 10 0;
  ip_info_text = replicate 22 0;
  flag = 1;
  device = record { now = midnight; mode = 0; result = 0; outside = 0 };
}

-- A write that takes everything and counts.
abbrev pub counted : Statics ℕ → Statics ℕ
counted s = record s { device = record s.device { outside = s.device.outside + 100 } }

abbrev pub write : ℕ → List ℕ → Statics ℕ → Option (ℤ × Statics ℕ)
write fd buf s = some (pos 1, counted s)

abbrev pub answered : Statics ℕ
answered = record statics {
  ip_info = codes "eth0" ++ 0 ∷ 0 ∷ 192 ∷ 168 ∷ 1 ∷ 9 ∷ [];
  flag = 0;
  device = record statics.device { outside = 101 };
}

pub zeros_IsBytes : (n : ℕ) → IsBytes (replicate n 0)
zeros_IsBytes zero = tt
zeros_IsBytes (suc n) = (omega arith, zeros_IsBytes n)
