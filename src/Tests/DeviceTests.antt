-- ===== src/Tests/DeviceTests.antt =====
-- The client list, the address check and the date command.
use instruction_parser.Prelude.{
  ℕ, ◌+◌, ◌*◌, ◌-◌, ◌≡◌, ◌↔◌, refl, ℤ, pos, false, ◌&&◌, if◌then◌else◌, leb, some, List, [], ◌∷◌,
  length, replicate, arith,
}
use instruction_parser.Clients.{ClientMember, CliList, del_clilist}
use instruction_parser.Clients.Live.{Live, del_clilist-Live}
use instruction_parser.Strings.{codes, tokens}
use instruction_parser.Functions.Network.{
  check_right_ip, cut, out_of_range, check_right_ip-accepts_iff,
}
use instruction_parser.Functions.System.{Clock, Device, set_system_date, set_date_reply}
use instruction_parser.Functions.System.Answers.{set_date-hides_failure}

abbrev pub client : ℕ → ClientMember
client n = record { fd = n; ip = [] }

abbrev pub two_clients : CliList
two_clients = record { clilist = client 5 ∷ client 6 ∷ replicate 254 (client 0); tailindex = pos 2 }

pub two_clients-Live : Live two_clients (client 5 ∷ client 6 ∷ [])
two_clients-Live = record {
  unused = replicate 254 (client 0);
  entries = refl;
  counted = refl;
  room = refl;
}

del_clilist-Live_example :
    (l' : CliList) × (del_clilist 5 two_clients ≡ some (pos 1, l')) × Live l' (client 6 ∷ [])
del_clilist-Live_example =
    del_clilist-Live two_clients [] (client 6 ∷ []) (client 5) two_clients-Live tt (omega arith, tt)

-- A system whose commands all fail, and count.
abbrev failing : List ℕ → ℕ → ℤ × ℕ
failing cmd n = (pos 1, n + 1)

abbrev midnight : ℕ → Clock
midnight n = record {
  tm_year = 119;
  tm_mon = 11;
  tm_mday = 12;
  tm_hour = 0;
  tm_min = 0;
  tm_sec = 0;
  tv_usec = 0;
}

abbrev device : Device ℕ
device = record { now = midnight 0; mode = 0; result = 0; outside = 0 }

set_date-hides_failure_example :
    (d' : Device ℕ) × (set_system_date failing midnight
        (1 ∷ 7 ∷ 227 ∷ 12 ∷ 12 ∷ 9 ∷ 8 ∷ 7 ∷ [])
        device
      ≡ some (pos 0, d'))
    × (set_date_reply (3 ∷ []) d' ≡ some (pos 1, 0 ∷ [], d'))
    × (d'.outside ≡ 1)
set_date-hides_failure_example =
    set_date-hides_failure failing midnight 7 227 12 12 9 8 7 3 [] [] device (pos 1) 1 (omega arith)
      (omega arith) refl refl

-- A string of digits, up to the first other character.
abbrev read_number : ℕ → List ℕ → ℤ
read_number n [] = pos n
read_number n (c ∷ cs) =
    let rest = read_number (n * 10 + (c - b'0')) cs in
    if leb b'0' c && leb c b'9' then rest else pos n

check_right_ip-accepts_iff_example :
    (check_right_ip (read_number 0) (codes "10.0.999.1") ≡ pos 0) ↔ (
      (length (tokens b'.' (codes "10.0.999.1")) ≡ 4)
      × (out_of_range (read_number 0 (cut b'.' (codes "10.0.999.1"))) ≡ false))
check_right_ip-accepts_iff_example = check_right_ip-accepts_iff (read_number 0) (codes "10.0.999.1")
