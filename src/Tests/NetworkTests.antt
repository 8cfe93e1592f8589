-- ===== src/Tests/NetworkTests.antt =====
-- The requests for an interface's address.
use instruction_parser.Prelude.{
  ℕ, ◌+◌, ◌<◌, ◌≡◌, refl, ap, ℤ, pos, true, Option, some, none, List, [], ◌∷◌, ◌++◌, drop,
  replicate, arith,
}
use instruction_parser.Strings.{strncpy_bytes, codes, c_string, tokens}
use instruction_parser.Protocol.Text.{string_to_integer, string_to_integer_from, add_digit}
use instruction_parser.Handle.{decimal}
use instruction_parser.Handle.Decimal.{string_to_integer-decimal}
use instruction_parser.Functions.Network.{check_right_ip, cut, out_of_range, count_down, up_to}
use instruction_parser.Functions.Network.Requests.{
  Net, NetState, ifr_name, set_device_ip, set_hand_ip,
}
use instruction_parser.Functions.Network.Failures.{set_device_ip-overreads}
use instruction_parser.Functions.Network.Dotted.{dotted}

-- A kernel with one interface, which counts the sockets.
abbrev atoi : List ℕ → ℤ
atoi s = elim (string_to_integer s) [ none ↦ pos 0 | some n ↦ pos n ]

abbrev inet_ntoa : List ℕ → List ℕ
inet_ntoa (a ∷ b ∷ c ∷ d ∷ []) = dotted a b c d
inet_ntoa addr = []

abbrev pub kernel : Net ℕ
kernel = record {
  open_socket = λ e. (true, e + 1);
  get_if_addr = λ name e. some (192 ∷ 168 ∷ 1 ∷ 9 ∷ []);
  set_if_addr = λ name addr e. (true, e);
  set_if_flags = λ name e. (true, e);
  inet_ntoa = inet_ntoa;
  inet_addr = λ s. replicate 4 0;
  atoi = atoi;
}

abbrev pub device : NetState ℕ
device = record { ip_info = replicate 10 0; ip_info_text = replicate 22 0; flag = 1; outside = 0 }

pub kernel-prints :
    (a b c d : ℕ)
    → a < 256
    → b < 256
    → c < 256
    → d < 256
    → kernel.inet_ntoa (a ∷ b ∷ c ∷ d ∷ []) ≡ dotted a b c d
kernel-prints a b c d ha hb hc hd = refl

pub kernel-reads : (n : ℕ) → n < 256 → kernel.atoi (decimal n) ≡ pos n
kernel-reads n h =
    ap (λ (o : Option ℕ). elim o [ none ↦ pos 0 | some m ↦ pos m ])
      (string_to_integer-decimal n (omega arith))

-- What a text request leaves in its structure.
abbrev info : List ℕ
info = codes "eth0" ++ 0 ∷ 0 ∷ (codes "10.0.0.1" ++ 0 ∷ [])

info_read : c_string (drop 6 info) ≡ some (codes "10.0.0.1")
unfolding c_string
info_read = refl

good_address : check_right_ip atoi (codes "10.0.0.1") ≡ pos 0
unfolding check_right_ip count_down cut up_to out_of_range string_to_integer string_to_integer_from
    add_digit tokens
good_address = refl

eth0_named : ifr_name info ≡ some (codes "eth0")
unfolding ifr_name strncpy_bytes c_string
eth0_named = refl

set_device_ip-overreads_example :
    (set_device_ip kernel true info 6 0 ≡ none)
    × (set_hand_ip kernel info (codes "10.0.0.1" ++ 0 ∷ []) 0 ≡ some (pos 0, 1))
set_device_ip-overreads_example =
    set_device_ip-overreads kernel info info (codes "10.0.0.1") (codes "eth0") 6 0 1 1 1 true true
      info_read good_address eth0_named refl refl refl
