-- ===== src/Tests/WatchTests.antt =====
-- The epoll set, and the echo server.
use instruction_parser.Prelude.{
  ℕ, ◌≡◌, ◌↔◌, inr, length, refl, ℤ, pos, true, false, Bool, not, none, ◌&&◌, ◌||◌, some, List, [],
  ◌∷◌, map, replicate, arith, ◌==◌,
}
use instruction_parser.Strings.{codes}
use instruction_parser.Config.{until}
use instruction_parser.Clients.{ClientMember, add_clilist}
use instruction_parser.Clients.Live.{Live}
use instruction_parser.Server.Watch.{
  Epoll, Connections, connect, watch_listener, transfer, arrive, here, next,
}
use instruction_parser.Server.Watch.Listed.{listed, Once}
use instruction_parser.Server.Watch.Watched.{Moves-watched}
use instruction_parser.TcpServer.{received, closed, request}
use instruction_parser.TcpServer.Echo.{request-until}

abbrev sets : Epoll (ℕ → Bool)
sets = record {
  ctl_add = λ fd e x. (fd == x) || e x;
  ctl_del = λ fd e x. not (fd == x) && e x;
  watches = λ e x. e x;
}

abbrev client : ℕ → ClientMember
client n = record { fd = n; ip = [] }

abbrev alone : Connections (ℕ → Bool)
alone = record {
  clients = record { clilist = replicate 256 (client 0); tailindex = pos 0 };
  epoll = λ x. false;
}

abbrev with_client : Connections (ℕ → Bool)
with_client = record {
  clients = record { clilist = client 5 ∷ replicate 255 (client 0); tailindex = pos 1 };
  epoll = λ x. (5 == x) || ((3 == x) || false);
}

client_connects : connect sets (client 5) (watch_listener sets 3 alone) ≡ some with_client
unfolding connect add_clilist watch_listener
client_connects = refl

Moves-watched_example :
    (cs : List ClientMember) × (ret : ℤ) × (u : Connections (ℕ → Bool)) × Live with_client.clients
      cs
    × Once cs
    × ((x : ℕ) → sets.watches with_client.epoll x ≡ ((3 == x) || listed x cs))
    × (transfer sets false (pos 0) 5 with_client ≡ some (ret, u))
    × ((connect sets (client 6) with_client ≡ none) ↔ (length cs ≡ 256))
unfolding watch_listener
Moves-watched_example =
    Moves-watched sets 3 (λ fd x e. refl) (λ fd x e. refl) alone with_client false (pos 0) 5
      (client 6)
      (record { unused = replicate 256 (client 0); entries = refl; counted = refl; room = refl })
      (λ x. refl) (next here (arrive (client 5) refl (inr (0, refl, omega arith)) client_connects))
      refl (omega arith)

-- A byte 0 hides the rest of what was read with it.
request-until_example :
    request
      (λ n. replicate 1024 7)
      (received b'h' (codes "i") ∷ received b'a' (0 ∷ codes "b") ∷ closed ∷ [])
    ≡ some (map (until 0) (codes "hi" ∷ (b'a' ∷ 0 ∷ codes "b") ∷ []), true)
request-until_example =
    request-until (λ n. replicate 1024 7)
      (received b'h' (codes "i") ∷ received b'a' (0 ∷ codes "b") ∷ closed ∷ []) (λ n. refl)
      (omega arith, (omega arith, tt))
