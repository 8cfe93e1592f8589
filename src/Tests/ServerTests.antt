-- ===== src/Tests/ServerTests.antt =====
-- The event loop.
use instruction_parser.Prelude.{
  ℕ, ◌≡◌, ◌↔◌, inl, inr, negsuc, Bool, refl, ℤ, pos, true, false, Option, none, some, [], ◌∷◌, map,
  replicate, arith,
}
use instruction_parser.Clients.{ClientMember, CliList, add_clilist, op_write}
use instruction_parser.Server.Room.{IsFull, Reach-inside}
use instruction_parser.Server.{
  Event, Server, serve_event, serve_events, serve_round, run_task, poll, Reach, here, next,
}
use instruction_parser.Server.Bounds.{IsSound}
use instruction_parser.Server.Race.{pending, ready, serve_round-pending, serve_round-overwrites}

abbrev no_client : ClientMember
no_client = record { fd = 0; ip = [] }

abbrev pub readable : ℕ → Event
readable n = record { fd = n; epollin = true }

abbrev pub started : Server
started = record {
  clients = record { clilist = replicate 256 no_client; tailindex = pos 0 };
  events = replicate 256 (record { fd = 0; epollin = false });
  tasks = [];
}

started-IsSound : IsSound started
started-IsSound = record {
  bounded = record { entries = refl; below = omega arith };
  slots = refl;
  tasks_in = tt;
}

abbrev no_accept : ℕ → Option ClientMember
no_accept n = none

-- A readable connection that is in no list.
abbrev polled : Server
polled = record started {
  events = readable 9 ∷ replicate 255 (record { fd = 0; epollin = false });
  tasks = 0 ∷ [];
}

started-polled : Reach 3 started polled
unfolding serve_round serve_events serve_event
started-polled = next here (poll no_accept (readable 9 ∷ []) (omega arith) (inl refl) refl)

serve_round-pending_example :
    (t : Server) × (serve_round 3 no_accept (readable 9 ∷ readable 8 ∷ []) started ≡ some (true, t))
    × (pending t ≡ map some (ready (readable 9 ∷ readable 8 ∷ [])))
    × (t.clients ≡ started.clients)
serve_round-pending_example =
    serve_round-pending 3 no_accept (readable 9 ∷ readable 8 ∷ []) started refl
      (omega arith, (omega arith, tt))

serve_round-overwrites_example :
    (t u : Server) × (serve_round 3 no_accept (readable 9 ∷ []) started ≡ some (true, t))
    × (serve_round 3 no_accept (readable 8 ∷ []) t ≡ some (true, u))
    × (pending t ≡ some (readable 9) ∷ [])
    × (pending u ≡ some (readable 8) ∷ some (readable 8) ∷ [])
serve_round-overwrites_example =
    serve_round-overwrites 3 no_accept (readable 9) (readable 8) started refl (omega arith)
      (omega arith) refl refl

Reach-inside_example :
    (ret ret' : ℤ) × (u v : Server) × (l : CliList) × (go_on : Bool) × (run_task false
        (pos 0)
        polled
      ≡ some (ret, u))
    × IsSound u
    × (op_write false (negsuc 0) 9 polled.clients ≡ some (ret', l))
    × IsSound (record polled { clients = l })
    × (serve_round 3 no_accept (readable 3 ∷ readable 9 ∷ []) polled ≡ some (go_on, v))
    × IsSound v
    × ((add_clilist no_client polled.clients ≡ none) ↔ IsFull (pos 0))
Reach-inside_example =
    Reach-inside 3 started polled false (pos 0) (negsuc 0) 9 0 [] no_accept
      (readable 3 ∷ readable 9 ∷ []) no_client started-IsSound started-polled refl (omega arith)
      (inr (0, refl, omega arith))
