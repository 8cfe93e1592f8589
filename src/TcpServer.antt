-- ===== src/TcpServer.antt =====
-- tcp_server/tcp_server.c: a server that sends a client its bytes back, in one thread for each client.
-- `socket`, `bind`, `listen`, `accept` and `read` are outside: what they answer is an argument.
pub mod Echo
use instruction_parser.Prelude.{
  ℕ, zero, suc, ◌≡◌, ◌+◌, ℤ, pos, negsuc, is_neg, Bool, true, false, Option, none, some, ◌>>=◌,
  List, [], ◌∷◌, length, if◌then◌else◌,
}
use instruction_parser.Strings.{store, c_string}

-- `startup` gives the listening socket, or the process ends.
pub data Startup : Type 0 where
  exited : ℕ → Startup
  listening : ℤ → Startup

unfoldable pub startup : ℤ → ℤ → ℤ → Startup
startup socket bound listened =
    if is_neg socket
    then exited 2
    else if is_neg bound
    then exited 3
    else if is_neg listened
    then exited 4
    else listening socket

-- What `read` does: at least one byte, the end of the connection, or a failure.
pub data Read : Type 0 where
  received : ℕ → List ℕ → Read
  closed : Read
  failed : Read

-- One round of `request` that received bytes: the bytes that it hands to `write`. `buf` is what the
-- 1024 bytes of the stack held.
unfoldable pub echo : List ℕ → List ℕ → Option (List ℕ)
echo buf bytes = do
  buf' ← store buf 0 bytes
  buf'' ← store buf' (length bytes) (0 ∷ [])
  c_string buf''

-- `request`, for the results of `read` in their order: what it writes, and whether it has returned.
-- The array is new in each round.
unfoldable pub request : (ℕ → List ℕ) → List Read → Option (List (List ℕ) × Bool)
request bufs [] = some ([], false)
request bufs (received b bs ∷ rs) =
    let rest = request (λ n. bufs (suc n)) rs in
    echo (bufs 0) (b ∷ bs) >>= λ w. rest >>= λ r. some (w ∷ r.0, r.1)
request bufs (closed ∷ rs) = some ([], true)
request bufs (failed ∷ rs) = some ([], true)

-- `main_thread`, for the results of `accept` in their order: the sockets that get a thread.
unfoldable pub main_thread : List ℤ → List ℤ
main_thread [] = []
main_thread (sock ∷ socks) =
    let rest = main_thread socks in if is_neg sock then rest else sock ∷ rest

-- `tcp_server_init`: the socket on which the thread that it starts listens, and its result.
unfoldable pub tcp_server_init : ℤ → ℤ → ℤ → Startup × Option ℤ
unfolding startup
tcp_server_init socket bound listened =
    let s = startup socket bound listened in
    (s, elim s [ exited code ↦ none | listening sock ↦ some (pos 0) ])
