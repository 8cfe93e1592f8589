-- ===== src/TcpServer/Echo.antt =====
-- What a client of `request` gets back.
use instruction_parser.Prelude.{
  ℕ, suc, ◌+◌, ◌≤◌, ◌≡◌, refl, ◌∙◌, Bool, true, false, some, ◌>>=◌, List, [], ◌∷◌, ◌++◌, length,
  length-append, length-drop, drop, map, arith,
}
use instruction_parser.Strings.{store, c_string}
use instruction_parser.Strings.Laws.{store_in, take-append}
use instruction_parser.Config.{until}
use instruction_parser.TcpServer.{Read, received, closed, failed, echo, request}

-- The bytes that come before the end.
abbrev pub arrived : List Read → List (List ℕ)
arrived [] = []
arrived (received b bs ∷ rs) = (b ∷ bs) ∷ arrived rs
arrived (closed ∷ rs) = []
arrived (failed ∷ rs) = []

abbrev pub has_end : List Read → Bool
has_end [] = false
has_end (received b bs ∷ rs) = has_end rs
has_end (closed ∷ rs) = true
has_end (failed ∷ rs) = true

-- `read` never gives more than it is asked for.
abbrev pub Fits : List Read → Type 0
Fits [] = Unit
Fits (received b bs ∷ rs) = (length (b ∷ bs) ≤ 1023) × Fits rs
Fits (r ∷ rs) = Fits rs

c_string-until : (s rest : List ℕ) → c_string (s ++ 0 ∷ rest) ≡ some (until 0 s)
unfolding c_string until
c_string-until [] rest = refl
c_string-until (c ∷ s) rest = ground (arith, c_string-until s rest)

echo-until :
    (buf bytes : List ℕ)
    → length buf ≡ 1024
    → length bytes ≤ 1023
    → echo buf bytes ≡ some (until 0 bytes)
unfolding echo
echo-until buf bytes room fits =
    let back = drop (0 + length bytes) buf in
    let size : length (bytes ++ back) ≡ 1024 =
      length-append bytes back ∙ omega (arith, length-drop (0 + length bytes) buf) in
    let stored : store buf 0 bytes ≡ some (bytes ++ back) = store_in buf 0 bytes (omega arith) in
    let ended = store_in (bytes ++ back) (length bytes) (0 ∷ []) (omega (arith, size)) in
    rw (stored, ◌>>=◌, ended, ◌>>=◌, take-append bytes back) (c_string-until bytes _)

-- With an array of 1024 bytes and reads of at most 1023, `request` never leaves the array. It writes
-- for each read, until the connection ends, the bytes before the first NUL of that read, and it has
-- returned exactly if there was an end.
pub request-until :
    (bufs : ℕ → List ℕ) (rs : List Read)
    → ((n : ℕ) → length (bufs n) ≡ 1024)
    → Fits rs
    → request bufs rs ≡ some (map (until 0) (arrived rs), has_end rs)
unfolding request
request-until bufs [] room fits = refl
request-until bufs (received b bs ∷ rs) room fits = rw (
  echo-until (bufs 0) (b ∷ bs) (room 0) fits.0,
  request-until (λ n. bufs (suc n)) rs (λ n. room (suc n)) fits.1,
  ◌>>=◌,
)
request-until bufs (closed ∷ rs) room fits = refl
request-until bufs (failed ∷ rs) room fits = refl
