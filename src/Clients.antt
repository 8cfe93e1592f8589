-- ===== src/Clients.antt =====
-- tcp_server/op_epoll.c: the list of connected clients, and what `op_read` and `op_write` do to it.
-- `none` is an access outside the array.
pub mod Live
pub mod Shift
use instruction_parser.Prelude.{
  ℕ, zero, suc, ◌+◌, ◌-◌, ℤ, pos, negsuc, Bool, true, false, Option, none, some, ◌>>=◌, List,
  get_elem?, set, length, ltb, ◌==◌, if◌then◌else◌,
}

-- `clientmember`
pub record ClientMember : Type 0 where
  pub fd : ℕ
  pub ip : List ℕ

-- `clilist_t`; `tailindex` is an `int`.
pub record CliList : Type 0 where
  pub clilist : List ClientMember
  pub tailindex : ℤ

abbrev pub max_connect : ℕ
max_connect = 256

abbrev pub decrement : ℤ → ℤ
decrement (pos zero) = negsuc 0
decrement (pos (suc n)) = pos n
decrement (negsuc n) = negsuc (suc n)

-- The result is the new `tailindex`.
unfoldable pub add_clilist : ClientMember → CliList → Option (ℤ × CliList)
add_clilist cli l = elim l.tailindex [
  | pos n ↦
      if ltb n (length l.clilist)
      then some (pos (suc n), record { clilist = set l.clilist n cli; tailindex = pos (suc n) })
      else none
  | negsuc n ↦ none
]

-- The loop over `j`, for `k` rounds.
unfoldable pub shift_left : ℕ → ℕ → List ClientMember → Option (List ClientMember)
shift_left zero j xs = some xs
shift_left (suc k) j xs = get_elem? xs (suc j) >>= λ y. shift_left k (suc j) (set xs j y)

-- The loop over `i`, for `k` rounds, with `i + k` the `tailindex`. It goes on after a hit.
unfoldable pub remove_fd : ℕ → ℕ → ℕ → List ClientMember → Option (List ClientMember)
remove_fd fd zero i xs = some xs
remove_fd fd (suc k) i xs = get_elem? xs i >>= λ c.
    (if c.fd == fd then shift_left k i xs else some xs) >>= λ xs'. remove_fd fd k (suc i) xs'

-- The result is the new `tailindex`, one less whether or not the client was there.
unfoldable pub del_clilist : ℕ → CliList → Option (ℤ × CliList)
del_clilist fd l = do
  xs ← elim l.tailindex [ pos n ↦ remove_fd fd n 0 l.clilist | negsuc n ↦ some l.clilist ]
  let t = decrement l.tailindex
  some (t, record { clilist = xs; tailindex = t })

-- `op_read` and `op_write`, once `read` or `write` has returned `n`. `again` is `errno == EAGAIN`. The
-- connection also leaves the epoll set where the client leaves the list.
unfoldable pub op_read : Bool → ℤ → ℕ → CliList → Option (ℤ × CliList)
op_read again (pos (suc n)) fd l = some (pos (suc n), l)
op_read again (pos zero) fd l = do (t, l') ← del_clilist fd l; some (negsuc 1, l')
op_read true (negsuc n) fd l = some (negsuc 0, l)
op_read false (negsuc n) fd l = do (t, l') ← del_clilist fd l; some (negsuc 2, l')

unfoldable pub op_write : Bool → ℤ → ℕ → CliList → Option (ℤ × CliList)
op_write = op_read
