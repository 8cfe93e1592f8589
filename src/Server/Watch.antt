-- ===== src/Server/Watch.antt =====
-- The epoll set: which descriptors `start_server` puts there, and which `op_read` and `op_write` take
-- out. What `epoll_ctl` does is outside.
pub mod Listed
pub mod Watched
use instruction_parser.Prelude.{
  ℕ, zero, suc, bit_or, ◌≡◌, ◌≢◌, ℤ, pos, negsuc, Bool, true, false, Option, none, some, ◌>>=◌,
  Option-cases, inl, inr, refl,
}
use instruction_parser.Clients.{ClientMember, CliList, add_clilist, del_clilist, op_read}
use instruction_parser.Server.{Fits}

-- `epoll_ctl` with `EPOLL_CTL_ADD` and `EPOLL_CTL_DEL`, and whether the set holds a descriptor.
pub record Epoll (E : Type 0) : Type 0 where
  pub ctl_add : ℕ → E → E
  pub ctl_del : ℕ → E → E
  pub watches : E → ℕ → Bool

-- `set_nonblocking`, for what `fcntl` gives with `F_GETFL`: the flags that it sets, if it does.
unfoldable pub set_nonblocking : ℕ → ℤ → Option ℕ
set_nonblocking o_nonblock (pos opts) = some (bit_or opts o_nonblock)
set_nonblocking o_nonblock (negsuc n) = none

-- The client list and the epoll set.
pub record Connections (E : Type 0) : Type 0 where
  pub clients : CliList
  pub epoll : E

module _ {E : Type 0} (k : Epoll E) where
  unfoldable pub op_delete_event : ℕ → Connections E → Connections E
  op_delete_event fd s = record s { epoll = k.ctl_del fd s.epoll }

  -- What `start_server` does before its loop.
  unfoldable pub watch_listener : ℕ → Connections E → Connections E
  watch_listener listenfd s = record s { epoll = k.ctl_add listenfd s.epoll }

  -- A client that `accept` gave.
  unfoldable pub connect : ClientMember → Connections E → Option (Connections E)
  connect cli s = do
    (t, l) ← add_clilist cli s.clients
    some (record { clients = l; epoll = k.ctl_add cli.fd s.epoll })

  -- The lines that end a connection.
  unfoldable pub disconnect : ℕ → Connections E → Option (Connections E)
  unfolding op_delete_event
  disconnect fd s = do
    (t, l) ← del_clilist fd s.clients
    some (record (op_delete_event fd s) { clients = l })

  -- `op_read`, and `op_write`, once `read` or `write` has returned `n`.
  unfoldable pub transfer : Bool → ℤ → ℕ → Connections E → Option (ℤ × Connections E)
  transfer again (pos (suc n)) fd s = some (pos (suc n), s)
  transfer again (pos zero) fd s = do t ← disconnect fd s; some (negsuc 1, t)
  transfer true (negsuc n) fd s = some (negsuc 0, s)
  transfer false (negsuc n) fd s = do t ← disconnect fd s; some (negsuc 2, t)

  -- `accept` gives a descriptor that is not in use; `epoll_wait` reports one that is watched. The client
  -- list has an entry for an arrival, which the code does not test.
  pub data Move (listenfd : ℕ) : Connections E → Connections E → Type 0 where
    arrive :
        {s t : Connections E} (cli : ClientMember)
        → k.watches s.epoll cli.fd ≡ false
        → Fits 1 s.clients.tailindex
        → connect cli s ≡ some t
        → Move listenfd s t
    moved :
        {s t : Connections E} (again : Bool) (n ret : ℤ) (fd : ℕ)
        → k.watches s.epoll fd ≡ true
        → fd ≢ listenfd
        → transfer again n fd s ≡ some (ret, t)
        → Move listenfd s t

  pub data Moves (listenfd : ℕ) (s : Connections E) : Connections E → Type 0 where
    here : Moves listenfd s s
    next : {t u : Connections E} → Moves listenfd s t → Move listenfd t u → Moves listenfd s u

  -- The client list goes through `op_read`.
  transfer-op_read :
      (again : Bool) (n : ℤ) (fd : ℕ) (s : Connections E)
      → (transfer again n fd s >>= λ r. some (r.0, r.1.clients)) ≡ op_read again n fd s.clients
  unfolding transfer disconnect op_delete_event op_read
  transfer-op_read again (pos (suc n)) fd s = refl
  transfer-op_read again (pos zero) fd s = elim (Option-cases (del_clilist fd s.clients)) [
    | inl e ↦ rw (e, ◌>>=◌)
    | inr (r, e) ↦ rw (e, ◌>>=◌)
  ]
  transfer-op_read true (negsuc n) fd s = refl
  transfer-op_read false (negsuc n) fd s = elim (Option-cases (del_clilist fd s.clients)) [
    | inl e ↦ rw (e, ◌>>=◌)
    | inr (r, e) ↦ rw (e, ◌>>=◌)
  ]
