-- ===== src/Functions/Network/Failures.antt =====
-- What goes wrong when an address is set.
use instruction_parser.Prelude.{
  ℕ, zero, suc, ◌+◌, ◌-◌, ◌<◌, ◌≡◌, refl, ap, ◌∙◌, pos, negsuc, Bool, true, Bool-cases, none, some,
  ◌>>=◌, >>=-eq-some, >>=-none, inl, inr, List, [], ◌∷◌, ◌++◌, length, length-replicate, drop,
  replicate, ◌==◌, if◌then◌else◌, arith, dec_le,
}
use instruction_parser.Strings.{c_string, store, strncpy_bytes}
use instruction_parser.Strings.Laws.{Free, c_string_lem, store_out, fetch-store}
use instruction_parser.Functions.Network.{check_right_ip}
use instruction_parser.Functions.Network.Requests.{
  Net, NetState, err_params, ifr_name, after_check, set_if, set_hand_ip, set_device_ip, name_len,
  do_set_device_ip,
}

-- A string has no NUL in it,
c_string-Free : (mem s : List ℕ) → c_string mem ≡ some s → Free 0 s
unfolding c_string
c_string-Free [] s e = cc
c_string-Free (c ∷ mem) s e = elim (Bool-cases (c == 0)) [
  | inl z ↦ let h : s ≡ [] = ground arith in rw h tt
  | inr z ↦
      let (t, read, h) = >>=-eq-some (c_string mem) (λ t. some (c ∷ t)) (rw z at e) in
      let shape : s ≡ c ∷ t = cc in rw shape (ground arith, c_string-Free mem t read)
]

-- so a block of its bytes alone is no string.
unended : (s : List ℕ) → Free 0 s → c_string s ≡ none
unfolding c_string
unended [] f = refl
unended (c ∷ s) f = ground (arith, unended s f.1)

pub length-strncpy_bytes : (n : ℕ) (mem bs : List ℕ) → strncpy_bytes n mem ≡ some bs → length bs ≡ n
unfolding strncpy_bytes
length-strncpy_bytes zero mem bs e = ground arith
length-strncpy_bytes (suc n) [] bs e = cc
length-strncpy_bytes (suc n) (c ∷ mem) bs e = elim (Bool-cases (c == 0)) [
  | inl z ↦
      let h : bs ≡ replicate (suc n) 0 = ground arith in ap length h ∙ length-replicate (suc n) 0
  | inr z ↦
      let (t, read, h) = >>=-eq-some (strncpy_bytes n mem) (λ t. some (c ∷ t)) (rw z at e) in
      let shape : bs ≡ c ∷ t = cc in ap length shape ∙ ap suc (length-strncpy_bytes n mem t read)
]

length-store :
    (mem mem' : List ℕ) (off : ℕ) (bs : List ℕ)
    → store mem off bs ≡ some mem'
    → length mem' ≡ length mem
length-store mem mem' off bs h = elim (dec_le (off + length bs) (length mem)) [
  | yes fits ↦
      let (out, e, read, front, size) = fetch-store mem off bs fits in
      let same : mem' ≡ out = cc in ap length same ∙ size
  | no long ↦ let e = store_out mem off bs (omega arith) in cc
]

module _ {E : Type 0} (net : Net E) where
  set_if-unended : (device s : List ℕ) (e : E) → Free 0 s → set_if net device s e ≡ none
  unfolding set_if
  set_if-unended device s e f = rw (unended s f) (>>=-none (ifr_name device) _ (λ name read. refl))

  -- So the new address is never read to its end: the call fails before that, or is undefined.
  set_hand_ip-unended :
      (device s : List ℕ) (e : E)
      → Free 0 s
      → set_hand_ip net device s e
        ≡ (let (ok, e') = net.open_socket e in if ok then none else some (negsuc 0, e'))
  unfolding set_hand_ip
  set_hand_ip-unended device s e f = rw (set_if-unended device s (net.open_socket e).1 f)

  -- With a NUL behind the address, all is read, and the two `ioctl` calls give the result.
  set_hand_ip-ended :
      (device s name : List ℕ) (e e0 e1 e2 : E) (ok ok' : Bool)
      → Free 0 s
      → ifr_name device ≡ some name
      → net.open_socket e ≡ (true, e0)
      → net.set_if_addr name (net.inet_addr s) e0 ≡ (ok, e1)
      → net.set_if_flags name e1 ≡ (ok', e2)
      → set_hand_ip net device (s ++ 0 ∷ []) e
        ≡ some (if ok then (if ok' then (pos 0, e2) else (negsuc 0, e2)) else (err_params, e1))
  unfolding set_hand_ip set_if
  set_hand_ip-ended device s name e e0 e1 e2 ok ok' f named opened set up =
      rw (opened, named, ◌>>=◌, c_string_lem s [] f, ◌>>=◌, set, up)

  -- Let `check_right_ip` accept an address, the socket open and `malloc` succeed. Then
  -- `set_device_ip` has the address read beyond the end of the block that it has made for it. The
  -- NUL that it leaves out is all that is missing: on a block that ends with it, `set_hand_ip` with a
  -- device of that name sets this address, and its result is 0 if both `ioctl` calls succeed, -1 if
  -- only that for the flags fails, and -ERR_PARAMS if that for the address fails.
  pub set_device_ip-overreads :
      (info device s name : List ℕ) (off : ℕ) (e e0 e1 e2 : E) (ok ok' : Bool)
      → c_string (drop off info) ≡ some s
      → check_right_ip net.atoi s ≡ pos 0
      → ifr_name device ≡ some name
      → net.open_socket e ≡ (true, e0)
      → net.set_if_addr name (net.inet_addr s) e0 ≡ (ok, e1)
      → net.set_if_flags name e1 ≡ (ok', e2)
      → (set_device_ip net true info off e ≡ none)
        × (set_hand_ip net device (s ++ 0 ∷ []) e
            ≡ some (if ok then (if ok' then (pos 0, e2) else (negsuc 0, e2)) else (err_params, e1)))
  unfolding set_device_ip
  set_device_ip-overreads info device s name off e e0 e1 e2 ok ok' read good named opened set up = (
    rw (read, ◌>>=◌)
        (>>=-none (store info off (after_check net.atoi s)) _ (λ info1 stored.
          rw (good, set_hand_ip-unended info1 s e (c_string-Free _ s read), opened))),
    set_hand_ip-ended device s name e e0 e1 e2 ok ok' (c_string-Free _ s read) named opened set up,
  )

  -- A binary request of more than ten bytes is copied beyond the end of `ip_info`.
  pub do_set_device_ip-overflows :
      (memory : Bool) (mem : List ℕ) (len : ℕ) (d : NetState E)
      → 10 < len
      → do_set_device_ip net memory mem len d ≡ none
  unfolding do_set_device_ip
  do_set_device_ip-overflows memory mem len d long =
      >>=-none (strncpy_bytes (name_len len) mem) _ (λ name named.
        >>=-none (store (replicate 10 0) 0 name) _ (λ info stored.
          >>=-none (strncpy_bytes (len - name_len len) (drop (name_len len) mem)) _ (λ addr copied.
            let six : name_len len ≡ 6 = unfold name_len in ground arith in
            let size : length addr ≡ len - 6 =
              length-strncpy_bytes (len - name_len len) _ addr copied ∙ ap (λ t. len - t) six in
            let room : length info ≡ 10 =
              length-store (replicate 10 0) info 0 name stored ∙ length-replicate {A = ℕ} 10 0 in
            rw (store_out info 6 addr (omega arith), ◌>>=◌))))
