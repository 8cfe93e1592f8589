-- ===== src/Functions/Network/Requests.antt =====
-- functions/network.c: the requests for an interface's address. The calls of the kernel and of the C
-- library on addresses are parameters; `none` is an access out of bounds.
use instruction_parser.Prelude.{
  ℕ, suc, ◌-◌, ◌%◌, ◌^◌, ℤ, pos, negsuc, is_nonzero, Bool, true, false, not, ◌&&◌, Option, none,
  some, ◌>>=◌, List, [], ◌∷◌, ◌++◌, length, drop, replicate, ltb, ◌==◌, if◌then◌else◌,
}
use instruction_parser.Strings.{c_string, store, strcpy, strncpy_bytes, tokens}
use instruction_parser.Functions.Network.{cut, out_of_range, check_right_ip}

-- `socket`, the three `ioctl` requests by the interface's name, and three functions on addresses. An
-- address is its four bytes; a call that fails returns `false` or `none`.
pub record Net (E : Type 0) : Type 0 where
  pub open_socket : E → Bool × E
  pub get_if_addr : List ℕ → E → Option (List ℕ)
  pub set_if_addr : List ℕ → List ℕ → E → Bool × E
  pub set_if_flags : List ℕ → E → Bool × E
  pub inet_ntoa : List ℕ → List ℕ
  pub inet_addr : List ℕ → List ℕ
  pub atoi : List ℕ → ℤ

-- The static variables: `T_IPInfo` is `name[6]` and `ipaddr[4]`, `T_IPInfo_Text` is `name[6]` and
-- `ipaddr[16]`, each as one piece of memory.
pub record NetState (E : Type 0) : Type 0 where
  pub ip_info : List ℕ
  pub ip_info_text : List ℕ
  pub flag : ℕ
  pub outside : E

abbrev pub no_dev : ℤ
no_dev = negsuc 21

abbrev pub err_params : ℤ
err_params = negsuc 22

abbrev pub no_mem : ℤ
no_mem = negsuc 23

abbrev pub dot : ℕ
dot = b'.'

-- `(unsigned char)` of an `int`.
abbrev pub byte_of : ℤ → ℕ
byte_of (pos n) = n % 2 ^ 8
byte_of (negsuc n) = 255 - n % 2 ^ 8

-- The name in a request: `strncpy(ifr_name, device, 15)` and the NUL behind it.
unfoldable pub ifr_name : List ℕ → Option (List ℕ)
ifr_name device = do bytes ← strncpy_bytes 15 device; c_string (bytes ++ 0 ∷ [])

-- The loop of `ip_to_hex_str`, which writes one byte for each token.
unfoldable pub put_octets : (List ℕ → ℤ) → List ℕ → ℕ → List (List ℕ) → Option (List ℕ)
put_octets atoi mem i [] = some mem
put_octets atoi mem i (t ∷ ts) =
    store mem i (byte_of (atoi t) ∷ []) >>= λ mem'. put_octets atoi mem' (suc i) ts

-- `ip_to_hex_str(ip, mem + off)`; `ip` is not used again.
unfoldable pub ip_to_hex_str : (List ℕ → ℤ) → List ℕ → List ℕ → ℕ → Option (List ℕ)
ip_to_hex_str atoi ip mem off = do s ← c_string ip; put_octets atoi mem off (tokens dot s)

-- What `strtok` makes of its string: the first NUL alone, and all of them.
unfoldable pub end_token : ℕ → List ℕ → List ℕ
end_token d [] = []
end_token d (c ∷ cs) = let rest = end_token d cs in if c == d then 0 ∷ cs else c ∷ rest

unfoldable pub end_first : ℕ → List ℕ → List ℕ
unfolding end_token
end_first d [] = []
end_first d (c ∷ cs) = let rest = end_first d cs in if c == d then c ∷ rest else c ∷ end_token d cs

-- The Boolean tells whether a token is open.
unfoldable pub end_all : ℕ → Bool → List ℕ → List ℕ
end_all d open_token [] = []
end_all d open_token (c ∷ cs) =
    (if c == d && open_token then 0 else c) ∷ end_all d (not (c == d)) cs

-- The string after `check_right_ip`, which leaves its loop after one token if the number is bad.
unfoldable pub after_check : (List ℕ → ℤ) → List ℕ → List ℕ
after_check atoi s =
    if out_of_range (atoi (cut dot s)) then end_first dot s else end_all dot false s

-- The name of a binary request: at most six of its `len` bytes.
unfoldable pub name_len : ℕ → ℕ
name_len len = if ltb 6 len then 6 else len

module _ {E : Type 0} (net : Net E) where
  -- `get_ip` once the socket is open.
  unfoldable pub copy_ip : List ℕ → List ℕ → ℕ → E → Option (Bool × List ℕ × E)
  unfolding ifr_name
  copy_ip device mem off e = do
    name ← ifr_name device
    elim (net.get_if_addr name e) [
      | none ↦ some (false, mem, e)
      | some addr ↦ strcpy mem off (net.inet_ntoa addr) >>= λ mem'. some (true, mem', e)
    ]

  -- `get_ip(device, mem + off)`; the Boolean is whether the result is not NULL.
  unfoldable pub get_ip : List ℕ → List ℕ → ℕ → E → Option (Bool × List ℕ × E)
  unfolding copy_ip
  get_ip device mem off e =
      let (ok, e') = net.open_socket e in
      if ok then copy_ip device mem off e' else some (false, mem, e')

  unfoldable pub get_device_ip : List ℕ → List ℕ → ℕ → E → Option (ℤ × List ℕ × E)
  unfolding get_ip
  get_device_ip device mem off e = do
    (ok, mem', e') ← get_ip device mem off e
    some (if ok then pos 0 else no_dev, mem', e')

  -- `set_hand_ip` once the socket is open. `inet_addr` reads `block` up to a NUL.
  unfoldable pub set_if : List ℕ → List ℕ → E → Option (ℤ × E)
  unfolding ifr_name
  set_if device block e = do
    name ← ifr_name device
    text ← c_string block
    let (ok, e1) = net.set_if_addr name (net.inet_addr text) e
    let (ok', e2) = net.set_if_flags name e1
    some (if ok then (if ok' then (pos 0, e2) else (negsuc 0, e2)) else (err_params, e1))

  unfoldable pub set_hand_ip : List ℕ → List ℕ → E → Option (ℤ × E)
  unfolding set_if
  set_hand_ip device block e =
      let (ok, e') = net.open_socket e in if ok then set_if device block e' else some (negsuc 0, e')

  -- `set_device_ip(info, info + off)`: both strings of its callers are in one structure. `memory` is
  -- whether `malloc` succeeds; the block has `strlen` bytes, and no NUL is put there.
  unfoldable pub set_device_ip : Bool → List ℕ → ℕ → E → Option (ℤ × List ℕ × E)
  unfolding set_hand_ip
  set_device_ip false info off e = some (no_mem, info, e)
  set_device_ip true info off e = do
    s ← c_string (drop off info)
    info' ← store info off (after_check net.atoi s)
    if is_nonzero (check_right_ip net.atoi s)
        then some (err_params, info', e)
        else (set_hand_ip info' s e >>= λ r. some (r.0, info', r.1))

  unfoldable pub do_get_device_ip : List ℕ → ℕ → NetState E → Option (ℤ × NetState E)
  unfolding get_device_ip name_len
  do_get_device_ip mem len d = do
    name ← strncpy_bytes (name_len len) mem
    info ← store (replicate 10 0) 0 name
    (ret, ip, e) ← get_device_ip info (replicate 32 0) 0 d.outside
    if is_nonzero ret
        then some (ret, record d { ip_info = info; outside = e })
        else (ip_to_hex_str net.atoi ip info 6 >>= λ info'.
            some (pos 0, record d { ip_info = info'; flag = 0; outside = e }))

  -- `args` is the memory from `cmd_data[0]` on.
  unfoldable pub do_text_get_device_ip : List ℕ → NetState E → Option (ℤ × NetState E)
  unfolding get_device_ip
  do_text_get_device_ip args d = do
    name ← c_string args
    info ← store (replicate 22 0) 0 name
    (ret, info', e) ← get_device_ip info info 6 d.outside
    some (
        if is_nonzero ret
        then (ret, record d { ip_info_text = info'; outside = e })
        else (pos 0, record d { ip_info_text = info'; flag = 1; outside = e }))

  unfoldable pub do_set_device_ip : Bool → List ℕ → ℕ → NetState E → Option (ℤ × NetState E)
  unfolding set_device_ip name_len
  do_set_device_ip memory mem len d = do
    name ← strncpy_bytes (name_len len) mem
    info ← store (replicate 10 0) 0 name
    addr ← strncpy_bytes (len - name_len len) (drop (name_len len) mem)
    info' ← store info 6 addr
    (ret, info'', e) ← set_device_ip memory info' 6 d.outside
    some (ret, record d { ip_info = info''; outside = e })

  -- The structure here is a local variable.
  unfoldable pub do_text_set_device_ip : Bool → List ℕ → NetState E → Option (ℤ × NetState E)
  unfolding set_device_ip
  do_text_set_device_ip memory args d = do
    name ← c_string args
    info ← store (replicate 22 0) 0 name
    addr ← c_string (drop 64 args)
    info' ← store info 6 addr
    (ret, info'', e) ← set_device_ip memory info' 6 d.outside
    some (ret, record d { outside = e })

module _ {E : Type 0} where
  unfoldable pub get_ip_reply : List ℕ → NetState E → Option (ℤ × List ℕ × NetState E)
  get_ip_reply reply d =
      if d.flag == 0 then (store reply 0 d.ip_info >>= λ r. some (pos 10, r, d)) else (do
        name ← c_string d.ip_info_text
        addr ← c_string (drop 6 d.ip_info_text)
        let line = name ++ b':' ∷ addr
        r ← strcpy reply 0 line
        some (pos (length line), r, d))
