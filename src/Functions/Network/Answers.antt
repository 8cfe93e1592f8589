-- ===== src/Functions/Network/Answers.antt =====
-- A request for an interface's address, and its reply.
use instruction_parser.Prelude.{
  ℕ, ◌+◌, ◌-◌, ◌%◌, ◌≤◌, ◌<◌, ◌≡◌, refl, sym, ap, ◌∙◌, pos, true, false, some, ◌>>=◌, List, [], ◌∷◌,
  ◌++◌, append_assoc, length, length-append, length-replicate, drop, replicate, ltb, arith,
}
use instruction_parser.Strings.{store, strcpy}
use instruction_parser.Strings.Laws.{Free, c_string_lem, store_in}
use instruction_parser.Handle.{decimal}
use instruction_parser.Functions.Network.Requests.{
  Net, NetState, byte_of, ifr_name, ip_to_hex_str, copy_ip, get_ip, get_device_ip, name_len,
  do_get_device_ip, get_ip_reply,
}
use instruction_parser.Functions.Network.Dotted.{
  copied_exactly, put_octets_lem, dotted, tokens-dotted, ifr_name-padded, strcpy_front,
  length-dotted, dotted-Free, zeros, drop-zeros, more_zeros,
}

pub length-padded : (name : List ℕ) → length name ≤ 6 → length (name ++ zeros (6 - length name)) ≡ 6
length-padded name short =
    length-append name (zeros (6 - length name))
    ∙ omega (arith, length-replicate {A = ℕ} (6 - length name) 0)

module _ {E : Type 0} where
  -- The static variables after a request for the interface `name`, which has the address `a.b.c.d`.
  abbrev pub found_ip : List ℕ → ℕ → ℕ → ℕ → ℕ → NetState E → E → NetState E
  found_ip name a b c d s e = record s {
    ip_info = (name ++ zeros (6 - length name)) ++ a ∷ b ∷ c ∷ d ∷ [];
    flag = 0;
    outside = e;
  }

  -- The reply is the name, padded with NULs to six bytes, and the four bytes of the address.
  pub get_ip_reply-found :
      (name reply : List ℕ) (a b c d : ℕ) (s : NetState E) (e : E)
      → length name ≤ 6
      → 10 ≤ length reply
      → get_ip_reply reply (found_ip name a b c d s e)
        ≡ some (
          pos 10,
          (name ++ zeros (6 - length name)) ++ a ∷ b ∷ c ∷ d ∷ drop 10 reply,
          found_ip name a b c d s e,
        )
  unfolding get_ip_reply
  get_ip_reply-found name reply a b c d s e short room =
      let front : List ℕ = name ++ zeros (6 - length name) in
      let ten : length (front ++ a ∷ b ∷ c ∷ d ∷ []) ≡ 10 =
        length-append front (a ∷ b ∷ c ∷ d ∷ []) ∙ omega (arith, length-padded name short) in
      let width : 0 + length (front ++ a ∷ b ∷ c ∷ d ∷ []) ≡ 10 = omega arith in
      let stored : store reply 0 (front ++ a ∷ b ∷ c ∷ d ∷ [])
          ≡ some (front ++ a ∷ b ∷ c ∷ d ∷ drop 10 reply) =
        store_in reply 0 (front ++ a ∷ b ∷ c ∷ d ∷ []) (omega arith)
        ∙ ap some (append_assoc front (a ∷ b ∷ c ∷ d ∷ []) _)
        ∙ ap (λ n. some (front ++ a ∷ b ∷ c ∷ d ∷ drop n reply)) width in
      rw (stored, ◌>>=◌)

module _ {E : Type 0} (net : Net E)
    (prints : (a b c d : ℕ)
      → a < 256
      → b < 256
      → c < 256
      → d < 256
      → net.inet_ntoa (a ∷ b ∷ c ∷ d ∷ []) ≡ dotted a b c d)
    (reads : (n : ℕ) → n < 256 → net.atoi (decimal n) ≡ pos n) where
  -- A printed address comes back as its four bytes.
  octets_back :
      (front xs tail : List ℕ) (a b c d : ℕ)
      → length front ≡ 6
      → length xs ≡ 4
      → a < 256
      → b < 256
      → c < 256
      → d < 256
      → ip_to_hex_str net.atoi (dotted a b c d ++ 0 ∷ tail) (front ++ xs) 6
        ≡ some (front ++ a ∷ b ∷ c ∷ d ∷ [])
  unfolding ip_to_hex_str
  octets_back front xs tail a b c d six four ha hb hc hd =
      let octet = λ (n : ℕ) (h : n < 256). ap byte_of (reads n h) ∙ small n h in
      rw
        (
          c_string_lem (dotted a b c d) tail (dotted-Free a b c d),
          ◌>>=◌,
          tokens-dotted a b c d,
          ← six,
        )
        (put_octets_lem net.atoi front xs (decimal a ∷ decimal b ∷ decimal c ∷ decimal d ∷ []) four
          ∙ rw (octet a ha, octet b hb, octet c hc, octet d hd))
    where
      small : (n : ℕ) → n < 256 → n % 256 ≡ n
      small n h = omega arith

  -- If the kernel knows an address for the interface that a binary request names, in at most six bytes
  -- without a NUL, the request returns 0 and keeps the name and the bytes of the address.
  pub do_get_device_ip-found :
      (name more : List ℕ) (a b c d : ℕ) (s : NetState E) (e : E)
      → Free 0 name
      → length name ≤ 6
      → net.open_socket s.outside ≡ (true, e)
      → net.get_if_addr name e ≡ some (a ∷ b ∷ c ∷ d ∷ [])
      → a < 256
      → b < 256
      → c < 256
      → d < 256
      → do_get_device_ip net (name ++ more) (length name) s
        ≡ some (pos 0, found_ip name a b c d s e)
  unfolding do_get_device_ip get_device_ip get_ip copy_ip name_len
  do_get_device_ip-found name more a b c d s e free short opened found ha hb hc hd =
      let front : List ℕ = name ++ zeros (6 - length name) in
      let all : ltb 6 (length name) ≡ false = ground arith in
      let shifted : drop (0 + length name) (zeros 10) ≡ drop (length name) (zeros 6 ++ zeros 4) =
        ap (λ n. drop n (zeros 10)) (omega arith) in
      let info : store (zeros 10) 0 name ≡ some (front ++ zeros 4) =
        store_in (zeros 10) 0 name (omega arith)
        ∙ ap (λ t. some (name ++ t)) (shifted ∙ drop-zeros 6 (length name) (zeros 4) short)
        ∙ ap some (sym (append_assoc name (zeros (6 - length name)) (zeros 4))) in
      let named : ifr_name (front ++ zeros 4) ≡ some name =
        ap ifr_name (
          append_assoc name (zeros (6 - length name)) (zeros 4)
          ∙ ap (λ t. name ++ t) (more_zeros (6 - length name) 3))
        ∙ ifr_name-padded name (6 - length name + 3) free (omega arith) in
      let printed : strcpy (zeros 32) 0 (dotted a b c d)
          ≡ some (dotted a b c d ++ 0 ∷ drop (length (dotted a b c d) + 1) (zeros 32)) =
        strcpy_front (zeros 32) (dotted a b c d)
          (omega (arith, length-dotted a b c d ha hb hc hd)) in
      let left : (net.open_socket s.outside).1 ≡ e = ap (λ p. p.1) opened in
      let octets =
        octets_back front (zeros 4) (drop (length (dotted a b c d) + 1) (zeros 32)) a b c d
          (length-padded name short) refl ha hb hc hd in
      rw (
        all,
        copied_exactly name more free,
        ◌>>=◌,
        info,
        ◌>>=◌,
        opened,
        named,
        ◌>>=◌,
        found,
        prints a b c d ha hb hc hd,
        printed,
        ◌>>=◌,
        octets,
        ◌>>=◌,
        left,
      )

  -- If the kernel knows an address for the interface that a binary request names, in at most six bytes
  -- without a NUL, the request returns 0 and the reply is the name, padded with NULs to six bytes,
  -- and the four bytes of the address. `inet_ntoa` prints dotted decimals, and `atoi` reads decimals.
  pub get_ip_reply-do_get_device_ip :
      (name more reply : List ℕ) (a b c d : ℕ) (s : NetState E) (e : E)
      → Free 0 name
      → length name ≤ 6
      → net.open_socket s.outside ≡ (true, e)
      → net.get_if_addr name e ≡ some (a ∷ b ∷ c ∷ d ∷ [])
      → a < 256
      → b < 256
      → c < 256
      → d < 256
      → 10 ≤ length reply
      → (s' : NetState E) × (do_get_device_ip net (name ++ more) (length name) s ≡ some (pos 0, s'))
        × (get_ip_reply reply s'
            ≡ some (
              pos 10,
              (name ++ replicate (6 - length name) 0) ++ a ∷ b ∷ c ∷ d ∷ drop 10 reply,
              s',
            ))
  get_ip_reply-do_get_device_ip name more reply a b c d s e free short opened found ha hb hc hd
        room =
      (
        found_ip name a b c d s e,
        do_get_device_ip-found name more a b c d s e free short opened found ha hb hc hd,
        get_ip_reply-found name reply a b c d s e short room,
      )
