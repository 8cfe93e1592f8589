-- ===== src/Functions/Network/TextAnswers.antt =====
-- A text request for an interface's address, and its reply.
use instruction_parser.Prelude.{
  ℕ, suc, ◌+◌, ◌-◌, ◌≤◌, ◌<◌, ◌≡◌, sym, ap, ap₂, ◌∙◌, pos, true, some, ◌>>=◌, List, [], ◌∷◌, ◌++◌,
  append_assoc, length, length-append, drop, arith,
}
use instruction_parser.Strings.{store, strcpy, c_string}
use instruction_parser.Strings.Laws.{
  Free, c_string_lem, store_in, take_at, drop_at, drop-append_more,
}
use instruction_parser.Functions.Network.Requests.{
  Net, NetState, ifr_name, copy_ip, get_ip, get_device_ip, do_text_get_device_ip, get_ip_reply,
}
use instruction_parser.Functions.Network.Dotted.{
  dotted, ifr_name-padded, strcpy_front, length-dotted, dotted-Free, zeros, drop-zeros, more_zeros,
}
use instruction_parser.Functions.Network.Answers.{length-padded}

-- `ip_info_text` with a name and an address.
abbrev pub text_info : List ℕ → ℕ → ℕ → ℕ → ℕ → List ℕ
text_info name a b c d =
    (name ++ zeros (6 - length name))
    ++ (dotted a b c d ++ 0 ∷ drop (length (dotted a b c d) + 1) (zeros 16))

strcpy_behind :
    (front mem s : List ℕ) (n : ℕ)
    → length front ≡ n
    → length s + 1 ≤ length mem
    → strcpy (front ++ mem) n s ≡ some (front ++ (s ++ 0 ∷ drop (length s + 1) mem))
unfolding strcpy
strcpy_behind front mem s n e h =
    let one : length (s ++ 0 ∷ []) ≡ length s + 1 = length-append s (0 ∷ []) in
    let there : n + length (s ++ 0 ∷ []) ≡ length front + (length s + 1) = omega arith in
    store_in (front ++ mem) n (s ++ 0 ∷ []) (omega (arith, length-append front mem))
    ∙ ap₂ (λ u v. some (u ++ ((s ++ 0 ∷ []) ++ v))) (take_at n front mem e)
        (ap (λ m. drop m (front ++ mem)) there ∙ drop-append_more front mem (length s + 1))
    ∙ ap (λ t. some (front ++ t)) (append_assoc s (0 ∷ []) (drop (length s + 1) mem))

-- The name ends in the six bytes, and the address in the sixteen.
text_info-name :
    (name : List ℕ) (a b c d : ℕ)
    → Free 0 name
    → length name ≤ 5
    → c_string (text_info name a b c d) ≡ some name
text_info-name name a b c d f h =
    let address : List ℕ = dotted a b c d ++ 0 ∷ drop (length (dotted a b c d) + 1) (zeros 16) in
    let more : 6 - length name ≡ suc (5 - length name) = omega arith in
    ap c_string (
      append_assoc name (zeros (6 - length name)) address
      ∙ ap (λ m. name ++ (zeros m ++ address)) more)
    ∙ c_string_lem name (zeros (5 - length name) ++ address) f

text_info-address :
    (name : List ℕ) (a b c d : ℕ)
    → length name ≤ 5
    → c_string (drop 6 (text_info name a b c d)) ≡ some (dotted a b c d)
text_info-address name a b c d h =
    ap c_string (drop_at 6 (name ++ zeros (6 - length name)) _ (length-padded name (omega arith)))
    ∙ c_string_lem (dotted a b c d) _ (dotted-Free a b c d)

module _ {E : Type 0} where
  abbrev pub found_text : List ℕ → ℕ → ℕ → ℕ → ℕ → NetState E → E → NetState E
  found_text name a b c d s e = record s {
    ip_info_text = text_info name a b c d;
    flag = 1;
    outside = e;
  }

  -- The reply is `name:a.b.c.d`.
  pub get_ip_reply-text :
      (name reply : List ℕ) (a b c d : ℕ) (s : NetState E) (e : E)
      → Free 0 name
      → length name ≤ 5
      → length (name ++ b':' ∷ dotted a b c d) < length reply
      → get_ip_reply reply (found_text name a b c d s e)
        ≡ some (
          pos (length (name ++ b':' ∷ dotted a b c d)),
          (name ++ b':' ∷ dotted a b c d)
              ++ 0 ∷ drop (length (name ++ b':' ∷ dotted a b c d) + 1) reply,
          found_text name a b c d s e,
        )
  unfolding get_ip_reply
  get_ip_reply-text name reply a b c d s e f short room = rw (
    text_info-name name a b c d f short,
    ◌>>=◌,
    text_info-address name a b c d short,
    ◌>>=◌,
    strcpy_front reply (name ++ b':' ∷ dotted a b c d) (omega arith),
    ◌>>=◌,
  )

  -- If the kernel knows an address for the interface that a text request names, in at most five bytes,
  -- the request returns 0 and keeps the name and the printed address.
  pub do_text_get_device_ip-found :
      (net : Net E) (args name : List ℕ) (a b c d : ℕ) (s : NetState E) (e : E)
      → net.inet_ntoa (a ∷ b ∷ c ∷ d ∷ []) ≡ dotted a b c d
      → c_string args ≡ some name
      → Free 0 name
      → length name ≤ 5
      → net.open_socket s.outside ≡ (true, e)
      → net.get_if_addr name e ≡ some (a ∷ b ∷ c ∷ d ∷ [])
      → a < 256
      → b < 256
      → c < 256
      → d < 256
      → do_text_get_device_ip net args s ≡ some (pos 0, found_text name a b c d s e)
  unfolding do_text_get_device_ip get_device_ip get_ip copy_ip
  do_text_get_device_ip-found net args name a b c d s e prints read free short opened found ha hb hc
        hd =
      let front : List ℕ = name ++ zeros (6 - length name) in
      let shifted : drop (0 + length name) (zeros 22) ≡ drop (length name) (zeros 6 ++ zeros 16) =
        ap (λ n. drop n (zeros 22)) (let z : 0 + length name ≡ length name = omega arith in z) in
      let info : store (zeros 22) 0 name ≡ some (front ++ zeros 16) =
        store_in (zeros 22) 0 name (omega arith)
        ∙ ap (λ t. some (name ++ t)) (shifted ∙ drop-zeros 6 (length name) (zeros 16) (omega arith))
        ∙ ap some (sym (append_assoc name (zeros (6 - length name)) (zeros 16))) in
      let named : ifr_name (front ++ zeros 16) ≡ some name =
        ap ifr_name (
          append_assoc name (zeros (6 - length name)) (zeros 16)
          ∙ ap (λ t. name ++ t) (more_zeros (6 - length name) 15))
        ∙ ifr_name-padded name (6 - length name + 15) free (omega arith) in
      let printed : strcpy (front ++ zeros 16) 6 (dotted a b c d) ≡ some (text_info name a b c d) =
        strcpy_behind front (zeros 16) (dotted a b c d) 6 (length-padded name (omega arith))
          (omega (arith, length-dotted a b c d ha hb hc hd)) in
      let left : (net.open_socket s.outside).1 ≡ e = ap (λ p. p.1) opened in
      rw (read, ◌>>=◌, info, ◌>>=◌, opened, named, ◌>>=◌, found, prints, printed, ◌>>=◌, left)
