-- ===== src/Start/Requests.antt =====
-- A request for an interface's address, from the receive buffer to the reply, with the commands of
-- functions/ registered.
use instruction_parser.Prelude.{
  ℕ, zero, suc, ◌+◌, ◌-◌, ◌≤◌, ◌<◌, ◌≡◌, refl, sym, ap, ◌∙◌, ℤ, pos, true, Option, some, ◌>>=◌,
  List, [], ◌∷◌, ◌++◌, Bool-cases, inl, inr, take-append-drop, append_assoc, length-drop, length,
  length-append, take, drop, replicate, leb, arith,
}
use instruction_parser.Crc.{IsBytes}
use instruction_parser.Strings.{codes, fetch}
use instruction_parser.Strings.Laws.{Free, take_at, some_injective}
use instruction_parser.Protocol.Words.{word_at}
use instruction_parser.Protocol.Seal.{IsBytes-append}
use instruction_parser.Protocol.Names.{get_cmd_name, ht_cmd_list}
use instruction_parser.Protocol.Check.{sl_check_data}
use instruction_parser.Protocol.Ht.Decode.{ht_encode}
use instruction_parser.Frame.{CmdFrame}
use instruction_parser.Registry.{Links}
use instruction_parser.Registry.Chains.{Chain}
use instruction_parser.Queue.Static.{CmdQueue}
use instruction_parser.Queue.Refine.{Represents}
use instruction_parser.Commands.{call_if, reply_of}
use instruction_parser.Commands.Dispatch.{same_bytes, find_cmd, NamesFree}
use instruction_parser.Handle.{decimal, get_cmd_step}
use instruction_parser.Handle.Receive.{handle}
use instruction_parser.Handle.Receive.Route.{IsReady}
use instruction_parser.Handle.Answered.{ht_request-answered}
use instruction_parser.Functions.Network.Requests.{NetState, do_get_device_ip, get_ip_reply}
use instruction_parser.Functions.Network.Dotted.{dotted, zeros}
use instruction_parser.Functions.Network.Answers.{
  found_ip, do_get_device_ip-found, get_ip_reply-found, length-padded,
}
use instruction_parser.Functions.Table.{
  Os, Statics, net_part, with_net, on_net, net_reply, command_at, help_cmd, reboot_cmd, get_ip_cmd,
  set_ip_cmd, preview_on_cmd, preview_off_cmd, set_date_cmd, add_user_cmd, sys_info_cmd,
}

fetched : (n : ℕ) (mem bs : List ℕ) → fetch mem 0 n ≡ some bs → mem ≡ bs ++ drop n mem
unfolding fetch
fetched n mem bs h = elim (Bool-cases (leb (0 + n) (length mem))) [
  | inl fits ↦
      let same : take n mem ≡ bs = some_injective (rw fits at h) in
      sym (take-append-drop n mem) ∙ ap (λ t. t ++ drop n mem) same
  | inr long ↦ let e = rw long at h in cc
]

pub IsBytes-drop : (n : ℕ) (bs : List ℕ) → IsBytes bs → IsBytes (drop n bs)
IsBytes-drop zero bs h = h
IsBytes-drop (suc n) [] h = h
IsBytes-drop (suc n) (b ∷ bs) h = IsBytes-drop n bs h.1

IsBytes-zeros : (n : ℕ) → IsBytes (zeros n)
IsBytes-zeros zero = tt
IsBytes-zeros (suc n) = (omega arith, IsBytes-zeros n)

module _ {E : Type 0} (os : Os E) where
  -- The names of the table have no NUL, and the third command is the first of its name.
  pub names_free : NamesFree (command_at os) (0 ∷ 1 ∷ 2 ∷ 3 ∷ 4 ∷ 5 ∷ 6 ∷ 7 ∷ 8 ∷ [])
  unfolding command_at help_cmd reboot_cmd get_ip_cmd set_ip_cmd preview_on_cmd preview_off_cmd
      set_date_cmd add_user_cmd sys_info_cmd
  names_free = ground arith

  pub get_ip-found :
      find_cmd (command_at os) (codes "get_ip") (0 ∷ 1 ∷ 2 ∷ 3 ∷ 4 ∷ 5 ∷ 6 ∷ 7 ∷ 8 ∷ []) ≡ some 2
  unfolding find_cmd same_bytes command_at help_cmd reboot_cmd get_ip_cmd
  get_ip-found = refl

  get_ip_named : get_cmd_name ht_cmd_list 0x109 ≡ some (codes "get_ip")
  unfolding get_cmd_name ht_cmd_list
  get_ip_named = refl

  -- What the structure of the command makes of the two functions of network.c.
  get_ip_cmd-runs :
      (mem : List ℕ) (len : ℕ) (s : Statics E) (d : NetState E)
      → do_get_device_ip os.net mem len (net_part s) ≡ some (pos 0, d)
      → call_if (command_at os 2).do_cmd mem len s ≡ some (pos 0, with_net s d)
  unfolding call_if command_at get_ip_cmd on_net
  get_ip_cmd-runs mem len s d e = rw (e, ◌>>=◌)

  pub get_ip_cmd-replies :
      (reply reply' : List ℕ) (n : ℕ) (s : Statics E) (d : NetState E)
      → get_ip_reply reply d ≡ some (pos n, reply', d)
      → reply_of (command_at os 2) reply (with_net s d) ≡ some (pos n, reply', with_net s d)
  unfolding reply_of command_at get_ip_cmd net_reply
  get_ip_cmd-replies reply reply' n s d e = rw (e, ◌>>=◌)

module _ {E : Type 0} (os : Os E) (op_write : ℕ → List ℕ → Statics E → Option (ℤ × Statics E))
    (prints : (a b c d : ℕ)
      → a < 256
      → b < 256
      → c < 256
      → d < 256
      → os.net.inet_ntoa (a ∷ b ∷ c ∷ d ∷ []) ≡ dotted a b c d)
    (reads : (n : ℕ) → n < 256 → os.net.atoi (decimal n) ≡ pos n) where
  -- With the protocols and the commands registered, the queue empty and a reply buffer of 512 bytes, an
  -- HT request `get_ip` for an interface with a name of at most six bytes without a NUL, for which the
  -- kernel has an address, is answered by one call of `handle` and one round of `get_cmd`: what is
  -- written to the client is a frame that `sl_check_data` accepts, with the number of the request, the
  -- name padded with NULs to six bytes, and the four bytes of the address. The queue is empty again.
  -- `inet_ntoa` prints dotted decimals, `atoi` reads decimals, and `malloc` and `op_write` succeed.
  pub get_ip-answered :
      (protocols commands : Links) (tmp_str : List ℕ) (fd n frame_id : ℕ) (name rest : List ℕ)
      (stack : CmdFrame) (q : CmdQueue) (reply : List ℕ) (s : Statics E) (e : E) (a b c d : ℕ)
      (ret : List ℕ → ℤ) (sent : List ℕ → Statics E)
      → IsReady protocols
      → Chain commands.next commands.head (0 ∷ 1 ∷ 2 ∷ 3 ∷ 4 ∷ 5 ∷ 6 ∷ 7 ∷ 8 ∷ [])
      → Represents q []
      → frame_id < 65536
      → Free 0 name
      → length name ≤ 6
      → IsBytes name
      → IsBytes rest
      → length stack.arrays ≡ 1360
      → os.net.open_socket s.device.outside ≡ (true, e)
      → os.net.get_if_addr name e ≡ some (a ∷ b ∷ c ∷ d ∷ [])
      → IsBytes (a ∷ b ∷ c ∷ d ∷ [])
      → length reply ≡ 512
      → IsBytes reply
      → ((buf : List ℕ)
          → op_write fd buf (with_net s (found_ip name a b c d (net_part s) e))
            ≡ some (ret buf, sent buf))
      → (q1 q2 : CmdQueue) × (reply' buf : List ℕ) × (handle 4 protocols tmp_str stack fd
            (pos (suc n))
            (ht_encode frame_id 0x109 name ++ rest)
            q
          ≡ some q1)
        × (get_cmd_step op_write
              (command_at os)
              commands
              10
              true
              (record { queue = q1; reply = reply; world = s })
            ≡ some (record { queue = q2; reply = reply'; world = sent buf }))
        × Represents q2 []
        × (sl_check_data buf ≡ some (pos 0))
        × (word_at buf 4 ≡ some frame_id)
        × (fetch buf 11 10 ≡ some ((name ++ replicate (6 - length name) 0) ++ a ∷ b ∷ c ∷ d ∷ []))
  get_ip-answered protocols commands tmp_str fd n frame_id name rest stack q reply s e a b c d ret
        sent ready chain empty hf free short bytes rest_bytes full opened found
        (ha, (hb, (hc, (hd, end)))) room reply_bytes writes =
      let front : List ℕ = name ++ zeros (6 - length name) in
      let reply' : List ℕ = front ++ a ∷ b ∷ c ∷ d ∷ drop 10 reply in
      let state : NetState E = found_ip name a b c d (net_part s) e in
      let bytes' : IsBytes reply' =
        IsBytes-append front (a ∷ b ∷ c ∷ d ∷ drop 10 reply)
          (IsBytes-append name (zeros (6 - length name)) bytes (IsBytes-zeros (6 - length name)))
          (ha, (hb, (hc, (hd, IsBytes-drop 10 reply reply_bytes)))) in
      let size : length front ≡ 6 = length-padded name short in
      let ten : length (front ++ a ∷ b ∷ c ∷ d ∷ []) ≡ 10 =
        length-append front (a ∷ b ∷ c ∷ d ∷ []) ∙ omega arith in
      let replied =
        get_ip_cmd-replies os reply reply' 10 s state
          (get_ip_reply-found name reply a b c d (net_part s) e short (omega arith)) in
      let (q1, q2, buf, handled, stepped, left, ok, word4, word6, body) =
        ht_request-answered op_write (command_at os) commands 10 protocols tmp_str fd n frame_id
          0x109 name rest stack q (0 ∷ 1 ∷ 2 ∷ 3 ∷ 4 ∷ 5 ∷ 6 ∷ 7 ∷ 8 ∷ []) (codes "get_ip") reply
          reply' 2 9 s (with_net s state) (with_net s state) ret sent ready empty hf (omega arith)
          (omega arith) (omega arith) bytes rest_bytes full (get_ip_named os) chain (omega arith)
          (names_free os) (get_ip-found os)
          (λ mem held. get_ip_cmd-runs os mem (length name) s state (
            ap (λ m. do_get_device_ip os.net m (length name) (net_part s))
              (fetched (length name) mem name held)
            ∙ do_get_device_ip-found os.net prints reads name (drop (length name) mem) a b c d
                (net_part s) e free short opened found ha hb hc hd))
          replied
          (omega (arith, length-append front (a ∷ b ∷ c ∷ d ∷ drop 10 reply), length-drop 10 reply))
          (omega arith) bytes' writes in
      (
        q1,
        q2,
        reply',
        buf,
        handled,
        stepped,
        left,
        ok,
        word4,
        body
            ∙ ap (λ t. some (take 10 t))
                (sym (append_assoc front (a ∷ b ∷ c ∷ d ∷ []) (drop 10 reply)))
            ∙ ap some (take_at 10 (front ++ a ∷ b ∷ c ∷ d ∷ []) (drop 10 reply) ten),
      )
