-- ===== src/Start/TextRequests.antt =====
-- A text line for an interface's address, from the receive buffer to the line that answers it, with
-- the commands of functions/ registered.
use instruction_parser.Prelude.{
  ℕ, suc, ◌+◌, ◌%◌, ◌≤◌, ◌<◌, ◌≡◌, refl, ℤ, pos, true, Bool, Option, some, ◌>>=◌, List, [], ◌∷◌,
  ◌++◌, length, length-append, drop, arith,
}
use instruction_parser.Strings.{codes}
use instruction_parser.Strings.Laws.{Free, Free-append, c_string_lem}
use instruction_parser.Frame.{CmdFrame, cmd_data_at}
use instruction_parser.Registry.{Links}
use instruction_parser.Registry.Chains.{Chain}
use instruction_parser.Queue.Static.{CmdQueue}
use instruction_parser.Queue.Refine.{Represents}
use instruction_parser.Protocol.Text.{id_matches, string_to_integer}
use instruction_parser.Protocol.Text.Decode.{IsWord, spaced}
use instruction_parser.Commands.{call_if}
use instruction_parser.Handle.{get_cmd_step}
use instruction_parser.Handle.Decimal.{length-decimal_word}
use instruction_parser.Handle.Receive.{handle}
use instruction_parser.Handle.Receive.Route.{IsReady}
use instruction_parser.Handle.TextAnswered.{done_line, length-done_line, text_request-answered}
use instruction_parser.Functions.Network.Requests.{NetState, do_text_get_device_ip}
use instruction_parser.Functions.Network.Dotted.{dotted, length-dotted, dotted-Free}
use instruction_parser.Functions.Network.TextAnswers.{
  found_text, do_text_get_device_ip-found, get_ip_reply-text,
}
use instruction_parser.Functions.Table.{
  Os, Statics, net_part, with_net, on_net, command_at, get_ip_cmd,
}
use instruction_parser.Start.Requests.{names_free, get_ip-found, get_ip_cmd-replies}

get_ip_cmd-text :
    {E : Type 0} (os : Os E) (mem : List ℕ) (len : ℕ) (s : Statics E) (d : NetState E)
    → do_text_get_device_ip os.net mem (net_part s) ≡ some (pos 0, d)
    → call_if (command_at os 2).do_text_cmd mem len s ≡ some (pos 0, with_net s d)
unfolding call_if command_at get_ip_cmd on_net
get_ip_cmd-text os mem len s d e = rw (e, ◌>>=◌)

get_ip_IsWord : IsWord 16 (codes "get_ip")
get_ip_IsWord = record {
  begins = b'g';
  goes_on = codes "et_ip";
  shape = refl;
  no_nul = omega arith;
  no_space = omega arith;
  fits = omega arith;
}

module _ {E : Type 0} (os : Os E) (op_write : ℕ → List ℕ → Statics E → Option (ℤ × Statics E)) where
  -- With the protocols and the commands registered, the queue empty, a reply buffer of 512 bytes, and
  -- command number 0 in the parser's frame on the stack, a line `id get_ip name` of at most 128 bytes,
  -- for an interface with a name of at most five bytes for which the kernel has an address, is
  -- answered by one call of `handle` and one round of `get_cmd`: the line
  -- `[number] get_ip name:a.b.c.d  ...done.` is written to the client, with the number of the id
  -- modulo 65536 and the address in dotted decimals. The queue is empty again. `inet_ntoa` prints
  -- dotted decimals, and `op_write` succeeds.
  pub text_get_ip-answered :
      (protocols commands : Links) (tmp_str : List ℕ) (fd n number c : ℕ) (t name rest : List ℕ)
      (stack : CmdFrame) (q : CmdQueue) (reply : List ℕ) (s s' : Statics E) (e : E)
      (a1 a2 a3 a4 : ℕ) (ret : ℤ) (memory : Bool)
      → os.net.inet_ntoa (a1 ∷ a2 ∷ a3 ∷ a4 ∷ []) ≡ dotted a1 a2 a3 a4
      → IsReady protocols
      → Chain commands.next commands.head (0 ∷ 1 ∷ 2 ∷ 3 ∷ 4 ∷ 5 ∷ 6 ∷ 7 ∷ 8 ∷ [])
      → Represents q []
      → length tmp_str ≡ 128
      → id_matches (c ∷ t) ≡ true
      → string_to_integer (c ∷ t) ≡ some number
      → IsWord 128 (c ∷ t)
      → IsWord 64 name
      → length name ≤ 5
      → length ((c ∷ t) ++ spaced (codes "get_ip" ∷ name ∷ [])) ≤ 128
      → length stack.arrays ≡ 1360
      → stack.cmd_id ≡ 0
      → os.net.open_socket s.device.outside ≡ (true, e)
      → os.net.get_if_addr name e ≡ some (a1 ∷ a2 ∷ a3 ∷ a4 ∷ [])
      → a1 < 256
      → a2 < 256
      → a3 < 256
      → a4 < 256
      → length reply ≡ 512
      → op_write fd
          (done_line (number % 65536) (codes "get_ip") (name ++ b':' ∷ dotted a1 a2 a3 a4))
          (with_net s (found_text name a1 a2 a3 a4 (net_part s) e))
        ≡ some (ret, s')
      → (q1 q2 : CmdQueue) × (reply' : List ℕ) × (handle 4 protocols tmp_str stack fd
            (pos (suc n))
            (((c ∷ t) ++ spaced (codes "get_ip" ∷ name ∷ [])) ++ 0 ∷ rest)
            q
          ≡ some q1)
        × (get_cmd_step op_write
              (command_at os)
              commands
              10
              memory
              (record { queue = q1; reply = reply; world = s })
            ≡ some (record { queue = q2; reply = reply'; world = s' }))
        × Represents q2 []
  text_get_ip-answered protocols commands tmp_str fd n number c t name rest stack q reply s s' e a1
        a2 a3 a4 ret memory prints ready chain empty size passes parsed wid wname short fits full
        zero_id opened found h1 h2 h3 h4 room sent =
      let answer : List ℕ = name ++ b':' ∷ dotted a1 a2 a3 a4 in
      let reply' : List ℕ = answer ++ 0 ∷ drop (length answer + 1) reply in
      let state : NetState E = found_text name a1 a2 a3 a4 (net_part s) e in
      let size' : length answer ≤ 21 = omega (
        arith,
        length-append name (b':' ∷ dotted a1 a2 a3 a4),
        length-dotted a1 a2 a3 a4 h1 h2 h3 h4,
      ) in
      let free : Free 0 answer =
        Free-append 0 name (b':' ∷ dotted a1 a2 a3 a4) wname.no_nul
          (omega arith, dotted-Free a1 a2 a3 a4) in
      let replied = get_ip_cmd-replies os reply reply' (length answer) s state (
        get_ip_reply-text name reply a1 a2 a3 a4 (net_part s) e wname.no_nul short (omega arith)) in
      let (q1, q2, handled, stepped, left) =
        text_request-answered op_write (command_at os) commands 10 protocols tmp_str fd n number c t
          (codes "get_ip") (name ∷ []) rest stack q (0 ∷ 1 ∷ 2 ∷ 3 ∷ 4 ∷ 5 ∷ 6 ∷ 7 ∷ 8 ∷ []) answer
          reply reply' 2 (length answer) ret s (with_net s state) (with_net s state) s' memory ready
          empty size passes parsed wid get_ip_IsWord (wname, tt) (omega arith) fits full zero_id
          chain (omega arith) (names_free os) (λ h. cc) (get_ip-found os)
          (λ arrays held. get_ip_cmd-text os (drop (cmd_data_at 0) arrays) (2 + 1) s state (
            do_text_get_device_ip-found os.net (drop (cmd_data_at 0) arrays) name a1 a2 a3 a4
              (net_part s) e prints held.0 wname.no_nul short opened found h1 h2 h3 h4))
          replied (c_string_lem answer (drop (length answer + 1) reply) free)
          (omega (
            arith,
            length-done_line (number % 65536) (codes "get_ip") answer,
            length-decimal_word (number % 65536) (omega arith),
          ))
          sent in
      (q1, q2, reply', handled, stepped, left)
