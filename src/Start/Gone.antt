-- ===== src/Start/Gone.antt =====
-- A client that has gone when its reply is written: `op_write` on the list of clients.
use instruction_parser.Prelude.{
  ℕ, suc, ◌≤◌, ◌<◌, ◌≡◌, ◌≢◌, ap, ◌∙◌, ℤ, pos, negsuc, true, false, Bool, Option, some, ◌>>=◌, List,
  [], ◌∷◌, ◌++◌, length,
}
use instruction_parser.Crc.{IsBytes}
use instruction_parser.Strings.{fetch}
use instruction_parser.Frame.{CmdFrame}
use instruction_parser.Registry.{Links}
use instruction_parser.Registry.Chains.{Chain}
use instruction_parser.Queue.Static.{CmdQueue}
use instruction_parser.Queue.Refine.{Represents}
use instruction_parser.Protocol.Names.{get_cmd_name, ht_cmd_list}
use instruction_parser.Protocol.Ht.Decode.{ht_encode}
use instruction_parser.Commands.{Command, call_if, reply_of}
use instruction_parser.Commands.Dispatch.{find_cmd, NamesFree}
use instruction_parser.Clients.{ClientMember, CliList, op_read, op_write}
use instruction_parser.Clients.Live.{Live, del_clilist-Live}
use instruction_parser.Clients.Shift.{Absent}
use instruction_parser.Handle.{get_cmd_step}
use instruction_parser.Handle.Receive.{handle}
use instruction_parser.Handle.Receive.Route.{IsReady}
use instruction_parser.Handle.Answered.{ht_request-answered}

-- What the commands share, the clients, and the kernel.
pub record World (S K : Type 0) : Type 0 where
  pub shared : S
  pub clients : CliList
  pub kernel : K

-- `write` gives the number, and whether `errno` is `EAGAIN`.
pub record Sockets (K : Type 0) : Type 0 where
  pub write : ℕ → List ℕ → K → ℤ × Bool × K

-- `op_write`, once `write` has answered.
module _ {S K : Type 0} where
  unfoldable pub written : ℤ × Bool × K → ℕ → World S K → Option (ℤ × World S K)
  written (n, again, k) fd w =
      op_write again n fd w.clients >>= λ r. some (r.0, record w { clients = r.1; kernel = k })

module _ {S K : Type 0} (sockets : Sockets K) where
  unfoldable pub world_write : ℕ → List ℕ → World S K → Option (ℤ × World S K)
  unfolding written
  world_write fd buf w = written (sockets.write fd buf w.kernel) fd w

  failed_write :
      (as' bs : List ClientMember) (c : ClientMember) (m : ℕ) (w : World S K)
      → Live w.clients (as' ++ c ∷ bs)
      → Absent c.fd as'
      → Absent c.fd bs
      → (l : CliList) × Live l (as' ++ bs)
        × ((buf : List ℕ) (k : K)
            → sockets.write c.fd buf w.kernel ≡ (negsuc m, false, k)
            → world_write c.fd buf w ≡ some (negsuc 2, record w { clients = l; kernel = k }))
  unfolding world_write written op_write op_read
  failed_write as' bs c m w live a b =
      let (l, e, live') = del_clilist-Live w.clients as' bs c live a b in
      (l, live', λ buf k failed. ap (λ r. written r c.fd w) failed ∙ rw (e, ◌>>=◌))

  module _ (cmds : ℕ → Command (World S K)) (links : Links) (fuel : ℕ) where
    -- With the protocols and the commands registered and the queue empty, an HT request of a client of
    -- the list whose connection has broken when the reply is written, so that `write` fails with
    -- another error than `EAGAIN`: one call of `handle` and one round of `get_cmd` run the command and
    -- take the client out of the list, the other clients stay in their order, and the queue is empty
    -- again. The client is in the list once, the number has a name, the first command of that name
    -- succeeds whatever stands behind its payload, its reply is not empty and fits the reply buffer, and
    -- `malloc` succeeds.
    pub gone_client-leaves :
        (protocols : Links) (tmp_str : List ℕ) (n frame_id cmd_id : ℕ) (payload rest : List ℕ)
        (stack : CmdFrame) (q : CmdQueue) (xs name reply reply' : List ℕ) (p k m : ℕ)
        (w w1 w2 : World S K) (as' bs : List ClientMember) (c : ClientMember) (after : List ℕ → K)
        → IsReady protocols
        → Represents q []
        → frame_id < 65536
        → cmd_id < 65536
        → cmd_id ≢ 0
        → length payload ≤ 245
        → IsBytes payload
        → IsBytes rest
        → length stack.arrays ≡ 1360
        → get_cmd_name ht_cmd_list cmd_id ≡ some name
        → Chain links.next links.head xs
        → length xs < fuel
        → NamesFree cmds xs
        → find_cmd cmds name xs ≡ some p
        → ((mem : List ℕ)
            → fetch mem 0 (length payload) ≡ some payload
            → call_if (cmds p).do_cmd mem (length payload) w ≡ some (pos 0, w1))
        → reply_of (cmds p) reply w1 ≡ some (pos (suc k), reply', w2)
        → suc k ≤ length reply'
        → suc k < 65000
        → IsBytes reply'
        → Live w2.clients (as' ++ c ∷ bs)
        → Absent c.fd as'
        → Absent c.fd bs
        → ((buf : List ℕ) → sockets.write c.fd buf w2.kernel ≡ (negsuc m, false, after buf))
        → (q1 q2 : CmdQueue) × (buf : List ℕ) × (l : CliList) × (handle 4 protocols tmp_str stack
              c.fd
              (pos (suc n))
              (ht_encode frame_id cmd_id payload ++ rest)
              q
            ≡ some q1)
          × (get_cmd_step world_write cmds links fuel true
                (record { queue = q1; reply = reply; world = w })
              ≡ some (record {
                queue = q2;
                reply = reply';
                world = record w2 { clients = l; kernel = after buf };
              }))
          × Represents q2 []
          × Live l (as' ++ bs)
    gone_client-leaves protocols tmp_str n f i payload rest stack q xs name reply reply' p k m w w1
          w2 as' bs c after ready empty hf hi nonzero small bytes rest_bytes full named chain enough
          free found runs answers fits short reply_bytes live a b fails =
        let (l, live', failed) = failed_write as' bs c m w2 live a b in
        let (q1, q2, buf, handled, stepped, left, ok, r4, r6, r11) =
          ht_request-answered world_write cmds links fuel protocols tmp_str c.fd n f i payload rest
            stack q xs name reply reply' p k w w1 w2 (λ buf. negsuc 2)
            (λ buf. record w2 { clients = l; kernel = after buf }) ready empty hf hi nonzero small
            bytes rest_bytes full named chain enough free found runs answers fits short reply_bytes
            (λ buf. failed buf (after buf) (fails buf)) in
        (q1, q2, buf, l, handled, stepped, left, live')
