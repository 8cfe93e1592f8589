-- ===== src/Protocol/Ht/Decode.antt =====
-- A well-formed HT frame is accepted and decoded into what its sender meant.
use instruction_parser.Prelude.{
  ℕ, ◌+◌, ◌-◌, ◌*◌, ◌/◌, ◌%◌, ◌≤◌, ◌<◌, ◌≡◌, refl, sym, ap, ◌∙◌, subst, pos, some, ◌>>=◌, List, [],
  ◌∷◌, ◌++◌, length, length-append, length-take, take, append_assoc, arith,
}
use instruction_parser.Crc.{crc_from, IsBytes}
use instruction_parser.Strings.{fetch, store}
use instruction_parser.Strings.Laws.{fetch_in, take-append}
use instruction_parser.Frame.{CmdFrame}
use instruction_parser.Protocol.Words.{word_at, word_at_lem}
use instruction_parser.Protocol.Names.{get_cmd_name, ht_cmd_list, copy_name}
use instruction_parser.Protocol.Arrays.{ht_cmd_list-IsName, copy_name-Named, fill, Filled}
use instruction_parser.Protocol.Check.{ht_check_data}
use instruction_parser.Protocol.Seal.{seal, check_frame-seal, IsBytes-append}
use instruction_parser.Protocol.Ht.{ht_cmd_len, ht_frame_of}

-- The frame that carries a payload: head, length, sequence number, command and payload, sealed.
unfoldable pub ht_encode : ℕ → ℕ → List ℕ → List ℕ
ht_encode frame_id cmd_id payload =
    let len = length payload + 8 in
    seal (
      0x48
      ∷ 0x54
      ∷ len / 256
      ∷ len % 256
      ∷ frame_id / 256
      ∷ frame_id % 256
      ∷ cmd_id / 256
      ∷ cmd_id % 256
      ∷ payload)

-- The fields that `ht_parse` fills, and what it leaves alone.
pub record Decoded (fd frame_id cmd_id : ℕ) (payload : List ℕ) (before cmd : CmdFrame)
    : Type 0 where
  pub fd_is : cmd.fd ≡ fd
  pub len_is : cmd.len ≡ length payload + 8
  pub frame_id_is : cmd.frame_id ≡ frame_id
  pub cmd_id_is : cmd.cmd_id ≡ cmd_id
  pub cmd_len_is : cmd.cmd_len ≡ length payload
  pub device_id_stale : cmd.device_id ≡ before.device_id
  pub arrays_are : Filled (get_cmd_name ht_cmd_list cmd_id) before.arrays payload cmd.arrays

steps :
    (fd : ℕ) (buf : List ℕ) (before : CmdFrame) (len frame_id cmd_id : ℕ)
    (named body arrays : List ℕ)
    → word_at buf 2 ≡ some len
    → word_at buf 4 ≡ some frame_id
    → word_at buf 6 ≡ some cmd_id
    → copy_name (get_cmd_name ht_cmd_list cmd_id) before.arrays ≡ some named
    → fetch buf 8 (ht_cmd_len len) ≡ some body
    → store named 16 body ≡ some arrays
    → ht_frame_of fd buf before
      ≡ some (record before {
        fd = fd;
        len = len;
        frame_id = frame_id;
        cmd_id = cmd_id;
        cmd_len = ht_cmd_len len;
        arrays = arrays;
      })
unfolding ht_frame_of
steps fd buf before len frame_id cmd_id named body arrays e2 e4 e6 copied fetched stored =
    rw (e2, ◌>>=◌)
      (rw (e4, ◌>>=◌)
        (rw (e6, ◌>>=◌) (rw (copied, ◌>>=◌) (rw (fetched, ◌>>=◌) (rw (stored, ◌>>=◌))))))

-- The parser on eight header bytes and what follows them.
pub ht_frame_of_lem :
    (fd b0 b1 n1 n0 f1 f0 c1 c0 : ℕ) (rest : List ℕ) (before : CmdFrame)
    → IsBytes (n1 ∷ n0 ∷ f1 ∷ f0 ∷ c1 ∷ c0 ∷ [])
    → (len : ℕ) → n1 * 256 + n0 ≡ len + 8
    → len ≤ length rest
    → len ≤ 1344
    → length before.arrays ≡ 1360
    → (cmd : CmdFrame) × (ht_frame_of fd (b0 ∷ b1 ∷ n1 ∷ n0 ∷ f1 ∷ f0 ∷ c1 ∷ c0 ∷ rest) before
        ≡ some cmd)
      × Decoded fd (f1 * 256 + f0) (c1 * 256 + c0) (take len rest) before cmd
unfolding ht_cmd_len
ht_frame_of_lem fd b0 b1 n1 n0 f1 f0 c1 c0 rest before h len en fits small full =
    let buf : List ℕ = b0 ∷ b1 ∷ n1 ∷ n0 ∷ f1 ∷ f0 ∷ c1 ∷ c0 ∷ rest in
    let e2 = word_at_lem buf 2 n1 n0 refl refl h.0 h.1.0 in
    let e4 = word_at_lem buf 4 f1 f0 refl refl h.1.1.0 h.1.1.1.0 in
    let e6 = word_at_lem buf 6 c1 c0 refl refl h.1.1.1.1.0 h.1.1.1.1.1.0 in
    let id : ℕ = c1 * 256 + c0 in
    let (named, copied, v) =
      copy_name-Named (get_cmd_name ht_cmd_list id) before.arrays full (ht_cmd_list-IsName id) in
    let cmd_len : (n1 * 256 + n0 + 65536 - 8) % 65536 ≡ len = omega arith in
    let taken : length (take len rest) ≡ len = omega (arith, length-take len rest) in
    let (arrays, stored, filled) =
      fill (get_cmd_name ht_cmd_list id) before.arrays named (take len rest) full v
        (ht_cmd_list-IsName id) (omega arith) in
    let fetched : fetch buf 8 len ≡ some (take len rest) = fetch_in buf 8 len (omega arith) in
    (
      record before {
        fd = fd;
        len = n1 * 256 + n0;
        frame_id = f1 * 256 + f0;
        cmd_id = id;
        cmd_len = (n1 * 256 + n0 + 65536 - 8) % 65536;
        arrays = arrays;
      },
      steps fd buf before (n1 * 256 + n0) (f1 * 256 + f0) id named (take len rest) arrays e2 e4 e6
          copied (ap (fetch buf 8) cmd_len ∙ fetched) stored,
      record {
        fd_is = refl;
        len_is = en ∙ ap (λ t. t + 8) (sym taken);
        frame_id_is = refl;
        cmd_id_is = refl;
        cmd_len_is = cmd_len ∙ sym taken;
        device_id_stale = refl;
        arrays_are = filled;
      },
    )

-- A payload of at most 245 bytes, sealed into a frame and received into a buffer with anything
-- behind it, is accepted; the queued frame then holds the sender's numbers, the payload and its
-- length, and the name of the command if the table has one. The device's number is not set.
pub ht_encode-Decoded :
    (fd frame_id cmd_id : ℕ) (payload rest : List ℕ) (before : CmdFrame)
    → frame_id < 65536
    → cmd_id < 65536
    → length payload ≤ 245
    → IsBytes payload
    → IsBytes rest
    → length before.arrays ≡ 1360
    → (ht_check_data (ht_encode frame_id cmd_id payload ++ rest) ≡ some (pos 0))
      × (cmd : CmdFrame) × (ht_frame_of fd (ht_encode frame_id cmd_id payload ++ rest) before
          ≡ some cmd)
      × Decoded fd frame_id cmd_id payload before cmd
unfolding ht_check_data ht_encode
ht_encode-Decoded fd f c payload rest before hf hc small bytes rest_bytes full =
    let len : ℕ = length payload + 8 in
    let body : List ℕ = f / 256 ∷ f % 256 ∷ c / 256 ∷ c % 256 ∷ payload in
    let whole : List ℕ = 0x48 ∷ 0x54 ∷ len / 256 ∷ len % 256 ∷ body in
    let end : List ℕ = crc_from 0 whole / 256 ∷ crc_from 0 whole % 256 ∷ [] in
    let behind : List ℕ = (payload ++ end) ++ rest in
    let shape : seal whole ++ rest
        ≡ 0x48 ∷ 0x54 ∷ len / 256 ∷ len % 256 ∷ f / 256 ∷ f % 256 ∷ c / 256 ∷ c % 256 ∷ behind =
      unfold seal in refl in
    let numbers : IsBytes (len / 256 ∷ len % 256 ∷ f / 256 ∷ f % 256 ∷ c / 256 ∷ c % 256 ∷ []) =
      omega arith in
    let room : length behind ≡ length payload + 2 + length rest =
      omega (arith, length-append (payload ++ end) rest, length-append payload end) in
    let cut : take (length payload) behind ≡ payload =
      ap (take (length payload)) (append_assoc payload end rest)
      ∙ take-append payload (end ++ rest) in
    let ef : f / 256 * 256 + f % 256 ≡ f = omega arith in
    let ec : c / 256 * 256 + c % 256 ≡ c = omega arith in
    let parsed =
      ht_frame_of_lem fd 0x48 0x54 (len / 256) (len % 256) (f / 256) (f % 256) (c / 256) (c % 256)
        behind before numbers (length payload) (omega arith) (omega arith) (omega arith) full in
    (
      check_frame-seal 0x48 0x54 (len / 256) (len % 256) body rest
          (IsBytes-append
            (0x48 ∷ 0x54 ∷ len / 256 ∷ len % 256 ∷ f / 256 ∷ f % 256 ∷ c / 256 ∷ c % 256 ∷ [])
            payload (omega arith) bytes)
          rest_bytes (omega arith),
      parsed.0,
      ap (λ t. ht_frame_of fd t before) shape ∙ parsed.1,
      subst (λ t. Decoded fd f c t before parsed.0) cut
          (subst (λ t. Decoded fd f t (take (length payload) behind) before parsed.0) ec
            (subst
              (λ t.
                Decoded fd t (c / 256 * 256 + c % 256) (take (length payload) behind) before
                  parsed.0)
              ef parsed.2)),
    )
