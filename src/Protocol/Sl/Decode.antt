-- ===== src/Protocol/Sl/Decode.antt =====
-- A well-formed SL frame is accepted and decoded into what its sender meant.
use instruction_parser.Prelude.{
  ℕ, ◌+◌, ◌-◌, ◌/◌, ◌%◌, ◌≤◌, ◌<◌, ◌≡◌, refl, sym, ap, ◌∙◌, subst, pos, some, ◌>>=◌, List, [], ◌∷◌,
  ◌++◌, length, length-append, length-take, take, drop, append_assoc, arith,
}
use instruction_parser.Crc.{crc_from, IsBytes}
use instruction_parser.Strings.{fetch, store}
use instruction_parser.Strings.Laws.{fetch_in, take-append}
use instruction_parser.Frame.{CmdFrame}
use instruction_parser.Protocol.Words.{word_at, word_at_lem, long_at, long_at_lem}
use instruction_parser.Protocol.Names.{get_cmd_name, sl_cmd_list, copy_name}
use instruction_parser.Protocol.Arrays.{sl_cmd_list-IsName, copy_name-Named, fill, Filled}
use instruction_parser.Protocol.Check.{sl_check_data}
use instruction_parser.Protocol.Seal.{seal, check_frame-seal, IsBytes-append}
use instruction_parser.Protocol.Sl.{sl_cmd_len, sl_frame_of}

-- The eleven bytes behind the length field: sequence number, command, direction and device.
abbrev pub sl_header : ℕ → ℕ → ℕ → ℕ → List ℕ → List ℕ
sl_header frame_id cmd_id direction device payload =
    frame_id / 256
    ∷ frame_id % 256
    ∷ cmd_id / 256
    ∷ cmd_id % 256
    ∷ direction
    ∷ device / 16777216
    ∷ device / 65536 % 256
    ∷ device / 256 % 256
    ∷ device % 256
    ∷ payload

-- The frame that carries a payload.
unfoldable pub sl_encode : ℕ → ℕ → ℕ → ℕ → List ℕ → List ℕ
sl_encode frame_id cmd_id direction device payload =
    let len = length payload + 13 in
    seal (0x22 ∷ 0x53 ∷ len / 256 ∷ len % 256 ∷ sl_header frame_id cmd_id direction device payload)

-- The fields that `sl_parse` fills: all of them.
pub record Decoded (fd frame_id cmd_id device : ℕ) (payload old : List ℕ) (cmd : CmdFrame)
    : Type 0 where
  pub fd_is : cmd.fd ≡ fd
  pub len_is : cmd.len ≡ length payload + 13
  pub frame_id_is : cmd.frame_id ≡ frame_id
  pub cmd_id_is : cmd.cmd_id ≡ cmd_id
  pub cmd_len_is : cmd.cmd_len ≡ length payload
  pub device_id_is : cmd.device_id ≡ device
  pub arrays_are : Filled (get_cmd_name sl_cmd_list cmd_id) old payload cmd.arrays

steps :
    (fd : ℕ) (buf : List ℕ) (before : CmdFrame) (len frame_id cmd_id device : ℕ)
    (named body arrays : List ℕ)
    → word_at buf 2 ≡ some len
    → word_at buf 4 ≡ some frame_id
    → word_at buf 6 ≡ some cmd_id
    → copy_name (get_cmd_name sl_cmd_list cmd_id) before.arrays ≡ some named
    → long_at buf 9 ≡ some device
    → fetch buf 13 (sl_cmd_len len) ≡ some body
    → store named 16 body ≡ some arrays
    → sl_frame_of fd buf before
      ≡ some (record before {
        fd = fd;
        len = len;
        frame_id = frame_id;
        cmd_id = cmd_id;
        cmd_len = sl_cmd_len len;
        device_id = device;
        arrays = arrays;
      })
unfolding sl_frame_of
steps fd buf before len frame_id cmd_id device named body arrays e2 e4 e6 copied e9 fetched stored =
    rw (e2, ◌>>=◌)
      (rw (e4, ◌>>=◌)
        (rw (e6, ◌>>=◌)
          (rw (copied, ◌>>=◌) (rw (e9, ◌>>=◌) (rw (fetched, ◌>>=◌) (rw (stored, ◌>>=◌)))))))

-- The bytes of an SL header that carry numbers, at their places.
pub record Numbers (buf : List ℕ) (len frame_id cmd_id device : ℕ) : Type 0 where
  pub len_at : word_at buf 2 ≡ some len
  pub frame_id_at : word_at buf 4 ≡ some frame_id
  pub cmd_id_at : word_at buf 6 ≡ some cmd_id
  pub device_at : long_at buf 9 ≡ some device

-- The parser on a buffer with those numbers and thirteen bytes before the rest.
pub sl_frame_of_lem :
    (fd : ℕ) (buf rest : List ℕ) (before : CmdFrame) (n frame_id cmd_id device len : ℕ)
    → Numbers buf n frame_id cmd_id device
    → drop 13 buf ≡ rest
    → length buf ≡ length rest + 13
    → n ≡ len + 13
    → n < 65536
    → len ≤ length rest
    → len ≤ 1344
    → length before.arrays ≡ 1360
    → (cmd : CmdFrame) × (sl_frame_of fd buf before ≡ some cmd)
      × Decoded fd frame_id cmd_id device (take len rest) before.arrays cmd
unfolding sl_cmd_len
sl_frame_of_lem fd buf rest before n frame_id cmd_id device len at split size en word fits small
      full =
    let (named, copied, v) =
      copy_name-Named (get_cmd_name sl_cmd_list cmd_id) before.arrays full
        (sl_cmd_list-IsName cmd_id) in
    let cmd_len : (n + 65536 - 13) % 65536 ≡ len = omega arith in
    let taken : length (take len rest) ≡ len = omega (arith, length-take len rest) in
    let (arrays, stored, filled) =
      fill (get_cmd_name sl_cmd_list cmd_id) before.arrays named (take len rest) full v
        (sl_cmd_list-IsName cmd_id) (omega arith) in
    let fetched : fetch buf 13 ((n + 65536 - 13) % 65536) ≡ some (take len rest) =
      ap (fetch buf 13) cmd_len
      ∙ fetch_in buf 13 len (omega arith)
      ∙ ap (λ t. some (take len t)) split in
    (
      record before {
        fd = fd;
        len = n;
        frame_id = frame_id;
        cmd_id = cmd_id;
        cmd_len = (n + 65536 - 13) % 65536;
        device_id = device;
        arrays = arrays;
      },
      steps fd buf before n frame_id cmd_id device named (take len rest) arrays at.len_at
          at.frame_id_at at.cmd_id_at copied at.device_at fetched stored,
      record {
        fd_is = refl;
        len_is = en ∙ ap (λ t. t + 13) (sym taken);
        frame_id_is = refl;
        cmd_id_is = refl;
        cmd_len_is = cmd_len ∙ sym taken;
        device_id_is = refl;
        arrays_are = filled;
      },
    )

header-IsBytes :
    (f c dir d : ℕ) (payload : List ℕ)
    → f < 65536
    → c < 65536
    → dir < 256
    → d < 4294967296
    → IsBytes payload
    → IsBytes (sl_header f c dir d payload)
header-IsBytes f c dir d payload hf hc hdir hd bytes =
    IsBytes-append (sl_header f c dir d []) payload (omega arith) bytes

header-Numbers :
    (f c dir d n : ℕ) (rest : List ℕ)
    → f < 65536
    → c < 65536
    → d < 4294967296
    → n < 65536
    → Numbers (0x22 ∷ 0x53 ∷ n / 256 ∷ n % 256 ∷ sl_header f c dir d rest) n f c d
header-Numbers f c dir d n rest hf hc hd hn =
    let buf : List ℕ = 0x22 ∷ 0x53 ∷ n / 256 ∷ n % 256 ∷ sl_header f c dir d rest in
    record {
      len_at =
          word_at_lem buf 2 (n / 256) (n % 256) refl refl (omega arith) (omega arith)
          ∙ ap some (omega arith);
      frame_id_at =
          word_at_lem buf 4 (f / 256) (f % 256) refl refl (omega arith) (omega arith)
          ∙ ap some (omega arith);
      cmd_id_at =
          word_at_lem buf 6 (c / 256) (c % 256) refl refl (omega arith) (omega arith)
          ∙ ap some (omega arith);
      device_at =
          long_at_lem buf 9 (d / 16777216) (d / 65536 % 256) (d / 256 % 256) (d % 256) refl refl
            refl refl (omega arith) (omega arith) (omega arith) (omega arith)
          ∙ ap some (omega arith);
    }

-- A payload of at most 240 bytes, sealed into an SL frame and received into a buffer with anything
-- behind it, is accepted; the queued frame then holds the sender's numbers, the 32-bit number of
-- the device among them, the payload and its length, and the name of the command if the table has
-- one.
pub sl_encode-Decoded :
    (fd frame_id cmd_id direction device : ℕ) (payload rest : List ℕ) (before : CmdFrame)
    → frame_id < 65536
    → cmd_id < 65536
    → direction < 256
    → device < 4294967296
    → length payload ≤ 240
    → IsBytes payload
    → IsBytes rest
    → length before.arrays ≡ 1360
    → (sl_check_data (sl_encode frame_id cmd_id direction device payload ++ rest) ≡ some (pos 0))
      × (cmd : CmdFrame) × (sl_frame_of fd
            (sl_encode frame_id cmd_id direction device payload ++ rest)
            before
          ≡ some cmd)
      × Decoded fd frame_id cmd_id device payload before.arrays cmd
unfolding sl_check_data sl_encode
sl_encode-Decoded fd f c dir d payload rest before hf hc hdir hd small bytes rest_bytes full =
    let len : ℕ = length payload + 13 in
    let body : List ℕ = sl_header f c dir d payload in
    let whole : List ℕ = 0x22 ∷ 0x53 ∷ len / 256 ∷ len % 256 ∷ body in
    let end : List ℕ = crc_from 0 whole / 256 ∷ crc_from 0 whole % 256 ∷ [] in
    let behind : List ℕ = (payload ++ end) ++ rest in
    let buf : List ℕ = 0x22 ∷ 0x53 ∷ len / 256 ∷ len % 256 ∷ sl_header f c dir d behind in
    let shape : seal whole ++ rest ≡ buf = unfold seal in refl in
    let room : length behind ≡ length payload + 2 + length rest =
      omega (arith, length-append (payload ++ end) rest, length-append payload end) in
    let cut : take (length payload) behind ≡ payload =
      ap (take (length payload)) (append_assoc payload end rest)
      ∙ take-append payload (end ++ rest) in
    let (cmd, got, decoded) =
      sl_frame_of_lem fd buf behind before len f c d (length payload)
        (header-Numbers f c dir d len behind hf hc hd (omega arith)) refl (omega arith) refl
        (omega arith) (omega arith) (omega arith) full in
    let head_bytes : IsBytes (0x22 ∷ 0x53 ∷ len / 256 ∷ len % 256 ∷ []) = omega arith in
    (
      check_frame-seal 0x22 0x53 (len / 256) (len % 256) body rest
          (IsBytes-append (0x22 ∷ 0x53 ∷ len / 256 ∷ len % 256 ∷ []) body head_bytes
            (header-IsBytes f c dir d payload hf hc hdir hd bytes))
          rest_bytes (omega arith),
      cmd,
      ap (λ t. sl_frame_of fd t before) shape ∙ got,
      subst (λ t. Decoded fd f c d t before.arrays cmd) cut decoded,
    )
