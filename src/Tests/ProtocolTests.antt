-- ===== src/Tests/ProtocolTests.antt =====
-- The binary protocols.
use instruction_parser.Prelude.{
  ℕ, ◌≡◌, ◌↔◌, ◌⊎◌, ◌<◌, refl, pos, negsuc, some, none, List, [], ◌∷◌, ◌++◌, length, replicate,
  arith,
}
use instruction_parser.Crc.{crc16_tab, crc_step, uhf_crc16_ccitt_tab}
use instruction_parser.Frame.{CmdFrame}
use instruction_parser.Protocol.Words.{word_at, long_at}
use instruction_parser.Protocol.Check.{check_frame, check_body, ht_check_data, sl_check_data}
use instruction_parser.Protocol.Check.Accepts.{
  verdict, check_frame-eq-verdict, check_data-accepts_iff, IsFrame,
}
use instruction_parser.Protocol.Check.Corrupt.{check_frame-corrupt}
use instruction_parser.Protocol.Ht.{ht_frame_of}
use instruction_parser.Protocol.Ht.Decode
use instruction_parser.Protocol.Ht.Decode.{ht_encode, ht_encode-Decoded}
use instruction_parser.Protocol.Ht.Limits.{ht_frame_of-none_iff}
use instruction_parser.Protocol.Sl.{sl_frame_of}
use instruction_parser.Protocol.Sl.Decode as Sl
use instruction_parser.Protocol.Sl.Decode.{sl_encode, sl_encode-Decoded}
use instruction_parser.Protocol.Sl.Limits.{sl_frame_of-none_iff}

-- What the stack may hold where a parser puts its frame.
abbrev pub stale : CmdFrame
stale = record {
  fd = 0;
  len = 0;
  frame_id = 0;
  cmd_id = 5;
  cmd_len = 0;
  device_id = 77;
  arrays = replicate 1360 1;
}

-- A reboot command, and its checksum.
abbrev reboot : List ℕ
reboot = 0x48 ∷ 0x54 ∷ 0 ∷ 8 ∷ 0 ∷ 1 ∷ 1 ∷ 8 ∷ 68 ∷ 127 ∷ []

reboot_accepted : ht_check_data reboot ≡ some (pos 0)
unfolding ht_check_data check_frame check_body uhf_crc16_ccitt_tab crc_step crc16_tab word_at
reboot_accepted = refl

reboot_IsFrame : IsFrame 0x48 0x54 0x48 0x54 0 8 (0 ∷ 1 ∷ 1 ∷ 8 ∷ 68 ∷ 127 ∷ [])
unfolding crc_step crc16_tab
reboot_IsFrame = (refl, refl, omega arith, refl)

-- A frame that says it is longer than the buffer makes the check read behind it.
reads_behind : ht_check_data (0x48 ∷ 0x54 ∷ 1 ∷ 0 ∷ replicate 251 0) ≡ none
unfolding ht_check_data check_frame check_body uhf_crc16_ccitt_tab crc_step crc16_tab word_at
reads_behind = refl

check_frame-eq-verdict_example :
    check_frame 0x22 0x53 reboot ≡ verdict 0x22 0x53 0x48 0x54 0 8 (0 ∷ 1 ∷ 1 ∷ 8 ∷ 68 ∷ 127 ∷ [])
check_frame-eq-verdict_example =
    check_frame-eq-verdict 0x22 0x53 0x48 0x54 0 8 (0 ∷ 1 ∷ 1 ∷ 8 ∷ 68 ∷ 127 ∷ []) (omega arith)

check_data-accepts_iff_example :
    ((ht_check_data reboot ≡ some (pos 0))
      ↔ IsFrame 0x48 0x54 0x48 0x54 0 8 (0 ∷ 1 ∷ 1 ∷ 8 ∷ 68 ∷ 127 ∷ []))
    × ((sl_check_data reboot ≡ some (pos 0))
        ↔ IsFrame 0x22 0x53 0x48 0x54 0 8 (0 ∷ 1 ∷ 1 ∷ 8 ∷ 68 ∷ 127 ∷ []))
check_data-accepts_iff_example =
    check_data-accepts_iff 0x48 0x54 0 8 (0 ∷ 1 ∷ 1 ∷ 8 ∷ 68 ∷ 127 ∷ []) (omega arith)

check_frame-corrupt_example :
    check_frame 0x48 0x54 (0x48 ∷ 0x54 ∷ 0 ∷ 8 ∷ 0 ∷ 1 ∷ 1 ∷ 9 ∷ 68 ∷ 127 ∷ []) ≡ some (negsuc 0)
check_frame-corrupt_example =
    check_frame-corrupt 0x48 0x54 0x48 0x54 0 8 (0 ∷ 1 ∷ 1 ∷ 8 ∷ 68 ∷ 127 ∷ []) 3 8 9 (omega arith)
      reboot_IsFrame (omega arith) refl (omega arith) (omega arith)

ht_encode-Decoded_example :
    (ht_check_data (ht_encode 1 0x108 (5 ∷ []) ++ 0 ∷ 0 ∷ []) ≡ some (pos 0))
    × (cmd : CmdFrame) × (ht_frame_of 7 (ht_encode 1 0x108 (5 ∷ []) ++ 0 ∷ 0 ∷ []) stale ≡ some cmd)
    × Decode.Decoded 7 1 0x108 (5 ∷ []) stale cmd
ht_encode-Decoded_example =
    ht_encode-Decoded 7 1 0x108 (5 ∷ []) (0 ∷ 0 ∷ []) stale (omega arith) (omega arith)
      (omega arith) (omega arith) (omega arith) refl

ht_frame_of-none_iff_example :
    (ht_frame_of 7 (0x48 ∷ 0x54 ∷ 0 ∷ 4 ∷ 1 ∷ 2 ∷ 0 ∷ 0 ∷ replicate 247 0) stale ≡ none)
    ↔ ((4 < 8) ⊎ (255 < 4))
ht_frame_of-none_iff_example =
    ht_frame_of-none_iff 7 0x48 0x54 0 4 1 2 0 0 (replicate 247 0) stale (omega arith) (omega arith)
      refl

sl_encode-Decoded_example :
    (sl_check_data (sl_encode 1 0x109 0 70000 (5 ∷ []) ++ 0 ∷ []) ≡ some (pos 0))
    × (cmd : CmdFrame) × (sl_frame_of 7 (sl_encode 1 0x109 0 70000 (5 ∷ []) ++ 0 ∷ []) stale
        ≡ some cmd)
    × Sl.Decoded 7 1 0x109 70000 (5 ∷ []) stale.arrays cmd
sl_encode-Decoded_example =
    sl_encode-Decoded 7 1 0x109 0 70000 (5 ∷ []) (0 ∷ []) stale (omega arith) (omega arith)
      (omega arith) (omega arith) (omega arith) (omega arith) (omega arith) refl

-- An SL buffer of 255 bytes whose length field is 4.
abbrev short_sl : List ℕ
short_sl = 0x22 ∷ 0x53 ∷ 0 ∷ 4 ∷ 1 ∷ 2 ∷ 0 ∷ 0 ∷ 0 ∷ 0 ∷ 0 ∷ 0 ∷ 0 ∷ replicate 242 0

short_sl-Numbers : Sl.Numbers short_sl 4 258 0 0
unfolding word_at long_at
short_sl-Numbers = record { len_at = refl; frame_id_at = refl; cmd_id_at = refl; device_at = refl }

sl_frame_of-none_iff_example :
    (sl_frame_of 7 short_sl stale ≡ none) ↔ ((4 < 13) ⊎ (length short_sl < 4))
sl_frame_of-none_iff_example =
    sl_frame_of-none_iff 7 short_sl (replicate 242 0) stale 4 258 0 0 short_sl-Numbers refl refl
      (omega arith) (omega arith) refl
