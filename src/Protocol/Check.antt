-- ===== src/Protocol/Check.antt =====
-- `ht_check_data` and `sl_check_data`: the two hold the same text but for the two bytes of the frame
-- head, which are arguments here.
pub mod Accepts
pub mod Corrupt
use instruction_parser.Prelude.{
  ℕ, ◌+◌, ℤ, pos, negsuc, Bool, true, false, not, Option, none, some, ◌>>=◌, List, get_elem?, ◌==◌,
  if◌then◌else◌,
}
use instruction_parser.Crc.{uhf_crc16_ccitt_tab}
use instruction_parser.Protocol.Words.{word_at}

-- `pucBufHead[0] != h0 || pucBufHead[1] != h1`, with its order of evaluation.
unfoldable pub head_mismatch : ℕ → ℕ → List ℕ → Option Bool
head_mismatch h0 h1 buf = do
  b0 ← get_elem? buf 0
  if b0 == h0 then (get_elem? buf 1 >>= λ b1. some (not (b1 == h1))) else some true

-- The length and the checksum, once the head fits.
unfoldable pub check_body : List ℕ → Option ℤ
check_body buf = do
  data_len ← word_at buf 2
  data_crc ← word_at buf data_len
  crc ← uhf_crc16_ccitt_tab buf data_len
  some (if crc == data_crc then pos 0 else negsuc 0)

unfoldable pub check_frame : ℕ → ℕ → List ℕ → Option ℤ
unfolding head_mismatch
check_frame h0 h1 buf = do
  mismatch ← head_mismatch h0 h1 buf
  if mismatch then some (negsuc 0) else check_body buf

unfoldable pub ht_check_data : List ℕ → Option ℤ
ht_check_data = check_frame 0x48 0x54

unfoldable pub sl_check_data : List ℕ → Option ℤ
sl_check_data = check_frame 0x22 0x53
