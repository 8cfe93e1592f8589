-- ===== src/Tests/CrcTests.antt =====
-- The checksum of common/common.c.
use instruction_parser.Prelude.{ℕ, ◌≡◌, refl, some, none, List, [], ◌∷◌, arith}
use instruction_parser.Crc.{crc16_tab, crc_step, uhf_crc16_ccitt_tab}
use instruction_parser.Crc.Reference.{serial_crc}
use instruction_parser.Crc.Frames.{uhf_crc-eq-serial}

-- The eight bytes of a reboot command.
abbrev reboot_body : List ℕ
reboot_body = 0x48 ∷ 0x54 ∷ 0 ∷ 8 ∷ 0 ∷ 1 ∷ 1 ∷ 8 ∷ []

-- The check value of this checksum for the text "123456789".
check_value :
    uhf_crc16_ccitt_tab (0x31 ∷ 0x32 ∷ 0x33 ∷ 0x34 ∷ 0x35 ∷ 0x36 ∷ 0x37 ∷ 0x38 ∷ 0x39 ∷ []) 9
    ≡ some 0x31c3
unfolding uhf_crc16_ccitt_tab crc_step crc16_tab
check_value = refl

past_end : uhf_crc16_ccitt_tab reboot_body 9 ≡ none
unfolding uhf_crc16_ccitt_tab
past_end = refl

uhf_crc-eq-serial_example : uhf_crc16_ccitt_tab reboot_body 8 ≡ some (serial_crc 0 reboot_body)
uhf_crc-eq-serial_example = uhf_crc-eq-serial reboot_body 8 (omega arith) (omega arith)
