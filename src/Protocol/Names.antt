-- ===== src/Protocol/Names.antt =====
-- `struct cmd_map`, the two tables of command names, and `get_cmd_name`. The two files hold the same
-- function over tables that differ in one name.
use instruction_parser.Prelude.{ℕ, Option, none, some, List, [], ◌∷◌, ◌==◌, if◌then◌else◌}
use instruction_parser.Strings.{codes, strcpy}
use instruction_parser.Frame.{cmd_name_at}

pub record CmdMap : Type 0 where
  pub cmd_id : ℕ
  pub cmd_name : List ℕ

unfoldable pub get_cmd_name : List CmdMap → ℕ → Option (List ℕ)
get_cmd_name [] cmd_id = none
get_cmd_name (m ∷ ms) cmd_id =
    if m.cmd_id == cmd_id then some m.cmd_name else get_cmd_name ms cmd_id

-- `if (cmd_name != NULL) strcpy(cmd.cmd_name, cmd_name)`
unfoldable pub copy_name : Option (List ℕ) → List ℕ → Option (List ℕ)
copy_name none arrays = some arrays
copy_name (some name) arrays = strcpy arrays cmd_name_at name

unfoldable pub ht_cmd_list : List CmdMap
ht_cmd_list =
    record { cmd_id = 0x0100; cmd_name = codes "sys_info" }
    ∷ record { cmd_id = 0x0101; cmd_name = codes "set_date" }
    ∷ record { cmd_id = 0x0102; cmd_name = codes "set_wifi" }
    ∷ record { cmd_id = 0x0103; cmd_name = codes "set_ftp_account" }
    ∷ record { cmd_id = 0x0104; cmd_name = codes "set_video_info" }
    ∷ record { cmd_id = 0x0105; cmd_name = codes "set_brightness" }
    ∷ record { cmd_id = 0x0106; cmd_name = codes "get_electricity" }
    ∷ record { cmd_id = 0x0107; cmd_name = codes "power_off" }
    ∷ record { cmd_id = 0x0108; cmd_name = codes "reboot" }
    ∷ record { cmd_id = 0x0109; cmd_name = codes "get_ip" }
    ∷ record { cmd_id = 0x010a; cmd_name = codes "set_ip" }
    ∷ record { cmd_id = 0x0200; cmd_name = codes "start_record" }
    ∷ record { cmd_id = 0x0201; cmd_name = codes "stop_record" }
    ∷ record { cmd_id = 0x0202; cmd_name = codes "preview_on" }
    ∷ record { cmd_id = 0x0203; cmd_name = codes "preview_off" }
    ∷ []

unfoldable pub sl_cmd_list : List CmdMap
sl_cmd_list =
    record { cmd_id = 0x0100; cmd_name = codes "sys_info" }
    ∷ record { cmd_id = 0x0101; cmd_name = codes "set_date" }
    ∷ record { cmd_id = 0x0102; cmd_name = codes "set_wifi" }
    ∷ record { cmd_id = 0x0103; cmd_name = codes "add_user" }
    ∷ record { cmd_id = 0x0104; cmd_name = codes "set_video_info" }
    ∷ record { cmd_id = 0x0105; cmd_name = codes "set_brightness" }
    ∷ record { cmd_id = 0x0106; cmd_name = codes "get_electricity" }
    ∷ record { cmd_id = 0x0107; cmd_name = codes "power_off" }
    ∷ record { cmd_id = 0x0108; cmd_name = codes "reboot" }
    ∷ record { cmd_id = 0x0109; cmd_name = codes "get_ip" }
    ∷ record { cmd_id = 0x010a; cmd_name = codes "set_ip" }
    ∷ record { cmd_id = 0x0200; cmd_name = codes "start_record" }
    ∷ record { cmd_id = 0x0201; cmd_name = codes "stop_record" }
    ∷ record { cmd_id = 0x0202; cmd_name = codes "preview_on" }
    ∷ record { cmd_id = 0x0203; cmd_name = codes "preview_off" }
    ∷ []
