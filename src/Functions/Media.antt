-- ===== src/Functions/Media.antt =====
-- functions/media.c and functions/reboot.c: commands that only ask the system for something. The
-- binary and the text form of each hold the same text.
use instruction_parser.Prelude.{ℤ, List, ℕ}
use instruction_parser.Strings.{codes}

module _ {E : Type 0} (system : List ℕ → E → ℤ × E) where
  unfoldable pub do_preview_on : E → ℤ × E
  do_preview_on e =
      let (ret, e') = system (codes "/etc/init.d/S75camera stop") e in
      system (codes "/etc/init.d/rtsp_server start") e'

  unfoldable pub text_do_preview_on : E → ℤ × E
  text_do_preview_on = do_preview_on

  unfoldable pub do_preview_off : E → ℤ × E
  do_preview_off e =
      let (ret, e') = system (codes "/etc/init.d/rtsp_server stop") e in
      system (codes "/etc/init.d/S75camera start") e'

  unfoldable pub text_do_preview_off : E → ℤ × E
  text_do_preview_off = do_preview_off

module _ {E : Type 0} (sync : E → E) (reboot : E → ℤ × E) where
  unfoldable pub reboot_system : E → ℤ × E
  reboot_system e = reboot (sync e)

  unfoldable pub text_reboot_system : E → ℤ × E
  text_reboot_system = reboot_system
