-- ===== src/Functions/Table.antt =====
-- The `T_CmdList` structures of functions/, over the static variables of their files. What the device
-- outside the program does is a parameter.
use instruction_parser.Prelude.{ℕ, ℤ, Bool, Option, none, some, ◌>>=◌, List, [], ◌∷◌, get_elem?}
use instruction_parser.Strings.{codes}
use instruction_parser.Commands.{Command}
use instruction_parser.Functions.Media.{
  do_preview_on, text_do_preview_on, do_preview_off, text_do_preview_off, reboot_system,
  text_reboot_system,
}
use instruction_parser.Functions.Network.Requests.{
  Net, NetState, do_get_device_ip, do_text_get_device_ip, do_set_device_ip, do_text_set_device_ip,
  get_ip_reply,
}
use instruction_parser.Functions.System.{
  Clock, Device, set_system_date, text_set_system_date, set_date_reply, add_system_user,
  text_add_system_user, add_system_user_reply, get_system_info, text_get_system_info,
  get_system_info_reply,
}

-- The calls of the operating system, and whether `malloc` succeeds.
pub record Os (E : Type 0) : Type 0 where
  pub system : List ℕ → E → ℤ × E
  pub clock : E → Clock
  pub sync : E → E
  pub reboot : E → ℤ × E
  pub net : Net E
  pub memory : Bool

-- The static variables of network.c and of system.c, and the device outside.
pub record Statics (E : Type 0) : Type 0 where
  pub ip_info : List ℕ
  pub ip_info_text : List ℕ
  pub flag : ℕ
  pub device : Device E

module _ {E : Type 0} where
  -- The part of the state that the commands of one file see, and its return.
  abbrev pub net_part : Statics E → NetState E
  net_part s = record {
    ip_info = s.ip_info;
    ip_info_text = s.ip_info_text;
    flag = s.flag;
    outside = s.device.outside;
  }

  abbrev pub with_net : Statics E → NetState E → Statics E
  with_net s d = record {
    ip_info = d.ip_info;
    ip_info_text = d.ip_info_text;
    flag = d.flag;
    device = record s.device { outside = d.outside };
  }

  unfoldable pub on_outside : (E → ℤ × E) → List ℕ → ℕ → Statics E → Option (ℤ × Statics E)
  on_outside f mem len s =
      let (ret, e) = f s.device.outside in
      some (ret, record s { device = record s.device { outside = e } })

  unfoldable pub on_device :
      (List ℕ → Device E → Option (ℤ × Device E)) → List ℕ → ℕ → Statics E → Option (ℤ × Statics E)
  on_device f mem len s = f mem s.device >>= λ r. some (r.0, record s { device = r.1 })

  unfoldable pub device_reply :
      (List ℕ → Device E → Option (ℤ × List ℕ × Device E))
      → List ℕ
      → Statics E
      → Option (ℤ × List ℕ × Statics E)
  device_reply f reply s = f reply s.device >>= λ r. some (r.0, r.1, record s { device = r.2 })

  unfoldable pub on_net :
      (List ℕ → ℕ → NetState E → Option (ℤ × NetState E))
      → List ℕ
      → ℕ
      → Statics E
      → Option (ℤ × Statics E)
  on_net f mem len s = f mem len (net_part s) >>= λ r. some (r.0, with_net s r.1)

  unfoldable pub net_reply :
      (List ℕ → NetState E → Option (ℤ × List ℕ × NetState E))
      → List ℕ
      → Statics E
      → Option (ℤ × List ℕ × Statics E)
  net_reply f reply s = f reply (net_part s) >>= λ r. some (r.0, r.1, with_net s r.2)

  -- `g_tHelpCmd`, which has no callbacks.
  unfoldable pub help_cmd : Command (Statics E)
  help_cmd = record {
    name = codes "help";
    usage = codes "[id] help";
    help_info = 9 ∷ codes "Show help info about cmd system.";
    cmd_id = 0x0001;
    do_cmd = none;
    do_text_cmd = none;
    get_reply = none;
  }

module _ {E : Type 0} (os : Os E) where
  unfoldable pub reboot_cmd : Command (Statics E)
  reboot_cmd = record {
    name = codes "reboot";
    usage = codes "[id] reboot";
    help_info = 9 ∷ codes "Will reboot the system with no response.";
    cmd_id = 0x0009;
    do_cmd = some (on_outside (reboot_system os.sync os.reboot));
    do_text_cmd = some (on_outside (text_reboot_system os.sync os.reboot));
    get_reply = none;
  }

  unfoldable pub get_ip_cmd : Command (Statics E)
  get_ip_cmd = record {
    name = codes "get_ip";
    usage = codes "[id] get_ip dev";
    help_info = 9 ∷ codes "To get dev ip addr. Which dev is eth0/ra0.";
    cmd_id = 0x000a;
    do_cmd = some (on_net (do_get_device_ip os.net));
    do_text_cmd = some (on_net (λ mem len. do_text_get_device_ip os.net mem));
    get_reply = some (net_reply get_ip_reply);
  }

  unfoldable pub set_ip_cmd : Command (Statics E)
  set_ip_cmd = record {
    name = codes "set_ip";
    usage = codes "[id] set_ip dev ipaddr";
    help_info = codes "To set dev ip addr. Which dev is eth0/ra0.";
    cmd_id = 0x000b;
    do_cmd = some (on_net (do_set_device_ip os.net os.memory));
    do_text_cmd = some (on_net (λ mem len. do_text_set_device_ip os.net os.memory mem));
    get_reply = none;
  }

  unfoldable pub preview_on_cmd : Command (Statics E)
  preview_on_cmd = record {
    name = codes "preview_on";
    usage = codes "[id] preview_on";
    help_info = 9 ∷ codes "Preview the video via RTSP Server and Stop record video.";
    cmd_id = 0x000c;
    do_cmd = some (on_outside (do_preview_on os.system));
    do_text_cmd = some (on_outside (text_do_preview_on os.system));
    get_reply = none;
  }

  unfoldable pub preview_off_cmd : Command (Statics E)
  preview_off_cmd = record {
    name = codes "preview_off";
    usage = codes "[id] preview_off";
    help_info = codes "Stop to preview the video and Start to record video.";
    cmd_id = 0x000d;
    do_cmd = some (on_outside (do_preview_off os.system));
    do_text_cmd = some (on_outside (text_do_preview_off os.system));
    get_reply = none;
  }

  unfoldable pub set_date_cmd : Command (Statics E)
  set_date_cmd = record {
    name = codes "set_date";
    usage = codes "[id] set_date 2019-12-12 09:08:07";
    help_info = 9 ∷ codes "Update time info to system.";
    cmd_id = 0x0101;
    do_cmd = some (on_device (set_system_date os.system os.clock));
    do_text_cmd = some (on_device text_set_system_date);
    get_reply = some (device_reply set_date_reply);
  }

  unfoldable pub add_user_cmd : Command (Statics E)
  add_user_cmd = record {
    name = codes "add_user";
    usage = codes "[id] add_user name passwd ";
    help_info = 9 ∷ codes "Add System User.";
    cmd_id = 0x0103;
    do_cmd = some (on_device (add_system_user os.system os.clock));
    do_text_cmd = some (on_device text_add_system_user);
    get_reply = some (device_reply add_system_user_reply);
  }

  unfoldable pub sys_info_cmd : Command (Statics E)
  sys_info_cmd = record {
    name = codes "sys_info";
    usage = codes "[id] sys_info";
    help_info = 9 ∷ codes "request system informations.";
    cmd_id = 0x0100;
    do_cmd = some (on_device (get_system_info os.system os.clock));
    do_text_cmd = some (on_device text_get_system_info);
    get_reply = some (device_reply get_system_info_reply);
  }

  -- The structures as the nodes of the registry, in the order of their registration.
  unfoldable pub command_list : List (Command (Statics E))
  command_list =
      help_cmd ∷ reboot_cmd ∷ get_ip_cmd ∷ set_ip_cmd ∷ preview_on_cmd ∷ preview_off_cmd
      ∷ set_date_cmd ∷ add_user_cmd ∷ sys_info_cmd ∷ []

  unfoldable pub command_at : ℕ → Command (Statics E)
  unfolding command_list
  command_at p = elim (get_elem? command_list p) [ none ↦ help_cmd | some c ↦ c ]
