-- ===== src/Tests/Configuring.antt =====
-- Runs of the settings in JSON of src/CollabVM.cpp: a request of the panel that changes settings.
use collab_vm_server.Prelude.{
  ℕ, length, ◌≡◌, refl, true, false, Option, none, some, List, [], ◌∷◌, Bytes, codes, arith, equal,
  if◌then◌else◌, inl,
}
use collab_vm_server.Chat.Instruction.{c_str}
use collab_vm_server.Settings.{
  find_setting, null, text, number, Members, Token, start_object, end_object, string, uint,
  writes_bool,
}
use collab_vm_server.Settings.Server.{
  Config, Panel, server_key, refresh_blacklist, parse_server_settings,
}
use collab_vm_server.Settings.Checked.{all_fit, assign_all, errors, parse_server_settings-all_fit}
use collab_vm_server.Settings.Ranges.{InRange, parse_server_settings-InRange}
use collab_vm_server.Settings.Blacklist.{in_use, parse_server_settings-in_use}
use collab_vm_server.Settings.Defined.{is_none, any_stray, parse_vm_settings-any_stray}
use collab_vm_server.Settings.Vm.{VmSettings, SocketType, parse_vm_settings, vm_key}
use collab_vm_server.Settings.Write.{written_members}
use collab_vm_server.Settings.RoundTrip.{parse_vm_settings-written_members}
use collab_vm_server.Settings.Course.{Request, stores, AllKeyed, stores-AllKeyed}
use collab_vm_server.Settings.Perform.{perform_config_function}
use collab_vm_server.Settings.Store.{
  Store, Document, root, value, members, Answer, new_vm_settings, function_key, find_key,
}

abbrev config : Config
config = record {
  chat_rate_count = 4;
  chat_rate_time = 3;
  chat_mute_time = 30;
  max_connections = 5;
  max_upload_time = 120;
  ban_command = [];
  jpeg_quality = 75;
  mod_enabled = false;
  mod_perms = 0;
  blacklisted_names = codes "root";
}

abbrev panel : Panel
panel = record { configuration = config; blacklisted = codes "root" ∷ [] }

-- Texts of one name each, which need no splitting.
abbrev single : Bytes → List Bytes
single s = s ∷ []

abbrev written : Config → List Token
written c = uint c.max_connections ∷ []

abbrev requested : Members
requested =
    (codes "max-cons", number 9)
    ∷ (codes "blacklisted-usernames", text (codes "admin"))
    ∷ (codes "other", null)
    ∷ []

abbrev wrong : Members
wrong = (codes "max-cons", number 256) ∷ (codes "mod-enabled", number 1) ∷ []

parse_server_settings-all_fit_example :
    parse_server_settings single written requested panel
    ≡ some (
        if all_fit requested
        then (
          record (refresh_blacklist single requested panel) {
            configuration = assign_all requested config;
          },
          writes_bool true ∷ written (assign_all requested config),
        )
        else (refresh_blacklist single requested panel, errors requested))
parse_server_settings-all_fit_example = parse_server_settings-all_fit single written requested panel

wrong_test :
    parse_server_settings single written wrong panel
    ≡ some (
      panel,
      start_object
          ∷ string (codes "max-cons")
          ∷ string (codes "Value too big")
          ∷ end_object
          ∷ start_object
          ∷ string (codes "mod-enabled")
          ∷ string (codes "Invalid object type")
          ∷ end_object
          ∷ [],
    )
unfolding parse_server_settings equal
wrong_test = refl

parse_server_settings-InRange_example :
    (q : Panel) × (out : List Token) × (parse_server_settings single written requested panel
      ≡ some (q, out))
    × InRange q.configuration
parse_server_settings-InRange_example =
    parse_server_settings-InRange single written requested panel (record {
      chat_rate_count = omega arith;
      chat_rate_time = omega arith;
      chat_mute_time = omega arith;
      max_connections = omega arith;
      max_upload_time = omega arith;
      jpeg_quality = inl (omega arith);
      mod_perms = omega arith;
    })

parse_server_settings-in_use_example :
    (q : Panel) × (out : List Token) × (parse_server_settings single written requested panel
      ≡ some (q, out))
    × (q.blacklisted ≡ in_use single requested panel)
parse_server_settings-in_use_example = parse_server_settings-in_use single written requested panel

blacklist_test : in_use single requested panel ≡ codes "root" ∷ []
unfolding equal find_setting server_key
blacklist_test = refl

abbrev vm : VmSettings
vm = record (new_vm_settings 5900) { name = codes "vm1"; qmp_socket_type = SocketType.tcp }

parse_vm_settings-any_stray_example :
    is_none (parse_vm_settings vm ((codes "turns-enabled", number 1) ∷ []))
    ≡ any_stray ((codes "turns-enabled", number 1) ∷ [])
parse_vm_settings-any_stray_example =
    parse_vm_settings-any_stray vm ((codes "turns-enabled", number 1) ∷ [])

stray_test : any_stray ((codes "turns-enabled", number 1) ∷ []) ≡ true
unfolding vm_key equal find_setting
stray_test = refl

parse_vm_settings-written_members_example :
    parse_vm_settings (new_vm_settings 0) (written_members none vm)
    ≡ some (vm, true, writes_bool true ∷ [])
unfolding new_vm_settings c_str
parse_vm_settings-written_members_example =
    parse_vm_settings-written_members none vm (new_vm_settings 0) (record {
      named = refl;
      name = refl;
      display_name = refl;
      vnc_address = refl;
      qmp_address = refl;
      qemu_cmd = refl;
      agent_address = refl;
      motd = refl;
      vnc_port = omega arith;
      qmp_port = omega arith;
      agent_port = omega arith;
      max_attempts = omega arith;
      upload_max_filename = omega arith;
      turn_time = omega arith;
      vote_time = omega arith;
      vote_cooldown_time = omega arith;
    })

-- A VM is added, and a key that has no function is passed over.
abbrev request : Document
request = root (
    (codes "add-vm", members ((codes "name", text (codes "vm2")) ∷ []))
    ∷ (codes "password", value (text (codes "secret")))
    ∷ (codes "unknown", value null)
    ∷ [])

abbrev store : Store
store = record { panel = panel; master_password = []; mod_password = []; virtual_machines = [] }

abbrev added : Option Answer → List (Bytes × VmSettings)
added none = []
added (some (s, out, calls)) = s.virtual_machines

perform_test :
    added (perform_config_function single 5900 (λ calls n. none) request store)
    ≡ (codes "vm2", record (new_vm_settings 5900) { name = codes "vm2" }) ∷ []
unfolding perform_config_function equal
perform_test = refl

abbrev requests : List Request
requests =
    record { agent_port = 0; state = λ calls n. none; document = request }
    ∷ record {
      agent_port = 0;
      state = λ calls n. none;
      document = root (
          (
            codes "update-vm",
            members ((codes "name", text (codes "vm2")) ∷ (codes "turn-time", number 30) ∷ []),
          )
          ∷ []);
    }
    ∷ []

stores-AllKeyed_example : AllKeyed (stores single requests store)
unfolding find_setting equal function_key find_key
stores-AllKeyed_example = stores-AllKeyed single requests store refl tt

abbrev lengths : List Store → List ℕ
lengths [] = []
lengths (s ∷ ss) = length s.virtual_machines ∷ lengths ss

stores_test : lengths (stores single requests store) ≡ 0 ∷ 1 ∷ 1 ∷ []
unfolding stores equal
stores_test = refl
