-- ===== src/Settings/Defined.antt =====
-- On which members what `ParseVMSettings` of src/CollabVM.cpp does is defined.
use collab_vm_server.Prelude.{
  ◌≡◌, ◌∙◌, refl, ap, Bool, true, false, ◌||◌, Option, none, some, [], ◌∷◌, ◌++◌, Bytes, arith,
  if◌then◌else◌,
}
use collab_vm_server.Settings.{
  Value, text, number, bool, Members, writes_bool, Effect, sets, fails, undefined, apply_effect,
  find_setting, set_member, set_members, Progress,
}
use collab_vm_server.Settings.Vm.{
  VmSettings, VmSetting, name, auto_start, display_name, hypervisor, status, restore_shutdown,
  restore_timeout, restore_periodic, period_restore_time, vnc_address, vnc_port, qmp_socket_type,
  qmp_address, qmp_port, max_attempts, qemu_cmd, qemu_snapshot_mode, turns_enabled, turn_time,
  votes_enabled, vote_time, vote_cooldown_time, agent_enabled, agent_socket_type, agent_use_virtio,
  agent_address, agent_port, restore_heartbeat, heartbeat_timeout, uploads_enabled,
  upload_cooldown_time, upload_max_size, upload_max_filename, motd, vm_settings, vm_key,
  set_vm_setting, parse_vm_settings,
}

-- The settings whose type error is undefined, by the type that they want.
pub data Strict : Type 0 where
  lenient wants_bool wants_number wants_text : Strict

abbrev pub strictness : VmSetting → Strict
strictness hypervisor = wants_text
strictness turns_enabled = wants_bool
strictness votes_enabled = wants_bool
strictness agent_enabled = wants_bool
strictness agent_use_virtio = wants_bool
strictness restore_heartbeat = wants_bool
strictness uploads_enabled = wants_bool
strictness turn_time = wants_number
strictness vote_time = wants_number
strictness vote_cooldown_time = wants_number
strictness heartbeat_timeout = wants_number
strictness upload_cooldown_time = wants_number
strictness upload_max_size = wants_number
strictness upload_max_filename = wants_number
strictness _ = lenient

abbrev pub is_wrong : Strict → Value → Bool
is_wrong lenient v = false
is_wrong wants_bool (bool b) = false
is_wrong wants_number (number n) = false
is_wrong wants_text (text s) = false
is_wrong _ _ = true

abbrev is_undefined : Effect VmSettings → Bool
is_undefined undefined = true
is_undefined _ = false

set_vm_setting-is_wrong :
    (i : VmSetting) (v : Value) (s : VmSettings)
    → is_undefined (set_vm_setting i v s) ≡ is_wrong (strictness i) v
unfolding set_vm_setting
set_vm_setting-is_wrong name (text x) s = ground arith
set_vm_setting-is_wrong auto_start (bool x) s = refl
set_vm_setting-is_wrong display_name (text x) s = refl
set_vm_setting-is_wrong hypervisor (text x) s = ground arith
set_vm_setting-is_wrong status v s = refl
set_vm_setting-is_wrong restore_shutdown (bool x) s = refl
set_vm_setting-is_wrong restore_timeout (bool x) s = refl
set_vm_setting-is_wrong restore_periodic v s = refl
set_vm_setting-is_wrong period_restore_time v s = refl
set_vm_setting-is_wrong vnc_address (text x) s = refl
set_vm_setting-is_wrong vnc_port (number x) s = ground arith
set_vm_setting-is_wrong qmp_socket_type (text x) s = ground arith
set_vm_setting-is_wrong qmp_address (text x) s = refl
set_vm_setting-is_wrong qmp_port (number x) s = ground arith
set_vm_setting-is_wrong max_attempts (number x) s = ground arith
set_vm_setting-is_wrong qemu_cmd (text x) s = refl
set_vm_setting-is_wrong qemu_snapshot_mode (text x) s = ground arith
set_vm_setting-is_wrong turns_enabled (bool x) s = refl
set_vm_setting-is_wrong turn_time (number x) s = refl
set_vm_setting-is_wrong votes_enabled (bool x) s = refl
set_vm_setting-is_wrong vote_time (number x) s = refl
set_vm_setting-is_wrong vote_cooldown_time (number x) s = refl
set_vm_setting-is_wrong agent_enabled (bool x) s = refl
set_vm_setting-is_wrong agent_socket_type (text x) s = ground arith
set_vm_setting-is_wrong agent_use_virtio (bool x) s = refl
set_vm_setting-is_wrong agent_address (text x) s = refl
set_vm_setting-is_wrong agent_port (number x) s = ground arith
set_vm_setting-is_wrong restore_heartbeat (bool x) s = refl
set_vm_setting-is_wrong heartbeat_timeout (number x) s = refl
set_vm_setting-is_wrong uploads_enabled (bool x) s = refl
set_vm_setting-is_wrong upload_cooldown_time (number x) s = refl
set_vm_setting-is_wrong upload_max_size (number x) s = refl
set_vm_setting-is_wrong upload_max_filename (number x) s = ground arith
set_vm_setting-is_wrong motd (text x) s = refl
set_vm_setting-is_wrong i v s = refl

-- A member of a setting whose type error is undefined, with a value of another type.
abbrev pub is_stray : Option VmSetting → Value → Bool
is_stray none v = false
is_stray (some i) v = is_wrong (strictness i) v

abbrev pub any_stray : Members → Bool
any_stray [] = false
any_stray ((key, v) ∷ ms) = is_stray (find_setting vm_key key vm_settings) v || any_stray ms

abbrev pub is_none {ℓ} : {A : Type ℓ} → Option A → Bool
is_none none = true
is_none (some a) = false

apply_one : Option VmSetting → Value → Progress VmSettings → Option (Progress VmSettings)
apply_one o v p = elim o [ none ↦ some p | some i ↦ apply_effect (set_vm_setting i v p.0) p ]

apply_effect-is_undefined :
    (e : Effect VmSettings) (p : Progress VmSettings) → is_none (apply_effect e p) ≡ is_undefined e
unfolding apply_effect
apply_effect-is_undefined (sets a) (s, valid, out) = refl
apply_effect-is_undefined (fails key m) (s, valid, out) = refl
apply_effect-is_undefined undefined p = refl

apply_one-is_stray :
    (o : Option VmSetting) (v : Value) (p : Progress VmSettings)
    → is_none (apply_one o v p) ≡ is_stray o v
unfolding apply_one
apply_one-is_stray none v p = refl
apply_one-is_stray (some i) v p =
    apply_effect-is_undefined (set_vm_setting i v p.0) p ∙ set_vm_setting-is_wrong i v p.0

read_all : Members → Progress VmSettings → Option (Progress VmSettings)
read_all = set_members vm_key vm_settings set_vm_setting

next : Members → Option (Progress VmSettings) → Option (Progress VmSettings)
next ms r = elim r [ none ↦ none | some p ↦ read_all ms p ]

read_all-next :
    (key : Bytes) (v : Value) (ms : Members) (p : Progress VmSettings)
    → read_all ((key, v) ∷ ms) p ≡ next ms (apply_one (find_setting vm_key key vm_settings) v p)
unfolding read_all set_members set_member apply_one next
read_all-next key v ms p = refl

next-is_none :
    (ms : Members) (r : Option (Progress VmSettings)) (b c : Bool)
    → is_none r ≡ b
    → ((p : Progress VmSettings) → is_none (read_all ms p) ≡ c)
    → is_none (next ms r) ≡ (b || c)
unfolding next
next-is_none ms none b c h ih = ground arith
next-is_none ms (some p) b c h ih = ground (arith, ih p)

read_all-any_stray :
    (ms : Members) (p : Progress VmSettings) → is_none (read_all ms p) ≡ any_stray ms
unfolding read_all set_members
read_all-any_stray [] p = refl
read_all-any_stray ((key, v) ∷ ms) p =
    let o : Option VmSetting = find_setting vm_key key vm_settings in
    ap is_none (read_all-next key v ms p)
    ∙ next-is_none ms (apply_one o v p) (is_stray o v) (any_stray ms) (apply_one-is_stray o v p)
        (read_all-any_stray ms)

finish-is_none :
    (r : Option (Progress VmSettings))
    → is_none (elim r as (λ _. Option (Progress VmSettings)) [
      | none ↦ none
      | some (s', valid, out) ↦
          some (s', valid, (if valid then out ++ writes_bool true ∷ [] else out))
    ])
      ≡ is_none r
finish-is_none none = refl
finish-is_none (some p) = refl

-- What reading the settings of a VM does is defined except on objects with a member that is wrong in
-- one of these ways: a hypervisor that is no text; a value that is no Boolean for what is enabled
-- (turns, votes, the agent, virtio, the restore on a lost heartbeat, uploads); a value that is no
-- unsigned 32-bit number for a time (of a turn, a vote, its cooldown, the heartbeat, the uploads'
-- cooldown), the size of uploads, or the length of their names.
pub parse_vm_settings-any_stray :
    (s : VmSettings) (ms : Members) → is_none (parse_vm_settings s ms) ≡ any_stray ms
unfolding parse_vm_settings read_all
parse_vm_settings-any_stray s ms =
    finish-is_none (read_all ms (s, true, [])) ∙ read_all-any_stray ms (s, true, [])
