-- ===== src/Settings/Vm.antt =====
-- `ParseVMSettings` of src/CollabVM.cpp.
pub mod Fields
use collab_vm_server.Prelude.{
  ℕ, ◌%◌, Bool, true, Option, none, some, List, [], ◌∷◌, ◌++◌, Bytes, codes, ltb, ◌==◌,
  if◌then◌else◌, length, equal,
}
use collab_vm_server.Settings.{
  Value, number, text, Members, writes_bool, Effect, sets, fails, undefined, with_bool, with_text,
  with_number, Progress, set_members, invalid_object,
}
pub use collab_vm_server.Settings.Vm.Fields.{
  SocketType, tcp, local, Hypervisor, qemu, virtualbox, vmware, SnapshotMode, off, vm_snapshots,
  hd_snapshots, VmSettings, VmSetting, name, auto_start, display_name, hypervisor, status,
  restore_shutdown, restore_timeout, restore_periodic, period_restore_time, vnc_address, vnc_port,
  qmp_socket_type, qmp_address, qmp_port, max_attempts, qemu_cmd, qemu_snapshot_mode, turns_enabled,
  turn_time, votes_enabled, vote_time, vote_cooldown_time, agent_enabled, agent_socket_type,
  agent_use_virtio, agent_address, agent_port, restore_heartbeat, heartbeat_timeout,
  uploads_enabled, upload_cooldown_time, upload_max_size, upload_max_filename, motd, vm_settings,
}
unfoldable pub use collab_vm_server.Settings.Vm.Fields.{vm_key}

module _ {A : Type 0} where
  -- Where the source looks up the error's key in `server_settings_`, which has ten names, by the
  -- number of a setting of a VM, which is ten or more.
  unfoldable pub stray : Effect A → Effect A
  stray (fails key message) = undefined
  stray e = e

  unfoldable pub with_socket_type : Bytes → (SocketType → A) → Value → Effect A
  with_socket_type key f (text s) =
      if length s == 0
      then fails key invalid_object
      else if equal s (codes "tcp")
      then sets (f tcp)
      else if equal s (codes "local")
      then sets (f local)
      else fails key (codes "Invalid socket type")
  with_socket_type key f _ = fails key invalid_object

  -- `GetString` of a value that is no string follows the error.
  unfoldable pub with_hypervisor : Bytes → (Hypervisor → A) → Value → Effect A
  with_hypervisor key f (text s) =
      if equal s (codes "qemu")
      then sets (f qemu)
      else if equal s (codes "virtualbox")
      then sets (f virtualbox)
      else if equal s (codes "vmware")
      then sets (f vmware)
      else fails key (codes "Unknown hypervisor name")
  with_hypervisor key f _ = undefined

  unfoldable pub with_snapshot_mode : Bytes → (SnapshotMode → A) → Value → Effect A
  with_snapshot_mode key f (text s) =
      if equal s (codes "off")
      then sets (f off)
      else if equal s (codes "vm")
      then sets (f vm_snapshots)
      else if equal s (codes "hd")
      then sets (f hd_snapshots)
      else fails key (codes "Unknown snapshot mode")
  with_snapshot_mode key f _ = fails key invalid_object

  unfoldable pub with_name : Bytes → (Bytes → A) → Value → Effect A
  with_name key f (text s) = if length s == 0 then fails key invalid_object else sets (f s)
  with_name key f _ = fails key invalid_object

  unfoldable pub with_port : Bytes → (ℕ → A) → Value → Effect A
  unfolding with_number
  with_port key = with_number key (λ n. ltb n 65535) (codes "Port too large")

  -- A number that is stored in 16 bits, whatever it is.
  unfoldable pub with_uint16 : Bytes → (ℕ → A) → Value → Effect A
  unfolding with_number
  with_uint16 key f = with_number key (λ n. true) [] (λ n. f (n % 65536))

  unfoldable pub with_uint32 : Bytes → (ℕ → A) → Value → Effect A
  unfolding with_number
  with_uint32 key = with_number key (λ n. true) []

-- The key of the length of a filename is stray only in the error on its type.
unfoldable pub set_upload_max_filename : Value → VmSettings → Effect VmSettings
unfolding vm_key
set_upload_max_filename (number n) s =
    if ltb n 255
    then sets (record s { upload_max_filename = n })
    else fails (vm_key upload_max_filename) (codes "Max filename is too long")
set_upload_max_filename _ s = undefined

-- The `switch` on the setting.
unfoldable pub set_vm_setting : VmSetting → Value → VmSettings → Effect VmSettings
unfolding vm_key with_name with_bool with_text with_number with_port with_socket_type
    with_hypervisor with_snapshot_mode with_uint16 with_uint32 stray set_upload_max_filename
set_vm_setting name v s = with_name (vm_key name) (λ x. record s { name = x }) v
set_vm_setting auto_start v s = with_bool (vm_key auto_start) (λ x. record s { auto_start = x }) v
set_vm_setting display_name v s =
    with_text (vm_key display_name) (λ x. record s { display_name = x }) v
set_vm_setting hypervisor v s =
    with_hypervisor (vm_key hypervisor) (λ x. record s { hypervisor = x }) v
set_vm_setting status v s = sets s
set_vm_setting restore_shutdown v s =
    with_bool (vm_key restore_shutdown) (λ x. record s { restore_on_shutdown = x }) v
set_vm_setting restore_timeout v s =
    with_bool (vm_key restore_timeout) (λ x. record s { restore_on_timeout = x }) v
set_vm_setting restore_periodic v s = sets s
set_vm_setting period_restore_time v s = sets s
set_vm_setting vnc_address v s =
    with_text (vm_key vnc_address) (λ x. record s { vnc_address = x }) v
set_vm_setting vnc_port v s = with_port (vm_key vnc_port) (λ x. record s { vnc_port = x }) v
set_vm_setting qmp_socket_type v s =
    with_socket_type (vm_key qmp_socket_type) (λ x. record s { qmp_socket_type = x }) v
set_vm_setting qmp_address v s =
    with_text (vm_key qmp_address) (λ x. record s { qmp_address = x }) v
set_vm_setting qmp_port v s = with_port (vm_key qmp_port) (λ x. record s { qmp_port = x }) v
set_vm_setting max_attempts v s =
    with_number (vm_key max_attempts) (λ n. ltb n 255)
      (codes "Maximum connection attempts too large") (λ n. record s { max_attempts = n }) v
set_vm_setting qemu_cmd v s = with_text (vm_key qemu_cmd) (λ x. record s { qemu_cmd = x }) v
set_vm_setting qemu_snapshot_mode v s =
    with_snapshot_mode (vm_key qemu_snapshot_mode) (λ x. record s { qemu_snapshot_mode = x }) v
set_vm_setting turns_enabled v s =
    stray (with_bool (vm_key turns_enabled) (λ x. record s { turns_enabled = x }) v)
set_vm_setting turn_time v s =
    stray (with_uint16 (vm_key turn_time) (λ x. record s { turn_time = x }) v)
set_vm_setting votes_enabled v s =
    stray (with_bool (vm_key votes_enabled) (λ x. record s { votes_enabled = x }) v)
set_vm_setting vote_time v s =
    stray (with_uint16 (vm_key vote_time) (λ x. record s { vote_time = x }) v)
set_vm_setting vote_cooldown_time v s =
    stray (with_uint16 (vm_key vote_cooldown_time) (λ x. record s { vote_cooldown_time = x }) v)
set_vm_setting agent_enabled v s =
    stray (with_bool (vm_key agent_enabled) (λ x. record s { agent_enabled = x }) v)
set_vm_setting agent_socket_type v s =
    with_socket_type (vm_key agent_socket_type) (λ x. record s { agent_socket_type = x }) v
set_vm_setting agent_use_virtio v s =
    stray (with_bool (vm_key agent_use_virtio) (λ x. record s { agent_use_virtio = x }) v)
set_vm_setting agent_address v s =
    with_text (vm_key agent_address) (λ x. record s { agent_address = x }) v
set_vm_setting agent_port v s = with_port (vm_key agent_port) (λ x. record s { agent_port = x }) v
set_vm_setting restore_heartbeat v s =
    stray (with_bool (vm_key restore_heartbeat) (λ x. record s { restore_heartbeat = x }) v)
set_vm_setting heartbeat_timeout v s = stray (with_uint32 (vm_key heartbeat_timeout) (λ n. s) v)
set_vm_setting uploads_enabled v s =
    stray (with_bool (vm_key uploads_enabled) (λ x. record s { uploads_enabled = x }) v)
set_vm_setting upload_cooldown_time v s =
    stray (with_uint32 (vm_key upload_cooldown_time) (λ x. record s { upload_cooldown_time = x }) v)
set_vm_setting upload_max_size v s =
    stray (with_uint32 (vm_key upload_max_size) (λ x. record s { max_upload_size = x }) v)
set_vm_setting upload_max_filename v s = set_upload_max_filename v s
set_vm_setting motd v s = with_text (vm_key motd) (λ x. record s { motd = x }) v

-- The settings, whether all were valid, and what was written.
unfoldable pub parse_vm_settings : VmSettings → Members → Option (Progress VmSettings)
unfolding set_members set_vm_setting
parse_vm_settings s ms = elim (set_members vm_key vm_settings set_vm_setting ms (s, true, [])) [
  | none ↦ none
  | some (s', valid, out) ↦ some (s', valid, (if valid then out ++ writes_bool true ∷ [] else out))
]
