-- ===== src/Settings/Write.antt =====
-- `WriteServerSettings` of src/CollabVM.cpp. A string is written up to its first zero byte.
use collab_vm_server.Prelude.{Option, none, some, List, [], ◌∷◌, ◌++◌, Bytes, codes}
use collab_vm_server.Chat.Instruction.{c_str}
use collab_vm_server.Processing.{ControllerState, stopped, state_number}
use collab_vm_server.Settings.{
  Value, bool, number, text, Members, Token, start_object, end_object, start_array, end_array,
  string, writes_bool, uint,
}
use collab_vm_server.Settings.Server.{Config, ServerSetting, server_key}
use collab_vm_server.Settings.Vm.{
  SocketType, tcp, local, Hypervisor, qemu, virtualbox, vmware, SnapshotMode, off, vm_snapshots,
  hd_snapshots, VmSettings, VmSetting, name, auto_start, display_name, hypervisor, status,
  restore_shutdown, restore_timeout, restore_periodic, period_restore_time, vnc_address, vnc_port,
  qmp_socket_type, qmp_address, qmp_port, max_attempts, qemu_cmd, qemu_snapshot_mode, turns_enabled,
  turn_time, votes_enabled, vote_time, vote_cooldown_time, agent_enabled, agent_socket_type,
  agent_use_virtio, agent_address, agent_port, restore_heartbeat, heartbeat_timeout,
  uploads_enabled, upload_cooldown_time, upload_max_size, upload_max_filename, motd, vm_settings,
  vm_key,
}

unfoldable pub socket_type_name : SocketType → Bytes
socket_type_name tcp = codes "tcp"
socket_type_name local = codes "local"

unfoldable pub hypervisor_name : Hypervisor → Bytes
hypervisor_name qemu = codes "qemu"
hypervisor_name virtualbox = codes "virtualbox"
hypervisor_name vmware = codes "vmware"

unfoldable pub snapshot_mode_name : SnapshotMode → Bytes
snapshot_mode_name off = codes "off"
snapshot_mode_name vm_snapshots = codes "vm"
snapshot_mode_name hd_snapshots = codes "hd"

-- The state of the controller of this name, if the map has one.
unfoldable pub status_value : Option ControllerState → Value
status_value none = number (state_number stopped)
status_value (some state) = number (state_number state)

-- What the loop over the settings writes for each; the name is written before it.
unfoldable pub written_value : Option ControllerState → VmSetting → VmSettings → Option Value
unfolding socket_type_name hypervisor_name snapshot_mode_name status_value
written_value state name s = none
written_value state auto_start s = some (bool s.auto_start)
written_value state display_name s = some (text (c_str s.display_name))
written_value state hypervisor s = some (text (hypervisor_name s.hypervisor))
written_value state status s = some (status_value state)
written_value state restore_shutdown s = some (bool s.restore_on_shutdown)
written_value state restore_timeout s = some (bool s.restore_on_timeout)
written_value state restore_periodic s = none
written_value state period_restore_time s = none
written_value state vnc_address s = some (text (c_str s.vnc_address))
written_value state vnc_port s = some (number s.vnc_port)
written_value state qmp_socket_type s = some (text (socket_type_name s.qmp_socket_type))
written_value state qmp_address s = some (text (c_str s.qmp_address))
written_value state qmp_port s = some (number s.qmp_port)
written_value state max_attempts s = some (number s.max_attempts)
written_value state qemu_cmd s = some (text (c_str s.qemu_cmd))
written_value state qemu_snapshot_mode s = some (text (snapshot_mode_name s.qemu_snapshot_mode))
written_value state turns_enabled s = some (bool s.turns_enabled)
written_value state turn_time s = some (number s.turn_time)
written_value state votes_enabled s = some (bool s.votes_enabled)
written_value state vote_time s = some (number s.vote_time)
written_value state vote_cooldown_time s = some (number s.vote_cooldown_time)
written_value state agent_enabled s = some (bool s.agent_enabled)
written_value state agent_socket_type s = some (text (socket_type_name s.agent_socket_type))
written_value state agent_use_virtio s = some (bool s.agent_use_virtio)
written_value state agent_address s = some (text (c_str s.agent_address))
written_value state agent_port s = some (number s.agent_port)
written_value state restore_heartbeat s = some (bool s.restore_heartbeat)
written_value state heartbeat_timeout s = some (number 0)
written_value state uploads_enabled s = some (bool s.uploads_enabled)
written_value state upload_cooldown_time s = some (number s.upload_cooldown_time)
written_value state upload_max_size s = some (number s.max_upload_size)
written_value state upload_max_filename s = some (number s.upload_max_filename)
written_value state motd s = some (text (c_str s.motd))

unfoldable pub written_loop : Option ControllerState → List VmSetting → VmSettings → Members
unfolding written_value vm_key
written_loop state [] s = []
written_loop state (i ∷ is) s =
    let rest = written_loop state is s in
    elim (written_value state i s) [ none ↦ rest | some v ↦ (vm_key i, v) ∷ rest ]

-- The members of the object that is written for a VM.
unfoldable pub written_members : Option ControllerState → VmSettings → Members
unfolding written_loop
written_members state s = (codes "name", text (c_str s.name)) ∷ written_loop state vm_settings s

abbrev value_tokens : Value → List Token
value_tokens (bool b) = writes_bool b ∷ []
value_tokens (number n) = uint n ∷ []
value_tokens (text s) = string s ∷ []
value_tokens _ = []

unfoldable pub write_members : Members → List Token
write_members [] = []
write_members ((key, v) ∷ ms) = string key ∷ (value_tokens v ++ write_members ms)

-- `state` is `GetState()` of the controller of each name in `vm_controllers_`.
module _ (state : Bytes → Option ControllerState) where
  unfoldable pub write_vms : List (Bytes × VmSettings) → List Token
  unfolding write_members written_members
  write_vms [] = []
  write_vms ((n, s) ∷ m) =
      start_object ∷ (write_members (written_members (state s.name) s) ++ end_object ∷ write_vms m)

  unfoldable pub write_server_settings : List (Bytes × VmSettings) → Config → List Token
  unfolding server_key write_members write_vms
  write_server_settings vms c =
      string (codes "settings")
      ∷ start_object
      ∷ (write_members (
            (server_key ServerSetting.chat_rate_count, number c.chat_rate_count)
            ∷ (server_key ServerSetting.chat_rate_time, number c.chat_rate_time)
            ∷ (server_key ServerSetting.chat_mute_time, number c.chat_mute_time)
            ∷ (server_key ServerSetting.max_connections, number c.max_connections)
            ∷ (server_key ServerSetting.max_upload_time, number c.max_upload_time)
            ∷ (server_key ServerSetting.ban_command, text (c_str c.ban_command))
            ∷ (server_key ServerSetting.jpeg_quality, number c.jpeg_quality)
            ∷ (server_key ServerSetting.mod_enabled, bool c.mod_enabled)
            ∷ (server_key ServerSetting.mod_perms, number c.mod_perms)
            ∷ [])
          ++ string (codes "vm") ∷ start_array ∷ (write_vms vms ++ end_array ∷ end_object ∷ []))
