-- ===== src/Settings/Keys.antt =====
-- The names of the settings of a VM in src/CollabVM.cpp are different from each other.
use collab_vm_server.Prelude.{◌≡◌, refl, some, equal}
use collab_vm_server.Settings.{find_setting}
use collab_vm_server.Settings.Vm.{
  VmSetting, name, auto_start, display_name, hypervisor, status, restore_shutdown, restore_timeout,
  restore_periodic, period_restore_time, vnc_address, vnc_port, qmp_socket_type, qmp_address,
  qmp_port, max_attempts, qemu_cmd, qemu_snapshot_mode, turns_enabled, turn_time, votes_enabled,
  vote_time, vote_cooldown_time, agent_enabled, agent_socket_type, agent_use_virtio, agent_address,
  agent_port, restore_heartbeat, heartbeat_timeout, uploads_enabled, upload_cooldown_time,
  upload_max_size, upload_max_filename, motd, vm_settings, vm_key,
}

-- Each key is the first of its name in the table.
pub find-vm_key : (i : VmSetting) → find_setting vm_key (vm_key i) vm_settings ≡ some i
unfolding find_setting vm_key equal
find-vm_key name = refl
find-vm_key auto_start = refl
find-vm_key display_name = refl
find-vm_key hypervisor = refl
find-vm_key status = refl
find-vm_key restore_shutdown = refl
find-vm_key restore_timeout = refl
find-vm_key restore_periodic = refl
find-vm_key period_restore_time = refl
find-vm_key vnc_address = refl
find-vm_key vnc_port = refl
find-vm_key qmp_socket_type = refl
find-vm_key qmp_address = refl
find-vm_key qmp_port = refl
find-vm_key max_attempts = refl
find-vm_key qemu_cmd = refl
find-vm_key qemu_snapshot_mode = refl
find-vm_key turns_enabled = refl
find-vm_key turn_time = refl
find-vm_key votes_enabled = refl
find-vm_key vote_time = refl
find-vm_key vote_cooldown_time = refl
find-vm_key agent_enabled = refl
find-vm_key agent_socket_type = refl
find-vm_key agent_use_virtio = refl
find-vm_key agent_address = refl
find-vm_key agent_port = refl
find-vm_key restore_heartbeat = refl
find-vm_key heartbeat_timeout = refl
find-vm_key uploads_enabled = refl
find-vm_key upload_cooldown_time = refl
find-vm_key upload_max_size = refl
find-vm_key upload_max_filename = refl
find-vm_key motd = refl
