-- ===== src/Settings/Vm/Fields.antt =====
-- The settings of a VM: src/Database/VMSettings.h, and their names in src/CollabVM.cpp.
use collab_vm_server.Prelude.{ℕ, Bool, List, [], ◌∷◌, Bytes, codes}

pub data SocketType : Type 0 where
  tcp local : SocketType

-- `HypervisorEnum` with the values that the table of names adds, and `SnapshotMode`.
pub data Hypervisor : Type 0 where
  qemu virtualbox vmware : Hypervisor

pub data SnapshotMode : Type 0 where
  off vm_snapshots hd_snapshots : SnapshotMode

-- The fields of `VMSettings` that the panel changes.
pub record VmSettings : Type 0 where
  pub name : Bytes
  pub auto_start : Bool
  pub display_name : Bytes
  pub hypervisor : Hypervisor
  pub restore_on_shutdown : Bool
  pub restore_on_timeout : Bool
  pub vnc_address : Bytes
  pub vnc_port : ℕ
  pub qmp_socket_type : SocketType
  pub qmp_address : Bytes
  pub qmp_port : ℕ
  pub max_attempts : ℕ
  pub qemu_cmd : Bytes
  pub qemu_snapshot_mode : SnapshotMode
  pub turns_enabled : Bool
  pub turn_time : ℕ
  pub votes_enabled : Bool
  pub vote_time : ℕ
  pub vote_cooldown_time : ℕ
  pub agent_enabled : Bool
  pub agent_socket_type : SocketType
  pub agent_use_virtio : Bool
  pub agent_address : Bytes
  pub agent_port : ℕ
  pub restore_heartbeat : Bool
  pub uploads_enabled : Bool
  pub upload_cooldown_time : ℕ
  pub max_upload_size : ℕ
  pub upload_max_filename : ℕ
  pub motd : Bytes

-- `status`, `restore-periodic` and `restore-periodic-time` have no case in the `switch`.
pub data VmSetting : Type 0 where
  name auto_start display_name hypervisor status restore_shutdown restore_timeout : VmSetting
  restore_periodic period_restore_time vnc_address vnc_port qmp_socket_type : VmSetting
  qmp_address qmp_port max_attempts qemu_cmd qemu_snapshot_mode turns_enabled : VmSetting
  turn_time votes_enabled vote_time vote_cooldown_time agent_enabled : VmSetting
  agent_socket_type agent_use_virtio agent_address agent_port restore_heartbeat : VmSetting
  heartbeat_timeout uploads_enabled upload_cooldown_time upload_max_size : VmSetting
  upload_max_filename motd : VmSetting

abbrev pub vm_settings : List VmSetting
vm_settings =
    name ∷ auto_start ∷ display_name ∷ hypervisor ∷ status ∷ restore_shutdown ∷ restore_timeout
    ∷ restore_periodic ∷ period_restore_time ∷ vnc_address ∷ vnc_port ∷ qmp_socket_type
    ∷ qmp_address ∷ qmp_port ∷ max_attempts ∷ qemu_cmd ∷ qemu_snapshot_mode ∷ turns_enabled
    ∷ turn_time ∷ votes_enabled ∷ vote_time ∷ vote_cooldown_time ∷ agent_enabled ∷ agent_socket_type
    ∷ agent_use_virtio ∷ agent_address ∷ agent_port ∷ restore_heartbeat ∷ heartbeat_timeout
    ∷ uploads_enabled ∷ upload_cooldown_time ∷ upload_max_size ∷ upload_max_filename ∷ motd ∷ []

unfoldable pub vm_key : VmSetting → Bytes
vm_key name = codes "name"
vm_key auto_start = codes "auto-start"
vm_key display_name = codes "display-name"
vm_key hypervisor = codes "hypervisor"
vm_key status = codes "status"
vm_key restore_shutdown = codes "restore-shutdown"
vm_key restore_timeout = codes "restore-timeout"
vm_key restore_periodic = codes "restore-periodic"
vm_key period_restore_time = codes "restore-periodic-time"
vm_key vnc_address = codes "vnc-address"
vm_key vnc_port = codes "vnc-port"
vm_key qmp_socket_type = codes "qmp-socket-type"
vm_key qmp_address = codes "qmp-address"
vm_key qmp_port = codes "qmp-port"
vm_key max_attempts = codes "max-attempts"
vm_key qemu_cmd = codes "qemu-cmd"
vm_key qemu_snapshot_mode = codes "qemu-snapshot-mode"
vm_key turns_enabled = codes "turns-enabled"
vm_key turn_time = codes "turn-time"
vm_key votes_enabled = codes "votes-enabled"
vm_key vote_time = codes "vote-time"
vm_key vote_cooldown_time = codes "vote-cooldown-time"
vm_key agent_enabled = codes "agent-enabled"
vm_key agent_socket_type = codes "agent-socket-type"
vm_key agent_use_virtio = codes "agent-use-virtio"
vm_key agent_address = codes "agent-address"
vm_key agent_port = codes "agent-port"
vm_key restore_heartbeat = codes "restore-heartbeat"
vm_key heartbeat_timeout = codes "heartbeat-timeout"
vm_key uploads_enabled = codes "uploads-enabled"
vm_key upload_cooldown_time = codes "upload-cooldown-time"
vm_key upload_max_size = codes "upload-max-size"
vm_key upload_max_filename = codes "upload-max-filename"
vm_key motd = codes "motd"
