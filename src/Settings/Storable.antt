-- ===== src/Settings/Storable.antt =====
-- What each setting of a VM does with the value that src/CollabVM.cpp writes for it.
use collab_vm_server.Prelude.{
  ℕ, ◌<◌, ◌≡◌, refl, ap, Bool, true, false, Option, none, some, Bytes, arith, length, equal, lt→ltb,
  ◌==◌, if◌then◌else◌,
}
use collab_vm_server.Chat.Instruction.{c_str}
use collab_vm_server.Processing.{ControllerState}
use collab_vm_server.Settings.{Value, text, sets}
use collab_vm_server.Settings.Vm.{
  SocketType, tcp, local, Hypervisor, qemu, virtualbox, vmware, SnapshotMode, off, vm_snapshots,
  hd_snapshots, VmSettings, VmSetting, name, auto_start, display_name, hypervisor, status,
  restore_shutdown, restore_timeout, restore_periodic, period_restore_time, vnc_address, vnc_port,
  qmp_socket_type, qmp_address, qmp_port, max_attempts, qemu_cmd, qemu_snapshot_mode, turns_enabled,
  turn_time, votes_enabled, vote_time, vote_cooldown_time, agent_enabled, agent_socket_type,
  agent_use_virtio, agent_address, agent_port, restore_heartbeat, heartbeat_timeout,
  uploads_enabled, upload_cooldown_time, upload_max_size, upload_max_filename, motd, vm_key,
  set_vm_setting, with_socket_type, with_hypervisor, with_snapshot_mode,
}
use collab_vm_server.Settings.Write.{
  written_value, socket_type_name, hypervisor_name, snapshot_mode_name, status_value,
}

-- Settings with a name, without zero bytes in the texts, and with the numbers in the ranges that
-- the panel accepts.
pub record IsStorable (s : VmSettings) : Type 0 where
  pub named : (length s.name == 0) ≡ false
  pub name : c_str s.name ≡ s.name
  pub display_name : c_str s.display_name ≡ s.display_name
  pub vnc_address : c_str s.vnc_address ≡ s.vnc_address
  pub qmp_address : c_str s.qmp_address ≡ s.qmp_address
  pub qemu_cmd : c_str s.qemu_cmd ≡ s.qemu_cmd
  pub agent_address : c_str s.agent_address ≡ s.agent_address
  pub motd : c_str s.motd ≡ s.motd
  pub vnc_port : s.vnc_port < 65535
  pub qmp_port : s.qmp_port < 65535
  pub agent_port : s.agent_port < 65535
  pub max_attempts : s.max_attempts < 255
  pub upload_max_filename : s.upload_max_filename < 255
  pub turn_time : s.turn_time < 65536
  pub vote_time : s.vote_time < 65536
  pub vote_cooldown_time : s.vote_cooldown_time < 65536

-- The settings with one of them taken from others, as far as it is written.
abbrev pub copy : VmSetting → VmSettings → VmSettings → VmSettings
copy name s t = t
copy auto_start s t = record t { auto_start = s.auto_start }
copy display_name s t = record t { display_name = s.display_name }
copy hypervisor s t = record t { hypervisor = s.hypervisor }
copy status s t = t
copy restore_shutdown s t = record t { restore_on_shutdown = s.restore_on_shutdown }
copy restore_timeout s t = record t { restore_on_timeout = s.restore_on_timeout }
copy restore_periodic s t = t
copy period_restore_time s t = t
copy vnc_address s t = record t { vnc_address = s.vnc_address }
copy vnc_port s t = record t { vnc_port = s.vnc_port }
copy qmp_socket_type s t = record t { qmp_socket_type = s.qmp_socket_type }
copy qmp_address s t = record t { qmp_address = s.qmp_address }
copy qmp_port s t = record t { qmp_port = s.qmp_port }
copy max_attempts s t = record t { max_attempts = s.max_attempts }
copy qemu_cmd s t = record t { qemu_cmd = s.qemu_cmd }
copy qemu_snapshot_mode s t = record t { qemu_snapshot_mode = s.qemu_snapshot_mode }
copy turns_enabled s t = record t { turns_enabled = s.turns_enabled }
copy turn_time s t = record t { turn_time = s.turn_time }
copy votes_enabled s t = record t { votes_enabled = s.votes_enabled }
copy vote_time s t = record t { vote_time = s.vote_time }
copy vote_cooldown_time s t = record t { vote_cooldown_time = s.vote_cooldown_time }
copy agent_enabled s t = record t { agent_enabled = s.agent_enabled }
copy agent_socket_type s t = record t { agent_socket_type = s.agent_socket_type }
copy agent_use_virtio s t = record t { agent_use_virtio = s.agent_use_virtio }
copy agent_address s t = record t { agent_address = s.agent_address }
copy agent_port s t = record t { agent_port = s.agent_port }
copy restore_heartbeat s t = record t { restore_heartbeat = s.restore_heartbeat }
copy heartbeat_timeout s t = t
copy uploads_enabled s t = record t { uploads_enabled = s.uploads_enabled }
copy upload_cooldown_time s t = record t { upload_cooldown_time = s.upload_cooldown_time }
copy upload_max_size s t = record t { max_upload_size = s.max_upload_size }
copy upload_max_filename s t = record t { upload_max_filename = s.upload_max_filename }
copy motd s t = record t { motd = s.motd }

socket_type-sets :
    (key : Bytes) (f : SocketType → VmSettings) (x : SocketType)
    → with_socket_type key f (text (socket_type_name x)) ≡ sets (f x)
unfolding with_socket_type socket_type_name equal
socket_type-sets key f tcp = refl
socket_type-sets key f local = refl

hypervisor-sets :
    (key : Bytes) (f : Hypervisor → VmSettings) (x : Hypervisor)
    → with_hypervisor key f (text (hypervisor_name x)) ≡ sets (f x)
unfolding with_hypervisor hypervisor_name equal
hypervisor-sets key f qemu = refl
hypervisor-sets key f virtualbox = refl
hypervisor-sets key f vmware = refl

snapshot_mode-sets :
    (key : Bytes) (f : SnapshotMode → VmSettings) (x : SnapshotMode)
    → with_snapshot_mode key f (text (snapshot_mode_name x)) ≡ sets (f x)
unfolding with_snapshot_mode snapshot_mode_name equal
snapshot_mode-sets key f off = refl
snapshot_mode-sets key f vm_snapshots = refl
snapshot_mode-sets key f hd_snapshots = refl

if_true : {A : Type 0} {b : Bool} (x y : A) → b ≡ true → (if b then x else y) ≡ x
if_true x y h = ap (λ (b : Bool). if b then x else y) h

-- What a setting does with the value that is written for it, if one is.
abbrev pub Copies : Option Value → VmSetting → VmSettings → VmSettings → Type 0
Copies none i s t = copy i s t ≡ t
Copies (some v) i s t = set_vm_setting i v t ≡ sets (copy i s t)

pub written-Copies :
    (state : Option ControllerState) (i : VmSetting) (s t : VmSettings)
    → IsStorable s
    → Copies (written_value state i s) i s t
unfolding written_value set_vm_setting status_value
written-Copies state name s t h = refl
written-Copies state auto_start s t h = refl
written-Copies state display_name s t h =
    ap (λ (x : Bytes). sets (record t { display_name = x })) h.display_name
written-Copies state hypervisor s t h =
    hypervisor-sets (vm_key hypervisor) (λ x. record t { hypervisor = x }) s.hypervisor
written-Copies state status s t h = refl
written-Copies state restore_shutdown s t h = refl
written-Copies state restore_timeout s t h = refl
written-Copies state restore_periodic s t h = refl
written-Copies state period_restore_time s t h = refl
written-Copies state vnc_address s t h =
    ap (λ (x : Bytes). sets (record t { vnc_address = x })) h.vnc_address
written-Copies state vnc_port s t h = if_true _ _ (lt→ltb _ _ h.vnc_port)
written-Copies state qmp_socket_type s t h =
    socket_type-sets (vm_key qmp_socket_type) (λ x. record t { qmp_socket_type = x })
      s.qmp_socket_type
written-Copies state qmp_address s t h =
    ap (λ (x : Bytes). sets (record t { qmp_address = x })) h.qmp_address
written-Copies state qmp_port s t h = if_true _ _ (lt→ltb _ _ h.qmp_port)
written-Copies state max_attempts s t h = if_true _ _ (lt→ltb _ _ h.max_attempts)
written-Copies state qemu_cmd s t h =
    ap (λ (x : Bytes). sets (record t { qemu_cmd = x })) h.qemu_cmd
written-Copies state qemu_snapshot_mode s t h =
    snapshot_mode-sets (vm_key qemu_snapshot_mode) (λ x. record t { qemu_snapshot_mode = x })
      s.qemu_snapshot_mode
written-Copies state turns_enabled s t h = refl
written-Copies state turn_time s t h =
    ap (λ (x : ℕ). sets (record t { turn_time = x })) (omega (arith, h.turn_time))
written-Copies state votes_enabled s t h = refl
written-Copies state vote_time s t h =
    ap (λ (x : ℕ). sets (record t { vote_time = x })) (omega (arith, h.vote_time))
written-Copies state vote_cooldown_time s t h =
    ap (λ (x : ℕ). sets (record t { vote_cooldown_time = x })) (omega (arith, h.vote_cooldown_time))
written-Copies state agent_enabled s t h = refl
written-Copies state agent_socket_type s t h =
    socket_type-sets (vm_key agent_socket_type) (λ x. record t { agent_socket_type = x })
      s.agent_socket_type
written-Copies state agent_use_virtio s t h = refl
written-Copies state agent_address s t h =
    ap (λ (x : Bytes). sets (record t { agent_address = x })) h.agent_address
written-Copies state agent_port s t h = if_true _ _ (lt→ltb _ _ h.agent_port)
written-Copies state restore_heartbeat s t h = refl
written-Copies state heartbeat_timeout s t h = refl
written-Copies state uploads_enabled s t h = refl
written-Copies state upload_cooldown_time s t h = refl
written-Copies state upload_max_size s t h = refl
written-Copies state upload_max_filename s t h = if_true _ _ (lt→ltb _ _ h.upload_max_filename)
written-Copies state motd s t h = ap (λ (x : Bytes). sets (record t { motd = x })) h.motd
