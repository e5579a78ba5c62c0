-- ===== src/Settings/Gives.antt =====
-- What each setting of `ParseVMSettings` of src/CollabVM.cpp does with the name of the VM.
use collab_vm_server.Prelude.{
  ℕ, ◌%◌, ◌≡◌, subst, refl, inl, inr, Bool, true, false, [], Bytes, codes, equal, equal_sound,
  Bool-cases, length, ◌==◌, ltb,
}
use collab_vm_server.Settings.{
  Value, bool, number, text, Effect, sets, fails, undefined, with_bool, with_text, with_number,
}
use collab_vm_server.Settings.Vm.{
  SocketType, Hypervisor, SnapshotMode, VmSettings, VmSetting, name, auto_start, display_name,
  hypervisor, status, restore_shutdown, restore_timeout, restore_periodic, period_restore_time,
  vnc_address, vnc_port, qmp_socket_type, qmp_address, qmp_port, max_attempts, qemu_cmd,
  qemu_snapshot_mode, turns_enabled, turn_time, votes_enabled, vote_time, vote_cooldown_time,
  agent_enabled, agent_socket_type, agent_use_virtio, agent_address, agent_port, restore_heartbeat,
  heartbeat_timeout, uploads_enabled, upload_cooldown_time, upload_max_size, upload_max_filename,
  motd, vm_key, set_vm_setting, stray, with_name, with_socket_type, with_hypervisor,
  with_snapshot_mode, with_port, with_uint16, with_uint32, set_upload_max_filename,
}

abbrev pub is_text : Bytes → Value → Bool
is_text n (text s) = equal s n
is_text n _ = false

-- What an effect makes of the settings has this name.
abbrev pub Gives : Bytes → Effect VmSettings → Type 0
Gives n (sets s) = s.name ≡ n
Gives n _ = Unit

module _ (n : Bytes) (key : Bytes) where
  bool-Gives :
      (f : Bool → VmSettings) (v : Value)
      → ((x : Bool) → (f x).name ≡ n)
      → Gives n (with_bool key f v)
  unfolding with_bool
  bool-Gives f (bool x) h = h x
  bool-Gives f _ h = tt

  text-Gives :
      (f : Bytes → VmSettings) (v : Value)
      → ((x : Bytes) → (f x).name ≡ n)
      → Gives n (with_text key f v)
  unfolding with_text
  text-Gives f (text x) h = h x
  text-Gives f _ h = tt

  number-Gives :
      (test : ℕ → Bool) (message : Bytes) (f : ℕ → VmSettings) (v : Value)
      → ((x : ℕ) → (f x).name ≡ n)
      → Gives n (with_number key test message f v)
  unfolding with_number
  number-Gives test message f (number x) h = elim (Bool-cases (test x)) [
    | inl e ↦ rw e (h x)
    | inr e ↦ rw e tt
  ]
  number-Gives test message f _ h = tt

  socket_type-Gives :
      (f : SocketType → VmSettings) (v : Value)
      → ((x : SocketType) → (f x).name ≡ n)
      → Gives n (with_socket_type key f v)
  unfolding with_socket_type
  socket_type-Gives f (text x) h = elim (Bool-cases (length x == 0)) [
    | inl e ↦ rw e tt
    | inr e ↦ elim (Bool-cases (equal x (codes "tcp"))) [
      | inl t ↦ rw (e, t) (h SocketType.tcp)
      | inr t ↦ elim (Bool-cases (equal x (codes "local"))) [
        | inl l ↦ rw (e, t, l) (h SocketType.local)
        | inr l ↦ rw (e, t, l) tt
      ]
    ]
  ]
  socket_type-Gives f _ h = tt

  hypervisor-Gives :
      (f : Hypervisor → VmSettings) (v : Value)
      → ((x : Hypervisor) → (f x).name ≡ n)
      → Gives n (with_hypervisor key f v)
  unfolding with_hypervisor
  hypervisor-Gives f (text x) h = elim (Bool-cases (equal x (codes "qemu"))) [
    | inl q ↦ rw q (h Hypervisor.qemu)
    | inr q ↦ elim (Bool-cases (equal x (codes "virtualbox"))) [
      | inl b ↦ rw (q, b) (h Hypervisor.virtualbox)
      | inr b ↦ elim (Bool-cases (equal x (codes "vmware"))) [
        | inl w ↦ rw (q, b, w) (h Hypervisor.vmware)
        | inr w ↦ rw (q, b, w) tt
      ]
    ]
  ]
  hypervisor-Gives f _ h = tt

  snapshot_mode-Gives :
      (f : SnapshotMode → VmSettings) (v : Value)
      → ((x : SnapshotMode) → (f x).name ≡ n)
      → Gives n (with_snapshot_mode key f v)
  unfolding with_snapshot_mode
  snapshot_mode-Gives f (text x) h = elim (Bool-cases (equal x (codes "off"))) [
    | inl o ↦ rw o (h SnapshotMode.off)
    | inr o ↦ elim (Bool-cases (equal x (codes "vm"))) [
      | inl m ↦ rw (o, m) (h SnapshotMode.vm_snapshots)
      | inr m ↦ elim (Bool-cases (equal x (codes "hd"))) [
        | inl d ↦ rw (o, m, d) (h SnapshotMode.hd_snapshots)
        | inr d ↦ rw (o, m, d) tt
      ]
    ]
  ]
  snapshot_mode-Gives f _ h = tt

stray-Gives : (n : Bytes) (e : Effect VmSettings) → Gives n e → Gives n (stray e)
unfolding stray
stray-Gives n (sets s) h = h
stray-Gives n (fails key message) h = tt
stray-Gives n undefined h = tt

any_number-Gives :
    (n key : Bytes) (f : ℕ → VmSettings) (v : Value)
    → ((x : ℕ) → (f x).name ≡ n)
    → Gives n (stray (with_number key (λ x. true) [] f v))
any_number-Gives n key f v h = stray-Gives n _ (number-Gives n key (λ x. true) [] f v h)

port-Gives :
    (n key : Bytes) (f : ℕ → VmSettings) (v : Value)
    → ((x : ℕ) → (f x).name ≡ n)
    → Gives n (with_port key f v)
unfolding with_port
port-Gives n key f v h = number-Gives n key (λ x. ltb x 65535) (codes "Port too large") f v h

max_filename-Gives : (v : Value) (s : VmSettings) → Gives s.name (set_upload_max_filename v s)
unfolding set_upload_max_filename
max_filename-Gives (number x) s = elim (Bool-cases (ltb x 255)) [
  | inl e ↦ rw e refl
  | inr e ↦ rw e tt
]
max_filename-Gives _ s = tt

-- What a setting does with the name, where the value of a name is the text `n`.
abbrev pub is_allowed : Bytes → VmSetting → Value → Bool
is_allowed n name v = is_text n v
is_allowed n _ v = true

pub set_vm_setting-Gives :
    (n : Bytes) (i : VmSetting) (v : Value) (s : VmSettings)
    → is_allowed n i v ≡ true
    → s.name ≡ n
    → Gives n (set_vm_setting i v s)
unfolding set_vm_setting with_name with_port with_uint16 with_uint32
set_vm_setting-Gives n name (text x) s a h = elim (Bool-cases (length x == 0)) [
  | inl e ↦ rw e tt
  | inr e ↦ rw e (equal_sound x n a)
]
set_vm_setting-Gives n name _ s a h = tt
set_vm_setting-Gives n auto_start v s a h = bool-Gives n _ _ v (λ x. h)
set_vm_setting-Gives n display_name v s a h = text-Gives n _ _ v (λ x. h)
set_vm_setting-Gives n hypervisor v s a h =
    hypervisor-Gives n (vm_key hypervisor) (λ x. record s { hypervisor = x }) v (λ x. h)
set_vm_setting-Gives n status v s a h = h
set_vm_setting-Gives n restore_shutdown v s a h = bool-Gives n _ _ v (λ x. h)
set_vm_setting-Gives n restore_timeout v s a h = bool-Gives n _ _ v (λ x. h)
set_vm_setting-Gives n restore_periodic v s a h = h
set_vm_setting-Gives n period_restore_time v s a h = h
set_vm_setting-Gives n vnc_address v s a h = text-Gives n _ _ v (λ x. h)
set_vm_setting-Gives n vnc_port v s a h =
    port-Gives n (vm_key vnc_port) (λ x. record s { vnc_port = x }) v (λ x. h)
set_vm_setting-Gives n qmp_socket_type v s a h =
    socket_type-Gives n (vm_key qmp_socket_type) (λ x. record s { qmp_socket_type = x }) v (λ x. h)
set_vm_setting-Gives n qmp_address v s a h = text-Gives n _ _ v (λ x. h)
set_vm_setting-Gives n qmp_port v s a h =
    port-Gives n (vm_key qmp_port) (λ x. record s { qmp_port = x }) v (λ x. h)
set_vm_setting-Gives n max_attempts v s a h =
    number-Gives n (vm_key max_attempts) (λ x. ltb x 255)
      (codes "Maximum connection attempts too large") (λ x. record s { max_attempts = x }) v
      (λ x. h)
set_vm_setting-Gives n qemu_cmd v s a h = text-Gives n _ _ v (λ x. h)
set_vm_setting-Gives n qemu_snapshot_mode v s a h =
    snapshot_mode-Gives n (vm_key qemu_snapshot_mode) (λ x. record s { qemu_snapshot_mode = x }) v
      (λ x. h)
set_vm_setting-Gives n turns_enabled v s a h = stray-Gives n _ (bool-Gives n _ _ v (λ x. h))
set_vm_setting-Gives n turn_time v s a h =
    any_number-Gives n (vm_key turn_time) (λ x. record s { turn_time = x % 65536 }) v (λ x. h)
set_vm_setting-Gives n votes_enabled v s a h = stray-Gives n _ (bool-Gives n _ _ v (λ x. h))
set_vm_setting-Gives n vote_time v s a h =
    any_number-Gives n (vm_key vote_time) (λ x. record s { vote_time = x % 65536 }) v (λ x. h)
set_vm_setting-Gives n vote_cooldown_time v s a h =
    any_number-Gives n (vm_key vote_cooldown_time)
      (λ x. record s { vote_cooldown_time = x % 65536 }) v (λ x. h)
set_vm_setting-Gives n agent_enabled v s a h = stray-Gives n _ (bool-Gives n _ _ v (λ x. h))
set_vm_setting-Gives n agent_socket_type v s a h =
    socket_type-Gives n (vm_key agent_socket_type) (λ x. record s { agent_socket_type = x }) v
      (λ x. h)
set_vm_setting-Gives n agent_use_virtio v s a h = stray-Gives n _ (bool-Gives n _ _ v (λ x. h))
set_vm_setting-Gives n agent_address v s a h = text-Gives n _ _ v (λ x. h)
set_vm_setting-Gives n agent_port v s a h =
    port-Gives n (vm_key agent_port) (λ x. record s { agent_port = x }) v (λ x. h)
set_vm_setting-Gives n restore_heartbeat v s a h = stray-Gives n _ (bool-Gives n _ _ v (λ x. h))
set_vm_setting-Gives n heartbeat_timeout v s a h =
    any_number-Gives n (vm_key heartbeat_timeout) (λ x. s) v (λ x. h)
set_vm_setting-Gives n uploads_enabled v s a h = stray-Gives n _ (bool-Gives n _ _ v (λ x. h))
set_vm_setting-Gives n upload_cooldown_time v s a h =
    any_number-Gives n (vm_key upload_cooldown_time) (λ x. record s { upload_cooldown_time = x }) v
      (λ x. h)
set_vm_setting-Gives n upload_max_size v s a h =
    any_number-Gives n (vm_key upload_max_size) (λ x. record s { max_upload_size = x }) v (λ x. h)
set_vm_setting-Gives n upload_max_filename v s a h =
    subst (λ (m : Bytes). Gives m (set_upload_max_filename v s)) h (max_filename-Gives v s)
set_vm_setting-Gives n motd v s a h = text-Gives n _ _ v (λ x. h)
