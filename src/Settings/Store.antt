-- ===== src/Settings/Store.antt =====
-- What `PerformConfigFunction` of src/CollabVM.cpp reads and changes, with the map of VMs that `AddVM`
-- and `RemoveVM` of src/Database/Database.cpp change. What it has the controllers do is a list of calls.
use collab_vm_server.Prelude.{
  ℕ, false, Option, none, some, List, [], ◌∷◌, Bytes, codes, equal, if◌then◌else◌,
}
use collab_vm_server.Users.{less}
use collab_vm_server.Settings.{Value, Members, Token}
use collab_vm_server.Settings.Server.{Panel}
use collab_vm_server.Settings.Vm.{local, qemu, off, VmSettings}

-- The value of a member of the root object.
pub data Argument : Type 0 where
  value : Value → Argument
  members : Members → Argument

-- The parsed text: empty, no object, or an object.
pub data Document : Type 0 where
  empty not_object : Document
  root : List (Bytes × Argument) → Document

-- `Configuration` with the list of names in use, the passwords, and `VirtualMachines`.
pub record Store : Type 0 where
  pub panel : Panel
  pub master_password : Bytes
  pub mod_password : Bytes
  pub virtual_machines : List (Bytes × VmSettings)

pub data Call : Type 0 where
  starts : VmSettings → Call
  changes_settings : Bytes → VmSettings → Call
  stops : Bytes → Call

-- A function's result: the store, what was written, and the calls.
abbrev pub Answer : Type 0
Answer = Store × List Token × List Call

pub data ConfigFunction : Type 0 where
  settings password mod_password add_vm update_vm delete_vm : ConfigFunction

unfoldable pub function_key : ConfigFunction → Bytes
function_key settings = codes "settings"
function_key password = codes "password"
function_key mod_password = codes "mod-pw"
function_key add_vm = codes "add-vm"
function_key update_vm = codes "update-vm"
function_key delete_vm = codes "del-vm"

abbrev pub config_functions : List ConfigFunction
config_functions = settings ∷ password ∷ mod_password ∷ add_vm ∷ update_vm ∷ delete_vm ∷ []

module _ {ℓ} {A : Type ℓ} where
  unfoldable pub find_key : Bytes → List (Bytes × A) → Option A
  find_key k [] = none
  find_key k ((n, a) ∷ m) = if equal n k then some a else find_key k m

  -- `map[k] = a`: a key that is there gets the value, a new one is put at its place in the order.
  unfoldable pub put_key : Bytes → A → List (Bytes × A) → List (Bytes × A)
  unfolding less
  put_key k a [] = (k, a) ∷ []
  put_key k a ((n, b) ∷ m) =
      let rest = put_key k a m in
      if equal n k then (n, a) ∷ m else if less k n then (k, a) ∷ (n, b) ∷ m else (n, b) ∷ rest

  unfoldable pub remove_key : Bytes → List (Bytes × A) → List (Bytes × A)
  remove_key k [] = []
  remove_key k ((n, b) ∷ m) = if equal n k then m else (n, b) ∷ remove_key k m

-- `VMSettings()`, whose `AgentPort` is not set: it is what the memory holds.
unfoldable pub new_vm_settings : ℕ → VmSettings
new_vm_settings agent_port = record {
  name = [];
  auto_start = false;
  display_name = [];
  hypervisor = qemu;
  restore_on_shutdown = false;
  restore_on_timeout = false;
  vnc_address = [];
  vnc_port = 0;
  qmp_socket_type = local;
  qmp_address = [];
  qmp_port = 0;
  max_attempts = 5;
  qemu_cmd = [];
  qemu_snapshot_mode = off;
  turns_enabled = false;
  turn_time = 20;
  votes_enabled = false;
  vote_time = 60;
  vote_cooldown_time = 600;
  agent_enabled = false;
  agent_socket_type = local;
  agent_use_virtio = false;
  agent_address = [];
  agent_port = agent_port;
  restore_heartbeat = false;
  uploads_enabled = false;
  upload_cooldown_time = 0;
  max_upload_size = 0;
  upload_max_filename = 0;
  motd = [];
}
