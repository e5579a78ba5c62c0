-- ===== src/Settings/Perform.antt =====
-- `PerformConfigFunction` of src/CollabVM.cpp, and `GetServerSettings`.
use collab_vm_server.Prelude.{
  ℕ, Bool, true, false, not, Option, none, some, List, [], ◌∷◌, ◌++◌, Bytes, codes, length, ◌==◌,
  if◌then◌else◌,
}
use collab_vm_server.Processing.{ControllerState}
use collab_vm_server.Settings.{
  Value, text, Members, Token, start_object, end_object, string, writes_bool, invalid_object,
  write_json_object, find_setting,
}
use collab_vm_server.Settings.Server.{parse_server_settings}
use collab_vm_server.Settings.Vm.Fields.{Hypervisor, qemu}
use collab_vm_server.Settings.Vm.{VmSettings, parse_vm_settings}
use collab_vm_server.Settings.Write.{write_server_settings}
use collab_vm_server.Settings.Store.{
  Argument, value, members, Document, empty, not_object, root, Store, Call, starts,
  changes_settings, stops, Answer, ConfigFunction, settings, password, mod_password, add_vm,
  update_vm, delete_vm, function_key, config_functions, find_key, put_key, remove_key,
  new_vm_settings,
}

-- The error of this function, under this key.
abbrev failure : ConfigFunction → Bytes → Store → Option Answer
failure f message s = some (s, write_json_object (function_key f) message, [])

abbrev pub is_qemu : Hypervisor → Bool
is_qemu qemu = true
is_qemu _ = false

-- `split` is `boost::split` at semicolons, `agent_port` what a new object holds, and `state` the
-- states of the controllers in the map after calls.
module _ (split : Bytes → List Bytes) (agent_port : ℕ)
    (state : List Call → Bytes → Option ControllerState) where
  unfoldable pub perform_settings : Argument → Store → Option Answer
  unfolding parse_server_settings write_server_settings
  perform_settings (value v) s = none
  perform_settings (members ms) s =
      elim (parse_server_settings split (write_server_settings (state []) s.virtual_machines) ms
        s.panel) [ none ↦ none | some (panel, out) ↦ some (record s { panel = panel }, out, []) ]

  unfoldable pub perform_password : Argument → Store → Option Answer
  unfolding write_json_object function_key
  perform_password (value (text p)) s =
      some (record s { master_password = p }, writes_bool true ∷ [], [])
  perform_password _ s = failure password invalid_object s

  unfoldable pub perform_mod_password : Argument → Store → Option Answer
  unfolding write_json_object function_key
  perform_mod_password (value (text p)) s =
      some (record s { mod_password = p }, writes_bool true ∷ [], [])
  perform_mod_password _ s = failure mod_password invalid_object s

  -- What is written at the end of a change to the VMs.
  unfoldable pub changed : Store → List Token → List Call → Option Answer
  unfolding write_server_settings
  changed s out calls = some (
    s,
    out ++ write_server_settings (state calls) s.virtual_machines s.panel.configuration,
    calls,
  )

  -- `CreateVMController` throws for a hypervisor that is not QEMU, which ends the program.
  abbrev pub started : VmSettings → List Token → Store → Option Answer
  started vm out s =
      if not vm.auto_start
      then changed s out []
      else if is_qemu vm.hypervisor
      then changed s out (starts vm ∷ [])
      else none

  unfoldable pub create_vm : Members → Store → Option Answer
  unfolding new_vm_settings parse_vm_settings put_key changed
  create_vm ms s = elim (parse_vm_settings (new_vm_settings agent_port) ms) [
    | none ↦ none
    | some (vm, valid, out) ↦
        if valid
        then started vm out (record s { virtual_machines = put_key vm.name vm s.virtual_machines })
        else some (s, out, [])
  ]

  -- The errors on the name are written under the key of `update-vm`.
  unfoldable pub add_named : Members → Value → Store → Option Answer
  unfolding create_vm find_key
  add_named ms (text name) s =
      if length name == 0
      then failure update_vm (codes "VM name cannot be empty") s
      else elim (find_key name s.virtual_machines) [
        | none ↦ create_vm ms s
        | some vm ↦ some (s, string (codes "A VM with that name already exists") ∷ [], [])
      ]
  add_named ms _ s = failure update_vm invalid_object s

  unfoldable pub perform_add_vm : Argument → Store → Option Answer
  unfolding add_named
  perform_add_vm (value v) s = failure add_vm invalid_object s
  perform_add_vm (members ms) s = elim (find_key (codes "name") ms) [
    | none ↦ failure update_vm (codes "No VM name") s
    | some v ↦ add_named ms v s
  ]

  abbrev pub is_found {ℓ} : {A : Type ℓ} → Option A → Bool
  is_found none = false
  is_found (some a) = true

  -- The copy with the changes takes the place of the settings that were found.
  unfoldable pub change_vm : Bytes → VmSettings → Members → Store → Option Answer
  unfolding parse_vm_settings put_key changed
  change_vm name old ms s = elim (parse_vm_settings old ms) [
    | none ↦ none
    | some (vm, valid, out) ↦
        if valid
        then changed (record s { virtual_machines = put_key name vm s.virtual_machines }) out
            (if is_found (state [] vm.name) then changes_settings vm.name vm ∷ [] else [])
        else some (s, out, [])
  ]

  unfoldable pub update_named : Members → Value → Store → Option Answer
  unfolding change_vm find_key
  update_named ms (text name) s = elim (find_key name s.virtual_machines) [
    | none ↦ failure update_vm (codes "Unknown VM name") s
    | some old ↦ change_vm name old ms s
  ]
  update_named ms _ s = failure update_vm invalid_object s

  unfoldable pub perform_update_vm : Argument → Store → Option Answer
  unfolding update_named
  perform_update_vm (value v) s = failure update_vm invalid_object s
  perform_update_vm (members ms) s = elim (find_key (codes "name") ms) [
    | none ↦ failure update_vm (codes "No VM name") s
    | some v ↦ update_named ms v s
  ]

  unfoldable pub perform_delete_vm : Argument → Store → Option Answer
  unfolding find_key remove_key changed
  perform_delete_vm (value (text name)) s = elim (find_key name s.virtual_machines) [
    | none ↦ some (s, string (codes "VM with ID not found") ∷ [], [])
    | some vm ↦
        changed (record s { virtual_machines = remove_key name s.virtual_machines })
          (writes_bool true ∷ []) (if is_found (state [] name) then stops name ∷ [] else [])
  ]
  perform_delete_vm _ s = failure delete_vm invalid_object s

  unfoldable pub perform : ConfigFunction → Argument → Store → Option Answer
  unfolding perform_settings perform_password perform_mod_password perform_add_vm perform_update_vm
      perform_delete_vm
  perform settings a s = perform_settings a s
  perform password a s = perform_password a s
  perform mod_password a s = perform_mod_password a s
  perform add_vm a s = perform_add_vm a s
  perform update_vm a s = perform_update_vm a s
  perform delete_vm a s = perform_delete_vm a s

module _ (split : Bytes → List Bytes) (agent_port : ℕ)
    (state : List Call → Bytes → Option ControllerState) where
  -- The functions of the request one after the other; a member with another key is passed over.
  unfoldable pub perform_all : List (Bytes × Argument) → Answer → Option Answer
  unfolding perform find_setting function_key
  perform_all [] r = some r
  perform_all ((key, a) ∷ ms) (s, out, calls) =
      elim (find_setting function_key key config_functions) [
        | none ↦ perform_all ms (s, out, calls)
        | some f ↦ elim (perform split agent_port (λ more. state (calls ++ more)) f a s) [
          | none ↦ none
          | some (s', out', more) ↦ perform_all ms (s', out ++ out', calls ++ more)
        ]
      ]

  abbrev refusal : Bytes → Store → Option Answer
  refusal message s = some (s, string message ∷ end_object ∷ [], [])

  unfoldable pub perform_document : Document → Store → Option Answer
  unfolding perform_all
  perform_document empty s = refusal (codes "Request was empty") s
  perform_document not_object s = refusal (codes "Root value was not an object") s
  perform_document (root ms) s = elim (perform_all ms (s, [], [])) [
    | none ↦ none
    | some (s', out, calls) ↦ some (s', out ++ end_object ∷ [], calls)
  ]

  unfoldable pub perform_config_function : Document → Store → Option Answer
  unfolding perform_document
  perform_config_function d s = elim (perform_document d s) [
    | none ↦ none
    | some (s', out, calls) ↦ some (s', start_object ∷ string (codes "result") ∷ out, calls)
  ]

-- `GetServerSettings`.
unfoldable pub get_server_settings : (Bytes → Option ControllerState) → Store → List Token
unfolding write_server_settings
get_server_settings state s =
    start_object
    ∷ (write_server_settings state s.virtual_machines s.panel.configuration ++ end_object ∷ [])
