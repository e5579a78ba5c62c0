-- ===== src/Settings/Changes.antt =====
-- The map of VMs after each of the functions of `PerformConfigFunction` of src/CollabVM.cpp.
use collab_vm_server.Prelude.{
  ℕ, ◌≡◌, refl, ◌∙◌, subst, inl, inr, Bool, true, false, not, Option, none, some, List, [], ◌∷◌,
  Bytes, codes, equal, equal_sound, Bool-cases, if◌then◌else◌, length, ◌==◌,
}
use collab_vm_server.Processing.{ControllerState}
use collab_vm_server.Settings.{Token, Value, text, Members, string, write_json_object, writes_bool}
use collab_vm_server.Settings.Server.{parse_server_settings}
use collab_vm_server.Settings.Vm.{VmSettings, parse_vm_settings}
use collab_vm_server.Settings.Write.{write_server_settings}
use collab_vm_server.Settings.Store.{
  Argument, value, members, Store, Call, stops, changes_settings, Answer, ConfigFunction, settings,
  password, mod_password, add_vm, update_vm, delete_vm, function_key, find_key, put_key, remove_key,
  new_vm_settings,
}
use collab_vm_server.Settings.Perform.{
  perform_settings, perform_password, perform_mod_password, changed, is_qemu, started, create_vm,
  add_named, perform_add_vm, change_vm, update_named, perform_update_vm, perform_delete_vm,
  is_found, perform,
}
use collab_vm_server.Settings.Named.{names_agree, IsNamed, parse_vm_settings-IsNamed}
use collab_vm_server.Settings.Keyed.{IsKeyed, put_key-IsKeyed, remove_key-IsKeyed}

-- The result, if there is one, has a map in which each VM stands under its name.
abbrev pub Keeps : Option Answer → Type 0
Keeps none = Unit
Keeps (some (s, out, calls)) = IsKeyed s.virtual_machines

abbrev IsUnder : Bytes → Option VmSettings → Type 0
IsUnder k none = Unit
IsUnder k (some s) = s.name ≡ k

find_key-IsUnder :
    (k : Bytes) (m : List (Bytes × VmSettings)) → IsKeyed m → IsUnder k (find_key k m)
unfolding find_key
find_key-IsUnder k [] i = tt
find_key-IsUnder k ((n, t) ∷ m) i = elim (Bool-cases (equal n k)) [
  | inl e ↦ rw e (i.0 ∙ equal_sound n k e)
  | inr e ↦ rw e (find_key-IsUnder k m i.2)
]

-- Whether the members that are called `name` are all the same text, if the first is a text.
abbrev agrees_with : Option Value → Members → Bool
agrees_with (some (text n)) ms = names_agree n ms
agrees_with _ ms = true

abbrev pub agrees : Option ConfigFunction → Argument → Bool
agrees (some update_vm) (members ms) = agrees_with (find_key (codes "name") ms) ms
agrees _ _ = true

module _ (split : Bytes → List Bytes) (agent_port : ℕ)
    (state : List Call → Bytes → Option ControllerState) where
  settings-Keeps :
      (a : Argument) (s : Store)
      → IsKeyed s.virtual_machines
      → Keeps (perform_settings split agent_port state a s)
  unfolding perform_settings
  settings-Keeps (value v) s i = tt
  settings-Keeps (members ms) s i =
      elim (parse_server_settings split (write_server_settings (state []) s.virtual_machines) ms
          s.panel)
        as (λ r. Keeps (elim r [
          | none ↦ none
          | some (panel, out) ↦ some (record s { panel = panel }, out, [])
        ])) [ none ↦ tt | some p ↦ i ]

  password-Keeps :
      (a : Argument) (s : Store)
      → IsKeyed s.virtual_machines
      → Keeps (perform_password split agent_port state a s)
  unfolding perform_password
  password-Keeps (value (text p)) s i = i
  password-Keeps _ s i = i

  mod_password-Keeps :
      (a : Argument) (s : Store)
      → IsKeyed s.virtual_machines
      → Keeps (perform_mod_password split agent_port state a s)
  unfolding perform_mod_password
  mod_password-Keeps (value (text p)) s i = i
  mod_password-Keeps _ s i = i

  started-Keeps :
      (vm : VmSettings) (out : List Token) (s : Store)
      → IsKeyed s.virtual_machines
      → Keeps (started split agent_port state vm out s)
  unfolding changed
  started-Keeps vm out s i = elim (Bool-cases (not vm.auto_start)) [
    | inl e ↦ rw e i
    | inr e ↦ rw e (elim (Bool-cases (is_qemu vm.hypervisor)) [ inl q ↦ rw q i | inr q ↦ rw q tt ])
  ]

  create_vm-Keeps :
      (ms : Members) (s : Store)
      → IsKeyed s.virtual_machines
      → Keeps (create_vm split agent_port state ms s)
  unfolding create_vm changed
  create_vm-Keeps ms s i =
      elim (parse_vm_settings (new_vm_settings agent_port) ms)
        as (λ r. Keeps (elim r [
          | none ↦ none
          | some (vm, valid, out) ↦
              if valid
              then started split agent_port state vm out
                  (record s { virtual_machines = put_key vm.name vm s.virtual_machines })
              else some (s, out, [])
        ])) [
          | none ↦ tt
          | some (vm, true, out) ↦
              started-Keeps vm out _ (put_key-IsKeyed vm.name vm s.virtual_machines refl i)
          | some (vm, false, out) ↦ i
        ]

  add_named-Keeps :
      (ms : Members) (v : Value) (s : Store)
      → IsKeyed s.virtual_machines
      → Keeps (add_named split agent_port state ms v s)
  unfolding add_named
  add_named-Keeps ms (text n) s i = elim (Bool-cases (length n == 0)) [
    | inl e ↦ rw e i
    | inr e ↦
        rw e
          (elim (find_key n s.virtual_machines)
            as (λ r. Keeps (elim r [
              | none ↦ create_vm split agent_port state ms s
              | some vm ↦ some (s, string (codes "A VM with that name already exists") ∷ [], [])
            ])) [ none ↦ create_vm-Keeps ms s i | some vm ↦ i ])
  ]
  add_named-Keeps ms _ s i = i

  add_vm-Keeps :
      (a : Argument) (s : Store)
      → IsKeyed s.virtual_machines
      → Keeps (perform_add_vm split agent_port state a s)
  unfolding perform_add_vm
  add_vm-Keeps (value v) s i = i
  add_vm-Keeps (members ms) s i =
      elim (find_key (codes "name") ms)
        as (λ r. Keeps (elim r [
          | none ↦ some (s, write_json_object (function_key update_vm) (codes "No VM name"), [])
          | some v ↦ add_named split agent_port state ms v s
        ])) [ none ↦ i | some v ↦ add_named-Keeps ms v s i ]

  change_vm-Keeps :
      (n : Bytes) (old : VmSettings) (ms : Members) (s : Store)
      → IsNamed n (parse_vm_settings old ms)
      → IsKeyed s.virtual_machines
      → Keeps (change_vm split agent_port state n old ms s)
  unfolding change_vm changed
  change_vm-Keeps n old ms s h i =
      elim (parse_vm_settings old ms)
          as (λ r.
            IsNamed n r
            → Keeps (elim r [
              | none ↦ none
              | some (vm, valid, out) ↦
                  if valid
                  then changed split agent_port state
                      (record s { virtual_machines = put_key n vm s.virtual_machines }) out
                      (if is_found split agent_port state (state [] vm.name)
                        then changes_settings vm.name vm ∷ []
                        else [])
                  else some (s, out, [])
            ])) [
              | none ↦ λ k. tt
              | some (vm, true, out) ↦ λ k. put_key-IsKeyed n vm s.virtual_machines k i
              | some (vm, false, out) ↦ λ k. i
            ]
        h

  update_named-Keeps :
      (ms : Members) (v : Value) (s : Store)
      → agrees_with (some v) ms ≡ true
      → IsKeyed s.virtual_machines
      → Keeps (update_named split agent_port state ms v s)
  unfolding update_named
  update_named-Keeps ms (text n) s a i =
      elim (find_key n s.virtual_machines)
          as (λ r.
            IsUnder n r
            → Keeps (elim r [
              | none ↦
                  some (s, write_json_object (function_key update_vm) (codes "Unknown VM name"), [])
              | some old ↦ change_vm split agent_port state n old ms s
            ])) [
              | none ↦ λ k. i
              | some old ↦ λ k.
                  change_vm-Keeps n old ms s
                    (subst
                      (λ (x : Bytes).
                        names_agree x ms ≡ true → IsNamed x (parse_vm_settings old ms))
                      k (parse_vm_settings-IsNamed old ms) a)
                    i
            ]
        (find_key-IsUnder n s.virtual_machines i)
  update_named-Keeps ms _ s a i = i

  update_vm-Keeps :
      (a : Argument) (s : Store)
      → agrees (some update_vm) a ≡ true
      → IsKeyed s.virtual_machines
      → Keeps (perform_update_vm split agent_port state a s)
  unfolding perform_update_vm
  update_vm-Keeps (value v) s a i = i
  update_vm-Keeps (members ms) s a i =
      elim (find_key (codes "name") ms)
          as (λ r.
            agrees_with r ms ≡ true
            → Keeps (elim r [
              | none ↦ some (s, write_json_object (function_key update_vm) (codes "No VM name"), [])
              | some v ↦ update_named split agent_port state ms v s
            ])) [ none ↦ λ h. i | some v ↦ λ h. update_named-Keeps ms v s h i ]
        a

  delete_vm-Keeps :
      (a : Argument) (s : Store)
      → IsKeyed s.virtual_machines
      → Keeps (perform_delete_vm split agent_port state a s)
  unfolding perform_delete_vm changed
  delete_vm-Keeps (value (text n)) s i =
      elim (find_key n s.virtual_machines)
        as (λ r. Keeps (elim r [
          | none ↦ some (s, string (codes "VM with ID not found") ∷ [], [])
          | some vm ↦
              changed split agent_port state
                (record s { virtual_machines = remove_key n s.virtual_machines })
                (writes_bool true ∷ [])
                (if is_found split agent_port state (state [] n) then stops n ∷ [] else [])
        ])) [ none ↦ i | some vm ↦ remove_key-IsKeyed n s.virtual_machines i ]
  delete_vm-Keeps _ s i = i

  pub perform-Keeps :
      (f : ConfigFunction) (a : Argument) (s : Store)
      → agrees (some f) a ≡ true
      → IsKeyed s.virtual_machines
      → Keeps (perform split agent_port state f a s)
  unfolding perform
  perform-Keeps settings a s h i = settings-Keeps a s i
  perform-Keeps password a s h i = password-Keeps a s i
  perform-Keeps mod_password a s h i = mod_password-Keeps a s i
  perform-Keeps add_vm a s h i = add_vm-Keeps a s i
  perform-Keeps update_vm a s h i = update_vm-Keeps a s h i
  perform-Keeps delete_vm a s h i = delete_vm-Keeps a s i
