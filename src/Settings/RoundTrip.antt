-- ===== src/Settings/RoundTrip.antt =====
-- What `WriteServerSettings` of src/CollabVM.cpp writes for a VM, `ParseVMSettings` reads back.
use collab_vm_server.Prelude.{
  ◌≡◌, ◌∙◌, sym, refl, ap, Bool, true, Option, none, some, List, [], ◌∷◌, ◌++◌, Bytes, codes,
  length, ◌==◌, if◌then◌else◌,
}
use collab_vm_server.Chat.Instruction.{c_str}
use collab_vm_server.Processing.{ControllerState}
use collab_vm_server.Settings.{
  Value, text, Members, writes_bool, sets, fails, set_member, set_members, apply_effect, Progress,
  invalid_object,
}
use collab_vm_server.Settings.Vm.{
  VmSettings, VmSetting, name, vm_settings, vm_key, set_vm_setting, parse_vm_settings, with_name,
}
use collab_vm_server.Settings.Write.{written_value, written_loop, written_members}
use collab_vm_server.Settings.Keys.{find-vm_key}
use collab_vm_server.Settings.Storable.{IsStorable, copy, Copies, written-Copies}

-- One setting of the loop that writes, in the loop that reads.
set_member-sets :
    (i : VmSetting) (v : Value) (t t' : VmSettings)
    → set_vm_setting i v t ≡ sets t'
    → set_member vm_key vm_settings set_vm_setting (vm_key i) v (t, true, []) ≡ some (t', true, [])
unfolding set_member apply_effect
set_member-sets i v t t' h = rw (find-vm_key i, set_member) (rw (h, apply_effect) refl)

abbrev copy_all : List VmSetting → VmSettings → VmSettings → VmSettings
copy_all [] s t = t
copy_all (i ∷ is) s t = copy_all is s (copy i s t)

read_all : Members → VmSettings → Option (Progress VmSettings)
read_all ms t = set_members vm_key vm_settings set_vm_setting ms (t, true, [])

-- One setting, written if there is a value for it, before others.
read_all-one :
    (i : VmSetting) (s t : VmSettings) (is : List VmSetting) (rest : Members) (o : Option Value)
    → Copies o i s t
    → ((t' : VmSettings) → read_all rest t' ≡ some (copy_all is s t', true, []))
    → read_all (elim o [ none ↦ rest | some v ↦ (vm_key i, v) ∷ rest ]) t
      ≡ some (copy_all is s (copy i s t), true, [])
unfolding read_all set_members
read_all-one i s t is rest none c ih =
    ih t ∙ ap (λ (x : VmSettings). some (copy_all is s x, true, [])) (sym c)
read_all-one i s t is rest (some v) c ih =
    ap
      (λ (r : Option (Progress VmSettings)). elim r [
        | none ↦ none
        | some p ↦ set_members vm_key vm_settings set_vm_setting rest p
      ])
      (set_member-sets i v t (copy i s t) c)
    ∙ ih (copy i s t)

read_all-written_loop :
    (state : Option ControllerState) (s : VmSettings)
    → IsStorable s
    → (is : List VmSetting) (t : VmSettings)
    → read_all (written_loop state is s) t ≡ some (copy_all is s t, true, [])
unfolding written_loop read_all set_members
read_all-written_loop state s h [] t = refl
read_all-written_loop state s h (i ∷ is) t =
    read_all-one i s t is (written_loop state is s) (written_value state i s)
      (written-Copies state i s t h) (read_all-written_loop state s h is)

named-first :
    (s t : VmSettings) (ms : Members)
    → IsStorable s
    → read_all ((codes "name", text (c_str s.name)) ∷ ms) t
      ≡ read_all ms (record t { name = s.name })
unfolding read_all set_members set_vm_setting vm_key with_name
named-first s t ms h =
    ap
      (λ (r : Option (Progress VmSettings)). elim r [
        | none ↦ none
        | some p ↦ set_members vm_key vm_settings set_vm_setting ms p
      ])
      (set_member-sets name (text (c_str s.name)) t (record t { name = s.name })
        (ap
            (λ (x : Bytes).
              if length x == 0
              then fails (codes "name") invalid_object
              else sets (record t { name = x }))
            h.name
          ∙ ap
              (λ (b : Bool).
                if b
                then fails (codes "name") invalid_object
                else sets (record t { name = s.name }))
              h.named))

-- The settings of a VM as the server writes them, read into any settings, give the same settings
-- and no error, where the name is not empty, the texts have no zero byte, and the numbers are in
-- the ranges that the panel accepts: ports below 65535, attempts and the length of filenames below
-- 255, and times below 65536.
pub parse_vm_settings-written_members :
    (state : Option ControllerState) (s t : VmSettings)
    → IsStorable s
    → parse_vm_settings t (written_members state s) ≡ some (s, true, writes_bool true ∷ [])
unfolding parse_vm_settings written_members read_all
parse_vm_settings-written_members state s t h =
    ap
      (λ (r : Option (Progress VmSettings)). elim r [
        | none ↦ none
        | some (s', valid, out) ↦
            some (s', valid, (if valid then out ++ writes_bool true ∷ [] else out))
      ])
      (named-first s t (written_loop state vm_settings s) h
        ∙ read_all-written_loop state s h vm_settings (record t { name = s.name }))
