-- ===== src/Vms/Messages.antt =====
-- The instructions about VMs that src/CollabVM.cpp sends are well formed.
use collab_vm_server.Prelude.{
  ℕ, ◌≡◌, ◌∙◌, sym, refl, ap, Bool, true, false, ◌&&◌, none, some, List, [], ◌∷◌, ◌++◌, Bytes,
  codes, arith, to_string, if◌then◌else◌, Option,
}
use collab_vm_server.Wire.{element, tail_elements, instruction}
use collab_vm_server.Wire.Literals.{element-chat}
use collab_vm_server.Turns.{send_all}
use collab_vm_server.Vms.{
  flag, Vm, Vms, append_vm_actions, send_action_instructions, motd_instr, thumbnail_element,
  append_vms, on_list_instruction,
}

element-connect : element (codes "connect") ≡ codes "7.connect"
unfolding element to_string
element-connect = refl

element-action : element (codes "action") ≡ codes "6.action"
unfolding element to_string
element-action = refl

element-list : element (codes "list") ≡ codes "4.list"
unfolding element to_string
element-list = refl

element-file : element (codes "file") ≡ codes "4.file"
unfolding element to_string
element-file = refl

abbrev pub bit : Bool → Bytes
bit true = codes "1"
bit false = codes "0"

element-bit : (b : Bool) → element (bit b) ≡ codes "1." ++ bit b
unfolding element to_string
element-bit true = refl
element-bit false = refl

-- What a user may do in the VM: take turns, vote, and upload files of a size and a length of name.
abbrev pub action_fields : Vm → List Bytes
action_fields vm =
    bit vm.settings.turns_enabled
    ∷ bit vm.settings.votes_enabled
    ∷ (if vm.settings.uploads_enabled && vm.agent_connected
        then codes "1"
          ∷ to_string vm.settings.max_upload_size
          ∷ to_string vm.agent_max_filename
          ∷ []
        else codes "0" ∷ [])

flag-element :
    (b : Bool) (s : Bytes)
    → b',' ∷ (codes "1." ++ (flag b ++ s)) ≡ b',' ∷ (element (bit b) ++ (codes ",1." ++ s))
unfolding element to_string
flag-element true s = refl
flag-element false s = refl

uploads-tail :
    (b : Bool) (size name : ℕ)
    → codes ",1."
        ++ (if b
            then codes "1,"
              ++ (element (to_string size) ++ (b',' ∷ (element (to_string name) ++ b';' ∷ [])))
            else codes "0;")
      ≡ tail_elements
          (if b then codes "1" ∷ to_string size ∷ to_string name ∷ [] else codes "0" ∷ [])
unfolding tail_elements
uploads-tail true size name = rw (element-bit true) refl
uploads-tail false size name = rw (element-bit false) refl

actions-tail : (vm : Vm) → codes ",1." ++ append_vm_actions vm ≡ tail_elements (action_fields vm)
unfolding append_vm_actions tail_elements
actions-tail vm =
    flag-element vm.settings.turns_enabled _
    ∙ ap (λ (s : Bytes). b',' ∷ (element (bit vm.settings.turns_enabled) ++ s))
        (flag-element vm.settings.votes_enabled _
          ∙ ap (λ (s : Bytes). b',' ∷ (element (bit vm.settings.votes_enabled) ++ s))
              (uploads-tail (vm.settings.uploads_enabled && vm.agent_connected)
                vm.settings.max_upload_size vm.agent_max_filename))

pub actions-instruction :
    (vm : Vm)
    → codes "6.action,1." ++ append_vm_actions vm ≡ instruction (codes "action") (action_fields vm)
unfolding instruction
actions-instruction vm =
    rw element-action (ap (λ (s : Bytes). codes "6.action" ++ s) (actions-tail vm))

-- Each user of a VM is sent what may be done in it, in one well-formed instruction.
pub send_action_instructions-instruction :
    (vm : Vm)
    → send_action_instructions vm
      ≡ send_all vm.users (instruction (codes "action") (action_fields vm))
unfolding send_action_instructions
send_action_instructions-instruction vm = ap (send_all vm.users) (actions-instruction vm)

pub connected-instruction :
    (vm : Vm)
    → codes "7.connect,1.1,1." ++ append_vm_actions vm
      ≡ instruction (codes "connect") (codes "1" ∷ action_fields vm)
unfolding instruction tail_elements
connected-instruction vm =
    rw (element-connect, element-bit true)
      (ap (λ (s : Bytes). codes "7.connect,1.1" ++ s) (actions-tail vm))

pub connect_failed-instruction :
    codes "7.connect,1.0;" ≡ instruction (codes "connect") (codes "0" ∷ [])
unfolding instruction tail_elements element to_string
connect_failed-instruction = refl

pub busy-instruction : codes "4.file,1.6;" ≡ instruction (codes "file") (codes "6" ∷ [])
unfolding instruction tail_elements element to_string
busy-instruction = refl

element-four : element (codes "4") ≡ codes "1.4"
unfolding element to_string
element-four = refl

pub cooldown-instruction :
    (t : ℕ)
    → codes "4.file,1.4," ++ (element (to_string t) ++ b';' ∷ [])
      ≡ instruction (codes "file") (codes "4" ∷ to_string t ∷ [])
unfolding instruction tail_elements
cooldown-instruction t = rw (element-file, element-four) refl

element-nil : element [] ≡ codes "0."
unfolding element to_string
element-nil = refl

pub motd_instr-instruction :
    (motd : Bytes) → motd_instr motd ≡ instruction (codes "chat") ([] ∷ motd ∷ [])
unfolding motd_instr instruction tail_elements
motd_instr-instruction motd = rw (element-chat, element-nil) refl

abbrev thumbnail_text : Option Bytes → Bytes
thumbnail_text none = []
thumbnail_text (some png) = png

thumbnail_element-text : (t : Option Bytes) → thumbnail_element t ≡ element (thumbnail_text t)
unfolding thumbnail_element
thumbnail_element-text none = sym element-nil
thumbnail_element-text (some []) = sym element-nil
thumbnail_element-text (some (x ∷ s)) = ground arith

-- The name, the name to display and the thumbnail of each VM.
abbrev pub list_fields : Vms → List Bytes
list_fields [] = []
list_fields ((n, vm) ∷ m) =
    vm.settings.name ∷ vm.settings.display_name ∷ thumbnail_text vm.thumbnail ∷ list_fields m

append_vms-tail : (vms : Vms) → append_vms vms ≡ tail_elements (list_fields vms)
unfolding append_vms tail_elements
append_vms-tail [] = refl
append_vms-tail ((n, vm) ∷ m) = rw (thumbnail_element-text vm.thumbnail, append_vms-tail m) refl

-- The list of VMs is one well-formed instruction with three elements for each VM, in the order of
-- the map: its name, the name to display, and its thumbnail, or an empty element where it has none.
pub on_list_instruction-instruction :
    (u : ℕ) (vms : Vms)
    → on_list_instruction u vms ≡ (u, instruction (codes "list") (list_fields vms)) ∷ []
unfolding on_list_instruction instruction
on_list_instruction-instruction u vms = rw (element-list, append_vms-tail vms) refl
