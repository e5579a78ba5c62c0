-- ===== src/Vms.antt =====
-- The VMs of the server as users meet them: `OnConnectInstruction`, `OnListInstruction`,
-- `AppendVMActions`, `SendActionInstructions`, `BroadcastMOTD`, `SendUploadCooldownTime` and
-- `SetUploadCooldownTime` of src/CollabVM.cpp, with the fields of src/VMControllers/VMController.h
-- that they read. The turn environment's clock counts milliseconds.
pub mod Connect
pub mod Messages
pub mod Places
use collab_vm_server.Prelude.{
  ℕ, ◌+◌, ◌-◌, ◌*◌, ◌/◌, ◌%◌, ◌^◌, Bool, true, false, not, ◌&&◌, ◌||◌, Option, none, some, List, [],
  ◌∷◌, ◌++◌, Bytes, codes, to_string, ltb, ◌==◌, if◌then◌else◌, length, equal, erase,
}
use collab_vm_server.Wire.{element}
use collab_vm_server.Turns
use collab_vm_server.Turns.{Turns, Outbox, send_all}
use collab_vm_server.Votes.{Votes}
use collab_vm_server.Users
use collab_vm_server.Users.{Users}
use collab_vm_server.Users.Rename.{send_online_users_list}
use collab_vm_server.Chat.Instruction
use collab_vm_server.Chat.Instruction.{Chat, c_str, send_chat_history}
use collab_vm_server.Requests.Joining.{add_user}

-- The settings of a VM that the handlers read.
pub record Settings : Type 0 where
  pub name : Bytes
  pub display_name : Bytes
  pub motd : Bytes
  pub turns_enabled : Bool
  pub votes_enabled : Bool
  pub uploads_enabled : Bool
  pub max_upload_size : ℕ
  pub upload_cooldown_time : ℕ
  pub upload_max_filename : ℕ

-- What the agent in the VM said of it.
pub record Agent : Type 0 where
  pub os_name : Bytes
  pub service_pack : Bytes
  pub pc_name : Bytes
  pub username : Bytes

pub data StopReason : Type 0 where
  normal restart remove error : StopReason

-- A controller. `thumbnail` is null before the first one; `users` is the list of its users, the
-- latest first; `running` is `IsRunning()`.
pub record Vm : Type 0 where
  pub settings : Settings
  pub agent_connected : Bool
  pub agent : Agent
  pub agent_max_filename : ℕ
  pub agent_upload_in_progress : Bool
  pub thumbnail : Option Bytes
  pub users : List ℕ
  pub turns : Turns
  pub votes : Votes
  pub running : Bool
  pub stop_reason : StopReason

-- `vm_controllers_`, in the order of its keys.
abbrev pub Vms : Type 0
Vms = List (Bytes × Vm)

unfoldable pub find_vm : Bytes → Vms → Option Vm
find_vm k [] = none
find_vm k ((n, vm) ∷ m) = if equal n k then some vm else find_vm k m

-- Writes through the pointer that the map holds under the key.
unfoldable pub write_vm : Bytes → Vm → Vms → Vms
write_vm k vm [] = []
write_vm k vm ((n, v) ∷ m) = if equal n k then (n, vm) ∷ m else (n, v) ∷ write_vm k vm m

-- The fields of `IPData` on uploads; `next_upload_time` is in seconds.
pub record UploadData : Type 0 where
  pub upload_in_progress : Bool
  pub next_upload_time : ℕ

-- `viewing` is that `guac_user` is not null, `named` that the user has a name, and `controller` is
-- `vm_controller`, known by its key.
pub record Client : Type 0 where
  pub id : ℕ
  pub viewing : Bool
  pub controller : Option Bytes
  pub named : Bool
  pub name_fixed : Bool
  pub upload : UploadData

-- What the other parts of the server hold while an instruction is carried out.
pub record World : Type 0 where
  pub turn_env : Turns.Env
  pub user_env : Users.Env
  pub users : Users
  pub chat_config : Instruction.Config
  pub chat : Chat

abbrev flag : Bool → Bytes
flag true = codes "1,1."
flag false = codes "0,1."

-- The literals end in the head of the next element, whose one byte comes next.
unfoldable pub append_vm_actions : Vm → Bytes
append_vm_actions vm =
    flag vm.settings.turns_enabled
    ++ (flag vm.settings.votes_enabled
        ++ (if vm.settings.uploads_enabled && vm.agent_connected
            then codes "1,"
              ++ (element (to_string vm.settings.max_upload_size)
                  ++ (b',' ∷ (element (to_string vm.agent_max_filename) ++ b';' ∷ [])))
            else codes "0;"))

unfoldable pub send_action_instructions : Vm → Outbox
unfolding append_vm_actions
send_action_instructions vm = send_all vm.users (codes "6.action,1." ++ append_vm_actions vm)

unfoldable pub motd_instr : Bytes → Bytes
motd_instr motd = codes "4.chat,0.," ++ (element motd ++ b';' ∷ [])

unfoldable pub broadcast_motd : Vm → Outbox
unfolding motd_instr
broadcast_motd vm = send_all vm.users (motd_instr vm.settings.motd)

-- The message is sent where the time left, in milliseconds, is positive.
unfoldable pub send_upload_cooldown_time : ℕ → Client → Vm → Outbox × Bool
send_upload_cooldown_time now u vm =
    let next = u.upload.next_upload_time * 1000 in
    if not (vm.settings.upload_cooldown_time == 0) && ltb now next
    then ((u.id, codes "4.file,1.4," ++ (element (to_string (next - now)) ++ b';' ∷ [])) ∷ [], true)
    else ([], false)

-- `now` is in milliseconds; the cast to seconds drops the rest.
unfoldable pub set_upload_cooldown_time : ℕ → ℕ → UploadData → UploadData
set_upload_cooldown_time now time d = record d {
  upload_in_progress = false;
  next_upload_time = if time == 0 then d.next_upload_time else now / 1000 + time;
}

unfoldable pub upload_notice : ℕ → Client → Vm → Outbox
unfolding send_upload_cooldown_time
upload_notice now u vm =
    if u.upload.upload_in_progress
    then (u.id, codes "4.file,1.6;") ∷ []
    else (send_upload_cooldown_time now u vm).0

-- What a user is sent that joins a VM, up to the message of the day.
unfoldable pub welcome : World → Client → Vm → Outbox
unfolding append_vm_actions motd_instr send_online_users_list send_chat_history
welcome w u vm =
    (u.id, codes "7.connect,1.1,1." ++ append_vm_actions vm)
    ∷ (send_online_users_list w.user_env u.id w.users
        ++ (send_chat_history w.chat_config u.id w.chat
            ++ (if length vm.settings.motd == 0
                then []
                else (u.id, motd_instr vm.settings.motd) ∷ [])))

unfoldable pub connect_to : World → Client → Bytes → Vm → Vms → Vms × Client × Outbox
unfolding upload_notice welcome add_user write_vm
connect_to w u name vm vms =
    let notice = upload_notice w.turn_env.now u vm in
    if u.name_fixed then (vms, u, notice) else (
      write_vm name (record vm { users = u.id ∷ vm.users }) vms,
      record u { viewing = true; controller = some name },
      notice ++ (welcome w u vm ++ add_user w.turn_env u.id vm.turns vm.votes),
    )

-- `RemoveUser` of the VM that the user is in, as far as its list goes.
unfoldable pub leave_vm : Option Bytes → ℕ → Vms → Vms
unfolding find_vm write_vm
leave_vm none u vms = vms
leave_vm (some name) u vms = elim (find_vm name vms) [
  | none ↦ vms
  | some vm ↦ write_vm name (record vm { users = erase u vm.users }) vms
]

abbrev connect_failed : Client → Outbox
connect_failed u = (u.id, codes "7.connect,1.0;") ∷ []

unfoldable pub connect_named : World → Client → Bytes → Vms → Vms × Client × Outbox
unfolding connect_to find_vm
connect_named w u name vms =
    if length name == 0 then (vms, u, connect_failed u) else elim (find_vm name vms) [
      | none ↦ (vms, u, connect_failed u)
      | some vm ↦ connect_to w u name vm vms
    ]

unfoldable pub on_connect_instruction : World → Client → List Bytes → Vms → Vms × Client × Outbox
unfolding connect_named
on_connect_instruction w u (arg ∷ []) vms =
    if u.viewing || not u.named then (vms, u, []) else connect_named w u (c_str arg) vms
on_connect_instruction w u _ vms = (vms, u, [])

-- A thumbnail that is null or empty is written as an empty element.
unfoldable pub thumbnail_element : Option Bytes → Bytes
thumbnail_element none = codes "0."
thumbnail_element (some png) = if length png == 0 then codes "0." else element png

unfoldable pub append_vms : Vms → Bytes
unfolding thumbnail_element
append_vms [] = b';' ∷ []
append_vms ((n, vm) ∷ m) =
    b','
    ∷ (element vm.settings.name
        ++ (b','
            ∷ (element vm.settings.display_name
                ++ (b',' ∷ (thumbnail_element vm.thumbnail ++ append_vms m)))))

unfoldable pub on_list_instruction : ℕ → Vms → Outbox
unfolding append_vms
on_list_instruction u vms = (u, codes "4.list" ++ append_vms vms) ∷ []
