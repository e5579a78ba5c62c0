-- ===== src/Admin/Actions.antt =====
-- What an administrator does to VMs and users, in `OnAdminInstruction` of src/CollabVM.cpp.
use collab_vm_server.Prelude.{
  ℕ, zero, suc, ◌-◌, Bool, true, false, not, ◌&&◌, ◌||◌, Option, none, some, List, [], ◌∷◌, ◌++◌,
  Bytes, codes, ◌==◌, if◌then◌else◌, length,
}
use collab_vm_server.Wire.{element}
use collab_vm_server.Users.Rename.{is_own, has_name}
use collab_vm_server.Admin.{
  Config, get_settings, set_settings, qemu, start_controller, stop_controller, restore_vm,
  reboot_vm, reset_vm, restart_vm, ban_user, force_vote, mute_user, kick_user, end_user_turn,
  clear_turn_queue, rename_user, user_ip, force_take_turn, has_perm,
}
use collab_vm_server.Admin.Login.{
  Env, Call, sends, sends_settings, performs_config, sends_monitor_command, creates_controller,
  stops, restores, powers_off, resets, restarts, executes, removes_connection, skips_vote, mutes,
  unmutes, ends_turn, clears_turns, renames, takes_turn, not_found, result_true,
}

unfoldable pub start_vm : Env → ℕ → List Bytes → List Call
start_vm e u (vm ∷ []) =
    if has_name vm e.vm_controllers
    then sends u result_true ∷ []
    else if has_name vm e.virtual_machines
    then creates_controller vm ∷ sends u result_true ∷ []
    else sends u not_found ∷ []
start_vm e u [] = []
start_vm e u (x ∷ y ∷ args) = []

-- The inner `switch` of the loop over the names of VMs.
unfoldable pub vm_call : ℕ → Bytes → Call
vm_call op vm =
    if op == stop_controller
    then stops vm
    else if op == restore_vm
    then restores vm
    else if op == reboot_vm
    then powers_off vm
    else if op == reset_vm
    then resets vm
    else restarts vm

unfoldable pub vm_calls : Env → ℕ → ℕ → List Bytes → List Call
unfolding vm_call
vm_calls e u op [] = []
vm_calls e u op (vm ∷ args) =
    let rest = vm_calls e u op args in
    if has_name vm e.vm_controllers
    then vm_call op vm ∷ sends u result_true ∷ rest
    else sends u not_found ∷ rest

unfoldable pub monitor : Env → ℕ → List Bytes → List Call
monitor e u (vm ∷ command ∷ []) =
    if not (has_name vm e.vm_controllers)
    then sends u not_found ∷ []
    else if length command == 0
    then []
    else sends_monitor_command u vm command ∷ []
monitor e u [] = []
monitor e u (x ∷ []) = []
monitor e u (x ∷ y ∷ z ∷ args) = []

unfoldable pub starts_with : Bytes → Bytes → Bool
starts_with [] s = true
starts_with (p ∷ ps) [] = false
starts_with (p ∷ ps) (c ∷ s) = let rest = starts_with ps s in p == c && rest

-- Each place of the pattern is replaced; `skip` bytes of one are still to be passed over. The text
-- put in is not searched again, which the source does, to no effect where it holds no `$`.
unfoldable pub substitute : Bytes → Bytes → ℕ → Bytes → Bytes
unfolding starts_with
substitute pattern text skip [] = []
substitute pattern text (suc skip) (c ∷ s) = substitute pattern text skip s
substitute pattern text zero (c ∷ s) = elim (starts_with pattern (c ∷ s)) [
  | true ↦ text ++ substitute pattern text (length pattern - 1) s
  | false ↦ c ∷ substitute pattern text zero s
]

-- The first user that is connected under the name.
unfoldable pub find_user : Env → Bytes → List ℕ → Option ℕ
find_user e name [] = none
find_user e name (u ∷ us) =
    let rest = find_user e name us in if is_own (e.name u) name then some u else rest

unfoldable pub with_user : Env → Bytes → (ℕ → List Call) → List Call
unfolding find_user
with_user e name f = elim (find_user e name e.connections) [ none ↦ [] | some v ↦ f v ]

unfoldable pub ban : Config → Env → List Bytes → List Call
unfolding substitute with_user
ban g e (name ∷ []) =
    if length g.ban_command == 0
    then []
    else with_user e name λ v.
      executes
        (substitute (codes "$NAME") name 0 (substitute (codes "$IP") (e.ip v) 0 g.ban_command))
      ∷ removes_connection v
      ∷ []
ban g e [] = []
ban g e (x ∷ y ∷ args) = []

-- `args[i][0]` of a C string.
abbrev pub first : Bytes → ℕ
first [] = 0
first (c ∷ s) = c

abbrev pub skip_vote : Config → Bytes → List Bytes → List Call
skip_vote g vm [] = skips_vote vm false ∷ []
skip_vote g vm (x ∷ []) =
    if first x == b'0'
    then skips_vote vm false ∷ []
    else if first x == b'1' && has_perm g 0
    then skips_vote vm true ∷ []
    else []
skip_vote g vm (x ∷ y ∷ args) = []

-- Where the user views a VM.
abbrev pub in_vm : Env → ℕ → (Bytes → List Call) → List Call
in_vm e u f = elim (e.vm_controller u) [ none ↦ [] | some vm ↦ f vm ]

unfoldable pub mute : Env → List Bytes → List Call
unfolding with_user
mute e (name ∷ how ∷ []) =
    with_user e name
      λ v. (if first how == b'2' then unmutes v else mutes v (first how == b'1')) ∷ []
mute e [] = []
mute e (x ∷ []) = []
mute e (x ∷ y ∷ z ∷ args) = []

unfoldable pub kick : Env → List Bytes → List Call
unfolding with_user
kick e (name ∷ []) = with_user e name λ v. removes_connection v ∷ []
kick e [] = []
kick e (x ∷ y ∷ args) = []

unfoldable pub end_turn_of : Env → ℕ → List Bytes → List Call
unfolding with_user
end_turn_of e u (name ∷ []) = in_vm e u λ vm. with_user e name λ v. ends_turn vm v ∷ []
end_turn_of e u [] = []
end_turn_of e u (x ∷ y ∷ args) = []

unfoldable pub clear_turns : Env → List Bytes → List Call
clear_turns e (vm ∷ []) = if has_name vm e.vm_controllers then clears_turns vm ∷ [] else []
clear_turns e [] = []
clear_turns e (x ∷ y ∷ args) = []

-- The rest of the branch is `admin_rename` of Users.Rename.
unfoldable pub rename : ℕ → List Bytes → List Call
rename u (name ∷ []) = renames u name none ∷ []
rename u (name ∷ new ∷ []) = renames u name (some new) ∷ []
rename u [] = []
rename u (x ∷ y ∷ z ∷ args) = []

unfoldable pub ip_instr : Bytes → Bytes → Bytes
ip_instr name ip = codes "5.admin,2.19," ++ (element name ++ (b',' ∷ (element ip ++ b';' ∷ [])))

unfoldable pub send_ip : Env → ℕ → List Bytes → List Call
unfolding with_user ip_instr
send_ip e u (name ∷ []) = with_user e name λ v. sends u (ip_instr name (e.ip v)) ∷ []
send_ip e u [] = []
send_ip e u (x ∷ y ∷ args) = []

unfoldable pub take_turn : Env → ℕ → List Call
take_turn e u = elim (e.name u) [ none ↦ [] | some n ↦ in_vm e u λ vm. takes_turn vm u ∷ [] ]

unfoldable pub configure : ℕ → List Bytes → List Call
configure u (json ∷ []) = performs_config u json ∷ []
configure u [] = []
configure u (x ∷ y ∷ args) = []

-- The cases that change no session.
unfoldable pub act : Config → Env → ℕ → ℕ → List Bytes → List Call
unfolding start_vm vm_calls monitor ban mute kick end_turn_of clear_turns rename send_ip take_turn
    configure
act g e u op args =
    if op == get_settings
    then sends_settings u ∷ []
    else if op == set_settings
    then configure u args
    else if op == qemu
    then monitor e u args
    else if op == start_controller
    then start_vm e u args
    else if op == stop_controller
        || op == restore_vm
        || op == reboot_vm
        || op == reset_vm
        || op == restart_vm
    then vm_calls e u op args
    else if op == ban_user
    then ban g e args
    else if op == force_vote
    then (in_vm e u λ vm. skip_vote g vm args)
    else if op == mute_user
    then mute e args
    else if op == kick_user
    then kick e args
    else if op == end_user_turn
    then end_turn_of e u args
    else if op == clear_turn_queue
    then clear_turns e args
    else if op == rename_user
    then rename u args
    else if op == user_ip
    then send_ip e u args
    else if op == force_take_turn
    then take_turn e u
    else []
