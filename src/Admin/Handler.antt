-- ===== src/Admin/Handler.antt =====
-- `OnAdminInstruction` of src/CollabVM.cpp.
use collab_vm_server.Prelude.{ℕ, none, some, List, [], ◌∷◌, Bytes, map, ◌==◌, if◌then◌else◌}
use collab_vm_server.Chat.Instruction.{c_str}
use collab_vm_server.Admin.{Config, Sessions, stop, sesh_id, master_pwd, parse_opcode, is_denied}
use collab_vm_server.Admin.Login.{Env, Call, log_out, authenticate, check_password}
use collab_vm_server.Admin.Actions.{act}

unfoldable pub perform : Config → Env → ℕ → ℕ → List Bytes → Sessions → Sessions × List Call
unfolding log_out authenticate check_password act
perform g e u op args s =
    if op == stop
    then log_out e u s
    else if op == sesh_id
    then authenticate g e u args s
    else if op == master_pwd
    then check_password g e u args s
    else (s, act g e u op args)

unfoldable pub on_admin_instruction :
    Config → Env → ℕ → List Bytes → Sessions → Sessions × List Call
unfolding perform is_denied parse_opcode
on_admin_instruction g e u [] s = (s, [])
on_admin_instruction g e u (arg ∷ args) s = elim (parse_opcode (c_str arg)) [
  | none ↦ (s, [])
  | some op ↦
      if is_denied g (s.rank u) (s.admin_connected u) op
      then (s, [])
      else perform g e u op (map c_str args) s
]
