-- ===== src/Users/Rename.antt =====
-- `OnRenameInstruction`, the administrators' `kRenameUser`, `SendOnlineUsersList`, and the end of a
-- connection, of src/CollabVM.cpp.
use collab_vm_server.Prelude.{
  ℕ, Bool, true, false, not, ◌&&◌, ◌||◌, Option, none, some, List, [], ◌∷◌, ◌++◌, Bytes, codes,
  to_string, if◌then◌else◌, length, ◌==◌, equal, update,
}
use collab_vm_server.Wire.{element}
use collab_vm_server.Names.{validate_username}
use collab_vm_server.Chat.Instruction.{
  Rank, unregistered, registered, admin, moderator, Outbox, send_all, c_str,
}
use collab_vm_server.Users.{
  Users, Env, Config, Registry, UsernameChangeResult, success, username_taken, invalid, find,
  remove, generate_username, change_username, name_of, name_rank, rank_number, result_char,
}

-- `std::find(...) != end()` on the list of blacklisted names.
unfoldable pub has_name : Bytes → List Bytes → Bool
has_name n [] = false
has_name n (b ∷ bs) = equal b n || has_name n bs

abbrev pub is_staff : Rank → Bool
is_staff unregistered = false
is_staff registered = false
is_staff admin = true
is_staff moderator = true

abbrev pub is_some {ℓ} : {A : Type ℓ} → Option A → Bool
is_some none = false
is_some (some a) = true

-- A change to a generated name; `none` of the generator, a lack of fuel, leaves all as it is.
unfoldable pub change_generated : Config → Env → ℕ → Users → Users × Outbox
unfolding generate_username change_username
change_generated g e u s = elim (generate_username e.drawn s.usernames) [
  | none ↦ (s, [])
  | some name ↦ change_username g e u name success s
]

-- A request that cannot be granted: a user without a name gets a generated one.
unfoldable pub refuse : Config → Env → ℕ → UsernameChangeResult → Users → Users × Outbox
unfolding change_generated
refuse g e u result s = elim (name_of s u) [
  | none ↦ change_generated g e u s
  | some name ↦ change_username g e u name result s
]

unfoldable pub blacklisted_instr : Option Bytes → Rank → Bytes
unfolding name_rank
blacklisted_instr none r =
    codes "6.rename,1.0,1.3,0.," ++ (element (to_string (rank_number r)) ++ b';' ∷ [])
blacklisted_instr (some name) r = codes "6.rename,1.0,1.3," ++ name_rank name r

-- The request of a name that is not the user's own.
unfoldable pub request_name : Config → Env → ℕ → Bytes → Users → Users × Outbox
unfolding refuse has_name blacklisted_instr
request_name g e u name s =
    if length name == 0
    then change_generated g e u s
    else if not (validate_username name)
    then refuse g e u invalid s
    else if is_some (find name s.usernames)
    then refuse g e u username_taken s
    else if has_name name g.blacklisted_usernames && not (is_staff (e.rank u))
    then (s, (u, blacklisted_instr (name_of s u) (e.rank u)) ∷ [])
    else change_username g e u name success s

abbrev pub is_own : Option Bytes → Bytes → Bool
is_own none name = false
is_own (some old) name = equal old name

unfoldable pub on_rename_instruction : Config → Env → ℕ → List Bytes → Users → Users × Outbox
unfolding request_name
on_rename_instruction g e u [] s = if is_some (s.cell u) then (s, []) else change_generated g e u s
on_rename_instruction g e u (arg ∷ args) s =
    let name = c_str arg in if is_own (name_of s u) name then (s, []) else request_name g e u name s

-- The first user that is connected under exactly this name.
unfoldable pub named : Users → Bytes → List ℕ → Option ℕ
named s name [] = none
named s name (u ∷ us) =
    let rest = named s name us in if is_own (name_of s u) name then some u else rest

unfoldable pub admin_rename_instr : UsernameChangeResult → Bytes
admin_rename_instr result = codes "5.admin,2.18,1." ++ (result_char result ∷ b';' ∷ [])

-- `kRenameUser` for the user found, with the new name asked for, if any.
unfoldable pub rename_user :
    Config → Env → ℕ → Option Bytes → Users → Users × Outbox × UsernameChangeResult
unfolding change_generated
rename_user g e u none s = let (s', o) = change_generated g e u s in (s', o, success)
rename_user g e u (some name) s =
    let (s', o) = change_username g e u name success s in
    if is_some (find name s.usernames)
    then (s, [], username_taken)
    else if validate_username name
    then (s', o, success)
    else (s, [], invalid)

-- `args[1]` and `args[2]`, if any, of the administrator `u`.
unfoldable pub admin_rename : Config → Env → ℕ → Bytes → Option Bytes → Users → Users × Outbox
unfolding rename_user named admin_rename_instr
admin_rename g e u target name s = elim (named s target e.connections) [
  | none ↦ (s, [])
  | some v ↦
      let (s', o, result) = rename_user g e v name s in
      (s', o ++ (u, admin_rename_instr result) ∷ [])
]

unfoldable pub remuser_instr : Bytes → Bytes
remuser_instr name = codes "7.remuser,1.1," ++ (element name ++ b';' ∷ [])

-- What `RemoveConnection` does with the name.
unfoldable pub remove_name : Env → ℕ → Users → Users × Outbox
unfolding remove remuser_instr send_all
remove_name e u s = elim (name_of s u) [
  | none ↦ (s, [])
  | some name ↦ (
    record s { usernames = remove name s.usernames; cell = update s.cell u none },
    send_all e.connections (remuser_instr name),
  )
]

-- The users in the order of the map, each with the rank; one without a name would be a null
-- pointer in the source, and is passed over here.
unfoldable pub online_users : Env → Users → Registry → Bytes
online_users e s [] = b';' ∷ []
online_users e s ((n, u) ∷ m) = elim (name_of s u) [
  | none ↦ online_users e s m
  | some name ↦
      b','
      ∷ (element name
          ++ (b',' ∷ (element (to_string (rank_number (e.rank u))) ++ online_users e s m)))
]

unfoldable pub send_online_users_list : Env → ℕ → Users → Outbox
unfolding online_users
send_online_users_list e u s =
    (
      u,
      codes "7.adduser,"
          ++ (element (to_string (length s.usernames)) ++ online_users e s s.usernames),
    )
    ∷ []
