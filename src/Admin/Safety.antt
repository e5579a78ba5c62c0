-- ===== src/Admin/Safety.antt =====
-- Nobody is let into the administration of src/CollabVM.cpp without a password or the session's
-- number, and the set of administrators is that of the users so marked.
use collab_vm_server.Prelude.{
  ℕ, ◌≡◌, refl, inl, inr, Bool, false, not, ◌&&◌, ◌||◌, none, some, List, [], ◌∷◌, ◌++◌, Bytes,
  arith, ◌==◌, if◌then◌else◌, length, update, equal, map, All, Bool-cases, Option-cases,
}
use collab_vm_server.Chat.Instruction.{c_str}
use collab_vm_server.Admin.{
  Config, Sessions, sesh_id, master_pwd, parse_opcode, is_moderator, is_denied,
}
use collab_vm_server.Admin.Login.{
  Env, Call, sends, login_failed, leave, authenticate, check_password,
}
use collab_vm_server.Admin.Handler.{perform, on_admin_instruction}

-- Whether the arguments are the session's number or a password.
abbrev pub proves : Config → ℕ → List Bytes → Bool
proves g op [] = false
proves g op (x ∷ y ∷ args) = false
proves g op (x ∷ []) =
    (op == sesh_id && (not (length g.admin_session_id == 0) && equal x g.admin_session_id))
    || (op == master_pwd
        && (equal x g.master_password || (equal x g.mod_password && g.mod_enabled)))

abbrev pub has_credential : Config → List Bytes → Bool
has_credential g [] = false
has_credential g (arg ∷ args) = elim (parse_opcode (c_str arg)) [
  | none ↦ false
  | some op ↦ proves g op (map c_str args)
]

-- A user that is neither connected to the panel nor a moderator.
abbrev pub IsOutsider : Sessions → ℕ → Type 0
IsOutsider s u = (s.admin_connected u ≡ false) × (is_moderator (s.rank u) ≡ false)

-- Nothing has changed, and the user has been told that the login failed, if anything.
abbrev pub IsRefused : ℕ → Call → Type 0
IsRefused u c = c ≡ sends u login_failed

abbrev Refuses : ℕ → Sessions → Sessions × List Call → Type 0
Refuses u s (s', o) = (s' ≡ s) × All (IsRefused u) o

authenticate-Refuses :
    (g : Config) (e : Env) (u : ℕ) (args : List Bytes) (s : Sessions)
    → proves g sesh_id args ≡ false
    → Refuses u s (authenticate g e u args s)
unfolding authenticate
authenticate-Refuses g e u [] s h = (refl, tt)
authenticate-Refuses g e u (id ∷ []) s h =
    let k : (not (length g.admin_session_id == 0) && equal id g.admin_session_id) ≡ false =
      ground arith in
    rw (k, authenticate) (refl, (refl, tt))
authenticate-Refuses g e u (id ∷ x ∷ args) s h = (refl, tt)

check_password-Refuses :
    (g : Config) (e : Env) (u : ℕ) (args : List Bytes) (s : Sessions)
    → proves g master_pwd args ≡ false
    → Refuses u s (check_password g e u args s)
unfolding check_password
check_password-Refuses g e u [] s h = (refl, (refl, tt))
check_password-Refuses g e u (p ∷ []) s h =
    let a : equal p g.master_password ≡ false = ground arith in
    let b : (equal p g.mod_password && g.mod_enabled) ≡ false = ground arith in
    rw (a, b, check_password) (refl, (refl, tt))
check_password-Refuses g e u (x ∷ y ∷ args) s h = (refl, (refl, tt))

perform-Refuses :
    (g : Config) (e : Env) (u op : ℕ) (args : List Bytes) (s : Sessions)
    → is_denied g (s.rank u) (s.admin_connected u) op ≡ false
    → IsOutsider s u
    → proves g op args ≡ false
    → Refuses u s (perform g e u op args s)
unfolding perform is_denied
perform-Refuses g e u op args s d (c, m) h = elim (Bool-cases (op == sesh_id)) [
  | inl i ↦
      let j : op ≡ sesh_id = ground arith in
      rw (j, perform) (authenticate-Refuses g e u args s (rw j at h))
  | inr i ↦
      let j : op ≡ master_pwd = ground arith in
      rw (j, perform) (check_password-Refuses g e u args s (rw j at h))
]

on_admin-Refuses :
    (g : Config) (e : Env) (u : ℕ) (args : List Bytes) (s : Sessions)
    → IsOutsider s u
    → has_credential g args ≡ false
    → Refuses u s (on_admin_instruction g e u args s)
unfolding on_admin_instruction
on_admin-Refuses g e u [] s o h = (refl, tt)
on_admin-Refuses g e u (arg ∷ args) s o h = elim (Option-cases (parse_opcode (c_str arg))) [
  | inl p ↦ rw (p, on_admin_instruction) (refl, tt)
  | inr (op, p) ↦ elim (Bool-cases (is_denied g (s.rank u) (s.admin_connected u) op)) [
    | inl d ↦ rw (p, d, on_admin_instruction) (refl, tt)
    | inr d ↦
        rw (p, d, on_admin_instruction)
          (perform-Refuses g e u op (map c_str args) s d o (rw (p, has_credential) at h))
  ]
]

-- An instruction with who sends it, or the end of a connection.
pub data Event : Type 0 where
  instructs : ℕ → List Bytes → Event
  disconnects : ℕ → Event

-- What `RemoveConnection` does with the session.
unfoldable pub remove_session : ℕ → Sessions → Sessions
unfolding leave
remove_session u s =
    if s.admin_connected u
    then record s {
      admin_connections = leave u s.admin_connections;
      admin_connected = update s.admin_connected u false;
    }
    else s

abbrev pub step : Config → Env → Event → Sessions → Sessions × List Call
step g e (instructs u args) s = on_admin_instruction g e u args s
step g e (disconnects u) s = (remove_session u s, [])

abbrev pub run : Config → List (Env × Event) → Sessions → Sessions × List Call
run g [] s = (s, [])
run g ((e, x) ∷ xs) s = let (s', o) = step g e x s in let (t, p) = run g xs s' in (t, o ++ p)

-- Instructions of outsiders without a password or the session's number.
abbrev pub AreOutside : Config → Sessions → List (Env × Event) → Type 0
AreOutside g s [] = Unit
AreOutside g s ((e, instructs u args) ∷ xs) =
    (IsOutsider s u × (has_credential g args ≡ false)) × AreOutside g s xs
AreOutside g s ((e, disconnects u) ∷ xs) = ⊥

abbrev pub IsLoginFailed : Call → Type 0
IsLoginFailed c = (u : ℕ) × (c ≡ sends u login_failed)

All-append :
    (o p : List Call) → All IsLoginFailed o → All IsLoginFailed p → All IsLoginFailed (o ++ p)
All-append [] p a b = b
All-append (c ∷ o) p a b = (a.0, All-append o p a.1 b)

All-refused : (u : ℕ) (o : List Call) → All (IsRefused u) o → All IsLoginFailed o
All-refused u [] h = tt
All-refused u (c ∷ o) h = ((u, h.0), All-refused u o h.1)

-- Whatever instructions are sent by users that are neither connected to the panel nor
-- moderators, none of them with a password or the session's number: no session changes, and all
-- that the server does is tell users that their login failed.
pub run-refused :
    (g : Config) (xs : List (Env × Event)) (s : Sessions)
    → AreOutside g s xs
    → ((run g xs s).0 ≡ s) × All IsLoginFailed (run g xs s).1
run-refused g [] s h = (refl, tt)
run-refused g ((e, instructs u args) ∷ xs) s ((o, c), h) =
    let (a, b) = on_admin-Refuses g e u args s o c in
    let (p, q) = run-refused g xs s h in
    (rw a p, All-append (on_admin_instruction g e u args s).1 _ (All-refused u _ b) (rw a q))
run-refused g ((e, disconnects u) ∷ xs) s h = absurd h
