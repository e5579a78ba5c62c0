-- ===== src/Admin/Members.antt =====
-- The set `admin_connections_` of src/CollabVM.cpp and the users' marks.
use collab_vm_server.Prelude.{
  ℕ, ◌≡◌, refl, inl, inr, not, ◌&&◌, ◌||◌, List, [], ◌∷◌, Bytes, arith, ◌==◌, length, equal, mem,
  map, Bool-cases, Option-cases,
}
use collab_vm_server.Chat.Instruction.{c_str}
use collab_vm_server.Admin.{Config, Sessions, stop, sesh_id, master_pwd, parse_opcode, is_denied}
use collab_vm_server.Admin.Login.{
  Env, leave, enter, log_out, log_in, log_in_moderator, authenticate, check_password,
}
use collab_vm_server.Admin.Handler.{perform, on_admin_instruction}
use collab_vm_server.Admin.Safety.{Event, instructs, disconnects, remove_session, step, run}

-- The set holds the users that are marked.
abbrev pub Agree : Sessions → Type 0
Agree s = (u : ℕ) → mem u s.admin_connections ≡ s.admin_connected u

mem-leave : (u v : ℕ) (vs : List ℕ) → mem v (leave u vs) ≡ (mem v vs && not (v == u))
unfolding mem leave
mem-leave u v [] = refl
mem-leave u v (w ∷ vs) = ground (arith, mem-leave u v vs)

mem-enter : (u v : ℕ) (vs : List ℕ) → mem v (enter u vs) ≡ (mem v vs || v == u)
unfolding mem enter
mem-enter u v vs = elim (Bool-cases (mem u vs)) [
  | inl e ↦
      rw (e, enter)
        (elim (Bool-cases (v == u)) [
          | inl i ↦ let j : v ≡ u = ground arith in rw (j, e) (ground arith)
          | inr i ↦ rw i (ground arith)
        ])
  | inr e ↦ rw (e, enter) (ground arith)
]

log_out-Agree : (e : Env) (u : ℕ) (s : Sessions) → Agree s → Agree (log_out e u s).0
unfolding log_out
log_out-Agree e u s h v = ground (arith, h v, mem-leave u v s.admin_connections)

log_in-Agree : (e : Env) (u : ℕ) (s : Sessions) → Agree s → Agree (log_in e u s).0
unfolding log_in
log_in-Agree e u s h v = ground (arith, h v, mem-enter u v s.admin_connections)

log_in_moderator-Agree :
    (g : Config) (e : Env) (u : ℕ) (s : Sessions) → Agree s → Agree (log_in_moderator g e u s).0
unfolding log_in_moderator
log_in_moderator-Agree g e u s h = h

authenticate-Agree :
    (g : Config) (e : Env) (u : ℕ) (args : List Bytes) (s : Sessions)
    → Agree s
    → Agree (authenticate g e u args s).0
unfolding authenticate
authenticate-Agree g e u [] s h = h
authenticate-Agree g e u (id ∷ []) s h =
    elim (Bool-cases (not (length g.admin_session_id == 0) && equal id g.admin_session_id)) [
      | inl k ↦ rw (k, authenticate) (log_in-Agree e u s h)
      | inr k ↦ rw (k, authenticate) h
    ]
authenticate-Agree g e u (id ∷ x ∷ args) s h = h

check_password-Agree :
    (g : Config) (e : Env) (u : ℕ) (args : List Bytes) (s : Sessions)
    → Agree s
    → Agree (check_password g e u args s).0
unfolding check_password
check_password-Agree g e u [] s h = h
check_password-Agree g e u (p ∷ []) s h = elim (Bool-cases (equal p g.master_password)) [
  | inl a ↦ rw (a, check_password) (log_in-Agree e u s h)
  | inr a ↦ elim (Bool-cases (equal p g.mod_password && g.mod_enabled)) [
    | inl b ↦ rw (a, b, check_password) (log_in_moderator-Agree g e u s h)
    | inr b ↦ rw (a, b, check_password) h
  ]
]
check_password-Agree g e u (x ∷ y ∷ args) s h = h

perform-Agree :
    (g : Config) (e : Env) (u op : ℕ) (args : List Bytes) (s : Sessions)
    → Agree s
    → Agree (perform g e u op args s).0
unfolding perform
perform-Agree g e u op args s h = elim (Bool-cases (op == stop)) [
  | inl a ↦ rw (a, perform) (log_out-Agree e u s h)
  | inr a ↦ elim (Bool-cases (op == sesh_id)) [
    | inl b ↦ rw (a, b, perform) (authenticate-Agree g e u args s h)
    | inr b ↦ elim (Bool-cases (op == master_pwd)) [
      | inl c ↦ rw (a, b, c, perform) (check_password-Agree g e u args s h)
      | inr c ↦ rw (a, b, c, perform) h
    ]
  ]
]

on_admin-Agree :
    (g : Config) (e : Env) (u : ℕ) (args : List Bytes) (s : Sessions)
    → Agree s
    → Agree (on_admin_instruction g e u args s).0
unfolding on_admin_instruction
on_admin-Agree g e u [] s h = h
on_admin-Agree g e u (arg ∷ args) s h = elim (Option-cases (parse_opcode (c_str arg))) [
  | inl p ↦ rw (p, on_admin_instruction) h
  | inr (op, p) ↦ elim (Bool-cases (is_denied g (s.rank u) (s.admin_connected u) op)) [
    | inl d ↦ rw (p, d, on_admin_instruction) h
    | inr d ↦ rw (p, d, on_admin_instruction) (perform-Agree g e u op (map c_str args) s h)
  ]
]

remove_session-Agree : (u : ℕ) (s : Sessions) → Agree s → Agree (remove_session u s)
unfolding remove_session
remove_session-Agree u s h = elim (Bool-cases (s.admin_connected u)) [
  | inl a ↦ rw (a, remove_session) (λ v. ground (arith, h v, mem-leave u v s.admin_connections))
  | inr a ↦ rw (a, remove_session) h
]

step-Agree : (g : Config) (e : Env) (x : Event) (s : Sessions) → Agree s → Agree (step g e x s).0
step-Agree g e (instructs u args) s h = on_admin-Agree g e u args s h
step-Agree g e (disconnects u) s h = remove_session-Agree u s h

-- If the set of administrators' connections holds exactly the users that are marked as connected
-- to the panel, it does so after any course of instructions and ends of connections.
pub run-Agree :
    (g : Config) (xs : List (Env × Event)) (s : Sessions) → Agree s → Agree (run g xs s).0
run-Agree g [] s h = h
run-Agree g ((e, x) ∷ xs) s h = run-Agree g xs (step g e x s).0 (step-Agree g e x s h)
