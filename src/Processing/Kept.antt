-- ===== src/Processing/Kept.antt =====
-- The handlers of src/CollabVM.cpp that change connections, or post, keep the set of connections right
-- and the keep-alive going.
use collab_vm_server.Prelude.{
  ℕ, ◌≡◌, inl, inr, true, false, not, ◌&&◌, List, [], ◌∷◌, arith, ◌==◌, length, mem, Bool-cases,
}
use collab_vm_server.Processing.{ControllerState, stopped, starting, running, stopping, Server, Env}
use collab_vm_server.Processing.Actions.{
  on_add_connection, on_remove_connection, is_restart, remove_connection_of, on_keep_alive,
  on_vm_stopped, on_vm_state_change,
}
use collab_vm_server.Processing.Queue.{update_vm_status-Posted}
use collab_vm_server.Processing.Marked.{
  Agree, IsAlive, Agree-Posted, IsAlive-Posted, erase-empty, Agree-removed, keep_alive_loop-Agree,
}

pub on_keep_alive-Agree : (e : Env) (s : Server) → Agree s → Agree (on_keep_alive e s).0
unfolding on_keep_alive
on_keep_alive-Agree e s h = elim (Bool-cases (length s.connections == 0)) [
  | inl c ↦ rw c h
  | inr c ↦
      let kept = keep_alive_loop-Agree e s.connections s h in
      rw c (record { distinct = kept.distinct; marked = kept.marked })
]

-- Whatever the timer was before.
pub on_keep_alive-IsAlive : (e : Env) (s : Server) → IsAlive (on_keep_alive e s).0
unfolding on_keep_alive
on_keep_alive-IsAlive e s = elim (Bool-cases (length s.connections == 0)) [
  | inl c ↦ rw c (λ st ne. ground (arith, c))
  | inr c ↦ rw c (λ st ne. ground arith)
]

pub on_add_connection-Agree : (u : ℕ) (s : Server) → Agree s → Agree (on_add_connection u s).0
unfolding on_add_connection mem
on_add_connection-Agree u s h = elim (Bool-cases (mem u s.connections)) [
  | inl c ↦
      rw c (record { distinct = h.distinct; marked = λ w. ground (arith, h.marked w, h.marked u) })
  | inr c ↦ rw c (record { distinct = (c, h.distinct); marked = λ w. ground (arith, h.marked w) })
]

mem-nonempty : (u : ℕ) (q : List ℕ) → mem u q ≡ true → (length q == 0) ≡ false
unfolding mem
mem-nonempty u [] h = cc
mem-nonempty u (v ∷ q) h = ground arith

pub on_add_connection-IsAlive : (u : ℕ) (s : Server) → IsAlive s → IsAlive (on_add_connection u s).0
unfolding on_add_connection
on_add_connection-IsAlive u s h st ne = elim (Bool-cases (mem u s.connections)) [
  | inl c ↦ ground (arith, h st (mem-nonempty u s.connections c))
  | inr c ↦ elim (Bool-cases (length s.connections == 0)) [
    | inl z ↦ ground (arith, z)
    | inr z ↦ ground (arith, h st z)
  ]
]

pub on_remove_connection-Agree : (u : ℕ) (s : Server) → Agree s → Agree (on_remove_connection u s).0
unfolding on_remove_connection remove_connection_of
on_remove_connection-Agree u s h = elim (Bool-cases (s.connected u)) [
  | inl c ↦
      rw c (record {
        distinct = (Agree-removed u s h).distinct;
        marked = (Agree-removed u s h).marked;
      })
  | inr c ↦ rw c h
]

pub on_remove_connection-IsAlive :
    (u : ℕ) (s : Server) → IsAlive s → IsAlive (on_remove_connection u s).0
unfolding on_remove_connection remove_connection_of
on_remove_connection-IsAlive u s h = elim (Bool-cases (s.connected u)) [
  | inl c ↦ rw c (λ st ne. h st (erase-empty u s.connections ne))
  | inr c ↦ rw c h
]

pub on_vm_state_change-Agree :
    (e : Env) (c : ℕ) (state : ControllerState) (s : Server)
    → Agree s
    → Agree (on_vm_state_change e c state s).0
unfolding on_vm_state_change on_vm_stopped
on_vm_state_change-Agree e c stopped s h =
    elim (Bool-cases (not s.is_stopping && is_restart (s.vm c).stop_reason)) [
      | inl b ↦ rw b h
      | inr b ↦
          let kept = Agree-Posted s _ (update_vm_status-Posted e c stopped s) h in
          rw b (record { distinct = kept.distinct; marked = kept.marked })
    ]
on_vm_state_change-Agree e c starting s h =
    Agree-Posted s _ (update_vm_status-Posted e c starting s) h
on_vm_state_change-Agree e c running s h =
    Agree-Posted s _ (update_vm_status-Posted e c running s) h
on_vm_state_change-Agree e c stopping s h =
    Agree-Posted s _ (update_vm_status-Posted e c stopping s) h

pub on_vm_state_change-IsAlive :
    (e : Env) (c : ℕ) (state : ControllerState) (s : Server)
    → IsAlive s
    → IsAlive (on_vm_state_change e c state s).0
unfolding on_vm_state_change on_vm_stopped
on_vm_state_change-IsAlive e c stopped s h =
    elim (Bool-cases (not s.is_stopping && is_restart (s.vm c).stop_reason)) [
      | inl b ↦ rw b h
      | inr b ↦ rw b (IsAlive-Posted s _ (update_vm_status-Posted e c stopped s) h)
    ]
on_vm_state_change-IsAlive e c starting s h =
    IsAlive-Posted s _ (update_vm_status-Posted e c starting s) h
on_vm_state_change-IsAlive e c running s h =
    IsAlive-Posted s _ (update_vm_status-Posted e c running s) h
on_vm_state_change-IsAlive e c stopping s h =
    IsAlive-Posted s _ (update_vm_status-Posted e c stopping s) h
