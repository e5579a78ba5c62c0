-- ===== src/Processing/Marked.antt =====
-- What it means that the set of connections of src/CollabVM.cpp is right and that the keep-alive goes
-- on, and what messages and dropped connections do to it.
use collab_vm_server.Prelude.{
  ℕ, ◌≡◌, sym, refl, subst, inl, inr, Bool, true, false, ◌||◌, List, [], ◌∷◌, ◌++◌, codes, arith,
  ◌==◌, length, update, mem, erase, mem-erase, Distinct, Distinct-erase, Bool-cases,
}
use collab_vm_server.Processing.{Action, keep_alive, Server, Env, send_ws_message}
use collab_vm_server.Processing.Actions.{
  drop_silent, remove_connection_of, is_silent, keep_alive_loop,
}
use collab_vm_server.Processing.Queue.{Posted, send_ws_message-Posted}

abbrev pub is_keep_alive : Action → Bool
is_keep_alive keep_alive = true
is_keep_alive _ = false

abbrev pub has_keep_alive : List Action → Bool
has_keep_alive [] = false
has_keep_alive (a ∷ q) = is_keep_alive a || has_keep_alive q

-- The set holds exactly the users that are marked as connected.
pub record Agree (s : Server) : Type 0 where
  pub distinct : Distinct s.connections
  pub marked : (u : ℕ) → mem u s.connections ≡ s.connected u

-- While the server does not stop and has connections, the timer runs or its action is in the queue.
abbrev pub IsAlive : Server → Type 0
IsAlive s =
    s.is_stopping ≡ false
    → (length s.connections == 0) ≡ false
    → (s.keep_alive_timer || has_keep_alive s.process_queue) ≡ true

pub has_keep_alive-append :
    (p q : List Action) → has_keep_alive (p ++ q) ≡ (has_keep_alive p || has_keep_alive q)
has_keep_alive-append [] q = refl
has_keep_alive-append (a ∷ p) q = ground (arith, has_keep_alive-append p q)

pub erase-empty : (u : ℕ) (q : List ℕ) → (length (erase u q) == 0) ≡ false → (length q == 0) ≡ false
unfolding erase
erase-empty u [] h = h
erase-empty u (v ∷ q) h = ground arith

pub Agree-Posted : (s t : Server) → Posted s t → Agree s → Agree t
Agree-Posted s t (extra, e, calm) h =
    subst Agree (sym e) (record { distinct = h.distinct; marked = h.marked })

pub IsAlive-Posted : (s t : Server) → Posted s t → IsAlive s → IsAlive t
IsAlive-Posted s t (extra, e, calm) h =
    subst IsAlive (sym e)
      (λ st ne. ground (arith, has_keep_alive-append s.process_queue extra, h st ne))

pub Agree-removed :
    (u : ℕ) (s : Server)
    → Agree s
    → Agree
        (record s { connections = erase u s.connections; connected = update s.connected u false })
Agree-removed u s h = record {
  distinct = Distinct-erase u s.connections h.distinct;
  marked = λ w. ground (arith, mem-erase u w s.connections h.distinct, h.marked w);
}

Agree-dropped :
    (u : ℕ) (s : Server)
    → s.connected u ≡ false
    → Agree s
    → Agree (record s { connections = erase u s.connections })
Agree-dropped u s c h = record {
  distinct = Distinct-erase u s.connections h.distinct;
  marked = λ w. ground (arith, mem-erase u w s.connections h.distinct, h.marked w);
}

drop_silent-Agree : (e : Env) (u : ℕ) (s : Server) → Agree s → Agree (drop_silent e u s).0
unfolding drop_silent remove_connection_of
drop_silent-Agree e u s h = elim (Bool-cases (s.connected u)) [
  | inl c ↦
      rw c (record {
        distinct = (Agree-removed u s h).distinct;
        marked = (Agree-removed u s h).marked;
      })
  | inr c ↦ rw c (Agree-dropped u s c h)
]

pub keep_alive_loop-Agree :
    (e : Env) (us : List ℕ) (s : Server) → Agree s → Agree (keep_alive_loop e us s).0
unfolding keep_alive_loop
keep_alive_loop-Agree e [] s h = h
keep_alive_loop-Agree e (u ∷ us) s h = elim (Bool-cases (is_silent e u)) [
  | inl c ↦ rw c (keep_alive_loop-Agree e us (drop_silent e u s).0 (drop_silent-Agree e u s h))
  | inr c ↦ rw c (
      keep_alive_loop-Agree e us (send_ws_message e u (codes "3.nop;") s).0
        (Agree-Posted s _ (send_ws_message-Posted e u (codes "3.nop;") s) h))
]
