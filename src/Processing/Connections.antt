-- ===== src/Processing/Connections.antt =====
-- The set of connections of src/CollabVM.cpp over courses of rounds: its users are the connected
-- ones, and the keep-alive goes on while there are any.
use collab_vm_server.Prelude.{
  ◌≡◌, refl, ap, inl, inr, false, not, ◌&&◌, none, some, List, [], ◌∷◌, ◌++◌, arith, ◌==◌, length,
  Bool-cases,
}
use collab_vm_server.Processing.{
  Action, message, add_connection, remove_connection, turn_change, vote_ended, agent_connect,
  agent_disconnect, keep_alive, update_thumbnails, shutdown, vm_thumbnail, vm_state_change,
  vm_clean_up, Server, Env, post_action,
}
use collab_vm_server.Processing.Actions.{
  on_message, after_instruction, on_agent_connect, on_agent_disconnect, stop, course, Event, works,
  stops_now, set_agent, clear_agent, on_shutdown, process, arrive, take_action, round,
}
use collab_vm_server.Processing.Queue.{tell_actions-Posted}
use collab_vm_server.Processing.Marked.{
  Agree, IsAlive, is_keep_alive, has_keep_alive, Agree-Posted, IsAlive-Posted,
  has_keep_alive-append,
}
use collab_vm_server.Processing.Kept.{
  on_keep_alive-Agree, on_keep_alive-IsAlive, on_add_connection-Agree, on_add_connection-IsAlive,
  on_remove_connection-Agree, on_remove_connection-IsAlive, on_vm_state_change-Agree,
  on_vm_state_change-IsAlive,
}

process-Agree : (e : Env) (a : Action) (s : Server) → Agree s → Agree (process e a s).0
unfolding process on_message after_instruction on_shutdown on_agent_connect on_agent_disconnect
    set_agent clear_agent
process-Agree e (message u none) s h = h
process-Agree e (message u (some bytes)) s h = elim (Bool-cases (s.connected u)) [
  | inl c ↦ rw c (record { distinct = h.distinct; marked = h.marked })
  | inr c ↦ rw c h
]
process-Agree e (add_connection u) s h = on_add_connection-Agree u s h
process-Agree e (remove_connection u) s h = on_remove_connection-Agree u s h
process-Agree e (turn_change c) s h = h
process-Agree e (vote_ended c) s h = h
process-Agree e (agent_connect c agent m) s h =
    Agree-Posted (set_agent c agent m s) _ (tell_actions-Posted e c (set_agent c agent m s))
      (record { distinct = h.distinct; marked = h.marked })
process-Agree e (agent_disconnect c) s h =
    Agree-Posted (clear_agent c s) _ (tell_actions-Posted e c (clear_agent c s))
      (record { distinct = h.distinct; marked = h.marked })
process-Agree e keep_alive s h = on_keep_alive-Agree e s h
process-Agree e update_thumbnails s h = h
process-Agree e (vm_thumbnail c png) s h = record { distinct = h.distinct; marked = h.marked }
process-Agree e (vm_state_change c state) s h = on_vm_state_change-Agree e c state s h
process-Agree e (vm_clean_up c) s h = h
process-Agree e shutdown s h = elim (Bool-cases (length s.vm_controllers == 0)) [
  | inl c ↦ rw c (record { distinct = h.distinct; marked = h.marked })
  | inr c ↦ rw c h
]

-- The action of the keep-alive itself needs nothing of the timer.
process-IsAlive :
    (e : Env) (a : Action) (s : Server)
    → (is_keep_alive a ≡ false → IsAlive s)
    → IsAlive (process e a s).0
unfolding process on_message after_instruction on_shutdown on_agent_connect on_agent_disconnect
    set_agent clear_agent
process-IsAlive e (message u none) s h = h refl
process-IsAlive e (message u (some bytes)) s h = elim (Bool-cases (s.connected u)) [
  | inl c ↦ rw c (h refl)
  | inr c ↦ rw c (h refl)
]
process-IsAlive e (add_connection u) s h = on_add_connection-IsAlive u s (h refl)
process-IsAlive e (remove_connection u) s h = on_remove_connection-IsAlive u s (h refl)
process-IsAlive e (turn_change c) s h = h refl
process-IsAlive e (vote_ended c) s h = h refl
process-IsAlive e (agent_connect c agent m) s h =
    IsAlive-Posted (set_agent c agent m s) _ (tell_actions-Posted e c (set_agent c agent m s))
      (h refl)
process-IsAlive e (agent_disconnect c) s h =
    IsAlive-Posted (clear_agent c s) _ (tell_actions-Posted e c (clear_agent c s)) (h refl)
process-IsAlive e keep_alive s h = on_keep_alive-IsAlive e s
process-IsAlive e update_thumbnails s h = h refl
process-IsAlive e (vm_thumbnail c png) s h = h refl
process-IsAlive e (vm_state_change c state) s h = on_vm_state_change-IsAlive e c state s (h refl)
process-IsAlive e (vm_clean_up c) s h = h refl
process-IsAlive e shutdown s h = elim (Bool-cases (length s.vm_controllers == 0)) [
  | inl c ↦ rw c (h refl)
  | inr c ↦ rw c (h refl)
]

-- Both, for a server between two rounds.
pub record IsConsistent (s : Server) : Type 0 where
  pub agree : Agree s
  pub alive : IsAlive s

arrive-IsConsistent : (e : Env) (s : Server) → IsConsistent s → IsConsistent (arrive e s)
unfolding arrive post_action
arrive-IsConsistent e s h = elim (Bool-cases (e.timer_expires && s.keep_alive_timer)) [
  | inl t ↦ rw t (record {
    agree = record { distinct = h.agree.distinct; marked = h.agree.marked };
    alive = λ st ne.
        ground (arith, has_keep_alive-append (s.process_queue ++ e.posts) (keep_alive ∷ []));
  })
  | inr t ↦ rw t (record {
    agree = record { distinct = h.agree.distinct; marked = h.agree.marked };
    alive = λ st ne. ground (arith, has_keep_alive-append s.process_queue e.posts, h.alive st ne);
  })
]

take_action-IsConsistent :
    (e : Env) (q : List Action) (s : Server)
    → s.process_queue ≡ q
    → IsConsistent s
    → IsConsistent (take_action e q s).0
unfolding take_action
take_action-IsConsistent e [] s eq h = h
take_action-IsConsistent e (a ∷ q) s eq h =
    let popped = record s { process_queue = q } in
    record {
      agree =
          process-Agree e a popped
            (record { distinct = h.agree.distinct; marked = h.agree.marked });
      alive =
          process-IsAlive e a popped
            (λ other st ne. ground (arith, h.alive st ne, ap has_keep_alive eq, other));
    }

round-IsConsistent : (e : Env) (s : Server) → IsConsistent s → IsConsistent (round e s).0
unfolding round
round-IsConsistent e s h = elim (Bool-cases (not s.thread_running)) [
  | inl r ↦ rw r h
  | inr r ↦ rw r (arrive-IsConsistent e _ (take_action-IsConsistent e s.process_queue s refl h))
]

stop-IsConsistent : (s : Server) → IsConsistent s → IsConsistent (stop s)
unfolding stop
stop-IsConsistent s h = elim (Bool-cases s.is_stopping) [
  | inl c ↦ rw c (record {
    agree = record { distinct = h.agree.distinct; marked = h.agree.marked };
    alive = λ st ne. cc;
  })
  | inr c ↦ rw c (record {
    agree = record { distinct = h.agree.distinct; marked = h.agree.marked };
    alive = λ st ne. cc;
  })
]

-- Where it holds at first, it holds after any course of rounds, whatever is posted, and of stops
-- between them: the set of connections holds exactly the users that are marked as connected, once
-- each; and while the server does not stop and has connections, the keep-alive goes on: its timer
-- runs, or its action is in the queue.
pub course-IsConsistent :
    (es : List Event) (s : Server) → IsConsistent s → IsConsistent (course es s)
unfolding course
course-IsConsistent [] s h = h
course-IsConsistent (works e ∷ es) s h =
    course-IsConsistent es (round e s).0 (round-IsConsistent e s h)
course-IsConsistent (stops_now ∷ es) s h = course-IsConsistent es (stop s) (stop-IsConsistent s h)
