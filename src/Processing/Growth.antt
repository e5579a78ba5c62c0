-- ===== src/Processing/Growth.antt =====
-- What most actions of the thread of src/CollabVM.cpp leave alone: the queue only grows, and the
-- controllers stay.
use collab_vm_server.Prelude.{
  ℕ, ◌≡◌, ◌∙◌, sym, refl, ap, inl, inr, Bool, true, false, not, ◌&&◌, Option, none, some, List, [],
  ◌∷◌, ◌++◌, Bytes, codes, arith, ◌==◌, if◌then◌else◌, length, append-nil, append_assoc, Bool-cases,
}
use collab_vm_server.Vms.{Vm}
use collab_vm_server.Processing.{
  ControllerState, stopped, starting, running, stopping, Action, message, add_connection,
  remove_connection, turn_change, vote_ended, agent_connect, agent_disconnect, keep_alive,
  update_thumbnails, shutdown, vm_thumbnail, vm_state_change, vm_clean_up, Server, Env, post_action,
  send_ws_message, update_vm_status,
}
use collab_vm_server.Processing.Actions.{
  create_controllers, after_instruction, on_message, on_add_connection, on_remove_connection,
  tell_actions, on_agent_connect, on_agent_disconnect, drop_silent, remove_connection_of, is_silent,
  keep_alive_loop, on_keep_alive, on_vm_state_change, process, arrive, set_agent, clear_agent,
  take_action, round,
}
use collab_vm_server.Processing.Queue.{
  has_shutdown, Keeps, Keeps-refl, Keeps-trans, Keeps-of_Posted, has_shutdown-append,
  send_ws_message-Posted, tell_actions-Posted, update_vm_status-Posted,
}

-- A change of other fields.
unqueued-Keeps :
    (s t : Server)
    → t.process_queue ≡ s.process_queue
    → t.vm_controllers ≡ s.vm_controllers
    → ((c : ℕ) → (t.vm c).settings.name ≡ (s.vm c).settings.name)
    → t.is_stopping ≡ s.is_stopping
    → t.thread_running ≡ s.thread_running
    → Keeps s t
unqueued-Keeps s t q m n st r = record {
  extra = [];
  queue = q ∙ sym (append-nil s.process_queue);
  calm = refl;
  map = m;
  names = n;
  stops = st;
  runs = r;
}

drop_silent-Keeps : (e : Env) (u : ℕ) (s : Server) → Keeps s (drop_silent e u s).0
unfolding drop_silent remove_connection_of
drop_silent-Keeps e u s = elim (Bool-cases (s.connected u)) [
  | inl c ↦ rw c (unqueued-Keeps s _ refl refl (λ c. refl) refl refl)
  | inr c ↦ rw c (unqueued-Keeps s _ refl refl (λ c. refl) refl refl)
]

keep_alive_loop-Keeps : (e : Env) (us : List ℕ) (s : Server) → Keeps s (keep_alive_loop e us s).0
unfolding keep_alive_loop
keep_alive_loop-Keeps e [] s = Keeps-refl s
keep_alive_loop-Keeps e (u ∷ us) s = elim (Bool-cases (is_silent e u)) [
  | inl c ↦ rw c (
      Keeps-trans s (drop_silent e u s).0 _ (drop_silent-Keeps e u s)
        (keep_alive_loop-Keeps e us (drop_silent e u s).0))
  | inr c ↦ rw c (
      Keeps-trans s (send_ws_message e u (codes "3.nop;") s).0 _
        (Keeps-of_Posted s _ (send_ws_message-Posted e u (codes "3.nop;") s))
        (keep_alive_loop-Keeps e us (send_ws_message e u (codes "3.nop;") s).0))
]

on_keep_alive-Keeps : (e : Env) (s : Server) → Keeps s (on_keep_alive e s).0
unfolding on_keep_alive
on_keep_alive-Keeps e s = elim (Bool-cases (length s.connections == 0)) [
  | inl c ↦ rw c (Keeps-refl s)
  | inr c ↦ rw c (
      Keeps-trans s (keep_alive_loop e s.connections s).0 _
        (keep_alive_loop-Keeps e s.connections s)
        (unqueued-Keeps _ _ refl refl (λ c. refl) refl refl))
]

tell_actions-Keeps : (e : Env) (c : ℕ) (s t : Server) → Keeps s t → Keeps s (tell_actions e c t).0
tell_actions-Keeps e c s t h = Keeps-trans s t _ h (Keeps-of_Posted t _ (tell_actions-Posted e c t))

pub update_vm_status-Keeps :
    (e : Env) (c : ℕ) (state : ControllerState) (s : Server)
    → Keeps s (update_vm_status e c state s).0
update_vm_status-Keeps e c state s = Keeps-of_Posted s _ (update_vm_status-Posted e c state s)

on_add_connection-Keeps : (u : ℕ) (s : Server) → Keeps s (on_add_connection u s).0
unfolding on_add_connection
on_add_connection-Keeps u s = unqueued-Keeps s _ refl refl (λ c. refl) refl refl

on_remove_connection-Keeps : (u : ℕ) (s : Server) → Keeps s (on_remove_connection u s).0
unfolding on_remove_connection
on_remove_connection-Keeps u s = elim (Bool-cases (s.connected u)) [
  | inl c ↦ rw c (unqueued-Keeps s _ refl refl (λ c. refl) refl refl)
  | inr c ↦ rw c (Keeps-refl s)
]

-- An instruction that creates no controller, and gives none another name.
pub record IsSteady (e : Env) : Type 0 where
  pub none_created : e.new_controllers ≡ []
  pub names_stay : (c : ℕ) (vm : Vm) → (e.edited c vm).settings.name ≡ vm.settings.name

on_message-Keeps :
    (e : Env) (u : ℕ) (bytes : Option Bytes) (s : Server)
    → IsSteady e
    → Keeps s (on_message e u bytes s).0
unfolding on_message after_instruction create_controllers
on_message-Keeps e u none s i = Keeps-refl s
on_message-Keeps e u (some bytes) s i = elim (Bool-cases (s.connected u)) [
  | inl c ↦ rw c (
      unqueued-Keeps s _ refl
        (ap (λ (l : List (Bytes × ℕ)). create_controllers l s.vm_controllers) i.none_created)
        (λ d. i.names_stay d (s.vm d)) refl refl)
  | inr c ↦ rw c (Keeps-refl s)
]

abbrev pub is_message : Action → Bool
is_message (message u bytes) = true
is_message _ = false

-- An action that neither shuts down nor reports that a controller has stopped.
abbrev pub is_quiet : Action → Bool
is_quiet shutdown = false
is_quiet (vm_state_change c stopped) = false
is_quiet _ = true

pub process-Keeps :
    (e : Env) (a : Action) (s : Server)
    → is_quiet a ≡ true
    → (is_message a ≡ true → IsSteady e)
    → Keeps s (process e a s).0
unfolding process on_agent_connect on_agent_disconnect set_agent clear_agent on_vm_state_change
process-Keeps e (message u bytes) s h i = on_message-Keeps e u bytes s (i refl)
process-Keeps e (add_connection u) s h i = on_add_connection-Keeps u s
process-Keeps e (remove_connection u) s h i = on_remove_connection-Keeps u s
process-Keeps e (turn_change c) s h i = Keeps-refl s
process-Keeps e (vote_ended c) s h i = Keeps-refl s
process-Keeps e (agent_connect c agent m) s h i =
    tell_actions-Keeps e c s (set_agent c agent m s)
      (unqueued-Keeps s _ refl refl (λ d. ground arith) refl refl)
process-Keeps e (agent_disconnect c) s h i =
    tell_actions-Keeps e c s (clear_agent c s)
      (unqueued-Keeps s _ refl refl (λ d. ground arith) refl refl)
process-Keeps e keep_alive s h i = on_keep_alive-Keeps e s
process-Keeps e update_thumbnails s h i = Keeps-refl s
process-Keeps e (vm_thumbnail c png) s h i =
    unqueued-Keeps s _ refl refl (λ d. ground arith) refl refl
process-Keeps e (vm_state_change c stopped) s h i = cc
process-Keeps e (vm_state_change c starting) s h i = update_vm_status-Keeps e c starting s
process-Keeps e (vm_state_change c running) s h i = update_vm_status-Keeps e c running s
process-Keeps e (vm_state_change c stopping) s h i = update_vm_status-Keeps e c stopping s
process-Keeps e (vm_clean_up c) s h i = Keeps-refl s
process-Keeps e shutdown s h i = cc

pub arrive-Keeps : (e : Env) (s : Server) → has_shutdown e.posts ≡ false → Keeps s (arrive e s)
unfolding arrive post_action
arrive-Keeps e s h = elim (Bool-cases (e.timer_expires && s.keep_alive_timer)) [
  | inl t ↦ rw t (record {
    extra = e.posts ++ keep_alive ∷ [];
    queue = append_assoc s.process_queue e.posts (keep_alive ∷ []);
    calm = ground (arith, has_shutdown-append e.posts (keep_alive ∷ []));
    map = refl;
    names = λ c. refl;
    stops = refl;
    runs = refl;
  })
  | inr t ↦ rw t (record {
    extra = e.posts;
    queue = refl;
    calm = h;
    map = refl;
    names = λ c. refl;
    stops = refl;
    runs = refl;
  })
]

-- A round with an action in the queue carries out the first.
pub round-served :
    (e : Env) (s : Server) (a : Action) (q : List Action)
    → s.thread_running ≡ true
    → s.process_queue ≡ a ∷ q
    → round e s ≡ (
      arrive e (process e a (record s { process_queue = q })).0,
      (process e a (record s { process_queue = q })).1,
    )
unfolding round take_action
round-served e s a q r h =
    ap
      (λ (b : Bool).
        if not b
        then (s, [])
        else let (s', cs) = take_action e s.process_queue s in (arrive e s', cs))
      r
    ∙ ap (λ (l : List Action). let (s', cs) = take_action e l s in (arrive e s', cs)) h
