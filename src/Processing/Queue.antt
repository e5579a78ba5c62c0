-- ===== src/Processing/Queue.antt =====
-- What sending messages in src/CollabVM.cpp does to the queue of actions, and what it means that
-- the queue only grows.
use collab_vm_server.Prelude.{
  ℕ, ◌≡◌, ◌∙◌, sym, refl, ap, subst, inl, inr, Bool, true, false, ◌||◌, List, [], ◌∷◌, ◌++◌, Bytes,
  arith, append-nil, append_assoc, Bool-cases,
}
use collab_vm_server.Processing.{
  ControllerState, Action, remove_connection, shutdown, Server, Env, post_action, send_ws_message,
  send_each, update_vm_status,
}
use collab_vm_server.Processing.Actions.{tell_actions}

abbrev pub is_shutdown : Action → Bool
is_shutdown shutdown = true
is_shutdown _ = false

abbrev pub has_shutdown : List Action → Bool
has_shutdown [] = false
has_shutdown (a ∷ q) = is_shutdown a || has_shutdown q

-- The server with more actions at the end of the queue.
abbrev pub posted : Server → List Action → Server
posted s extra = record s { process_queue = s.process_queue ++ extra }

abbrev pub Posted : Server → Server → Type 0
Posted s s' = (extra : List Action) × (s' ≡ posted s extra) × (has_shutdown extra ≡ false)

Posted-refl : (s : Server) → Posted s s
Posted-refl s = (
  [],
  ap (λ (q : List Action). record s { process_queue = q }) (sym (append-nil s.process_queue)),
  refl,
)

pub has_shutdown-append :
    (p q : List Action) → has_shutdown (p ++ q) ≡ (has_shutdown p || has_shutdown q)
has_shutdown-append [] q = refl
has_shutdown-append (a ∷ p) q = ground (arith, has_shutdown-append p q)

Posted-trans : (s t u : Server) → Posted s t → Posted t u → Posted s u
Posted-trans s t u (p, ep, cp) (q, eq, cq) = (
  p ++ q,
  eq
      ∙ (ap (λ (t : Server). posted t q) ep
          ∙ ap (λ (l : List Action). record s { process_queue = l })
              (append_assoc s.process_queue p q)),
  ground (arith, has_shutdown-append p q),
)

pub send_ws_message-Posted :
    (e : Env) (u : ℕ) (text : Bytes) (s : Server) → Posted s (send_ws_message e u text s).0
unfolding send_ws_message post_action
send_ws_message-Posted e u text s = elim (Bool-cases (e.reachable u)) [
  | inl r ↦ rw r (Posted-refl s)
  | inr r ↦ elim (Bool-cases (s.connected u)) [
    | inl c ↦ rw (r, c) (remove_connection u ∷ [], refl, refl)
    | inr c ↦ rw (r, c) (Posted-refl s)
  ]
]

-- Messages that are sent change nothing but the queue.
pub send_each-Posted :
    (e : Env) (us : List ℕ) (text : Bytes) (s : Server) → Posted s (send_each e us text s).0
unfolding send_each
send_each-Posted e [] text s = Posted-refl s
send_each-Posted e (u ∷ us) text s =
    Posted-trans s (send_ws_message e u text s).0 _ (send_ws_message-Posted e u text s)
      (send_each-Posted e us text (send_ws_message e u text s).0)

pub tell_actions-Posted : (e : Env) (c : ℕ) (s : Server) → Posted s (tell_actions e c s).0
unfolding tell_actions
tell_actions-Posted e c s = send_each-Posted e (s.vm c).users _ s

pub update_vm_status-Posted :
    (e : Env) (c : ℕ) (state : ControllerState) (s : Server)
    → Posted s (update_vm_status e c state s).0
unfolding update_vm_status
update_vm_status-Posted e c state s = send_each-Posted e s.admin_connections _ s

-- The queue grows at its end; the map, the controllers' names, and whether the server stops or runs
-- stay as they are.
pub record Keeps (s s' : Server) : Type 0 where
  pub extra : List Action
  pub queue : s'.process_queue ≡ s.process_queue ++ extra
  pub calm : has_shutdown extra ≡ false
  pub map : s'.vm_controllers ≡ s.vm_controllers
  pub names : (c : ℕ) → (s'.vm c).settings.name ≡ (s.vm c).settings.name
  pub stops : s'.is_stopping ≡ s.is_stopping
  pub runs : s'.thread_running ≡ s.thread_running

pub Keeps-refl : (s : Server) → Keeps s s
Keeps-refl s = record {
  extra = [];
  queue = sym (append-nil s.process_queue);
  calm = refl;
  map = refl;
  names = λ c. refl;
  stops = refl;
  runs = refl;
}

pub Keeps-trans : (s t u : Server) → Keeps s t → Keeps t u → Keeps s u
Keeps-trans s t u h k = record {
  extra = h.extra ++ k.extra;
  queue =
      k.queue
      ∙ (ap (λ (l : List Action). l ++ k.extra) h.queue
          ∙ append_assoc s.process_queue h.extra k.extra);
  calm = ground (arith, has_shutdown-append h.extra k.extra, h.calm, k.calm);
  map = k.map ∙ h.map;
  names = λ c. k.names c ∙ h.names c;
  stops = k.stops ∙ h.stops;
  runs = k.runs ∙ h.runs;
}

pub Keeps-of_Posted : (s t : Server) → Posted s t → Keeps s t
Keeps-of_Posted s t (extra, e, calm) =
    subst (λ (t : Server). Keeps s t) (sym e)
      (record {
        extra = extra;
        queue = refl;
        calm = calm;
        map = refl;
        names = λ c. refl;
        stops = refl;
        runs = refl;
      })
