-- ===== src/Processing/Order.antt =====
-- The actions of src/CollabVM.cpp are carried out in the order in which they were posted.
use collab_vm_server.Prelude.{
  ℕ, zero, suc, ◌≡◌, ◌∙◌, sym, refl, ap, subst, inl, inr, true, false, not, ◌&&◌, Option, none,
  some, Bytes, append-nil, List, [], ◌∷◌, ◌++◌, arith, length, get_elem?, All, append_assoc,
  Bool-cases,
}
use collab_vm_server.Processing.{
  Action, message, Call, Server, Env, stopped, vm_state_change, shutdown,
}
use collab_vm_server.Processing.Actions.{
  process, arrive, round, run, on_message, after_instruction, on_vm_state_change, on_vm_stopped,
  is_restart,
}
use collab_vm_server.Processing.Queue.{
  is_shutdown, has_shutdown, has_shutdown-append, Keeps, Keeps-refl,
}
use collab_vm_server.Processing.Growth.{
  process-Keeps, arrive-Keeps, update_vm_status-Keeps, round-served,
}

-- The queue grows at its end, and a server that does not stop goes on.
record Goes (s s' : Server) : Type 0 where
  extra : List Action
  queue : s'.process_queue ≡ s.process_queue ++ extra
  calm : has_shutdown extra ≡ false
  stops : s'.is_stopping ≡ s.is_stopping
  runs : s.is_stopping ≡ false → s.thread_running ≡ true → s'.thread_running ≡ true

Goes-of_Keeps : {s t : Server} → Keeps s t → Goes s t
Goes-of_Keeps h = record {
  extra = h.extra;
  queue = h.queue;
  calm = h.calm;
  stops = h.stops;
  runs = λ _ r. h.runs ∙ r;
}

Goes-Keeps : {s t u : Server} → Goes s t → Keeps t u → Goes s u
Goes-Keeps {s} h k = record {
  extra = h.extra ++ k.extra;
  queue =
      k.queue
      ∙ (ap (λ (l : List Action). l ++ k.extra) h.queue
          ∙ append_assoc s.process_queue h.extra k.extra);
  calm = ground (arith, has_shutdown-append h.extra k.extra, h.calm, k.calm);
  stops = k.stops ∙ h.stops;
  runs = λ st r. k.runs ∙ h.runs st r;
}

on_vm_stopped-Goes : (e : Env) (c : ℕ) (s : Server) → Goes s (on_vm_stopped e c s).0
unfolding on_vm_stopped
on_vm_stopped-Goes e c s =
    let h = update_vm_status-Keeps e c stopped s in
    record {
      extra = h.extra;
      queue = h.queue;
      calm = h.calm;
      stops = h.stops;
      runs = λ st r. ground arith;
    }

report-Goes : (e : Env) (c : ℕ) (s : Server) → Goes s (process e (vm_state_change c stopped) s).0
unfolding process on_vm_state_change
report-Goes e c s = elim (Bool-cases (not s.is_stopping && is_restart (s.vm c).stop_reason)) [
  | inl b ↦ rw b (Goes-of_Keeps (Keeps-refl s))
  | inr b ↦ rw b (on_vm_stopped-Goes e c s)
]

message-Goes :
    (e : Env) (u : ℕ) (bytes : Option Bytes) (s : Server) → Goes s (process e (message u bytes) s).0
unfolding process on_message after_instruction
message-Goes e u none s = Goes-of_Keeps (Keeps-refl s)
message-Goes e u (some bytes) s = elim (Bool-cases (s.connected u)) [
  | inl c ↦ rw c (record {
    extra = [];
    queue = sym (append-nil s.process_queue);
    calm = refl;
    stops = refl;
    runs = λ st r. r;
  })
  | inr c ↦ rw c (Goes-of_Keeps (Keeps-refl s))
]

process-Goes :
    (e : Env) (a : Action) (s : Server) → is_shutdown a ≡ false → Goes s (process e a s).0
process-Goes e (vm_state_change c stopped) s h = report-Goes e c s
process-Goes e shutdown s h = cc
process-Goes e (message u bytes) s h = message-Goes e u bytes s
process-Goes e a s h =
    Goes-of_Keeps (process-Keeps e a s (ground arith) (λ m. absurd (ground arith)))

-- The server runs, does not stop, and nobody has asked it to.
pub record IsCalm (s : Server) : Type 0 where
  pub goes_on : s.thread_running ≡ true
  pub not_stopping : s.is_stopping ≡ false
  pub no_shutdown : has_shutdown s.process_queue ≡ false

round-Goes :
    (e : Env) (s : Server) (a : Action) (q : List Action)
    → IsCalm s
    → s.process_queue ≡ a ∷ q
    → has_shutdown e.posts ≡ false
    → Goes (record s { process_queue = q }) (round e s).0
round-Goes e s a q calm h posts =
    let head : is_shutdown a ≡ false = ground (arith, calm.no_shutdown, ap has_shutdown h) in
    let popped = record s { process_queue = q } in
    subst (λ (r : Server × List Call). Goes popped r.0) (sym (round-served e s a q calm.goes_on h))
      (Goes-Keeps (process-Goes e a popped head) (arrive-Keeps e (process e a popped).0 posts))

IsCalm-round :
    (e : Env) (s : Server) (a : Action) (q : List Action)
    → IsCalm s
    → s.process_queue ≡ a ∷ q
    → has_shutdown e.posts ≡ false
    → IsCalm (round e s).0
IsCalm-round e s a q calm h posts =
    let ext = round-Goes e s a q calm h posts in
    record {
      goes_on = ext.runs calm.not_stopping calm.goes_on;
      not_stopping = ext.stops ∙ calm.not_stopping;
      no_shutdown =
          ap has_shutdown ext.queue
          ∙ (has_shutdown-append q ext.extra
              ∙ ground (arith, ext.calm, calm.no_shutdown, ap has_shutdown h));
    }

get_elem?-head :
    (q : List Action) (a : Action) → get_elem? q 0 ≡ some a → (r : List Action) × (q ≡ a ∷ r)
get_elem?-head [] a h = cc
get_elem?-head (b ∷ q) a h = (q, cc)

get_elem?-tail :
    (q : List Action) (n : ℕ) (a : Action)
    → get_elem? q (suc n) ≡ some a
    → (b : Action) × (r : List Action) × (q ≡ b ∷ r) × (get_elem? r n ≡ some a)
get_elem?-tail [] n a h = cc
get_elem?-tail (b ∷ q) n a h = (b, q, refl, h)

get_elem?-append :
    (q r : List Action) (n : ℕ) (a : Action)
    → get_elem? q n ≡ some a
    → get_elem? (q ++ r) n ≡ some a
get_elem?-append [] r n a h = cc
get_elem?-append (b ∷ q) r zero a h = h
get_elem?-append (b ∷ q) r (suc n) a h = get_elem?-append q r n a h

-- The next round carries out this action, with the rest of the queue behind it.
abbrev pub Serves : Action → Env → Server → Type 0
Serves a e s =
    (q : List Action) × (s.process_queue ≡ a ∷ q)
    × (round e s ≡ (
      arrive e (process e a (record s { process_queue = q })).0,
      (process e a (record s { process_queue = q })).1,
    ))

-- While the server runs and does not stop, and no shutdown is in the queue or is posted: an action
-- with a number of others before it in the queue is carried out after exactly that number of
-- rounds, whatever is posted meanwhile. So every action is carried out, in the order of posting.
pub run-Serves :
    (es : List Env) (e : Env) (s : Server) (a : Action)
    → IsCalm s
    → All (λ (f : Env). has_shutdown f.posts ≡ false) es
    → get_elem? s.process_queue (length es) ≡ some a
    → Serves a e (run es s).0
unfolding run
run-Serves [] e s a calm h at =
    let (q, eq) = get_elem?-head s.process_queue a at in
    (q, eq, round-served e s a q calm.goes_on eq)
run-Serves (f ∷ es) e s a calm h at =
    let (b, q, eq, next) = get_elem?-tail s.process_queue (length es) a at in
    let ext = round-Goes f s b q calm eq h.0 in
    run-Serves es e (round f s).0 a (IsCalm-round f s b q calm eq h.0) h.1 (
      ap (λ (l : List Action). get_elem? l (length es)) ext.queue
      ∙ get_elem?-append q ext.extra (length es) a next)
