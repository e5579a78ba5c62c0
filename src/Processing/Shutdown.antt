-- ===== src/Processing/Shutdown.antt =====
-- How the thread of src/CollabVM.cpp ends: `kShutdown` and the reports of the controllers.
use collab_vm_server.Prelude.{
  ℕ, suc, ◌≡◌, ◌⊎◌, ◌∙◌, sym, refl, ap, subst, inl, inr, Bool, true, false, not, ◌&&◌, List, [],
  ◌∷◌, ◌++◌, Bytes, arith, ◌==◌, if◌then◌else◌, length, Bool-cases, take, All,
}
use collab_vm_server.Processing.{
  Action, stopped, shutdown, vm_state_change, starts, Call, Server, Env,
}
use collab_vm_server.Processing.Actions.{
  erase_controller, on_vm_stopped, on_vm_state_change, on_shutdown, process, arrive, take_action,
  round, run, is_restart,
}
use collab_vm_server.Processing.Queue.{has_shutdown, Keeps, Keeps-refl}
use collab_vm_server.Processing.Growth.{
  IsSteady, process-Keeps, arrive-Keeps, update_vm_status-Keeps, round-served,
}
use collab_vm_server.Processing.Reports.{
  AllReported, reported-take, AllReported-erase, AllReported-map, Ends, Ends-Keeps, quiet-reported,
}

-- A report takes its controller from the map; the last one ends the loop.
on_vm_stopped-Ends :
    (name : ℕ → Bytes) (n : ℕ) (e : Env) (c : ℕ) (s : Server)
    → ((d : ℕ) → (s.vm d).settings.name ≡ name d)
    → s.is_stopping ≡ true
    → AllReported name s.vm_controllers (vm_state_change c stopped ∷ take n s.process_queue)
    → ((on_vm_stopped e c s).0.thread_running ≡ false) ⊎ Ends name n (on_vm_stopped e c s).0
unfolding on_vm_stopped
on_vm_stopped-Ends name n e c s named st reports =
    let rest = erase_controller (s.vm c).settings.name s.vm_controllers in
    let h = update_vm_status-Keeps e c stopped s in
    elim (Bool-cases (length rest == 0)) [
      | inl none_left ↦ inl (ground (arith, st, none_left))
      | inr some_left ↦ inr (record {
        named = λ d. h.names d ∙ named d;
        stops = h.stops ∙ st;
        left = some_left;
        reports =
            subst (λ (q : List Action). AllReported name rest (take n q)) (sym h.queue)
              (AllReported-map name rest (take n s.process_queue)
                (take n (s.process_queue ++ h.extra))
                (λ k. reported-take name k n s.process_queue h.extra)
                (subst
                  (λ (k : Bytes).
                    AllReported name (erase_controller k s.vm_controllers) (take n s.process_queue))
                  (sym (named c))
                  (AllReported-erase name c s.vm_controllers (take n s.process_queue) reports)));
      })
    ]

report-Ends :
    (name : ℕ → Bytes) (n : ℕ) (e : Env) (c : ℕ) (s : Server)
    → ((d : ℕ) → (s.vm d).settings.name ≡ name d)
    → s.is_stopping ≡ true
    → AllReported name s.vm_controllers (vm_state_change c stopped ∷ take n s.process_queue)
    → ((process e (vm_state_change c stopped) s).0.thread_running ≡ false)
      ⊎ Ends name n (process e (vm_state_change c stopped) s).0
unfolding process on_vm_state_change
report-Ends name n e c s named st reports =
    let test : (not s.is_stopping && is_restart (s.vm c).stop_reason) ≡ false =
      ground (arith, st) in
    subst
      (λ (b : Bool).
        ((if b then (s, starts c ∷ []) else on_vm_stopped e c s).0.thread_running ≡ false)
        ⊎ Ends name n (if b then (s, starts c ∷ []) else on_vm_stopped e c s).0)
      (sym test) (on_vm_stopped-Ends name n e c s named st reports)

shutdown-Keeps :
    (e : Env) (s : Server)
    → (length s.vm_controllers == 0) ≡ false
    → Keeps s (process e shutdown s).0
unfolding process on_shutdown
shutdown-Keeps e s left = rw left (Keeps-refl s)

-- The action at the head, if the rest of the queue is that of `s`.
process-Ends :
    (name : ℕ → Bytes) (n : ℕ) (e : Env) (a : Action) (s : Server)
    → IsSteady e
    → ((d : ℕ) → (s.vm d).settings.name ≡ name d)
    → s.is_stopping ≡ true
    → (length s.vm_controllers == 0) ≡ false
    → AllReported name s.vm_controllers (a ∷ take n s.process_queue)
    → ((process e a s).0.thread_running ≡ false) ⊎ Ends name n (process e a s).0
process-Ends name n e shutdown s i named st left reports =
    inr
      (Ends-Keeps name n s (process e shutdown s).0 (shutdown-Keeps e s left) named st left reports)
process-Ends name n e (vm_state_change c stopped) s i named st left reports =
    report-Ends name n e c s named st reports
process-Ends name n e a s i named st left reports = inr (
    Ends-Keeps name n s (process e a s).0 (process-Keeps e a s (ground arith) (λ m. i)) named st
      left
      (AllReported-map name s.vm_controllers (a ∷ take n s.process_queue) (take n s.process_queue)
        (λ k. quiet-reported name a k (take n s.process_queue) (ground arith)) reports))

arrive-Ends :
    (name : ℕ → Bytes) (n : ℕ) (e : Env) (s : Server)
    → has_shutdown e.posts ≡ false
    → ((s.thread_running ≡ false) ⊎ Ends name n s)
    → ((arrive e s).thread_running ≡ false) ⊎ Ends name n (arrive e s)
arrive-Ends name n e s posts (inl over) = inl ((arrive-Keeps e s posts).runs ∙ over)
arrive-Ends name n e s posts (inr h) =
    inr (Ends-Keeps name n s (arrive e s) (arrive-Keeps e s posts) h.named h.stops h.left h.reports)

-- A loop that has ended leaves no controller in the map.
abbrev IsDone : Server → Type 0
IsDone s = s.thread_running ≡ false → (length s.vm_controllers == 0) ≡ true

IsDone-Keeps : (s t : Server) → Keeps s t → IsDone s → IsDone t
IsDone-Keeps s t h done over =
    ap (λ (m : List (Bytes × ℕ)). length m == 0) h.map ∙ done (sym h.runs ∙ over)

process-IsDone :
    (e : Env) (a : Action) (s : Server) → IsSteady e → IsDone s → IsDone (process e a s).0
unfolding process on_shutdown on_vm_state_change on_vm_stopped
process-IsDone e shutdown s i done = elim (Bool-cases (length s.vm_controllers == 0)) [
  | inl c ↦ rw c (λ over. c)
  | inr c ↦ rw c done
]
process-IsDone e (vm_state_change c stopped) s i done =
    elim (Bool-cases (not s.is_stopping && is_restart (s.vm c).stop_reason)) [
      | inl b ↦ rw b done
      | inr b ↦ rw b (λ over. ground arith)
    ]
process-IsDone e a s i done =
    IsDone-Keeps s (process e a s).0 (process-Keeps e a s (ground arith) (λ m. i)) done

queue-cases : (q : List Action) → (q ≡ []) ⊎ ((a : Action) × (r : List Action) × (q ≡ a ∷ r))
queue-cases [] = inl refl
queue-cases (a ∷ q) = inr (a, q, refl)

none-reported :
    (name : ℕ → Bytes) (m : List (Bytes × ℕ)) → (length m == 0) ≡ false → AllReported name m [] → ⊥
none-reported name [] h r = cc
none-reported name ((k, c) ∷ m) h r = cc (r.0)

-- The loop is over, or it comes one action closer to that.
abbrev Outcome : (ℕ → Bytes) → ℕ → Server → Type 0
Outcome name n s = ((s.thread_running ≡ false) ⊎ Ends name n s) × IsDone s

round-Outcome :
    (name : ℕ → Bytes) (n : ℕ) (e : Env) (s : Server)
    → has_shutdown e.posts ≡ false
    → IsSteady e
    → s.thread_running ≡ true
    → IsDone s
    → Ends name (suc n) s
    → Outcome name n (round e s).0
round-Outcome name n e s posts i r done h = elim (queue-cases s.process_queue) [
  | inl empty ↦ absurd (
      none-reported name s.vm_controllers h.left (
        subst (λ (q : List Action). AllReported name s.vm_controllers (take (suc n) q)) empty
          h.reports))
  | inr (a, q, eq) ↦
      let popped = record s { process_queue = q } in
      let reports =
        subst (λ (q : List Action). AllReported name s.vm_controllers (take (suc n) q)) eq
          h.reports in
      subst
        (λ (t : Server × List Call). ((t.0.thread_running ≡ false) ⊎ Ends name n t.0) × IsDone t.0)
        (sym (round-served e s a q r eq))
        (
          arrive-Ends name n e (process e a popped).0 posts
              (process-Ends name n e a popped i h.named h.stops h.left reports),
          IsDone-Keeps (process e a popped).0 _ (arrive-Keeps e (process e a popped).0 posts)
              (process-IsDone e a popped i (λ over. done over)),
        )
]

round_over : (e : Env) (s : Server) → s.thread_running ≡ false → (round e s).0 ≡ s
unfolding round
round_over e s h =
    ap (λ (t : Server × List Call). t.0)
      (ap
        (λ (b : Bool).
          if not b
          then (s, [])
          else let (s', cs) = take_action e s.process_queue s in (arrive e s', cs))
        h)

run_over : (es : List Env) (s : Server) → s.thread_running ≡ false → (run es s).0 ≡ s
unfolding run
run_over [] s h = refl
run_over (e ∷ es) s h = ap (λ (t : Server). (run es t).0) (round_over e s h) ∙ run_over es s h

abbrev pub IsOver : Server → Type 0
IsOver s = (s.thread_running ≡ false) × ((length s.vm_controllers == 0) ≡ true)

Outcome-IsOver :
    (name : ℕ → Bytes) (es : List Env) (s : Server)
    → All (λ (e : Env). has_shutdown e.posts ≡ false) es
    → All IsSteady es
    → Outcome name (length es) s
    → IsOver (run es s).0
unfolding run
Outcome-IsOver name es s calm steady (inl over, done) =
    subst IsOver (sym (run_over es s over)) (over, done over)
Outcome-IsOver name [] s calm steady (inr h, done) =
    absurd (none-reported name s.vm_controllers h.left h.reports)
Outcome-IsOver name (e ∷ es) s calm steady (inr h, done) = elim (Bool-cases s.thread_running) [
  | inl r ↦
      Outcome-IsOver name es (round e s).0 calm.1 steady.1
        (round-Outcome name (length es) e s calm.0 steady.0 r done h)
  | inr over ↦ subst IsOver (sym (run_over (e ∷ es) s over)) (over, done over)
]

-- While the server stops, no second shutdown is posted, and no instruction creates a controller or
-- gives one another name: from a loop that runs with controllers
-- in the map, if among the first actions of the queue there is, for each of them, the report that a
-- controller of its name has stopped, the loop ends within as many rounds, whatever the other
-- actions are and whatever is posted meanwhile; and no controller is left in the map then.
pub run-IsOver :
    (es : List Env) (s : Server)
    → s.thread_running ≡ true
    → s.is_stopping ≡ true
    → (length s.vm_controllers == 0) ≡ false
    → All (λ (e : Env). has_shutdown e.posts ≡ false) es
    → All IsSteady es
    → AllReported (λ c. (s.vm c).settings.name) s.vm_controllers (take (length es) s.process_queue)
    → IsOver (run es s).0
run-IsOver es s r st left calm steady reports =
    Outcome-IsOver (λ c. (s.vm c).settings.name) es s calm steady
      (inr (record { named = λ d. refl; stops = st; left = left; reports = reports }), λ over. cc)
