-- ===== src/Processing/Stop.antt =====
-- `Stop` of src/CollabVM.cpp while a controller's report waits in the queue.
use collab_vm_server.Prelude.{
  ℕ, ◌≡◌, ◌∙◌, sym, refl, ap, subst, Bool, true, false, List, [], ◌∷◌, ◌++◌, Bytes, arith, ◌==◌,
  if◌then◌else◌, length, All, append-nil,
}
use collab_vm_server.Processing.{shutdown, Call, Server, Env}
use collab_vm_server.Processing.Actions.{
  on_shutdown, process, arrive, round, stop, close_all, stop_all,
}
use collab_vm_server.Processing.Growth.{round-served}

abbrev halted : Server → Server
halted s = record s { is_stopping = true; keep_alive_timer = false; process_queue = shutdown ∷ [] }

stop-halted : (s : Server) → s.thread_running ≡ true → s.is_stopping ≡ false → stop s ≡ halted s
unfolding stop
stop-halted s r st =
    ap
      (λ (b : Bool). if b then s else record s {
        is_stopping = true;
        keep_alive_timer = false;
        process_queue = if s.thread_running then shutdown ∷ [] else s.process_queue;
      })
      st
    ∙ ap
        (λ (b : Bool). record s {
          is_stopping = true;
          keep_alive_timer = false;
          process_queue = if b then shutdown ∷ [] else s.process_queue;
        })
        r

-- No controller of the map runs.
abbrev pub NoneRuns : Server → List (Bytes × ℕ) → Type 0
NoneRuns s m = All (λ (entry : Bytes × ℕ). (s.vm entry.1).running ≡ false) m

stop_all-nil : (s : Server) (m : List (Bytes × ℕ)) → NoneRuns s m → stop_all s m ≡ []
unfolding stop_all
stop_all-nil s [] h = refl
stop_all-nil s ((n, c) ∷ m) h = ground (arith, h.0, stop_all-nil s m h.1)

abbrev pub Waits : Env → Server → Server × List Call → Type 0
Waits e s (t, cs) =
    (t.thread_running ≡ true)
    × (t.process_queue ≡ [])
    × (t.vm_controllers ≡ s.vm_controllers)
    × (cs ≡ close_all e s.connections)

on_shutdown-Waits :
    (e : Env) (s : Server)
    → s.thread_running ≡ true
    → (length s.vm_controllers == 0) ≡ false
    → NoneRuns s s.vm_controllers
    → e.posts ≡ []
    → let popped = record (halted s) { process_queue = [] } in
      Waits e s (arrive e (process e shutdown popped).0, (process e shutdown popped).1)
unfolding process on_shutdown arrive
on_shutdown-Waits e s r left idle posts = rw left (
  ground (arith, r),
  ground (arith, posts),
  ground arith,
  ap (λ (l : List Call). close_all e s.connections ++ l)
        (stop_all-nil
          (record s { process_queue = []; keep_alive_timer = false; is_stopping = true })
          s.vm_controllers idle)
      ∙ append-nil (close_all e s.connections),
)

-- `Stop` drops the reports that are in the queue: where the thread of a server that does not stop
-- runs, and the map has controllers, none of which runs, then after `Stop` and the round of the
-- shutdown, if nothing is posted meanwhile, no controller has been asked to stop, the map is as it
-- was, and the thread waits with an empty queue.
pub stop-Waits :
    (e : Env) (s : Server)
    → s.thread_running ≡ true
    → s.is_stopping ≡ false
    → (length s.vm_controllers == 0) ≡ false
    → NoneRuns s s.vm_controllers
    → e.posts ≡ []
    → Waits e s (round e (stop s))
stop-Waits e s r st left idle posts =
    subst (λ (t : Server). Waits e s (round e t)) (sym (stop-halted s r st))
      (subst (Waits e s) (sym (round-served e (halted s) shutdown [] r refl))
        (on_shutdown-Waits e s r left idle posts))
