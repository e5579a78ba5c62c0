-- ===== src/Processing/Reports.antt =====
-- The reports of the controllers in the queue of src/CollabVM.cpp, and what brings them closer.
use collab_vm_server.Prelude.{
  ℕ, zero, suc, ◌≡◌, ◌∙◌, sym, ap, subst, inl, inr, Bool, true, false, ◌||◌, List, [], ◌∷◌, ◌++◌,
  Bytes, arith, ◌==◌, length, equal, Bool-cases, take, All, equal_sound, equal_refl,
}
use collab_vm_server.Processing.{Action, stopped, vm_state_change, Server}
use collab_vm_server.Processing.Actions.{erase_controller}
use collab_vm_server.Processing.Queue.{Keeps}
use collab_vm_server.Processing.Growth.{is_quiet}

-- Whether the queue holds the report that a controller of this name has stopped.
abbrev pub reported : (ℕ → Bytes) → Bytes → List Action → Bool
reported name k [] = false
reported name k (vm_state_change c stopped ∷ q) = equal (name c) k || reported name k q
reported name k (a ∷ q) = reported name k q

-- The queue holds the reports of all controllers of the map.
abbrev pub AllReported : (ℕ → Bytes) → List (Bytes × ℕ) → List Action → Type 0
AllReported name m q = All (λ (e : Bytes × ℕ). reported name e.0 q ≡ true) m

pub reported-append :
    (name : ℕ → Bytes) (k : Bytes) (p q : List Action)
    → reported name k p ≡ true
    → reported name k (p ++ q) ≡ true
reported-append name k [] q h = cc
reported-append name k (a ∷ p) q h = ground (arith, reported-append name k p q)

-- The first actions of a queue that has grown.
pub reported-take :
    (name : ℕ → Bytes) (k : Bytes) (n : ℕ) (p q : List Action)
    → reported name k (take n p) ≡ true
    → reported name k (take n (p ++ q)) ≡ true
reported-take name k zero p q h = cc
reported-take name k (suc n) [] q h = cc
reported-take name k (suc n) (a ∷ p) q h = ground (arith, reported-take name k n p q)

-- Without the name that the first report is for, the others are still reported.
pub AllReported-erase :
    (name : ℕ → Bytes) (c : ℕ) (m : List (Bytes × ℕ)) (q : List Action)
    → AllReported name m (vm_state_change c stopped ∷ q)
    → AllReported name (erase_controller (name c) m) q
unfolding erase_controller
AllReported-erase name c [] q h = tt
AllReported-erase name c ((k, d) ∷ m) q h = elim (Bool-cases (equal k (name c))) [
  | inl e ↦ rw e (AllReported-erase name c m q h.1)
  | inr e ↦
      rw e (ground (arith, equal_sound (name c) k, equal_refl k), AllReported-erase name c m q h.1)
]

pub AllReported-map :
    (name : ℕ → Bytes) (m : List (Bytes × ℕ)) (p q : List Action)
    → ((k : Bytes) → reported name k p ≡ true → reported name k q ≡ true)
    → AllReported name m p
    → AllReported name m q
AllReported-map name [] p q f h = tt
AllReported-map name ((k, c) ∷ m) p q f h = (f k h.0, AllReported-map name m p q f h.1)

-- A server that stops, with controllers left, all of whose reports are among the next `n` actions.
pub record Ends (name : ℕ → Bytes) (n : ℕ) (s : Server) : Type 0 where
  pub named : (d : ℕ) → (s.vm d).settings.name ≡ name d
  pub stops : s.is_stopping ≡ true
  pub left : (length s.vm_controllers == 0) ≡ false
  pub reports : AllReported name s.vm_controllers (take n s.process_queue)

-- What keeps the map brings the reports one action closer.
pub Ends-Keeps :
    (name : ℕ → Bytes) (n : ℕ) (s t : Server)
    → Keeps s t
    → ((d : ℕ) → (s.vm d).settings.name ≡ name d)
    → s.is_stopping ≡ true
    → (length s.vm_controllers == 0) ≡ false
    → AllReported name s.vm_controllers (take n s.process_queue)
    → Ends name n t
Ends-Keeps name n s t h named st left reports = record {
  named = λ d. h.names d ∙ named d;
  stops = h.stops ∙ st;
  left = ap (λ (m : List (Bytes × ℕ)). length m == 0) h.map ∙ left;
  reports =
      subst (λ (m : List (Bytes × ℕ)). AllReported name m (take n t.process_queue)) (sym h.map)
        (subst (λ (q : List Action). AllReported name s.vm_controllers (take n q)) (sym h.queue)
          (AllReported-map name s.vm_controllers (take n s.process_queue)
            (take n (s.process_queue ++ h.extra))
            (λ k. reported-take name k n s.process_queue h.extra) reports));
}

pub quiet-reported :
    (name : ℕ → Bytes) (a : Action) (k : Bytes) (q : List Action)
    → is_quiet a ≡ true
    → reported name k (a ∷ q) ≡ true
    → reported name k q ≡ true
quiet-reported name (vm_state_change c stopped) k q h r = cc
quiet-reported name a k q h r = ground arith
