-- ===== src/Turns/Line.antt =====
-- The turns as one line of users, the holder of the turn first: what the calls of
-- src/VMControllers/VMController.cpp promise.
use collab_vm_server.Prelude.{
  ℕ, ◌≡◌, refl, ap, ◌∙◌, inl, inr, Bool, true, false, ◌&&◌, ◌||◌, Option, none, some, List, [], ◌∷◌,
  ◌++◌, arith, if◌then◌else◌, Bool-cases, mem, erase, is, erase_absent,
}
use collab_vm_server.Turns.{
  Env, Turns, broadcast_turn, broadcast_turn_info, leave_queue, enter, refused, turn_request,
  advance, next_turn, clear_turn_queue, give_up, end_turn, remaining, announced, cancel,
}
use collab_vm_server.Turns.Inv.{
  Inv, turn_request-Inv, next_turn-Inv, clear_turn_queue-Inv, end_turn-Inv, current-leave_queue,
}

abbrev behind : Option ℕ → List ℕ → List ℕ
behind none q = q
behind (some u) q = u ∷ q

abbrev pub line : Turns → List ℕ
line t = behind t.current t.queue

-- What a user, the timer or the server can bring about.
pub data Event : Type 0 where
  asks jacks : ℕ → Bool → Event
  leaves : ℕ → Event
  expires clears : Event

-- The promise. `ask` joins the end of the line, `jack` goes to its head.
abbrev ask : ℕ → List ℕ → List ℕ
ask u l = if mem u l then l else l ++ u ∷ []

abbrev rest : List ℕ → List ℕ
rest [] = []
rest (u ∷ l) = l

abbrev pub promise : Env → Event → List ℕ → List ℕ
promise e (asks u staff) l = if e.running && (e.turns_enabled || staff) then ask u l else l
promise e (jacks u staff) l = if e.running && (e.turns_enabled || staff) then u ∷ erase u l else l
promise e (leaves u) l = erase u l
promise e expires l = rest l
promise e clears l = []

abbrev pub step : Env → Event → Turns → Turns
step e (asks u staff) t = (turn_request e u false staff t).0
step e (jacks u staff) t = (turn_request e u true staff t).0
step e (leaves u) t = (end_turn e u t).0
step e expires t = (next_turn e t).0
step e clears t = (clear_turn_queue e t).0

-- Turns are asked for by users that view the VM.
abbrev pub IsFrom : (ℕ → Bool) → Event → Type 0
IsFrom home (asks u staff) = home u ≡ true
IsFrom home (jacks u staff) = home u ≡ true
IsFrom home _ = Unit

line-broadcast : (e : Env) (t : Turns) (n : ℕ) → line (broadcast_turn_info e t n).0 ≡ line t
unfolding broadcast_turn_info broadcast_turn
line-broadcast e t n = ground arith

line-advance : (e : Env) (q : List ℕ) (t : Turns) → t.queue ≡ q → line (advance e q t) ≡ q
unfolding advance
line-advance e [] t h = h
line-advance e (u ∷ q) t h = refl

module _ (home : ℕ → Bool) (e : Env) (t : Turns) (v : Inv home t) where
  line-next_turn : line (next_turn e t).0 ≡ rest (line t)
  unfolding next_turn
  line-next_turn =
      line-broadcast e (advance e t.queue t) (announced e (advance e t.queue t))
      ∙ line-advance e t.queue t refl
      ∙ ground (arith, v.idle)

  queue-leave_queue : (u : ℕ) → (leave_queue u t).queue ≡ erase u t.queue
  unfolding leave_queue
  queue-leave_queue u = ground (arith, v.queued u, erase_absent u t.queue)

  -- The holder of the turn is not in the queue.
  holder-out : (u : ℕ) → is t.current u ≡ true → mem u t.queue ≡ false
  holder-out u h = ground (arith, v.queued u, v.holder u)

  line-give_up : (u : ℕ) → line (give_up e u (leave_queue u t)) ≡ erase u (line t)
  unfolding give_up erase
  line-give_up u =
      let l = leave_queue u t in
      elim (Bool-cases (is l.current u)) [
        | inl i ↦ rw i (
            line-advance e l.queue (record l { timer = cancel l.timer }) refl
            ∙ queue-leave_queue u
            ∙ ground (arith, current-leave_queue u t, holder-out u, erase_absent u t.queue))
        | inr i ↦ rw i (ground (arith, current-leave_queue u t, queue-leave_queue u))
      ]

  line-end_turn : (u : ℕ) → line (end_turn e u t).0 ≡ erase u (line t)
  unfolding end_turn
  line-end_turn u = ground (
    arith,
    line-give_up u,
    line-broadcast e (give_up e u (leave_queue u t)) (announced e (give_up e u (leave_queue u t))),
  )

  line-turn_request :
      (u : ℕ) (jack staff : Bool)
      → refused e u jack staff t ≡ false
      → line (turn_request e u jack staff t).0 ≡ line (enter e u jack (leave_queue u t))
  unfolding turn_request
  line-turn_request u jack staff r = rw r (
      line-broadcast e (enter e u jack (leave_queue u t))
        (remaining e (enter e u jack (leave_queue u t)).timer))

  line-refused :
      (u : ℕ) (jack staff : Bool)
      → refused e u jack staff t ≡ true
      → line (turn_request e u jack staff t).0 ≡ line t
  unfolding turn_request
  line-refused u jack staff r = rw r

  line-asks :
      (u : ℕ) (staff : Bool)
      → home u ≡ true
      → line (turn_request e u false staff t).0 ≡ promise e (asks u staff) (line t)
  unfolding refused enter mem
  line-asks u staff h = elim (Bool-cases (refused e u false staff t)) [
    | inl r ↦ line-refused u false staff r ∙ ground (arith, v.waits u)
    | inr r ↦
        line-turn_request u false staff r
        ∙ ground (
          arith,
          v.queued u,
          v.idle,
          current-leave_queue u t,
          queue-leave_queue u,
          erase_absent u t.queue,
        )
  ]

  line-jacks :
      (u : ℕ) (staff : Bool)
      → home u ≡ true
      → line (turn_request e u true staff t).0 ≡ promise e (jacks u staff) (line t)
  unfolding refused enter erase
  line-jacks u staff h = elim (Bool-cases (refused e u true staff t)) [
    | inl r ↦ line-refused u true staff r ∙ ground arith
    | inr r ↦
        line-turn_request u true staff r
        ∙ ground (arith, v.idle, current-leave_queue u t, queue-leave_queue u)
  ]

  line-clear : line (clear_turn_queue e t).0 ≡ []
  unfolding clear_turn_queue
  line-clear = line-broadcast e _ 0

module _ (home : ℕ → Bool) where
  step-Inv : (e : Env) (x : Event) (t : Turns) → IsFrom home x → Inv home t → Inv home (step e x t)
  step-Inv e (asks u staff) t h v = turn_request-Inv home e u false staff t h v
  step-Inv e (jacks u staff) t h v = turn_request-Inv home e u true staff t h v
  step-Inv e (leaves u) t h v = end_turn-Inv home e u t v
  step-Inv e expires t h v = next_turn-Inv home e t v
  step-Inv e clears t h v = clear_turn_queue-Inv home e t v

  line-step :
      (e : Env) (x : Event) (t : Turns)
      → IsFrom home x
      → Inv home t
      → line (step e x t) ≡ promise e x (line t)
  line-step e (asks u staff) t h v = line-asks home e t v u staff h
  line-step e (jacks u staff) t h v = line-jacks home e t v u staff h
  line-step e (leaves u) t h v = line-end_turn home e t v u
  line-step e expires t h v = line-next_turn home e t v
  line-step e clears t h v = line-clear home e t v

abbrev pub run : List (Env × Event) → Turns → Turns
run [] t = t
run ((e, x) ∷ xs) t = run xs (step e x t)

abbrev pub promised : List (Env × Event) → List ℕ → List ℕ
promised [] l = l
promised ((e, x) ∷ xs) l = promised xs (promise e x l)

abbrev pub AreFrom : (ℕ → Bool) → List (Env × Event) → Type 0
AreFrom home [] = Unit
AreFrom home ((e, x) ∷ xs) = IsFrom home x × AreFrom home xs

-- From a consistent state, where turns are asked for by users that view the VM only: after any
-- sequence of requests, turn-jackings, departures, expiries and clearings the state is
-- consistent, and the holder of the turn with the queue behind is the line that the events
-- promise.
pub line-run :
    (home : ℕ → Bool) (xs : List (Env × Event)) (t : Turns)
    → AreFrom home xs
    → Inv home t
    → Inv home (run xs t) × (line (run xs t) ≡ promised xs (line t))
line-run home [] t h v = (v, refl)
line-run home ((e, x) ∷ xs) t h v =
    let (w, q) = line-run home xs (step e x t) h.1 (step-Inv home e x t h.0 v) in
    (w, q ∙ ap (promised xs) (line-step home e x t h.0 v))
