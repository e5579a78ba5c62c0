-- ===== src/Turns/Inv.antt =====
-- The queue, the holder of the turn and the users' flags of src/VMControllers/VMController.cpp
-- stay consistent.
use collab_vm_server.Prelude.{
  ℕ, ◌≡◌, refl, ap, subst, inl, inr, Bool, true, false, not, ◌&&◌, ◌||◌, none, List, [], ◌∷◌, arith,
  Bool-cases, Option-cases, mem, erase, is, update, Distinct, mem-append, mem-erase, Distinct-erase,
  Distinct-concat,
}
use collab_vm_server.Turns.{
  Env, Turns, broadcast_turn, broadcast_turn_info, leave_queue, enter, refused, turn_request,
  advance, next_turn, clear_flags, clear_turn_queue, give_up, end_turn, remaining, announced,
  cancel,
}

-- `home` tells which users view this VM. A user who waits for another VM has the flag too.
pub record Inv (home : ℕ → Bool) (t : Turns) : Type 0 where
  pub queued : (u : ℕ) → mem u t.queue ≡ true → t.waiting u ≡ true
  pub waits : (u : ℕ) → home u ≡ true → t.waiting u ≡ true → mem u t.queue ≡ true
  pub distinct : Distinct t.queue
  pub holder : (u : ℕ) → is t.current u ≡ true → t.waiting u ≡ false
  pub idle : t.current ≡ none → t.queue ≡ []

pub current-leave_queue : (u : ℕ) (t : Turns) → (leave_queue u t).current ≡ t.current
unfolding leave_queue
current-leave_queue u t = ground arith

module _ (home : ℕ → Bool) where
  broadcast-Inv :
      (e : Env) (t : Turns) (n : ℕ) → Inv home t → Inv home (broadcast_turn_info e t n).0
  unfolding broadcast_turn_info broadcast_turn
  broadcast-Inv e t n v = elim (Option-cases t.current) [
    | inl h ↦ rw (h, broadcast_turn_info) v
    | inr (c, h) ↦
        rw (h, broadcast_turn_info)
          (record {
            queued = λ u m. ground (arith, v.queued u, v.holder u, h);
            waits = λ u m w. ground (arith, v.waits u m);
            distinct = v.distinct;
            holder = λ u i. ground (arith, v.holder u);
            idle = v.idle;
          })
  ]

  pub leave_queue-Inv : (u : ℕ) (t : Turns) → Inv home t → Inv home (leave_queue u t)
  unfolding leave_queue erase
  leave_queue-Inv u t v = elim (Bool-cases (t.waiting u && mem u t.queue)) [
    | inr h ↦ rw h v
    | inl h ↦ rw h (record {
      queued = λ w m. ground (arith, v.queued w, mem-erase u w t.queue v.distinct);
      waits = λ w m x. ground (arith, v.waits w m, mem-erase u w t.queue v.distinct);
      distinct = Distinct-erase u t.queue v.distinct;
      holder = λ w i. ground (arith, v.holder w);
      idle = λ i. ap (erase u) (v.idle i);
    })
  ]

  -- After the search a user of this VM is not in the queue.
  pub leave_queue-out :
      (u : ℕ) (t : Turns)
      → home u ≡ true
      → Inv home t
      → ((leave_queue u t).waiting u ≡ false) × (mem u (leave_queue u t).queue ≡ false)
  unfolding leave_queue
  leave_queue-out u t h v = ground (arith, v.queued u, v.waits u, mem-erase u u t.queue v.distinct)

  -- A user enters who is neither in the queue nor the holder of the turn.
  enter-Inv :
      (e : Env) (u : ℕ) (jack : Bool) (t : Turns)
      → t.waiting u ≡ false
      → mem u t.queue ≡ false
      → is t.current u ≡ false
      → Inv home t
      → Inv home (enter e u jack t)
  unfolding enter mem
  enter-Inv e u jack t w m c v = elim (Option-cases t.current) [
    | inl h ↦
        rw (h, enter)
          (record {
            queued = v.queued;
            waits = v.waits;
            distinct = v.distinct;
            holder = λ x i. ground arith;
            idle = λ i. cc;
          })
    | inr (k, h) ↦ elim (Bool-cases jack) [
      | inl j ↦
          rw (h, j, enter)
            (record {
              queued = λ x i. ground (arith, v.queued x);
              waits = λ x y i. ground (arith, v.waits x);
              distinct = (ground (arith, h, v.queued k, v.holder k), v.distinct);
              holder = λ x i. ground arith;
              idle = λ i. cc;
            })
      | inr j ↦
          rw (h, j, enter)
            (record {
              queued = λ x i. ground (arith, v.queued x, mem-append x t.queue (u ∷ []));
              waits = λ x y i. ground (arith, v.waits x, mem-append x t.queue (u ∷ []));
              distinct = Distinct-concat u t.queue v.distinct m;
              holder = λ x i. ground (arith, v.holder x, h);
              idle = λ i. cc;
            })
    ]
  ]

  advance-Inv : (e : Env) (t : Turns) → Inv home t → Inv home (advance e t.queue t)
  unfolding advance mem
  advance-Inv e t v = go t.queue refl
    where
      go : (q : List ℕ) → t.queue ≡ q → Inv home (advance e q t)
      go [] h = record {
        queued = v.queued;
        waits = v.waits;
        distinct = v.distinct;
        holder = λ x i. cc;
        idle = λ _. h;
      }
      go (c ∷ q) h =
          let d = subst Distinct h v.distinct in
          record {
            queued = λ x i. ground (arith, v.queued x, h);
            waits = λ x y i. ground (arith, v.waits x y, h);
            distinct = d.1;
            holder = λ x i. ground arith;
            idle = λ i. cc;
          }

  -- A turn request, with or without turn-jacking, by a user of this VM keeps the invariant.
  pub turn_request-Inv :
      (e : Env) (u : ℕ) (jack staff : Bool) (t : Turns)
      → home u ≡ true
      → Inv home t
      → Inv home (turn_request e u jack staff t).0
  unfolding turn_request
  turn_request-Inv e u jack staff t h v = elim (Bool-cases (refused e u jack staff t)) [
    | inl r ↦ rw r v
    | inr r ↦ rw r (
        broadcast-Inv e (enter e u jack (leave_queue u t))
          (remaining e (enter e u jack (leave_queue u t)).timer)
          (enter-Inv e u jack (leave_queue u t) (leave_queue-out u t h v).0
            (leave_queue-out u t h v).1 (ground (arith, current-leave_queue u t))
            (leave_queue-Inv u t v)))
  ]

  -- The end of a turn by the timer keeps the invariant.
  pub next_turn-Inv : (e : Env) (t : Turns) → Inv home t → Inv home (next_turn e t).0
  unfolding next_turn
  next_turn-Inv e t v =
      broadcast-Inv e (advance e t.queue t) (announced e (advance e t.queue t)) (advance-Inv e t v)

  clear_flags_lem : (q : List ℕ) (f : ℕ → Bool) (u : ℕ) → clear_flags q f u ≡ (f u && not (mem u q))
  unfolding clear_flags mem
  clear_flags_lem [] f u = ground arith
  clear_flags_lem (w ∷ q) f u = ground (arith, clear_flags_lem q (update f w false) u)

  -- Clearing the queue keeps the invariant.
  pub clear_turn_queue-Inv : (e : Env) (t : Turns) → Inv home t → Inv home (clear_turn_queue e t).0
  unfolding clear_turn_queue mem
  clear_turn_queue-Inv e t v = broadcast-Inv e _ 0 (record {
    queued = λ u m. cc;
    waits = λ u m w. ground (arith, clear_flags_lem t.queue t.waiting u, v.waits u);
    distinct = tt;
    holder = λ u i. cc;
    idle = λ _. refl;
  })

  give_up-Inv : (e : Env) (u : ℕ) (t : Turns) → Inv home t → Inv home (give_up e u t)
  unfolding give_up
  give_up-Inv e u t v = elim (Bool-cases (is t.current u)) [
    | inl h ↦ rw h (
        advance-Inv e (record t { timer = cancel t.timer })
          (record {
            queued = v.queued;
            waits = v.waits;
            distinct = v.distinct;
            holder = v.holder;
            idle = v.idle;
          }))
    | inr h ↦ rw h v
  ]

  -- A user that leaves the queue or ends their turn keeps the invariant, a user of another VM too.
  pub end_turn-Inv : (e : Env) (u : ℕ) (t : Turns) → Inv home t → Inv home (end_turn e u t).0
  unfolding end_turn
  end_turn-Inv e u t v =
      let t' = give_up e u (leave_queue u t) in
      let w : Inv home t' = give_up-Inv e u (leave_queue u t) (leave_queue-Inv u t v) in
      elim (Bool-cases ((t.waiting u && mem u t.queue) || is (leave_queue u t).current u)) [
        | inl h ↦ rw h (broadcast-Inv e t' (announced e t') w)
        | inr h ↦ rw h w
      ]
