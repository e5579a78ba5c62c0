-- ===== src/Agent/Ends.antt =====
-- What the end of a read or a write of the client of src/Sockets/AgentClient.cpp keeps.
use collab_vm_server.Prelude.{
  ℕ, ◌+◌, ◌≤◌, ◌≡◌, refl, ap, inl, inr, Bool, true, false, Option, none, some, [], Bytes, length,
  arith, ◌==◌, if◌then◌else◌, Bool-cases, get_elem?, is,
}
use collab_vm_server.Agent.State.{
  not_uploading, upload_file, create_file, exec_file, UploadState, Handler, AgentClient,
}
use collab_vm_server.Agent.Client.{handle}
use collab_vm_server.Agent.Steps.{settle, remove_at, arrive, end_one}
use collab_vm_server.Agent.Turns.{is_part, sends_file}
use collab_vm_server.Agent.HandlerTurns.{lost_call}
use collab_vm_server.Agent.FileTurns.{handle-Turn}
use collab_vm_server.Agent.Inv.{due, part_in, due-remove, Inv, settle-Inv}
use collab_vm_server.Agent.Kept.{Kept, live}

-- The client in which a handler is called.
abbrev pub when_ended : ℕ → Bytes → Handler → AgentClient → AgentClient
when_ended n s h c = record c { pending = remove_at n c.pending; read_buf = arrive h s c.read_buf }

is-this : (o : Option ℕ) (k : ℕ) → is o k ≡ true → o ≡ some k
is-this none k e = absurd (ground arith)
is-this (some j) k e = ap some (ground arith)

is-other : (o : Option ℕ) (k j : ℕ) → is o k ≡ false → o ≡ some j → (k == j) ≡ false
is-other none k j f g = absurd (ground arith)
is-other (some i) k j f g = ground arith

sends : (u : UploadState) → 1 ≤ sends_file u → u ≡ upload_file
sends not_uploading h = absurd (omega arith)
sends create_file h = absurd (omega arith)
sends upload_file h = refl
sends exec_file h = absurd (omega arith)

module _ (c : AgentClient) (v : Inv c) where
  -- A read or a write has ended in a context that was stopped.
  stale-Kept :
      (n : ℕ) (s : Bytes) (k : ℕ) (h : Handler)
      → get_elem? c.pending n ≡ some (k, h)
      → is c.context k ≡ false
      → Kept c 0 0 (when_ended n s h c, [])
  stale-Kept n s k h e f = record {
    inv = record {
      tied = v.tied;
      informed = v.informed;
      sending = λ j g.
          let other : (k == j) ≡ false = is-other c.context k j f g in
          ground (arith, due-remove j n c.pending (k, h) e, v.sending j g);
      unused = λ j g. omega (arith, due-remove j n c.pending (k, h) e, v.unused j g);
      used = v.used;
    };
    balance = omega arith;
  }

  fresh-Kept :
      (n : ℕ) (ec : Bool) (s : Bytes) (file : Option Bytes) (k : ℕ) (h : Handler)
      → get_elem? c.pending n ≡ some (k, h)
      → c.context ≡ some k
      → Kept c
          (lost_call h ec (length s) (when_ended n s h c))
          0
          (settle k (handle h file ec (length s) (when_ended n s h c)))
  unfolding settle
  fresh-Kept n ec s file k h e g =
      let c' = when_ended n s h c in
      let l = live v g in
      let here : part_in k (k, h) ≡ is_part h = ground arith in
      let d : due k c'.pending + is_part h ≡ sends_file c.upload_state =
        omega (arith, here, due-remove k n c.pending (k, h) e, v.sending k g) in
      let t =
        handle-Turn c' (record { tied = l.tied; held = l.held; informed = l.informed }) h file ec
          (length s) (λ p. sends c.upload_state (omega (arith, d, p))) in
      record {
        inv =
            settle-Inv c' k _ _ _ _ t g d
              (λ j q. omega (arith, due-remove j n c.pending (k, h) e, v.unused j q)) (v.used k g);
        balance = t.balance;
      }

  pub ended-Kept :
      (n : ℕ) (ec : Bool) (s : Bytes) (file : Option Bytes) (k : ℕ) (h : Handler)
      → get_elem? c.pending n ≡ some (k, h)
      → Kept c
          (if is c.context k then lost_call h ec (length s) (when_ended n s h c) else 0)
          0
          (end_one n ec s file (k, h) c)
  unfolding end_one
  ended-Kept n ec s file k h e = elim (Bool-cases (is c.context k)) [
    | inl t ↦ rw t (fresh-Kept n ec s file k h e (is-this c.context k t))
    | inr f ↦ rw f (stale-Kept n s k h e f)
  ]
