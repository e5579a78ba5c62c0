-- ===== src/Agent/Kept.antt =====
-- What one call of the client of src/Sockets/AgentClient.cpp keeps, by the functions but those at the
-- end of a read or a write.
use collab_vm_server.Prelude.{
  ℕ, ◌+◌, ◌≤◌, ◌≡◌, refl, ap, subst, ◌∙◌, inl, inr, Bool, true, false, not, ◌||◌, Option, none,
  some, List, [], ◌∷◌, arith, if◌then◌else◌, Bool-cases, Option-cases,
}
use collab_vm_server.Users.Rename.{is_some}
use collab_vm_server.Agent.State.{
  is_connected, is_connecting, is_uploading, not_uploading, Effect, AgentClient, ConnectionState,
  connecting, opens_socket, agent_upload, header, body, Result, disconnect_socket, connect,
  disconnect, not_connected,
}
use collab_vm_server.Agent.Client.{on_connect, upload, takes_packets}
use collab_vm_server.Agent.Steps.{settle, in_context}
use collab_vm_server.Agent.Turns.{IsLive, Turn, disconnect_socket-Turn, under_way, reports, closed}
use collab_vm_server.Agent.FileTurns.{on_connect-Turn, upload-Turn}
use collab_vm_server.Agent.Inv.{due, Inv, settle-Inv}

pub record Kept (c : AgentClient) (lost asked : ℕ) (r : Result) : Type 0 where
  pub inv : Inv r.0
  pub balance : reports r.1 + under_way r.0 + lost ≡ under_way c + asked

pub live : {c : AgentClient} {k : ℕ} → Inv c → c.context ≡ some k → IsLive c
live v e =
    let held = ap is_some e in
    record { tied = v.tied ∙ held; held = held; informed = v.informed (v.tied ∙ held) }

no_packets : (s : ConnectionState) → is_connected s ≡ false → takes_packets s ≡ false
no_packets not_connected e = refl
no_packets connecting e = refl
no_packets agent_upload e = refl
no_packets header e = absurd (ground arith)
no_packets body e = absurd (ground arith)

connecting_is : (s : ConnectionState) → is_connecting s ≡ true → is_connected s ≡ true
connecting_is connecting e = refl
connecting_is not_connected e = absurd (ground arith)
connecting_is agent_upload e = refl
connecting_is header e = refl
connecting_is body e = refl

module _ (c : AgentClient) (v : Inv c) where
  pub unchanged : (es : List Effect) → reports es ≡ 0 → Kept c 0 0 (c, es)
  unchanged es h = record { inv = v; balance = omega (arith, h) }

  settled : (k a : ℕ) (r : Result) → c.context ≡ some k → Turn c 0 0 a r → Kept c 0 a (settle k r)
  unfolding settle
  settled k a r e t = record {
    inv = settle-Inv c k 0 0 a r t e (omega (arith, v.sending k e)) v.unused (v.used k e);
    balance = t.balance;
  }

  closes-Kept : (k : ℕ) → c.context ≡ some k → Kept c 0 0 (disconnect_socket c)
  closes-Kept k e =
      let t = disconnect_socket-Turn c 0 (live v e) in
      record {
        inv = record {
          tied = t.tied;
          informed = λ h. t.informed;
          sending = λ j h. absurd (closed c (ap is_some h));
          unused =
              λ j h. ap (due j) t.pending ∙ v.unused j (subst (λ (n : ℕ). n ≤ j) t.next_context h);
          used = λ j h. absurd (closed c (ap is_some h));
        };
        balance = t.balance;
      }

  by_context :
      (l a : ℕ) (o : Option ℕ) (x : Result) (y : ℕ → Result)
      → (o ≡ none → Kept c l a x)
      → ((k : ℕ) → o ≡ some k → Kept c l a (y k))
      → Kept c l a (elim o [ none ↦ x | some k ↦ y k ])
  by_context l a none x y p q = p refl
  by_context l a (some k) x y p q = q k refl

  started-Kept :
      is_connected c.state ≡ false
      → (o : Option ℕ) → o ≡ none
      → Kept c 0 0 (
        record c {
          state = connecting;
          connect_received = false;
          upload_state = not_uploading;
          context = elim o [ none ↦ some c.next_context | some k ↦ some k ];
          next_context = elim o [ none ↦ c.next_context + 1 | some k ↦ c.next_context ];
        },
        elim o [ none ↦ opens_socket ∷ [] | some k ↦ [] ],
      )
  started-Kept n none e = record {
    inv = record {
      tied = refl;
      informed = λ h p. ground arith;
      sending = λ j h. v.unused j (ground arith);
      unused = λ j h. v.unused j (omega arith);
      used = λ j h. ground arith;
    };
    balance = ground arith;
  }
  started-Kept n (some k) e = absurd (ground arith)

  pub connect-Kept : Kept c 0 0 (connect c)
  unfolding connect
  connect-Kept = elim (Bool-cases (is_connected c.state)) [
    | inl e ↦ rw e (unchanged [] refl)
    | inr e ↦ rw e (elim (Option-cases c.context) [
      | inl n ↦ started-Kept e c.context n
      | inr (k, h) ↦ absurd (ground (arith, v.tied))
    ])
  ]

  -- Without a context nothing happens.
  disconnect_idle : c.context ≡ none → Kept c 0 0 (disconnect_socket c)
  unfolding disconnect_socket
  disconnect_idle n =
      by_context 0 0 c.context (c, []) _ (λ e. unchanged [] refl) (λ k h. absurd (ground arith))

  pub disconnects-Kept : Kept c 0 0 (disconnect_socket c)
  disconnects-Kept = elim (Option-cases c.context) [
    | inl n ↦ disconnect_idle n
    | inr (k, h) ↦ closes-Kept k h
  ]

  under-Kept :
      (f : AgentClient → Result) (a : ℕ)
      → (c.context ≡ none → Kept c 0 a (f c))
      → ((k : ℕ) → c.context ≡ some k → Turn c 0 0 a (f c))
      → Kept c 0 a (in_context f c)
  under-Kept f a p t =
      by_context 0 a c.context (f c) (λ k. settle k (f c)) p (λ k h. settled k a (f c) h (t k h))

  no_context : is_connecting c.state ≡ true → c.context ≡ none → ⊥
  no_context e n =
      let h : is_connected c.state ≡ true = connecting_is c.state e in
      let g : is_some c.context ≡ false = ap is_some n in ground (arith, v.tied)

  -- A call that is made if `b` holds.
  pub if-Kept : (b : Bool) (r : Result) → Kept c 0 0 r → Kept c 0 0 (if b then r else (c, []))
  if-Kept true r t = t
  if-Kept false r t = unchanged [] refl

  pub disconnect-Kept : Kept c 0 0 (disconnect c)
  unfolding disconnect
  disconnect-Kept = if-Kept (is_connected c.state) (disconnect_socket c) disconnects-Kept

  pub connects-Kept :
      Kept c 0 0 (if is_connecting c.state then in_context on_connect c else (c, []))
  connects-Kept = elim (Bool-cases (is_connecting c.state)) [
    | inl e ↦ rw e (
        under-Kept on_connect 0 (λ n. absurd (no_context e n))
          (λ k h. on_connect-Turn c (live v h)))
    | inr e ↦ rw e (unchanged [] refl)
  ]

  refused : (i : ℕ) → takes_packets c.state ≡ false → Kept c 0 1 (upload i c)
  unfolding upload
  refused i e =
      let test : (is_uploading c.upload_state
            || not (takes_packets c.state)
            || not (c.file_of i).file_stream.good)
          ≡ true =
        ground arith in
      rw test (record { inv = v; balance = omega arith })

  upload_idle : (i : ℕ) → c.context ≡ none → Kept c 0 1 (upload i c)
  upload_idle i n =
      let h : is_connected c.state ≡ false = v.tied ∙ ap is_some n in
      refused i (no_packets c.state h)

  pub upload-Kept : (i : ℕ) → Kept c 0 1 (in_context (upload i) c)
  upload-Kept i = under-Kept (upload i) 1 (λ n. upload_idle i n) (λ k h. upload-Turn c (live v h) i)
