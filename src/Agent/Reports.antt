-- ===== src/Agent/Reports.antt =====
-- How often the client of src/Sockets/AgentClient.cpp reports on the uploads it was asked for.
use collab_vm_server.Prelude.{
  ℕ, ◌+◌, ◌≡◌, refl, sym, ap, ◌∙◌, inl, inr, ◌&&◌, none, some, List, [], ◌∷◌, length, arith,
  if◌then◌else◌, Option-cases, get_elem?, is,
}
use collab_vm_server.Users.Rename.{is_some}
use collab_vm_server.Agent.State.{
  is_connected, is_connecting, is_uploading, AgentClient, ConnectionState, disconnect_socket,
  not_connected,
}
use collab_vm_server.Agent.Steps.{
  Event, calls_connect, calls_disconnect, socket_connects, socket_fails, timer_expires,
  calls_upload, ends, step, run,
}
use collab_vm_server.Agent.Turns.{under_way, reports, reports-append}
use collab_vm_server.Agent.HandlerTurns.{lost_call}
use collab_vm_server.Agent.Inv.{due, Inv}
use collab_vm_server.Agent.Kept.{
  Kept, unchanged, connect-Kept, disconnects-Kept, if-Kept, disconnect-Kept, connects-Kept,
  upload-Kept,
}
use collab_vm_server.Agent.Ends.{when_ended, ended-Kept}

-- An upload is asked for.
abbrev pub asked_by : Event → ℕ
asked_by (calls_upload i) = 1
asked_by _ = 0

abbrev pub asked : List Event → ℕ
asked [] = 0
asked (x ∷ xs) = asked_by x + asked xs

-- An upload ends with no report: the packet on the end of its program has not four bytes.
abbrev pub lost_by : Event → AgentClient → ℕ
lost_by (ends n ec s file) c = elim (get_elem? c.pending n) [
  | none ↦ 0
  | some (k, h) ↦ if is c.context k then lost_call h ec (length s) (when_ended n s h c) else 0
]
lost_by _ c = 0

abbrev pub lost : List Event → AgentClient → ℕ
lost [] c = 0
lost (x ∷ xs) c = lost_by x c + lost xs (step x c).0

call-Kept : (c : AgentClient) (v : Inv c) (x : Event) → Kept c (lost_by x c) (asked_by x) (step x c)
unfolding step
call-Kept c v calls_connect = connect-Kept c v
call-Kept c v calls_disconnect = disconnect-Kept c v
call-Kept c v socket_connects = connects-Kept c v
call-Kept c v socket_fails =
    if-Kept c v (is_connecting c.state) (disconnect_socket c) (disconnects-Kept c v)
call-Kept c v timer_expires = unchanged c v _ refl
call-Kept c v (calls_upload i) = upload-Kept c v i
call-Kept c v (ends n ec s file) = elim (Option-cases (get_elem? c.pending n)) [
  | inl e ↦ rw (e, step, lost_by) (unchanged c v [] refl)
  | inr ((k, h), e) ↦ rw (e, step, lost_by) (ended-Kept c v n ec s file k h e)
]

run-Kept : (xs : List Event) (c : AgentClient) → Inv c → Kept c (lost xs c) (asked xs) (run xs c)
unfolding run
run-Kept [] c v = unchanged c v [] refl
run-Kept (x ∷ xs) c v =
    let t = call-Kept c v x in
    let u = run-Kept xs (step x c).0 t.inv in
    record {
      inv = u.inv;
      balance =
          omega (arith, t.balance, u.balance, reports-append (step x c).1 (run xs (step x c).0).1);
    }

-- A client that was not used yet. Its `file_upload_state_` and `file_upload_info_` may be anything.
pub record IsNew (c : AgentClient) : Type 0 where
  pub state : c.state ≡ not_connected
  pub context : c.context ≡ none
  pub pending : c.pending ≡ []

pub IsNew-Inv : (c : AgentClient) → IsNew c → Inv c
IsNew-Inv c n = record {
  tied = ap is_connected n.state ∙ sym (ap is_some n.context);
  informed = λ h. absurd (ground (arith, n.state));
  sending = λ k h. absurd (ground (arith, n.context));
  unused = λ k h. ap (due k) n.pending;
  used = λ k h. absurd (ground (arith, n.context));
}

-- After any course of events from a client that was not used yet: it has a socket exactly while it
-- is not disconnected; an upload is known while one is under way on a socket; exactly one write of
-- a part of the file has not ended while a file is sent, and none else, on the socket there is; and
-- none has for a socket that is still to come.
pub run-Inv : (xs : List Event) (c : AgentClient) → IsNew c → Inv (run xs c).0
run-Inv xs c n = (run-Kept xs c (IsNew-Inv c n)).inv

-- After any course of events from a client that was not used yet, the reports that an upload has
-- failed or ended, with one more if an upload is under way, and with the uploads that ended in a
-- packet on the end of their program whose size is not four bytes, are as many as the uploads that
-- were asked for.
pub run-reports :
    (xs : List Event) (c : AgentClient)
    → IsNew c
    → reports (run xs c).1 + under_way (run xs c).0 + lost xs c ≡ asked xs
run-reports xs c n =
    let idle : under_way c ≡ 0 =
      ap (λ (s : ConnectionState). if is_connected s && is_uploading c.upload_state then 1 else 0)
        n.state in
    omega (arith, (run-Kept xs c (IsNew-Inv c n)).balance, idle)
