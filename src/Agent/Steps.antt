-- ===== src/Agent/Steps.antt =====
-- The events that call the functions of `AgentClient` of src/Sockets/AgentClient.cpp. A read or a
-- write that has ended calls its handler, which does nothing in a context that was stopped.
use collab_vm_server.Prelude.{
  ℕ, zero, suc, Bool, true, false, Option, none, some, List, [], ◌∷◌, ◌++◌, Bytes, length, drop,
  get_elem?, is, if◌then◌else◌,
}
use collab_vm_server.Agent.State.{
  Handler, for_upload_req, for_header, for_body, Effect, reads, writes, heartbeat_times_out,
  AgentClient, Result, is_connecting, disconnect_socket, connect, disconnect,
}
use collab_vm_server.Agent.Client.{on_connect, upload, handle}

-- `Connect`, `Disconnect` and `UploadFile` are called; the socket has connected, or failed to; the
-- timer of the heartbeat has expired; the read or write at this place among those that are pending
-- has ended, with its error and its bytes, while the file at `agent_path_` holds what is given.
pub data Event : Type 0 where
  calls_connect calls_disconnect socket_connects socket_fails timer_expires : Event
  calls_upload : ℕ → Event
  ends : ℕ → Bool → Bytes → Option Bytes → Event

-- The reads and writes that were started, with their context.
unfoldable pub issue : ℕ → List Effect → List (ℕ × Handler)
issue k [] = []
issue k (reads n h ∷ es) = (k, h) ∷ issue k es
issue k (writes s h ∷ es) = (k, h) ∷ issue k es
issue k (e ∷ es) = issue k es

unfoldable pub settle : ℕ → Result → Result
unfolding issue
settle k (c, es) = (record c { pending = c.pending ++ issue k es }, es)

unfoldable pub remove_at {ℓ} : {A : Type ℓ} → ℕ → List A → List A
remove_at n [] = []
remove_at zero (x ∷ xs) = xs
remove_at (suc n) (x ∷ xs) = x ∷ remove_at n xs

abbrev pub is_read : Handler → Bool
is_read for_upload_req = true
is_read for_header = true
is_read for_body = true
is_read _ = false

-- The bytes are written over those of the buffer.
abbrev pub arrive : Handler → Bytes → Bytes → Bytes
arrive h s buf = if is_read h then s ++ drop (length s) buf else buf

unfoldable pub end_one : ℕ → Bool → Bytes → Option Bytes → ℕ × Handler → AgentClient → Result
unfolding handle settle remove_at
end_one n ec s file (k, h) c =
    let c' = record c { pending = remove_at n c.pending; read_buf = arrive h s c.read_buf } in
    if is c.context k then settle k (handle h file ec (length s) c') else (c', [])

abbrev pub in_context : (AgentClient → Result) → AgentClient → Result
in_context f c = elim c.context [ none ↦ f c | some k ↦ settle k (f c) ]

unfoldable pub step : Event → AgentClient → Result
unfolding connect disconnect disconnect_socket on_connect upload end_one settle
step calls_connect c = connect c
step calls_disconnect c = disconnect c
step socket_connects c = if is_connecting c.state then in_context on_connect c else (c, [])
step socket_fails c = if is_connecting c.state then disconnect_socket c else (c, [])
step timer_expires c = (c, heartbeat_times_out ∷ [])
step (calls_upload i) c = in_context (upload i) c
step (ends n ec s file) c = elim (get_elem? c.pending n) [
  | none ↦ (c, [])
  | some p ↦ end_one n ec s file p c
]

-- The state after a course of events, and all that was done.
unfoldable pub run : List Event → AgentClient → Result
unfolding step
run [] c = (c, [])
run (x ∷ xs) c = let (c1, es) = step x c in let (c2, fs) = run xs c1 in (c2, es ++ fs)
