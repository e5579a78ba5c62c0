-- ===== src/Agent/HandlerTurns.antt =====
-- What the handlers of src/Sockets/AgentClient.cpp do to the upload that is under way.
use collab_vm_server.Prelude.{
  ℕ, ◌-◌, ◌^◌, ◌≡◌, refl, sym, ◌∙◌, inl, inr, Bool, true, false, not, ◌&&◌, ◌||◌, Option, none,
  some, List, [], ◌∷◌, Bytes, arith, ltb, ◌==◌, if◌then◌else◌, length, Bool-cases,
}
use collab_vm_server.Agent.Bytes.{read_uint16, read_uint8, byte_at}
use collab_vm_server.Agent.State.{
  ConnectionState, header, is_connected, Effect, reads, writes, AgentClient, Result, Handler,
  for_header, for_body, for_agent_upload, disconnect_socket, header_size, body_size, buffer_size,
  FileStream, read_stream, close_stream, waits,
}
use collab_vm_server.Agent.Client.{
  serve_agent, on_read_upload_req, on_read_body, on_read_header, on_write, start_packets,
  on_write_agent_upload,
}
use collab_vm_server.Agent.Turns.{IsLive, Turn, disconnect_socket-Turn, reports, parts}
use collab_vm_server.Agent.Outcomes.{lost_packet}
use collab_vm_server.Agent.PacketTurns.{read_packet-Turn}

pub if-Turn :
    (c : AgentClient) (ended lost asked : ℕ) (b : Bool) (x y : Result)
    → (b ≡ true → Turn c ended lost asked x)
    → (b ≡ false → Turn c ended lost asked y)
    → Turn c ended lost asked (if b then x else y)
if-Turn c ended lost asked true x y p q = p refl
if-Turn c ended lost asked false x y p q = q refl

-- The uploads that end with no report in a call of `OnReadBody`, and in one of a handler.
abbrev pub lost_body : Bool → ℕ → AgentClient → ℕ
lost_body ec size c = if ec || not (size == c.packet_size) then 0 else lost_packet c

abbrev pub lost_call : Handler → Bool → ℕ → AgentClient → ℕ
lost_call for_body ec size c = lost_body ec size c
lost_call for_header ec size c =
    let (packet_size, p) = read_uint16 (0, c.read_buf) in
    let c' = record c { packet_size = packet_size; packet_opcode = (read_uint8 p).0 } in
    if ec || not (size == header_size) || ltb body_size packet_size
    then 0
    else if packet_size == 0
    then lost_body false 0 c'
    else 0
lost_call _ ec size c = 0

module _ (c : AgentClient) (l : IsLive c) where
  -- A result that leaves the upload alone.
  calm :
      (f : FileStream) (st : ConnectionState) (n op : ℕ) (es : List Effect)
      → is_connected st ≡ true
      → reports es ≡ 0
      → parts es ≡ 0
      → Turn c 0 0 0
          (record c { upload_stream = f; state = st; packet_size = n; packet_opcode = op }, es)
  calm f st n op es h r p = record {
    pending = refl;
    next_context = refl;
    tied = h ∙ sym l.held;
    informed = l.informed;
    kept = λ k. refl;
    flow = λ k. ground arith;
    balance = ground arith;
  }

  abbrev Calm : FileStream → List Effect → Type 0
  Calm f es = Turn c 0 0 0 (record c { upload_stream = f }, es)

  still : (f : FileStream) (es : List Effect) → reports es ≡ 0 → parts es ≡ 0 → Calm f es
  still f es r p = calm f c.state c.packet_size c.packet_opcode es l.tied r p

  closes : Turn c 0 0 0 (disconnect_socket c)
  closes = disconnect_socket-Turn c 0 l

  serve_agent-Turn : (file : Option Bytes) → Turn c 0 0 0 (serve_agent file c)
  unfolding serve_agent
  serve_agent-Turn none = still _ [] refl refl
  serve_agent-Turn (some s) = elim (Bool-cases (ltb 0 (length s) && ltb (length s) (2 ^ 32 - 1))) [
    | inl e ↦ rw e (still _ (writes _ for_agent_upload ∷ []) refl refl)
    | inr e ↦ rw e (still _ [] refl refl)
  ]

  pub on_read_upload_req-Turn :
      (file : Option Bytes) (ec : Bool) (size : ℕ)
      → Turn c 0 0 0 (on_read_upload_req file ec size c)
  unfolding on_read_upload_req
  on_read_upload_req-Turn file ec size =
      if-Turn c 0 0 0 (ec || size == 0) (disconnect_socket c) _ (λ e. closes)
        (λ e.
          if-Turn c 0 0 0 (byte_at c.read_buf == 0 && not c.upload_stream.is_open)
            (serve_agent file c) (c, []) (λ t. serve_agent-Turn file)
            (λ t. still c.upload_stream [] refl refl))

  pub on_read_body-Turn :
      (ec : Bool) (size : ℕ) → Turn c 0 (lost_body ec size c) 0 (on_read_body ec size c)
  unfolding on_read_body
  on_read_body-Turn ec size = elim (Bool-cases (ec || not (size == c.packet_size))) [
    | inl e ↦ rw e closes
    | inr e ↦ rw e (read_packet-Turn c l)
  ]

  pub on_write-Turn : (ec : Bool) → Turn c 0 0 0 (on_write ec c)
  unfolding on_write
  on_write-Turn ec =
      if-Turn c 0 0 0 ec (disconnect_socket c) (c, []) (λ e. closes)
        (λ e. still c.upload_stream [] refl refl)

  timer :
      (b : Bool) (n : ℕ)
      → (reports (if b then [] else waits n ∷ []) ≡ 0)
        × (parts (if b then [] else waits n ∷ []) ≡ 0)
  timer true n = (refl, refl)
  timer false n = (refl, refl)

  start_packets-Turn :
      (f : FileStream) → Turn c 0 0 0 (start_packets (record c { upload_stream = f }))
  unfolding start_packets
  start_packets-Turn f =
      let t = timer (c.heartbeat_timeout == 0) c.heartbeat_timeout in
      calm (close_stream f) header c.packet_size c.packet_opcode
        (reads header_size for_header
          ∷ (if c.heartbeat_timeout == 0 then [] else waits c.heartbeat_timeout ∷ []))
        refl (ground arith) (ground arith)

  pub on_write_agent_upload-Turn :
      (ec : Bool) (size : ℕ) → Turn c 0 0 0 (on_write_agent_upload ec size c)
  unfolding on_write_agent_upload
  on_write_agent_upload-Turn ec size =
      let r = read_stream buffer_size c.upload_stream in
      if-Turn c 0 0 0 (ec || size == 0) (disconnect_socket c) _ (λ e. closes)
        (λ e.
          if-Turn c 0 0 0 (not c.upload_stream.good) (start_packets c) _
            (λ g. start_packets-Turn c.upload_stream)
            (λ g.
              if-Turn c 0 0 0 (length r.0 == 0) (start_packets (record c { upload_stream = r.1 }))
                (record c { upload_stream = r.1 }, writes r.0 for_agent_upload ∷ [])
                (λ n. start_packets-Turn r.1)
                (λ n. still r.1 (writes r.0 for_agent_upload ∷ []) refl refl)))

module _ (c : AgentClient) (l : IsLive c) where
  -- A packet with no body is read at once.
  read_again :
      (n op : ℕ)
      → let c' = record c { packet_size = n; packet_opcode = op } in
        Turn c 0 (lost_body false 0 c') 0 (on_read_body false 0 c')
  read_again n op =
      let c' = record c { packet_size = n; packet_opcode = op } in
      let t : Turn c' 0 (lost_body false 0 c') 0 (on_read_body false 0 c') =
        on_read_body-Turn c' (record { tied = l.tied; held = l.held; informed = l.informed }) false
          0 in
      record {
        pending = t.pending;
        next_context = t.next_context;
        tied = t.tied;
        informed = t.informed;
        kept = t.kept;
        flow = t.flow;
        balance = t.balance;
      }

  pub on_read_header-Turn :
      (ec : Bool) (size : ℕ)
      → Turn c 0 (lost_call for_header ec size c) 0 (on_read_header ec size c)
  unfolding on_read_header
  on_read_header-Turn ec size =
      let (packet_size, p) = read_uint16 (0, c.read_buf) in
      let opcode = (read_uint8 p).0 in
      let c' = record c { packet_size = packet_size; packet_opcode = opcode } in
      elim (Bool-cases (ec || not (size == header_size) || ltb body_size packet_size)) [
        | inl e ↦ rw e (closes c l)
        | inr e ↦ rw e (elim (Bool-cases (packet_size == 0)) [
          | inl z ↦ rw z (read_again packet_size opcode)
          | inr z ↦ rw z (
              calm c l c.upload_stream c.state packet_size opcode (reads packet_size for_body ∷ [])
                l.tied refl refl)
        ])
      ]
