-- ===== src/Agent/FileTurns.antt =====
-- What sending a file, `UploadFile`, `OnConnect`, `Connect` and `Disconnect` of
-- src/Sockets/AgentClient.cpp do to the upload that is under way.
use collab_vm_server.Prelude.{
  ℕ, ◌-◌, ◌≡◌, refl, sym, ap, ◌∙◌, inl, inr, Bool, true, false, not, ◌&&◌, ◌||◌, Option, none, some,
  List, [], ◌∷◌, Bytes, ◌^◌, arith, ltb, ◌==◌, length, Bool-cases,
}
use collab_vm_server.Users.Rename.{is_some}
use collab_vm_server.Agent.State.{
  not_uploading, create_file, upload_file, exec_file, UploadFile, Handler, for_upload_req,
  for_header, for_body, for_write, for_agent_upload, for_file_upload, writes, upload_fails,
  upload_finishes, AgentClient, Result, is_uploading, body_size, read_stream, disconnect_socket,
}
use collab_vm_server.Agent.Packets.{with_stream, file_part}
use collab_vm_server.Agent.Client.{
  on_connect, finish_file, next_part, on_write_file_upload, begin_file, file_begin, upload, handle,
  takes_packets,
}
use collab_vm_server.Agent.Turns.{IsLive, Turn, disconnect_socket-Turn, is_part, sends_file}
use collab_vm_server.Agent.HandlerTurns.{
  if-Turn, lost_call, on_read_upload_req-Turn, on_read_header-Turn, on_read_body-Turn,
  on_write-Turn, on_write_agent_upload-Turn,
}

-- What became of the streams does not matter here.
module _ (c : AgentClient) (l : IsLive c) (g : ℕ → UploadFile) where
  module _ (s : c.upload_state ≡ upload_file) where
    more_sent :
        (part : Bytes) → Turn c 1 0 0 (record c { file_of = g }, writes part for_file_upload ∷ [])
    more_sent part = record {
      pending = refl;
      next_context = refl;
      tied = l.tied ∙ sym l.held;
      informed = l.informed;
      kept = λ k. refl;
      flow = λ k. refl;
      balance = ground arith;
    }

    run_asked :
        (p : Bytes)
        → Turn c 1 0 0 (record c { file_of = g; upload_state = exec_file }, writes p for_write ∷ [])
    run_asked p = record {
      pending = refl;
      next_context = refl;
      tied = l.tied ∙ sym l.held;
      informed = λ h. l.informed (ap is_uploading s);
      kept = λ k. refl;
      flow = λ k. ground (arith, ap sends_file s);
      balance = ground (arith, l.tied);
    }

    reported :
        (p : Bytes) (i : Option ℕ)
        → Turn c 1 0 0 (
          record c { file_of = g; upload_state = not_uploading },
          writes p for_write ∷ upload_finishes i ∷ [],
        )
    reported p i = record {
      pending = refl;
      next_context = refl;
      tied = l.tied ∙ sym l.held;
      informed = λ h. ground arith;
      kept = λ k. refl;
      flow = λ k. ground (arith, ap sends_file s);
      balance = ground (arith, l.tied);
    }

  refused : (i : Option ℕ) → Turn c 0 0 1 (record c { file_of = g }, upload_fails i ∷ [])
  refused i = record {
    pending = refl;
    next_context = refl;
    tied = l.tied ∙ sym l.held;
    informed = l.informed;
    kept = λ k. refl;
    flow = λ k. refl;
    balance = ground arith;
  }

  begun :
      (p : Bytes) (i : ℕ)
      → is_uploading c.upload_state ≡ false
      → Turn c 0 0 1 (
        record c { file_of = g; upload_state = create_file; upload_info = some i },
        writes p for_write ∷ [],
      )
  begun p i s = record {
    pending = refl;
    next_context = refl;
    tied = l.tied ∙ sym l.held;
    informed = λ h. refl;
    kept = λ k. refl;
    flow = λ k. ground arith;
    balance = ground (arith, l.tied);
  }

module _ (c : AgentClient) (l : IsLive c) where
  module _ (s : c.upload_state ≡ upload_file) (i : ℕ) where
    finish_file-Turn :
        (g : ℕ → UploadFile) → Turn c 1 0 0 (finish_file i (record c { file_of = g }))
    unfolding finish_file
    finish_file-Turn g = elim (Bool-cases (g i).run_file) [
      | inl e ↦ rw e (run_asked c l _ s _)
      | inr e ↦ rw e (reported c l _ s _ (some i))
    ]

    next_part-Turn : Turn c 1 0 0 (next_part i c)
    unfolding next_part
    next_part-Turn =
        let old = (c.file_of i).file_stream in
        let r = read_stream body_size old in
        elim (Bool-cases (not old.good)) [
          | inl e ↦ rw e (finish_file-Turn c.file_of)
          | inr e ↦ rw e (elim (Bool-cases (length r.0 == 0)) [
            | inl n ↦ rw n (finish_file-Turn (with_stream i r.1 c).file_of)
            | inr n ↦ rw n (more_sent c l _ s (file_part r.0))
          ])
        ]

  pub on_write_file_upload-Turn :
      (ec : Bool) → c.upload_state ≡ upload_file → Turn c 1 0 0 (on_write_file_upload ec c)
  unfolding on_write_file_upload
  on_write_file_upload-Turn ec s =
      let sent : (o : Option ℕ)
          → is_some o ≡ true
          → Turn c 1 0 0 (elim o as (λ x. Result) [ none ↦ (c, []) | some i ↦ next_part i c ]) =
        λ o h.
          elim o
              as (λ x.
                is_some x ≡ true
                → Turn c 1 0 0
                    (elim x as (λ y. Result) [ none ↦ (c, []) | some i ↦ next_part i c ])) [
                      | none ↦ λ p. absurd (ground arith)
                      | some i ↦ λ p. next_part-Turn s i
                    ]
            h in
      if-Turn c 1 0 0 ec (disconnect_socket c) _ (λ e. disconnect_socket-Turn c 1 l)
        (λ e. sent c.upload_info (l.informed (ap is_uploading s)))

  begin_file-Turn :
      (i n : ℕ) (g : ℕ → UploadFile)
      → is_uploading c.upload_state ≡ false
      → (name : Option (List ℕ)) → Turn c 0 0 1 (begin_file i n name (record c { file_of = g }))
  unfolding begin_file
  begin_file-Turn i n g s none = refused c l g c.upload_info
  begin_file-Turn i n g s (some name) = begun c l g (file_begin name n) i s

  pub on_connect-Turn : Turn c 0 0 0 (on_connect c)
  unfolding on_connect
  on_connect-Turn = record {
    pending = refl;
    next_context = refl;
    tied = sym l.held;
    informed = l.informed;
    kept = λ k. refl;
    flow = λ k. ground arith;
    balance = ground (arith, l.tied);
  }

  pub upload-Turn : (i : ℕ) → Turn c 0 0 1 (upload i c)
  unfolding upload
  upload-Turn i =
      let file = c.file_of i in
      let size = length file.file_stream.content in
      elim (Bool-cases
        (is_uploading c.upload_state || not (takes_packets c.state) || not file.file_stream.good)) [
          | inl e ↦ rw e (refused c l c.file_of c.upload_info)
          | inr e ↦ rw e (
              if-Turn c 0 0 1 (file.file_stream.is_open && ltb 0 size && ltb size (2 ^ 32 - 1)) _ _
                (λ t. begin_file-Turn i size _ (ground arith) _) (λ t. refused c l _ c.upload_info))
        ]

  -- The call of a handler. The parts of a file are sent while a file is.
  pub handle-Turn :
      (h : Handler) (file : Option Bytes) (ec : Bool) (size : ℕ)
      → (is_part h ≡ 1 → c.upload_state ≡ upload_file)
      → Turn c (is_part h) (lost_call h ec size c) 0 (handle h file ec size c)
  unfolding handle
  handle-Turn for_upload_req file ec size s = on_read_upload_req-Turn c l file ec size
  handle-Turn for_header file ec size s = on_read_header-Turn c l ec size
  handle-Turn for_body file ec size s = on_read_body-Turn c l ec size
  handle-Turn for_write file ec size s = on_write-Turn c l ec
  handle-Turn for_agent_upload file ec size s = on_write_agent_upload-Turn c l ec size
  handle-Turn for_file_upload file ec size s = on_write_file_upload-Turn ec (s refl)
