-- ===== src/Agent/Turns.antt =====
-- What one call of the functions of src/Sockets/AgentClient.cpp does to the upload that is under
-- way, its reports, and the writes of its parts.
use collab_vm_server.Prelude.{
  ℕ, ◌+◌, ◌≡◌, ◌∙◌, true, ◌&&◌, List, [], ◌∷◌, ◌++◌, arith, if◌then◌else◌,
}
use collab_vm_server.Users.Rename.{is_some}
use collab_vm_server.Agent.State.{
  UploadState, upload_file, Handler, for_file_upload, Effect, reads, writes, upload_fails,
  upload_finishes, exec_finishes, AgentClient, Result, is_connected, is_uploading,
  disconnect_socket,
}

-- The reports on the end of an upload, and the writes of parts.
abbrev pub is_report : Effect → ℕ
is_report (upload_fails i) = 1
is_report (upload_finishes i) = 1
is_report (exec_finishes i b) = 1
is_report _ = 0

abbrev pub reports : List Effect → ℕ
reports [] = 0
reports (e ∷ es) = is_report e + reports es

abbrev pub is_part : Handler → ℕ
is_part for_file_upload = 1
is_part _ = 0

abbrev pub part_of : Effect → ℕ
part_of (writes s h) = is_part h
part_of (reads n h) = is_part h
part_of _ = 0

abbrev pub parts : List Effect → ℕ
parts [] = 0
parts (e ∷ es) = part_of e + parts es

abbrev pub sends_file : UploadState → ℕ
sends_file upload_file = 1
sends_file _ = 0

abbrev pub under_way : AgentClient → ℕ
under_way c = if is_connected c.state && is_uploading c.upload_state then 1 else 0

-- A result on `c`: `ended` writes of parts have ended, `lost` uploads end with no report, and
-- `asked` more were asked for.
pub record Turn (c : AgentClient) (ended lost asked : ℕ) (r : Result) : Type 0 where
  pub pending : r.0.pending ≡ c.pending
  pub next_context : r.0.next_context ≡ c.next_context
  pub tied : is_connected r.0.state ≡ is_some r.0.context
  pub informed : is_uploading r.0.upload_state ≡ true → is_some r.0.upload_info ≡ true
  pub kept : is_some r.0.context ≡ true → r.0.context ≡ c.context
  pub flow :
      is_some r.0.context ≡ true
      → parts r.1 + sends_file c.upload_state ≡ ended + sends_file r.0.upload_state
  pub balance : reports r.1 + under_way r.0 + lost ≡ under_way c + asked

-- What is known of the client in a call.
pub record IsLive (c : AgentClient) : Type 0 where
  pub tied : is_connected c.state ≡ true
  pub held : is_some c.context ≡ true
  pub informed : is_uploading c.upload_state ≡ true → is_some c.upload_info ≡ true

pub disconnect_socket-Turn :
    (c : AgentClient) (ended : ℕ) → IsLive c → Turn c ended 0 0 (disconnect_socket c)
unfolding disconnect_socket
disconnect_socket-Turn c ended l = record {
  pending = ground arith;
  next_context = ground arith;
  tied = ground arith;
  informed = ground arith;
  kept = λ h. ground arith;
  flow = λ h. ground arith;
  balance = ground arith;
}

pub closed : (d : AgentClient) → is_some (disconnect_socket d).0.context ≡ true → ⊥
unfolding disconnect_socket
closed d h = ground arith

pub reports-append : (es fs : List Effect) → reports (es ++ fs) ≡ reports es + reports fs
reports-append [] fs = omega arith
reports-append (e ∷ es) fs = omega (arith, reports-append es fs)

parts-append : (es fs : List Effect) → parts (es ++ fs) ≡ parts es + parts fs
parts-append [] fs = omega arith
parts-append (e ∷ es) fs = omega (arith, parts-append es fs)

-- More effects that are no reports and no parts.
pub Turn-append :
    {c d : AgentClient} {ended lost asked : ℕ} {es : List Effect} (fs : List Effect)
    → Turn c ended lost asked (d, es)
    → reports fs ≡ 0
    → parts fs ≡ 0
    → Turn c ended lost asked (d, es ++ fs)
Turn-append {es = es} fs t h k = record {
  pending = t.pending;
  next_context = t.next_context;
  tied = t.tied;
  informed = t.informed;
  kept = t.kept;
  flow = λ l. omega (arith, t.flow l, parts-append es fs);
  balance = omega (arith, t.balance, reports-append es fs);
}

-- The state in which a packet has the socket closed.
pub record Dropped (c : AgentClient) (lost : ℕ) (d : AgentClient) : Type 0 where
  pub pending : d.pending ≡ c.pending
  pub next_context : d.next_context ≡ c.next_context
  pub live : IsLive d
  pub balance : under_way d + lost ≡ under_way c

pub Dropped-Turn :
    {c d : AgentClient} (ended : ℕ) {lost : ℕ}
    → Dropped c lost d
    → Turn c ended lost 0 (disconnect_socket d)
Dropped-Turn {d = d} ended p =
    let t = disconnect_socket-Turn d ended p.live in
    record {
      pending = t.pending ∙ p.pending;
      next_context = t.next_context ∙ p.next_context;
      tied = t.tied;
      informed = t.informed;
      kept = λ h. absurd (closed d h);
      flow = λ h. absurd (closed d h);
      balance = omega (arith, t.balance, p.balance);
    }
