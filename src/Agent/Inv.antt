-- ===== src/Agent/Inv.antt =====
-- The consistent states of the client of src/Sockets/AgentClient.cpp.
use collab_vm_server.Prelude.{
  ℕ, zero, suc, ◌+◌, ◌≤◌, ◌<◌, ◌≡◌, refl, sym, ap, subst, ◌∙◌, true, false, some, List, [], ◌∷◌,
  ◌++◌, arith, ◌==◌, if◌then◌else◌, get_elem?,
}
use collab_vm_server.Users.Rename.{is_some}
use collab_vm_server.Agent.State.{
  is_connected, is_uploading, Handler, Effect, reads, writes, opens_socket, closes_socket, waits,
  agent_connects, agent_disconnects, heartbeat_times_out, upload_starts, upload_fails,
  upload_finishes, exec_finishes, AgentClient, Result,
}
use collab_vm_server.Agent.Steps.{issue, settle, remove_at}
use collab_vm_server.Agent.Turns.{Turn, is_part, parts, sends_file}

-- The writes of parts that have not ended, among those of a context.
abbrev pub part_in : ℕ → ℕ × Handler → ℕ
part_in k (j, h) = if j == k then is_part h else 0

abbrev pub due : ℕ → List (ℕ × Handler) → ℕ
due k [] = 0
due k (p ∷ ps) = part_in k p + due k ps

due-append : (k : ℕ) (ps qs : List (ℕ × Handler)) → due k (ps ++ qs) ≡ due k ps + due k qs
due-append k [] qs = omega arith
due-append k (p ∷ ps) qs = omega (arith, due-append k ps qs)

due-issue : (k : ℕ) (es : List Effect) → due k (issue k es) ≡ parts es
unfolding issue
due-issue k [] = refl
due-issue k (reads n h ∷ es) = ground (arith, due-issue k es)
due-issue k (writes s h ∷ es) = ground (arith, due-issue k es)
due-issue k (opens_socket ∷ es) = omega (arith, due-issue k es)
due-issue k (closes_socket ∷ es) = omega (arith, due-issue k es)
due-issue k (waits n ∷ es) = omega (arith, due-issue k es)
due-issue k (agent_connects a b d e n ∷ es) = omega (arith, due-issue k es)
due-issue k (agent_disconnects b ∷ es) = omega (arith, due-issue k es)
due-issue k (heartbeat_times_out ∷ es) = omega (arith, due-issue k es)
due-issue k (upload_starts i s ∷ es) = omega (arith, due-issue k es)
due-issue k (upload_fails i ∷ es) = omega (arith, due-issue k es)
due-issue k (upload_finishes i ∷ es) = omega (arith, due-issue k es)
due-issue k (exec_finishes i b ∷ es) = omega (arith, due-issue k es)

due-issue_other : (k j : ℕ) (es : List Effect) → (j == k) ≡ false → due k (issue j es) ≡ 0
unfolding issue
due-issue_other k j [] n = refl
due-issue_other k j (reads m h ∷ es) n = ground (arith, due-issue_other k j es n)
due-issue_other k j (writes s h ∷ es) n = ground (arith, due-issue_other k j es n)
due-issue_other k j (opens_socket ∷ es) n = due-issue_other k j es n
due-issue_other k j (closes_socket ∷ es) n = due-issue_other k j es n
due-issue_other k j (waits m ∷ es) n = due-issue_other k j es n
due-issue_other k j (agent_connects a b d e m ∷ es) n = due-issue_other k j es n
due-issue_other k j (agent_disconnects b ∷ es) n = due-issue_other k j es n
due-issue_other k j (heartbeat_times_out ∷ es) n = due-issue_other k j es n
due-issue_other k j (upload_starts i s ∷ es) n = due-issue_other k j es n
due-issue_other k j (upload_fails i ∷ es) n = due-issue_other k j es n
due-issue_other k j (upload_finishes i ∷ es) n = due-issue_other k j es n
due-issue_other k j (exec_finishes i b ∷ es) n = due-issue_other k j es n

pub due-remove :
    (k n : ℕ) (ps : List (ℕ × Handler)) (p : ℕ × Handler)
    → get_elem? ps n ≡ some p
    → part_in k p + due k (remove_at n ps) ≡ due k ps
unfolding remove_at
due-remove k n [] p e = absurd (ground arith)
due-remove k zero (q ∷ ps) p e = ground arith
due-remove k (suc n) (q ∷ ps) p e = omega (arith, due-remove k n ps p e)

-- A part of the file is being written exactly while a file is sent, and a context is not used
-- again.
pub record Inv (c : AgentClient) : Type 0 where
  pub tied : is_connected c.state ≡ is_some c.context
  pub informed :
      is_connected c.state ≡ true
      → is_uploading c.upload_state ≡ true
      → is_some c.upload_info ≡ true
  pub sending : (k : ℕ) → c.context ≡ some k → due k c.pending ≡ sends_file c.upload_state
  pub unused : (k : ℕ) → c.next_context ≤ k → due k c.pending ≡ 0
  pub used : (k : ℕ) → c.context ≡ some k → k < c.next_context

-- What a call in the context `k` gives, when the writes of parts that were due have ended.
module _ (c : AgentClient) (k ended lost asked : ℕ) (r : Result)
    (t : Turn c ended lost asked r) where
  same : c.context ≡ some k → (j : ℕ) → r.0.context ≡ some j → j ≡ k
  same e j h =
      let kept : r.0.context ≡ c.context = t.kept (ap is_some h) in
      let both : some j ≡ some k = sym h ∙ (kept ∙ e) in ground arith

  due_after : (j : ℕ) → due j (settle k r).0.pending ≡ due j c.pending + due j (issue k r.1)
  unfolding settle
  due_after j =
      due-append j r.0.pending (issue k r.1)
      ∙ ap (λ (ps : List (ℕ × Handler)). due j ps + due j (issue k r.1)) t.pending

  sending_after :
      c.context ≡ some k
      → due k c.pending + ended ≡ sends_file c.upload_state
      → r.0.context ≡ some k
      → due k (settle k r).0.pending ≡ sends_file r.0.upload_state
  sending_after e d h = omega (arith, d, due_after k, due-issue k r.1, t.flow (ap is_some h))

  pub settle-Inv :
      c.context ≡ some k
      → due k c.pending + ended ≡ sends_file c.upload_state
      → ((j : ℕ) → c.next_context ≤ j → due j c.pending ≡ 0)
      → k < c.next_context
      → Inv (settle k r).0
  unfolding settle
  settle-Inv e d f u = record {
    tied = t.tied;
    informed = λ h. t.informed;
    sending = λ j h.
        let e2 : j ≡ k = same e j h in
        subst (λ (n : ℕ). due n (settle k r).0.pending ≡ sends_file r.0.upload_state) (sym e2)
          (sending_after e d (h ∙ ap some e2));
    unused = λ j h.
        let le : c.next_context ≤ j = subst (λ (n : ℕ). n ≤ j) t.next_context h in
        let other : (k == j) ≡ false = ground arith in
        omega (arith, due_after j, f j le, due-issue_other j k r.1 other);
    used = λ j h. let e2 : j ≡ k = same e j h in omega (arith, e2, t.next_context);
  }
