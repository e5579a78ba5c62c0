-- ===== src/Agent/Outcomes.antt =====
-- What the outcome of a packet, of src/Sockets/AgentClient.cpp, is to the upload under way.
use collab_vm_server.Prelude.{
  ℕ, ◌≡◌, refl, sym, subst, Bool, true, false, not, ◌&&◌, List, [], ◌∷◌, arith, ◌==◌, if◌then◌else◌,
}
use collab_vm_server.Agent.State.{
  UploadState, exec_file, Effect, reads, AgentClient, Result, for_header, header_size,
}
use collab_vm_server.Agent.Packets.{shell_exec_result, Outcome, goes_on, drops, finish}
use collab_vm_server.Agent.Turns.{IsLive, Turn, Dropped, Turn-append, Dropped-Turn, reports, parts}

-- An upload that ends with no report: the agent's result of its execution is not four bytes long.
abbrev pub is_exec : UploadState → Bool
is_exec exec_file = true
is_exec _ = false

abbrev pub lost_packet : AgentClient → ℕ
lost_packet c =
    if c.connect_received
      && is_exec c.upload_state
      && c.packet_opcode == shell_exec_result
      && not (c.packet_size == 4)
    then 1
    else 0

pub data OutcomeTurn (c : AgentClient) (lost : ℕ) : Outcome → Type 0 where
  going : {r : Result} → Turn c 0 lost 0 r → OutcomeTurn c lost (goes_on r)
  dropping : {d : AgentClient} → Dropped c lost d → OutcomeTurn c lost (drops d)

-- Both branches, each with its test.
pub if-OutcomeTurn :
    (c : AgentClient) (lost : ℕ) (b : Bool) (x y : Outcome)
    → (b ≡ true → OutcomeTurn c lost x)
    → (b ≡ false → OutcomeTurn c lost y)
    → OutcomeTurn c lost (if b then x else y)
if-OutcomeTurn c lost true x y p q = p refl
if-OutcomeTurn c lost false x y p q = q refl

pub finish-Turn :
    (c : AgentClient) (lost : ℕ) (o : Outcome) → OutcomeTurn c lost o → Turn c 0 lost 0 (finish o)
unfolding finish
finish-Turn c lost (goes_on (d, es)) (going t) =
    Turn-append (reads header_size for_header ∷ []) t refl refl
finish-Turn c lost (drops d) (dropping t) = Dropped-Turn 0 t

module _ (c : AgentClient) (l : IsLive c) where
  pub same-Turn :
      (es : List Effect) → reports es ≡ 0 → parts es ≡ 0 → OutcomeTurn c 0 (goes_on (c, es))
  same-Turn es r p = going (record {
    pending = refl;
    next_context = refl;
    tied = ground arith;
    informed = l.informed;
    kept = λ h. refl;
    flow = λ h. ground arith;
    balance = ground arith;
  })

  pub dropped : OutcomeTurn c 0 (drops c)
  dropped =
      dropping (record { pending = refl; next_context = refl; live = l; balance = ground arith })

  pub none_lost :
      (o : Outcome) → lost_packet c ≡ 0 → OutcomeTurn c 0 o → OutcomeTurn c (lost_packet c) o
  none_lost o e t = subst (λ (n : ℕ). OutcomeTurn c n o) (sym e) t

  -- A packet that is not for the upload.
  pub other-Turn :
      (b : Bool)
      → lost_packet c ≡ 0
      → OutcomeTurn c (lost_packet c) (if b then goes_on (c, []) else drops c)
  other-Turn true e = none_lost (goes_on (c, [])) e (same-Turn [] refl refl)
  other-Turn false e = none_lost (drops c) e dropped
