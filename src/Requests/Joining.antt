-- ===== src/Requests/Joining.antt =====
-- What a user is told of a VM's turns and votes on joining it: `AddUser` of
-- src/VMControllers/VMController.cpp, with `SendTurnInfo` and `SendVoteInfo` of src/CollabVM.cpp.
use collab_vm_server.Prelude.{
  ℕ, ◌+◌, ◌-◌, ◌≡◌, refl, ap, ap₂, inl, inr, false, ◌&&◌, none, some, List, [], ◌∷◌, ◌++◌, Bytes,
  codes, to_string, ltb, if◌then◌else◌, length, Option-cases,
}
use collab_vm_server.Wire.{element, instruction}
use collab_vm_server.Turns.{Env, Turns, Outbox, names, turn_instr, users_list}
use collab_vm_server.Turns.Messages.{turn_fields, turn_instr-instruction}
use collab_vm_server.Votes.{Votes, is_voting, vote_info}
use collab_vm_server.Votes.Messages.{opcode, vote_info-instruction}

unfoldable pub send_turn_info : Env → ℕ → ℕ → ℕ → List ℕ → Outbox
unfolding names
send_turn_info e u time current queue =
    (
      u,
      codes "4.turn,"
          ++ (element (to_string time)
              ++ (b','
                  ∷ (element (to_string (length queue + 1))
                      ++ (b',' ∷ (element (e.name current) ++ (names e queue ++ b';' ∷ [])))))),
    )
    ∷ []

unfoldable pub send_vote_info : ℕ → ℕ → ℕ → ℕ → Outbox
send_vote_info u time yes_votes no_votes =
    (
      u,
      codes "4.vote,1.1,"
          ++ (element (to_string time)
              ++ (b','
                  ∷ (element (to_string yes_votes)
                      ++ (b',' ∷ (element (to_string no_votes) ++ b';' ∷ []))))),
    )
    ∷ []

unfoldable pub join_turns : Env → ℕ → Turns → Outbox
unfolding send_turn_info
join_turns e u t = elim t.current [
  | none ↦ []
  | some c ↦
      if ltb e.now t.timer.deadline
      then send_turn_info e u (t.timer.deadline - e.now) c t.queue
      else []
]

unfoldable pub join_votes : Env → ℕ → Votes → Outbox
unfolding send_vote_info
join_votes e u v =
    if is_voting v.state && ltb e.now v.deadline
    then send_vote_info u (v.deadline - e.now) v.count_yes v.count_no
    else []

-- The turns first, then the votes; each while its timer has not expired.
unfoldable pub add_user : Env → ℕ → Turns → Votes → Outbox
unfolding join_turns join_votes
add_user e u t v = join_turns e u t ++ join_votes e u v

turn_info-instruction :
    (e : Env) (u time c : ℕ) (q : List ℕ)
    → send_turn_info e u time c q ≡ (u, instruction (codes "turn") (turn_fields e q c time)) ∷ []
unfolding send_turn_info turn_instr users_list
turn_info-instruction e u time c q =
    ap (λ (s : Bytes). (u, s) ∷ []) (turn_instr-instruction e q c time)

send_vote_info-instruction :
    (u time y n : ℕ)
    → send_vote_info u time y n
      ≡ (
        u,
        instruction (codes "vote") (opcode false ∷ to_string time ∷ to_string y ∷ to_string n ∷ []),
      )
        ∷ []
unfolding send_vote_info vote_info
send_vote_info-instruction u time y n =
    ap (λ (s : Bytes). (u, s) ∷ []) (vote_info-instruction false time y n)

-- The instruction on the turns, if somebody has the turn and the time is not over.
abbrev pub turns_told : Env → ℕ → Turns → Outbox
turns_told e u t = elim t.current [
  | none ↦ []
  | some c ↦
      if ltb e.now t.timer.deadline
      then (u, instruction (codes "turn") (turn_fields e t.queue c (t.timer.deadline - e.now))) ∷ []
      else []
]

-- The instruction on the vote, if one goes on and the time is not over.
abbrev pub votes_told : Env → ℕ → Votes → Outbox
votes_told e u v =
    if is_voting v.state && ltb e.now v.deadline
    then (
      u,
      instruction (codes "vote") (
          opcode false
          ∷ to_string (v.deadline - e.now)
          ∷ to_string v.count_yes
          ∷ to_string v.count_no
          ∷ []),
    )
      ∷ []
    else []

join_turns-told : (e : Env) (u : ℕ) (t : Turns) → join_turns e u t ≡ turns_told e u t
unfolding join_turns
join_turns-told e u t = elim (Option-cases t.current) [
  | inl n ↦ rw (n, join_turns) refl
  | inr (c, n) ↦
      rw (n, join_turns)
        (ap (λ (o : Outbox). if ltb e.now t.timer.deadline then o else [])
          (turn_info-instruction e u (t.timer.deadline - e.now) c t.queue))
]

join_votes-told : (e : Env) (u : ℕ) (v : Votes) → join_votes e u v ≡ votes_told e u v
unfolding join_votes
join_votes-told e u v =
    ap (λ (o : Outbox). if is_voting v.state && ltb e.now v.deadline then o else [])
      (send_vote_info-instruction u (v.deadline - e.now) v.count_yes v.count_no)

-- A user that joins is told of the turns with the same fields as the spectators, if somebody has
-- the turn, and then of the vote, if one goes on, each only while its time is not over; each in a
-- well-formed instruction.
pub add_user-told :
    (e : Env) (u : ℕ) (t : Turns) (v : Votes)
    → add_user e u t v ≡ turns_told e u t ++ votes_told e u v
unfolding add_user
add_user-told e u t v = ap₂ ◌++◌ (join_turns-told e u t) (join_votes-told e u v)
