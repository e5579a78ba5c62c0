-- ===== src/Votes/Inv.antt =====
-- The counts of a vote in src/VMControllers/VMController.cpp agree with the decisions that the
-- addresses hold.
use collab_vm_server.Prelude.{
  ℕ, ◌≡◌, refl, sym, ap, ◌∙◌, inl, inr, Bool, true, false, ◌&&◌, List, [], ◌∷◌, arith, ltb, leb,
  ◌==◌, if◌then◌else◌, update, mem, Bool-cases,
}
use collab_vm_server.Votes.Tally.{is_yes, is_no, tally}
use collab_vm_server.Votes.{
  VoteState, idle, voting, cooling_down, Decision, not_voted, yes_vote, no_vote, Env, Votes,
  is_voting, has_voted, user_voted, limited_vote, cast_vote, vote_in, vote, clear_users, clear_ips,
  broadcast_vote_ended, end_vote_common_logic, end_vote, skip_vote, uncount, remove_vote,
}
use collab_vm_server.Votes.Count.{Inv, Recorded, Kept, moved, start_vote-Inv, limited_vote-lem}

module _ (e : Env) where
  user_voted-Inv :
      (u : ℕ) (b : Bool) (v w : Votes)
      → is_voting v.state ≡ true
      → Inv e.ips v
      → Recorded e (e.ip u) b v w
      → w.limit u ≡ false
      → Inv e.ips (user_voted e u b w).0
  unfolding user_voted
  user_voted-Inv u b v w s h (r, y, n, d, _) l =
      rw (l, d)
        (record {
          distinct = h.distinct;
          few = h.few;
          counted_yes = λ _. y;
          counted_no = λ _. n;
          quiet = λ x. ground (arith, r);
        })

  Kept-Inv : (v w : Votes) → Inv e.ips v → Kept e v w → Inv e.ips w
  Kept-Inv v w h (r, y, n, d) = record {
    distinct = h.distinct;
    few = h.few;
    counted_yes = λ x. y ∙ h.counted_yes (rw r at x) ∙ ap (λ f. tally is_yes f e.ips) (sym d);
    counted_no = λ x. n ∙ h.counted_no (rw r at x) ∙ ap (λ f. tally is_no f e.ips) (sym d);
    quiet = λ x i m. ap (λ (f : ℕ → Decision). f i) d ∙ h.quiet (rw r at x) i m;
  }

  cast_vote-Inv :
      (u : ℕ) (b : Bool) (v : Votes)
      → mem (e.ip u) e.ips ≡ true
      → is_voting v.state ≡ true
      → Inv e.ips v
      → Inv e.ips (cast_vote e u b v).0
  unfolding cast_vote
  cast_vote-Inv u b v m s h = elim (Bool-cases (ltb e.now v.deadline)) [
    | inr t ↦ rw t h
    | inl t ↦ elim (limited_vote-lem e u b v m s h) [
      | inl (c, r, l) ↦ rw (t, c) (user_voted-Inv u b v (limited_vote e u b v).0 s h r l)
      | inr (c, k) ↦ rw (t, c) (Kept-Inv v (limited_vote e u b v).0 h k)
    ]
  ]

  -- A request to vote keeps the invariant.
  pub vote-Inv :
      (u : ℕ) (b : Bool) (v : Votes)
      → mem (e.ip u) e.ips ≡ true
      → Inv e.ips v
      → Inv e.ips (vote e u b v).0
  unfolding vote vote_in
  vote-Inv u b v m h = elim (Bool-cases e.votes_enabled) [
    | inr t ↦ simp t h
    | inl t ↦ simp t (go v.state refl)
  ]
    where
      go : (s : VoteState) → v.state ≡ s → Inv e.ips (vote_in s e u b v).0
      go idle q = start_vote-Inv e u b v m q h
      go voting q = cast_vote-Inv u b v m (rw q) h
      go cooling_down q = h

  decision-clear_users : (us : List ℕ) (v : Votes) → ((clear_users us v).decision ≡ v.decision)
  unfolding clear_users
  decision-clear_users [] v = refl
  decision-clear_users (u ∷ us) v =
      decision-clear_users us
        (record v { amount = update v.amount u 0; limit = update v.limit u false })

  decision-clear_ips :
      (is : List ℕ) (v : Votes) (i : ℕ)
      → (clear_ips is v).decision i ≡ (if mem i is then not_voted else v.decision i)
  unfolding clear_ips mem
  decision-clear_ips [] v i = refl
  decision-clear_ips (j ∷ is) v i =
      ground
        (arith, decision-clear_ips is (record v { decision = update v.decision j not_voted }) i)

  -- The end of a vote, by its timer or by an administrator, keeps the invariant.
  end_vote_common_logic-Inv :
      (passed : Bool) (v : Votes) → Inv e.ips v → Inv e.ips (end_vote_common_logic e passed v).0
  unfolding end_vote_common_logic broadcast_vote_ended
  end_vote_common_logic-Inv passed v h = elim (Bool-cases (e.vote_cooldown_time == 0)) [
    | inl t ↦ rw t (record {
      distinct = h.distinct;
      few = h.few;
      counted_yes = λ x. cc;
      counted_no = λ x. cc;
      quiet = λ _ i m. ground (arith, m, decision-clear_ips e.ips (clear_users e.viewers v) i);
    })
    | inr t ↦ rw t (record {
      distinct = h.distinct;
      few = h.few;
      counted_yes = λ x. cc;
      counted_no = λ x. cc;
      quiet = λ _ i m. ground (arith, m, decision-clear_ips e.ips (clear_users e.viewers v) i);
    })
  ]

  pub end_vote-Inv : (v : Votes) → Inv e.ips v → Inv e.ips (end_vote e v).0
  unfolding end_vote
  end_vote-Inv v h = elim (Bool-cases (is_voting v.state)) [
    | inl s ↦ rw (s, end_vote) (end_vote_common_logic-Inv (leb v.count_no v.count_yes) v h)
    | inr s ↦ rw (s, end_vote) h
  ]

  pub skip_vote-Inv : (pass : Bool) (v : Votes) → Inv e.ips v → Inv e.ips (skip_vote e pass v).0
  unfolding skip_vote
  skip_vote-Inv pass v h = elim (Bool-cases (is_voting v.state)) [
    | inl s ↦ rw (s, skip_vote) (end_vote_common_logic-Inv pass v h)
    | inr s ↦ rw (s, skip_vote) h
  ]

  uncount-lem :
      (i : ℕ) (d : Decision) (v : Votes)
      → mem i e.ips ≡ true
      → v.decision i ≡ d
      → is_voting v.state ≡ true
      → Inv e.ips v
      → ((uncount d v).count_yes ≡ tally is_yes (update v.decision i not_voted) e.ips)
        × ((uncount d v).count_no ≡ tally is_no (update v.decision i not_voted) e.ips)
        × ((uncount d v).state ≡ v.state)
  unfolding uncount
  uncount-lem i not_voted v m k s h = (
    omega (arith, moved e is_yes not_voted not_voted i v m k h, h.counted_yes s),
    omega (arith, moved e is_no not_voted not_voted i v m k h, h.counted_no s),
    refl,
  )
  uncount-lem i yes_vote v m k s h = (
    omega (arith, moved e is_yes not_voted yes_vote i v m k h, h.counted_yes s),
    omega (arith, moved e is_no not_voted yes_vote i v m k h, h.counted_no s),
    refl,
  )
  uncount-lem i no_vote v m k s h = (
    omega (arith, moved e is_yes not_voted no_vote i v m k h, h.counted_yes s),
    omega (arith, moved e is_no not_voted no_vote i v m k h, h.counted_no s),
    refl,
  )

  -- A user that leaves takes the vote of the address back, and keeps the invariant.
  pub remove_vote-Inv :
      (u : ℕ) (v : Votes)
      → mem (e.ip u) e.ips ≡ true
      → Inv e.ips v
      → Inv e.ips (remove_vote e u v).0
  unfolding remove_vote
  remove_vote-Inv u v m h =
      let i = e.ip u in
      elim (Bool-cases (is_voting v.state && ltb e.now v.deadline && has_voted (v.decision i))) [
        | inr t ↦ rw t h
        | inl t ↦
            let s : is_voting v.state ≡ true = ground arith in
            let (y, n, r) = uncount-lem i (v.decision i) v m refl s h in
            rw t (record {
              distinct = h.distinct;
              few = h.few;
              counted_yes = λ _. y;
              counted_no = λ _. n;
              quiet = λ x. ground (arith, r);
            })
      ]
