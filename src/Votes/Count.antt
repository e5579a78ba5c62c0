-- ===== src/Votes/Count.antt =====
-- How the handlers of src/VMControllers/VMController.cpp count one vote, against the decisions that
-- the addresses hold.
use collab_vm_server.Prelude.{
  ℕ, ◌+◌, ◌<◌, ◌^◌, ◌≡◌, refl, ap, ◌∙◌, inl, inr, ◌⊎◌, Bool, true, false, List, arith, leb,
  if◌then◌else◌, length, update, mem, Distinct, Bool-cases,
}
use collab_vm_server.Votes.Tally.{
  is_yes, is_no, weight, tally, tally-update, tally-le-length, NobodyVoted, tally_nobody,
}
use collab_vm_server.Votes.{
  idle, Decision, not_voted, yes_vote, no_vote, Env, Votes, is_voting, max_voted_amount,
  user_started_vote, start_vote, count_vote, limited_vote,
}

-- For the addresses that the server knows, fewer than a `uint32_t` can count.
pub record Inv (ips : List ℕ) (v : Votes) : Type 0 where
  pub distinct : Distinct ips
  pub few : length ips < 2 ^ 32
  pub counted_yes : is_voting v.state ≡ true → v.count_yes ≡ tally is_yes v.decision ips
  pub counted_no : is_voting v.state ≡ true → v.count_no ≡ tally is_no v.decision ips
  pub quiet : is_voting v.state ≡ false → NobodyVoted v.decision ips

module _ (e : Env) where
  pub start_vote-Inv :
      (u : ℕ) (b : Bool) (v : Votes)
      → mem (e.ip u) e.ips ≡ true
      → v.state ≡ idle
      → Inv e.ips v
      → Inv e.ips (start_vote e u b v).0
  unfolding start_vote user_started_vote
  start_vote-Inv u false v m s h = h
  start_vote-Inv u true v m s h =
      let q : NobodyVoted v.decision e.ips = h.quiet (ground arith) in
      record {
        distinct = h.distinct;
        few = h.few;
        counted_yes = λ _. ground (
          arith,
          tally-update is_yes v.decision (e.ip u) yes_vote e.ips h.distinct m,
          tally_nobody is_yes v.decision e.ips refl q,
          q (e.ip u) m,
        );
        counted_no = λ _. ground (
          arith,
          tally-update is_no v.decision (e.ip u) yes_vote e.ips h.distinct m,
          tally_nobody is_no v.decision e.ips refl q,
          q (e.ip u) m,
        );
        quiet = λ x. cc;
      }

  -- A vote that counts, by what the address had decided before.
  abbrev pub Recorded : ℕ → Bool → Votes → Votes → Type 0
  Recorded i b v w =
      (w.state ≡ v.state)
      × (w.count_yes ≡ tally is_yes (update v.decision i (if b then yes_vote else no_vote)) e.ips)
      × (w.count_no ≡ tally is_no (update v.decision i (if b then yes_vote else no_vote)) e.ips)
      × (w.decision ≡ v.decision)
      × (w.limit ≡ v.limit)

  -- How a decision of one address moves a count, and that the result fits.
  pub moved :
      (p : Decision → Bool) (x d : Decision) (i : ℕ) (v : Votes)
      → mem i e.ips ≡ true
      → v.decision i ≡ d
      → Inv e.ips v
      → (tally p (update v.decision i x) e.ips + weight (p d)
          ≡ tally p v.decision e.ips + weight (p x))
        × (tally p (update v.decision i x) e.ips < 2 ^ 32)
        × (tally p v.decision e.ips < 2 ^ 32)
  moved p x d i v m k h = (
    rw k at (tally-update p v.decision i x e.ips h.distinct m),
    omega (arith, tally-le-length p (update v.decision i x) e.ips, h.few),
    omega (arith, tally-le-length p v.decision e.ips, h.few),
  )

  count_vote-Recorded :
      (u i : ℕ) (b : Bool) (d : Decision) (v : Votes)
      → mem i e.ips ≡ true
      → v.decision i ≡ d
      → is_voting v.state ≡ true
      → Inv e.ips v
      → (count_vote u b d v).1 ≡ true
      → Recorded i b v (count_vote u b d v).0
  unfolding count_vote
  count_vote-Recorded u i true not_voted v m k s h c = (
    refl,
    omega (arith, moved is_yes yes_vote not_voted i v m k h, h.counted_yes s),
    omega (arith, moved is_no yes_vote not_voted i v m k h, h.counted_no s),
    refl,
    refl,
  )
  count_vote-Recorded u i true yes_vote v m k s h c = cc
  count_vote-Recorded u i true no_vote v m k s h c = (
    refl,
    omega (arith, moved is_yes yes_vote no_vote i v m k h, h.counted_yes s),
    omega (arith, moved is_no yes_vote no_vote i v m k h, h.counted_no s),
    refl,
    refl,
  )
  count_vote-Recorded u i false not_voted v m k s h c = (
    refl,
    omega (arith, moved is_yes no_vote not_voted i v m k h, h.counted_yes s),
    omega (arith, moved is_no no_vote not_voted i v m k h, h.counted_no s),
    refl,
    refl,
  )
  count_vote-Recorded u i false yes_vote v m k s h c = (
    refl,
    omega (arith, moved is_yes no_vote yes_vote i v m k h, h.counted_yes s),
    omega (arith, moved is_no no_vote yes_vote i v m k h, h.counted_no s),
    refl,
    refl,
  )
  count_vote-Recorded u i false no_vote v m k s h c = cc

  count_vote-unchanged :
      (u : ℕ) (b : Bool) (d : Decision) (v : Votes)
      → (count_vote u b d v).1 ≡ false
      → (count_vote u b d v).0 ≡ v
  unfolding count_vote
  count_vote-unchanged u true not_voted v c = cc
  count_vote-unchanged u true yes_vote v c = refl
  count_vote-unchanged u true no_vote v c = cc
  count_vote-unchanged u false not_voted v c = cc
  count_vote-unchanged u false yes_vote v c = cc
  count_vote-unchanged u false no_vote v c = refl

  -- A vote within the limit is recorded; one past it, or one that repeats the decision, leaves the
  -- counts and the decisions.
  abbrev pub Kept : Votes → Votes → Type 0
  Kept v w =
      (w.state ≡ v.state)
      × (w.count_yes ≡ v.count_yes)
      × (w.count_no ≡ v.count_no)
      × (w.decision ≡ v.decision)

  pub limited_vote-lem :
      (u : ℕ) (b : Bool) (v : Votes)
      → mem (e.ip u) e.ips ≡ true
      → is_voting v.state ≡ true
      → Inv e.ips v
      → (((limited_vote e u b v).1 ≡ true)
          × Recorded (e.ip u) b v (limited_vote e u b v).0
          × ((limited_vote e u b v).0.limit u ≡ false))
        ⊎ (((limited_vote e u b v).1 ≡ false) × Kept v (limited_vote e u b v).0)
  unfolding limited_vote
  limited_vote-lem u b v m s h = elim (Bool-cases (v.limit u)) [
    | inl l ↦ inr (rw l (refl, (refl, refl, refl, refl)))
    | inr l ↦ elim (Bool-cases (leb max_voted_amount (v.amount u))) [
      | inl a ↦ inr (rw (l, a) (refl, (refl, refl, refl, refl)))
      | inr a ↦ elim (Bool-cases (count_vote u b (v.decision (e.ip u)) v).1) [
        | inl c ↦
            let r = count_vote-Recorded u (e.ip u) b (v.decision (e.ip u)) v m refl s h c in
            inl (rw (l, a) (c, r, ap (λ f. f u) r.4 ∙ l))
        | inr c ↦
            let q = count_vote-unchanged u b (v.decision (e.ip u)) v c in
            inr (
              rw (l, a)
                (
                  c,
                  (
                    ap (λ w. w.state) q,
                    ap (λ w. w.count_yes) q,
                    ap (λ w. w.count_no) q,
                    ap (λ w. w.decision) q,
                  ),
                ))
      ]
    ]
  ]
