-- ===== src/Votes/Reach.antt =====
-- A VM's votes over any course of the server: src/VMControllers/VMController.cpp with the addresses
-- that src/CollabVM.cpp creates and deletes.
use collab_vm_server.Prelude.{
  ℕ, ◌+◌, ◌≤◌, ◌<◌, ◌^◌, ◌≡◌, refl, sym, ap, ap₂, ==_iff, ◌∙◌, inl, inr, Bool, true, false, List,
  [], ◌∷◌, arith, ◌==◌, leb, length, update, mem, erase, mem-erase, Distinct-erase, Bool-cases,
  subst,
}
use collab_vm_server.Votes.Tally.{is_yes, is_no, tally, tally_absent, tally-yes-no, NobodyVoted}
use collab_vm_server.Votes.{
  Decision, not_voted, Env, Votes, is_voting, vote, end_vote, skip_vote, cooldown_over, remove_vote,
  end_vote_common_logic,
}
use collab_vm_server.Votes.Count.{Inv}
use collab_vm_server.Votes.Inv.{vote-Inv, end_vote-Inv, skip_vote-Inv, remove_vote-Inv}

-- One step, of the addresses that the server knows and the votes. `ShouldCleanUpIPData` lets an
-- address go only when it has no vote; a new one has an empty map.
pub data Step (is : List ℕ) (v : Votes) : List ℕ → Votes → Type 0 where
  votes :
      {w : Votes} (e : Env) (u : ℕ) (b : Bool)
      → e.ips ≡ is
      → mem (e.ip u) is ≡ true
      → w ≡ (vote e u b v).0
      → Step is v is w
  ends : {w : Votes} (e : Env) → e.ips ≡ is → w ≡ (end_vote e v).0 → Step is v is w
  skips :
      {w : Votes} (e : Env) (pass : Bool) → e.ips ≡ is → w ≡ (skip_vote e pass v).0 → Step is v is w
  cools : {w : Votes} → is_voting v.state ≡ false → w ≡ cooldown_over v → Step is v is w
  leaves :
      {w : Votes} (e : Env) (u : ℕ)
      → e.ips ≡ is
      → mem (e.ip u) is ≡ true
      → w ≡ (remove_vote e u v).0
      → Step is v is w
  connects :
      {w : Votes} (i : ℕ)
      → mem i is ≡ false
      → length is + 1 < 2 ^ 32
      → w ≡ record v { decision = update v.decision i not_voted }
      → Step is v (i ∷ is) w
  drops : {js : List ℕ} (i : ℕ) → v.decision i ≡ not_voted → js ≡ erase i is → Step is v js v

pub data Reach (is : List ℕ) (v : Votes) : List ℕ → Votes → Type 0 where
  here : Reach is v is v
  next : {js ks : List ℕ} {w x : Votes} → Reach is v js w → Step js w ks x → Reach is v ks x

tally-erase :
    (p : Decision → Bool) (f : ℕ → Decision) (i : ℕ) (is : List ℕ)
    → p (f i) ≡ false
    → tally p f (erase i is) ≡ tally p f is
unfolding tally erase
tally-erase p f i [] h = refl
tally-erase p f i (j ∷ is) h = elim (Bool-cases (j == i)) [
  | inl e ↦ let q : p (f j) ≡ false = rw ((==_iff j i).0 e) h in rw (e, q) (omega arith)
  | inr e ↦ rw e (omega (arith, tally-erase p f i is h))
]

length-erase : (i : ℕ) (is : List ℕ) → length (erase i is) ≤ length is
unfolding erase
length-erase i [] = omega arith
length-erase i (j ∷ is) = ground (arith, length-erase i is)

connects-Inv :
    (i : ℕ) (is : List ℕ) (v : Votes)
    → mem i is ≡ false
    → length is + 1 < 2 ^ 32
    → Inv is v
    → Inv (i ∷ is) (record v { decision = update v.decision i not_voted })
unfolding tally mem
connects-Inv i is v m l h = record {
  distinct = (m, h.distinct);
  few = omega arith;
  counted_yes =
      λ x. ground (arith, h.counted_yes x, tally_absent is_yes v.decision i not_voted is m);
  counted_no = λ x. ground (arith, h.counted_no x, tally_absent is_no v.decision i not_voted is m);
  quiet = λ x j k. ground (arith, h.quiet x j);
}

drops-Inv :
    (i : ℕ) (is : List ℕ) (v : Votes) → v.decision i ≡ not_voted → Inv is v → Inv (erase i is) v
drops-Inv i is v d h = record {
  distinct = Distinct-erase i is h.distinct;
  few = omega (arith, length-erase i is, h.few);
  counted_yes = λ x. h.counted_yes x ∙ sym (tally-erase is_yes v.decision i is (ap is_yes d));
  counted_no = λ x. h.counted_no x ∙ sym (tally-erase is_no v.decision i is (ap is_no d));
  quiet = λ x j k. h.quiet x j (ground (arith, mem-erase i j is h.distinct, k));
}

cooldown_over-Inv :
    (is : List ℕ) (v : Votes) → is_voting v.state ≡ false → Inv is v → Inv is (cooldown_over v)
unfolding cooldown_over
cooldown_over-Inv is v s h = record {
  distinct = h.distinct;
  few = h.few;
  counted_yes = λ x. cc;
  counted_no = λ x. cc;
  quiet = λ _. h.quiet s;
}

-- An operation in an environment that knows these addresses.
at_ips :
    (is : List ℕ) (e : Env) (v w x : Votes)
    → e.ips ≡ is
    → x ≡ w
    → (Inv e.ips v → Inv e.ips w)
    → Inv is v
    → Inv is x
at_ips is e v w x q r f h =
    subst (Inv is) (sym r) (subst (λ k. Inv k w) q (f (subst (λ k. Inv k v) (sym q) h)))

Step-Inv : {is js : List ℕ} {v w : Votes} → Step is v js w → Inv is v → Inv js w
Step-Inv {is} {v = v} {w = w} (votes e u b q m r) h =
    at_ips is e v (vote e u b v).0 w q r (vote-Inv e u b v (rw q m)) h
Step-Inv {is} {v = v} {w = w} (ends e q r) h =
    at_ips is e v (end_vote e v).0 w q r (end_vote-Inv e v) h
Step-Inv {is} {v = v} {w = w} (skips e pass q r) h =
    at_ips is e v (skip_vote e pass v).0 w q r (skip_vote-Inv e pass v) h
Step-Inv {is} {v = v} (cools s r) h = subst (Inv is) (sym r) (cooldown_over-Inv is v s h)
Step-Inv {is} {v = v} {w = w} (leaves e u q m r) h =
    at_ips is e v (remove_vote e u v).0 w q r (remove_vote-Inv e u v (rw q m)) h
Step-Inv {is} {v = v} (connects i m l r) h =
    subst (Inv (i ∷ is)) (sym r) (connects-Inv i is v m l h)
Step-Inv {is} {v = v} (drops i d r) h = subst (λ k. Inv k v) (sym r) (drops-Inv i is v d h)

Reach-Inv :
    {is : List ℕ} {v : Votes} {js : List ℕ} {w : Votes} → Inv is v → Reach is v js w → Inv js w
Reach-Inv h here = h
Reach-Inv h (next r s) = Step-Inv s (Reach-Inv h r)

-- The VM's votes before anybody is connected.
abbrev pub IsFresh : Votes → Type 0
IsFresh v = is_voting v.state ≡ false

IsFresh-Inv : (v : Votes) → IsFresh v → Inv [] v
unfolding mem
IsFresh-Inv v h = record {
  distinct = tt;
  few = omega arith;
  counted_yes = λ x. cc;
  counted_no = λ x. cc;
  quiet = λ _ i m. cc;
}

-- From a VM on which no vote goes on, while no address is known: after any course of votes, ends
-- of votes, cooldowns, departures, and addresses coming and going, while a vote goes on, the two
-- counts are the numbers of known addresses that have decided for and against, so no count has
-- wrapped and an address counts once; and otherwise no known address holds a decision.
pub Reach-counts :
    {js : List ℕ} {v w : Votes}
    → IsFresh v
    → Reach [] v js w
    → (is_voting w.state ≡ true
        → (w.count_yes ≡ tally is_yes w.decision js)
          × (w.count_no ≡ tally is_no w.decision js)
          × (w.count_yes + w.count_no ≤ length js))
      × (is_voting w.state ≡ false → NobodyVoted w.decision js)
Reach-counts {js} {v} {w} f r =
    let h = Reach-Inv (IsFresh-Inv v f) r in
    (
      λ x. (
        h.counted_yes x,
        h.counted_no x,
        omega (arith, h.counted_yes x, h.counted_no x, tally-yes-no w.decision js),
      ),
      h.quiet,
    )

-- From a consistent state, when a vote that goes on ends by its timer, the VM is restored exactly
-- when as many known addresses have decided for it as against it, or more.
pub end_vote-majority :
    (e : Env) (v : Votes)
    → Inv e.ips v
    → is_voting v.state ≡ true
    → (end_vote e v).2 ≡ leb (tally is_no v.decision e.ips) (tally is_yes v.decision e.ips)
unfolding end_vote end_vote_common_logic
end_vote-majority e v h s = rw (s, end_vote) (ap₂ leb (h.counted_no s) (h.counted_yes s))
