-- ===== src/Votes/Tally.antt =====
-- Counting the addresses that have decided one way.
use collab_vm_server.Prelude.{
  ℕ, ◌+◌, ◌≤◌, ◌≡◌, refl, ap, Bool, true, false, List, [], ◌∷◌, arith, ◌==◌, length, update, mem,
  Distinct, Bool-cases, inl, inr, subst, ==_iff,
}
use collab_vm_server.Votes.{Decision, not_voted, yes_vote, no_vote}

abbrev pub is_yes : Decision → Bool
is_yes yes_vote = true
is_yes not_voted = false
is_yes no_vote = false

abbrev pub is_no : Decision → Bool
is_no no_vote = true
is_no not_voted = false
is_no yes_vote = false

abbrev pub weight : Bool → ℕ
weight true = 1
weight false = 0

-- How many of the addresses have such a decision.
unfoldable pub tally : (Decision → Bool) → (ℕ → Decision) → List ℕ → ℕ
tally p f [] = 0
tally p f (i ∷ is) = weight (p (f i)) + tally p f is

module _ (p : Decision → Bool) (f : ℕ → Decision) (i : ℕ) (x : Decision) where
  pub tally_absent : (is : List ℕ) → mem i is ≡ false → tally p (update f i x) is ≡ tally p f is
  unfolding tally mem
  tally_absent [] h = refl
  tally_absent (j ∷ is) h = ground (arith, tally_absent is)

  -- A new decision of one address moves the count by its difference.
  pub tally-update :
      (is : List ℕ)
      → Distinct is
      → mem i is ≡ true
      → tally p (update f i x) is + weight (p (f i)) ≡ tally p f is + weight (p x)
  unfolding tally mem
  tally-update [] d h = absurd (ground arith)
  tally-update (j ∷ is) d h = elim (Bool-cases (j == i)) [
    | inl e ↦
        let q : j ≡ i = (==_iff j i).0 e in
        rw e (
          omega (
            arith,
            tally_absent is (subst (λ k. mem k is ≡ false) q d.0),
            ap (λ k. weight (p (f k))) q,
          ))
    | inr e ↦ rw e (omega (arith, tally-update is d.1 (ground arith)))
  ]

pub tally-le-length :
    (p : Decision → Bool) (f : ℕ → Decision) (is : List ℕ) → tally p f is ≤ length is
unfolding tally
tally-le-length p f [] = omega arith
tally-le-length p f (i ∷ is) = ground (arith, tally-le-length p f is)

-- An address votes one way.
pub tally-yes-no :
    (f : ℕ → Decision) (is : List ℕ) → tally is_yes f is + tally is_no f is ≤ length is
unfolding tally
tally-yes-no f [] = omega arith
tally-yes-no f (i ∷ is) = ground (arith, tally-yes-no f is)

pub weight-le-tally :
    (p : Decision → Bool) (f : ℕ → Decision) (i : ℕ) (is : List ℕ)
    → mem i is ≡ true
    → weight (p (f i)) ≤ tally p f is
unfolding tally mem
weight-le-tally p f i [] h = absurd (ground arith)
weight-le-tally p f i (j ∷ is) h = elim (Bool-cases (j == i)) [
  | inl e ↦ omega (arith, ap (λ k. weight (p (f k))) ((==_iff j i).0 e))
  | inr e ↦ omega (arith, weight-le-tally p f i is (ground arith))
]

-- Nobody has voted.
abbrev pub NobodyVoted : (ℕ → Decision) → List ℕ → Type 0
NobodyVoted f is = (i : ℕ) → mem i is ≡ true → f i ≡ not_voted

pub tally_nobody :
    (p : Decision → Bool) (f : ℕ → Decision) (is : List ℕ)
    → p not_voted ≡ false
    → NobodyVoted f is
    → tally p f is ≡ 0
unfolding tally mem
tally_nobody p f [] h n = refl
tally_nobody p f (i ∷ is) h n =
    let z : f i ≡ not_voted = n i (ground arith) in
    rw (z, h) (omega (arith, tally_nobody p f is h (λ j m. n j (ground arith))))
