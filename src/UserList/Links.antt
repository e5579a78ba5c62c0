-- ===== src/UserList/Links.antt =====
-- The links of src/UserList.h along a list, and what unlinking a user does to them.
use collab_vm_server.Prelude.{
  ℕ, ◌≡◌, refl, sym, ap, ◌∙◌, inl, inr, true, false, Option, none, some, List, [], ◌∷◌, arith, ◌==◌,
  if◌then◌else◌, update, mem, erase, Distinct, is, Bool-cases, Option-cases, subst,
}

module _ (prev next : ℕ → Option ℕ) where
  -- From `o` on, the links lead along the list, and `p` is before its head.
  abbrev pub Chain : Option ℕ → Option ℕ → List ℕ → Type 0
  Chain p o [] = o ≡ none
  Chain p o (x ∷ xs) = (o ≡ some x) × (prev x ≡ p) × Chain (some x) (next x) xs

-- The links of these users alone matter.
pub Chain-frame :
    (prev next prev' next' : ℕ → Option ℕ) (p o : Option ℕ) (xs : List ℕ)
    → ((z : ℕ) → mem z xs ≡ true → (prev' z ≡ prev z) × (next' z ≡ next z))
    → Chain prev next p o xs
    → Chain prev' next' p o xs
unfolding mem
Chain-frame prev next prev' next' p o [] h c = c
Chain-frame prev next prev' next' p o (x ∷ xs) h (e, q, c) =
    let (a, b) = h x (ground arith) in
    let r = Chain-frame prev next prev' next' (some x) (next x) xs (λ z m. h z (ground arith)) c in
    (e, a ∙ q, rw b r)

-- The user behind another one of the list is in the list.
next-in :
    (prev next : ℕ → Option ℕ) (p o : Option ℕ) (xs : List ℕ) (u r : ℕ)
    → Chain prev next p o xs
    → mem u xs ≡ true
    → next u ≡ some r
    → mem r xs ≡ true
unfolding mem
next-in prev next p o [] u r c m n = cc
next-in prev next p o (x ∷ []) u r (e, q, c) m n =
    let i : x ≡ u = ground arith in absurd (none_some (sym c ∙ ap next i ∙ n))
  where
    none_some : none ≡ some r → ⊥
    none_some k = cc
next-in prev next p o (x ∷ y ∷ xs) u r (e, q, c) m n = elim (Bool-cases (x == u)) [
  | inl i ↦
      let j : x ≡ u = ground arith in
      let k : some y ≡ some r = sym c.0 ∙ ap next j ∙ n in ground arith
  | inr i ↦
      let k = next-in prev next (some x) (next x) (y ∷ xs) u r c (ground arith) n in ground arith
]

pub is-some : (o : Option ℕ) (u : ℕ) → is o u ≡ true → o ≡ some u
is-some none u h = cc
is-some (some v) u h = ground arith

pub head-prev :
    (prev next : ℕ → Option ℕ) (p o : Option ℕ) (xs : List ℕ) (u : ℕ)
    → Chain prev next p o xs
    → o ≡ some u
    → prev u ≡ p
head-prev prev next p o [] u c h = cc
head-prev prev next p o (x ∷ xs) u (e, q, c) h =
    let i : some x ≡ some u = sym e ∙ h in let j : x ≡ u = cc in rw (← j) q

-- The user before one that is not the head is another one of the list.
pub prev-in :
    (prev next : ℕ → Option ℕ) (p o : Option ℕ) (xs : List ℕ) (u : ℕ)
    → Chain prev next p o xs
    → Distinct xs
    → mem u xs ≡ true
    → is o u ≡ false
    → (q : ℕ) × (prev u ≡ some q) × (mem q xs ≡ true) × ((q == u) ≡ false)
unfolding mem
prev-in prev next p o [] u c d m n = cc
prev-in prev next p o (x ∷ xs) u (e, b, c) d m n = elim (Bool-cases (is (next x) u)) [
  | inl i ↦ (
    x,
    head-prev prev next (some x) (next x) xs u c (is-some (next x) u i),
    ground arith,
    ground (arith, ap (λ k. is k u) e),
  )
  | inr i ↦
      let (q, f, g, h) =
        prev-in prev next (some x) (next x) xs u c d.1 (ground (arith, ap (λ k. is k u) e)) i in
      (q, f, ground arith, h)
]

-- Links of which the one at `q`, if any, is now `o`.
abbrev pub relinked : Option ℕ → Option ℕ → (ℕ → Option ℕ) → ℕ → Option ℕ
relinked none o f = f
relinked (some q) o f = update f q o

-- The links without the user `u`.
abbrev pub next_without : (ℕ → Option ℕ) → (ℕ → Option ℕ) → ℕ → ℕ → Option ℕ
next_without prev next u = relinked (prev u) (next u) next

abbrev pub prev_without : (ℕ → Option ℕ) → (ℕ → Option ℕ) → ℕ → ℕ → Option ℕ
prev_without prev next u = relinked (next u) (prev u) prev

next_without-other :
    (prev next : ℕ → Option ℕ) (u z : ℕ)
    → ((q : ℕ) → prev u ≡ some q → (z == q) ≡ false)
    → next_without prev next u z ≡ next z
next_without-other prev next u z h = elim (Option-cases (prev u)) [
  | inl n ↦ rw (n, next_without) refl
  | inr (q, n) ↦ let k = h q n in rw (n, next_without, k) refl
]

prev_without-other :
    (prev next : ℕ → Option ℕ) (u z : ℕ)
    → ((r : ℕ) → next u ≡ some r → (z == r) ≡ false)
    → prev_without prev next u z ≡ prev z
prev_without-other prev next u z h = elim (Option-cases (next u)) [
  | inl n ↦ rw (n, prev_without) refl
  | inr (r, n) ↦ let k = h r n in rw (n, prev_without, k) refl
]

pub same_test : (z : ℕ) → (z == z) ≡ true
same_test z = ground arith

apart : (z q : ℕ) (xs : List ℕ) → mem z xs ≡ true → mem q xs ≡ false → (z == q) ≡ false
apart z q xs a b = elim (Bool-cases (z == q)) [
  | inr e ↦ e
  | inl e ↦ let i : z ≡ q = ground arith in absurd (no (sym (rw i at a) ∙ b))
]
  where
    no : true ≡ false → ⊥
    no k = cc

-- The list behind `u`, linked to what is before `u`.
relink :
    (prev next : ℕ → Option ℕ) (u : ℕ) (xs : List ℕ)
    → Chain prev next (some u) (next u) xs
    → Distinct xs
    → ((q : ℕ) → prev u ≡ some q → mem q xs ≡ false)
    → Chain (prev_without prev next u) (next_without prev next u) (prev u) (next u) xs
unfolding mem
relink prev next u [] c d h = c
relink prev next u (y ∷ ys) (e, b, c) d h =
    let a = next_without-other prev next u y (λ q n. ground (arith, h q n)) in
    let k : prev_without prev next u y ≡ prev u = rw (e, prev_without, same_test y) refl in
    let f =
      Chain-frame prev next (prev_without prev next u) (next_without prev next u) (some y) (next y)
        ys
        (λ z m. (
          prev_without-other prev next u z (λ r n.
              let i : some y ≡ some r = sym e ∙ n in
              let j : y ≡ r = cc in apart z r ys m (rw j at d.0)),
          next_without-other prev next u z (λ q n. apart z q ys m (ground (arith, h q n))),
        ))
        c in
    (e, k, rw a f)

-- Unlinked, the user is out of the list.
pub Chain-erase :
    (prev next : ℕ → Option ℕ) (p o : Option ℕ) (xs : List ℕ) (u : ℕ)
    → Chain prev next p o xs
    → Distinct xs
    → mem u xs ≡ true
    → ((q : ℕ) → p ≡ some q → mem q xs ≡ false)
    → Chain
        (prev_without prev next u)
        (next_without prev next u)
        p
        (if is o u then next u else o)
        (erase u xs)
unfolding mem erase
Chain-erase prev next p o [] u c d m h = cc
Chain-erase prev next p o (x ∷ xs) u (e, b, c) d m h = elim (Bool-cases (x == u)) [
  | inl i ↦
      let j : x ≡ u = ground arith in
      let b' : prev u ≡ p = rw j at b in
      let c' : Chain prev next (some u) (next u) xs = rw j at c in
      let r = relink prev next u xs c' d.1 (λ q n. ground (arith, h q (sym b' ∙ n))) in
      rw (e, i)
        (subst (λ k. Chain (prev_without prev next u) (next_without prev next u) k (next u) xs) b'
          r)
  | inr i ↦
      let m' : mem u xs ≡ true = ground arith in
      let r =
        Chain-erase prev next (some x) (next x) xs u c d.1 m'
          (λ q n. let k : x ≡ q = cc in rw (← k) d.0) in
      let w : next_without prev next u x ≡ (if is (next x) u then next u else next x) =
        elim (Bool-cases (is (next x) u)) [
          | inl k ↦
              let g = head-prev prev next (some x) (next x) xs u c (is-some (next x) u k) in
              rw (k, g, next_without, same_test x) refl
          | inr k ↦
              let (q, f, g, v) = prev-in prev next (some x) (next x) xs u c d.1 m' k in
              rw k (
                next_without-other prev next u x (λ q' n.
                  let y : some q ≡ some q' = sym f ∙ n in
                  let z : q ≡ q' = cc in ground (arith, apart q x xs g d.0)))
        ] in
      rw (e, i)
        (
          refl,
          prev_without-other prev next u x (λ r n.
                ground
                  (arith, apart r x xs (next-in prev next (some x) (next x) xs u r c m' n) d.0))
              ∙ b,
          rw w r,
        )
]
