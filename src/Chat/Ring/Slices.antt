-- ===== src/Chat/Ring/Slices.antt =====
-- Parts of a buffer: what the loop over it reads, and what a write changes.
use collab_vm_server.Prelude.{
  ℕ, zero, suc, ◌+◌, ◌-◌, ◌≤◌, ◌<◌, ◌≡◌, refl, sym, ap, ◌∙◌, inl, inr, List, [], ◌∷◌, ◌++◌, arith,
  length, length-set, take, drop, set, get_elem?, Option-cases,
}
use collab_vm_server.Chat.Ring.{range}

module _ {A : Type 0} where
  pub range-cons : (k i : ℕ) (x : A) (xs : List A) → range k (suc i) (x ∷ xs) ≡ range k i xs
  unfolding range
  range-cons zero i x xs = refl
  range-cons (suc k) i x xs = elim (Option-cases (get_elem? xs i)) [
    | inl e ↦ rw (e, range)
    | inr (m, e) ↦
        rw (e, range)
          (ap (◌∷◌ m) (ap (λ j. range k j (x ∷ xs)) (omega arith) ∙ range-cons k (i + 1) x xs))
  ]

  pub range-take :
      (k i : ℕ) (buf : List A) → i + k ≤ length buf → range k i buf ≡ take k (drop i buf)
  unfolding range
  range-take zero i buf h = refl
  range-take (suc k) i [] h = absurd (omega arith)
  range-take (suc k) zero (x ∷ xs) h =
      ap (◌∷◌ x) (range-cons k 0 x xs ∙ range-take k 0 xs (omega arith))
  range-take (suc k) (suc i) (x ∷ xs) h =
      range-cons (suc k) i x xs ∙ range-take (suc k) i xs (omega arith)

  pub take-set :
      (i : ℕ) (m : A) (buf : List A)
      → i < length buf
      → take (suc i) (set buf i m) ≡ take i buf ++ m ∷ []
  take-set i m [] h = absurd (omega arith)
  take-set zero m (x ∷ xs) h = refl
  take-set (suc i) m (x ∷ xs) h = ap (◌∷◌ x) (take-set i m xs (omega arith))

  pub drop-set : (i : ℕ) (m : A) (buf : List A) → drop (suc i) (set buf i m) ≡ drop (suc i) buf
  drop-set i m [] = refl
  drop-set zero m (x ∷ xs) = refl
  drop-set (suc i) m (x ∷ xs) = drop-set i m xs

  pub take_all : (xs : List A) → take (length xs) xs ≡ xs
  take_all [] = refl
  take_all (x ∷ xs) = ap (◌∷◌ x) (take_all xs)

  pub take_none : (k : ℕ) (xs : List A) → k ≡ 0 → take k xs ≡ []
  take_none zero xs h = refl
  take_none (suc k) xs h = absurd (omega arith)

  pub take_rest : (i : ℕ) (xs : List A) → take (length xs - i) (drop i xs) ≡ drop i xs
  take_rest zero xs = ap (λ k. take k xs) (omega arith) ∙ take_all xs
  take_rest (suc i) [] = take_none (0 - suc i) [] (omega arith)
  take_rest (suc i) (x ∷ xs) = ap (λ k. take k (drop i xs)) (omega arith) ∙ take_rest i xs

  pub drop_all : (i : ℕ) (xs : List A) → length xs ≤ i → drop i xs ≡ []
  drop_all zero [] h = refl
  drop_all zero (x ∷ xs) h = absurd (omega arith)
  drop_all (suc i) [] h = refl
  drop_all (suc i) (x ∷ xs) h = drop_all i xs (omega arith)

  pub take-length-set :
      (i : ℕ) (m : A) (buf : List A) → suc i ≡ length buf → set buf i m ≡ take i buf ++ m ∷ []
  take-length-set i m buf h =
      sym (take_all (set buf i m))
      ∙ ap (λ k. take k (set buf i m)) {y = suc i} (omega (arith, length-set buf i m))
      ∙ take-set i m buf (omega arith)
