-- ===== src/Names/Grammar.antt =====
-- Usernames by a grammar: words of name bytes with single spaces between.
use collab_vm_server.Prelude.{
  ℕ, ◌≤◌, ◌≡◌, ◌↔◌, refl, ◌⊎◌, inl, inr, Bool, true, false, [], ◌∷◌, Bytes, arith, length,
  Bool-cases, All,
}
use collab_vm_server.Wire.{back}
use collab_vm_server.Names.{
  is_name, middle, validate_username, min_username_len, max_username_len, is_filename_valid,
  is_reserved,
}

pub data Words : Bytes → Type 0 where
  last : {c : ℕ} → is_name c ≡ true → Words (c ∷ [])
  more : {c : ℕ} {s : Bytes} → is_name c ≡ true → Words s → Words (c ∷ s)
  gap : {c d : ℕ} {s : Bytes} → is_name c ≡ true → d ≡ b' ' → Words s → Words (c ∷ d ∷ s)

-- What may follow: with a space before, no space.
abbrev Follows : Bool → ℕ → Bytes → Type 0
Follows prev d s = Words (d ∷ s) ⊎ ((prev ≡ false) × (d ≡ b' ') × Words s)

middle_sound :
    (prev : Bool) (d : ℕ) (s : Bytes)
    → middle prev (d ∷ s) ≡ true
    → is_name (back d s) ≡ true
    → Follows prev d s
unfolding middle back
middle_sound prev d [] m b = inl (last b)
middle_sound prev d (e ∷ r) m b = elim (Bool-cases (is_name d)) [
  | inl n ↦ elim (middle_sound false e r (rw n at m) b) [
    | inl w ↦ inl (more n w)
    | inr (_, q, w) ↦ inl (gap n q w)
  ]
  | inr n ↦ elim (middle_sound true e r (ground arith) b) [
    | inl w ↦ inr (ground arith, ground arith, w)
    | inr (q, _, _) ↦ cc
  ]
]

not-nil : {s : Bytes} → Words s → (d : ℕ) × (r : Bytes) × (s ≡ d ∷ r)
not-nil (last {c = c} h) = (c, [], refl)
not-nil (more {c = c} {s = s} h w) = (c, s, refl)
not-nil (gap {c = c} {d = d} {s = s} h e w) = (c, d ∷ s, refl)

-- Such a text passes the loop, and ends in a name byte.
abbrev Passes : Bytes → Type 0
Passes [] = ⊥
Passes (c ∷ s) =
    ((prev : Bool) → middle prev (c ∷ s) ≡ true) × (is_name c ≡ true) × (is_name (back c s) ≡ true)

cons-Passes : (c : ℕ) (s : Bytes) → is_name c ≡ true → Passes s → Passes (c ∷ s)
unfolding middle back
cons-Passes c [] h p = absurd p
cons-Passes c (d ∷ r) h (m, _, b) = (λ prev. rw (h, middle) (m false), h, b)

gap-Passes : (c d : ℕ) (s : Bytes) → is_name c ≡ true → d ≡ b' ' → Passes s → Passes (c ∷ d ∷ s)
unfolding middle back is_name
gap-Passes c d [] h e p = absurd p
gap-Passes c d (f ∷ r) h e (m, _, b) = (λ prev. ground (arith, m true), h, b)

Words-Passes : {s : Bytes} → Words s → Passes s
unfolding middle back
Words-Passes (last h) = (λ prev. refl, h, h)
Words-Passes (more {c = c} {s = s} h w) = cons-Passes c s h (Words-Passes w)
Words-Passes (gap {c = c} {d = d} {s = s} h e w) = gap-Passes c d s h e (Words-Passes w)

first-Words :
    (c : ℕ) (s : Bytes)
    → is_name c ≡ true
    → middle false s ≡ true
    → is_name (back c s) ≡ true
    → Words (c ∷ s)
unfolding back
first-Words c [] h m b = last h
first-Words c (d ∷ r) h m b = elim (middle_sound false d r m b) [
  | inl w ↦ more h w
  | inr (_, q, w) ↦ gap h q w
]

middle-tail :
    (c : ℕ) (s : Bytes) → is_name c ≡ true → middle false (c ∷ s) ≡ true → middle false s ≡ true
unfolding middle
middle-tail c [] h m = refl
middle-tail c (d ∷ r) h m = ground arith

-- A username is accepted exactly when it has 3 to 20 bytes and consists of words of letters,
-- digits and `_-.?!`, with single spaces between.
pub validate_username-Words :
    (u : Bytes)
    → (validate_username u ≡ true)
      ↔ ((min_username_len ≤ length u) × (length u ≤ max_username_len) × Words u)
unfolding validate_username
validate_username-Words [] = (λ h. cc, λ h. absurd (omega arith))
validate_username-Words (c ∷ s) = (
  λ h. (ground arith, ground arith, first-Words c s (ground arith) (ground arith) (ground arith)),
  λ (a, b, w).
      let p = Words-Passes w in
      let m = middle-tail c s p.1 (p.0 false) in ground (arith, m, p.1, p.2),
)

-- A printable ASCII byte that Windows allows in a name.
abbrev pub IsPlain : ℕ → Type 0
IsPlain c = (b' ' ≤ c) × (c ≤ b'~') × (is_reserved c ≡ false)

-- A filename is accepted exactly when each of its bytes is printable and none is reserved.
pub is_filename_valid-All : (s : Bytes) → (is_filename_valid s ≡ true) ↔ All IsPlain s
unfolding is_filename_valid
is_filename_valid-All [] = (λ _. tt, λ _. refl)
is_filename_valid-All (c ∷ s) = (
  λ h. ((ground arith, ground arith, ground arith), (is_filename_valid-All s).0 (ground arith)),
  λ (a, b). let q = (is_filename_valid-All s).1 b in ground (arith, q),
)
