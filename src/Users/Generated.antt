-- ===== src/Users/Generated.antt =====
-- `GenerateUsername` of src/CollabVM.cpp finds a free name.
use native.Mathlib.Decide.{dec_lt}
use native.Mathlib.Bridge.{le_prop}
use mathlib.Core.Logic.{dif_pos, dif_neg}
use mathlib.Core.WellFounded.{Acc}
use collab_vm_server.Prelude.{
  ℕ, zero, suc, ◌+◌, ◌/◌, ◌%◌, ◌^◌, ◌≤◌, ◌<◌, ◌≡◌, refl, sym, ap, ◌∙◌, inl, inr, true, Option, none,
  some, [], ◌∷◌, ◌++◌, Bytes, arith, to_string, print_acc, length, map, drop, Bool-cases,
  Option-cases,
}
use collab_vm_server.Prelude.Order.{lt_wf}
use collab_vm_server.Wire.{extract}
use collab_vm_server.Wire.Digits.{extract-to_string}
use collab_vm_server.Users.{
  lower, same, Registry, find, remove, guest, generate_loop, generate_username,
}
use collab_vm_server.Users.Map.{same_sound, find-remove, length-remove_found}

lower-digit : (d : ℕ) → d < 10 → lower (b'0' + d) ≡ b'0' + d
unfolding lower
lower-digit d h = ground arith

map-print_acc :
    (n : ℕ) (w : Acc ◌<◌ n) (out : Bytes)
    → map lower (print_acc n w out) ≡ print_acc n w (map lower out)
unfolding print_acc
map-print_acc n (Acc.intro _ smaller) out = elim (dec_lt 9 n) [
  | yes p ↦
      rw (dif_pos _ le_prop p, dif_pos _ le_prop p)
        (map-print_acc (n / 10) (smaller (n / 10) (omega arith)) ((b'0' + n % 10) ∷ out)
          ∙ ap (λ c. print_acc (n / 10) (smaller (n / 10) (omega arith)) (c ∷ map lower out))
              (lower-digit (n % 10) (omega arith)))
  | no p ↦ rw (dif_neg _ p, dif_neg _ p) (ap (λ c. c ∷ map lower out) (lower-digit n (omega arith)))
]

map-to_string : (n : ℕ) → map lower (to_string n) ≡ to_string n
unfolding to_string
map-to_string n = map-print_acc n (lt_wf.apply n) []

to_string_injective : (n m : ℕ) → n < 2 ^ 64 → m < 2 ^ 64 → to_string n ≡ to_string m → n ≡ m
to_string_injective n m a b e =
    let p = extract-to_string n [] a tt in
    let q = extract-to_string m [] b tt in
    let r : ◌≡◌ {A = Option (ℕ × Bytes)} (some (n, [])) (some (m, [])) =
      sym p ∙ ap (λ s. extract (s ++ [])) e ∙ q in
    cc

-- The numbered names differ, in whatever case.
guest_injective : (n m : ℕ) → n < 2 ^ 32 → m < 2 ^ 32 → same (guest n) (guest m) ≡ true → n ≡ m
unfolding guest lower
guest_injective n m a b h =
    let e = ap (drop 5) (same_sound (guest n) (guest m) h) in
    to_string_injective n m (omega arith) (omega arith)
      (sym (map-to_string n) ∙ e ∙ map-to_string m)

-- Without the name of number `a`, the search through other numbers fails as well.
generate_loop-remove :
    (f a d : ℕ) (m : Registry)
    → a < 2 ^ 32
    → 0 < d
    → d + f ≤ 2 ^ 32
    → generate_loop f ((a + d) % 2 ^ 32) m ≡ none
    → generate_loop f ((a + d) % 2 ^ 32) (remove (guest a) m) ≡ none
unfolding generate_loop
generate_loop-remove zero a d m ha hd hf h = refl
generate_loop-remove (suc f) a d m ha hd hf h =
    let num = (a + d) % 2 ^ 32 in
    let next : (num + 1) % 2 ^ 32 ≡ (a + (d + 1)) % 2 ^ 32 = omega arith in
    elim (Option-cases (find (guest num) m)) [
      | inl e ↦ absurd (some_none (rw (e, generate_loop) at h))
      | inr (u, e) ↦ elim (Bool-cases (same (guest num) (guest a))) [
        | inl q ↦ let r = guest_injective num a (omega arith) ha q in absurd (omega arith)
        | inr q ↦
            rw (find-remove (guest num) (guest a) m, q, e, generate_loop, next)
              (generate_loop-remove f a (d + 1) m ha (omega arith) (omega arith)
                (rw (e, generate_loop, next) at h))
      ]
    ]
  where
    some_none : {b : Bytes} → some b ≡ none → ⊥
    some_none p = cc

generate_loop-none :
    (f num : ℕ) (m : Registry)
    → num < 2 ^ 32
    → f ≤ 2 ^ 32
    → generate_loop f num m ≡ none
    → f ≤ length m
unfolding generate_loop
generate_loop-none zero num m hn hf h = omega arith
generate_loop-none (suc f) num m hn hf h = elim (Option-cases (find (guest num) m)) [
  | inl e ↦ absurd (some_none (rw (e, generate_loop) at h))
  | inr (u, e) ↦
      let r =
        generate_loop-remove f num 1 m hn (omega arith) (omega arith)
          (rw (e, generate_loop) at h) in
      omega (
        arith,
        length-remove_found (guest num) u m e,
        generate_loop-none f ((num + 1) % 2 ^ 32) (remove (guest num) m) (omega arith) (omega arith)
            r,
      )
]
  where
    some_none : {b : Bytes} → some b ≡ none → ⊥
    some_none p = cc

generate_loop-some :
    (f num : ℕ) (m : Registry) (name : Bytes)
    → num < 2 ^ 32
    → generate_loop f num m ≡ some name
    → (find name m ≡ none) × ((n : ℕ) × (n < 2 ^ 32) × (name ≡ guest n))
unfolding generate_loop
generate_loop-some zero num m name l h = cc
generate_loop-some (suc f) num m name l h = elim (Option-cases (find (guest num) m)) [
  | inl e ↦
      let q : some (guest num) ≡ some name = rw (e, generate_loop) at h in
      let r : guest num ≡ name = cc in (rw (← r) e, (num, l, sym r))
  | inr (u, e) ↦
      generate_loop-some f ((num + 1) % 2 ^ 32) m name (omega arith) (rw (e, generate_loop) at h)
]

-- Whatever number is drawn, where fewer than 2^32 names are taken the search ends with a free
-- name, which is `guest` and a number of 32 bits.
pub generate_username-free :
    (num : ℕ) (m : Registry)
    → num < 2 ^ 32
    → length m < 2 ^ 32
    → (name : Bytes) × (generate_username num m ≡ some name)
      × (find name m ≡ none)
      × ((n : ℕ) × (n < 2 ^ 32) × (name ≡ guest n))
unfolding generate_username
generate_username-free num m hn hm = elim (Option-cases (generate_loop (suc (length m)) num m)) [
  | inl e ↦
      let k = generate_loop-none (suc (length m)) num m hn (omega arith) e in absurd (omega arith)
  | inr (name, e) ↦
      let (a, b) = generate_loop-some (suc (length m)) num m name hn e in (name, e, a, b)
]

-- The name, if there is one, is free.
pub generate_username_sound :
    (num : ℕ) (m : Registry) (name : Bytes)
    → num < 2 ^ 32
    → generate_username num m ≡ some name
    → find name m ≡ none
unfolding generate_username
generate_username_sound num m name hn h = (generate_loop-some (suc (length m)) num m name hn h).0
