-- ===== src/Users/Map.antt =====
-- What the map of names holds after an insertion or a removal.
use collab_vm_server.Prelude.{
  ℕ, ◌≤◌, ◌<◌, ◌≡◌, refl, sym, ◌∙◌, ap, inl, inr, true, none, some, [], ◌∷◌, Bytes, arith,
  if◌then◌else◌, length, map, equal, equal_refl, equal_sound, Bool-cases,
}
use collab_vm_server.Users.{same, less, lower, Registry, find, insert, remove}

pub same_refl : (a : Bytes) → same a a ≡ true
unfolding same
same_refl a = equal_refl (map lower a)

pub same_sound : (a b : Bytes) → same a b ≡ true → map lower a ≡ map lower b
unfolding same
same_sound a b h = equal_sound (map lower a) (map lower b) h

pub same_left : (a b c : Bytes) → same a b ≡ true → same a c ≡ same b c
unfolding same
same_left a b c h = ap (λ x. equal x (map lower c)) (same_sound a b h)

pub same_right : (a b c : Bytes) → same a b ≡ true → same c a ≡ same c b
unfolding same
same_right a b c h = ap (equal (map lower c)) (same_sound a b h)

pub same_sym : (a b : Bytes) → same a b ≡ true → same b a ≡ true
same_sym a b h = sym (same_left a b a h) ∙ same_refl a

pub find-insert :
    (j k : Bytes) (u : ℕ) (m : Registry)
    → find j (insert k u m) ≡ (if same j k then some u else find j m)
unfolding find insert
find-insert j k u [] = refl
find-insert j k u ((n, v) ∷ m) = elim (Bool-cases (same k n)) [
  | inl e ↦ rw (e, same_right k n j e) (ground arith)
  | inr e ↦ elim (Bool-cases (less (map lower k) (map lower n))) [
    | inl l ↦ rw (e, l) refl
    | inr l ↦ rw (e, l) (ground (arith, find-insert j k u m, same_left j k n))
  ]
]

pub find-remove :
    (j k : Bytes) (m : Registry) → find j (remove k m) ≡ (if same j k then none else find j m)
unfolding find remove
find-remove j k [] = ground arith
find-remove j k ((n, v) ∷ m) = elim (Bool-cases (same k n)) [
  | inl e ↦ rw (e, find-remove j k m, same_right k n j e) (ground arith)
  | inr e ↦ rw e (ground (arith, find-remove j k m, same_left j k n))
]

pub length-remove : (k : Bytes) (m : Registry) → length (remove k m) ≤ length m
unfolding remove
length-remove k [] = omega arith
length-remove k ((n, v) ∷ m) = ground (arith, length-remove k m)

pub length-remove_found :
    (k : Bytes) (u : ℕ) (m : Registry) → find k m ≡ some u → length (remove k m) < length m
unfolding find remove
length-remove_found k u [] h = cc
length-remove_found k u ((n, v) ∷ m) h =
    ground (arith, length-remove k m, length-remove_found k u m)

pub find-same : (j k : Bytes) (m : Registry) → same j k ≡ true → find j m ≡ find k m
unfolding find
find-same j k [] h = refl
find-same j k ((n, v) ∷ m) h = rw (same_left j k n h, find-same j k m h) refl
