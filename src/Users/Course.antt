-- ===== src/Users/Course.antt =====
-- Whatever the users and the administrators of src/CollabVM.cpp ask for, no two names are the same.
use collab_vm_server.Prelude.{
  ℕ, ◌^◌, ◌<◌, ◌≡◌, sym, ◌∙◌, inl, inr, true, Option, none, some, List, [], ◌∷◌, Bytes, arith,
  Option-cases,
}
use collab_vm_server.Users.{same, Users, Env, Config, find, name_of}
use collab_vm_server.Users.Map.{find-same}
use collab_vm_server.Users.Kept.{on_rename-Inv, admin_rename-Inv, remove_name-Inv}
use collab_vm_server.Users.Inv.{Inv}
use collab_vm_server.Users.Rename.{on_rename_instruction, admin_rename, remove_name}

-- A rename instruction with its arguments, one of an administrator, or the end of a connection.
pub data Event : Type 0 where
  renames : ℕ → List Bytes → Event
  admin_renames : ℕ → Bytes → Option Bytes → Event
  disconnects : ℕ → Event

abbrev pub step : Config → Env → Event → Users → Users
step g e (renames u args) s = (on_rename_instruction g e u args s).0
step g e (admin_renames u target name) s = (admin_rename g e u target name s).0
step g e (disconnects u) s = (remove_name e u s).0

abbrev pub run : Config → List (Env × Event) → Users → Users
run g [] s = s
run g ((e, x) ∷ xs) s = run g xs (step g e x s)

-- Each number that is drawn fits in 32 bits.
abbrev pub AreDrawn : List (Env × Event) → Type 0
AreDrawn [] = Unit
AreDrawn ((e, x) ∷ xs) = (e.drawn < 2 ^ 32) × AreDrawn xs

step-Inv :
    (g : Config) (e : Env) (x : Event) (s : Users) → e.drawn < 2 ^ 32 → Inv s → Inv (step g e x s)
step-Inv g e (renames u args) s d h = on_rename-Inv g e u args s d h
step-Inv g e (admin_renames u target name) s d h = admin_rename-Inv g e u target name s d h
step-Inv g e (disconnects u) s d h = remove_name-Inv e u s h

run-Inv :
    (g : Config) (xs : List (Env × Event)) (s : Users) → AreDrawn xs → Inv s → Inv (run g xs s)
run-Inv g [] s d h = h
run-Inv g ((e, x) ∷ xs) s d h = run-Inv g xs (step g e x s) d.1 (step-Inv g e x s d.0 h)

-- Nobody has a name, and none is taken.
abbrev pub IsEmpty : Users → Type 0
IsEmpty s = (s.usernames ≡ []) × ((u : ℕ) → s.cell u ≡ none)

IsEmpty-Inv : (s : Users) → IsEmpty s → Inv s
unfolding find
IsEmpty-Inv s (m, f) = record {
  named = λ u c p. absurd (none_some (sym (f u) ∙ p));
  listed = λ k u p. let q : find k [] ≡ some u = rw m at p in absurd (none_some q);
  below = λ u c p. absurd (none_some (sym (f u) ∙ p));
}
  where
    none_some : {w : ℕ} → none ≡ some w → ⊥
    none_some r = cc

name_of-cell :
    (s : Users) (u : ℕ) (a : Bytes)
    → name_of s u ≡ some a
    → (c : ℕ) × (s.cell u ≡ some c) × (s.text c ≡ a)
name_of-cell s u a h = elim (Option-cases (s.cell u)) [
  | inl n ↦ ground arith
  | inr (c, n) ↦ (c, n, ground arith)
]

-- From a state without names, where each number that is drawn fits in 32 bits: after any course of
-- rename instructions, renames by administrators and ends of connections, looking up a user's
-- name finds that user; so two users whose names differ in the case of letters at most are the
-- same; and whatever a name finds is a user whose name it is but for the case of letters.
pub run_unique :
    (g : Config) (xs : List (Env × Event)) (s : Users)
    → AreDrawn xs
    → IsEmpty s
    → ((u : ℕ) (a : Bytes)
        → name_of (run g xs s) u ≡ some a
        → find a (run g xs s).usernames ≡ some u)
      × ((u v : ℕ) (a b : Bytes)
          → name_of (run g xs s) u ≡ some a
          → name_of (run g xs s) v ≡ some b
          → same a b ≡ true
          → u ≡ v)
      × ((u : ℕ) (k : Bytes)
          → find k (run g xs s).usernames ≡ some u
          → (a : Bytes) × (name_of (run g xs s) u ≡ some a) × (same k a ≡ true))
run_unique g xs s d f =
    let t = run g xs s in
    let h = run-Inv g xs s d (IsEmpty-Inv s f) in
    let registered : (u : ℕ) (a : Bytes) → name_of t u ≡ some a → find a t.usernames ≡ some u =
      λ u a p. let (c, q, r) = name_of-cell t u a p in rw (← r) (h.named u c q) in
    (
      registered,
      λ u v a b p q r.
          let x = registered u a p in
          let y = registered v b q in let z = find-same a b t.usernames r in cc,
      λ u k p. let (c, q, r) = h.listed k u p in (t.text c, ground arith, r),
    )
