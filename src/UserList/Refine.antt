-- ===== src/UserList/Refine.antt =====
-- The linked list of src/UserList.h as a list of users, the latest first.
use collab_vm_server.Prelude.{
  ℕ, zero, suc, ◌^◌, ◌<◌, ◌≡◌, refl, ap, true, false, Option, none, some, List, [], ◌∷◌, arith,
  length, mem, erase,
}
use collab_vm_server.UserList.{UserList, add_user, remove_user, met, walk, for_each_user}
use collab_vm_server.UserList.Links.{Chain}
use collab_vm_server.UserList.Holds.{Holds, add_user-Holds, remove_user-Holds}

walk-Chain :
    (prev next : ℕ → Option ℕ) (p o : Option ℕ) (xs : List ℕ) (f : ℕ)
    → Chain prev next p o xs
    → length xs < f
    → walk f next o ≡ some xs
unfolding walk
walk-Chain prev next p o xs zero c h = absurd (omega arith)
walk-Chain prev next p o [] (suc f) c h = rw c refl
walk-Chain prev next p o (x ∷ xs) (suc f) (e, q, c) h =
    rw e (ap (met x) (walk-Chain prev next (some x) (next x) xs f c (omega arith)))

-- A user comes to the VM or leaves it.
pub data Event : Type 0 where
  adds removes : ℕ → Event

abbrev pub run : List Event → UserList → UserList
run [] s = s
run (adds u ∷ es) s = run es (add_user u s)
run (removes u ∷ es) s = run es (remove_user u s)

-- The users that are there, the latest first.
abbrev pub present : List Event → List ℕ → List ℕ
present [] xs = xs
present (adds u ∷ es) xs = present es (u ∷ xs)
present (removes u ∷ es) xs = present es (erase u xs)

-- A user comes that is not there, and leaves that is; fewer than 2^64 are there.
abbrev pub AreProper : List Event → List ℕ → Type 0
AreProper [] xs = Unit
AreProper (adds u ∷ es) xs = (mem u xs ≡ false) × (suc (length xs) < 2 ^ 64) × AreProper es (u ∷ xs)
AreProper (removes u ∷ es) xs = (mem u xs ≡ true) × (length xs < 2 ^ 64) × AreProper es (erase u xs)

run-Holds :
    (es : List Event) (s : UserList) (xs : List ℕ)
    → AreProper es xs
    → Holds s xs
    → Holds (run es s) (present es xs)
run-Holds [] s xs p h = h
run-Holds (adds u ∷ es) s xs (a, b, c) h =
    run-Holds es (add_user u s) (u ∷ xs) c (add_user-Holds u s xs a b h)
run-Holds (removes u ∷ es) s xs (a, b, c) h =
    run-Holds es (remove_user u s) (erase u xs) c (remove_user-Holds u s xs a b h)

-- From a list without users, whatever the links of the users outside: after any course of users
-- that come while they are not there and leave while they are, always fewer than 2^64, the walk
-- comes to the end of the list, on any fuel above the number of users, and has then met exactly the
-- users that are there, once each, the latest first; and the count is their number.
pub for_each_user-run :
    (es : List Event) (s : UserList)
    → s.users ≡ none
    → s.connected_users ≡ 0
    → AreProper es []
    → ((f : ℕ) → length (present es []) < f → for_each_user f (run es s) ≡ some (present es []))
      × ((run es s).connected_users ≡ length (present es []))
unfolding for_each_user
for_each_user-run es s n z p =
    let h = run-Holds es s [] p (record { links = n; distinct = tt; counted = z }) in
    (λ f fuel. walk-Chain _ _ none (run es s).users (present es []) f h.links fuel, h.counted)
