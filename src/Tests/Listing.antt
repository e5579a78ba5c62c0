-- ===== src/Tests/Listing.antt =====
-- Runs of src/UserList.h: users 1, 2 and 3 come, and user 2 leaves.
use collab_vm_server.Prelude.{◌≡◌, refl, ℕ, ◌<◌, none, some, List, [], ◌∷◌, arith, mem, erase}
use collab_vm_server.UserList.{
  UserList, for_each_user, walk, add_user, remove_user, unlink_next, unlink_prev,
}
use collab_vm_server.UserList.Refine.{Event, adds, removes, run, for_each_user-run}

abbrev nobody : UserList
nobody = record { prev = λ u. none; next = λ u. none; users = none; connected_users = 0 }

abbrev visits : List Event
visits = adds 1 ∷ adds 2 ∷ adds 3 ∷ removes 2 ∷ []

walk_visits : for_each_user 3 (run visits nobody) ≡ some (3 ∷ 1 ∷ [])
unfolding for_each_user walk add_user remove_user unlink_next unlink_prev
walk_visits = refl

for_each_user-run_example :
    ((f : ℕ) → 2 < f → for_each_user f (run visits nobody) ≡ some (3 ∷ 1 ∷ []))
    × ((run visits nobody).connected_users ≡ 2)
unfolding mem erase
for_each_user-run_example =
    for_each_user-run visits nobody refl refl
      (refl, omega arith, (refl, omega arith, (refl, omega arith, (refl, omega arith, tt))))
