-- ===== src/UserList.antt =====
-- The users of a VM, src/UserList.h: a doubly linked list through fields of the users themselves.
-- The lock and the functions that the callers pass are left out.
pub mod Links
pub mod Holds
pub mod Refine
use collab_vm_server.Prelude.{
  ℕ, zero, suc, ◌+◌, ◌-◌, ◌%◌, ◌^◌, Option, none, some, List, [], ◌∷◌, update,
}

-- `prev_` and `next_` of all users, and the fields of the list.
pub record UserList : Type 0 where
  pub prev : ℕ → Option ℕ
  pub next : ℕ → Option ℕ
  pub users : Option ℕ
  pub connected_users : ℕ

unfoldable pub add_user : ℕ → UserList → UserList
add_user u s =
    let linked = record s { prev = update s.prev u none; next = update s.next u s.users } in
    let back : UserList = elim s.users [
      | none ↦ linked
      | some h ↦ record linked { prev = update linked.prev h (some u) }
    ] in
    record back { users = some u; connected_users = (s.connected_users + 1) % 2 ^ 64 }

-- `prev / head` and `next` of the source's comments.
unfoldable pub unlink_next : ℕ → UserList → UserList
unlink_next u s = elim (s.prev u) [
  | some q ↦ record s { next = update s.next q (s.next u) }
  | none ↦ record s { users = s.next u }
]

unfoldable pub unlink_prev : ℕ → UserList → UserList
unlink_prev u s = elim (s.next u) [
  | some r ↦ record s { prev = update s.prev r (s.prev u) }
  | none ↦ s
]

unfoldable pub remove_user : ℕ → UserList → UserList
unfolding unlink_next unlink_prev
remove_user u s =
    let t = unlink_prev u (unlink_next u s) in
    record t { connected_users = (t.connected_users + 2 ^ 64 - 1) % 2 ^ 64 }

abbrev pub met : ℕ → Option (List ℕ) → Option (List ℕ)
met u none = none
met u (some us) = some (u ∷ us)

-- The users that the walk meets, or `none` if the fuel does not last until its end.
unfoldable pub walk : ℕ → (ℕ → Option ℕ) → Option ℕ → Option (List ℕ)
walk zero next user = none
walk (suc f) next none = some []
walk (suc f) next (some u) = met u (walk f next (next u))

unfoldable pub for_each_user : ℕ → UserList → Option (List ℕ)
unfolding walk
for_each_user f s = walk f s.next s.users
