-- ===== src/Users/Messages.antt =====
-- The instructions about names that src/CollabVM.cpp sends are well formed.
use collab_vm_server.Prelude.{
  ℕ, ◌≡◌, refl, inl, inr, none, some, List, [], ◌∷◌, ◌++◌, Bytes, codes, arith, to_string, length,
  Option-cases,
}
use collab_vm_server.Wire.{element, tail_elements, instruction}
use collab_vm_server.Chat.Instruction.{Rank}
use collab_vm_server.Users.{
  Users, Env, Registry, UsernameChangeResult, success, username_taken, invalid, blacklisted,
  rank_number, result_char, name_of, name_rank, rename_instr, announcement,
}
use collab_vm_server.Users.Rename.{online_users, send_online_users_list}

element-adduser : element (codes "adduser") ≡ codes "7.adduser"
unfolding element to_string
element-adduser = refl

element-rename : element (codes "rename") ≡ codes "6.rename"
unfolding element to_string
element-rename = refl

element-one : element (codes "1") ≡ codes "1.1"
unfolding element to_string
element-one = refl

element-zero : element (codes "0") ≡ codes "1.0"
unfolding element to_string
element-zero = refl

element-result :
    (r : UsernameChangeResult) → element (result_char r ∷ []) ≡ codes "1." ++ result_char r ∷ []
unfolding element to_string
element-result success = refl
element-result username_taken = refl
element-result invalid = refl
element-result blacklisted = refl

name_rank-tail :
    (name : Bytes) (r : Rank)
    → b',' ∷ name_rank name r ≡ tail_elements (name ∷ to_string (rank_number r) ∷ [])
unfolding name_rank tail_elements
name_rank-tail name r = refl

-- The fields of the answer to a request, and of what the others are told.
abbrev pub answer_fields : UsernameChangeResult → Bytes → Rank → List Bytes
answer_fields result name r =
    codes "0" ∷ (result_char result ∷ []) ∷ name ∷ to_string (rank_number r) ∷ []

-- A user is told of a request's result in an instruction with the result, the name and the rank.
pub rename_instr-instruction :
    (result : UsernameChangeResult) (name : Bytes) (r : Rank)
    → rename_instr result name r ≡ instruction (codes "rename") (answer_fields result name r)
unfolding rename_instr instruction tail_elements name_rank
rename_instr-instruction result name r =
    rw (element-rename, element-zero, element-result result) refl

-- The others are told of a new user in an `adduser` instruction for one user, and of a new name in
-- a `rename` instruction with the old name before the new one.
pub announcement-instruction :
    (name : Bytes) (r : Rank)
    → (announcement none name r
        ≡ instruction (codes "adduser") (codes "1" ∷ name ∷ to_string (rank_number r) ∷ []))
      × ((old : Bytes)
          → announcement (some old) name r
            ≡ instruction
                (codes "rename")
                (codes "1" ∷ old ∷ name ∷ to_string (rank_number r) ∷ []))
unfolding announcement instruction tail_elements name_rank
announcement-instruction name r =
    (rw (element-adduser, element-one) refl, λ old. rw (element-rename, element-one) refl)

-- For each user of the map, in its order, the name and the rank.
abbrev pub online_fields : Env → Users → Registry → List Bytes
online_fields e s [] = []
online_fields e s ((n, u) ∷ m) = elim (name_of s u) [
  | none ↦ online_fields e s m
  | some name ↦ name ∷ to_string (rank_number (e.rank u)) ∷ online_fields e s m
]

online_users-tail :
    (e : Env) (s : Users) (m : Registry) → online_users e s m ≡ tail_elements (online_fields e s m)
unfolding online_users tail_elements
online_users-tail e s [] = refl
online_users-tail e s ((n, u) ∷ m) = elim (Option-cases (name_of s u)) [
  | inl q ↦ ground (arith, online_users-tail e s m)
  | inr (name, q) ↦ ground (arith, online_users-tail e s m)
]

-- The list of users is one instruction: the number of names, then a name and a rank for each.
pub online_users_list-instruction :
    (e : Env) (u : ℕ) (s : Users)
    → send_online_users_list e u s
      ≡ (
        u,
        instruction
            (codes "adduser")
            (to_string (length s.usernames) ∷ online_fields e s s.usernames),
      )
        ∷ []
unfolding send_online_users_list instruction tail_elements
online_users_list-instruction e u s = rw (element-adduser, online_users-tail e s s.usernames) refl
