-- ===== src/Tests/Naming.antt =====
-- Runs of the names of src/CollabVM.cpp: users 1 and 2 ask for the same name.
use collab_vm_server.Prelude.{
  ℕ, ◌^◌, ◌<◌, ◌≡◌, refl, true, false, none, some, List, [], ◌∷◌, Bytes, codes, arith,
}
use collab_vm_server.Chat.Instruction.{Rank}
use collab_vm_server.Users.{Users, Env, Config, find, guest, generate_username, name_of, same}
use collab_vm_server.Users.Generated.{generate_username-free}
use collab_vm_server.Users.Course.{Event, renames, admin_renames, disconnects, run, run_unique}

abbrev config : Config
config = record {
  name_rate_count = 20;
  name_rate_time = 3;
  name_mute_time = 10;
  blacklisted_usernames = [];
}

abbrev env : Env
env = record {
  now = 100;
  drawn = 1234;
  connections = 1 ∷ 2 ∷ [];
  ip = λ u. u;
  rank = λ u. Rank.unregistered;
  viewing = λ u. true;
}

abbrev nobody : Users
nobody = record {
  cell = λ u. none;
  text = λ c. [];
  fresh = 0;
  usernames = [];
  limits = λ i. record { last_name_chg = 0; name_chg_count = 0; name_fixed = false };
}

abbrev events : List (Env × Event)
events =
    (env, renames 1 (codes "Bob" ∷ []))
    ∷ (env, renames 2 (codes "bob" ∷ []))
    ∷ (env, admin_renames 2 (codes "Bob") (some (codes "Eve")))
    ∷ (env, disconnects 1)
    ∷ []

run_unique_example :
    ((u : ℕ) (a : Bytes)
      → name_of (run config events nobody) u ≡ some a
      → find a (run config events nobody).usernames ≡ some u)
    × ((u v : ℕ) (a b : Bytes)
        → name_of (run config events nobody) u ≡ some a
        → name_of (run config events nobody) v ≡ some b
        → same a b ≡ true
        → u ≡ v)
    × ((u : ℕ) (k : Bytes)
        → find k (run config events nobody).usernames ≡ some u
        → (a : Bytes) × (name_of (run config events nobody) u ≡ some a) × (same k a ≡ true))
run_unique_example =
    run_unique config events nobody (omega arith, (omega arith, (omega arith, (omega arith, tt))))
      (refl, λ u. refl)

generate_username-free_example :
    (name : Bytes) × (generate_username 1234 ((codes "guest1234", 1) ∷ []) ≡ some name)
    × (find name ((codes "guest1234", 1) ∷ []) ≡ none)
    × ((n : ℕ) × (n < 2 ^ 32) × (name ≡ guest n))
generate_username-free_example =
    generate_username-free 1234 ((codes "guest1234", 1) ∷ []) (omega arith) (omega arith)
