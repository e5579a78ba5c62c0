-- ===== src/Tests/Connecting.antt =====
-- Runs of the addresses of src/CollabVM.cpp: one address connects twice.
use collab_vm_server.Prelude.{ℕ, ◌≤◌, ◌<◌, ◌≡◌, refl, ◌⊎◌, true, false, none, some, [], arith, mem}
use collab_vm_server.Addresses.{v4, Config, IpData, Addresses, on_validate}
use collab_vm_server.Addresses.Counts.{occurrences, count}
use collab_vm_server.Addresses.Reach.{Reach, here, next, validates, Reach-referred}

abbrev config : Config
config = record {
  max_connections = 1;
  chat_rate_time = 3;
  chat_mute_time = 30;
  login_ip_block_time = 60;
}

abbrev nobody : Addresses
nobody = record { ip_data = λ k. none; keys = []; timer_running = false; references = [] }

abbrev one : Addresses
one = (on_validate config (v4 7) nobody).0

abbrev two : Addresses
two = (on_validate config (v4 7) one).0

both : Reach config nobody two
both = next (next here (validates (v4 7) refl)) (validates (v4 7) refl)

Reach-referred_example :
    ((k : ℕ)
      → (count (two.ip_data k) ≡ occurrences k two.references) × (occurrences k two.references ≤ 1))
    × ((k : ℕ) → mem k two.references ≡ true → (d : IpData) × (two.ip_data k ≡ some d))
    × (two.timer_running ≡ false
        → (k : ℕ) → (two.ip_data k ≡ none) ⊎ (0 < occurrences k two.references))
Reach-referred_example = Reach-referred (omega arith) ((λ k. refl), refl) both
