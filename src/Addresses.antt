-- ===== src/Addresses.antt =====
-- What src/CollabVM.cpp keeps of each IP address: `FindIPData`, `CreateIPData`, `OnValidate`,
-- `ShouldCleanUpIPData`, `IPDataTimerCallback` and the end of `RemoveConnection`. The two maps are
-- one function on the keys, with the keys that were ever written for the walks over the maps.
pub mod Counts
pub mod Inv
pub mod Reach
use collab_vm_server.Prelude.{
  ℕ, ◌+◌, ◌-◌, ◌*◌, ◌%◌, Bool, true, false, not, ◌&&◌, ◌||◌, Option, none, some, List, [], ◌∷◌, ltb,
  leb, ◌==◌, if◌then◌else◌, update, mem, erase,
}
use collab_vm_server.Chat.Instruction.{Muted, unmuted, temp_mute, perm_mute}
use collab_vm_server.Votes.{Decision, has_voted}

-- An address as Boost classifies it: of version 4, of version 6 but standing for one of version
-- 4, or another of version 6.
pub data Address : Type 0 where
  v4 v4_mapped v6 : ℕ → Address

-- The key in `ipv4_data_`, an even number here, or in `ipv6_data_`, an odd one.
abbrev pub key : Address → ℕ
key (v4 n) = 2 * n
key (v4_mapped n) = 2 * n
key (v6 n) = 2 * n + 1

-- The settings, times in seconds.
pub record Config : Type 0 where
  pub max_connections : ℕ
  pub chat_rate_time : ℕ
  pub chat_mute_time : ℕ
  pub login_ip_block_time : ℕ

-- The fields of `IPData` that these functions read or write.
pub record IpData : Type 0 where
  pub connections : ℕ
  pub last_chat_msg : ℕ
  pub chat_muted : Muted
  pub last_name_chg : ℕ
  pub name_fixed : Bool
  pub last_turn : ℕ
  pub turn_fixed : Bool
  pub failed_logins : ℕ
  pub failed_login_time : ℕ
  pub votes : List Decision
  pub upload_in_progress : Bool
  pub next_upload_time : ℕ

-- `references` are the keys of the data that the open connections refer to.
pub record Addresses : Type 0 where
  pub ip_data : ℕ → Option IpData
  pub keys : List ℕ
  pub timer_running : Bool
  pub references : List ℕ

-- The steps of `ShouldCleanUpIPData`: each leaves the data, and whether the next is reached.
abbrev pub and_then : IpData × Bool → (IpData → IpData × Bool) → IpData × Bool
and_then (d, true) f = f d
and_then (d, false) f = (d, false)

unfoldable pub clean_chat : Config → ℕ → IpData → IpData × Bool
clean_chat g now d =
    if ltb now (d.last_chat_msg + g.chat_rate_time) then (d, false) else elim d.chat_muted [
      | unmuted ↦ (d, true)
      | temp_mute ↦
          if leb (d.last_chat_msg + g.chat_mute_time) now
          then (record d { chat_muted = Muted.unmuted }, true)
          else (d, false)
      | perm_mute ↦ (d, false)
    ]

unfoldable pub clean_name : Config → ℕ → IpData → IpData × Bool
clean_name g now d =
    if not d.name_fixed
    then (d, true)
    else if leb (d.last_name_chg + g.chat_mute_time) now
    then (record d { name_fixed = false }, true)
    else (d, false)

unfoldable pub clean_turn : Config → ℕ → IpData → IpData × Bool
clean_turn g now d =
    if not d.turn_fixed
    then (d, true)
    else if leb (d.last_turn + g.chat_mute_time) now
    then (record d { turn_fixed = false }, true)
    else (d, false)

unfoldable pub clean_logins : Config → ℕ → IpData → IpData × Bool
clean_logins g now d =
    if d.failed_logins == 0
    then (d, true)
    else if leb (d.failed_login_time + g.login_ip_block_time) now
    then (record d { failed_logins = 0 }, true)
    else (d, false)

unfoldable pub any_vote : List Decision → Bool
any_vote [] = false
any_vote (v ∷ vs) = has_voted v || any_vote vs

unfoldable pub should_clean_up : Config → ℕ → IpData → IpData × Bool
unfolding clean_chat clean_name clean_turn clean_logins any_vote
should_clean_up g now d =
    let (d', idle) =
      and_then (and_then (and_then (clean_chat g now d) (clean_name g now)) (clean_turn g now))
        (clean_logins g now) in
    (
      d',
      idle && not (any_vote d'.votes) && not (d'.upload_in_progress || ltb now d'.next_upload_time),
    )

-- The constructor of `IPData` for one connection. What it leaves unset is 0 or false here: the times,
-- which are then those of the clock's start, and `turn_fixed`.
abbrev pub new_ip_data : IpData
new_ip_data = record {
  connections = 1;
  last_chat_msg = 0;
  chat_muted = Muted.unmuted;
  last_name_chg = 0;
  name_fixed = false;
  last_turn = 0;
  turn_fixed = false;
  failed_logins = 0;
  failed_login_time = 0;
  votes = [];
  upload_in_progress = false;
  next_upload_time = 0;
}

-- Behind the check of the protocol: whether the connection is accepted.
unfoldable pub on_validate : Config → Address → Addresses → Addresses × Bool
on_validate g a s = elim (s.ip_data (key a)) [
  | none ↦ (
    record s {
      ip_data = update s.ip_data (key a) (some new_ip_data);
      keys = key a ∷ s.keys;
      references = key a ∷ s.references;
    },
    true,
  )
  | some d ↦ if leb g.max_connections d.connections then (s, false) else (
    record s {
      ip_data =
          update s.ip_data (key a) (some (record d { connections = (d.connections + 1) % 256 }));
      references = key a ∷ s.references;
    },
    true,
  )
]

-- The data after the last connection: gone, or kept for the timer.
abbrev pub kept : IpData × Bool → Option IpData
kept (d, true) = none
kept (d, false) = some d

unfoldable pub release : Config → ℕ → IpData → Option IpData
unfolding should_clean_up
release g now d =
    let d' = record d { connections = (d.connections + 255) % 256 } in
    if d'.connections == 0 then kept (should_clean_up g now d') else some d'

abbrev pub is_none : Option IpData → Bool
is_none none = true
is_none (some d) = false

-- The part of `RemoveConnection` under the lock, for a user whose data has key `k`.
unfoldable pub remove_connection : Config → ℕ → ℕ → Addresses → Addresses
unfolding release
remove_connection g now k s = elim (s.ip_data k) [
  | none ↦ s
  | some d ↦
      let left = release g now d in
      record s {
        ip_data = update s.ip_data k left;
        references = erase k s.references;
        timer_running = s.timer_running || not (is_none left);
      }
]

-- One round of the loops of `IPDataTimerCallback`.
unfoldable pub sweep : Config → ℕ → Option IpData → Option IpData
unfolding should_clean_up
sweep g now none = none
sweep g now (some d) = if d.connections == 0 then kept (should_clean_up g now d) else some d

abbrev pub is_idle : Option IpData → Bool
is_idle none = false
is_idle (some d) = d.connections == 0

unfoldable pub any_idle : (ℕ → Option IpData) → List ℕ → Bool
any_idle entries [] = false
any_idle entries (k ∷ ks) = is_idle (entries k) || any_idle entries ks

unfoldable pub ip_data_timer_callback : Config → ℕ → Addresses → Addresses
unfolding sweep any_idle
ip_data_timer_callback g now s =
    let swept : ℕ → Option IpData = λ k. sweep g now (s.ip_data k) in
    record s { ip_data = swept; timer_running = any_idle swept s.keys }
