-- ===== src/Users.antt =====
-- The names of the connected users: `ChangeUsername`, `GenerateUsername`, `OnRenameInstruction`,
-- `SendOnlineUsersList` and the part of `RemoveConnection` that gives a name back, of
-- src/CollabVM.cpp. A name is a string shared with the chat history, known by its cell.
pub mod Map
pub mod Generated
pub mod Inv
pub mod Rename
pub mod Kept
pub mod Course
pub mod Messages
use collab_vm_server.Prelude.{
  ℕ, zero, suc, ◌+◌, ◌%◌, ◌^◌, Bool, true, false, not, ◌&&◌, ◌||◌, Option, none, some, List, [],
  ◌∷◌, ◌++◌, Bytes, codes, to_string, ltb, leb, ◌==◌, if◌then◌else◌, length, update, map, within,
  equal,
}
use collab_vm_server.Wire.{element}
use collab_vm_server.Names.{validate_username}
use collab_vm_server.Chat.Instruction.{
  Rank, unregistered, registered, admin, moderator, Outbox, send_all,
}

unfoldable pub lower : ℕ → ℕ
lower c = if within b'A' b'Z' c then c + 32 else c

-- `strcasecmp(a, b) == 0`, of strings without a zero byte.
unfoldable pub same : Bytes → Bytes → Bool
unfolding lower
same a b = equal (map lower a) (map lower b)

unfoldable pub less : Bytes → Bytes → Bool
less [] [] = false
less [] (y ∷ b) = true
less (x ∷ a) [] = false
less (x ∷ a) (y ∷ b) = let rest = less a b in if x == y then rest else ltb x y

-- `usernames_`, a map whose order ignores the case of letters.
abbrev pub Registry : Type 0
Registry = List (Bytes × ℕ)

unfoldable pub find : Bytes → Registry → Option ℕ
unfolding same
find k [] = none
find k ((n, u) ∷ m) = if same k n then some u else find k m

-- A key that is there stays as it was written, and gets the new value.
unfoldable pub insert : Bytes → ℕ → Registry → Registry
unfolding same less
insert k u [] = (k, u) ∷ []
insert k u ((n, v) ∷ m) =
    if same k n
    then (n, u) ∷ m
    else if less (map lower k) (map lower n)
    then (k, u) ∷ (n, v) ∷ m
    else (n, v) ∷ insert k u m

unfoldable pub remove : Bytes → Registry → Registry
unfolding same
remove k [] = []
remove k ((n, v) ∷ m) = if same k n then remove k m else (n, v) ∷ remove k m

-- The fields of `IPData` that limit changes of names, and the settings.
pub record NameData : Type 0 where
  pub last_name_chg : ℕ
  pub name_chg_count : ℕ
  pub name_fixed : Bool

pub record Config : Type 0 where
  pub name_rate_count : ℕ
  pub name_rate_time : ℕ
  pub name_mute_time : ℕ
  pub blacklisted_usernames : List Bytes

-- `cell` is the pointer `username` of each user, `text` what the strings hold, `fresh` the next string.
pub record Users : Type 0 where
  pub cell : ℕ → Option ℕ
  pub text : ℕ → Bytes
  pub fresh : ℕ
  pub usernames : Registry
  pub limits : ℕ → NameData

-- What a call reads: the clock in seconds, the number drawn by `guest_rng_`, and of the users, who
-- is connected, their addresses and ranks, and whether they view a VM.
pub record Env : Type 0 where
  pub now : ℕ
  pub drawn : ℕ
  pub connections : List ℕ
  pub ip : ℕ → ℕ
  pub rank : ℕ → Rank
  pub viewing : ℕ → Bool

-- The number of a rank.
abbrev pub rank_number : Rank → ℕ
rank_number unregistered = 0
rank_number registered = 1
rank_number admin = 2
rank_number moderator = 3

pub data UsernameChangeResult : Type 0 where
  success username_taken invalid blacklisted : UsernameChangeResult

abbrev pub result_char : UsernameChangeResult → ℕ
result_char success = b'0'
result_char username_taken = b'1'
result_char invalid = b'2'
result_char blacklisted = b'3'

unfoldable pub guest : ℕ → Bytes
guest n = codes "guest" ++ to_string n

-- The loop, on fuel; `++num` wraps.
unfoldable pub generate_loop : ℕ → ℕ → Registry → Option Bytes
unfolding guest find
generate_loop zero num m = none
generate_loop (suc f) num m = elim (find (guest num) m) [
  | none ↦ some (guest num)
  | some _ ↦ generate_loop f ((num + 1) % 2 ^ 32) m
]

unfoldable pub generate_username : ℕ → Registry → Option Bytes
unfolding generate_loop
generate_username num m = generate_loop (suc (length m)) num m

-- The first part of `ChangeUsername`: the data that is left, and whether the change goes on.
unfoldable pub check_fixed : Config → ℕ → NameData → NameData × Bool
check_fixed g now d =
    if not d.name_fixed
    then (d, true)
    else if leb (d.last_name_chg + g.name_mute_time) now
    then (record d { name_fixed = false }, true)
    else (d, false)

unfoldable pub count_change : Config → ℕ → NameData → NameData × Bool
count_change g now d =
    let counted = (d.name_chg_count + 1) % 256 in
    if g.name_rate_count == 0 || g.name_rate_time == 0
    then (d, true)
    else if not (ltb now (d.last_name_chg + g.name_rate_time))
    then (record d { name_chg_count = 0 }, true)
    else if leb g.name_rate_count counted
    then (record d { name_chg_count = counted; last_name_chg = now; name_fixed = true }, false)
    else (record d { name_chg_count = counted }, true)

unfoldable pub limit_change : Config → ℕ → NameData → NameData × Bool
unfolding check_fixed count_change
limit_change g now d =
    let (d', goes_on) = check_fixed g now d in
    if goes_on then count_change g now d' else (d', false)

-- The name and the rank, behind the head of an instruction.
unfoldable pub name_rank : Bytes → Rank → Bytes
name_rank name r = element name ++ (b',' ∷ (element (to_string (rank_number r)) ++ b';' ∷ []))

unfoldable pub rename_instr : UsernameChangeResult → Bytes → Rank → Bytes
unfolding name_rank
rename_instr result name r =
    codes "6.rename,1.0,1." ++ (result_char result ∷ b',' ∷ name_rank name r)

unfoldable pub announcement : Option Bytes → Bytes → Rank → Bytes
unfolding name_rank
announcement none name r = codes "7.adduser,1.1," ++ name_rank name r
announcement (some old) name r = codes "6.rename,1.1," ++ (element old ++ (b',' ∷ name_rank name r))

-- Those of the users that view a VM.
unfoldable pub viewers : (ℕ → Bool) → List ℕ → List ℕ
viewers viewing [] = []
viewers viewing (u ∷ us) = let rest = viewers viewing us in if viewing u then u ∷ rest else rest

abbrev pub name_of : Users → ℕ → Option Bytes
name_of s u = elim (s.cell u) [ none ↦ none | some c ↦ some (s.text c) ]

-- The last part: the user's string, or a new one, and the map.
unfoldable pub assign : ℕ → Bytes → Users → Users
unfolding insert remove
assign u name s = elim (s.cell u) [
  | some c ↦ record s {
    usernames = insert name u (remove (s.text c) s.usernames);
    text = update s.text c name;
  }
  | none ↦ record s {
    usernames = insert name u s.usernames;
    cell = update s.cell u (some s.fresh);
    text = update s.text s.fresh name;
    fresh = s.fresh + 1;
  }
]

abbrev pub is_success : UsernameChangeResult → Bool
is_success success = true
is_success username_taken = false
is_success invalid = false
is_success blacklisted = false

unfoldable pub rename_sends : Env → ℕ → Bytes → UsernameChangeResult → Users → Outbox
unfolding rename_instr announcement viewers send_all
rename_sends e u name result s =
    let told = (u, rename_instr result name (e.rank u)) ∷ [] in
    if not (is_success result) || length s.usernames == 0
    then told
    else told
      ++ send_all (viewers e.viewing e.connections) (announcement (name_of s u) name (e.rank u))

unfoldable pub change_username :
    Config → Env → ℕ → Bytes → UsernameChangeResult → Users → Users × Outbox
unfolding limit_change assign rename_sends
change_username g e u name result s =
    let (d, goes_on) = limit_change g e.now (s.limits (e.ip u)) in
    let s' = record s { limits = update s.limits (e.ip u) d } in
    let d' = record d { name_chg_count = (d.name_chg_count + 1) % 256; last_name_chg = e.now } in
    let renamed = record (assign u name s) { limits = update s.limits (e.ip u) d' } in
    if not goes_on
    then (s', [])
    else (if is_success result then renamed else s', rename_sends e u name result s)
