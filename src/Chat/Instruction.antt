-- ===== src/Chat/Instruction.antt =====
-- `OnChatInstruction`, `MuteUser`, `UnmuteUser` and `SendChatHistory` of src/CollabVM.cpp. Times are
-- seconds of the steady clock; a difference of times is compared by moving a term across.
pub mod Flood
pub mod Sent
use collab_vm_server.Prelude.{
  ℕ, ◌+◌, ◌-◌, ◌%◌, Bool, true, false, not, ◌&&◌, ◌||◌, Option, none, some, List, [], ◌∷◌, ◌++◌,
  Bytes, codes, to_string, ltb, leb, ◌==◌, if◌then◌else◌, length, update,
}
use collab_vm_server.Wire.{element}
use collab_vm_server.Html.{encode_html_string}
use collab_vm_server.Chat.Ring.{Ring, append, messages}

-- `UserMuted` and `UserRank` of src/CollabVMUser.h.
pub data Muted : Type 0 where
  unmuted temp_mute perm_mute : Muted

pub data Rank : Type 0 where
  unregistered registered admin moderator : Rank

-- The fields of `IPData` that the chat reads and writes.
pub record ChatData : Type 0 where
  pub last_chat_msg : ℕ
  pub chat_msg_count : ℕ
  pub chat_muted : Muted

-- The settings of src/Database/Config.h. `mods_mute` is bit 16 of `ModPerms`.
pub record Config : Type 0 where
  pub chat_rate_count : ℕ
  pub chat_rate_time : ℕ
  pub chat_mute_time : ℕ
  pub chat_msg_history : ℕ
  pub mods_mute : Bool

-- A user's name is a shared cell: `chat_message->username = user->username` shares it.
pub record ChatMessage : Type 0 where
  pub username : ℕ
  pub message : Bytes
  pub timestamp : ℕ

pub record Chat : Type 0 where
  pub history : Ring ChatMessage
  pub ip : ℕ → ChatData
  pub text : ℕ → Bytes

-- What the handlers read of a user, and the users that are connected.
pub record User : Type 0 where
  pub id : ℕ
  pub ip : ℕ
  pub rank : Rank
  pub username : Option ℕ

abbrev pub Outbox : Type 0
Outbox = List (ℕ × Bytes)

unfoldable pub send_all : List ℕ → Bytes → Outbox
send_all [] s = []
send_all (u ∷ us) s = (u, s) ∷ send_all us s

abbrev pub max_chat_msg_len : ℕ
max_chat_msg_len = 100

-- `strlen` and the constructor of a string stop at the first zero byte.
unfoldable pub c_str : Bytes → Bytes
c_str [] = []
c_str (c ∷ s) = if c == 0 then [] else c ∷ c_str s

-- `MuteUser`: the notice gives its own length by hand.
unfoldable pub mute_notice : Config → Bool → Bytes
mute_notice g permanent =
    let mute_time = to_string g.chat_mute_time in
    codes "4.chat,0.,"
    ++ (if permanent
        then to_string 20 ++ (codes ".You have been muted" ++ (codes "." ++ codes ";"))
        else to_string (length mute_time + 20 + 6 + 10 - 3)
          ++ (codes ".You have been muted"
              ++ (codes " for " ++ (mute_time ++ (codes " seconds." ++ codes ";")))))

unfoldable pub mute_user : Config → ℕ → User → Bool → Chat → Chat × Outbox
unfolding mute_notice
mute_user g now u permanent s =
    let d = record (s.ip u.ip) {
      last_chat_msg = now;
      chat_muted = if permanent then Muted.perm_mute else Muted.temp_mute;
    } in
    (record s { ip = update s.ip u.ip d }, (u.id, mute_notice g permanent) ∷ [])

unfoldable pub unmute_user : User → Chat → Chat × Outbox
unmute_user u s = (
  record s { ip = update s.ip u.ip (record (s.ip u.ip) { chat_muted = Muted.unmuted }) },
  (u.id, codes "4.chat,0.," ++ (to_string 22 ++ (codes ".You have been unmuted." ++ codes ";")))
      ∷ [],
)

-- The first test: `none` where the user is muted and stays so.
unfoldable pub check_muted : Config → ℕ → ChatData → Option ChatData
check_muted g now d = elim d.chat_muted [
  | unmuted ↦ some d
  | temp_mute ↦
      if leb (d.last_chat_msg + g.chat_mute_time) now
      then some (record d { chat_muted = Muted.unmuted })
      else none
  | perm_mute ↦ none
]

-- Who is muted for flooding.
unfoldable pub is_limited : Config → Rank → Bool
is_limited g unregistered = true
is_limited g registered = false
is_limited g admin = false
is_limited g moderator = not g.mods_mute

-- The rate limit: the data written, and whether the user is to be muted. `++` wraps in a `uint8_t`.
unfoldable pub count_message : Config → ℕ → Rank → ChatData → ChatData × Bool
unfolding is_limited
count_message g now r d =
    let counted = record d { chat_msg_count = (d.chat_msg_count + 1) % 256 } in
    if g.chat_rate_count == 0 || g.chat_rate_time == 0
    then (d, false)
    else if ltb now (d.last_chat_msg + g.chat_rate_time)
    then (counted, leb g.chat_rate_count counted.chat_msg_count && is_limited g r)
    else (record d { chat_msg_count = 0; last_chat_msg = now }, false)

unfoldable pub chat_instr : Bytes → Bytes → Bytes
chat_instr name msg = codes "4.chat," ++ (element name ++ (b',' ∷ (element msg ++ b';' ∷ [])))

-- A message that has passed the limits.
unfoldable pub publish : Config → ℕ → List ℕ → ℕ → Bytes → Chat → Chat × Outbox
unfolding send_all chat_instr
publish g now connections cell arg s =
    let msg = encode_html_string arg in
    let m : ChatMessage = record { username = cell; message = msg; timestamp = now } in
    if length arg == 0 || ltb max_chat_msg_len (length arg)
    then (s, [])
    else if length msg == 0
    then (s, [])
    else (
      record s { history = append g.chat_msg_history m s.history },
      send_all connections (chat_instr (s.text cell) msg),
    )

-- Behind the first test, with the data of the IP address as it leaves it.
unfoldable pub limit_rate : Config → ℕ → List ℕ → User → ℕ → Bytes → ChatData → Chat → Chat × Outbox
unfolding count_message publish mute_user
limit_rate g now connections u cell arg d s =
    let (d', over) = count_message g now u.rank d in
    let s' = record s { ip = update s.ip u.ip d' } in
    if over then mute_user g now u false s' else publish g now connections cell (c_str arg) s'

unfoldable pub on_chat_instruction : Config → ℕ → List ℕ → User → List Bytes → Chat → Chat × Outbox
unfolding limit_rate check_muted
on_chat_instruction g now connections u [] s = (s, [])
on_chat_instruction g now connections u (x ∷ y ∷ args) s = (s, [])
on_chat_instruction g now connections u (arg ∷ []) s = elim u.username [
  | none ↦ (s, [])
  | some cell ↦ elim (check_muted g now (s.ip u.ip)) [
    | none ↦ (s, [])
    | some d ↦ limit_rate g now connections u cell arg d s
  ]
]

-- `AppendChatMessage` and `SendChatHistory`: the names are those that the cells hold now.
unfoldable pub append_messages : (ℕ → Bytes) → List ChatMessage → Bytes
append_messages text [] = []
append_messages text (m ∷ ms) =
    b',' ∷ (element (text m.username) ++ (b',' ∷ (element m.message ++ append_messages text ms)))

unfoldable pub send_chat_history : Config → ℕ → Chat → Outbox
unfolding append_messages
send_chat_history g u s =
    if s.history.count == 0
    then []
    else (
      u,
      codes "4.chat"
          ++ (append_messages s.text (messages g.chat_msg_history s.history) ++ b';' ∷ []),
    )
      ∷ []
