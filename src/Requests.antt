-- ===== src/Requests.antt =====
-- The instructions that a user sends to the VM that they view: `OnTurnInstruction`,
-- `OnVoteInstruction`, `OnMouseInstruction`, `OnKeyInstruction` and `OnNopInstruction` of
-- src/CollabVM.cpp. Times are in seconds.
pub mod Flood
pub mod Joining
use collab_vm_server.Prelude.{
  ℕ, ◌+◌, ◌%◌, Bool, true, false, not, ◌&&◌, ◌||◌, Option, none, some, List, [], ◌∷◌, Bytes, ltb,
  leb, ◌==◌, if◌then◌else◌,
}
use collab_vm_server.Chat.Instruction.{Rank, unregistered, registered, admin, moderator}
use collab_vm_server.Turns.{Env, Turns, Outbox, turn_request, end_turn}

-- The fields of `IPData` that limit turns, and the settings; `mods_turn` is bit 64 of `ModPerms`.
pub record TurnData : Type 0 where
  pub last_turn : ℕ
  pub turn_count : ℕ
  pub turn_fixed : Bool

pub record Config : Type 0 where
  pub turn_rate_count : ℕ
  pub turn_rate_time : ℕ
  pub turn_mute_time : ℕ
  pub mods_turn : Bool

-- The user: whether they view a VM, have a name, and are connected to the panel, and whether their
-- display client is there.
pub record User : Type 0 where
  pub id : ℕ
  pub rank : Rank
  pub viewing : Bool
  pub named : Bool
  pub admin_connected : Bool
  pub has_client : Bool

-- What the VM's controller is asked.
pub data Request : Type 0 where
  ends_turn : Request
  requests_turn : Bool → Request

-- `none` where the user is kept from taking turns.
unfoldable pub check_turn_fixed : Config → ℕ → TurnData → Option TurnData
check_turn_fixed g now d =
    if not d.turn_fixed
    then some d
    else if leb (d.last_turn + g.turn_mute_time) now
    then some (record d { turn_fixed = false })
    else none

-- The instruction that reaches the limit is still carried out.
unfoldable pub count_turn : Config → ℕ → TurnData → TurnData
count_turn g now d =
    let counted = record d { turn_count = (d.turn_count + 1) % 256 } in
    if not (ltb now (d.last_turn + g.turn_rate_time))
    then record d { turn_count = 0 }
    else if leb g.turn_rate_count counted.turn_count
    then record counted { last_turn = now; turn_fixed = true }
    else counted

abbrev pub is_staff : Config → Rank → Bool
is_staff g unregistered = false
is_staff g registered = false
is_staff g admin = true
is_staff g moderator = g.mods_turn

-- `args[0][0]`, of a C string.
abbrev pub begins : ℕ → Bytes → Bool
begins c [] = false
begins c (x ∷ s) = x == c

abbrev pub turn_call : Config → Rank → List Bytes → Request
turn_call g r [] = requests_turn (is_staff g r)
turn_call g r (arg ∷ []) = if begins b'0' arg then ends_turn else requests_turn (is_staff g r)
turn_call g r (x ∷ y ∷ args) = requests_turn (is_staff g r)

unfoldable pub on_turn_instruction :
    Config → ℕ → User → List Bytes → TurnData → TurnData × Option Request
unfolding check_turn_fixed count_turn
on_turn_instruction g now u args d = elim (check_turn_fixed g now d) [
  | none ↦ (d, none)
  | some d' ↦
      let d'' = count_turn g now d' in
      if u.viewing && u.named
      then (record d'' { last_turn = now }, some (turn_call g u.rank args))
      else (d'', none)
]

-- The call of the controller.
abbrev pub carry_out : Env → ℕ → Request → Turns → Turns × Outbox
carry_out e u ends_turn t = end_turn e u t
carry_out e u (requests_turn staff) t = turn_request e u false staff t

-- The vote that is passed on to `Vote`, if any.
unfoldable pub on_vote_instruction : User → List Bytes → Option Bool
on_vote_instruction u [] = none
on_vote_instruction u (arg ∷ []) = if u.viewing && u.named then some (begins b'1' arg) else none
on_vote_instruction u (x ∷ y ∷ args) = none

abbrev pub is_admin : Rank → Bool
is_admin unregistered = false
is_admin registered = false
is_admin admin = true
is_admin moderator = false

-- Whether a mouse or a key instruction reaches the VM; `has_turn` is `CurrentTurn() == user`.
unfoldable pub may_control : User → Bool → Bool
may_control u has_turn =
    u.viewing && (has_turn || is_admin u.rank || u.admin_connected) && u.has_client
