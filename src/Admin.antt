-- ===== src/Admin.antt =====
-- The administrators' instruction: who may do what, in `OnAdminInstruction` of src/CollabVM.cpp. An
-- opcode is the number that the instruction gives; the arguments are C strings.
pub mod Gate
pub mod Login
pub mod Actions
pub mod Handler
pub mod Safety
pub mod Members
use collab_vm_server.Prelude.{
  ℕ, ◌+◌, ◌/◌, ◌%◌, ◌^◌, Bool, true, false, not, ◌&&◌, ◌||◌, Option, none, some, List, [], ◌∷◌,
  ◌++◌, Bytes, ltb, ◌==◌, if◌then◌else◌, length,
}
use collab_vm_server.Wire.{skip_space, sign, digits}
use collab_vm_server.Chat.Instruction.{Rank, unregistered, registered, admin, moderator}

-- `admin_opcodes_`.
abbrev pub stop : ℕ
stop = 0

abbrev pub sesh_id : ℕ
sesh_id = 1

abbrev pub master_pwd : ℕ
master_pwd = 2

abbrev pub get_settings : ℕ
get_settings = 3

abbrev pub set_settings : ℕ
set_settings = 4

abbrev pub qemu : ℕ
qemu = 5

abbrev pub start_controller : ℕ
start_controller = 6

abbrev pub stop_controller : ℕ
stop_controller = 7

abbrev pub restore_vm : ℕ
restore_vm = 8

abbrev pub reboot_vm : ℕ
reboot_vm = 9

abbrev pub reset_vm : ℕ
reset_vm = 10

abbrev pub restart_vm : ℕ
restart_vm = 11

abbrev pub ban_user : ℕ
ban_user = 12

abbrev pub force_vote : ℕ
force_vote = 13

abbrev pub mute_user : ℕ
mute_user = 14

abbrev pub kick_user : ℕ
kick_user = 15

abbrev pub end_user_turn : ℕ
end_user_turn = 16

abbrev pub clear_turn_queue : ℕ
clear_turn_queue = 17

abbrev pub rename_user : ℕ
rename_user = 18

abbrev pub user_ip : ℕ
user_ip = 19

abbrev pub force_take_turn : ℕ
force_take_turn = 20

-- The settings of src/Database/Config.h and the session's number.
pub record Config : Type 0 where
  pub master_password : Bytes
  pub mod_password : Bytes
  pub mod_enabled : Bool
  pub mod_perms : ℕ
  pub ban_command : Bytes
  pub admin_session_id : Bytes

-- The fields `user_rank` and `admin_connected` of the users, and the set `admin_connections_`.
pub record Sessions : Type 0 where
  pub rank : ℕ → Rank
  pub admin_connected : ℕ → Bool
  pub admin_connections : List ℕ

-- `std::stoi` of at most two bytes; a negative number is the opcode of nothing.
unfoldable pub parse_opcode : Bytes → Option ℕ
parse_opcode s =
    let (neg, r) = sign (skip_space s) in
    if ltb 2 (length s) then none else elim (digits r) [
      | none ↦ none
      | some (n, rest) ↦ if neg && not (n == 0) then none else some n
    ]

-- `ModPerms & 2^k`.
unfoldable pub has_perm : Config → ℕ → Bool
has_perm g k = (g.mod_perms / 2 ^ k) % 2 == 1

abbrev pub is_moderator : Rank → Bool
is_moderator unregistered = false
is_moderator registered = false
is_moderator admin = false
is_moderator moderator = true

-- What a moderator has no permission for.
unfoldable pub lacks : Config → ℕ → Bool
unfolding has_perm
lacks g op =
    (not (op == restore_vm) || not (has_perm g 0))
    && ((not (op == reset_vm) || not (has_perm g 1))
        && ((not (op == ban_user) || not (has_perm g 2))
            && ((not (op == force_vote) || not (has_perm g 3))
                && ((not (op == mute_user) || not (has_perm g 4))
                    && ((not (op == kick_user) || not (has_perm g 5))
                        && ((not (op == end_user_turn) || not (has_perm g 6))
                            && ((not (op == clear_turn_queue) || not (has_perm g 6))
                                && ((not (op == force_take_turn) || not (has_perm g 6))
                                    && ((not (op == rename_user) || not (has_perm g 7))
                                        && (not (op == user_ip) || not (has_perm g 8)))))))))))

-- The two tests before the `switch`.
unfoldable pub is_denied : Config → Rank → Bool → ℕ → Bool
unfolding lacks
is_denied g r connected op =
    (not connected
      && not (op == sesh_id)
      && not (op == master_pwd)
      && (not (is_moderator r) || not g.mod_enabled))
    || (is_moderator r
        && not (op == stop)
        && not (op == sesh_id)
        && not (op == master_pwd)
        && lacks g op)
