-- ===== src/Admin/Login.antt =====
-- Logging in and out in `OnAdminInstruction` of src/CollabVM.cpp. A call of another part of the
-- program is a value of `Call`, in the order of the calls.
use collab_vm_server.Prelude.{
  ℕ, Bool, true, false, not, ◌&&◌, Option, none, some, List, [], ◌∷◌, ◌++◌, Bytes, codes, to_string,
  mem, ◌==◌, if◌then◌else◌, length, update, equal,
}
use collab_vm_server.Wire.{element}
use collab_vm_server.Chat.Instruction.{Rank}
use collab_vm_server.Users.Rename.{is_own}
use collab_vm_server.Admin.{Config, Sessions}

-- What the handler reads: of the users, who is connected, in which VM, and their names and
-- addresses; of the VMs, those that run, those stored, and who views each.
pub record Env : Type 0 where
  pub connections : List ℕ
  pub vm_controller : ℕ → Option Bytes
  pub name : ℕ → Option Bytes
  pub ip : ℕ → Bytes
  pub vm_controllers : List Bytes
  pub virtual_machines : List Bytes
  pub viewers : Bytes → List ℕ

-- A message, or a call of another part: VMs and administrators' text by name, users by number.
pub data Call : Type 0 where
  sends : ℕ → Bytes → Call
  sends_online_users sends_settings : ℕ → Call
  performs_config : ℕ → Bytes → Call
  sends_monitor_command : ℕ → Bytes → Bytes → Call
  creates_controller : Bytes → Call
  stops restores powers_off resets restarts : Bytes → Call
  executes : Bytes → Call
  removes_connection : ℕ → Call
  skips_vote : Bytes → Bool → Call
  mutes : ℕ → Bool → Call
  unmutes : ℕ → Call
  ends_turn : Bytes → ℕ → Call
  clears_turns : Bytes → Call
  renames : ℕ → Bytes → Option Bytes → Call
  takes_turn : Bytes → ℕ → Call

abbrev pub login_failed : Bytes
login_failed = codes "5.admin,1.0,1.0;"

abbrev pub not_found : Bytes
not_found = codes "5.admin,1.0,1.2;"

abbrev pub result_true : Bytes
result_true = codes "5.admin,1.1,15.{\"result\":true};"

-- The viewers under another name are told of a user's new rank.
unfoldable pub rank_notices : Env → Bytes → Bytes → List ℕ → List Call
rank_notices e own instr [] = []
rank_notices e own instr (v ∷ vs) =
    let rest = rank_notices e own instr vs in
    if is_own (e.name v) own then rest else sends v instr ∷ rest

-- `rank` is the number as it stands in the literal.
unfoldable pub adduser_instr : Bytes → ℕ → Bytes
adduser_instr name rank =
    codes "7.adduser,1.1," ++ (element name ++ (codes ",1." ++ (rank ∷ b';' ∷ [])))

unfoldable pub announce_rank : Env → ℕ → ℕ → List Call
unfolding rank_notices adduser_instr
announce_rank e u rank = elim (e.vm_controller u) [
  | none ↦ []
  | some vm ↦ elim (e.name u) [
    | none ↦ []
    | some own ↦
        rank_notices e own (adduser_instr own rank) (e.viewers vm) ++ sends_online_users u ∷ []
  ]
]

-- `admin_connections_.erase(user)`.
unfoldable pub leave : ℕ → List ℕ → List ℕ
leave u [] = []
leave u (v ∷ vs) = let rest = leave u vs in if v == u then rest else v ∷ rest

unfoldable pub enter : ℕ → List ℕ → List ℕ
enter u vs = if mem u vs then vs else u ∷ vs

unfoldable pub log_out : Env → ℕ → Sessions → Sessions × List Call
unfolding announce_rank leave
log_out e u s = (
  record s {
    rank = update s.rank u Rank.unregistered;
    admin_connected = update s.admin_connected u false;
    admin_connections = leave u s.admin_connections;
  },
  sends u (codes "5.admin,1.0,1.4;") ∷ announce_rank e u b'0',
)

unfoldable pub log_in : Env → ℕ → Sessions → Sessions × List Call
unfolding announce_rank enter
log_in e u s = (
  record s {
    rank = update s.rank u Rank.admin;
    admin_connected = update s.admin_connected u true;
    admin_connections = enter u s.admin_connections;
  },
  sends u (codes "5.admin,1.0,1.1;") ∷ announce_rank e u b'2',
)

unfoldable pub log_in_moderator : Config → Env → ℕ → Sessions → Sessions × List Call
unfolding announce_rank
log_in_moderator g e u s = (
  record s { rank = update s.rank u Rank.moderator },
  sends u (codes "5.admin,1.0,1.3," ++ (element (to_string g.mod_perms) ++ b';' ∷ []))
      ∷ announce_rank e u b'3',
)

-- `args` are those after the opcode.
unfoldable pub authenticate : Config → Env → ℕ → List Bytes → Sessions → Sessions × List Call
unfolding log_in
authenticate g e u [] s = (s, [])
authenticate g e u (id ∷ []) s =
    if not (length g.admin_session_id == 0) && equal id g.admin_session_id
    then log_in e u s
    else (s, sends u login_failed ∷ [])
authenticate g e u (id ∷ x ∷ args) s = (s, [])

unfoldable pub check_password : Config → Env → ℕ → List Bytes → Sessions → Sessions × List Call
unfolding log_in log_in_moderator
check_password g e u (pwd ∷ []) s =
    if equal pwd g.master_password
    then log_in e u s
    else if equal pwd g.mod_password && g.mod_enabled
    then log_in_moderator g e u s
    else (s, sends u login_failed ∷ [])
check_password g e u [] s = (s, sends u login_failed ∷ [])
check_password g e u (x ∷ y ∷ args) s = (s, sends u login_failed ∷ [])
