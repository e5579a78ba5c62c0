-- ===== src/Processing.antt =====
-- The processing thread of src/CollabVM.cpp: `ProcessingThread` with the queue of actions that
-- `PostAction` fills, `SendWSMessage` and `UpdateVMStatus`, and in Processing.Actions what the thread
-- does for each action, and `Stop`. A controller is known by a
-- number, as a user is. A call of another part is a value, such as `parses` for `ParseInstruction`.
pub mod Actions
pub mod Queue
pub mod Growth
pub mod Order
pub mod Marked
pub mod Kept
pub mod Connections
pub mod Reports
pub mod Shutdown
pub mod Stop
use collab_vm_server.Prelude.{
  ℕ, ◌+◌, min, Bool, true, false, not, ◌&&◌, ◌||◌, Option, none, some, List, [], ◌∷◌, ◌++◌, Bytes,
  codes, to_string, ltb, ◌==◌, if◌then◌else◌, length, update, equal, mem, erase,
}
use collab_vm_server.Wire.{element}
use collab_vm_server.Vms.{Agent, Vm, StopReason, restart, append_vm_actions}

-- `VMController::ControllerState`.
pub data ControllerState : Type 0 where
  stopped starting running stopping : ControllerState

-- The actions; an agent that connects says what it is and the longest filename that it takes.
pub data Action : Type 0 where
  message : ℕ → Option Bytes → Action
  add_connection remove_connection : ℕ → Action
  turn_change vote_ended : ℕ → Action
  agent_connect : ℕ → Agent → ℕ → Action
  agent_disconnect : ℕ → Action
  keep_alive update_thumbnails shutdown : Action
  vm_thumbnail : ℕ → Option Bytes → Action
  vm_state_change : ℕ → ControllerState → Action
  vm_clean_up : ℕ → Action

-- What the thread asks of the other parts, and the messages that it sends.
pub data Call : Type 0 where
  parses sends : ℕ → Bytes → Call
  removes closes : ℕ → Call
  next_turn ends_vote starts stops cleans_up clears_turns updates_thumbnail : ℕ → Call

-- `keep_alive_timer` is whether a callback waits for the timer; `vm_controllers` is the map from a
-- name to a controller, whose fields are in `vm`; `thread_running` is `process_thread_running_`.
pub record Server : Type 0 where
  pub process_queue : List Action
  pub connections : List ℕ
  pub connected : ℕ → Bool
  pub keep_alive_timer : Bool
  pub vm_controllers : List (Bytes × ℕ)
  pub vm : ℕ → Vm
  pub admin_connections : List ℕ
  pub is_stopping : Bool
  pub thread_running : Bool

-- What a round reads: the clock in seconds, the users' last `nop`, which sends succeed, which
-- handles have not expired; and what arrives during it: the actions that the other threads and the
-- called parts post, and whether the keep-alive timer expires. The last three are what the instruction
-- of the round does, if it has one: the controllers that it creates, with their names, what it makes
-- of the fields of each controller, and the connections of the panel after it.
pub record Env : Type 0 where
  pub now : ℕ
  pub last_nop : ℕ → ℕ
  pub reachable : ℕ → Bool
  pub open_handle : ℕ → Bool
  pub posts : List Action
  pub timer_expires : Bool
  pub new_controllers : List (Bytes × ℕ)
  pub edited : ℕ → Vm → Vm
  pub panel_connections : List ℕ

abbrev pub keep_alive_timeout : ℕ
keep_alive_timeout = 15

unfoldable pub post_action : Action → Server → Server
post_action a s = record s { process_queue = s.process_queue ++ a ∷ [] }

-- A user that cannot be reached is to be removed.
unfoldable pub send_ws_message : Env → ℕ → Bytes → Server → Server × List Call
unfolding post_action
send_ws_message e u text s =
    if e.reachable u
    then (s, sends u text ∷ [])
    else if s.connected u
    then (post_action (remove_connection u) s, [])
    else (s, [])

unfoldable pub send_each : Env → List ℕ → Bytes → Server → Server × List Call
unfolding send_ws_message
send_each e [] text s = (s, [])
send_each e (u ∷ us) text s =
    let (s', cs) = send_ws_message e u text s in
    let (s'', ds) = send_each e us text s' in (s'', cs ++ ds)

abbrev pub state_number : ControllerState → ℕ
state_number stopped = 0
state_number starting = 1
state_number running = 2
state_number stopping = 3

unfoldable pub status_instr : Bytes → ControllerState → Bytes
status_instr name state =
    codes "5.admin,1.3,"
    ++ (element name ++ (b',' ∷ (element (to_string (state_number state)) ++ b';' ∷ [])))

unfoldable pub update_vm_status : Env → ℕ → ControllerState → Server → Server × List Call
unfolding send_each status_instr
update_vm_status e c state s =
    send_each e s.admin_connections (status_instr (s.vm c).settings.name state) s
