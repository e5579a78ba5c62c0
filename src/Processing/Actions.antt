-- ===== src/Processing/Actions.antt =====
-- What `ProcessingThread` of src/CollabVM.cpp does for each action, its rounds, and `Stop`.
use collab_vm_server.Prelude.{
  ℕ, ◌+◌, min, Bool, true, false, not, ◌&&◌, ◌||◌, Option, none, some, List, [], ◌∷◌, ◌++◌, Bytes,
  codes, ltb, ◌==◌, if◌then◌else◌, length, update, equal, mem, erase,
}
use collab_vm_server.Settings.Store.{put_key}
use collab_vm_server.Vms.{Agent, StopReason, restart, append_vm_actions}
use collab_vm_server.Processing.{
  ControllerState, stopped, stopping, Action, message, add_connection, remove_connection,
  turn_change, vote_ended, agent_connect, agent_disconnect, keep_alive, update_thumbnails, shutdown,
  vm_thumbnail, vm_state_change, vm_clean_up, Call, parses, removes, closes, next_turn, ends_vote,
  starts, stops, cleans_up, clears_turns, updates_thumbnail, Server, Env, keep_alive_timeout,
  post_action, send_ws_message, send_each, update_vm_status,
}

-- The end of `RemoveConnection`; all else that it does is in the parts that it concerns.
unfoldable pub remove_connection_of : ℕ → Server → Server × List Call
remove_connection_of u s = (
  record s {
    admin_connections = erase u s.admin_connections;
    connected = update s.connected u false;
  },
  removes u ∷ [],
)

-- `CreateVMController` puts the controller in the map.
unfoldable pub create_controllers : List (Bytes × ℕ) → List (Bytes × ℕ) → List (Bytes × ℕ)
unfolding put_key
create_controllers [] m = m
create_controllers ((n, c) ∷ cs) m = create_controllers cs (put_key n c m)

-- What `ParseInstruction` leaves: of the fields of the server, its handlers change these.
unfoldable pub after_instruction : Env → Server → Server
unfolding create_controllers
after_instruction e s = record s {
  vm_controllers = create_controllers e.new_controllers s.vm_controllers;
  vm = λ c. e.edited c (s.vm c);
  admin_connections = e.panel_connections;
}

unfoldable pub on_message : Env → ℕ → Option Bytes → Server → Server × List Call
unfolding after_instruction
on_message e u none s = (s, [])
on_message e u (some bytes) s =
    if s.connected u then (after_instruction e s, parses u bytes ∷ []) else (s, [])

-- A set holds an element once; the timer starts with the first connection.
unfoldable pub on_add_connection : ℕ → Server → Server × List Call
unfolding mem
on_add_connection u s =
    let connections = if mem u s.connections then s.connections else u ∷ s.connections in
    (
      record s {
        connections = connections;
        connected = update s.connected u true;
        keep_alive_timer = s.keep_alive_timer || length connections == 1;
      },
      [],
    )

unfoldable pub on_remove_connection : ℕ → Server → Server × List Call
unfolding remove_connection_of erase
on_remove_connection u s =
    if s.connected u
    then remove_connection_of u (record s { connections = erase u s.connections })
    else (s, [])

-- `SendActionInstructions`.
unfoldable pub tell_actions : Env → ℕ → Server → Server × List Call
unfolding send_each append_vm_actions
tell_actions e c s =
    send_each e (s.vm c).users (codes "6.action,1." ++ append_vm_actions (s.vm c)) s

-- What an agent says of the VM, until it is gone.
unfoldable pub set_agent : ℕ → Agent → ℕ → Server → Server
set_agent c agent max_filename s = record s {
  vm = update s.vm c (record (s.vm c) {
    agent_connected = true;
    agent = agent;
    agent_max_filename = min (s.vm c).settings.upload_max_filename max_filename;
    agent_upload_in_progress = false;
  });
}

unfoldable pub clear_agent : ℕ → Server → Server
clear_agent c s = record s {
  vm = update s.vm c (record (s.vm c) {
    agent_connected = false;
    agent = record { os_name = []; service_pack = []; pc_name = []; username = [] };
    agent_upload_in_progress = false;
  });
}

unfoldable pub on_agent_connect : Env → ℕ → Agent → ℕ → Server → Server × List Call
unfolding tell_actions set_agent
on_agent_connect e c agent max_filename s = tell_actions e c (set_agent c agent max_filename s)

unfoldable pub on_agent_disconnect : Env → ℕ → Server → Server × List Call
unfolding tell_actions clear_agent
on_agent_disconnect e c s = tell_actions e c (clear_agent c s)

-- A user that has been silent for too long is dropped.
unfoldable pub drop_silent : Env → ℕ → Server → Server × List Call
unfolding remove_connection_of erase
drop_silent e u s =
    let dropped = record s { connections = erase u s.connections } in
    let (s', cs) = if s.connected u then remove_connection_of u dropped else (dropped, []) in
    (s', (if e.open_handle u then closes u ∷ [] else []) ++ cs)

unfoldable pub is_silent : Env → ℕ → Bool
is_silent e u = ltb (e.last_nop u + keep_alive_timeout) e.now

-- The loop over the connections that were there when it began.
unfoldable pub keep_alive_loop : Env → List ℕ → Server → Server × List Call
unfolding drop_silent is_silent send_ws_message
keep_alive_loop e [] s = (s, [])
keep_alive_loop e (u ∷ us) s =
    let (s', cs) =
      if is_silent e u then drop_silent e u s else send_ws_message e u (codes "3.nop;") s in
    let (s'', ds) = keep_alive_loop e us s' in (s'', cs ++ ds)

-- The timer goes on while there are connections.
unfoldable pub on_keep_alive : Env → Server → Server × List Call
unfolding keep_alive_loop
on_keep_alive e s =
    if length s.connections == 0
    then (s, [])
    else let (s', cs) = keep_alive_loop e s.connections s in
      (record s' { keep_alive_timer = s'.keep_alive_timer || not (length s'.connections == 0) }, cs)

-- `find` and `erase`; a map holds a key once.
unfoldable pub erase_controller : Bytes → List (Bytes × ℕ) → List (Bytes × ℕ)
erase_controller k [] = []
erase_controller k ((n, c) ∷ m) =
    if equal n k then erase_controller k m else (n, c) ∷ erase_controller k m

-- A controller that has stopped for good leaves the map; the last one to do so ends the loop.
unfoldable pub on_vm_stopped : Env → ℕ → Server → Server × List Call
unfolding erase_controller update_vm_status
on_vm_stopped e c s =
    let (s', cs) = update_vm_status e c stopped s in
    let left = erase_controller (s.vm c).settings.name s.vm_controllers in
    (
      record s' { vm_controllers = left; thread_running = not (s.is_stopping && length left == 0) },
      cs,
    )

abbrev pub is_restart : StopReason → Bool
is_restart restart = true
is_restart _ = false

unfoldable pub on_vm_state_change : Env → ℕ → ControllerState → Server → Server × List Call
unfolding on_vm_stopped update_vm_status
on_vm_state_change e c stopped s =
    if not s.is_stopping && is_restart (s.vm c).stop_reason
    then (s, starts c ∷ [])
    else on_vm_stopped e c s
on_vm_state_change e c stopping s =
    let (s', cs) = update_vm_status e c stopping s in (s', clears_turns c ∷ cs)
on_vm_state_change e c state s = update_vm_status e c state s

unfoldable pub close_all : Env → List ℕ → List Call
close_all e [] = []
close_all e (u ∷ us) = (if e.open_handle u then closes u ∷ [] else []) ++ close_all e us

-- Each controller of the map that runs is stopped.
unfoldable pub stop_all : Server → List (Bytes × ℕ) → List Call
stop_all s [] = []
stop_all s ((n, c) ∷ m) = (if (s.vm c).running then stops c ∷ [] else []) ++ stop_all s m

unfoldable pub on_shutdown : Env → Server → Server × List Call
unfolding close_all stop_all
on_shutdown e s =
    if length s.vm_controllers == 0
    then (record s { thread_running = false }, close_all e s.connections)
    else (s, close_all e s.connections ++ stop_all s s.vm_controllers)

unfoldable pub update_all : List (Bytes × ℕ) → List Call
update_all [] = []
update_all ((n, c) ∷ m) = updates_thumbnail c ∷ update_all m

-- The `switch` on the action.
unfoldable pub process : Env → Action → Server → Server × List Call
unfolding on_message on_add_connection on_remove_connection on_agent_connect on_agent_disconnect
    on_keep_alive on_vm_state_change on_shutdown update_all
process e (message u bytes) s = on_message e u bytes s
process e (add_connection u) s = on_add_connection u s
process e (remove_connection u) s = on_remove_connection u s
process e (turn_change c) s = (s, next_turn c ∷ [])
process e (vote_ended c) s = (s, ends_vote c ∷ [])
process e (agent_connect c agent max_filename) s = on_agent_connect e c agent max_filename s
process e (agent_disconnect c) s = on_agent_disconnect e c s
process e keep_alive s = on_keep_alive e s
process e update_thumbnails s = (s, update_all s.vm_controllers)
process e (vm_thumbnail c png) s =
    (record s { vm = update s.vm c (record (s.vm c) { thumbnail = png }) }, [])
process e (vm_state_change c state) s = on_vm_state_change e c state s
process e (vm_clean_up c) s = (s, cleans_up c ∷ [])
process e shutdown s = on_shutdown e s

-- What is posted during a round, and `TimerCallback` of the keep-alive timer.
unfoldable pub arrive : Env → Server → Server
unfolding post_action
arrive e s =
    let posted = record s { process_queue = s.process_queue ++ e.posts } in
    if e.timer_expires && s.keep_alive_timer
    then post_action keep_alive (record posted { keep_alive_timer = false })
    else posted

-- The action at the head of the queue; without one the thread waits.
unfoldable pub take_action : Env → List Action → Server → Server × List Call
unfolding process
take_action e [] s = (s, [])
take_action e (a ∷ q) s = process e a (record s { process_queue = q })

unfoldable pub round : Env → Server → Server × List Call
unfolding arrive take_action
round e s =
    if not s.thread_running
    then (s, [])
    else let (s', cs) = take_action e s.process_queue s in (arrive e s', cs)

unfoldable pub run : List Env → Server → Server × List Call
unfolding round
run [] s = (s, [])
run (e ∷ es) s = let (s', cs) = round e s in let (s'', ds) = run es s' in (s'', cs ++ ds)

-- The actions in the queue are dropped, and the timers are canceled.
unfoldable pub stop : Server → Server
stop s = if s.is_stopping then s else record s {
  is_stopping = true;
  keep_alive_timer = false;
  process_queue = if s.thread_running then shutdown ∷ [] else s.process_queue;
}

-- A round, or `Stop` on another thread between two rounds.
pub data Event : Type 0 where
  works : Env → Event
  stops_now : Event

unfoldable pub course : List Event → Server → Server
unfolding round stop
course [] s = s
course (works e ∷ es) s = course es (round e s).0
course (stops_now ∷ es) s = course es (stop s)
