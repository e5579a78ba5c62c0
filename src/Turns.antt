-- ===== src/Turns.antt =====
-- Turns of src/VMControllers/VMController.cpp (`TurnRequest`, `NextTurn`, `ClearTurnQueue`,
-- `EndTurn`) and the turn instructions of src/CollabVM.cpp. One reading of the clock, in
-- milliseconds, is an argument of each call.
pub mod Messages
pub mod Inv
pub mod Line
use collab_vm_server.Prelude.{
  ℕ, ◌+◌, ◌-◌, ◌*◌, ◌%◌, ◌^◌, Bool, true, false, not, ◌&&◌, ◌||◌, Option, none, some, List, [], ◌∷◌,
  ◌++◌, Bytes, codes, to_string, ◌==◌, if◌then◌else◌, length, update, mem, erase, is,
}
use collab_vm_server.Wire.{element}

-- An Asio timer: when it expires, and whether a callback waits for that.
pub record Timer : Type 0 where
  pub deadline : ℕ
  pub armed : Bool

-- What the calls read: the settings, the hypervisor's state, the clock, the users that view the
-- VM in the order of its list, and the users' names.
pub record Env : Type 0 where
  pub running : Bool
  pub turns_enabled : Bool
  pub turn_time : ℕ
  pub now : ℕ
  pub viewers : List ℕ
  pub name : ℕ → Bytes

-- `waiting` is the field `waiting_turn` of the users.
pub record Turns : Type 0 where
  pub queue : List ℕ
  pub current : Option ℕ
  pub waiting : ℕ → Bool
  pub timer : Timer

-- Messages, with the user that each is sent to.
abbrev pub Outbox : Type 0
Outbox = List (ℕ × Bytes)

-- `expires_from_now(seconds(TurnTime))` and `async_wait`.
abbrev pub start : Env → Timer
start e = record { deadline = e.now + e.turn_time * 1000; armed = true }

-- The time left, as it arrives in a `uint32_t`: negative once the timer has expired.
unfoldable pub remaining : Env → Timer → ℕ
remaining e t = (t.deadline % 2 ^ 32 + (2 ^ 32 - e.now % 2 ^ 32)) % 2 ^ 32

unfoldable pub send_all : List ℕ → Bytes → Outbox
send_all [] s = []
send_all (u ∷ us) s = (u, s) ∷ send_all us s

-- `, length . name` of each user in the queue.
unfoldable pub names : Env → List ℕ → Bytes
names e [] = []
names e (u ∷ q) = b',' ∷ (element (e.name u) ++ names e q)

unfoldable pub users_list : Env → List ℕ → ℕ → Bytes
users_list e q current =
    element (to_string (length q + 1))
    ++ (b',' ∷ (element (e.name current) ++ (names e q ++ b';' ∷ [])))

unfoldable pub turn_instr : Env → List ℕ → ℕ → ℕ → Bytes
turn_instr e q current time =
    codes "4.turn," ++ (element (to_string time) ++ (b',' ∷ users_list e q current))

-- `s.replace(s.length() - 1, 1, 1, c)`.
unfoldable pub replace_last : ℕ → Bytes → Bytes
replace_last c [] = []
replace_last c (x ∷ []) = c ∷ []
replace_last c (x ∷ y ∷ s) = x ∷ replace_last c (y ∷ s)

-- The loop over the queue: each user is told the time until their turn.
unfoldable pub send_waiting : Env → Bytes → List ℕ → ℕ → Outbox
send_waiting e instr [] wait = []
send_waiting e instr (u ∷ q) wait =
    (u, instr ++ (element (to_string wait) ++ b';' ∷ []))
    ∷ send_waiting e instr q ((wait + e.turn_time * 1000) % 2 ^ 32)

-- The users that neither wait nor have the turn.
unfoldable pub send_spectators : (ℕ → Bool) → ℕ → List ℕ → Bytes → Outbox
send_spectators waiting current [] s = []
send_spectators waiting current (u ∷ us) s =
    let rest = send_spectators waiting current us s in
    if waiting u || u == current then rest else (u, s) ∷ rest

-- `BroadcastTurnInfo` where somebody has the turn; it clears that user's flag.
unfoldable pub broadcast_turn : Env → Turns → ℕ → ℕ → Turns × Outbox
unfolding turn_instr send_waiting send_spectators replace_last
broadcast_turn e t current time =
    let instr = turn_instr e t.queue current time in
    let t' = record t { waiting = update t.waiting current false } in
    let waits = send_waiting e (replace_last b',' instr) t.queue time in
    (t', (current, instr) ∷ (waits ++ send_spectators t'.waiting current e.viewers instr))

unfoldable pub broadcast_turn_info : Env → Turns → ℕ → Turns × Outbox
unfolding broadcast_turn send_all
broadcast_turn_info e t time = elim t.current [
  | none ↦ (t, send_all e.viewers (codes "4.turn,1.0,1.0;"))
  | some u ↦ broadcast_turn e t u time
]

-- The search for a waiting user in the queue, which erases one place and clears the flag.
unfoldable pub leave_queue : ℕ → Turns → Turns
leave_queue u t =
    if t.waiting u && mem u t.queue
    then record t { queue = erase u t.queue; waiting = update t.waiting u false }
    else t

-- The user takes a free turn, joins the queue, or takes the turn over from its holder.
unfoldable pub enter : Env → ℕ → Bool → Turns → Turns
enter e u jack t = elim t.current [
  | none ↦ record t { current = some u; timer = start e }
  | some v ↦
      if not jack
      then record t { queue = t.queue ++ u ∷ []; waiting = update t.waiting u true }
      else record t {
        queue = v ∷ t.queue;
        waiting = update t.waiting v true;
        current = some u;
        timer = start e;
      }
]

unfoldable pub refused : Env → ℕ → Bool → Bool → Turns → Bool
refused e u jack staff t =
    not e.running
    || (not e.turns_enabled && not staff)
    || (t.waiting u && not jack)
    || is t.current u

unfoldable pub turn_request : Env → ℕ → Bool → Bool → Turns → Turns × Outbox
unfolding refused
turn_request e u jack staff t =
    let t' = enter e u jack (leave_queue u t) in
    if refused e u jack staff t then (t, []) else broadcast_turn_info e t' (remaining e t'.timer)

-- The head of the queue gets the turn, or nobody has it.
unfoldable pub advance : Env → List ℕ → Turns → Turns
advance e [] t = record t { current = none }
advance e (u ∷ q) t = record t {
  queue = q;
  current = some u;
  waiting = update t.waiting u false;
  timer = start e;
}

-- The time that is announced: 0 when nobody has the turn.
abbrev pub announced : Env → Turns → ℕ
announced e t = elim t.current [ none ↦ 0 | some u ↦ remaining e t.timer ]

unfoldable pub next_turn : Env → Turns → Turns × Outbox
next_turn e t = let t' = advance e t.queue t in broadcast_turn_info e t' (announced e t')

unfoldable pub clear_flags : List ℕ → (ℕ → Bool) → ℕ → Bool
clear_flags [] waiting = waiting
clear_flags (u ∷ q) waiting = clear_flags q (update waiting u false)

-- The timer goes on.
unfoldable pub clear_turn_queue : Env → Turns → Turns × Outbox
clear_turn_queue e t =
    broadcast_turn_info e
      (record t { queue = []; current = none; waiting = clear_flags t.queue t.waiting }) 0

abbrev pub cancel : Timer → Timer
cancel t = record t { armed = false }

-- The end of a turn that the user holds.
unfoldable pub give_up : Env → ℕ → Turns → Turns
unfolding advance
give_up e u t =
    if is t.current u then advance e t.queue (record t { timer = cancel t.timer }) else t

unfoldable pub end_turn : Env → ℕ → Turns → Turns × Outbox
unfolding leave_queue give_up
end_turn e u t =
    let left = t.waiting u && mem u t.queue in
    let t' = leave_queue u t in
    let t'' = give_up e u t' in
    if left || is t'.current u then broadcast_turn_info e t'' (announced e t'') else (t'', [])
