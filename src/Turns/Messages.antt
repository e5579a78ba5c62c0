-- ===== src/Turns/Messages.antt =====
-- The turn instructions that src/CollabVM.cpp sends are well formed.
use collab_vm_server.Prelude.{
  ℕ, ◌+◌, ◌*◌, ◌%◌, ◌^◌, ◌≡◌, refl, sym, ap, ◌∙◌, inl, inr, Bool, false, none, some, List, [], ◌∷◌,
  ◌++◌, map, Bytes, codes, to_string, length, append_assoc, if◌then◌else◌, ◌||◌, ◌==◌, ap₂, update,
  Bool-cases, Option-cases,
}
use collab_vm_server.Wire.Literals.{element-turn}
use collab_vm_server.Wire.{element, tail_elements, instruction}
use collab_vm_server.Turns.{
  Env, Turns, names, users_list, turn_instr, replace_last, send_waiting, send_spectators, send_all,
  broadcast_turn, broadcast_turn_info,
}

-- The fields of a turn instruction: the time, the number of users, and their names in order.
abbrev pub turn_fields : Env → List ℕ → ℕ → ℕ → List Bytes
turn_fields e q current time =
    to_string time ∷ to_string (length q + 1) ∷ e.name current ∷ map e.name q

names-tail : (e : Env) (q : List ℕ) → names e q ++ b';' ∷ [] ≡ tail_elements (map e.name q)
unfolding names tail_elements
names-tail e [] = refl
names-tail e (u ∷ q) = ap (◌∷◌ b',') (
    append_assoc (element (e.name u)) (names e q) (b';' ∷ [])
    ∙ ap (◌++◌ (element (e.name u))) (names-tail e q))

names-append :
    (e : Env) (q : List ℕ) (w : Bytes)
    → names e q ++ b',' ∷ (element w ++ b';' ∷ []) ≡ tail_elements (map e.name q ++ w ∷ [])
unfolding names tail_elements
names-append e [] w = refl
names-append e (u ∷ q) w = ap (◌∷◌ b',') (
    append_assoc (element (e.name u)) (names e q) _
    ∙ ap (◌++◌ (element (e.name u))) (names-append e q w))

pub turn_instr-instruction :
    (e : Env) (q : List ℕ) (c n : ℕ)
    → turn_instr e q c n ≡ instruction (codes "turn") (turn_fields e q c n)
unfolding turn_instr users_list instruction tail_elements
turn_instr-instruction e q c n = rw (element-turn, names-tail e q)

-- The instruction but for its semicolon.
turn_head : Env → List ℕ → ℕ → ℕ → Bytes
turn_head e q c n =
    codes "4.turn,"
    ++ (element (to_string n)
        ++ (b','
            ∷ (element (to_string (length q + 1)) ++ (b',' ∷ (element (e.name c) ++ names e q)))))

turn_instr-head :
    (e : Env) (q : List ℕ) (c n : ℕ) → turn_instr e q c n ≡ turn_head e q c n ++ b';' ∷ []
unfolding turn_instr users_list turn_head
turn_instr-head e q c n = simp append_assoc

replace_last-append : (c d : ℕ) (s : Bytes) → replace_last c (s ++ d ∷ []) ≡ s ++ c ∷ []
unfolding replace_last
replace_last-append c d [] = refl
replace_last-append c d (x ∷ []) = refl
replace_last-append c d (x ∷ y ∷ s) = ap (◌∷◌ x) (replace_last-append c d (y ∷ s))

-- What a waiting user is sent: the instruction with the time until their turn behind it.
waiting-instruction :
    (e : Env) (q : List ℕ) (c n w : ℕ)
    → replace_last b',' (turn_instr e q c n) ++ (element (to_string w) ++ b';' ∷ [])
      ≡ instruction (codes "turn") (turn_fields e q c n ++ to_string w ∷ [])
unfolding instruction tail_elements turn_head
waiting-instruction e q c n w =
    rw
      (
        turn_instr-head e q c n,
        replace_last-append b',' b';' (turn_head e q c n),
        element-turn,
        ← names-append e q (to_string w),
      )
      (simp append_assoc)

-- A report: for each recipient in order, the fields of the instruction.
abbrev pub Report : Type 0
Report = List (ℕ × List Bytes)

abbrev pub encode : ℕ × List Bytes → ℕ × Bytes
encode (u, fields) = (u, instruction (codes "turn") fields)

abbrev pub waiting_report : ℕ → List Bytes → List ℕ → ℕ → Report
waiting_report each fields [] wait = []
waiting_report each fields (u ∷ q) wait =
    (u, fields ++ to_string wait ∷ []) ∷ waiting_report each fields q ((wait + each) % 2 ^ 32)

abbrev pub spectator_report : (ℕ → Bool) → ℕ → List Bytes → List ℕ → Report
spectator_report waiting c fields [] = []
spectator_report waiting c fields (u ∷ us) =
    if waiting u || u == c
    then spectator_report waiting c fields us
    else (u, fields) ∷ spectator_report waiting c fields us

abbrev pub idle_report : List ℕ → Report
idle_report [] = []
idle_report (u ∷ us) = (u, codes "0" ∷ codes "0" ∷ []) ∷ idle_report us

abbrev pub turn_report : Env → Turns → ℕ → Report
turn_report e t n = elim t.current [
  | none ↦ idle_report e.viewers
  | some c ↦
      let fields = turn_fields e t.queue c n in
      (c, fields)
      ∷ (waiting_report (e.turn_time * 1000) fields t.queue n
          ++ spectator_report (update t.waiting c false) c fields e.viewers)
]

map-encode-append : (xs ys : Report) → map encode (xs ++ ys) ≡ map encode xs ++ map encode ys
map-encode-append [] ys = refl
map-encode-append (x ∷ xs) ys = ap (◌∷◌ (encode x)) (map-encode-append xs ys)

send_waiting-report :
    (e : Env) (q0 : List ℕ) (c n : ℕ) (q : List ℕ) (w : ℕ)
    → send_waiting e (replace_last b',' (turn_instr e q0 c n)) q w
      ≡ map encode (waiting_report (e.turn_time * 1000) (turn_fields e q0 c n) q w)
unfolding send_waiting
send_waiting-report e q0 c n [] w = refl
send_waiting-report e q0 c n (u ∷ q) w =
    ap₂ ◌∷◌ (ap (λ s. (u, s)) (waiting-instruction e q0 c n w))
      (send_waiting-report e q0 c n q ((w + e.turn_time * 1000) % 2 ^ 32))

send_spectators-report :
    (f : ℕ → Bool) (c : ℕ) (fields : List Bytes) (us : List ℕ)
    → send_spectators f c us (instruction (codes "turn") fields)
      ≡ map encode (spectator_report f c fields us)
unfolding send_spectators
send_spectators-report f c fields [] = refl
send_spectators-report f c fields (u ∷ us) = elim (Bool-cases (f u || u == c)) [
  | inl h ↦ rw (h, send_spectators) (send_spectators-report f c fields us)
  | inr h ↦
      rw (h, send_spectators)
        (ap (◌∷◌ (u, instruction (codes "turn") fields)) (send_spectators-report f c fields us))
]

nobody : codes "4.turn,1.0,1.0;" ≡ instruction (codes "turn") (codes "0" ∷ codes "0" ∷ [])
unfolding instruction tail_elements element to_string
nobody = refl

send_all-idle : (us : List ℕ) → send_all us (codes "4.turn,1.0,1.0;") ≡ map encode (idle_report us)
unfolding send_all
send_all-idle [] = refl
send_all-idle (u ∷ us) = ap₂ ◌∷◌ (ap (λ s. (u, s)) nobody) (send_all-idle us)

-- Every turn instruction that is sent is well formed, and carries these fields: to the holder of
-- the turn the time left, the number of users and their names in order; to each waiting user the
-- same and the time until their turn; to each user that views the VM and neither waits nor has
-- the turn the first fields; and two zeros to every viewer when nobody has the turn.
pub broadcast-report :
    (e : Env) (t : Turns) (n : ℕ) → (broadcast_turn_info e t n).1 ≡ map encode (turn_report e t n)
unfolding broadcast_turn_info broadcast_turn
broadcast-report e t n = elim (Option-cases t.current) [
  | inl h ↦ rw (h, broadcast_turn_info) (send_all-idle e.viewers)
  | inr (c, h) ↦
      rw (h, broadcast_turn_info)
        (ap₂ ◌∷◌ (ap (λ s. (c, s)) (turn_instr-instruction e t.queue c n)) (
          ap₂ ◌++◌ (send_waiting-report e t.queue c n t.queue n) (
            rw (turn_instr-instruction e t.queue c n) (
              send_spectators-report (update t.waiting c false) c (turn_fields e t.queue c n)
                e.viewers))
          ∙ sym (
              map-encode-append
                (waiting_report (e.turn_time * 1000) (turn_fields e t.queue c n) t.queue n) _)))
]
