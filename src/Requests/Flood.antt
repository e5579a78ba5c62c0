-- ===== src/Requests/Flood.antt =====
-- The rate limit of `OnTurnInstruction` in src/CollabVM.cpp.
use collab_vm_server.Prelude.{
  ℕ, ◌⊎◌, ◌+◌, ◌-◌, ◌≤◌, ◌<◌, ◌≡◌, inl, inr, true, false, ◌&&◌, Option, none, some, List, [], ◌∷◌,
  Bytes, arith, if◌then◌else◌, Bool-cases, All,
}
use collab_vm_server.Requests.{
  TurnData, Config, User, Request, check_turn_fixed, count_turn, on_turn_instruction,
}

-- A turn instruction: when it arrives, from whom, and its arguments.
abbrev pub Arrival : Type 0
Arrival = ℕ × User × List Bytes

abbrev pub one : Option Request → ℕ
one none = 0
one (some r) = 1

-- How many of the instructions of an address reach a controller.
abbrev pub passed : Config → List Arrival → TurnData → ℕ
passed g [] d = 0
passed g ((now, u, args) ∷ es) d =
    let (d', r) = on_turn_instruction g now u args d in one r + passed g es d'

-- Where the limit can be reached, and a mute outlasts the window.
abbrev pub IsStrict : Config → Type 0
IsStrict g =
    (0 < g.turn_rate_count)
    × (g.turn_rate_count < 256)
    × (0 < g.turn_rate_time)
    × (g.turn_rate_time ≤ g.turn_mute_time)

abbrev pub Within : Config → ℕ → Arrival → Type 0
Within g t0 (now, u, args) = (t0 ≤ now) × (now < t0 + g.turn_rate_time)

-- How many the data still let through.
abbrev allowance : Config → TurnData → ℕ
allowance g d = if d.turn_fixed then 0 else g.turn_rate_count - d.turn_count

abbrev Counting : Config → ℕ → TurnData → Type 0
Counting g t0 d = (t0 ≤ d.last_turn) × ((d.turn_fixed ≡ true) ⊎ (d.turn_count < g.turn_rate_count))

abbrev Paid : Config → ℕ → TurnData → TurnData × Option Request → Type 0
Paid g t0 d (d', r) = Counting g t0 d' × (one r + allowance g d' ≤ allowance g d)

-- Within the window the instruction is counted, or reaches the limit.
count_turn-lem :
    (g : Config) (t0 now : ℕ) (d : TurnData)
    → IsStrict g
    → t0 ≤ now
    → now < t0 + g.turn_rate_time
    → t0 ≤ d.last_turn
    → d.turn_fixed ≡ false
    → d.turn_count < g.turn_rate_count
    → (t0 ≤ (count_turn g now d).last_turn)
      × (((count_turn g now d).turn_fixed ≡ true)
          ⊎ (((count_turn g now d).turn_fixed ≡ false)
              × ((count_turn g now d).turn_count ≡ d.turn_count + 1)
              × (d.turn_count + 1 < g.turn_rate_count)))
unfolding count_turn
count_turn-lem g t0 now d st a b l f c = (ground arith, ground arith)

check_turn_fixed-lem :
    (g : Config) (t0 now : ℕ) (d : TurnData)
    → IsStrict g
    → now < t0 + g.turn_rate_time
    → t0 ≤ d.last_turn
    → check_turn_fixed g now d ≡ (if d.turn_fixed then none else some d)
unfolding check_turn_fixed
check_turn_fixed-lem g t0 now d st b l = ground arith

on_turn-Paid :
    (g : Config) (t0 : ℕ) (e : Arrival) (d : TurnData)
    → IsStrict g
    → Within g t0 e
    → Counting g t0 d
    → Paid g t0 d (on_turn_instruction g e.0 e.1 e.2 d)
unfolding on_turn_instruction
on_turn-Paid g t0 (now, u, args) d st (a, b) (l, c) = elim (Bool-cases d.turn_fixed) [
  | inl f ↦
      let q = check_turn_fixed-lem g t0 now d st b l in
      rw (q, f, on_turn_instruction) ((l, c), ground arith)
  | inr f ↦
      let q = check_turn_fixed-lem g t0 now d st b l in
      let k = count_turn-lem g t0 now d st a b l f (ground arith) in
      elim (Bool-cases (u.viewing && u.named)) [
        | inl v ↦ rw (q, f, v, on_turn_instruction) ((a, ground arith), ground arith)
        | inr v ↦ rw (q, f, v, on_turn_instruction) ((ground arith, ground arith), ground arith)
      ]
]

passed-Paid :
    (g : Config) (t0 : ℕ) (es : List Arrival) (d : TurnData)
    → IsStrict g
    → All (Within g t0) es
    → Counting g t0 d
    → passed g es d ≤ allowance g d
passed-Paid g t0 [] d st w c = omega arith
passed-Paid g t0 ((now, u, args) ∷ es) d st w c =
    let p = on_turn-Paid g t0 (now, u, args) d st w.0 c in
    omega (arith, p.1, passed-Paid g t0 es (on_turn_instruction g now u args d).0 st w.1 p.0)

-- Where the limit is from 1 to 255 and a mute lasts at least as long as the window of the rate
-- limit, which is not 0: of the turn instructions of an address that is not kept from turns and is
-- below the limit, those that arrive within the window after its last turn, no more reach a
-- controller than the limit's count leaves.
pub passed-bound :
    (g : Config) (es : List Arrival) (d : TurnData)
    → IsStrict g
    → All (Within g d.last_turn) es
    → d.turn_fixed ≡ false
    → d.turn_count < g.turn_rate_count
    → passed g es d ≤ g.turn_rate_count - d.turn_count
passed-bound g es d st w f c =
    let b = passed-Paid g d.last_turn es d st w (omega arith, inr c) in
    let q : allowance g d ≡ g.turn_rate_count - d.turn_count = ground arith in omega (arith, b, q)
