-- ===== src/Votes.antt =====
-- Votes of src/VMControllers/VMController.cpp (`Vote`, `EndVote`, `SkipVote`, `EndVoteCommonLogic`,
-- `RemoveUser`) and the vote instructions of src/CollabVM.cpp. The decision of an IP address is
-- the entry of this VM in its map `votes`, which holds `kNotVoted` where none was written.
pub mod Tally
pub mod Count
pub mod Inv
pub mod Reach
pub mod Messages
use collab_vm_server.Prelude.{
  ℕ, suc, ◌+◌, ◌-◌, ◌*◌, ◌/◌, ◌%◌, ◌^◌, Bool, true, false, not, ◌&&◌, ◌||◌, List, [], ◌∷◌, ◌++◌,
  Bytes, codes, to_string, ltb, leb, ◌==◌, if◌then◌else◌, length, update, mem,
}
use collab_vm_server.Wire.{element}

-- `VoteState` and `IPData::VoteDecision`.
pub data VoteState : Type 0 where
  idle voting cooling_down : VoteState

pub data Decision : Type 0 where
  not_voted yes_vote no_vote : Decision

-- What the calls read: the settings, the clock in milliseconds, the users that view the VM, the
-- users' names and addresses, and the addresses that the server knows.
pub record Env : Type 0 where
  pub votes_enabled : Bool
  pub vote_time : ℕ
  pub vote_cooldown_time : ℕ
  pub now : ℕ
  pub viewers : List ℕ
  pub name : ℕ → Bytes
  pub ip : ℕ → ℕ
  pub ips : List ℕ

-- `amount` and `limit` are the users' fields `voted_amount` and `voted_limit`.
pub record Votes : Type 0 where
  pub state : VoteState
  pub count_yes : ℕ
  pub count_no : ℕ
  pub deadline : ℕ
  pub decision : ℕ → Decision
  pub amount : ℕ → ℕ
  pub limit : ℕ → Bool

abbrev pub Outbox : Type 0
Outbox = List (ℕ × Bytes)

abbrev pub max_voted_amount : ℕ
max_voted_amount = 5

-- `++` and `--` of a `uint32_t`.
abbrev pub increment : ℕ → ℕ
increment n = (n + 1) % 2 ^ 32

abbrev pub decrement : ℕ → ℕ
decrement n = (n + 2 ^ 32 - 1) % 2 ^ 32

unfoldable pub send_all : List ℕ → Bytes → Outbox
send_all [] s = []
send_all (u ∷ us) s = (u, s) ∷ send_all us s

-- `BroadcastVoteInfo` and `SendVoteInfo` write the same fields.
unfoldable pub vote_info : Bool → ℕ → ℕ → ℕ → Bytes
vote_info vote_started time yes_votes no_votes =
    codes "4.vote,"
    ++ ((if vote_started then codes "1.0," else codes "1.1,")
        ++ (element (to_string time)
            ++ (b','
                ∷ (element (to_string yes_votes)
                    ++ (b',' ∷ (element (to_string no_votes) ++ b';' ∷ []))))))

unfoldable pub broadcast_vote_info : Env → Bool → Votes → Outbox
unfolding send_all
broadcast_vote_info e vote_started v =
    send_all e.viewers (vote_info vote_started (v.deadline - e.now) v.count_yes v.count_no)

-- A chat message of the server about a user: the length is worked out by hand.
unfoldable pub about_user : Bytes → Bytes → Bytes
about_user name msg =
    codes "4.chat,0.,"
    ++ (to_string (length name + length msg) ++ (b'.' ∷ (name ++ (msg ++ b';' ∷ []))))

unfoldable pub vote_cooling_down : ℕ → ℕ → Outbox
vote_cooling_down u time = (u, codes "4.vote,1.3," ++ (element (to_string time) ++ b';' ∷ [])) ∷ []

unfoldable pub user_started_vote : Env → ℕ → Votes → Votes × Outbox
unfolding send_all
user_started_vote e u v = (
  record v {
    decision = update v.decision (e.ip u) Decision.yes_vote;
    amount = update v.amount u (v.amount u + 1);
  },
  send_all e.viewers (about_user (e.name u) (codes " started a vote to reset the VM.")),
)

unfoldable pub user_voted : Env → ℕ → Bool → Votes → Votes × Outbox
unfolding send_all
user_voted e u vote v =
    if v.limit u
    then (record v { decision = update v.decision (e.ip u) Decision.not_voted }, [])
    else (
      record v {
        decision =
            update v.decision (e.ip u) (if vote then Decision.yes_vote else Decision.no_vote);
      },
      send_all e.viewers
          (about_user (e.name u) (if vote then codes " voted yes." else codes " voted no.")),
    )

-- `case VoteState::kIdle`.
unfoldable pub start_vote : Env → ℕ → Bool → Votes → Votes × Outbox
unfolding user_started_vote broadcast_vote_info
start_vote e u vote v =
    let opened = record v {
      state = VoteState.voting;
      count_yes = 1;
      count_no = 0;
      deadline = e.now + e.vote_time * 1000;
    } in
    let (v', o) = user_started_vote e u opened in
    if vote then (v', o ++ broadcast_vote_info e true v') else (v, [])

-- The counting of a vote that is made or changed; the flag is `changed`.
unfoldable pub count_vote : ℕ → Bool → Decision → Votes → Votes × Bool
count_vote u true not_voted v = (
  record v { count_yes = increment v.count_yes; amount = update v.amount u (v.amount u + 1) },
  true,
)
count_vote u true no_vote v = (
  record v {
    count_no = decrement v.count_no;
    count_yes = increment v.count_yes;
    amount = update v.amount u (v.amount u + 2);
  },
  true,
)
count_vote u true yes_vote v = (v, false)
count_vote u false not_voted v = (
  record v { count_no = increment v.count_no; amount = update v.amount u (v.amount u + 1) },
  true,
)
count_vote u false yes_vote v = (
  record v {
    count_yes = decrement v.count_yes;
    count_no = increment v.count_no;
    amount = update v.amount u (v.amount u + 2);
  },
  true,
)
count_vote u false no_vote v = (v, false)

-- The limit on how often a user votes.
unfoldable pub limited_vote : Env → ℕ → Bool → Votes → Votes × Bool
unfolding count_vote
limited_vote e u vote v =
    if v.limit u
    then (v, false)
    else if leb max_voted_amount (v.amount u)
    then (record v { limit = update v.limit u true }, false)
    else count_vote u vote (v.decision (e.ip u)) v

-- `case VoteState::kVoting`; only a vote that changed the counts is recorded and announced.
unfoldable pub cast_vote : Env → ℕ → Bool → Votes → Votes × Outbox
unfolding limited_vote user_voted broadcast_vote_info
cast_vote e u vote v =
    let (v', changed) = limited_vote e u vote v in
    let (v'', o) = user_voted e u vote v' in
    if ltb e.now v.deadline
    then (if changed then (v'', o ++ broadcast_vote_info e false v'') else (v', []))
    else (v, [])

unfoldable pub vote_in : VoteState → Env → ℕ → Bool → Votes → Votes × Outbox
unfolding start_vote cast_vote vote_cooling_down
vote_in cooling_down e u vote v =
    let seconds = (v.deadline - e.now) / 1000 in
    (v, if ltb 0 seconds then vote_cooling_down u seconds else [])
vote_in idle e u vote v = start_vote e u vote v
vote_in voting e u vote v = cast_vote e u vote v

unfoldable pub vote : Env → ℕ → Bool → Votes → Votes × Outbox
unfolding vote_in
vote e u b v = if e.votes_enabled then vote_in v.state e u b v else (v, [])

unfoldable pub clear_users : List ℕ → Votes → Votes
clear_users [] v = v
clear_users (u ∷ us) v =
    clear_users us (record v { amount = update v.amount u 0; limit = update v.limit u false })

unfoldable pub clear_ips : List ℕ → Votes → Votes
clear_ips [] v = v
clear_ips (i ∷ is) v = clear_ips is (record v { decision = update v.decision i Decision.not_voted })

unfoldable pub send_ended : List ℕ → Bytes → Outbox
send_ended [] s = []
send_ended (u ∷ us) s = (u, codes "4.vote,1.2;") ∷ (u, s) ∷ send_ended us s

unfoldable pub broadcast_vote_ended : Env → Bool → Votes → Votes × Outbox
unfolding clear_users clear_ips send_ended
broadcast_vote_ended e succeeded v = (
  clear_ips e.ips (clear_users e.viewers v),
  send_ended e.viewers (
      if succeeded
      then codes "4.chat,0.,33.The vote to reset the VM has won.;"
      else codes "4.chat,0.,34.The vote to reset the VM has lost.;"),
)

-- The last part of the result is whether `RestoreVMSnapshot` is called.
unfoldable pub end_vote_common_logic : Env → Bool → Votes → Votes × Outbox × Bool
unfolding broadcast_vote_ended
end_vote_common_logic e passed v =
    let (v', o) = broadcast_vote_ended e passed v in
    (
      if e.vote_cooldown_time == 0 then record v' { state = VoteState.idle } else record v' {
        state = VoteState.cooling_down;
        deadline = e.now + e.vote_cooldown_time * 1000;
      },
      o,
      passed,
    )

abbrev pub is_voting : VoteState → Bool
is_voting voting = true
is_voting idle = false
is_voting cooling_down = false

-- `EndVote`, when the timer of the vote has expired.
unfoldable pub end_vote : Env → Votes → Votes × Outbox × Bool
unfolding end_vote_common_logic
end_vote e v =
    if is_voting v.state
    then end_vote_common_logic e (leb v.count_no v.count_yes) v
    else (v, [], false)

unfoldable pub skip_vote : Env → Bool → Votes → Votes × Outbox × Bool
unfolding end_vote_common_logic
skip_vote e pass v = if is_voting v.state then end_vote_common_logic e pass v else (v, [], false)

-- The callback of the timer that `EndVoteCommonLogic` starts.
unfoldable pub cooldown_over : Votes → Votes
cooldown_over v = record v { state = VoteState.idle }

-- A vote is taken back, by what it was.
unfoldable pub uncount : Decision → Votes → Votes
uncount yes_vote v = record v { count_yes = decrement v.count_yes }
uncount no_vote v = record v { count_no = decrement v.count_no }
uncount not_voted v = v

abbrev pub has_voted : Decision → Bool
has_voted not_voted = false
has_voted yes_vote = true
has_voted no_vote = true

-- What `RemoveUser` does with the user's vote.
unfoldable pub remove_vote : Env → ℕ → Votes → Votes × Outbox
unfolding uncount broadcast_vote_info
remove_vote e u v =
    let prev = v.decision (e.ip u) in
    let v' = record (uncount prev v) { decision = update v.decision (e.ip u) Decision.not_voted } in
    if is_voting v.state && ltb e.now v.deadline && has_voted prev
    then (v', broadcast_vote_info e false v')
    else (v, [])
