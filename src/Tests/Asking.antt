-- ===== src/Tests/Asking.antt =====
-- Runs of the instructions of a user in a VM: user 1 asks for turns, and user 2 joins.
use collab_vm_server.Prelude.{◌≤◌, ◌≡◌, refl, true, false, some, List, [], ◌∷◌, ◌++◌, codes, arith}
use collab_vm_server.Chat.Instruction.{Rank}
use collab_vm_server.Turns.{Env, Turns}
use collab_vm_server.Votes.{Votes, VoteState, Decision}
use collab_vm_server.Requests.{TurnData, Config, User}
use collab_vm_server.Requests.Flood.{Arrival, passed, passed-bound}
use collab_vm_server.Requests.Joining.{add_user, turns_told, votes_told, add_user-told}

abbrev config : Config
config = record { turn_rate_count = 2; turn_rate_time = 3; turn_mute_time = 5; mods_turn = false }

abbrev asker : User
asker = record {
  id = 1;
  rank = Rank.unregistered;
  viewing = true;
  named = true;
  admin_connected = false;
  has_client = true;
}

abbrev quiet : TurnData
quiet = record { last_turn = 100; turn_count = 0; turn_fixed = false }

abbrev requests : List Arrival
requests = (101, asker, codes "1" ∷ []) ∷ (101, asker, codes "0" ∷ []) ∷ (102, asker, []) ∷ []

passed-bound_example : passed config requests quiet ≤ 2
passed-bound_example =
    passed-bound config requests quiet (omega arith, omega arith, omega arith, omega arith)
      ((omega arith, omega arith), ((omega arith, omega arith), ((omega arith, omega arith), tt)))
      refl (omega arith)

abbrev env : Env
env = record {
  running = true;
  turns_enabled = true;
  turn_time = 20;
  now = 5000;
  viewers = 1 ∷ [];
  name = λ u. codes "guest";
}

abbrev turns : Turns
turns = record {
  queue = [];
  current = some 1;
  waiting = λ _. false;
  timer = record { deadline = 9000; armed = true };
}

abbrev votes : Votes
votes = record {
  state = VoteState.voting;
  count_yes = 1;
  count_no = 0;
  deadline = 8000;
  decision = λ _. Decision.yes_vote;
  amount = λ _. 1;
  limit = λ _. false;
}

add_user-told_example :
    add_user env 2 turns votes ≡ turns_told env 2 turns ++ votes_told env 2 votes
add_user-told_example = add_user-told env 2 turns votes
