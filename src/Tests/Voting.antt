-- ===== src/Tests/Voting.antt =====
-- Runs of the votes of src/VMControllers/VMController.cpp: user 1 of address 7.
use collab_vm_server.Prelude.{
  ◌≤◌, ◌+◌, ◌≡◌, refl, true, false, [], ◌∷◌, codes, arith, mem, leb, update,
}
use collab_vm_server.Votes.{
  idle, voting, not_voted, yes_vote, Env, Votes, is_voting, vote, end_vote,
}
use collab_vm_server.Votes.Tally.{is_yes, is_no, tally, NobodyVoted}
use collab_vm_server.Votes.Count.{Inv}
use collab_vm_server.Votes.Reach.{
  Reach, here, next, votes, connects, Reach-counts, end_vote-majority,
}

abbrev env : Env
env = record {
  votes_enabled = true;
  vote_time = 60;
  vote_cooldown_time = 600;
  now = 1000;
  viewers = 1 ∷ [];
  name = λ u. codes "guest";
  ip = λ u. 7;
  ips = 7 ∷ [];
}

abbrev quiet : Votes
quiet = record {
  state = idle;
  count_yes = 0;
  count_no = 0;
  deadline = 0;
  decision = λ _. not_voted;
  amount = λ _. 0;
  limit = λ _. false;
}

abbrev known : Votes
known = record quiet { decision = update quiet.decision 7 not_voted }

after_vote : Reach [] quiet (7 ∷ []) (vote env 1 true known).0
unfolding mem
after_vote = next (next here (connects 7 refl (omega arith) refl)) (votes env 1 true refl refl refl)

Reach-counts_example :
    (is_voting (vote env 1 true known).0.state ≡ true
      → ((vote env 1 true known).0.count_yes
          ≡ tally is_yes (vote env 1 true known).0.decision (7 ∷ []))
        × ((vote env 1 true known).0.count_no
            ≡ tally is_no (vote env 1 true known).0.decision (7 ∷ []))
        × ((vote env 1 true known).0.count_yes + (vote env 1 true known).0.count_no ≤ 1))
    × (is_voting (vote env 1 true known).0.state ≡ false
        → NobodyVoted (vote env 1 true known).0.decision (7 ∷ []))
Reach-counts_example = Reach-counts refl after_vote

-- One address has voted for.
abbrev underway : Votes
underway = record quiet {
  state = voting;
  count_yes = 1;
  decision = update quiet.decision 7 yes_vote;
}

underway-Inv : Inv (7 ∷ []) underway
unfolding mem tally
underway-Inv = record {
  distinct = (refl, tt);
  few = omega arith;
  counted_yes = λ _. refl;
  counted_no = λ _. refl;
  quiet = λ h. cc;
}

end_vote-majority_example :
    (end_vote env underway).2
    ≡ leb (tally is_no underway.decision (7 ∷ [])) (tally is_yes underway.decision (7 ∷ []))
end_vote-majority_example = end_vote-majority env underway underway-Inv refl
