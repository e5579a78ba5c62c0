-- ===== src/Tests/Turning.antt =====
-- Runs of the turns of src/VMControllers/VMController.cpp: users 1, 2 and 3 view the VM.
use collab_vm_server.Prelude.{
  ℕ, ◌≡◌, refl, Bool, true, false, none, List, [], ◌∷◌, codes, mem, erase, map, leb,
}
use collab_vm_server.Turns.{Env, Turns, turn_request, broadcast_turn_info}
use collab_vm_server.Turns.Inv.{Inv}
use collab_vm_server.Turns.Line.{Event, asks, jacks, leaves, expires, line, run, promised, line-run}
use collab_vm_server.Turns.Messages.{encode, turn_report, broadcast-report}

abbrev env : Env
env = record {
  running = true;
  turns_enabled = true;
  turn_time = 20;
  now = 5000;
  viewers = 3 ∷ 2 ∷ 1 ∷ [];
  name = λ u. codes "guest";
}

abbrev nobody : Turns
nobody = record {
  queue = [];
  current = none;
  waiting = λ _. false;
  timer = record { deadline = 0; armed = false };
}

abbrev everybody : ℕ → Bool
everybody u = leb u 3

abbrev events : List (Env × Event)
events =
    (env, asks 1 false)
    ∷ (env, asks 2 false)
    ∷ (env, jacks 3 true)
    ∷ (env, leaves 2)
    ∷ (env, expires)
    ∷ []

nobody-Inv : Inv everybody nobody
unfolding mem
nobody-Inv = record {
  queued = λ u m. cc;
  waits = λ u h w. cc;
  distinct = tt;
  holder = λ u i. cc;
  idle = λ _. refl;
}

line-run_example :
    Inv everybody (run events nobody) × (line (run events nobody) ≡ promised events [])
line-run_example =
    line-run everybody events nobody (refl, (refl, (refl, (tt, (tt, tt))))) nobody-Inv

-- User 3 took the turn from user 1, who has it back.
promised-events : promised events [] ≡ 1 ∷ []
unfolding mem erase
promised-events = refl

broadcast-report_example :
    (broadcast_turn_info env (turn_request env 1 false false nobody).0 100).1
    ≡ map encode (turn_report env (turn_request env 1 false false nobody).0 100)
broadcast-report_example = broadcast-report env (turn_request env 1 false false nobody).0 100
