-- ===== src/Tests/Queueing.antt =====
-- Runs of the processing thread of src/CollabVM.cpp: user 1 connects and falls silent, and the server
-- with the VM of controller 0 is shut down.
use collab_vm_server.Prelude.{◌≡◌, refl, true, false, some, [], ◌∷◌, codes, mem, equal, erase}
use collab_vm_server.Tests.Visiting.{vm}
use collab_vm_server.Processing.{
  message, add_connection, shutdown, vm_state_change, stopped, stopping, turn_change, next_turn,
  parses, removes, closes, Server, Env,
}
use collab_vm_server.Processing.Actions.{round, run, stop, course, works, stops_now}
use collab_vm_server.Processing.Growth.{IsSteady}
use collab_vm_server.Processing.Order.{Serves, run-Serves}
use collab_vm_server.Processing.Connections.{IsConsistent, course-IsConsistent}
use collab_vm_server.Processing.Shutdown.{IsOver, run-IsOver}
use collab_vm_server.Processing.Stop.{Waits, stop-Waits}

abbrev env : Env
env = record {
  now = 100;
  last_nop = λ u. 90;
  reachable = λ u. true;
  open_handle = λ u. true;
  posts = [];
  timer_expires = false;
  new_controllers = [];
  edited = λ c vm. vm;
  panel_connections = [];
}

-- The timer expires, and a turn ends meanwhile.
abbrev late : Env
late = record env { now = 200; posts = turn_change 0 ∷ []; timer_expires = true }

abbrev server : Server
server = record {
  process_queue = add_connection 1 ∷ message 1 (some (codes "3.nop;")) ∷ [];
  connections = [];
  connected = λ u. false;
  keep_alive_timer = false;
  vm_controllers = (codes "vm1", 0) ∷ [];
  vm = λ c. vm;
  admin_connections = [];
  is_stopping = false;
  thread_running = true;
}

run-Serves_example : Serves (message 1 (some (codes "3.nop;"))) env (run (late ∷ []) server).0
run-Serves_example =
    run-Serves (late ∷ []) env server (message 1 (some (codes "3.nop;")))
      (record { goes_on = refl; not_stopping = refl; no_shutdown = refl }) (refl, tt) refl

run_test :
    (run (late ∷ late ∷ late ∷ late ∷ []) server).1
    ≡ parses 1 (codes "3.nop;") ∷ next_turn 0 ∷ closes 1 ∷ removes 1 ∷ []
unfolding run mem erase
run_test = refl

server-IsConsistent : IsConsistent server
unfolding mem
server-IsConsistent = record {
  agree = record { distinct = tt; marked = λ u. refl };
  alive = λ st ne. cc;
}

course-IsConsistent_example :
    IsConsistent (course (works late ∷ works late ∷ stops_now ∷ works late ∷ []) server)
course-IsConsistent_example =
    course-IsConsistent (works late ∷ works late ∷ stops_now ∷ works late ∷ []) server
      server-IsConsistent

env-IsSteady : IsSteady env
env-IsSteady = record { none_created = refl; names_stay = λ c vm. refl }

abbrev ending : Server
ending = record server {
  process_queue = shutdown ∷ vm_state_change 0 stopping ∷ vm_state_change 0 stopped ∷ [];
  is_stopping = true;
}

run-IsOver_example : IsOver (run (env ∷ env ∷ env ∷ []) ending).0
unfolding equal
run-IsOver_example =
    run-IsOver (env ∷ env ∷ env ∷ []) ending refl refl refl (refl, (refl, (refl, tt)))
      (env-IsSteady, (env-IsSteady, (env-IsSteady, tt))) (refl, tt)

abbrev stale : Server
stale = record server {
  process_queue = vm_state_change 0 stopped ∷ [];
  vm = λ c. record vm { running = false };
}

stop-Waits_example : Waits env stale (round env (stop stale))
stop-Waits_example = stop-Waits env stale refl refl refl (refl, tt) refl

-- An instruction that starts a VM while the server stops: the thread goes on.
abbrev starting_env : Env
starting_env = record env { new_controllers = (codes "vm2", 1) ∷ [] }

abbrev visited : Server
visited = record ending {
  process_queue = message 1 (some (codes "5.admin,1.6,3.vm2;")) ∷ vm_state_change 0 stopped ∷ [];
  connected = λ u. true;
}

started_meanwhile : (run (starting_env ∷ env ∷ []) visited).0.thread_running ≡ true
unfolding run equal
started_meanwhile = refl
