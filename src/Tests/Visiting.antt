-- ===== src/Tests/Visiting.antt =====
-- Runs of the requests about VMs of src/CollabVM.cpp: user 1 joins the VM "vm1".
use collab_vm_server.Prelude.{
  ℕ, ◌≡◌, refl, true, false, none, List, [], ◌∷◌, codes, arith, mem, equal, to_string,
}
use collab_vm_server.Wire.{element}
use collab_vm_server.Chat.Instruction.{Rank, Muted, c_str}
use collab_vm_server.Votes.{VoteState, Decision}
use collab_vm_server.Vms.{
  Settings, StopReason, Vm, Vms, Client, World, on_connect_instruction, find_vm,
  on_list_instruction,
}
use collab_vm_server.Vms.Connect.{Answer, Meets, outcome, on_connect-answers}
use collab_vm_server.Vms.Places.{Places, Event, asks, leaves, run, IsPlaced}
use collab_vm_server.Vms.Places.Kept.{run-IsPlaced}

abbrev pub settings : Settings
settings = record {
  name = codes "vm1";
  display_name = codes "First";
  motd = codes "Hello";
  turns_enabled = true;
  votes_enabled = false;
  uploads_enabled = true;
  max_upload_size = 4096;
  upload_cooldown_time = 60;
  upload_max_filename = 64;
}

abbrev pub vm : Vm
vm = record {
  settings = settings;
  agent_connected = true;
  agent = record { os_name = []; service_pack = []; pc_name = []; username = [] };
  agent_max_filename = 32;
  agent_upload_in_progress = false;
  thumbnail = none;
  users = [];
  turns = record {
    queue = [];
    current = none;
    waiting = λ _. false;
    timer = record { deadline = 0; armed = false };
  };
  votes = record {
    state = VoteState.idle;
    count_yes = 0;
    count_no = 0;
    deadline = 0;
    decision = λ _. Decision.not_voted;
    amount = λ _. 0;
    limit = λ _. false;
  };
  running = true;
  stop_reason = StopReason.normal;
}

abbrev vms : Vms
vms = (codes "vm1", vm) ∷ []

abbrev client : ℕ → Client
client u = record {
  id = u;
  viewing = false;
  controller = none;
  named = true;
  name_fixed = false;
  upload = record { upload_in_progress = false; next_upload_time = 0 };
}

abbrev world : World
world = record {
  turn_env = record {
    running = true;
    turns_enabled = true;
    turn_time = 20;
    now = 5000;
    viewers = [];
    name = λ _. codes "guest";
  };
  user_env = record {
    now = 5;
    drawn = 1234;
    connections = 1 ∷ [];
    ip = λ u. u;
    rank = λ u. Rank.unregistered;
    viewing = λ u. false;
  };
  users = record {
    cell = λ u. none;
    text = λ c. [];
    fresh = 0;
    usernames = [];
    limits = λ i. record { last_name_chg = 0; name_chg_count = 0; name_fixed = false };
  };
  chat_config = record {
    chat_rate_count = 3;
    chat_rate_time = 5;
    chat_mute_time = 30;
    chat_msg_history = 10;
    mods_mute = false;
  };
  chat = record {
    history = record { buf = []; begin = 0; end = 0; count = 0 };
    ip = λ _. record { last_chat_msg = 100; chat_msg_count = 0; chat_muted = Muted.unmuted };
    text = λ _. codes "guest";
  };
}

on_connect-answers_example :
    ((a : Answer) × Meets (client 1) (codes "vm1" ∷ []) vms a)
    × ((a : Answer)
        → Meets (client 1) (codes "vm1" ∷ []) vms a
        → on_connect_instruction world (client 1) (codes "vm1" ∷ []) vms
          ≡ outcome world (client 1) vms a)
on_connect-answers_example = on_connect-answers world (client 1) (codes "vm1" ∷ []) vms

sent_test :
    (on_connect_instruction world (client 1) (codes "vm1" ∷ []) vms).2
    ≡ (1, codes "7.connect,1.1,1.1,1.0,1.1,4.4096,2.32;")
      ∷ (1, codes "7.adduser,1.0;")
      ∷ (1, codes "4.chat,0.,5.Hello;")
      ∷ []
unfolding on_connect_instruction element c_str equal to_string
sent_test = refl

list_test : on_list_instruction 1 vms ≡ (1, codes "4.list,3.vm1,5.First,0.;") ∷ []
unfolding on_list_instruction element to_string
list_test = refl

abbrev start : Places
start = record { vms = vms; client = client; connected = λ u. true }

start-IsPlaced : IsPlaced start
unfolding find_vm mem
start-IsPlaced = record {
  own = λ u. refl;
  idle = λ u _. refl;
  lists = record { distinct = λ k v e. ground arith; listed = λ k v e u. ground arith };
}

abbrev events : List Event
events =
    asks world 1 true false (client 1).upload (codes "vm1" ∷ [])
    ∷ asks world 2 true false (client 2).upload (codes "none" ∷ [])
    ∷ leaves 1
    ∷ []

run-IsPlaced_example : IsPlaced (run events start)
run-IsPlaced_example = run-IsPlaced events start start-IsPlaced
