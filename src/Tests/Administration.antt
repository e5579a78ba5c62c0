-- ===== src/Tests/Administration.antt =====
-- Runs of `OnAdminInstruction` of src/CollabVM.cpp.
use collab_vm_server.Prelude.{
  ◌≡◌, ◌↔◌, refl, true, false, none, List, [], ◌∷◌, codes, All, mem, equal,
}
use collab_vm_server.Wire.{skip_space, sign, digits, is_space, is_digit, scan}
use collab_vm_server.Chat.Instruction.{Rank, c_str}
use collab_vm_server.Admin.{Config, Sessions, mute_user, parse_opcode, is_denied}
use collab_vm_server.Admin.Gate.{Permitted, is_denied-Permitted}
use collab_vm_server.Admin.Login.{Env}
use collab_vm_server.Admin.Safety.{Event, instructs, disconnects, run, IsLoginFailed, run-refused}
use collab_vm_server.Admin.Members.{Agree, run-Agree}

abbrev config : Config
config = record {
  master_password = codes "collabvm";
  mod_password = codes "cvmmod";
  mod_enabled = true;
  mod_perms = 16;
  ban_command = [];
  admin_session_id = [];
}

abbrev env : Env
env = record {
  connections = 1 ∷ [];
  vm_controller = λ u. none;
  name = λ u. none;
  ip = λ u. [];
  vm_controllers = [];
  virtual_machines = [];
  viewers = λ vm. [];
}

abbrev nobody : Sessions
nobody = record {
  rank = λ u. Rank.unregistered;
  admin_connected = λ u. false;
  admin_connections = [];
}

is_denied-Permitted_example :
    (is_denied config Rank.moderator false mute_user ≡ false)
    ↔ Permitted config Rank.moderator false mute_user
is_denied-Permitted_example = is_denied-Permitted config Rank.moderator false mute_user

abbrev attempts : List (Env × Event)
attempts =
    (env, instructs 1 (codes "2" ∷ codes "guess" ∷ []))
    ∷ (env, instructs 1 (codes "8" ∷ codes "vm1" ∷ []))
    ∷ []

run-refused_example :
    ((run config attempts nobody).0 ≡ nobody) × All IsLoginFailed (run config attempts nobody).1
unfolding parse_opcode skip_space sign digits is_space is_digit scan equal c_str
run-refused_example =
    run-refused config attempts nobody (((refl, refl), refl), (((refl, refl), refl), tt))

abbrev course : List (Env × Event)
course = (env, instructs 1 (codes "2" ∷ codes "collabvm" ∷ [])) ∷ (env, disconnects 1) ∷ []

run-Agree_example : Agree (run config course nobody).0
unfolding mem
run-Agree_example = run-Agree config course nobody (λ u. refl)
