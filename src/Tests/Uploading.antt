-- ===== src/Tests/Uploading.antt =====
-- Runs of the uploads of src/CollabVM.cpp: two users of one address.
use collab_vm_server.Prelude.{
  ℕ, ◌≡◌, refl, true, false, Bool, none, some, List, [], ◌∷◌, Bytes, codes, map, mem, equal,
}
use collab_vm_server.Wire.{is_space, is_digit, scan}
use collab_vm_server.Vms.{Client}
use collab_vm_server.Uploads.{Env, Uploads, on_file_instruction}
use collab_vm_server.Uploads.Valid.{strtoul, fits_agent}
use collab_vm_server.Uploads.Begun.{has, IsOrderly}
use collab_vm_server.Uploads.Course.{Event, sends, leaves, states, AllOrderly, states-AllOrderly}
use collab_vm_server.Tests.Visiting.{vm}

abbrev client : ℕ → Client
client u = record {
  id = u;
  viewing = true;
  controller = some (codes "vm1");
  named = true;
  name_fixed = false;
  upload = record { upload_in_progress = false; next_upload_time = 0 };
}

abbrev env : Env
env = record {
  now = 5000;
  vms = (codes "vm1", vm) ∷ [];
  client = client;
  connected = 1 ∷ 2 ∷ [];
  connections = λ a. 2;
}

abbrev uploads : Uploads
uploads = record {
  info = λ u. none;
  waiting = λ u. false;
  data_of = λ a. record { upload_in_progress = false; next_upload_time = 0 };
  count = 0;
  queue = [];
}

abbrev address : ℕ → ℕ
address u = 7

abbrev request : List Bytes
request = codes "0" ∷ codes "a.txt" ∷ codes "100" ∷ codes "1" ∷ []

abbrev course : List Event
course = sends env 1 request ∷ sends env 2 request ∷ leaves env 1 ∷ []

uploads-IsOrderly : IsOrderly address uploads
unfolding mem
uploads-IsOrderly = record {
  marked = λ u h. cc;
  alone = λ u v h. cc;
  pending = λ u h. cc;
  queued = λ u. refl;
  once = tt;
}

states-AllOrderly_example : AllOrderly address (states address course uploads)
states-AllOrderly_example = states-AllOrderly address course uploads uploads-IsOrderly

abbrev holders : List Uploads → List (Bool × Bool × ℕ)
holders [] = []
holders (s ∷ ss) = (has s 1, has s 2, s.count) ∷ holders ss

-- The second user is refused, and the count falls below zero at the end.
states_test :
    holders (states address course uploads)
    ≡ (false, false, 0)
      ∷ (true, false, 0)
      ∷ (true, false, 0)
      ∷ (false, false, 18446744073709551615)
      ∷ []
unfolding states equal is_space is_digit scan
states_test = refl

refused_test :
    elim (states address (sends env 1 request ∷ []) uploads) [
      | [] ↦ []
      | s ∷ [] ↦ []
      | s ∷ t ∷ ss ↦ (on_file_instruction address env 2 request t).1
    ]
    ≡ (2, codes "4.file,1.5;") ∷ []
unfolding states on_file_instruction equal is_space is_digit scan
refused_test = refl

strtoul_test :
    map strtoul (codes " 12x" ∷ codes "-1" ∷ codes "x" ∷ []) ≡ 12 ∷ 18446744073709551615 ∷ 0 ∷ []
unfolding strtoul is_space is_digit scan
strtoul_test = refl

-- Two bytes of one unit, four of two, and a byte that begins nothing.
fits_agent_test :
    map (fits_agent 2) ((195 ∷ 169 ∷ []) ∷ (240 ∷ 159 ∷ 152 ∷ 128 ∷ []) ∷ (255 ∷ []) ∷ [])
    ≡ true ∷ true ∷ false ∷ []
unfolding fits_agent
fits_agent_test = refl
