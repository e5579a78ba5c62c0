-- ===== src/Tests/Guests.antt =====
-- Runs of the client of src/Sockets/AgentClient.cpp.
use collab_vm_server.Prelude.{ℕ, ◌+◌, ◌≡◌, refl, true, false, none, some, List, [], ◌∷◌}
use collab_vm_server.Agent.State.{not_connected, not_uploading, AgentClient, FileStream}
use collab_vm_server.Agent.Steps.{
  Event, calls_connect, calls_disconnect, socket_connects, calls_upload, ends, run, step,
}
use collab_vm_server.Agent.Turns.{reports, under_way}
use collab_vm_server.Agent.Inv.{Inv}
use collab_vm_server.Agent.Reports.{lost, asked, IsNew, run-Inv, run-reports}

abbrev closed_file : FileStream
closed_file = record { is_open = false; good = true; content = []; unread = [] }

abbrev new_client : AgentClient
new_client = record {
  state = not_connected;
  connect_received = false;
  upload_state = not_uploading;
  upload_info = none;
  packet_size = 0;
  packet_opcode = 0;
  max_path_component = 0;
  heartbeat_timeout = 5;
  read_buf = [];
  upload_stream = closed_file;
  file_of = λ i. record {
    filename = 97 ∷ [];
    run_file = true;
    file_stream = record { is_open = true; good = true; content = 1 ∷ 2 ∷ 3 ∷ []; unread = [] };
  };
  context = none;
  next_context = 0;
  pending = [];
}

new_client-IsNew : IsNew new_client
new_client-IsNew = record { state = refl; context = refl; pending = refl }

-- The agent's program is sent, the agent connects, and a program is sent and run; the packet on its
-- end has the bytes that are given.
abbrev visit : List ℕ → ℕ → List Event
visit result size =
    calls_connect
    ∷ socket_connects
    ∷ ends 0 false (0 ∷ []) (some (9 ∷ []))
    ∷ ends 0 false (1 ∷ []) none
    ∷ ends 0 false (8 ∷ 0 ∷ 2 ∷ []) none
    ∷ ends 0 false (255 ∷ 0 ∷ 0 ∷ 0 ∷ 0 ∷ 0 ∷ 0 ∷ 0 ∷ []) none
    ∷ calls_upload 7
    ∷ ends 1 false (1 ∷ []) none
    ∷ ends 0 false (0 ∷ 0 ∷ 3 ∷ []) none
    ∷ ends 0 false (1 ∷ []) none
    ∷ ends 0 false (size ∷ 0 ∷ 7 ∷ []) none
    ∷ ends 1 false result none
    ∷ calls_upload 8
    ∷ calls_disconnect
    ∷ []

visit-reports : reports (run (visit (33 ∷ 0 ∷ 0 ∷ 0 ∷ []) 4) new_client).1 ≡ 2
unfolding run
visit-reports = refl

visit-lost : lost (visit (33 ∷ 0 ∷ 0 ∷ []) 3) new_client ≡ 1
unfolding step
visit-lost = refl

run-Inv_example : Inv (run (visit (33 ∷ 0 ∷ 0 ∷ 0 ∷ []) 4) new_client).0
run-Inv_example = run-Inv (visit (33 ∷ 0 ∷ 0 ∷ 0 ∷ []) 4) new_client new_client-IsNew

run-reports_example :
    let xs = visit (33 ∷ 0 ∷ 0 ∷ []) 3 in
    reports (run xs new_client).1 + under_way (run xs new_client).0 + lost xs new_client ≡ asked xs
run-reports_example = run-reports (visit (33 ∷ 0 ∷ 0 ∷ []) 3) new_client new_client-IsNew
