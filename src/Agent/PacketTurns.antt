-- ===== src/Agent/PacketTurns.antt =====
-- What a packet of the agent does to the upload that is under way: src/Sockets/AgentClient.cpp.
use collab_vm_server.Prelude.{
  ℕ, ◌*◌, ◌/◌, ◌%◌, ◌≡◌, refl, ap, inl, inr, Bool, true, false, not, ◌&&◌, ◌||◌, Option, none, some,
  [], ◌∷◌, Bytes, arith, ltb, ◌==◌, if◌then◌else◌, Bool-cases,
}
use collab_vm_server.Users.Rename.{is_some}
use collab_vm_server.Agent.Bytes.{byte_at, after, read_units, to_utf8, read_uint32}
use collab_vm_server.Agent.State.{
  UploadState, not_uploading, create_file, upload_file, exec_file, AgentClient, then_also,
  upload_starts, upload_fails, exec_finishes, waits, agent_connects,
}
use collab_vm_server.Agent.Packets.{
  heartbeat, connect_opcode, file_create_failed, file_creation_new_name, file_creation_success,
  shell_exec_result, write_file_bytes, goes_on, drops, new_name, created, exec_result,
  upload_packet, later_packet, first_packet, read_packet, read_texts,
}
use collab_vm_server.Agent.Turns.{IsLive, Turn, Dropped}
use collab_vm_server.Agent.Outcomes.{
  lost_packet, OutcomeTurn, going, dropping, if-OutcomeTurn, finish-Turn, same-Turn, dropped,
  none_lost, other-Turn,
}

module _ (i : ℕ) (c : AgentClient) (l : IsLive c) (u : is_some c.upload_info ≡ true) where
  created-Turn : c.upload_state ≡ create_file → OutcomeTurn c 0 (created i c)
  unfolding created
  created-Turn e = going (record {
    pending = refl;
    next_context = refl;
    tied = ground arith;
    informed = λ h. u;
    kept = λ h. refl;
    flow = λ h. ground arith;
    balance = ground arith;
  })

  new_name-Turn : c.upload_state ≡ create_file → OutcomeTurn c 0 (new_name i c)
  unfolding new_name
  new_name-Turn e =
      let started = record c { upload_state = upload_file } in
      let fallen : Dropped c 0 started = record {
        pending = refl;
        next_context = refl;
        live = record { tied = l.tied; held = l.held; informed = λ h. u };
        balance = ground arith;
      } in
      if-OutcomeTurn c 0 _ _ _
        (λ t.
          elim (to_utf8 (read_units (byte_at c.read_buf * 2 % 256 / 2) (after c.read_buf)))
            as (λ r. OutcomeTurn c 0 (elim r [
              | none ↦ drops started
              | some name ↦
                  goes_on (
                    then_also (upload_starts (some i) (some name) ∷ [])
                      (write_file_bytes i started))
            ])) [
              | none ↦ dropping fallen
              | some name ↦ going (record {
                pending = refl;
                next_context = refl;
                tied = ground arith;
                informed = λ h. u;
                kept = λ h. refl;
                flow = λ h. ground arith;
                balance = ground arith;
              })
            ])
        (λ t. dropping fallen)

  exec_result-Turn :
      c.connect_received ≡ true
      → c.packet_opcode ≡ shell_exec_result
      → c.upload_state ≡ exec_file
      → OutcomeTurn c (lost_packet c) (exec_result i c)
  unfolding exec_result
  exec_result-Turn r o e =
      let idle = record c { upload_state = not_uploading } in
      let h = (read_uint32 (0, c.read_buf)).0 in
      if-OutcomeTurn c (lost_packet c) (4 == c.packet_size)
        (goes_on (idle, exec_finishes (some i) (ltb 32 h && ltb h 2147483648) ∷ [])) (drops idle)
        (λ t. going (record {
          pending = refl;
          next_context = refl;
          tied = ground arith;
          informed = λ h. u;
          kept = λ h. refl;
          flow = λ h. ground arith;
          balance = ground arith;
        }))
        (λ t. dropping (record {
          pending = refl;
          next_context = refl;
          live = record { tied = l.tied; held = l.held; informed = λ h. u };
          balance = ground arith;
        }))

  failed-Turn :
      c.upload_state ≡ create_file
      → OutcomeTurn c 0
          (goes_on (record c { upload_state = not_uploading }, upload_fails (some i) ∷ []))
  failed-Turn e = going (record {
    pending = refl;
    next_context = refl;
    tied = ground arith;
    informed = λ h. u;
    kept = λ h. refl;
    flow = λ h. ground arith;
    balance = ground arith;
  })

  upload_packet-Turn :
      c.connect_received ≡ true
      → (t : UploadState) → c.upload_state ≡ t
      → OutcomeTurn c (lost_packet c) (upload_packet t c.packet_opcode i c)
  unfolding upload_packet
  upload_packet-Turn r create_file e =
      none_lost c l (upload_packet create_file c.packet_opcode i c) (ground arith)
        (elim (Bool-cases (c.packet_opcode == file_create_failed)) [
          | inl t ↦ rw t (failed-Turn e)
          | inr t ↦ rw t (elim (Bool-cases (c.packet_opcode == file_creation_new_name)) [
            | inl x ↦ rw x (new_name-Turn e)
            | inr x ↦ rw x (
                if-OutcomeTurn c 0
                  (c.packet_opcode == shell_exec_result || c.packet_opcode == file_creation_success)
                  (created i c) (drops c) (λ y. created-Turn e) (λ y. dropped c l))
          ])
        ])
  upload_packet-Turn r exec_file e =
      if-OutcomeTurn c (lost_packet c) (c.packet_opcode == file_create_failed) (goes_on (c, [])) _
        (λ t. other-Turn c l true (ground arith))
        (λ t.
          if-OutcomeTurn c (lost_packet c) (c.packet_opcode == shell_exec_result) (exec_result i c)
            (drops c) (λ x. exec_result-Turn r (ground arith) e)
            (λ x. other-Turn c l false (ground arith)))
  upload_packet-Turn r not_uploading e =
      other-Turn c l (c.packet_opcode == file_create_failed) (ground arith)
  upload_packet-Turn r upload_file e =
      other-Turn c l (c.packet_opcode == file_create_failed) (ground arith)

module _ (c : AgentClient) (l : IsLive c) where
  info-Turn :
      c.connect_received ≡ true
      → (o : Option ℕ) → c.upload_info ≡ o
      → OutcomeTurn c (lost_packet c) (elim o [
        | none ↦ upload_packet not_uploading c.packet_opcode 0 c
        | some i ↦ upload_packet c.upload_state c.packet_opcode i c
      ])
  unfolding upload_packet
  info-Turn r none n = other-Turn c l (c.packet_opcode == file_create_failed) (ground arith)
  info-Turn r (some i) n = upload_packet-Turn i c l (ap is_some n) r c.upload_state refl

  timer-Turn : (b : Bool) (n : ℕ) → OutcomeTurn c 0 (goes_on (c, (if b then [] else waits n ∷ [])))
  timer-Turn true n = same-Turn c l [] refl refl
  timer-Turn false n = same-Turn c l (waits n ∷ []) refl refl

  later_packet-Turn : c.connect_received ≡ true → OutcomeTurn c (lost_packet c) (later_packet c)
  unfolding later_packet
  later_packet-Turn r =
      if-OutcomeTurn c (lost_packet c) (c.packet_opcode == heartbeat)
        (goes_on (c, (if c.heartbeat_timeout == 0 then [] else waits c.heartbeat_timeout ∷ [])))
        (elim c.upload_info [
          | none ↦ upload_packet not_uploading c.packet_opcode 0 c
          | some i ↦ upload_packet c.upload_state c.packet_opcode i c
        ])
        (λ t.
          none_lost c l _ (ground arith)
            (timer-Turn (c.heartbeat_timeout == 0) c.heartbeat_timeout))
        (λ t. info-Turn r c.upload_info refl)

  texts-Turn :
      (n : ℕ) (o : Option (Bytes × Bytes × Bytes × Bytes))
      → let c' = record c { max_path_component = n } in
        OutcomeTurn c 0 (elim o [
          | none ↦ drops c'
          | some (os_name, service_pack, pc_name, username) ↦ goes_on (
            record c' { connect_received = true },
            agent_connects os_name service_pack pc_name username n ∷ [],
          )
        ])
  texts-Turn n none = dropping (record {
    pending = refl;
    next_context = refl;
    live = record { tied = l.tied; held = l.held; informed = l.informed };
    balance = ground arith;
  })
  texts-Turn n (some (os_name, service_pack, pc_name, username)) = going (record {
    pending = refl;
    next_context = refl;
    tied = ground arith;
    informed = l.informed;
    kept = λ h. refl;
    flow = λ h. ground arith;
    balance = ground arith;
  })

  first_packet-Turn : OutcomeTurn c 0 (first_packet c)
  unfolding first_packet
  first_packet-Turn = elim (Bool-cases (not (c.packet_opcode == connect_opcode))) [
    | inl t ↦ rw t (dropped c l)
    | inr t ↦ rw t (texts-Turn _ (read_texts c.packet_size (read_uint32 (0, c.read_buf)).1))
  ]

  pub read_packet-Turn : Turn c 0 (lost_packet c) 0 (read_packet c)
  unfolding read_packet
  read_packet-Turn =
      finish-Turn c (lost_packet c) (if c.connect_received then later_packet c else first_packet c)
        (if-OutcomeTurn c (lost_packet c) c.connect_received (later_packet c) (first_packet c)
          later_packet-Turn (λ r. none_lost c l (first_packet c) (ground arith) first_packet-Turn))
