-- ===== src/Agent/Packets.antt =====
-- What `AgentClient` of src/Sockets/AgentClient.cpp does with a packet of the agent.
use collab_vm_server.Prelude.{
  ℕ, ◌+◌, ◌*◌, ◌/◌, ◌%◌, true, not, ◌&&◌, ◌||◌, Option, none, some, [], ◌∷◌, ◌++◌, Bytes, ltb, leb,
  ◌==◌, if◌then◌else◌, length, update,
}
use collab_vm_server.Agent.Bytes.{
  Pointer, read_uint8, read_uint32, read_units, to_utf8, read_string, write_uint16,
}
use collab_vm_server.Agent.State.{
  UploadState, not_uploading, create_file, upload_file, exec_file, FileStream, reads, writes, waits,
  agent_connects, upload_starts, upload_fails, exec_finishes, for_header, for_file_upload,
  AgentClient, Result, then_also, header_size, body_size, read_stream, rewind, disconnect_socket,
}

-- The opcodes that the agent sends.
abbrev pub heartbeat : ℕ
heartbeat = 1

abbrev pub connect_opcode : ℕ
connect_opcode = 2

abbrev pub file_creation_success : ℕ
file_creation_success = 3

abbrev pub file_creation_new_name : ℕ
file_creation_new_name = 4

abbrev pub file_create_failed : ℕ
file_create_failed = 5

abbrev pub shell_exec_result : ℕ
shell_exec_result = 7

-- A packet that carries a part of a file: the number of bytes, the opcode, and the bytes.
unfoldable pub file_part : Bytes → Bytes
unfolding write_uint16
file_part s = write_uint16 (length s) ++ 2 ∷ s

-- Writes through `file_upload_info_`.
abbrev pub with_stream : ℕ → FileStream → AgentClient → AgentClient
with_stream i f c = record c {
  file_of = update c.file_of i (record (c.file_of i) { file_stream = f });
}

-- `WriteFileBytes`.
unfoldable pub write_file_bytes : ℕ → AgentClient → Result
unfolding rewind read_stream file_part
write_file_bytes i c =
    let (s, f) = read_stream body_size (rewind (c.file_of i).file_stream) in
    (with_stream i f c, writes (file_part s) for_file_upload ∷ [])

-- The four texts of the packet `kConnect`, which end where the packet does.
unfoldable pub read_texts : ℕ → Pointer → Option (Bytes × Bytes × Bytes × Bytes)
unfolding read_string
read_texts end p = elim (read_string end p) [
  | none ↦ none
  | some (os_name, p1) ↦ elim (read_string end p1) [
    | none ↦ none
    | some (service_pack, p2) ↦ elim (read_string end p2) [
      | none ↦ none
      | some (pc_name, p3) ↦ elim (read_string end p3) [
        | none ↦ none
        | some (username, p4) ↦
            if p4.0 == end then some (os_name, service_pack, pc_name, username) else none
      ]
    ]
  ]
]

-- What a packet comes to: the client goes on, or the socket is closed.
pub data Outcome : Type 0 where
  goes_on : Result → Outcome
  drops : AgentClient → Outcome

-- `kFileCreationNewName`, with `||` where `&&` was meant.
unfoldable pub new_name : ℕ → AgentClient → Outcome
unfolding read_uint8 read_units to_utf8 write_file_bytes
new_name i c =
    let started = record c { upload_state = upload_file } in
    let (n, (p, s)) = read_uint8 (0, c.read_buf) in
    let len = n * 2 % 256 in
    if not (len == 0) || leb (p + len) c.packet_size
    then elim (to_utf8 (read_units (len / 2) s)) [
      | none ↦ drops started
      | some name ↦
          goes_on (then_also (upload_starts (some i) (some name) ∷ []) (write_file_bytes i started))
    ]
    else drops started

unfoldable pub created : ℕ → AgentClient → Outcome
unfolding write_file_bytes
created i c = goes_on (
    then_also (upload_starts (some i) none ∷ [])
      (write_file_bytes i (record c { upload_state = upload_file })))

-- A handle above 32 is a success; it is read as a signed number.
unfoldable pub exec_result : ℕ → AgentClient → Outcome
unfolding read_uint32
exec_result i c =
    let idle = record c { upload_state = not_uploading } in
    let (h, (p, s)) = read_uint32 (0, c.read_buf) in
    if p == c.packet_size
    then goes_on (idle, exec_finishes (some i) (ltb 32 h && ltb h 2147483648) ∷ [])
    else drops idle

-- A packet on the upload with this number, by the state of the upload.
unfoldable pub upload_packet : UploadState → ℕ → ℕ → AgentClient → Outcome
unfolding new_name created exec_result
upload_packet create_file op i c =
    if op == file_create_failed
    then goes_on (record c { upload_state = not_uploading }, upload_fails (some i) ∷ [])
    else if op == file_creation_new_name
    then new_name i c
    else if op == shell_exec_result || op == file_creation_success
    then created i c
    else drops c
upload_packet exec_file op i c =
    if op == file_create_failed
    then goes_on (c, [])
    else if op == shell_exec_result
    then exec_result i c
    else drops c
upload_packet _ op i c = if op == file_create_failed then goes_on (c, []) else drops c

-- A packet after `kConnect`. A heartbeat starts the timer again. No upload is under way while
-- `file_upload_info_` is null.
unfoldable pub later_packet : AgentClient → Outcome
unfolding upload_packet
later_packet c =
    if c.packet_opcode == heartbeat
    then goes_on (c, (if c.heartbeat_timeout == 0 then [] else waits c.heartbeat_timeout ∷ []))
    else elim c.upload_info [
      | none ↦ upload_packet not_uploading c.packet_opcode 0 c
      | some i ↦ upload_packet c.upload_state c.packet_opcode i c
    ]

-- The first packet.
unfoldable pub first_packet : AgentClient → Outcome
unfolding read_uint32 read_texts
first_packet c =
    let (longest, p) = read_uint32 (0, c.read_buf) in
    let c' = record c { max_path_component = longest } in
    if not (c.packet_opcode == connect_opcode) then drops c else elim (read_texts c.packet_size p) [
      | none ↦ drops c'
      | some (os_name, service_pack, pc_name, username) ↦ goes_on (
        record c' { connect_received = true },
        agent_connects os_name service_pack pc_name username longest ∷ [],
      )
    ]

-- The end of `OnReadBody`.
unfoldable pub finish : Outcome → Result
unfolding disconnect_socket
finish (goes_on (c, es)) = (c, es ++ reads header_size for_header ∷ [])
finish (drops c) = disconnect_socket c

unfoldable pub read_packet : AgentClient → Result
unfolding first_packet later_packet finish
read_packet c = finish (if c.connect_received then later_packet c else first_packet c)
