-- ===== src/Agent/Client.antt =====
-- The handlers of `AgentClient` of src/Sockets/AgentClient.cpp, and the events that call them.
use collab_vm_server.Prelude.{
  ℕ, ◌+◌, ◌-◌, ◌*◌, ◌^◌, Bool, true, false, not, ◌&&◌, ◌||◌, Option, none, some, List, [], ◌∷◌,
  ◌++◌, Bytes, ltb, leb, ◌==◌, if◌then◌else◌, length,
}
use collab_vm_server.Agent.Bytes.{
  read_uint8, read_uint16, byte_at, to_utf16, write_uint8, write_uint16, write_uint32, write_units,
}
use collab_vm_server.Agent.State.{
  ConnectionState, agent_upload, header, body, not_uploading, create_file, exec_file, FileStream,
  Handler, for_upload_req, for_header, for_body, for_write, for_agent_upload, for_file_upload,
  reads, writes, waits, upload_fails, upload_finishes, AgentClient, Result, is_uploading,
  buffer_size, header_size, body_size, read_stream, seek_end, close_stream, disconnect_socket,
}
use collab_vm_server.Agent.Packets.{file_part, with_stream, read_packet}

-- `OnConnect`.
unfoldable pub on_connect : AgentClient → Result
on_connect c = (record c { state = agent_upload }, reads 1 for_upload_req ∷ [])

-- The agent asks for its program; `file` is what `agent_path_` holds, if it can be opened.
unfoldable pub serve_agent : Option Bytes → AgentClient → Result
unfolding read_stream write_uint32
serve_agent none c = (record c { upload_stream = record c.upload_stream { good = false } }, [])
serve_agent (some s) c =
    let opened : FileStream = record { is_open = true; good = true; content = s; unread = s } in
    let (part, f) = read_stream (buffer_size - 4) opened in
    if ltb 0 (length s) && ltb (length s) (2 ^ 32 - 1)
    then (
      record c { upload_stream = f },
      writes (write_uint32 (length s) ++ part) for_agent_upload ∷ [],
    )
    else (record c { upload_stream = record opened { unread = [] } }, [])

-- `OnReadUploadReq`.
unfoldable pub on_read_upload_req : Option Bytes → Bool → ℕ → AgentClient → Result
unfolding serve_agent disconnect_socket
on_read_upload_req file ec size c =
    if ec || size == 0
    then disconnect_socket c
    else if byte_at c.read_buf == 0 && not c.upload_stream.is_open
    then serve_agent file c
    else (c, [])

-- `OnReadBody`.
unfoldable pub on_read_body : Bool → ℕ → AgentClient → Result
unfolding read_packet disconnect_socket
on_read_body ec size c =
    if ec || not (size == c.packet_size) then disconnect_socket c else read_packet c

-- `OnReadHeader`.
unfoldable pub on_read_header : Bool → ℕ → AgentClient → Result
unfolding on_read_body read_uint16 read_uint8
on_read_header ec size c =
    let (packet_size, p) = read_uint16 (0, c.read_buf) in
    let c' = record c { packet_size = packet_size; packet_opcode = (read_uint8 p).0 } in
    if ec || not (size == header_size) || ltb body_size packet_size
    then disconnect_socket c
    else if packet_size == 0
    then on_read_body false 0 c'
    else (c', reads packet_size for_body ∷ [])

-- `OnWrite`.
unfoldable pub on_write : Bool → AgentClient → Result
unfolding disconnect_socket
on_write ec c = if ec then disconnect_socket c else (c, [])

-- The end of the upload of the agent's program.
unfoldable pub start_packets : AgentClient → Result
unfolding close_stream
start_packets c = (
  record c { upload_stream = close_stream c.upload_stream; state = header },
  reads header_size for_header
      ∷ (if c.heartbeat_timeout == 0 then [] else waits c.heartbeat_timeout ∷ []),
)

-- `OnWriteAgentUpload`.
unfoldable pub on_write_agent_upload : Bool → ℕ → AgentClient → Result
unfolding read_stream start_packets disconnect_socket
on_write_agent_upload ec size c =
    let (part, f) = read_stream buffer_size c.upload_stream in
    if ec || size == 0
    then disconnect_socket c
    else if not c.upload_stream.good
    then start_packets c
    else if length part == 0
    then start_packets (record c { upload_stream = f })
    else (record c { upload_stream = f }, writes part for_agent_upload ∷ [])

-- The file is at its end.
unfoldable pub finish_file : ℕ → AgentClient → Result
unfolding close_stream write_uint16 write_uint8
finish_file i c =
    let c' = with_stream i (close_stream (c.file_of i).file_stream) c in
    if (c.file_of i).run_file
    then (
      record c' { upload_state = exec_file },
      writes (write_uint16 2 ++ write_uint8 4 ++ write_uint8 0 ++ write_uint8 1) for_write ∷ [],
    )
    else (
      record c' { upload_state = not_uploading },
      writes (write_uint16 0 ++ write_uint8 3) for_write ∷ upload_finishes (some i) ∷ [],
    )

unfoldable pub next_part : ℕ → AgentClient → Result
unfolding read_stream finish_file file_part
next_part i c =
    let old = (c.file_of i).file_stream in
    let (part, f) = read_stream body_size old in
    if not old.good
    then finish_file i c
    else if length part == 0
    then finish_file i (with_stream i f c)
    else (with_stream i f c, writes (file_part part) for_file_upload ∷ [])

-- `OnWriteFileUpload`. `file_upload_info_` is not null while it is due.
unfoldable pub on_write_file_upload : Bool → AgentClient → Result
unfolding next_part disconnect_socket
on_write_file_upload ec c =
    if ec
    then disconnect_socket c
    else elim c.upload_info [ none ↦ (c, []) | some i ↦ next_part i c ]

-- The packet `kFileDlBegin`: the length of the name, its units, and the size of the file.
unfoldable pub file_begin : List ℕ → ℕ → Bytes
unfolding write_uint16 write_uint8 write_units write_uint32
file_begin name size =
    write_uint16 (1 + 2 * length name + 4)
    ++ (write_uint8 1 ++ (write_uint8 (length name) ++ (write_units name ++ write_uint32 size)))

-- The name in the agent's encoding, if it fits.
unfoldable pub agent_name : ℕ → Bytes → Option (List ℕ)
unfolding to_utf16
agent_name longest s = elim (to_utf16 0 0 0 0 s) [
  | none ↦ none
  | some name ↦ if not (length name == 0) && leb (length name) longest then some name else none
]

abbrev pub takes_packets : ConnectionState → Bool
takes_packets header = true
takes_packets body = true
takes_packets _ = false

-- A refusal is reported of the upload before.
abbrev refuse : AgentClient → Result
refuse c = (c, upload_fails c.upload_info ∷ [])

unfoldable pub begin_file : ℕ → ℕ → Option (List ℕ) → AgentClient → Result
unfolding file_begin
begin_file i size none c = refuse c
begin_file i size (some name) c = (
  record c { upload_state = create_file; upload_info = some i },
  writes (file_begin name size) for_write ∷ [],
)

-- `UploadFile`.
unfoldable pub upload : ℕ → AgentClient → Result
unfolding seek_end agent_name begin_file
upload i c =
    let file = c.file_of i in
    let size = length file.file_stream.content in
    let c' = with_stream i (seek_end file.file_stream) c in
    if is_uploading c.upload_state || not (takes_packets c.state) || not file.file_stream.good
    then refuse c
    else if file.file_stream.is_open && ltb 0 size && ltb size (2 ^ 32 - 1)
    then begin_file i size (agent_name c.max_path_component file.filename) c'
    else refuse c'

-- The handler of a read or a write, with the content of `agent_path_`, the error and the size.
unfoldable pub handle : Handler → Option Bytes → Bool → ℕ → AgentClient → Result
unfolding on_read_upload_req on_read_header on_read_body on_write on_write_agent_upload
    on_write_file_upload
handle for_upload_req file ec size c = on_read_upload_req file ec size c
handle for_header file ec size c = on_read_header ec size c
handle for_body file ec size c = on_read_body ec size c
handle for_write file ec size c = on_write ec c
handle for_agent_upload file ec size c = on_write_agent_upload ec size c
handle for_file_upload file ec size c = on_write_file_upload ec c
