-- ===== src/Agent/State.antt =====
-- The state of `AgentClient` of src/Sockets/AgentClient.h, and its socket of
-- src/Sockets/SocketClient.h.
use collab_vm_server.Prelude.{
  ℕ, ◌+◌, Bool, true, false, not, ◌&&◌, Option, none, some, List, [], ◌∷◌, ◌++◌, Bytes, leb,
  if◌then◌else◌, length, take, drop,
}

pub data ConnectionState : Type 0 where
  not_connected connecting agent_upload header body : ConnectionState

pub data UploadState : Type 0 where
  not_uploading create_file upload_file exec_file : UploadState

-- A file stream: whether it is open and good, the whole content, and what is not read yet.
pub record FileStream : Type 0 where
  pub is_open : Bool
  pub good : Bool
  pub content : Bytes
  pub unread : Bytes

-- The fields of `UploadInfo` that the client reads.
pub record UploadFile : Type 0 where
  pub filename : Bytes
  pub run_file : Bool
  pub file_stream : FileStream

-- The function that is called when a read or a write has ended.
pub data Handler : Type 0 where
  for_upload_req for_header for_body : Handler
  for_write for_agent_upload for_file_upload : Handler

-- What the client does, in order. `reads` and `writes` are `DoRead` and `DoWrite`; the calls from
-- `agent_connects` on are those of the controller, if it is still there.
pub data Effect : Type 0 where
  opens_socket closes_socket : Effect
  reads : ℕ → Handler → Effect
  writes : Bytes → Handler → Effect
  waits : ℕ → Effect
  agent_connects : Bytes → Bytes → Bytes → Bytes → ℕ → Effect
  agent_disconnects : Bool → Effect
  heartbeat_times_out : Effect
  upload_starts : Option ℕ → Option Bytes → Effect
  upload_fails upload_finishes : Option ℕ → Effect
  exec_finishes : Option ℕ → Bool → Effect

-- An upload is known by a number. `context` is `socket_ctx_`, and `next_context` the number of the
-- next one; `pending` holds the handlers of reads and writes that have not ended, each with the
-- context that it was given.
pub record AgentClient : Type 0 where
  pub state : ConnectionState
  pub connect_received : Bool
  pub upload_state : UploadState
  pub upload_info : Option ℕ
  pub packet_size : ℕ
  pub packet_opcode : ℕ
  pub max_path_component : ℕ
  pub heartbeat_timeout : ℕ
  pub read_buf : Bytes
  pub upload_stream : FileStream
  pub file_of : ℕ → UploadFile
  pub context : Option ℕ
  pub next_context : ℕ
  pub pending : List (ℕ × Handler)

abbrev pub is_connected : ConnectionState → Bool
is_connected not_connected = false
is_connected _ = true

abbrev pub is_connecting : ConnectionState → Bool
is_connecting connecting = true
is_connecting _ = false

abbrev pub is_uploading : UploadState → Bool
is_uploading not_uploading = false
is_uploading _ = true

abbrev pub buffer_size : ℕ
buffer_size = 8192

abbrev pub header_size : ℕ
header_size = 3

abbrev pub body_size : ℕ
body_size = 8189

-- `read` into a buffer: a stream that is not good gives nothing, and one that has too little fails.
unfoldable pub read_stream : ℕ → FileStream → Bytes × FileStream
read_stream n f =
    if f.is_open && f.good
    then (take n f.unread, record f { good = leb n (length f.unread); unread = drop n f.unread })
    else ([], record f { good = false })

-- `seekg(0)`.
unfoldable pub rewind : FileStream → FileStream
rewind f =
    if f.is_open && f.good then record f { unread = f.content } else record f { good = false }

-- `seekg(0, end)`.
unfoldable pub seek_end : FileStream → FileStream
seek_end f = if f.is_open && f.good then record f { unread = [] } else record f { good = false }

-- `close`, which fails on a stream that is not open.
unfoldable pub close_stream : FileStream → FileStream
close_stream f = record f { is_open = false; good = f.good && f.is_open }

abbrev pub Result : Type 0
Result = AgentClient × List Effect

-- The effects come after those of a result.
abbrev pub then_also : List Effect → Result → Result
then_also es (c, fs) = (c, es ++ fs)

-- `OnDisconnect`.
unfoldable pub on_disconnect : AgentClient → Result
on_disconnect c = (
  record c { state = not_connected },
  (if is_uploading c.upload_state then upload_fails c.upload_info ∷ [] else [])
      ++ agent_disconnects (not (is_connecting c.state)) ∷ [],
)

-- `DisconnectSocket`.
unfoldable pub disconnect_socket : AgentClient → Result
unfolding on_disconnect
disconnect_socket c = elim c.context [
  | none ↦ (c, [])
  | some k ↦ then_also (closes_socket ∷ []) (on_disconnect (record c { context = none }))
]

-- `Connect`.
unfoldable pub connect : AgentClient → Result
connect c = if is_connected c.state then (c, []) else (
  record c {
    state = connecting;
    connect_received = false;
    upload_state = not_uploading;
    context = elim c.context [ none ↦ some c.next_context | some k ↦ some k ];
    next_context = elim c.context [ none ↦ c.next_context + 1 | some k ↦ c.next_context ];
  },
  elim c.context [ none ↦ opens_socket ∷ [] | some k ↦ [] ],
)

-- `Disconnect`.
unfoldable pub disconnect : AgentClient → Result
unfolding disconnect_socket
disconnect c = if is_connected c.state then disconnect_socket c else (c, [])
