-- ===== src/Uploads.antt =====
-- Uploads of files: `OnFileInstruction`, `CancelFileUpload`, `StartNextUpload` and
-- `SendUploadResultToIP` of src/CollabVM.cpp.
-- `StartFileUpload` does nothing: all of its body is a comment, and so are the actions of the
-- processing thread that end an upload. The closing of the file and the timer, which are never
-- opened, are left out.
pub mod Begun
pub mod Course
pub mod Ended
pub mod Single
pub mod Valid
use collab_vm_server.Prelude.{
  ℕ, zero, suc, ◌+◌, ◌-◌, ◌*◌, ◌/◌, ◌%◌, ◌^◌, Bool, true, false, not, ◌&&◌, ◌||◌, Option, none,
  some, List, [], ◌∷◌, ◌++◌, Bytes, codes, to_string, ltb, leb, ◌==◌, if◌then◌else◌, length, within,
  update, erase,
}
use collab_vm_server.Wire.{element, skip_space, sign, digits}
use collab_vm_server.Turns.{Outbox}
use collab_vm_server.Chat.Instruction.{c_str}
use collab_vm_server.Names.{is_filename_valid}
use collab_vm_server.Users.Rename.{is_some}
use collab_vm_server.Vms.{
  Vm, Vms, Client, UploadData, find_vm, send_upload_cooldown_time, set_upload_cooldown_time,
}
use collab_vm_server.Uploads.Valid.{head_byte, strtoul, is_file_upload_valid}

pub data HttpUploadState : Type 0 where
  not_started not_writing writing cancelled : HttpUploadState

-- `UploadInfo`.
pub record Upload : Type 0 where
  pub filename : Bytes
  pub file_size : ℕ
  pub run_file : Bool
  pub http_state : HttpUploadState

-- What the handlers read: the clock in milliseconds, the controllers, the users with their
-- controller, `connections_`, and the connections of each address.
pub record Env : Type 0 where
  pub now : ℕ
  pub vms : Vms
  pub client : ℕ → Client
  pub connected : List ℕ
  pub connections : ℕ → ℕ

-- `upload_info` and `waiting_for_upload` of each user, the upload part of each address's
-- `IPData`, `upload_count_` and `upload_queue_`.
pub record Uploads : Type 0 where
  pub info : ℕ → Option Upload
  pub waiting : ℕ → Bool
  pub data_of : ℕ → UploadData
  pub count : ℕ
  pub queue : List ℕ

abbrev pub max_file_uploads : ℕ
max_file_uploads = 10

unfoldable pub controller_of : Env → ℕ → Option Vm
unfolding find_vm
controller_of e u = elim (e.client u).controller [ none ↦ none | some k ↦ find_vm k e.vms ]

abbrev failed : ℕ → Outbox
failed u = (u, codes "4.file,1.5;") ∷ []

-- `address` is that of each user.
module _ (address : ℕ → ℕ) where
  -- The upload starts, which does nothing, or waits.
  unfoldable pub admit : ℕ → Upload → Uploads → Uploads
  admit u i s =
      let d = s.data_of (address u) in
      let taken = record s {
        info = update s.info u (some i);
        data_of = update s.data_of (address u) (record d { upload_in_progress = true });
      } in
      if not (s.count == max_file_uploads)
      then taken
      else record taken { waiting = update s.waiting u true; queue = s.queue ++ u ∷ [] }

  -- The name, the size and whether to run the file.
  unfoldable pub begin_upload : Env → ℕ → Vm → Bytes → Bytes → Bytes → Uploads → Uploads × Outbox
  unfolding admit send_upload_cooldown_time is_filename_valid is_file_upload_valid strtoul c_str
  begin_upload e u vm name size run s =
      let client = record (e.client u) { upload = s.data_of (address u) } in
      let filename = c_str name in
      let file_size = strtoul size % 2 ^ 32 in
      let (told, cooling) = send_upload_cooldown_time e.now client vm in
      if is_some (s.info u) || (s.data_of (address u)).upload_in_progress
      then (s, failed u)
      else if cooling
      then (s, told)
      else if not (is_filename_valid filename)
      then (s, [])
      else if is_file_upload_valid vm filename file_size
      then (
        admit u
            (record {
              filename = filename;
              file_size = file_size;
              run_file = head_byte run == b'1';
              http_state = not_started;
            })
            s,
        [],
      )
      else (s, failed u)

  unfoldable pub file_request : Env → ℕ → Vm → List Bytes → Uploads → Uploads × Outbox
  unfolding begin_upload
  file_request e u vm (op ∷ name ∷ size ∷ run ∷ []) s = begin_upload e u vm name size run s
  file_request e u vm args s = (s, failed u)

  unfoldable pub on_file_instruction : Env → ℕ → List Bytes → Uploads → Uploads × Outbox
  unfolding controller_of file_request
  on_file_instruction e u [] s = (s, [])
  on_file_instruction e u (op ∷ args) s = elim (controller_of e u) [
    | none ↦ (s, [])
    | some vm ↦
        if not vm.settings.uploads_enabled || not (head_byte op == b'0')
        then (s, [])
        else file_request e u vm (op ∷ args) s
  ]

  -- `upload_count_` is a `size_t`.
  unfoldable pub start_next_upload : Uploads → Uploads
  start_next_upload s = elim s.queue [
    | [] ↦ record s { count = (s.count + (2 ^ 64 - 1)) % 2 ^ 64 }
    | u ∷ q ↦ record s {
      count = (s.count + (2 ^ 64 - 1)) % 2 ^ 64;
      queue = q;
      waiting = update s.waiting u false;
    }
  ]

  unfoldable pub send_upload_result : Env → ℕ → Bytes → List ℕ → Outbox
  send_upload_result e u instr [] = []
  send_upload_result e u instr (c ∷ cs) =
      let rest = send_upload_result e u instr cs in
      if address c == address u && is_some (e.client c).controller && not (c == u)
      then (c, instr) ∷ rest
      else rest

  unfoldable pub cooldown_notice : ℕ → Bytes
  cooldown_notice time =
      if time == 0
      then codes "4.file,1.4,1.0;"
      else codes "4.file,1.4," ++ (element (to_string (time * 1000 % 2 ^ 32)) ++ b';' ∷ [])

  -- The upload is gone, the address may upload after the cooldown, and the queue goes on.
  unfoldable pub drop_upload : Env → ℕ → Vm → Uploads → Uploads × Outbox
  unfolding start_next_upload send_upload_result cooldown_notice set_upload_cooldown_time
  drop_upload e u vm s =
      let time = vm.settings.upload_cooldown_time in
      let cooled = record s {
        info = update s.info u none;
        data_of =
            update s.data_of (address u)
              (set_upload_cooldown_time e.now time (s.data_of (address u)));
      } in
      (
        (if s.waiting u
            then record cooled { waiting = update s.waiting u false; queue = erase u s.queue }
            else start_next_upload cooled),
        (if ltb 1 (e.connections (address u))
            then send_upload_result e u (cooldown_notice time) e.connected
            else []),
      )

  abbrev can_cancel : HttpUploadState → Bool
  can_cancel not_started = true
  can_cancel not_writing = true
  can_cancel _ = false

  -- `none` is undefined behaviour: the settings of a controller that is null.
  unfoldable pub cancel_file_upload : Env → ℕ → Uploads → Option (Uploads × Outbox)
  unfolding controller_of drop_upload
  cancel_file_upload e u s = elim (s.info u) [
    | none ↦ some (s, [])
    | some i ↦
        let cancelling = record s {
          info = update s.info u (some (record i { http_state = cancelled }));
        } in
        if can_cancel i.http_state
        then elim (controller_of e u) [
          | none ↦ none
          | some vm ↦ some (drop_upload e u vm cancelling)
        ]
        else some (cancelling, [])
  ]
