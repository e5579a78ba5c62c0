-- ===== src/Uploads/Begun.antt =====
-- `OnFileInstruction` of src/CollabVM.cpp keeps the uploads in order.
use collab_vm_server.Prelude.{
  ℕ, ◌%◌, ◌^◌, ◌≡◌, refl, inl, inr, Bool, true, false, not, ◌&&◌, ◌||◌, Option, none, some, List,
  [], ◌∷◌, Bytes, arith, ◌==◌, if◌then◌else◌, Bool-cases, update,
}
use collab_vm_server.Turns.{Outbox}
use collab_vm_server.Chat.Instruction.{c_str}
use collab_vm_server.Names.{is_filename_valid}
use collab_vm_server.Users.Rename.{is_some}
use collab_vm_server.Vms.{Vm, UploadData, send_upload_cooldown_time, set_upload_cooldown_time}
use collab_vm_server.Uploads.{
  not_started, Upload, Env, Uploads, max_file_uploads, controller_of, failed, admit, begin_upload,
  file_request, on_file_instruction,
}
use collab_vm_server.Uploads.Valid.{head_byte, strtoul, is_file_upload_valid}
use collab_vm_server.Uploads.Single.{or-left, or-right, IsSingle, started-IsSingle, waits-IsSingle}

abbrev pub has : Uploads → ℕ → Bool
has s u = is_some (s.info u)

abbrev pub busy : Uploads → ℕ → Bool
busy s a = (s.data_of a).upload_in_progress

module _ (address : ℕ → ℕ) where
  -- Each user that has an upload has an address that is marked, no two such users have the same
  -- address, and the queue holds the users that wait, who have an upload, once each.
  abbrev pub IsOrderly : Uploads → Type 0
  IsOrderly s = IsSingle address (has s) (busy s) s.waiting s.queue

  pub is_some-update :
      (f : ℕ → Option Upload) (u v : ℕ) (i : Upload)
      → is_some (update f u (some i) v) ≡ (v == u || is_some (f v))
  is_some-update f u v i = elim (Bool-cases (v == u)) [ inl e ↦ rw e refl | inr e ↦ rw e refl ]

  pub is_some-cleared :
      (f : ℕ → Option Upload) (u v : ℕ)
      → is_some (update f u none v) ≡ (not (v == u) && is_some (f v))
  is_some-cleared f u v = elim (Bool-cases (v == u)) [ inl e ↦ rw e refl | inr e ↦ rw e refl ]

  update-true : (f : ℕ → Bool) (u v : ℕ) → update f u true v ≡ (v == u || f v)
  update-true f u v = ground arith

  pub update-false : (f : ℕ → Bool) (u v : ℕ) → update f u false v ≡ (not (v == u) && f v)
  update-false f u v = ground arith

  busy-marked :
      (f : ℕ → UploadData) (k a : ℕ)
      → (update f k (record (f k) { upload_in_progress = true }) a).upload_in_progress
        ≡ (a == k || (f a).upload_in_progress)
  busy-marked f k a = elim (Bool-cases (a == k)) [ inl e ↦ rw e refl | inr e ↦ rw e refl ]

  pub busy-cooled :
      (f : ℕ → UploadData) (k a now time : ℕ)
      → (update f k (set_upload_cooldown_time now time (f k)) a).upload_in_progress
        ≡ (not (a == k) && (f a).upload_in_progress)
  unfolding set_upload_cooldown_time
  busy-cooled f k a now time = elim (Bool-cases (a == k)) [ inl e ↦ rw e refl | inr e ↦ rw e refl ]

  admit-IsOrderly :
      (u : ℕ) (i : Upload) (s : Uploads)
      → IsOrderly s
      → has s u ≡ false
      → busy s (address u) ≡ false
      → IsOrderly (admit address u i s)
  unfolding admit
  admit-IsOrderly u i s o f b =
      let marked =
        update s.data_of (address u)
          (record (s.data_of (address u)) { upload_in_progress = true }) in
      elim (Bool-cases (s.count == max_file_uploads)) [
        | inl e ↦ rw e (
            waits-IsSingle address o u (λ v. is_some (update s.info u (some i) v))
              (λ a. (marked a).upload_in_progress) (λ v. is_some-update s.info u v i)
              (λ a. busy-marked s.data_of (address u) a) f b (update s.waiting u true)
              (λ v. update-true s.waiting u v))
        | inr e ↦ rw e (
            started-IsSingle address o u (λ v. is_some (update s.info u (some i) v))
              (λ a. (marked a).upload_in_progress) (λ v. is_some-update s.info u v i)
              (λ a. busy-marked s.data_of (address u) a) f b)
      ]

  abbrev Leaves : Uploads × Outbox → Type 0
  Leaves r = IsOrderly r.0

  if-IsOrderly :
      (b : Bool) (x y : Uploads × Outbox)
      → IsOrderly x.0
      → (b ≡ false → IsOrderly y.0)
      → IsOrderly (if b then x else y).0
  if-IsOrderly true x y p q = p
  if-IsOrderly false x y p q = q refl

  begin_upload-IsOrderly :
      (e : Env) (u : ℕ) (vm : Vm) (name size run : Bytes) (s : Uploads)
      → IsOrderly s
      → IsOrderly (begin_upload address e u vm name size run s).0
  unfolding begin_upload
  begin_upload-IsOrderly e u vm name size run s o =
      let client = record (e.client u) { upload = s.data_of (address u) } in
      let asked : Upload = record {
        filename = c_str name;
        file_size = strtoul size % 2 ^ 32;
        run_file = head_byte run == b'1';
        http_state = not_started;
      } in
      if-IsOrderly (has s u || busy s (address u)) _ _ o (λ f.
        if-IsOrderly (send_upload_cooldown_time e.now client vm).1 _ _ o (λ c.
          if-IsOrderly (not (is_filename_valid (c_str name))) _ _ o (λ n.
            elim (is_file_upload_valid vm (c_str name) (strtoul size % 2 ^ 32))
              as (λ b. Leaves (if b then (admit address u asked s, []) else (s, failed u))) [
                | true ↦
                    admit-IsOrderly u asked s o (or-left (has s u) (busy s (address u)) f)
                      (or-right (has s u) (busy s (address u)) f)
                | false ↦ o
              ])))

  file_request-IsOrderly :
      (e : Env) (u : ℕ) (vm : Vm) (args : List Bytes) (s : Uploads)
      → IsOrderly s
      → IsOrderly (file_request address e u vm args s).0
  unfolding file_request
  file_request-IsOrderly e u vm (op ∷ name ∷ size ∷ run ∷ []) s o =
      begin_upload-IsOrderly e u vm name size run s o
  file_request-IsOrderly e u vm _ s o = o

  pub on_file_instruction-IsOrderly :
      (e : Env) (u : ℕ) (args : List Bytes) (s : Uploads)
      → IsOrderly s
      → IsOrderly (on_file_instruction address e u args s).0
  unfolding on_file_instruction
  on_file_instruction-IsOrderly e u [] s o = o
  on_file_instruction-IsOrderly e u (op ∷ args) s o =
      elim (controller_of e u)
        as (λ c. Leaves (elim c [
          | none ↦ (s, [])
          | some vm ↦
              if not vm.settings.uploads_enabled || not (head_byte op == b'0')
              then (s, [])
              else file_request address e u vm (op ∷ args) s
        ])) [
          | none ↦ o
          | some vm ↦
              if-IsOrderly (not vm.settings.uploads_enabled || not (head_byte op == b'0')) _ _ o
                (λ k. file_request-IsOrderly e u vm (op ∷ args) s o)
        ]
