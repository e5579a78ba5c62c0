-- ===== src/Uploads/Ended.antt =====
-- `CancelFileUpload` and `StartNextUpload` of src/CollabVM.cpp keep the uploads in order.
use collab_vm_server.Prelude.{
  ℕ, ◌+◌, ◌-◌, ◌%◌, ◌^◌, ◌≡◌, refl, sym, subst, fun_ext, ◌∙◌, inl, inr, Bool, true, false, ◌||◌,
  Option, none, some, [], ◌∷◌, arith, ◌==◌, if◌then◌else◌, Bool-cases, Option-cases, update,
}
use collab_vm_server.Turns.{Outbox}
use collab_vm_server.Users.Rename.{is_some}
use collab_vm_server.Vms.{Vm, set_upload_cooldown_time}
use collab_vm_server.Uploads.{
  cancelled, Upload, Env, Uploads, controller_of, start_next_upload, drop_upload, can_cancel,
  cancel_file_upload,
}
use collab_vm_server.Uploads.Single.{IsSingle, left-IsSingle, ended-IsSingle, popped-IsSingle}
use collab_vm_server.Uploads.Begun.{
  has, busy, IsOrderly, is_some-update, is_some-cleared, busy-cooled, update-false,
}

module _ (address : ℕ → ℕ) where
  start_next_upload-IsOrderly :
      (s : Uploads) → IsOrderly address s → IsOrderly address (start_next_upload address s)
  unfolding start_next_upload
  start_next_upload-IsOrderly s o =
      elim s.queue
          as (λ q.
            IsSingle address (has s) (busy s) s.waiting q
            → IsOrderly address (elim q [
              | [] ↦ record s { count = (s.count + (2 ^ 64 - 1)) % 2 ^ 64 }
              | u ∷ q ↦ record s {
                count = (s.count + (2 ^ 64 - 1)) % 2 ^ 64;
                queue = q;
                waiting = update s.waiting u false;
              }
            ])) [
              | [] ↦ λ k. o
              | u ∷ q ↦ λ k.
                  popped-IsSingle address (update s.waiting u false) u q k
                    (λ v. update-false address s.waiting u v)
            ]
        o

  drop_upload-IsOrderly :
      (e : Env) (u : ℕ) (vm : Vm) (s : Uploads)
      → IsOrderly address s
      → has s u ≡ true
      → IsOrderly address (drop_upload address e u vm s).0
  unfolding drop_upload
  drop_upload-IsOrderly e u vm s o h =
      let time = vm.settings.upload_cooldown_time in
      let after =
        update s.data_of (address u)
          (set_upload_cooldown_time e.now time (s.data_of (address u))) in
      elim (Bool-cases (s.waiting u)) [
        | inl w ↦ rw w (
            left-IsSingle address o u (λ v. is_some (update s.info u none v))
              (λ a. (after a).upload_in_progress) (λ v. is_some-cleared address s.info u v)
              (λ a. busy-cooled address s.data_of (address u) a e.now time) h
              (update s.waiting u false) (λ v. update-false address s.waiting u v))
        | inr w ↦ rw w (
            start_next_upload-IsOrderly (record s { info = update s.info u none; data_of = after })
              (ended-IsSingle address o u (λ v. is_some (update s.info u none v))
                (λ a. (after a).upload_in_progress) (λ v. is_some-cleared address s.info u v)
                (λ a. busy-cooled address s.data_of (address u) a e.now time) h w))
      ]

  -- The result of a cancellation, if there is one.
  abbrev pub Goes : Option (Uploads × Outbox) → Type 0
  Goes none = Unit
  Goes (some r) = IsOrderly address r.0

  -- The first change marks the upload as cancelled.
  marked-IsOrderly :
      (u : ℕ) (i j : Upload) (s : Uploads)
      → IsOrderly address s
      → s.info u ≡ some j
      → IsOrderly address (record s { info = update s.info u (some i) })
  marked-IsOrderly u i j s o h =
      subst (λ (f : ℕ → Bool). IsSingle address f (busy s) s.waiting s.queue)
        (fun_ext λ v. sym (is_some-update address s.info u v i ∙ kept v)) o
    where
      kept : (v : ℕ) → (v == u || is_some (s.info v)) ≡ is_some (s.info v)
      kept v = elim (Bool-cases (v == u)) [
        | inl e ↦ let q : v ≡ u = ground arith in rw (e, q, h) refl
        | inr e ↦ rw e refl
      ]

  cancelling-Goes :
      (e : Env) (u : ℕ) (i j : Upload) (s : Uploads) (b : Bool)
      → IsOrderly address s
      → s.info u ≡ some j
      → Goes (
          if b
          then elim (controller_of e u) [
            | none ↦ none
            | some vm ↦
                some (drop_upload address e u vm (record s { info = update s.info u (some i) }))
          ]
          else some (record s { info = update s.info u (some i) }, []))
  cancelling-Goes e u i j s false o h = marked-IsOrderly u i j s o h
  cancelling-Goes e u i j s true o h =
      elim (controller_of e u)
        as (λ c. Goes (elim c [
          | none ↦ none
          | some vm ↦
              some (drop_upload address e u vm (record s { info = update s.info u (some i) }))
        ])) [
          | none ↦ tt
          | some vm ↦
              drop_upload-IsOrderly e u vm (record s { info = update s.info u (some i) })
                (marked-IsOrderly u i j s o h) (is_some-update address s.info u u i ∙ ground arith)
        ]

  pub cancel_file_upload-Goes :
      (e : Env) (u : ℕ) (s : Uploads)
      → IsOrderly address s
      → Goes (cancel_file_upload address e u s)
  unfolding cancel_file_upload
  cancel_file_upload-Goes e u s o = elim (Option-cases (s.info u)) [
    | inl n ↦ rw (cancel_file_upload, n) o
    | inr (i, h) ↦
        rw (cancel_file_upload, h)
          (cancelling-Goes e u (record i { http_state = cancelled }) i s
            (can_cancel address i.http_state) o h)
  ]
