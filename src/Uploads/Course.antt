-- ===== src/Uploads/Course.antt =====
-- Any course of `OnFileInstruction` and `CancelFileUpload` of src/CollabVM.cpp.
use collab_vm_server.Prelude.{ℕ, Option, none, some, List, [], ◌∷◌, Bytes}
use collab_vm_server.Turns.{Outbox}
use collab_vm_server.Uploads.{Env, Uploads, on_file_instruction, cancel_file_upload}
use collab_vm_server.Uploads.Begun.{IsOrderly, on_file_instruction-IsOrderly}
use collab_vm_server.Uploads.Ended.{Goes, cancel_file_upload-Goes}

-- A user sends a file instruction, or its connection ends.
pub data Event : Type 0 where
  sends : Env → ℕ → List Bytes → Event
  leaves : Env → ℕ → Event

module _ (address : ℕ → ℕ) where
  unfoldable pub step : Event → Uploads → Option (Uploads × Outbox)
  unfolding on_file_instruction cancel_file_upload
  step (sends e u args) s = some (on_file_instruction address e u args s)
  step (leaves e u) s = cancel_file_upload address e u s

  step-Goes : (x : Event) (s : Uploads) → IsOrderly address s → Goes address (step x s)
  unfolding step
  step-Goes (sends e u args) s o = on_file_instruction-IsOrderly address e u args s o
  step-Goes (leaves e u) s o = cancel_file_upload-Goes address e u s o

  -- The states of a course of events, until one has no result.
  unfoldable pub states : List Event → Uploads → List Uploads
  unfolding step
  states [] s = s ∷ []
  states (x ∷ xs) s = elim (step x s) [ none ↦ s ∷ [] | some (s', out) ↦ s ∷ states xs s' ]

  abbrev pub AllOrderly : List Uploads → Type 0
  AllOrderly [] = Unit
  AllOrderly (s ∷ ss) = IsOrderly address s × AllOrderly ss

-- From an orderly state, all states are orderly in any course of file instructions, whatever their
-- arguments, and ends of connections, up to one whose behaviour is undefined: each user that has an
-- upload has an address that is marked, no two such users have the same address, and the queue
-- holds exactly the users that wait, who have an upload, once each.
pub states-AllOrderly :
    (address : ℕ → ℕ) (xs : List Event) (s : Uploads)
    → IsOrderly address s
    → AllOrderly address (states address xs s)
unfolding states
states-AllOrderly address [] s o = (o, tt)
states-AllOrderly address (x ∷ xs) s o =
    elim (step address x s)
        as (λ r.
          Goes address r
          → AllOrderly address
              (elim r [ none ↦ s ∷ [] | some (s', out) ↦ s ∷ states address xs s' ])) [
                | none ↦ λ k. (o, tt)
                | some (s', out) ↦ λ k. (o, states-AllOrderly address xs s' k)
              ]
      (step-Goes address x s o)
