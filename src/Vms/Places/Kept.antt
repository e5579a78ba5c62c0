-- ===== src/Vms/Places/Kept.antt =====
-- Requests to join and ends of connections of src/CollabVM.cpp keep each user in one list.
use collab_vm_server.Prelude.{
  ℕ, ◌≡◌, sym, subst, inl, inr, Bool, true, false, some, List, [], ◌∷◌, Bytes, arith, Bool-cases,
  update,
}
use collab_vm_server.Turns.{Outbox}
use collab_vm_server.Vms.{Vm, Vms, UploadData, Client, World, find_vm, write_vm}
use collab_vm_server.Vms.Connect.{
  Answer, ignored, unknown, held, joins, Meets, outcome, on_connect-answers,
}
use collab_vm_server.Vms.Places.{
  Places, Event, asks, leaves, handle_connect, end_connection, step, run, IsPlaced,
}
use collab_vm_server.Vms.Places.Moved.{leave_vm-Lists, join-Lists, Lists-ext}

end_connection-IsPlaced : (u : ℕ) (s : Places) → IsPlaced s → IsPlaced (end_connection u s)
unfolding end_connection
end_connection-IsPlaced u s h = record {
  own = λ w. ground (arith, h.own w, h.own u);
  idle = λ w. ground (arith, h.idle w);
  lists =
      Lists-ext (λ w. ground arith) (leave_vm-Lists u (λ w. (s.client w).controller) s.vms h.lists);
}

-- The user's record with what other instructions have written.
abbrev refreshed : Places → ℕ → Bool → Bool → UploadData → Client
refreshed s u named fixed upload = record (s.client u) {
  named = named;
  name_fixed = fixed;
  upload = upload;
}

stay-IsPlaced :
    (u : ℕ) (named fixed : Bool) (upload : UploadData) (s : Places)
    → IsPlaced s
    → IsPlaced (record s { client = update s.client u (refreshed s u named fixed upload) })
stay-IsPlaced u named fixed upload s h = record {
  own = λ w. ground (arith, h.own w, h.own u);
  idle = λ w. ground (arith, h.idle w);
  lists = Lists-ext (λ w. ground arith) h.lists;
}

join-IsPlaced :
    (u : ℕ) (named fixed : Bool) (upload : UploadData) (name : Bytes) (vm : Vm) (s : Places)
    → (s.client u).viewing ≡ false
    → find_vm name s.vms ≡ some vm
    → IsPlaced s
    → IsPlaced (record s {
      vms = write_vm name (record vm { users = (s.client u).id ∷ vm.users }) s.vms;
      client =
          update s.client u
            (record (refreshed s u named fixed upload) { viewing = true; controller = some name });
    })
join-IsPlaced u named fixed upload name vm s out found h = record {
  own = λ w. ground (arith, h.own w, h.own u);
  idle = λ w. ground (arith, h.idle w);
  lists = rw (h.own u) (
      Lists-ext (λ w. ground arith)
        (join-Lists u (λ w. (s.client w).controller) name vm s.vms (h.idle u out) found h.lists));
}

-- The state after an instruction with this result.
abbrev put : ℕ → Places → Vms × Client × Outbox → Places
put u s r = record s { vms = r.0; client = update s.client u r.1 }

answer-IsPlaced :
    (w : World) (u : ℕ) (named fixed : Bool) (upload : UploadData) (args : List Bytes) (s : Places)
    (a : Answer)
    → Meets (refreshed s u named fixed upload) args s.vms a
    → IsPlaced s
    → IsPlaced (put u s (outcome w (refreshed s u named fixed upload) s.vms a))
answer-IsPlaced w u named fixed upload args s ignored m h = stay-IsPlaced u named fixed upload s h
answer-IsPlaced w u named fixed upload args s unknown m h = stay-IsPlaced u named fixed upload s h
answer-IsPlaced w u named fixed upload args s (held vm) m h = stay-IsPlaced u named fixed upload s h
answer-IsPlaced w u named fixed upload args s (joins name vm) (asked, found, f) h =
    join-IsPlaced u named fixed upload name vm s asked.not_viewing found.1 h

handle_connect-IsPlaced :
    (w : World) (u : ℕ) (named fixed : Bool) (upload : UploadData) (args : List Bytes) (s : Places)
    → IsPlaced s
    → IsPlaced (handle_connect w u (refreshed s u named fixed upload) args s)
unfolding handle_connect
handle_connect-IsPlaced w u named fixed upload args s h =
    let (answered, told) = on_connect-answers w (refreshed s u named fixed upload) args s.vms in
    subst (λ (r : Vms × Client × Outbox). IsPlaced (put u s r)) (sym (told answered.0 answered.1))
      (answer-IsPlaced w u named fixed upload args s answered.0 answered.1 h)

step-IsPlaced : (e : Event) (s : Places) → IsPlaced s → IsPlaced (step e s)
unfolding step
step-IsPlaced (asks w u named fixed upload args) s h = elim (Bool-cases (s.connected u)) [
  | inl c ↦ rw c (handle_connect-IsPlaced w u named fixed upload args s h)
  | inr c ↦ rw c h
]
step-IsPlaced (leaves u) s h = elim (Bool-cases (s.connected u)) [
  | inl c ↦ rw c (end_connection-IsPlaced u s h)
  | inr c ↦ rw c h
]

-- Where each user stands in the list of the VM that it is in, once, and in no other VM's list, and
-- users that view no VM are in none, this holds after any course of requests to join, whatever
-- their arguments, and ends of connections.
pub run-IsPlaced : (es : List Event) (s : Places) → IsPlaced s → IsPlaced (run es s)
unfolding run
run-IsPlaced [] s h = h
run-IsPlaced (e ∷ es) s h = run-IsPlaced es (step e s) (step-IsPlaced e s h)
