-- ===== src/Vms/Places.antt =====
-- Which VM's list each user stands in, over courses of requests to join and ends of connections of
-- src/CollabVM.cpp.
pub mod Moved
pub mod Kept
use collab_vm_server.Prelude.{
  ℕ, ◌≡◌, ◌⊎◌, sym, subst, fun_ext, inl, inr, Bool, true, false, Option, none, some, List, [], ◌∷◌,
  Bytes, arith, if◌then◌else◌, Bool-cases, Option-cases, update, mem, erase, Distinct, mem-erase,
  Distinct-erase, equal, equal_refl, equal_sound,
}
use collab_vm_server.Turns.{Outbox}
use collab_vm_server.Vms.{
  Vm, Vms, UploadData, Client, World, find_vm, write_vm, leave_vm, on_connect_instruction,
}
use collab_vm_server.Vms.Connect.{
  Answer, ignored, unknown, held, joins, Meets, outcome, on_connect-answers,
}

-- The map, the users, and which of them are connected.
pub record Places : Type 0 where
  pub vms : Vms
  pub client : ℕ → Client
  pub connected : ℕ → Bool

-- The first event carries the fields that other instructions have written meanwhile.
pub data Event : Type 0 where
  asks : World → ℕ → Bool → Bool → UploadData → List Bytes → Event
  leaves : ℕ → Event

-- An instruction of a user that is connected.
unfoldable pub handle_connect : World → ℕ → Client → List Bytes → Places → Places
unfolding on_connect_instruction
handle_connect w u c args s =
    let (vms, c', out) = on_connect_instruction w c args s.vms in
    record s { vms = vms; client = update s.client u c' }

-- `RemoveConnection`, as far as VMs go: what `guac_user` points to is deleted, and it stays.
unfoldable pub end_connection : ℕ → Places → Places
unfolding leave_vm
end_connection u s = record s {
  vms = leave_vm (s.client u).controller u s.vms;
  client = update s.client u (record (s.client u) { controller = none });
  connected = update s.connected u false;
}

unfoldable pub step : Event → Places → Places
unfolding handle_connect end_connection
step (asks w u named fixed upload args) s =
    if s.connected u
    then handle_connect w u
        (record (s.client u) { named = named; name_fixed = fixed; upload = upload }) args s
    else s
step (leaves u) s = if s.connected u then end_connection u s else s

unfoldable pub run : List Event → Places → Places
unfolding step
run [] s = s
run (e ∷ es) s = run es (step e s)

-- Whether the user is in the VM of this key.
abbrev pub is_in : Option Bytes → Bytes → Bool
is_in none k = false
is_in (some name) k = equal name k

-- A user is in the list of the VM that it is in, once, and in no other.
pub record Lists (place : ℕ → Option Bytes) (vms : Vms) : Type 0 where
  pub distinct : (k : Bytes) (vm : Vm) → find_vm k vms ≡ some vm → Distinct vm.users
  pub listed :
      (k : Bytes) (vm : Vm) → find_vm k vms ≡ some vm → (u : ℕ) → mem u vm.users ≡ is_in (place u) k

-- A user that views no VM is in none.
pub record IsPlaced (s : Places) : Type 0 where
  pub own : (u : ℕ) → (s.client u).id ≡ u
  pub idle : (u : ℕ) → (s.client u).viewing ≡ false → (s.client u).controller ≡ none
  pub lists : Lists (λ u. (s.client u).controller) s.vms
