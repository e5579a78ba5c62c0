-- ===== src/Vms/Places/Moved.antt =====
-- The lists of the VMs of src/CollabVM.cpp when a user is put in one or taken from one.
use collab_vm_server.Prelude.{
  ℕ, ◌≡◌, ◌⊎◌, subst, fun_ext, inl, inr, false, Option, none, some, [], ◌∷◌, Bytes, arith,
  if◌then◌else◌, Option-cases, update, mem, erase, mem-erase, Distinct-erase, equal, equal_refl,
  equal_sound,
}
use collab_vm_server.Vms.{Vm, Vms, find_vm, write_vm, leave_vm}
use collab_vm_server.Vms.Places.{Lists}

find_vm-write_vm :
    (k j : Bytes) (old vm : Vm) (m : Vms)
    → find_vm k m ≡ some old
    → find_vm j (write_vm k vm m) ≡ (if equal k j then some vm else find_vm j m)
unfolding find_vm write_vm
find_vm-write_vm k j old vm [] h = cc
find_vm-write_vm k j old vm ((n, v) ∷ m) h = ground (
  arith,
  equal_sound n k,
  equal_sound n j,
  equal_sound k j,
  equal_refl j,
  find_vm-write_vm k j old vm m,
)

-- A write to one VM leaves the others as they are.
written :
    (name k : Bytes) (old vm v : Vm) (vms : Vms)
    → find_vm name vms ≡ some old
    → find_vm k (write_vm name vm vms) ≡ some v
    → ((name ≡ k) × (v ≡ vm)) ⊎ ((equal name k ≡ false) × (find_vm k vms ≡ some v))
written name k old vm v vms was h =
    ground (arith, find_vm-write_vm name k old vm vms was, equal_sound name k)

module _ (u : ℕ) (place : ℕ → Option Bytes) where
  -- The list that the user is taken from.
  erase-Lists :
      (name : Bytes) (old : Vm) (vms : Vms)
      → place u ≡ some name
      → find_vm name vms ≡ some old
      → Lists place vms
      → Lists (update place u none) (write_vm name (record old { users = erase u old.users }) vms)
  erase-Lists name old vms at was h = record {
    distinct = λ k v e. elim (written name k old _ v vms was e) [
      | inl (n, q) ↦ rw q (Distinct-erase u old.users (h.distinct name old was))
      | inr (n, q) ↦ h.distinct k v q
    ];
    listed = λ k v e w. elim (written name k old _ v vms was e) [
      | inl (n, q) ↦
          rw (q, ← n)
            (ground
              (arith, mem-erase u w old.users (h.distinct name old was), h.listed name old was w))
      | inr (n, q) ↦ ground (arith, h.listed k v q w)
    ];
  }

  pub leave_vm-Lists :
      (vms : Vms) → Lists place vms → Lists (update place u none) (leave_vm (place u) u vms)
  unfolding leave_vm
  leave_vm-Lists vms h = elim (Option-cases (place u)) [
    | inl n ↦
        rw (n, leave_vm)
          (record { distinct = h.distinct; listed = λ k v e w. ground (arith, h.listed k v e w) })
    | inr (name, n) ↦ elim (Option-cases (find_vm name vms)) [
      | inl f ↦
          rw (n, leave_vm)
            (rw (f, leave_vm)
              (record {
                distinct = h.distinct;
                listed = λ k v e w. ground (arith, h.listed k v e w, equal_sound name k);
              }))
      | inr (old, f) ↦ rw (n, leave_vm) (rw (f, leave_vm) (erase-Lists name old vms n f h))
    ]
  ]

  -- The list that the user is put in.
  pub join-Lists :
      (name : Bytes) (old : Vm) (vms : Vms)
      → place u ≡ none
      → find_vm name vms ≡ some old
      → Lists place vms
      → Lists
          (update place u (some name))
          (write_vm name (record old { users = u ∷ old.users }) vms)
  unfolding mem
  join-Lists name old vms at was h = record {
    distinct = λ k v e. elim (written name k old _ v vms was e) [
      | inl (n, q) ↦ rw q (ground (arith, h.listed name old was u), h.distinct name old was)
      | inr (n, q) ↦ h.distinct k v q
    ];
    listed = λ k v e w. elim (written name k old _ v vms was e) [
      | inl (n, q) ↦ rw (q, ← n) (ground (arith, h.listed name old was w, equal_refl name))
      | inr (n, q) ↦ ground (arith, h.listed k v q w)
    ];
  }

-- What the lists say of users is the same for equal places.
pub Lists-ext :
    {place place' : ℕ → Option Bytes} {vms : Vms}
    → ((u : ℕ) → place u ≡ place' u)
    → Lists place vms
    → Lists place' vms
Lists-ext {place} {place'} {vms} e h = subst (λ (p : ℕ → Option Bytes). Lists p vms) (fun_ext e) h
