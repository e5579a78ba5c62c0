-- ===== src/Settings/Keyed.antt =====
-- The map of VMs under changes by `AddVM` and `RemoveVM` of src/Database/Database.cpp.
use collab_vm_server.Prelude.{
  ◌≡◌, refl, sym, ◌∙◌, inl, inr, true, false, List, [], ◌∷◌, Bytes, arith, equal, equal_sound,
  Bool-cases,
}
use collab_vm_server.Users.{less}
use collab_vm_server.Settings.Vm.{VmSettings}
use collab_vm_server.Settings.Store.{put_key, remove_key}

less_trans : (a b c : Bytes) → less a b ≡ true → less b c ≡ true → less a c ≡ true
unfolding less
less_trans [] (y ∷ b) (z ∷ c) h k = refl
less_trans (x ∷ a) (y ∷ b) (z ∷ c) h k = ground (arith, less_trans a b c)
less_trans [] [] c h k = cc
less_trans (x ∷ a) [] c h k = cc
less_trans a (y ∷ b) [] h k = cc

less_total : (a b : Bytes) → equal a b ≡ false → less b a ≡ false → less a b ≡ true
unfolding less equal
less_total [] [] h k = cc
less_total [] (y ∷ b) h k = refl
less_total (x ∷ a) [] h k = cc
less_total (x ∷ a) (y ∷ b) h k = ground (arith, less_total a b)

-- The first key of the map is after this one.
abbrev pub IsBefore : Bytes → List (Bytes × VmSettings) → Type 0
IsBefore n [] = Unit
IsBefore n ((k, s) ∷ m) = less n k ≡ true

-- Each VM stands in the map under its own name, and the names ascend, so each is there once.
abbrev pub IsKeyed : List (Bytes × VmSettings) → Type 0
IsKeyed [] = Unit
IsKeyed ((n, s) ∷ m) = (s.name ≡ n) × IsBefore n m × IsKeyed m

put_key-IsBefore :
    (n k : Bytes) (s : VmSettings) (m : List (Bytes × VmSettings))
    → less n k ≡ true
    → IsBefore n m
    → IsBefore n (put_key k s m)
unfolding put_key
put_key-IsBefore n k s [] h b = h
put_key-IsBefore n k s ((x, t) ∷ m) h b = elim (Bool-cases (equal x k)) [
  | inl e ↦ rw e b
  | inr e ↦ elim (Bool-cases (less k x)) [ inl l ↦ rw (e, l) h | inr l ↦ rw (e, l) b ]
]

pub put_key-IsKeyed :
    (k : Bytes) (s : VmSettings) (m : List (Bytes × VmSettings))
    → s.name ≡ k
    → IsKeyed m
    → IsKeyed (put_key k s m)
unfolding put_key
put_key-IsKeyed k s [] h i = (h, tt, tt)
put_key-IsKeyed k s ((x, t) ∷ m) h i = elim (Bool-cases (equal x k)) [
  | inl e ↦ rw e (h ∙ sym (equal_sound x k e), i.1, i.2)
  | inr e ↦ elim (Bool-cases (less k x)) [
    | inl l ↦ rw (e, l) (h, l, i)
    | inr l ↦
        rw (e, l)
          (i.0, put_key-IsBefore x k s m (less_total x k e l) i.1, put_key-IsKeyed k s m h i.2)
  ]
]

IsBefore-trans :
    (n x : Bytes) (m : List (Bytes × VmSettings)) → less n x ≡ true → IsBefore x m → IsBefore n m
IsBefore-trans n x [] h b = tt
IsBefore-trans n x ((y, t) ∷ m) h b = less_trans n x y h b

remove_key-IsBefore :
    (n k : Bytes) (m : List (Bytes × VmSettings))
    → IsBefore n m
    → IsKeyed m
    → IsBefore n (remove_key k m)
unfolding remove_key
remove_key-IsBefore n k [] b i = tt
remove_key-IsBefore n k ((x, t) ∷ m) b i = elim (Bool-cases (equal x k)) [
  | inl e ↦ rw e (IsBefore-trans n x m b i.1)
  | inr e ↦ rw e b
]

pub remove_key-IsKeyed :
    (k : Bytes) (m : List (Bytes × VmSettings)) → IsKeyed m → IsKeyed (remove_key k m)
unfolding remove_key
remove_key-IsKeyed k [] i = tt
remove_key-IsKeyed k ((x, t) ∷ m) i = elim (Bool-cases (equal x k)) [
  | inl e ↦ rw e i.2
  | inr e ↦ rw e (i.0, remove_key-IsBefore x k m i.1 i.2, remove_key-IsKeyed k m i.2)
]
