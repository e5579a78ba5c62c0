-- ===== src/Settings/Named.antt =====
-- The name of a VM after `ParseVMSettings` of src/CollabVM.cpp.
use collab_vm_server.Prelude.{
  ◌≡◌, refl, inl, inr, Bool, true, false, ◌&&◌, Option, none, some, [], ◌∷◌, ◌++◌, Bytes, codes,
  arith, equal, Bool-cases, if◌then◌else◌, List, ◌||◌,
}
use collab_vm_server.Settings.{
  Value, Members, Effect, sets, fails, undefined, Progress, apply_effect, find_setting, set_member,
  set_members, writes_bool,
}
use collab_vm_server.Settings.Vm.{
  VmSettings, VmSetting, name, vm_settings, vm_key, set_vm_setting, parse_vm_settings,
}
use collab_vm_server.Settings.Gives.{is_text, Gives, is_allowed, set_vm_setting-Gives}

-- Whether all members that are called `name` are this text.
abbrev pub fits_name : Bytes → Bytes → Value → Bool
fits_name n key v = if equal key (codes "name") then is_text n v else true

abbrev pub names_agree : Bytes → Members → Bool
names_agree n [] = true
names_agree n ((key, v) ∷ ms) = fits_name n key v && names_agree n ms

-- Settings that are read have this name.
abbrev pub IsNamed : Bytes → Option (Progress VmSettings) → Type 0
IsNamed n none = Unit
IsNamed n (some (s, valid, out)) = s.name ≡ n

apply_effect-IsNamed :
    (n : Bytes) (e : Effect VmSettings) (p : Progress VmSettings)
    → Gives n e
    → p.0.name ≡ n
    → IsNamed n (apply_effect e p)
unfolding apply_effect
apply_effect-IsNamed n (sets s) (old, valid, out) g h = g
apply_effect-IsNamed n (fails key message) (old, valid, out) g h = h
apply_effect-IsNamed n undefined p g h = tt

if_true : (b x : Bool) → b ≡ true → (if b then x else true) ≡ true → x ≡ true
if_true b x e h = ground arith

or-left : (x y : Bool) → (x || y) ≡ false → x ≡ false
or-left x y h = ground arith

or-right : (x y : Bool) → (x || y) ≡ false → y ≡ false
or-right x y h = ground arith

pub and-left : (x y : Bool) → (x && y) ≡ true → x ≡ true
and-left x y h = ground arith

pub and-right : (x y : Bool) → (x && y) ≡ true → y ≡ true
and-right x y h = ground arith

abbrev is_name : VmSetting → Bool
is_name name = true
is_name _ = false

abbrev any_name : List VmSetting → Bool
any_name [] = false
any_name (i ∷ is) = is_name i || any_name is

abbrev after_first : List VmSetting → List VmSetting
after_first [] = []
after_first (i ∷ is) = is

module _ (n : Bytes) (key : Bytes) (v : Value) where
  abbrev Allows : Option VmSetting → Type 0
  Allows none = Unit
  Allows (some i) = is_allowed n i v ≡ true

  other-is_allowed : (i : VmSetting) → is_name i ≡ false → is_allowed n i v ≡ true
  other-is_allowed name h = cc
  other-is_allowed _ h = refl

  cons-Allows :
      (i : VmSetting) (is : List VmSetting)
      → (equal key (vm_key i) ≡ true → is_allowed n i v ≡ true)
      → Allows (find_setting vm_key key is)
      → Allows (find_setting vm_key key (i ∷ is))
  unfolding find_setting
  cons-Allows i is f h = elim (Bool-cases (equal key (vm_key i))) [
    | inl e ↦ rw e (f e)
    | inr e ↦ rw e h
  ]

  others-Allows : (is : List VmSetting) → any_name is ≡ false → Allows (find_setting vm_key key is)
  unfolding find_setting
  others-Allows [] h = tt
  others-Allows (i ∷ is) h =
      cons-Allows i is (λ e. other-is_allowed i (or-left (is_name i) (any_name is) h))
        (others-Allows is (or-right (is_name i) (any_name is) h))

  find-Allows :
      (if equal key (codes "name") then is_text n v else true) ≡ true
      → Allows (find_setting vm_key key vm_settings)
  unfolding vm_key
  find-Allows h =
      cons-Allows name (after_first vm_settings)
        (λ e. if_true (equal key (codes "name")) (is_text n v) e h)
        (others-Allows (after_first vm_settings) refl)

  one-IsNamed :
      (o : Option VmSetting) (p : Progress VmSettings)
      → Allows o
      → p.0.name ≡ n
      → IsNamed n (elim o [ none ↦ some p | some i ↦ apply_effect (set_vm_setting i v p.0) p ])
  one-IsNamed none (s, valid, out) a h = h
  one-IsNamed (some i) p a h =
      apply_effect-IsNamed n (set_vm_setting i v p.0) p (set_vm_setting-Gives n i v p.0 a h) h

read_all : Members → Progress VmSettings → Option (Progress VmSettings)
read_all = set_members vm_key vm_settings set_vm_setting

next-IsNamed :
    (n : Bytes) (ms : Members) (r : Option (Progress VmSettings))
    → ((p : Progress VmSettings) → p.0.name ≡ n → IsNamed n (read_all ms p))
    → IsNamed n r
    → IsNamed n (elim r [ none ↦ none | some p ↦ read_all ms p ])
next-IsNamed n ms none ih h = tt
next-IsNamed n ms (some p) ih h = ih p h

read_all-IsNamed :
    (n : Bytes) (ms : Members)
    → names_agree n ms ≡ true
    → (p : Progress VmSettings) → p.0.name ≡ n
    → IsNamed n (read_all ms p)
unfolding read_all set_members set_member
read_all-IsNamed n [] a (s, valid, out) h = h
read_all-IsNamed n ((key, v) ∷ ms) a p h =
    next-IsNamed n ms
      (elim (find_setting vm_key key vm_settings) [
        | none ↦ some p
        | some i ↦ apply_effect (set_vm_setting i v p.0) p
      ])
      (read_all-IsNamed n ms (and-right (fits_name n key v) (names_agree n ms) a))
      (one-IsNamed n key v (find_setting vm_key key vm_settings) p
        (find-Allows n key v (and-left (fits_name n key v) (names_agree n ms) a)) h)

-- Where all members that are called `name` are the name that the settings have, they keep it.
pub parse_vm_settings-IsNamed :
    (s : VmSettings) (ms : Members)
    → names_agree s.name ms ≡ true
    → IsNamed s.name (parse_vm_settings s ms)
unfolding parse_vm_settings read_all
parse_vm_settings-IsNamed s ms a =
    finish (read_all ms (s, true, [])) (read_all-IsNamed s.name ms a (s, true, []) refl)
  where
    finish :
        (r : Option (Progress VmSettings))
        → IsNamed s.name r
        → IsNamed s.name (elim r [
          | none ↦ none
          | some (s', valid, out) ↦
              some (s', valid, (if valid then out ++ writes_bool true ∷ [] else out))
        ])
    finish none h = tt
    finish (some (s', valid, out)) h = h
