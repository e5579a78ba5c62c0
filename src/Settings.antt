-- ===== src/Settings.antt =====
-- The settings as JSON, of src/CollabVM.cpp: the values that the parser of the rapidjson library gives,
-- the calls of its writer, and the errors that are written, with the keys of the settings and the
-- records of src/Database/Config.h and src/Database/VMSettings.h.
pub mod Server
pub mod Vm
pub mod Write
pub mod Checked
pub mod Ranges
pub mod Blacklist
pub mod Defined
pub mod Changes
pub mod Course
pub mod Keyed
pub mod Keys
pub mod Gives
pub mod Named
pub mod Storable
pub mod Store
pub mod Perform
pub mod RoundTrip
use collab_vm_server.Prelude.{
  ℕ, Bool, true, false, Option, none, some, List, [], ◌∷◌, ◌++◌, Bytes, codes, equal, if◌then◌else◌,
}

-- A value of a document. `number` is one that `IsUint` accepts, below 2^32, and `other_number` any
-- other. What an array or a nested object holds is not read.
pub data Value : Type 0 where
  null array object other_number : Value
  bool : Bool → Value
  number : ℕ → Value
  text : Bytes → Value

-- The members of an object, in order.
abbrev pub Members : Type 0
Members = List (Bytes × Value)

-- A call of the writer.
pub data Token : Type 0 where
  start_object end_object start_array end_array : Token
  string : Bytes → Token
  writes_bool : Bool → Token
  uint : ℕ → Token

-- `WriteJSONObject`.
unfoldable pub write_json_object : Bytes → Bytes → List Token
write_json_object key val = start_object ∷ string key ∷ string val ∷ end_object ∷ []

abbrev pub invalid_object : Bytes
invalid_object = codes "Invalid object type"

-- What a setting does with its value: it is changed, an error is written under a key, or what the
-- code does is undefined.
pub data Effect (A : Type 0) : Type 0 where
  sets : A → Effect A
  fails : Bytes → Bytes → Effect A
  undefined : Effect A

module _ {A : Type 0} (key : Bytes) where
  -- A setting that takes any value of its type.
  unfoldable pub with_bool : (Bool → A) → Value → Effect A
  with_bool f (bool b) = sets (f b)
  with_bool f _ = fails key invalid_object

  unfoldable pub with_text : (Bytes → A) → Value → Effect A
  with_text f (text s) = sets (f s)
  with_text f _ = fails key invalid_object

  -- A setting that takes the numbers that pass a test.
  unfoldable pub with_number : (ℕ → Bool) → Bytes → (ℕ → A) → Value → Effect A
  with_number test message f (number n) = if test n then sets (f n) else fails key message
  with_number test message f _ = fails key invalid_object

-- The settings so far, whether all were valid, and what was written.
abbrev pub Progress : Type 0 → Type 0
Progress A = A × Bool × List Token

unfoldable pub apply_effect : {A : Type 0} → Effect A → Progress A → Option (Progress A)
unfolding write_json_object
apply_effect (sets a) (old, valid, out) = some (a, valid, out)
apply_effect (fails key message) (a, valid, out) =
    some (a, false, out ++ write_json_object key message)
apply_effect undefined p = none

-- The first setting of the table whose name is the key.
unfoldable pub find_setting {ℓ} : {S : Type ℓ} → (S → Bytes) → Bytes → List S → Option S
find_setting name key [] = none
find_setting name key (i ∷ is) =
    let rest = find_setting name key is in if equal key (name i) then some i else rest

-- The loop over the members; a member with another key is passed over.
module _ {S A : Type 0} (name : S → Bytes) (table : List S)
    (effect : S → Value → A → Effect A) where
  unfoldable pub set_member : Bytes → Value → Progress A → Option (Progress A)
  unfolding apply_effect find_setting
  set_member key v p = elim (find_setting name key table) [
    | none ↦ some p
    | some i ↦ apply_effect (effect i v p.0) p
  ]

  unfoldable pub set_members : Members → Progress A → Option (Progress A)
  unfolding set_member
  set_members [] p = some p
  set_members ((key, v) ∷ ms) p = elim (set_member key v p) [
    | none ↦ none
    | some p' ↦ set_members ms p'
  ]
