-- ===== src/Names.antt =====
-- Names that users choose: `ValidateUsername` and `IsFilenameValid` of src/CollabVM.cpp. A `char` is
-- the number of its bits: those from 128 on, negative in the source, fail every test alike.
pub mod Grammar
use collab_vm_server.Prelude.{
  ℕ, Bool, true, false, not, ◌&&◌, ◌||◌, List, [], ◌∷◌, Bytes, codes, within, ltb, ◌==◌,
  if◌then◌else◌, length,
}
use collab_vm_server.Wire.{back}

abbrev pub min_username_len : ℕ
min_username_len = 3

abbrev pub max_username_len : ℕ
max_username_len = 20

-- A letter, a digit, or one of `_-.?!`.
unfoldable pub is_name : ℕ → Bool
is_name c =
    within b'A' b'Z' c
    || within b'a' b'z' c
    || within b'0' b'9' c
    || c == b'_'
    || c == b'-'
    || c == b'.'
    || c == b'?'
    || c == b'!'

-- The loop from the second byte on, which leaves out the last.
unfoldable pub middle : Bool → Bytes → Bool
middle prev_space [] = true
middle prev_space (c ∷ []) = true
middle prev_space (c ∷ d ∷ s) =
    let name = middle false (d ∷ s) in
    let space = middle true (d ∷ s) in
    if is_name c then name else if not prev_space && c == b' ' then space else false

unfoldable pub validate_username : Bytes → Bool
validate_username [] = false
validate_username (c ∷ s) =
    let n = length (c ∷ s) in
    if ltb n min_username_len || ltb max_username_len n
    then false
    else if not (is_name c)
    then false
    else if not (middle false s)
    then false
    else is_name (back c s)

-- The bytes that Windows does not allow.
unfoldable pub is_reserved : ℕ → Bool
is_reserved c =
    c == b'<'
    || c == b'>'
    || c == b':'
    || c == b'"'
    || c == b'/'
    || c == b'\\'
    || c == b'|'
    || c == b'?'
    || c == b'*'

unfoldable pub is_filename_valid : Bytes → Bool
unfolding is_reserved
is_filename_valid [] = true
is_filename_valid (c ∷ s) =
    if ltb c b' ' || ltb b'~' c then false else if is_reserved c then false else is_filename_valid s
