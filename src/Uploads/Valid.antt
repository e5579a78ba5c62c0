-- ===== src/Uploads/Valid.antt =====
-- What a request to upload a file says, and whether it is accepted: the parts of
-- `OnFileInstruction` of src/CollabVM.cpp, `IsFileUploadValid` of
-- src/VMControllers/VMController.cpp and `IsFilenameValid` of src/Sockets/AgentClient.cpp.
use collab_vm_server.Prelude.{
  ℕ, zero, suc, ◌+◌, ◌-◌, ◌*◌, ◌%◌, ◌^◌, Bool, false, not, ◌&&◌, Option, none, some, [], ◌∷◌, Bytes,
  ltb, leb, ◌==◌, if◌then◌else◌, length, within,
}
use collab_vm_server.Wire.{skip_space, sign, digits}
use collab_vm_server.Vms.{Vm}

-- The end of the string, or a byte.
abbrev pub head_byte : Bytes → ℕ
head_byte [] = 0
head_byte (c ∷ s) = c

-- `std::strtoul` in base 10: without digits 0, and the greatest number where it does not fit.
unfoldable pub strtoul : Bytes → ℕ
unfolding skip_space sign digits
strtoul s =
    let (negative, r) = sign (skip_space s) in
    elim (digits r) [
      | none ↦ 0
      | some (v, rest) ↦
          if ltb v (2 ^ 64) then (if negative then (2 ^ 64 - v) % 2 ^ 64 else v) else 2 ^ 64 - 1
    ]

abbrev more : ℕ → Option ℕ → Option ℕ
more n none = none
more n (some k) = some (n + k)

-- The units of UTF-16 that a text in UTF-8 makes, or nothing if it is none: `pending` more bytes
-- follow, the next of them from `lo` to `hi`.
unfoldable pub utf16_length : ℕ → ℕ → ℕ → Bytes → Option ℕ
utf16_length zero lo hi [] = some 0
utf16_length (suc pending) lo hi [] = none
utf16_length zero lo hi (c ∷ s) =
    let two = utf16_length 1 128 191 s in
    let three = utf16_length 2 (if c == 224 then 160 else 128) (if c == 237 then 159 else 191) s in
    let four = utf16_length 3 (if c == 240 then 144 else 128) (if c == 244 then 143 else 191) s in
    let one = utf16_length 0 0 0 s in
    if ltb c 128
    then more 1 one
    else if within 194 223 c
    then more 1 two
    else if within 224 239 c
    then more 1 three
    else if within 240 244 c
    then more 2 four
    else none
utf16_length (suc pending) lo hi (c ∷ s) =
    let rest = utf16_length pending 128 191 s in if within lo hi c then rest else none

abbrev fits_units : ℕ → Option ℕ → Bool
fits_units max_len none = false
fits_units max_len (some n) = not (n == 0) && leb n max_len

-- `AgentClient::IsFilenameValid`.
unfoldable pub fits_agent : ℕ → Bytes → Bool
unfolding utf16_length
fits_agent max_len name =
    not (length name == 0)
    && leb (length name) (max_len * 4 % 2 ^ 32)
    && fits_units max_len (utf16_length 0 0 0 name)

unfoldable pub is_file_upload_valid : Vm → Bytes → ℕ → Bool
unfolding fits_agent
is_file_upload_valid vm name size =
    leb 1 size && leb size vm.settings.max_upload_size && fits_agent vm.agent_max_filename name
