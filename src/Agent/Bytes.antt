-- ===== src/Agent/Bytes.antt =====
-- src/AgentProtocol.h: numbers as bytes, the least significant first, with the conversions between
-- UTF-8 and UTF-16 of the standard library that src/Sockets/AgentClient.cpp calls.
use collab_vm_server.Prelude.{
  ℕ, zero, suc, ◌+◌, ◌-◌, ◌*◌, ◌/◌, ◌%◌, Option, none, some, List, [], ◌∷◌, ◌++◌, Bytes, ltb, ◌==◌,
  if◌then◌else◌, within, ◌&&◌, leb, drop,
}

-- A pointer into a buffer: its place, and the bytes from there. Past the end stand zeros.
abbrev pub Pointer : Type 0
Pointer = ℕ × Bytes

abbrev pub byte_at : Bytes → ℕ
byte_at [] = 0
byte_at (c ∷ s) = c

abbrev pub after : Bytes → Bytes
after [] = []
after (c ∷ s) = s

unfoldable pub read_uint8 : Pointer → ℕ × Pointer
read_uint8 (p, s) = (byte_at s, (p + 1, after s))

unfoldable pub read_uint16 : Pointer → ℕ × Pointer
read_uint16 (p, s) = (byte_at s + 256 * byte_at (after s), (p + 2, after (after s)))

unfoldable pub read_uint32 : Pointer → ℕ × Pointer
unfolding read_uint16
read_uint32 (p, s) =
    let (low, q) = read_uint16 (p, s) in let (high, r) = read_uint16 q in (low + 65536 * high, r)

unfoldable pub write_uint8 : ℕ → Bytes
write_uint8 n = n % 256 ∷ []

unfoldable pub write_uint16 : ℕ → Bytes
write_uint16 n = n % 256 ∷ n / 256 % 256 ∷ []

unfoldable pub write_uint32 : ℕ → Bytes
write_uint32 n = n % 256 ∷ n / 256 % 256 ∷ n / 65536 % 256 ∷ n / 16777216 % 256 ∷ []

-- The bytes of an array of 16-bit units, and the first units of a buffer.
unfoldable pub write_units : List ℕ → Bytes
unfolding write_uint16
write_units [] = []
write_units (u ∷ us) = write_uint16 u ++ write_units us

unfoldable pub read_units : ℕ → Bytes → List ℕ
read_units zero s = []
read_units (suc n) s = (byte_at s + 256 * byte_at (after s)) ∷ read_units n (after (after s))

-- A code point in UTF-8.
abbrev utf8 : ℕ → Bytes
utf8 c =
    if ltb c 128
    then c ∷ []
    else if ltb c 2048
    then (192 + c / 64) ∷ (128 + c % 64) ∷ []
    else if ltb c 65536
    then (224 + c / 4096) ∷ (128 + c / 64 % 64) ∷ (128 + c % 64) ∷ []
    else (240 + c / 262144) ∷ (128 + c / 4096 % 64) ∷ (128 + c / 64 % 64) ∷ (128 + c % 64) ∷ []

abbrev put {ℓ} : {A : Type ℓ} → List A → Option (List A) → Option (List A)
put s none = none
put s (some t) = some (s ++ t)

-- `to_bytes`; `none` is a `std::range_error`, which a surrogate without its partner is.
unfoldable pub to_utf8 : List ℕ → Option Bytes
to_utf8 [] = some []
to_utf8 (u ∷ []) = if within 55296 57343 u then none else some (utf8 u)
to_utf8 (u ∷ v ∷ us) =
    let single = to_utf8 (v ∷ us) in
    let double = to_utf8 us in
    if within 55296 56319 u && within 56320 57343 v
    then put (utf8 (65536 + (u - 55296) * 1024 + (v - 56320))) double
    else if within 55296 57343 u
    then none
    else put (utf8 u) single

-- A code point in UTF-16.
abbrev utf16 : ℕ → List ℕ
utf16 c =
    if ltb c 65536 then c ∷ [] else (55296 + (c - 65536) / 1024) ∷ (56320 + (c - 65536) % 1024) ∷ []

-- `from_bytes`: `pending` more bytes of the code point follow, the next of them from `lo` to `hi`.
unfoldable pub to_utf16 : ℕ → ℕ → ℕ → ℕ → Bytes → Option (List ℕ)
to_utf16 zero c lo hi [] = some []
to_utf16 (suc pending) c lo hi [] = none
to_utf16 zero c lo hi (b ∷ s) =
    let one = to_utf16 0 0 0 0 s in
    let two = to_utf16 1 (b - 192) 128 191 s in
    let three =
      to_utf16 2 (b - 224) (if b == 224 then 160 else 128) (if b == 237 then 159 else 191) s in
    let four =
      to_utf16 3 (b - 240) (if b == 240 then 144 else 128) (if b == 244 then 143 else 191) s in
    if ltb b 128
    then put (b ∷ []) one
    else if within 194 223 b
    then two
    else if within 224 239 b
    then three
    else if within 240 244 b
    then four
    else none
to_utf16 (suc zero) c lo hi (b ∷ s) =
    let last = to_utf16 0 0 0 0 s in
    if within lo hi b then put (utf16 (c * 64 + (b - 128))) last else none
to_utf16 (suc (suc pending)) c lo hi (b ∷ s) =
    let rest = to_utf16 (suc pending) (c * 64 + (b - 128)) 128 191 s in
    if within lo hi b then rest else none

-- `ReadStringU16`. The number of bytes is twice the number of units, in a `uint8_t`.
unfoldable pub read_string : ℕ → Pointer → Option (Bytes × Pointer)
unfolding read_uint8 read_units to_utf8
read_string end p =
    let (n, (q, s)) = read_uint8 p in
    let len = n * 2 % 256 in
    if leb (q + len) end
    then elim (to_utf8 (read_units (len / 2) s)) [
      | none ↦ none
      | some t ↦ some (t, (q + len, drop len s))
    ]
    else none
