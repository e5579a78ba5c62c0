-- ===== src/Wire.antt =====
-- The text protocol of src/GuacInstructionParser.cpp: an instruction is a list of elements, each
-- written as its length, a period and its bytes, with commas between and a semicolon at the end.
-- The input stream of `DecodeInstruction` is the list of the bytes not yet read.
pub mod Digits
pub mod Literals
pub mod RoundTrip
pub mod Limits
pub mod Dispatch
use collab_vm_server.Prelude.{
  ℕ, zero, suc, ◌+◌, ◌-◌, ◌*◌, ◌%◌, ◌^◌, Bool, true, false, ◌||◌, Option, none, some, List, [], ◌∷◌,
  ◌++◌, Bytes, codes, to_string, within, leb, ltb, ◌==◌, not, if◌then◌else◌, length, take, drop,
  bind,
}

-- One element as the server writes it: `std::to_string(s.length())`, a period, `s`.
unfoldable pub element : Bytes → Bytes
element s = to_string (length s) ++ b'.' ∷ s

-- The elements after the first, each behind a comma, and the semicolon.
unfoldable pub tail_elements : List Bytes → Bytes
tail_elements [] = b';' ∷ []
tail_elements (x ∷ xs) = b',' ∷ (element x ++ tail_elements xs)

-- The whole instruction: the form that every message of the server is to have.
unfoldable pub instruction : Bytes → List Bytes → Bytes
instruction x xs = element x ++ tail_elements xs

unfoldable pub is_digit : ℕ → Bool
is_digit c = within b'0' b'9' c

-- `std::isspace` of the classic locale: tab, newline, vertical tab, form feed, return, space.
unfoldable pub is_space : ℕ → Bool
is_space c = within 9 13 c || c == b' '

unfoldable pub skip_space : Bytes → Bytes
skip_space [] = []
skip_space (c ∷ s) = if is_space c then skip_space s else c ∷ s

-- The number that the digits at the head of the stream spell, after those worth `acc`.
unfoldable pub scan : ℕ → Bytes → ℕ × Bytes
scan acc [] = (acc, [])
scan acc (c ∷ s) = if is_digit c then scan (acc * 10 + (c - b'0')) s else (acc, c ∷ s)

-- At least one digit.
unfoldable pub digits : Bytes → Option (ℕ × Bytes)
digits [] = none
digits (c ∷ s) = if is_digit c then some (scan 0 (c ∷ s)) else none

-- A sign is accepted before an unsigned number too.
unfoldable pub sign : Bytes → Bool × Bytes
sign [] = (false, [])
sign (c ∷ s) = if c == b'-' then (true, s) else if c == b'+' then (false, s) else (false, c ∷ s)

-- A negated number is taken modulo 2^64; one that does not fit sets the fail bit.
unfoldable pub fit : Bool → ℕ × Bytes → Option (ℕ × Bytes)
fit neg (v, r) =
    if ltb v (2 ^ 64) then some ((if neg then (2 ^ 64 - v) % 2 ^ 64 else v), r) else none

-- `iss >> length` into an `unsigned long long`; `none` is a stream that has failed.
unfoldable pub extract : Bytes → Option (ℕ × Bytes)
extract s = let (neg, r) = sign (skip_space s) in bind (digits r) (fit neg)

abbrev pub max_element_length : ℕ
max_element_length = 3450

abbrev pub max_frame_length : ℕ
max_frame_length = 6144

-- The period, then `iss.read` of `len` bytes, which fails on a stream that holds fewer.
unfoldable pub content : ℕ → Bytes → Option (Bytes × Bytes)
content len [] = none
content len (c ∷ r) =
    if c == b'.' then (if leb len (length r) then some (take len r, drop len r) else none) else none

-- One round of the loop up to the separator; `n` is `input.length()`.
unfoldable pub read_element : ℕ → Bytes → Option (Bytes × Bytes)
read_element n s =
    bind (extract s)
      λ (len, r). if leb max_element_length len || leb n len then none else content len r

-- `while(iss)`, on fuel: each round takes at least one byte from the stream. An empty result is a rejected instruction; `none` is a lack of fuel.
unfoldable pub decode_loop : ℕ → ℕ → Bytes → List Bytes → Option (List Bytes)
decode_loop zero n s out = none
decode_loop (suc f) n s out = elim (read_element n s) [
  | none ↦ some []
  | some (e, []) ↦ some []
  | some (e, c ∷ r) ↦
      let rest = decode_loop f n r (out ++ e ∷ []) in
      if c == b',' then rest else if c == b';' then some (out ++ e ∷ []) else some []
]

-- `input.back()` of a byte string that begins with `c`.
unfoldable pub back : ℕ → Bytes → ℕ
back c [] = c
back c (d ∷ s) = back d s

-- `none` is undefined behaviour: `back()` is called before the string is known not to be empty.
unfoldable pub decode : Bytes → Option (List Bytes)
decode [] = none
decode (c ∷ s) =
    let n = length (c ∷ s) in
    if not (back c s == b';')
    then some []
    else if leb max_frame_length n
    then some []
    else decode_loop (suc n) n (c ∷ s) []
