-- ===== src/Wire/Dispatch.antt =====
-- `ParseInstruction`: the handlers that a decoded instruction is passed to.
use collab_vm_server.Prelude.{
  ℕ, zero, suc, ◌≡◌, refl, Bool, true, ◌&&◌, List, [], ◌∷◌, ◌++◌, Bytes, codes, arith, length, All,
  ap₂, ◌↔◌, ◌≢◌, ◌==◌, if◌then◌else◌, Bool-cases, inl, inr,
}

-- The rows of `instructions[]`.
pub data Handler : Type 0 where
  mouse key rename connect chat turn admin nop list vote file : Handler

unfoldable pub opcode : Handler → Bytes
opcode mouse = codes "mouse"
opcode key = codes "key"
opcode rename = codes "rename"
opcode connect = codes "connect"
opcode chat = codes "chat"
opcode turn = codes "turn"
opcode admin = codes "admin"
opcode nop = codes "nop"
opcode list = codes "list"
opcode vote = codes "vote"
opcode file = codes "file"

abbrev pub instructions : List Handler
instructions = mouse ∷ key ∷ rename ∷ connect ∷ chat ∷ turn ∷ admin ∷ nop ∷ list ∷ vote ∷ file ∷ []

-- `!std::strncmp(a, b, n)`; the end of a list is the terminating zero byte.
unfoldable pub strncmp_zero : ℕ → Bytes → Bytes → Bool
strncmp_zero zero a b = true
strncmp_zero (suc n) [] [] = true
strncmp_zero (suc n) [] (y ∷ b) = y == 0
strncmp_zero (suc n) (x ∷ a) [] = x == 0
strncmp_zero (suc n) (x ∷ a) (y ∷ b) =
    let same = strncmp_zero n a b in x == y && (if x == 0 then true else same)

unfoldable pub matches : Bytes → Handler → Bool
unfolding strncmp_zero
matches d h = strncmp_zero (length d) (opcode h) d

-- The loop goes on after a call, so more than one handler may run.
unfoldable pub called : Bytes → List Handler → List Handler
unfolding matches
called d [] = []
called d (h ∷ hs) = if matches d h then h ∷ called d hs else called d hs

abbrev pub with_args : List Bytes → List Handler → List (Handler × List Bytes)
with_args args [] = []
with_args args (h ∷ hs) = (h, args) ∷ with_args args hs

-- Nothing runs on a rejected instruction; a handler gets the elements after the first.
unfoldable pub parse_instruction : List Bytes → List (Handler × List Bytes)
parse_instruction [] = []
parse_instruction (d ∷ args) = with_args args (called d instructions)

-- No zero byte, which would end the comparison.
abbrev pub NulFree : Bytes → Type 0
NulFree = All (λ c. c ≢ 0)

opcode-NulFree : (h : Handler) → NulFree (opcode h)
unfolding opcode
opcode-NulFree mouse = omega arith
opcode-NulFree _ = omega arith

prefix-strncmp :
    (d a : Bytes)
    → NulFree d
    → NulFree a
    → strncmp_zero (length d) a d ≡ true
    → (r : Bytes) × (a ≡ d ++ r)
unfolding strncmp_zero
prefix-strncmp [] a hd ha e = (a, refl)
prefix-strncmp (y ∷ d) [] hd ha e = absurd (hd.0 (ground arith))
prefix-strncmp (y ∷ d) (x ∷ a) hd ha e =
    let (r, p) = prefix-strncmp d a hd.1 ha.1 (ground arith) in (r, ap₂ ◌∷◌ (ground arith) p)

strncmp-prefix : (d r : Bytes) → NulFree d → strncmp_zero (length d) (d ++ r) d ≡ true
unfolding strncmp_zero
strncmp-prefix [] r hd = refl
strncmp-prefix (y ∷ d) r hd = ground (arith, strncmp-prefix d r hd.1)

matches-prefix :
    (d : Bytes) (h : Handler)
    → NulFree d
    → (matches d h ≡ true) ↔ ((r : Bytes) × (opcode h ≡ d ++ r))
unfolding matches
matches-prefix d h v =
    (λ e. prefix-strncmp d (opcode h) v (opcode-NulFree h) e, λ (r, p). rw p (strncmp-prefix d r v))

abbrev pub StartsWith : Bytes → Bytes → Type 0
StartsWith s d = (r : Bytes) × (s ≡ d ++ r)

-- The handlers that a first element calls, along a table: those whose opcode starts with it, and
-- the others are left out.
pub data Selects (d : Bytes) : List Handler → List Handler → Type 0 where
  at_end : Selects d [] []
  calls :
      {h : Handler} {hs ks : List Handler}
      → StartsWith (opcode h) d
      → Selects d hs ks
      → Selects d (h ∷ hs) (h ∷ ks)
  passes :
      {h : Handler} {hs ks : List Handler}
      → ¬ StartsWith (opcode h) d
      → Selects d hs ks
      → Selects d (h ∷ hs) ks

called-Selects : (d : Bytes) (hs : List Handler) → NulFree d → Selects d hs (called d hs)
unfolding called
called-Selects d [] v = at_end
called-Selects d (h ∷ hs) v = elim (Bool-cases (matches d h)) [
  | inl e ↦ rw e (calls ((matches-prefix d h v).0 e) (called-Selects d hs v))
  | inr e ↦ rw e (passes (λ p. ground (arith, (matches-prefix d h v).1 p)) (called-Selects d hs v))
]

-- An instruction whose first element holds no zero byte calls, in the order of the table, each
-- handler whose opcode starts with that element, once and with the elements that follow, and no
-- other handler.
pub parse_instruction-Selects :
    (d : Bytes) (args : List Bytes)
    → NulFree d
    → (hs : List Handler) × Selects d instructions hs
      × (parse_instruction (d ∷ args) ≡ with_args args hs)
unfolding parse_instruction
parse_instruction-Selects d args v = (called d instructions, called-Selects d instructions v, refl)

-- The full opcode of a handler calls that handler alone, once, with the elements that follow.
pub parse_instruction-opcode :
    (h : Handler) (args : List Bytes) → parse_instruction (opcode h ∷ args) ≡ (h, args) ∷ []
unfolding parse_instruction called matches opcode
parse_instruction-opcode mouse args = refl
parse_instruction-opcode _ args = refl
