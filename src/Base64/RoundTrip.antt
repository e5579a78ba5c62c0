-- ===== src/Base64/RoundTrip.antt =====
-- A reader of Base64 (RFC 4648), and that it reads back what src/Base64.h writes.
use collab_vm_server.Prelude.{
  ℕ, zero, suc, ◌+◌, ◌-◌, ◌*◌, ◌/◌, ◌%◌, ◌<◌, ◌≡◌, refl, sym, ap, ap₂, ◌∙◌, inl, inr, Bool, true,
  false, ◌&&◌, none, some, [], ◌∷◌, ◌++◌, Bytes, arith, append_assoc, append-nil, within, ◌==◌,
  if◌then◌else◌, All, Bool-cases,
}
use collab_vm_server.Base64.{
  characters, character, write_triplet, write_byte, write_ready, write, flush_loop, encode,
}

-- The number that a character stands for.
value : ℕ → ℕ
value c =
    if within b'A' b'Z' c
    then c - b'A'
    else if within b'a' b'z' c
    then c - b'a' + 26
    else if within b'0' b'9' c
    then c - b'0' + 52
    else if c == b'+'
    then 62
    else 63

-- A character of the table stands for its place, and is not the padding.
abbrev is_good : ℕ → Bool
is_good n = value (character n) == n && (if character n == b'=' then false else true)

abbrev all_good : ℕ → Bool
all_good zero = true
all_good (suc n) = is_good n && all_good n

all_good-64 : all_good 64 ≡ true
unfolding value character characters
all_good-64 = refl

all_good-below : (n k : ℕ) → all_good n ≡ true → k < n → is_good k ≡ true
all_good-below zero k h l = absurd (omega arith)
all_good-below (suc n) k h l = elim (Bool-cases (k == n)) [
  | inl e ↦ let i : k ≡ n = ground arith in rw i (both (is_good n) (all_good n) h).0
  | inr e ↦ all_good-below n k (both (is_good n) (all_good n) h).1 (ground arith)
]
  where
    both : (a b : Bool) → (a && b) ≡ true → (a ≡ true) × (b ≡ true)
    both true b h = (refl, h)
    both false b h = cc

good : (n : ℕ) → n < 64 → (value (character n) ≡ n) × ((character n == b'=') ≡ false)
good n l = let g = all_good-below 64 n all_good-64 l in (ground arith, ground arith)

-- The first, second and third byte of a group.
abbrev first_byte : ℕ → ℕ → ℕ
first_byte w x = value w * 4 + value x / 16

abbrev second_byte : ℕ → ℕ → ℕ
second_byte x y = value x % 16 * 16 + value y / 4

abbrev third_byte : ℕ → ℕ → ℕ
third_byte y z = value y % 4 * 64 + value z

-- Reads groups of four characters, the last of which may be padded.
pub read_groups : Bytes → Bytes
read_groups [] = []
read_groups (w ∷ []) = []
read_groups (w ∷ x ∷ []) = []
read_groups (w ∷ x ∷ y ∷ []) = []
read_groups (w ∷ x ∷ y ∷ z ∷ rest) =
    let bytes = read_groups rest in
    if y == b'='
    then first_byte w x ∷ []
    else if z == b'='
    then first_byte w x ∷ second_byte x y ∷ []
    else first_byte w x ∷ second_byte x y ∷ third_byte y z ∷ bytes

-- The text by groups of three bytes.
text : Bytes → Bytes
text [] = []
text (a ∷ []) = write_triplet a none none
text (a ∷ b ∷ []) = write_triplet a (some b) none
text (a ∷ b ∷ c ∷ bs) = write_triplet a (some b) (some c) ++ text bs

encode-text :
    (bs out : Bytes)
    → (flush_loop 2 (write bs (record { out = out; ready = [] }))).out ≡ out ++ text bs
unfolding write write_byte write_ready flush_loop text
encode-text [] out = sym (append-nil out)
encode-text (a ∷ []) out = refl
encode-text (a ∷ b ∷ []) out = refl
encode-text (a ∷ b ∷ c ∷ bs) out =
    encode-text bs (out ++ write_triplet a (some b) (some c))
    ∙ append_assoc out (write_triplet a (some b) (some c)) (text bs)

abbrev pub IsByte : ℕ → Type 0
IsByte c = c < 256

first_byte-character :
    (a r : ℕ) → a < 256 → r < 16 → first_byte (character (a / 4)) (character (a % 4 * 16 + r)) ≡ a
first_byte-character a r h k =
    let (p, _) = good (a / 4) (omega arith) in
    let (q, _) = good (a % 4 * 16 + r) (omega arith) in omega (arith, p, q)

second_byte-character :
    (p b r : ℕ)
    → p < 4
    → b < 256
    → r < 4
    → second_byte (character (p * 16 + b / 16)) (character (b % 16 * 4 + r)) ≡ b
second_byte-character p b r l h k =
    let (v, _) = good (p * 16 + b / 16) (omega arith) in
    let (w, _) = good (b % 16 * 4 + r) (omega arith) in omega (arith, v, w)

third_byte-character :
    (q c : ℕ) → q < 16 → c < 256 → third_byte (character (q * 4 + c / 64)) (character (c % 64)) ≡ c
third_byte-character q c l h =
    let (v, _) = good (q * 4 + c / 64) (omega arith) in
    let (w, _) = good (c % 64) (omega arith) in omega (arith, v, w)

-- Where nothing is added to the last bits.
bare : (n : ℕ) → n + 0 ≡ n
bare n = omega arith

read_groups-text : (bs : Bytes) → All IsByte bs → read_groups (text bs) ≡ bs
unfolding read_groups text write_triplet
read_groups-text [] h = refl
read_groups-text (a ∷ []) (h, _) =
    let e = rw (bare (a % 4 * 16)) at (first_byte-character a 0 h (omega arith)) in
    ap (λ x. x ∷ []) e
read_groups-text (a ∷ b ∷ []) (h, (k, _)) =
    let p = (good (b % 16 * 4) (omega arith)).1 in
    let e = first_byte-character a (b / 16) h (omega arith) in
    let f =
      rw (bare (b % 16 * 4)) at (second_byte-character (a % 4) b 0 (omega arith) k (omega arith)) in
    rw p (ap₂ (λ x y. x ∷ y ∷ []) e f)
read_groups-text (a ∷ b ∷ c ∷ bs) (h, (k, (l, t))) =
    let p = (good (b % 16 * 4 + c / 64) (omega arith)).1 in
    let q = (good (c % 64) (omega arith)).1 in
    let e = first_byte-character a (b / 16) h (omega arith) in
    let f = second_byte-character (a % 4) b (c / 64) (omega arith) k (omega arith) in
    let g = third_byte-character (b % 16) c (omega arith) l in
    rw (p, q) (ap₂ ◌∷◌ e (ap₂ ◌∷◌ f (ap₂ ◌∷◌ g (read_groups-text bs t))))

-- A reader of Base64 gets back the bytes that were written, where each is below 256.
pub read_groups-encode : (bs : Bytes) → All IsByte bs → read_groups (encode bs).out ≡ bs
unfolding encode
read_groups-encode bs h = ap read_groups (encode-text bs []) ∙ read_groups-text bs h
