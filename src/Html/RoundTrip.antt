-- ===== src/Html/RoundTrip.antt =====
-- What `EncodeHTMLString` of src/CollabVM.cpp lets through, and that a browser reads it back.
use collab_vm_server.Prelude.{
  ℕ, zero, suc, ◌*◌, ◌≤◌, ◌≡◌, ◌≢◌, refl, ap, ◌∙◌, inl, inr, true, false, ◌||◌, Option, none, some,
  List, [], ◌∷◌, ◌++◌, Bytes, codes, arith, within, ◌==◌, if◌then◌else◌, length, length-append, All,
  Bool-cases,
}
use collab_vm_server.Html.{encode_byte, encode_html_string}

-- Printable ASCII, and no byte with which a tag, an attribute's end or a path could be written.
abbrev pub IsInert : ℕ → Type 0
IsInert c = (32 ≤ c) × (c ≤ 126) × (c ≢ b'<') × (c ≢ b'>') × (c ≢ b'"') × (c ≢ b'\'') × (c ≢ b'/')

All-append : (s t : Bytes) → All IsInert s → All IsInert t → All IsInert (s ++ t)
All-append [] t a b = b
All-append (c ∷ s) t a b = (a.0, All-append s t a.1 b)

encode_byte-IsInert : (c : ℕ) → All IsInert (encode_byte c)
unfolding encode_byte
encode_byte-IsInert c = ground arith

-- What is encoded holds printable ASCII only, and none of the bytes that the encoding replaces but
-- the ampersand.
pub encode_html_string-IsInert : (s : Bytes) → All IsInert (encode_html_string s)
unfolding encode_html_string
encode_html_string-IsInert [] = tt
encode_html_string-IsInert (c ∷ s) =
    All-append (encode_byte c) (encode_html_string s) (encode_byte-IsInert c)
      (encode_html_string-IsInert s)

length-encode_byte : (c : ℕ) → length (encode_byte c) ≤ 10
unfolding encode_byte
length-encode_byte c = ground arith

-- The text grows ten times at most.
pub length-encode_html_string : (s : Bytes) → length (encode_html_string s) ≤ 10 * length s
unfolding encode_html_string
length-encode_html_string [] = omega arith
length-encode_html_string (c ∷ s) = omega (
  arith,
  length-append (encode_byte c) (encode_html_string s),
  length-encode_byte c,
  length-encode_html_string s,
)

-- `s` without `p` at its head.
strip : Bytes → Bytes → Option Bytes
strip [] s = some s
strip (x ∷ p) [] = none
strip (x ∷ p) (y ∷ s) = if x == y then strip p s else none

-- A reader of character references: the byte at the head of a text, and what follows it.
first_ref : List (Bytes × ℕ) → ℕ → Bytes → ℕ × Bytes
first_ref [] c s = (c, s)
first_ref ((p, d) ∷ refs) c s = elim (strip p (c ∷ s)) [
  | some r ↦ (d, r)
  | none ↦ first_ref refs c s
]

-- The references of a page, a carriage return with its newline for a newline.
abbrev references : List (Bytes × ℕ)
references =
    (codes "&amp;", b'&')
    ∷ (codes "&lt;", b'<')
    ∷ (codes "&gt;", b'>')
    ∷ (codes "&quot;", b'"')
    ∷ (codes "&#x27;", b'\'')
    ∷ (codes "&#x2F;", b'/')
    ∷ (codes "&#13;&#10;", b'\n')
    ∷ []

-- Reads a text of at most that many characters.
pub decode_html : ℕ → Bytes → Bytes
unfolding first_ref strip
decode_html zero s = []
decode_html (suc n) [] = []
decode_html (suc n) (c ∷ s) = let (d, r) = first_ref references c s in d ∷ decode_html n r

-- The bytes that are kept.
abbrev pub kept : Bytes → Bytes
kept [] = []
kept (c ∷ s) = if c == b'\n' || within 32 126 c then c ∷ kept s else kept s

first_ref-encode_byte :
    (n c : ℕ) (r : Bytes)
    → (c == b'\n' || within 32 126 c) ≡ true
    → decode_html (suc n) (encode_byte c ++ r) ≡ c ∷ decode_html n r
unfolding decode_html encode_byte
first_ref-encode_byte n c r h = ground arith

encode_byte-dropped : (c : ℕ) → (c == b'\n' || within 32 126 c) ≡ false → encode_byte c ≡ []
unfolding encode_byte
encode_byte-dropped c h = ground arith

decode_html-nil : (n : ℕ) → decode_html n [] ≡ []
unfolding decode_html
decode_html-nil zero = refl
decode_html-nil (suc n) = refl

-- A reader of character references that is allowed at least as many characters as are kept gets
-- back the text without the bytes that are neither printable ASCII nor a newline.
pub decode_html-encode_html_string :
    (n : ℕ) (s : Bytes) → length (kept s) ≤ n → decode_html n (encode_html_string s) ≡ kept s
unfolding encode_html_string
decode_html-encode_html_string n [] h = decode_html-nil n
decode_html-encode_html_string zero (c ∷ s) h = elim (Bool-cases (c == b'\n' || within 32 126 c)) [
  | inr e ↦ rw (encode_byte-dropped c e, e) (decode_html-encode_html_string zero s (rw e at h))
  | inl e ↦ let k : suc (length (kept s)) ≤ 0 = rw e at h in absurd (omega arith)
]
decode_html-encode_html_string (suc n) (c ∷ s) h =
    elim (Bool-cases (c == b'\n' || within 32 126 c)) [
      | inr e ↦
          rw (encode_byte-dropped c e, e) (decode_html-encode_html_string (suc n) s (rw e at h))
      | inl e ↦
          let k : suc (length (kept s)) ≤ suc n = rw e at h in
          rw e (
            first_ref-encode_byte n c (encode_html_string s) e
            ∙ ap (◌∷◌ c) (decode_html-encode_html_string n s (omega arith)))
    ]
