-- ===== src/Wire/Limits.antt =====
-- What `DecodeInstruction` lets through.
use mathlib.Core.Path.{subst}
use collab_vm_server.Prelude.{
  ℕ, zero, suc, ◌+◌, ◌-◌, ◌≤◌, ◌<◌, ◌≡◌, ◌≢◌, refl, ap, ◌*◌, Bool, true, false, Option, none, some,
  List, [], ◌∷◌, ◌++◌, Bytes, arith, length, length-take, length-drop, All, ◌↔◌, ◌⊎◌, inl, inr,
  Option-cases, bind-eq-some, Bool-cases, sym, leb, ◌||◌, if◌then◌else◌, ◌==◌, not,
}
use collab_vm_server.Wire.{
  extract, content, read_element, decode_loop, decode, back, skip_space, sign, scan, digits, fit,
  max_element_length, max_frame_length,
}

-- An element that was read lies within both bounds, and leaves fewer bytes.
length-skip_space : (s : Bytes) → length (skip_space s) ≤ length s
unfolding skip_space
length-skip_space [] = omega arith
length-skip_space (c ∷ s) = ground (arith, length-skip_space s)

length-sign : (s : Bytes) → length (sign s).1 ≤ length s
unfolding sign
length-sign [] = omega arith
length-sign (c ∷ s) = ground arith

length-scan : (a : ℕ) (s : Bytes) → length (scan a s).1 ≤ length s
unfolding scan
length-scan a [] = omega arith
length-scan a (c ∷ s) = ground (arith, length-scan (a * 10 + (c - b'0')) s)

length-digits : (s : Bytes) (p : ℕ × Bytes) → digits s ≡ some p → length p.1 ≤ length s
unfolding digits
length-digits [] p e = cc
length-digits (c ∷ s) p e = ground (arith, length-scan 0 (c ∷ s))

fit_lem : (neg : Bool) (p : ℕ × Bytes) (v : ℕ) (r : Bytes) → fit neg p ≡ some (v, r) → p.1 ≡ r
unfolding fit
fit_lem neg p v r e = ground arith

length-extract : (s : Bytes) (v : ℕ) (r : Bytes) → extract s ≡ some (v, r) → length r ≤ length s
unfolding extract
length-extract s v r e =
    let (p, d, q) = bind-eq-some (digits (sign (skip_space s)).1) (fit (sign (skip_space s)).0) e in
    omega (
      arith,
      length-skip_space s,
      length-sign (skip_space s),
      length-digits (sign (skip_space s)).1 p d,
      ap length (fit_lem (sign (skip_space s)).0 p v r q),
    )

content_lem :
    (n : ℕ) (s e r : Bytes)
    → content n s ≡ some (e, r)
    → (length e ≡ n) × (length e + length r + 1 ≡ length s)
unfolding content
content_lem n [] e r h = cc
content_lem n (c ∷ s) e r h = ground (arith, length-take n s, length-drop n s)

limited :
    (n len : ℕ) (s e r : Bytes)
    → (if leb max_element_length len || leb n len then none else content len s) ≡ some (e, r)
    → (len < max_element_length) × (len < n) × (content len s ≡ some (e, r))
limited n len s e r h = ground arith

-- An element that was read lies within both bounds, and leaves fewer bytes.
read_element_lem :
    (n : ℕ) (s e r : Bytes)
    → read_element n s ≡ some (e, r)
    → (length e < max_element_length) × (length e < n) × (length r < length s)
unfolding read_element
read_element_lem n s e r h =
    let ((len, q), x, y) = bind-eq-some (extract s) _ h in
    let (a, b, c) = limited n len q e r y in
    omega (arith, content_lem len q e r c, length-extract s len q x)

-- What follows an element, by its separator.
continue : ℕ → List Bytes → Option (List Bytes) → Option (List Bytes)
continue c out rest = if c == b',' then rest else if c == b';' then some out else some []

continue_total :
    (c : ℕ) (out : List Bytes) (rest : Option (List Bytes))
    → rest ≢ none
    → continue c out rest ≢ none
unfolding continue
continue_total c out rest h = ground arith

-- With as much fuel as there are bytes left, the loop ends by itself.
decode_loop_total :
    (f n : ℕ) (s : Bytes) (out : List Bytes) → length s < f → decode_loop f n s out ≢ none
unfolding decode_loop continue
decode_loop_total zero n s out h = elim h [ ]
decode_loop_total (suc f) n s out h = elim (Option-cases (read_element n s)) [
  | inl e ↦ rw (e, decode_loop) (λ p. cc)
  | inr ((e, []), q) ↦ rw (q, decode_loop) (λ p. cc)
  | inr ((e, c ∷ r), q) ↦
      rw (q, decode_loop)
        (continue_total c (out ++ e ∷ []) (decode_loop f n r (out ++ e ∷ [])) (
          decode_loop_total f n r (out ++ e ∷ [])
            (omega (arith, read_element_lem n s e (c ∷ r) q))))
]

-- Within the limit on elements, and shorter than a bound.
abbrev pub Within : ℕ → List Bytes → Type 0
Within n = All (λ e. (length e < max_element_length) × (length e < n))

Within-concat :
    (n : ℕ) (xs : List Bytes) (e : Bytes)
    → Within n xs
    → length e < max_element_length
    → length e < n
    → Within n (xs ++ e ∷ [])
Within-concat n [] e v a b = ((a, b), tt)
Within-concat n (x ∷ xs) e v a b = (v.0, Within-concat n xs e v.1 a b)

continue-Within :
    (n c : ℕ) (out xs : List Bytes) (rest : Option (List Bytes))
    → Within n out
    → (rest ≡ some xs → Within n xs)
    → continue c out rest ≡ some xs
    → Within n xs
unfolding continue
continue-Within n c out xs rest v k h = elim (Bool-cases (c == b',')) [
  | inl e ↦ k (ground arith)
  | inr e ↦ elim (Bool-cases (c == b';')) [
    | inl d ↦ let q : out ≡ xs = ground arith in subst (Within n) q v
    | inr d ↦ let q : [] ≡ xs = ground arith in subst (Within n) q tt
  ]
]

some-Within : (n : ℕ) (ys xs : List Bytes) → Within n ys → some ys ≡ some xs → Within n xs
some-Within n ys xs v e = subst (Within n) (cc) v

decode_loop-Within :
    (f n : ℕ) (s : Bytes) (out xs : List Bytes)
    → Within n out
    → decode_loop f n s out ≡ some xs
    → Within n xs
unfolding decode_loop continue
decode_loop-Within zero n s out xs v h = cc
decode_loop-Within (suc f) n s out xs v h = elim (Option-cases (read_element n s)) [
  | inl e ↦ some-Within n [] xs tt (rw (e, decode_loop) at h)
  | inr ((e, []), q) ↦ some-Within n [] xs tt (rw (q, decode_loop) at h)
  | inr ((e, c ∷ r), q) ↦
      let (a, b, _) = read_element_lem n s e (c ∷ r) q in
      let v' = Within-concat n out e v a b in
      continue-Within n c (out ++ e ∷ []) xs (decode_loop f n r (out ++ e ∷ [])) v'
        (decode_loop-Within f n r (out ++ e ∷ []) xs v') (rw (q, decode_loop) at h)
]

-- The two tests before the loop.
checked : Bool → Bool → Option (List Bytes) → Option (List Bytes)
checked ends long rest = if not ends then some [] else if long then some [] else rest

checked-none :
    (ends long : Bool) (rest : Option (List Bytes)) → rest ≢ none → checked ends long rest ≢ none
unfolding checked
checked-none ends long rest h = ground arith

checked-some :
    (ends long : Bool) (rest : Option (List Bytes)) (xs : List Bytes)
    → checked ends long rest ≡ some xs
    → (xs ≡ []) ⊎ ((ends ≡ true) × (long ≡ false) × (rest ≡ some xs))
unfolding checked
checked-some false long rest xs h = inl (cc)
checked-some true true rest xs h = inl (cc)
checked-some true false rest xs h = inr (refl, refl, h)

-- Decoding ends on every byte string, and is defined on all but the empty one, on which
-- `input.back()` is called.
pub decode_total : (s : Bytes) → (decode s ≡ none) ↔ (s ≡ [])
unfolding decode checked
decode_total [] = (λ _. refl, λ _. refl)
decode_total (c ∷ s) = (
  λ e. absurd (
      checked-none (back c s == b';') (leb max_frame_length n) (decode_loop (suc n) n (c ∷ s) [])
        (decode_loop_total (suc (suc (length s))) n (c ∷ s) [] (omega arith)) e),
  λ e. cc,
)
  where
    n : ℕ
    n = length (c ∷ s)

-- What is decoded is within the limits: fewer than 3450 bytes in each element, and fewer than the
-- instruction has; and nothing is decoded from an instruction that does not end in a semicolon
-- or that has 6144 bytes or more.
pub decode-Within :
    (c : ℕ) (s : Bytes) (xs : List Bytes)
    → decode (c ∷ s) ≡ some xs
    → Within (length (c ∷ s)) xs
      × ((xs ≡ []) ⊎ ((back c s ≡ b';') × (length (c ∷ s) < max_frame_length)))
unfolding decode checked
decode-Within c s xs h =
    let n = length (c ∷ s) in
    elim (checked-some (back c s == b';') (leb max_frame_length n)
      (decode_loop (suc n) n (c ∷ s) []) xs h) [
        | inl e ↦ (subst (Within n) (sym e) tt, inl e)
        | inr (a, b, r) ↦
            (decode_loop-Within (suc n) n (c ∷ s) [] xs tt r, inr (ground arith, ground arith))
      ]
