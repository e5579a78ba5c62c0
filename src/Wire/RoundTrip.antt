-- ===== src/Wire/RoundTrip.antt =====
-- `DecodeInstruction` undoes the encoding.
use collab_vm_server.Prelude.{
  ℕ, suc, zero, ◌+◌, ◌≤◌, ◌<◌, ◌≡◌, refl, ◌∙◌, ap, some, List, [], ◌∷◌, ◌++◌, append_assoc, Bytes,
  arith, length, length-append, take_append, drop_append, All, to_string,
}
use collab_vm_server.Wire.Digits.{extract-to_string, Stops}
use collab_vm_server.Wire.{
  element, tail_elements, instruction, content, read_element, decode_loop, decode, back,
  max_element_length, max_frame_length, is_digit,
}

content-append : (s r : Bytes) → content (length s) (b'.' ∷ (s ++ r)) ≡ some (s, r)
unfolding content
content-append s r = ground (arith, length-append s r, take_append s r, drop_append s r)

period-Stops : (r : Bytes) → Stops (b'.' ∷ r)
unfolding is_digit
period-Stops r = refl

read_element-element :
    (n : ℕ) (s r : Bytes)
    → length s < max_element_length
    → length s < n
    → read_element n (element s ++ r) ≡ some (s, r)
unfolding read_element element
read_element-element n s r hm hn = rw (append_assoc (to_string (length s)) (b'.' ∷ s) r) (
    rw (extract-to_string (length s) (b'.' ∷ (s ++ r)) (omega arith) (period-Stops (s ++ r)))
      (ground (arith, content-append s r)))

-- Each element is within the limit on elements.
abbrev pub Short : Bytes → List Bytes → Type 0
Short x xs = All (λ e. length e < max_element_length) (x ∷ xs)

abbrev Fits : ℕ → List Bytes → Type 0
Fits n = All (λ e. (length e < max_element_length) × (length e < n))

decode_loop-elements :
    (f n : ℕ) (x : Bytes) (xs out : List Bytes)
    → length xs < f
    → Fits n (x ∷ xs)
    → decode_loop f n (element x ++ tail_elements xs) out ≡ some (out ++ x ∷ xs)
unfolding decode_loop tail_elements
decode_loop-elements zero n x xs out hf h = elim hf [ ]
decode_loop-elements (suc f) n x [] out hf h =
    rw (read_element-element n x (b';' ∷ []) h.0.0 h.0.1, decode_loop)
decode_loop-elements (suc f) n x (y ∷ ys) out hf h =
    rw (read_element-element n x (b',' ∷ (element y ++ tail_elements ys)) h.0.0 h.0.1, decode_loop)
      (decode_loop-elements f n y ys (out ++ x ∷ []) (omega arith) h.1
        ∙ ap some (append_assoc out (x ∷ []) (y ∷ ys)))

back-append : (c d : ℕ) (s t : Bytes) → back c (s ++ d ∷ t) ≡ back d t
unfolding back
back-append c d [] t = refl
back-append c d (e ∷ s) t = back-append e d s t

back-tail_elements : (c : ℕ) (s : Bytes) (xs : List Bytes) → back c (s ++ tail_elements xs) ≡ b';'
unfolding tail_elements back
back-tail_elements c s [] = back-append c b';' s []
back-tail_elements c s (x ∷ xs) =
    back-append c b',' s (element x ++ tail_elements xs) ∙ back-tail_elements b',' (element x) xs

length-element : (s : Bytes) → length s + 1 ≤ length (element s)
unfolding element
length-element s = omega (arith, length-append (to_string (length s)) (b'.' ∷ s))

length-tail_elements : (xs : List Bytes) → length xs + 1 ≤ length (tail_elements xs)
unfolding tail_elements
length-tail_elements [] = omega arith
length-tail_elements (x ∷ xs) =
    omega (arith, length-append (element x) (tail_elements xs), length-tail_elements xs)

-- An element is shorter than any bound that covers the text around it.
Fits-elements :
    (n : ℕ) (x : Bytes) (xs : List Bytes)
    → length (element x ++ tail_elements xs) ≤ n
    → Short x xs
    → Fits n (x ∷ xs)
unfolding tail_elements
Fits-elements n x [] h v =
    ((v.0, omega (arith, length-append (element x) (tail_elements []), length-element x)), tt)
Fits-elements n x (y ∷ ys) h v = (
  (v.0, omega (arith, length-append (element x) (tail_elements (y ∷ ys)), length-element x)),
  Fits-elements n y ys (omega (arith, length-append (element x) (tail_elements (y ∷ ys)))) v.1,
)

decode-nonempty :
    (s : Bytes) (xs : List Bytes) (c : ℕ) (t : Bytes)
    → s ≡ c ∷ t
    → back c t ≡ b';'
    → length s < max_frame_length
    → decode_loop (suc (length s)) (length s) s [] ≡ some xs
    → decode s ≡ some xs
unfolding decode
decode-nonempty [] xs c t e b l h = cc
decode-nonempty (d ∷ s) xs c t e b l h = ground arith

append-cons : (a : Bytes) (d : ℕ) (s : Bytes) → (c : ℕ) × (t : Bytes) × (a ++ d ∷ s ≡ c ∷ t)
append-cons [] d s = (d, s, refl)
append-cons (c ∷ a) d s = (c, a ++ d ∷ s, refl)

element-cons : (s : Bytes) → (c : ℕ) × (t : Bytes) × (element s ≡ c ∷ t)
unfolding element
element-cons s = append-cons (to_string (length s)) b'.' s

-- An instruction of at least one element, each under the limit on elements, and under the limit
-- on frames as a whole, decodes to exactly its elements.
pub decode-instruction :
    (x : Bytes) (xs : List Bytes)
    → Short x xs
    → length (instruction x xs) < max_frame_length
    → decode (instruction x xs) ≡ some (x ∷ xs)
unfolding instruction
decode-instruction x xs v l =
    let (c, t, e) = element-cons x in
    let n = length (element x ++ tail_elements xs) in
    decode-nonempty (element x ++ tail_elements xs) (x ∷ xs) c (t ++ tail_elements xs)
      (ap (λ k. k ++ tail_elements xs) e) (back-tail_elements c t xs) l
      (decode_loop-elements (suc n) n x xs []
        (omega (
          arith,
          length-append (element x) (tail_elements xs),
          length-element x,
          length-tail_elements xs,
        ))
        (Fits-elements n x xs (omega arith) v))
