-- ===== src/Wire/Digits.antt =====
-- `std::to_string` against the digits that the stream reads.
use mathlib.Core.Logic.{dif_pos, dif_neg}
use native.Mathlib.Bridge.{le_prop}
use mathlib.Core.WellFounded.{Acc}
use native.Mathlib.Decide.{dec_lt}
use collab_vm_server.Prelude.{
  ℕ, ◌+◌, ◌*◌, ◌/◌, ◌%◌, ◌^◌, ◌≤◌, ◌<◌, ◌≡◌, refl, ◌∙◌, ap, true, false, some, [], ◌∷◌, ◌++◌, Bytes,
  to_string, print_acc, arith, length, length-append,
}
use collab_vm_server.Prelude.Order.{lt_wf}
use collab_vm_server.Wire.{
  is_digit, is_space, skip_space, scan, digits, sign, fit, extract, element,
}

scan-digit : (a d : ℕ) (s : Bytes) → d < 10 → scan a ((b'0' + d) ∷ s) ≡ scan (a * 10 + d) s
unfolding scan is_digit
scan-digit a d s h = ground arith

-- Reading back what is printed in front of `out` gives the number, on the way to `out`.
scan-print_acc :
    (n : ℕ) (w : Acc ◌<◌ n) (out rest : Bytes)
    → scan 0 (print_acc n w out ++ rest) ≡ scan n (out ++ rest)
unfolding print_acc
scan-print_acc n (Acc.intro _ smaller) out rest = elim (dec_lt 9 n) [
  | yes p ↦ rw (dif_pos _ le_prop p) (
      scan-print_acc (n / 10) (smaller (n / 10) (omega arith)) ((b'0' + n % 10) ∷ out) rest
      ∙ scan-digit (n / 10) (n % 10) (out ++ rest) (omega arith)
      ∙ ap (λ k. scan k (out ++ rest)) (omega arith))
  | no p ↦
      rw (dif_neg _ p)
        (scan-digit 0 n (out ++ rest) (omega arith) ∙ ap (λ k. scan k (out ++ rest)) (omega arith))
]

print_acc-digit :
    (n : ℕ) (w : Acc ◌<◌ n) (out : Bytes)
    → (c : ℕ) × (t : Bytes) × (print_acc n w out ≡ c ∷ t) × (is_digit c ≡ true)
unfolding print_acc is_digit
print_acc-digit n (Acc.intro _ smaller) out = elim (dec_lt 9 n) [
  | yes p ↦
      rw (dif_pos _ le_prop p)
        (print_acc-digit (n / 10) (smaller (n / 10) (omega arith)) ((b'0' + n % 10) ∷ out))
  | no p ↦ rw (dif_neg _ p) (b'0' + n, out, refl, ground arith)
]

-- What stops the digits.
abbrev pub Stops : Bytes → Type 0
Stops [] = Unit
Stops (c ∷ s) = is_digit c ≡ false

scan-Stops : (n : ℕ) (s : Bytes) → Stops s → scan n s ≡ (n, s)
unfolding scan
scan-Stops n [] h = refl
scan-Stops n (c ∷ s) h = rw h

digit-extract :
    (c : ℕ) (s : Bytes) {n : ℕ} {r : Bytes}
    → is_digit c ≡ true
    → scan 0 (c ∷ s) ≡ (n, r)
    → n < 2 ^ 64
    → extract (c ∷ s) ≡ some (n, r)
unfolding extract sign skip_space is_space digits fit is_digit
digit-extract c s h e lt = ground arith

-- `operator>>` reads back what `std::to_string` has written.
pub extract-to_string :
    (n : ℕ) (rest : Bytes)
    → n < 2 ^ 64
    → Stops rest
    → extract (to_string n ++ rest) ≡ some (n, rest)
unfolding to_string
extract-to_string n rest lt stop =
    let (c, t, e, d) = print_acc-digit n (lt_wf.apply n) [] in
    rw e (
      digit-extract c (t ++ rest) d
        (rw e at (scan-print_acc n (lt_wf.apply n) [] rest) ∙ scan-Stops n rest stop) lt)

length-print_acc :
    (n : ℕ) (w : Acc ◌<◌ n) (out : Bytes) → length (print_acc n w out) ≤ length out + n + 1
unfolding print_acc
length-print_acc n (Acc.intro _ smaller) out = elim (dec_lt 9 n) [
  | yes p ↦ rw (dif_pos _ le_prop p) (
      omega
        (arith, length-print_acc (n / 10) (smaller (n / 10) (omega arith)) ((b'0' + n % 10) ∷ out)))
  | no p ↦ rw (dif_neg _ p) (omega arith)
]

-- A coarse bound.
pub length-to_string : (n : ℕ) → length (to_string n) ≤ n + 1
unfolding to_string
length-to_string n = omega (arith, length-print_acc n (lt_wf.apply n) [])

pub length-element-le : (s : Bytes) → length (element s) ≤ 2 * length s + 2
unfolding element
length-element-le s =
    omega (arith, length-append (to_string (length s)) (b'.' ∷ s), length-to_string (length s))
