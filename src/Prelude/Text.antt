-- ===== src/Prelude/Text.antt =====
-- Byte strings as lists of numbers, for `std::string`, with the standard library's decimal printing.
use Prim.Native.Nat.{ℕ, ◌+◌, ◌/◌, ◌%◌, ◌<◌}
use Prim.Native.Char.{code}
use Prim.Native.String.{String}
use mathlib.Core.Path.{◌≡◌, refl}
use mathlib.Core.Bool.{Bool, true, false, ◌&&◌}
use mathlib.Core.Logic.{dite}
use mathlib.Core.List.{List, [], ◌∷◌}
use mathlib.Core.WellFounded.{Acc}
use native.Mathlib.Omega.{arith}
use native.Mathlib.Decide.{dec_lt}
use collab_vm_server.Prelude.Order.{lt_wf}
use collab_vm_server.Prelude.Tests.{◌==◌, leb}

abbrev pub Bytes : Type 0
Bytes = List ℕ

-- The bytes of an ASCII literal.
abbrev pub codes : String → Bytes
codes String.[] = []
codes (String.◌∷◌ c s) = code c ∷ codes s

-- `operator==` of two strings.
unfoldable pub equal : Bytes → Bytes → Bool
equal [] [] = true
equal (x ∷ xs) (y ∷ ys) = x == y && equal xs ys
equal _ _ = false

pub equal_refl : (s : Bytes) → equal s s ≡ true
unfolding equal
equal_refl [] = refl
equal_refl (x ∷ s) = ground (arith, equal_refl s)

pub equal_sound : (s t : Bytes) → equal s t ≡ true → s ≡ t
unfolding equal
equal_sound [] [] h = refl
equal_sound (x ∷ s) (y ∷ t) h = ground (arith, equal_sound s t)
equal_sound [] (y ∷ t) h = cc
equal_sound (x ∷ s) [] h = cc

-- A byte within two bounds, both included.
abbrev pub within : ℕ → ℕ → ℕ → Bool
within lo hi c = leb lo c && leb c hi

unfoldable pub print_acc : (n : ℕ) → Acc ◌<◌ n → Bytes → Bytes
print_acc n (Acc.intro _ smaller) out =
    dite (dec_lt 9 n)
      (λ h. print_acc (n / 10) (smaller (n / 10) (omega arith)) ((b'0' + n % 10) ∷ out))
      (λ _. (b'0' + n) ∷ out)

-- `std::to_string` of an unsigned number.
unfoldable pub to_string : ℕ → Bytes
unfolding print_acc lt_wf dec_lt
to_string n = print_acc n (lt_wf.apply n) []
