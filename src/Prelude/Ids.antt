-- ===== src/Prelude/Ids.antt =====
-- Shared objects are told apart by a number: a pointer comparison is a comparison of numbers, and
-- a container of pointers is a list of them. A field of all users is a function on their numbers.
use Prim.Native.Nat.{ℕ}
use mathlib.Core.Path.{◌≡◌, refl}
use mathlib.Core.Logic.{inl, inr}
use mathlib.Core.Bool.{Bool, false, not, ◌&&◌, ◌||◌}
use mathlib.Core.List.{List, [], ◌∷◌, ◌++◌}
use mathlib.Core.Option.{Option, none, some}
use native.Mathlib.Omega.{arith}
use collab_vm_server.Prelude.Tests.{◌==◌, if◌then◌else◌, Bool-cases}

-- Writes one user's field.
abbrev pub update {ℓ} : {A : Type ℓ} → (ℕ → A) → ℕ → A → ℕ → A
update f u a v = if v == u then a else f v

unfoldable pub mem : ℕ → List ℕ → Bool
mem u [] = false
mem u (v ∷ q) = v == u || mem u q

-- `erase` of the first place that holds `u`.
unfoldable pub erase : ℕ → List ℕ → List ℕ
erase u [] = []
erase u (v ∷ q) = if v == u then q else v ∷ erase u q

-- Whether a pointer that may be null is this one.
abbrev pub is : Option ℕ → ℕ → Bool
is none u = false
is (some v) u = v == u

-- No user stands in the list twice.
abbrev pub Distinct : List ℕ → Type 0
Distinct [] = Unit
Distinct (v ∷ q) = (mem v q ≡ false) × Distinct q

pub mem-append : (u : ℕ) (p q : List ℕ) → mem u (p ++ q) ≡ (mem u p || mem u q)
unfolding mem
mem-append u [] q = refl
mem-append u (v ∷ p) q = ground (arith, mem-append u p q)

pub mem-erase : (u v : ℕ) (q : List ℕ) → Distinct q → mem v (erase u q) ≡ (mem v q && not (v == u))
unfolding mem erase
mem-erase u v [] d = refl
mem-erase u v (w ∷ q) d = ground (arith, mem-erase u v q d.1)

pub erase_absent : (u : ℕ) (q : List ℕ) → mem u q ≡ false → erase u q ≡ q
unfolding mem erase
erase_absent u [] h = refl
erase_absent u (w ∷ q) h = ground (arith, erase_absent u q)

pub Distinct-erase : (u : ℕ) (q : List ℕ) → Distinct q → Distinct (erase u q)
unfolding erase
Distinct-erase u [] d = tt
Distinct-erase u (w ∷ q) d = elim (Bool-cases (w == u)) [
  | inl e ↦ rw e d.1
  | inr e ↦ rw e (ground (arith, mem-erase u w q d.1), Distinct-erase u q d.1)
]

pub Distinct-concat : (u : ℕ) (q : List ℕ) → Distinct q → mem u q ≡ false → Distinct (q ++ u ∷ [])
unfolding mem
Distinct-concat u [] d h = (refl, tt)
Distinct-concat u (w ∷ q) d h =
    (ground (arith, mem-append w q (u ∷ [])), Distinct-concat u q d.1 (ground arith))
