-- ===== src/Prelude/Bytes.antt =====
-- Python's `bytes`: lists of numbers below 256, with equality, sums and big-endian integers.
use Prim.Native.Nat.{ℕ, zero, suc, ◌+◌, ◌*◌, ◌/◌, ◌%◌, ◌^◌, ◌<◌}
use mathlib.Core.Path.{◌≡◌, refl}
use mathlib.Core.Bool.{Bool, true, false, ◌&&◌}
use mathlib.Core.Logic.{◌↔◌}
use mathlib.Core.List.{List, [], ◌∷◌, ◌++◌}
use native.Mathlib.Nat.{pow-suc}
use native.Mathlib.Omega.{arith}
use sartoriuslib.Prelude.Tests.{◌==◌}
use sartoriuslib.Prelude.Lists.{All, All-append, length, length-append}

abbrev pub Bytes : Type 0
Bytes = List ℕ

-- Every element is a byte.
abbrev pub IsBytes : Bytes → Type 0
IsBytes = All (λ b. b < 256)

-- a == b on byte strings.
abbrev pub bytes_eq : Bytes → Bytes → Bool
bytes_eq [] [] = true
bytes_eq [] (y ∷ ys) = false
bytes_eq (x ∷ xs) [] = false
bytes_eq (x ∷ xs) (y ∷ ys) = x == y && bytes_eq xs ys

pub bytes_eq_iff : (xs ys : Bytes) → (bytes_eq xs ys ≡ true) ↔ (xs ≡ ys)
bytes_eq_iff [] [] = (λ h. refl, λ h. refl)
bytes_eq_iff [] (y ∷ ys) = (λ h. cc, λ h. cc)
bytes_eq_iff (x ∷ xs) [] = (λ h. cc, λ h. cc)
bytes_eq_iff (x ∷ xs) (y ∷ ys) =
    (λ h. ground (arith, bytes_eq_iff xs ys), λ h. ground (arith, bytes_eq_iff xs ys))

-- sum(data)
abbrev pub sum : Bytes → ℕ
sum [] = 0
sum (x ∷ xs) = x + sum xs

-- int.from_bytes(value, "big"), with an accumulator.
abbrev from_bytes_onto : ℕ → Bytes → ℕ
from_bytes_onto acc [] = acc
from_bytes_onto acc (x ∷ xs) = from_bytes_onto (acc * 256 + x) xs

abbrev pub from_bytes : Bytes → ℕ
from_bytes xs = from_bytes_onto 0 xs

-- The digits that value.to_bytes(size, "big") writes, low digit last.
abbrev pub to_bytes_unchecked : ℕ → ℕ → Bytes
to_bytes_unchecked zero value = []
to_bytes_unchecked (suc size) value = to_bytes_unchecked size (value / 256) ++ (value % 256) ∷ []

from_bytes_onto-append :
    (acc : ℕ) (xs : Bytes) (y : ℕ)
    → from_bytes_onto acc (xs ++ y ∷ []) ≡ from_bytes_onto acc xs * 256 + y
from_bytes_onto-append acc [] y = refl
from_bytes_onto-append acc (x ∷ xs) y = from_bytes_onto-append (acc * 256 + x) xs y

pub length-to_bytes : (size value : ℕ) → length (to_bytes_unchecked size value) ≡ size
length-to_bytes zero value = refl
length-to_bytes (suc size) value = omega (
  arith,
  length-append (to_bytes_unchecked size (value / 256)) ((value % 256) ∷ []),
  length-to_bytes size (value / 256),
)

pub to_bytes-IsBytes : (size value : ℕ) → IsBytes (to_bytes_unchecked size value)
to_bytes-IsBytes zero value = tt
to_bytes-IsBytes (suc size) value =
    All-append (λ b. b < 256) (to_bytes_unchecked size (value / 256)) ((value % 256) ∷ [])
      (to_bytes-IsBytes size (value / 256)) (omega arith)

-- Reading back what was written gives the value, if the value fits.
pub from_bytes-to_bytes :
    (size value : ℕ) → value < 256 ^ size → from_bytes (to_bytes_unchecked size value) ≡ value
from_bytes-to_bytes zero value h = omega arith
from_bytes-to_bytes (suc size) value h = omega (
  arith,
  from_bytes_onto-append 0 (to_bytes_unchecked size (value / 256)) (value % 256),
  from_bytes-to_bytes size (value / 256) (omega (arith, pow-suc 256 size)),
)
