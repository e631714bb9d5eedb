-- ===== src/Prelude/Names.antt =====
-- The keys of a dictionary, and lists of names: membership, and lists in which no name stands twice.
use Prim.Native.String.{String}
use mathlib.Core.Path.{◌≡◌, refl, ap}
use mathlib.Core.Bool.{Bool, true, false, ◌||◌}
use mathlib.Core.Option.{none}
use mathlib.Core.List.{List, [], ◌∷◌, ◌++◌}
use native.Mathlib.Omega.{arith}
use text.Mathlib.Text.{◌==◌ as str_eq}
use text.Mathlib.TextEquality.{eq_iff}
use sartoriuslib.Prelude.Tests.{if◌then◌else◌}
use sartoriuslib.Prelude.Dict.{Dict, get, put}

-- The keys of a dictionary, in order.
abbrev pub keys {ℓ} : {V : Type ℓ} → Dict V → List String
keys [] = []
keys ((k, v) ∷ d) = k ∷ keys d

-- `name in names`
abbrev pub mem : String → List String → Bool
mem x [] = false
mem x (y ∷ ys) = if str_eq y x then true else mem x ys

-- No name stands twice.
abbrev pub Distinct : List String → Type 0
Distinct [] = Unit
Distinct (x ∷ xs) = (mem x xs ≡ false) × Distinct xs

pub mem-append : (k : String) (xs ys : List String) → mem k (xs ++ ys) ≡ (mem k xs || mem k ys)
mem-append k [] ys = refl
mem-append k (x ∷ xs) ys = ground (arith, mem-append k xs ys)

-- A name that stands between two parts of a list of distinct names stands in neither.
pub Distinct-before :
    (front : List String) (x : String) (back : List String)
    → Distinct (front ++ x ∷ back)
    → mem x front ≡ false
Distinct-before [] x back d = refl
Distinct-before (y ∷ front) x back (fresh, d) =
    ground
      (arith, Distinct-before front x back d, mem-append y front (x ∷ back), eq_iff x y, eq_iff y x)

pub Distinct-snoc :
    (xs : List String) (x : String) → Distinct xs → mem x xs ≡ false → Distinct (xs ++ x ∷ [])
Distinct-snoc [] x d fresh = (refl, tt)
Distinct-snoc (y ∷ xs) x (apart, d) fresh = (
  ground (arith, mem-append y xs (x ∷ []), eq_iff x y, eq_iff y x),
  Distinct-snoc xs x d (ground (arith)),
)

module _ {V : Type 0} where
  -- Whether a dictionary has a key, by its list of keys.
  pub mem-keys : (d : Dict V) (k : String) → mem k (keys d) ≡ false → get d k ≡ none
  unfolding get
  mem-keys [] k h = refl
  mem-keys ((j, v) ∷ d) k h = ground (arith, mem-keys d k)

  -- Putting a key that is there keeps the keys; a new one is appended, with its value.
  pub keys-put :
      (d : Dict V) (k : String) (v : V)
      → keys (put d k v) ≡ (if mem k (keys d) then keys d else keys d ++ k ∷ [])
  unfolding put
  keys-put [] k v = refl
  keys-put ((j, w) ∷ d) k v = ground (arith, keys-put d k v)

  pub put-absent :
      (d : Dict V) (k : String) (v : V) → mem k (keys d) ≡ false → put d k v ≡ d ++ (k, v) ∷ []
  unfolding put
  put-absent [] k v h = refl
  put-absent ((j, w) ∷ d) k v h = ground (arith, put-absent d k v)

  pub keys-append : (d e : Dict V) → keys (d ++ e) ≡ keys d ++ keys e
  keys-append [] e = refl
  keys-append ((j, w) ∷ d) e = ap (λ ks. j ∷ ks) (keys-append d e)
