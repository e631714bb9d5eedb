-- ===== src/Prelude/Dict.antt =====
-- Python's `dict` with string keys, as an association list in insertion order.
use Prim.Native.String.{String}
use mathlib.Core.Path.{◌≡◌, refl}
use mathlib.Core.Logic.{◌⊎◌}
use mathlib.Core.Bool.{false}
use mathlib.Core.Option.{Option, none, some}
use mathlib.Core.List.{List, [], ◌∷◌}
use native.Mathlib.Omega.{arith}
use text.Mathlib.Text.{◌==◌ as str_eq}
use text.Mathlib.TextEquality.{eq_iff}
use sartoriuslib.Prelude.Tests.{if◌then◌else◌}

abbrev pub Dict {ℓ} : Type ℓ → Type ℓ
Dict V = List (String × V)

module _ {ℓ} {V : Type ℓ} where
  -- d.get(k)
  unfoldable pub get : Dict V → String → Option V
  get [] k = none
  get ((j, v) ∷ d) k = if str_eq j k then some v else get d k

  -- d[k] = v: an existing key keeps its place.
  unfoldable pub put : Dict V → String → V → Dict V
  put [] k v = (k, v) ∷ []
  put ((j, w) ∷ d) k v = if str_eq j k then (j, v) ∷ d else (j, w) ∷ put d k v

  -- d.pop(k, None)
  unfoldable pub remove : Dict V → String → Dict V
  remove [] k = []
  remove ((j, w) ∷ d) k = let rest = remove d k in if str_eq j k then rest else (j, w) ∷ rest

  pub get-put :
      (d : Dict V) (k j : String) (v : V)
      → get (put d k v) j ≡ (if str_eq k j then some v else get d j)
  unfolding get put
  get-put [] k j v = refl
  get-put ((i, w) ∷ d) k j v = ground (arith, eq_iff k j, eq_iff i k, eq_iff i j, get-put d k j v)

  pub get-remove :
      (d : Dict V) (k j : String) → get (remove d k) j ≡ (if str_eq k j then none else get d j)
  unfolding get remove
  get-remove [] k j = ground arith
  get-remove ((i, w) ∷ d) k j = ground (arith, get-remove d k j, eq_iff i k, eq_iff i j, eq_iff k j)

  pub get-put_same : (d : Dict V) (k : String) (v : V) → get (put d k v) k ≡ some v
  get-put_same d k v = ground (arith, eq_iff k k, get-put d k k v)

  -- A key that was put in and taken out again leaves no trace.
  pub remove-absent : (d : Dict V) (k : String) → get d k ≡ none → remove d k ≡ d
  unfolding get remove
  remove-absent [] k h = refl
  remove-absent ((i, w) ∷ d) k h = ground (arith, eq_iff i k, remove-absent d k)

  pub remove-put : (d : Dict V) (k : String) (v : V) → get d k ≡ none → remove (put d k v) k ≡ d
  unfolding get put remove
  remove-put [] k v h = ground (arith, eq_iff k k)
  remove-put ((i, w) ∷ d) k v h = ground (arith, eq_iff i k, remove-put d k v)

  pub put-put : (d : Dict V) (k : String) (u v : V) → put (put d k u) k v ≡ put d k v
  unfolding put
  put-put [] k u v = ground (arith, eq_iff k k)
  put-put ((i, w) ∷ d) k u v = ground (arith, eq_iff i k, put-put d k u v)

  pub put-get : (d : Dict V) (k : String) (v : V) → get d k ≡ some v → put d k v ≡ d
  unfolding get put
  put-get [] k v h = cc
  put-get ((i, w) ∷ d) k v h = ground (arith, eq_iff i k, put-get d k v)

  -- What a key holds after a put is the new value, or what was there.
  pub put_cases :
      (d : Dict V) (k : String) (v : V) (j : String) (w : V)
      → get (put d k v) j ≡ some w
      → ((k ≡ j) × (v ≡ w)) ⊎ ((str_eq k j ≡ false) × (get d j ≡ some w))
  put_cases d k v j w h = grind (arith, get-put d k j v, eq_iff k j)

  pub remove_cases :
      (d : Dict V) (k j : String) (w : V)
      → get (remove d k) j ≡ some w
      → (str_eq k j ≡ false) × (get d j ≡ some w)
  remove_cases d k j w h = grind (arith, get-remove d k j)

  -- A dictionary without keys is empty.
  pub empty_dict : (d : Dict V) → ((k : String) → get d k ≡ none) → d ≡ []
  unfolding get
  empty_dict [] h = refl
  empty_dict ((i, w) ∷ d) h = let at = h i in ground (arith, eq_iff i i)

pub ruleset dict_laws = (get-put, get-remove)
