-- ===== src/Registry/Units.antt =====
-- registry/units.py: physical units, signs, and the display-unit codes of parameter 7.
use sartoriuslib.Prelude.{ℕ, Option, none, some, List, [], ◌∷◌, ◌==◌, if◌then◌else◌, ◌≡◌, ◌≢◌, refl}
use sartoriuslib.Errors.{value_error}
use sartoriuslib.Errors.Result.{Result, ok, err}

-- `Unit` of registry/units.py.
pub data PhysicalUnit : Type 0 where
  userdef g kg ct lb oz ozt tael_hk tael_sg tael_tw gr dwt mg parts_per_pound : PhysicalUnit
  tael_cn momme ct_au tola baht mesgal t lb_oz newton ug unknown : PhysicalUnit

pub data Sign : Type 0 where
  zero positive negative unknown : Sign

-- `DISPLAY_UNIT_CODE_TO_UNIT`, in the order of its keys.
abbrev pub display_unit_table : List (ℕ × PhysicalUnit)
display_unit_table =
    (1, userdef)
    ∷ (2, g)
    ∷ (3, kg)
    ∷ (4, ct)
    ∷ (5, lb)
    ∷ (6, oz)
    ∷ (7, ozt)
    ∷ (8, tael_hk)
    ∷ (9, tael_sg)
    ∷ (10, tael_tw)
    ∷ (11, gr)
    ∷ (12, dwt)
    ∷ (13, mg)
    ∷ (14, parts_per_pound)
    ∷ (15, tael_cn)
    ∷ (16, momme)
    ∷ (17, ct_au)
    ∷ (18, tola)
    ∷ (19, baht)
    ∷ (20, mesgal)
    ∷ (21, t)
    ∷ (22, lb_oz)
    ∷ (23, newton)
    ∷ (24, ug)
    ∷ []

-- d.get(code) on a table with number keys.
unfoldable pub lookup_code {ℓ} : {A : Type ℓ} → List (ℕ × A) → ℕ → Option A
lookup_code [] code = none
lookup_code ((c, a) ∷ rest) code = if c == code then some a else lookup_code rest code

-- Units compared by their place in the enumeration.
unit_tag : PhysicalUnit → ℕ
unit_tag userdef = 1
unit_tag g = 2
unit_tag kg = 3
unit_tag ct = 4
unit_tag lb = 5
unit_tag oz = 6
unit_tag ozt = 7
unit_tag tael_hk = 8
unit_tag tael_sg = 9
unit_tag tael_tw = 10
unit_tag gr = 11
unit_tag dwt = 12
unit_tag mg = 13
unit_tag parts_per_pound = 14
unit_tag tael_cn = 15
unit_tag momme = 16
unit_tag ct_au = 17
unit_tag tola = 18
unit_tag baht = 19
unit_tag mesgal = 20
unit_tag t = 21
unit_tag lb_oz = 22
unit_tag newton = 23
unit_tag ug = 24
unit_tag unknown = 0

-- `_UNIT_TO_DISPLAY_CODE`: the inverted table.
code_of_unit : List (ℕ × PhysicalUnit) → PhysicalUnit → Option ℕ
unfolding unit_tag
code_of_unit [] u = none
code_of_unit ((c, v) ∷ rest) u = if unit_tag v == unit_tag u then some c else code_of_unit rest u

raise_if_none : Option ℕ → Result ℕ
raise_if_none none = err value_error
raise_if_none (some c) = ok c

unfoldable pub unit_to_display_code : PhysicalUnit → Result ℕ
unfolding code_of_unit raise_if_none
unit_to_display_code u = raise_if_none (code_of_unit display_unit_table u)

-- Every unit but unknown has a display code, and the table decodes that code to the unit.
pub display_code_roundtrip :
    (u : PhysicalUnit)
    → u ≢ unknown
    → (c : ℕ) × (unit_to_display_code u ≡ ok c) × (lookup_code display_unit_table c ≡ some u)
unfolding unit_to_display_code lookup_code
display_code_roundtrip userdef h = (1, refl, refl)
display_code_roundtrip g h = (2, refl, refl)
display_code_roundtrip kg h = (3, refl, refl)
display_code_roundtrip ct h = (4, refl, refl)
display_code_roundtrip lb h = (5, refl, refl)
display_code_roundtrip oz h = (6, refl, refl)
display_code_roundtrip ozt h = (7, refl, refl)
display_code_roundtrip tael_hk h = (8, refl, refl)
display_code_roundtrip tael_sg h = (9, refl, refl)
display_code_roundtrip tael_tw h = (10, refl, refl)
display_code_roundtrip gr h = (11, refl, refl)
display_code_roundtrip dwt h = (12, refl, refl)
display_code_roundtrip mg h = (13, refl, refl)
display_code_roundtrip parts_per_pound h = (14, refl, refl)
display_code_roundtrip tael_cn h = (15, refl, refl)
display_code_roundtrip momme h = (16, refl, refl)
display_code_roundtrip ct_au h = (17, refl, refl)
display_code_roundtrip tola h = (18, refl, refl)
display_code_roundtrip baht h = (19, refl, refl)
display_code_roundtrip mesgal h = (20, refl, refl)
display_code_roundtrip t h = (21, refl, refl)
display_code_roundtrip lb_oz h = (22, refl, refl)
display_code_roundtrip newton h = (23, refl, refl)
display_code_roundtrip ug h = (24, refl, refl)
display_code_roundtrip unknown h = absurd (h refl)
