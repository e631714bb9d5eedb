-- ===== src/Registry/Parameters/Faithful.antt =====
-- registry/parameters.py: what is written is read back.
use sartoriuslib.Prelude.{
  ℕ, ◌≡◌, refl, sym, ap, ◌∙◌, Option, none, some, Bool, true, false, ◌&&◌, leb, ◌==◌, if◌then◌else◌,
}
use sartoriuslib.Errors.{value_error}
use sartoriuslib.Errors.Result.{Result, ok, err}
use sartoriuslib.Registry.Units.{
  PhysicalUnit, display_unit_table, lookup_code, unit_to_display_code, display_code_roundtrip,
}
use sartoriuslib.Registry.Modes.{Mode, has_value, decode_mode}
use sartoriuslib.Registry.Parameters.{
  ParameterSpec, ParameterValue, mode, unit, encode, decode, encode_as, decode_as, encode_member,
}

-- A member comes back as it was written, and so does a unit; a code of a unit is written as it is.
unfoldable pub Faithful : Bool → ParameterValue → ℕ → Result ParameterValue → Type 0
Faithful false (mode n) wire back = (wire ≡ n) × (back ≡ ok (mode n))
Faithful true (unit u) wire back = back ≡ ok (unit u)
Faithful true (mode code) wire back = wire ≡ code
Faithful false (unit u) wire back = ⊥

member_back :
    (enum : Mode) (n wire : ℕ)
    → encode_member enum n ≡ ok wire
    → (wire ≡ n) × (decode_mode enum wire ≡ n)
unfolding encode_member decode_mode
member_back enum n wire h = by_tests (has_value enum n) (n == 0) refl h
  where
    by_tests :
        (known is_zero : Bool)
        → has_value enum n ≡ known
        → (if known then (if is_zero then err value_error else ok n) else err value_error) ≡ ok wire
        → (wire ≡ n) × (decode_mode enum wire ≡ n)
    by_tests true false e k =
        let same : wire ≡ n = cc in
        (same, ap (decode_mode enum) same ∙ ap (λ b. if b then n else 0) e)
    by_tests true true e k = cc
    by_tests false z e k = cc

not_written : {wire : ℕ} → unit_to_display_code PhysicalUnit.unknown ≡ ok wire → ⊥
unfolding unit_to_display_code
not_written h = cc

unit_back :
    (u : PhysicalUnit) (wire : ℕ)
    → unit_to_display_code u ≡ ok wire
    → decode_as true none wire ≡ ok (unit u)
unfolding decode_as unit_to_display_code
unit_back u wire h =
    let known : u ≡ PhysicalUnit.unknown → ⊥ =
      λ e. not_written (sym (ap unit_to_display_code e) ∙ h) in
    let (code, written, found) = display_code_roundtrip u known in
    let same : ok code ≡ ok wire = sym written ∙ h in
    let one : code ≡ wire = cc in
    ap (λ o. ok (unit (elim o [ none ↦ PhysicalUnit.unknown | some v ↦ v ])))
      (ap (lookup_code display_unit_table) (sym one) ∙ found)

encode_as-Faithful :
    (is_unit : Bool) (enum : Option Mode) (value : ParameterValue) (wire : ℕ)
    → encode_as is_unit enum value ≡ ok wire
    → Faithful is_unit value wire (decode_as is_unit enum wire)
unfolding encode_as decode_as Faithful
encode_as-Faithful true enum (unit u) wire h = unit_back u wire h
encode_as-Faithful true enum (mode code) wire h = by_range (leb 1 code && leb code 24) h
  where
    by_range : (b : Bool) → (if b then ok code else err value_error) ≡ ok wire → wire ≡ code
    by_range true k = cc
    by_range false k = cc
encode_as-Faithful false none value wire h = cc
encode_as-Faithful false (some enum) (unit u) wire h = cc
encode_as-Faithful false (some enum) (mode n) wire h =
    let (same, back) = member_back enum n wire h in (same, ap (λ m. ok (mode m)) back)

-- What the specification of a parameter encodes is decoded back: a member of its mode to the member, which is
-- written as its value, and a unit to the unit; the code of a unit, where the parameter is one of units, is
-- written as it is.
pub encode-Faithful :
    (spec : ParameterSpec) (value : ParameterValue) (wire : ℕ)
    → encode spec value ≡ ok wire
    → Faithful spec.unit_enum value wire (decode spec wire)
unfolding encode decode
encode-Faithful spec value wire h = encode_as-Faithful spec.unit_enum spec.enum value wire h
