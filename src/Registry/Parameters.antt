-- ===== src/Registry/Parameters.antt =====
-- registry/parameters.py: the parameters that are understood, and how their values are read and written. A number that
-- is negative, which no parameter has, is left out.
pub mod Faithful
use sartoriuslib.Prelude.{
  ℕ, String, Option, none, some, List, [], ◌∷◌, Bool, true, false, leb, ◌&&◌, ◌==◌, if◌then◌else◌,
}
use sartoriuslib.Errors.{value_error, runtime_error}
use sartoriuslib.Errors.Result.{Result, ok, err}
use sartoriuslib.Registry.Units.{
  PhysicalUnit, display_unit_table, lookup_code, unit_to_display_code,
}
use sartoriuslib.Registry.Modes.{
  Mode, has_value, decode_mode, app_filter, auto_zero_mode, cal_button_assignment, calibration_unit,
  display_accuracy_mode, external_cal_lock, filter_mode, iso_cal_mode, menu_access_mode,
  output_mode, parity_mode, stability_delay, stability_range, stop_bits_mode, tare_behavior,
  tare_on_power_on,
}
use sartoriuslib.Devices.{BalanceFamily, cubis, oem_weigh_cell, basic_lab}

pub record ParameterSpec : Type 0 where
  pub index : ℕ
  pub name : String
  pub enum : Option Mode
  pub writable : Bool
  pub bumps_config_counter : Bool
  pub families : List BalanceFamily
  pub unit_enum : Bool

-- A member of a mode, or a number for one, is known by its value.
pub data ParameterValue : Type 0 where
  mode : ℕ → ParameterValue
  unit : PhysicalUnit → ParameterValue

abbrev pub mse_bce : List BalanceFamily
mse_bce = cubis ∷ basic_lab ∷ BalanceFamily.unknown ∷ []

abbrev pub all_families : List BalanceFamily
all_families = cubis ∷ basic_lab ∷ oem_weigh_cell ∷ BalanceFamily.unknown ∷ []

abbrev unit_or_unknown : Option PhysicalUnit → PhysicalUnit
unit_or_unknown none = PhysicalUnit.unknown
unit_or_unknown (some u) = u

unfoldable pub decode_as : Bool → Option Mode → ℕ → Result ParameterValue
decode_as true enum current = ok (unit (unit_or_unknown (lookup_code display_unit_table current)))
decode_as false none current = err runtime_error
decode_as false (some enum) current = ok (mode (decode_mode enum current))

unfoldable pub decode : ParameterSpec → ℕ → Result ParameterValue
unfolding decode_as
decode spec current = decode_as spec.unit_enum spec.enum current

-- UNKNOWN is not written.
encode_member : Mode → ℕ → Result ℕ
encode_member enum value =
    if has_value enum value
    then (if value == 0 then err value_error else ok value)
    else err value_error

unfoldable pub encode_as : Bool → Option Mode → ParameterValue → Result ℕ
unfolding encode_member
encode_as true enum (unit u) = unit_to_display_code u
encode_as true enum (mode code) = if leb 1 code && leb code 24 then ok code else err value_error
encode_as false none value = err runtime_error
encode_as false (some enum) (mode value) = encode_member enum value
encode_as false (some enum) (unit u) = err value_error

unfoldable pub encode : ParameterSpec → ParameterValue → Result ℕ
unfolding encode_as
encode spec value = encode_as spec.unit_enum spec.enum value

abbrev spec : ℕ → String → Option Mode → Bool → List BalanceFamily → Bool → ParameterSpec
spec index name enum bumps families unit_enum = record {
  index = index;
  name = name;
  enum = enum;
  writable = true;
  bumps_config_counter = bumps;
  families = families;
  unit_enum = unit_enum;
}

abbrev pub parameter_table : List ParameterSpec
parameter_table =
    spec 1 "filter_mode" (some filter_mode) true all_families false
    ∷ spec 2 "app_filter" (some app_filter) true all_families false
    ∷ spec 3 "stability_range" (some stability_range) true all_families false
    ∷ spec 4 "stability_delay" (some stability_delay) true all_families false
    ∷ spec 5 "tare_behavior" (some tare_behavior) true all_families false
    ∷ spec 6 "auto_zero" (some auto_zero_mode) true all_families false
    ∷ spec 7 "display_unit" none true all_families true
    ∷ spec 8 "display_accuracy" (some display_accuracy_mode) true all_families false
    ∷ spec 9 "cal_button_assignment" (some cal_button_assignment) true mse_bce false
    ∷ spec 13 "tare_on_power_on" (some tare_on_power_on) false mse_bce false
    ∷ spec 15 "isocal_mode" (some iso_cal_mode) true mse_bce false
    ∷ spec 16 "external_cal_lock" (some external_cal_lock) true mse_bce false
    ∷ spec 32 "peripheral_parity" (some parity_mode) true mse_bce false
    ∷ spec 33 "peripheral_stop_bits" (some stop_bits_mode) true mse_bce false
    ∷ spec 36 "sbi_output_mode" (some output_mode) true mse_bce false
    ∷ spec 40 "menu_access" (some menu_access_mode) true all_families false
    ∷ spec 44 "calibration_unit" (some calibration_unit) true mse_bce false
    ∷ spec 64 "pc_usb_parity" (some parity_mode) true mse_bce false
    ∷ spec 65 "pc_usb_stop_bits" (some stop_bits_mode) true mse_bce false
    ∷ []

-- The rows are keyed by their index.
unfoldable pub find_spec : List ParameterSpec → ℕ → Option ParameterSpec
find_spec [] index = none
find_spec (row ∷ rows) index = if row.index == index then some row else find_spec rows index

unfoldable pub get_parameter_spec : ℕ → Option ParameterSpec
unfolding find_spec
get_parameter_spec index = find_spec parameter_table index
