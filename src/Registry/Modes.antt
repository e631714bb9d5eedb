-- ===== src/Registry/Modes.antt =====
-- registry/modes.py: the modes of the parameters, each the list of its members with their values.
use sartoriuslib.Prelude.{ℕ, String, List, [], ◌∷◌, Bool, false, ◌||◌, ◌==◌, if◌then◌else◌}

abbrev pub Mode : Type 0
Mode = List (String × ℕ)

-- Whether the enumeration has a member of the value.
unfoldable pub has_value : Mode → ℕ → Bool
has_value [] value = false
has_value ((name, member) ∷ mode) value = member == value || has_value mode value

-- A value without a member is read as the member UNKNOWN, which is 0.
unfoldable pub decode_mode : Mode → ℕ → ℕ
unfolding has_value
decode_mode mode raw = if has_value mode raw then raw else 0

abbrev pub filter_mode : Mode
filter_mode =
    ("unknown", 0)
    ∷ ("very_stable", 1)
    ∷ ("stable", 2)
    ∷ ("unstable", 3)
    ∷ ("very_unstable", 4)
    ∷ []

abbrev pub app_filter : Mode
app_filter =
    ("unknown", 0) ∷ ("final_reading", 1) ∷ ("filling", 2) ∷ ("reduced", 3) ∷ ("off", 4) ∷ []

abbrev pub stability_range : Mode
stability_range =
    ("unknown", 0)
    ∷ ("max_accuracy", 1)
    ∷ ("very_accurate", 2)
    ∷ ("accurate", 3)
    ∷ ("fast", 4)
    ∷ ("very_fast", 5)
    ∷ ("max_fast", 6)
    ∷ []

abbrev pub stability_delay : Mode
stability_delay = ("unknown", 0) ∷ ("none", 1) ∷ ("short", 2) ∷ ("average", 3) ∷ ("long", 4) ∷ []

abbrev pub tare_behavior : Mode
tare_behavior =
    ("unknown", 0) ∷ ("without_stability", 1) ∷ ("with_stability", 2) ∷ ("at_stability", 3) ∷ []

abbrev pub auto_zero_mode : Mode
auto_zero_mode = ("unknown", 0) ∷ ("on", 1) ∷ ("off", 2) ∷ []

abbrev pub display_accuracy_mode : Mode
display_accuracy_mode =
    ("unknown", 0)
    ∷ ("default", 1)
    ∷ ("low_power_on_off", 2)
    ∷ ("div1", 6)
    ∷ ("minus_1_digit", 7)
    ∷ []

abbrev pub zero_range : Mode
zero_range = ("unknown", 0) ∷ ("one_percent", 1) ∷ ("two_percent", 2) ∷ []

abbrev pub iso_cal_mode : Mode
iso_cal_mode = ("unknown", 0) ∷ ("off", 1) ∷ ("note", 2) ∷ ("on", 3) ∷ []

abbrev pub external_cal_lock : Mode
external_cal_lock = ("unknown", 0) ∷ ("free", 1) ∷ ("locked", 2) ∷ []

abbrev pub parity_mode : Mode
parity_mode = ("unknown", 0) ∷ ("odd", 3) ∷ ("even", 4) ∷ ("none", 5) ∷ []

abbrev pub stop_bits_mode : Mode
stop_bits_mode = ("unknown", 0) ∷ ("one", 1) ∷ ("two", 2) ∷ []

abbrev pub output_mode : Mode
output_mode =
    ("unknown", 0)
    ∷ ("manual_immediate", 1)
    ∷ ("manual_after_stability", 2)
    ∷ ("manual_at_stability", 3)
    ∷ ("autoprint_unfiltered", 4)
    ∷ ("autoprint_stable", 5)
    ∷ []

abbrev pub menu_access_mode : Mode
menu_access_mode = ("unknown", 0) ∷ ("can_edit", 1) ∷ ("read_only", 2) ∷ []

abbrev pub cal_button_assignment : Mode
cal_button_assignment =
    ("unknown", 0)
    ∷ ("cal_external", 1)
    ∷ ("e_cal_user", 3)
    ∷ ("cal_internal", 4)
    ∷ ("set_preload", 8)
    ∷ ("delete_preload", 9)
    ∷ ("blocked", 10)
    ∷ ("select", 12)
    ∷ ("set_external_weight", 17)
    ∷ []

abbrev pub calibration_unit : Mode
calibration_unit = ("unknown", 0) ∷ ("g", 1) ∷ ("kg", 2) ∷ ("user_defined", 4) ∷ []

abbrev pub tare_on_power_on : Mode
tare_on_power_on = ("unknown", 0) ∷ ("on", 1) ∷ ("off", 2) ∷ []
