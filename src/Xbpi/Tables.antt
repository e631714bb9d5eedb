-- ===== src/Xbpi/Tables.antt =====
-- protocol/xbpi/tables.py: subtype families and body lengths.
use Prim.Native.Nat.{bit_and}
use sartoriuslib.Prelude.{
  ℕ, ◌+◌, Option, none, some, List, [], ◌∷◌, Bool, false, ◌||◌, ◌==◌, if◌then◌else◌,
}
use sartoriuslib.Registry.Units.{lookup_code}
use sartoriuslib.Xbpi.Types.{
  SubtypeFamily, ack, error, bargraph, structured_u32, short_data, typed_float_alt, typed_float,
  short_blob, measurement, long_data, unknown,
}

-- `_KNOWN_SUBTYPES`
abbrev pub known_subtypes : List (ℕ × SubtypeFamily)
known_subtypes =
    (0x00, ack)
    ∷ (0x01, error)
    ∷ (0x12, bargraph)
    ∷ (0x14, structured_u32)
    ∷ (0x21, short_data)
    ∷ (0x22, short_data)
    ∷ (0x24, short_data)
    ∷ (0x34, typed_float_alt)
    ∷ (0x35, typed_float)
    ∷ (0x41, short_blob)
    ∷ (0x43, long_data)
    ∷ (0x44, long_data)
    ∷ (0x45, long_data)
    ∷ (0x48, measurement)
    ∷ (0x4a, long_data)
    ∷ (0x50, long_data)
    ∷ (0x51, long_data)
    ∷ (0x54, long_data)
    ∷ []

-- `_HIGH_NIBBLE_FAMILIES`
abbrev pub high_nibble_families : List (ℕ × SubtypeFamily)
high_nibble_families =
    (0x10, bargraph) ∷ (0x20, short_data) ∷ (0x40, long_data) ∷ (0x50, long_data) ∷ []

abbrev pub or_else {ℓ} : {A : Type ℓ} → Option A → A → A
or_else none d = d
or_else (some a) d = a

unfoldable pub subtype_family : ℕ → SubtypeFamily
unfolding lookup_code
subtype_family subtype =
    or_else (lookup_code known_subtypes subtype)
      (or_else (lookup_code high_nibble_families (bit_and subtype 0xf0)) unknown)

abbrev pub is_member : ℕ → List ℕ → Bool
is_member x [] = false
is_member x (y ∷ ys) = x == y || is_member x ys

-- `_VARIABLE_BODY_SUBTYPES`
abbrev pub variable_body_subtypes : List ℕ
variable_body_subtypes = 0x00 ∷ 0x48 ∷ []

-- `_FIXED_LOW_NIBBLE_LENGTH_FAMILIES`
abbrev pub fixed_low_nibble_length_families : List ℕ
fixed_low_nibble_length_families = 0x00 ∷ 0x10 ∷ 0x20 ∷ 0x30 ∷ 0x40 ∷ []

unfoldable pub body_length_for_subtype : ℕ → Option ℕ
body_length_for_subtype subtype =
    let high = bit_and subtype 0xf0 in
    let low = bit_and subtype 0x0f in
    if is_member subtype variable_body_subtypes
    then none
    else if is_member high fixed_low_nibble_length_families
    then some low
    else if high == 0x50
    then some (16 + low)
    else none
