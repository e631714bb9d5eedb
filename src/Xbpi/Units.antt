-- ===== src/Xbpi/Units.antt =====
-- protocol/xbpi/units.py: decimals, sign and unit in bytes [5] and [6] of a measurement.
use Prim.Native.Nat.{bit_and}
use sartoriuslib.Prelude.{ℕ, ◌/◌, Option, none, some, List, [], ◌∷◌, ◌==◌, if◌then◌else◌}
use sartoriuslib.Registry.Units.{PhysicalUnit, Sign, lookup_code}

abbrev pub sign_mask : ℕ
sign_mask = 0xc0

abbrev pub unit_id_mask : ℕ
unit_id_mask = 0x3f

-- (byte5 >> 4) & 0x0F
unfoldable pub decode_decimals : ℕ → ℕ
decode_decimals byte5 = bit_and (byte5 / 16) 0x0f

unfoldable pub decode_sign : ℕ → Sign
decode_sign byte6 =
    let bits = bit_and byte6 sign_mask in
    if bits == 0x00
    then Sign.zero
    else if bits == 0x40
    then Sign.positive
    else if bits == 0x80
    then Sign.negative
    else Sign.unknown

-- `_UNIT_ID_TO_UNIT`
abbrev pub unit_id_table : List (ℕ × PhysicalUnit)
unit_id_table =
    (0x02, PhysicalUnit.g)
    ∷ (0x03, PhysicalUnit.kg)
    ∷ (0x0d, PhysicalUnit.mg)
    ∷ (0x17, PhysicalUnit.newton)
    ∷ []

abbrev pub or_unknown : Option PhysicalUnit → PhysicalUnit
or_unknown none = PhysicalUnit.unknown
or_unknown (some u) = u

unfoldable pub unit_byte_to_unit : ℕ → PhysicalUnit
unfolding lookup_code
unit_byte_to_unit unit_id = or_unknown (lookup_code unit_id_table (bit_and unit_id unit_id_mask))

unfoldable pub decode_unit : ℕ → PhysicalUnit
unfolding unit_byte_to_unit
decode_unit byte6 = unit_byte_to_unit (bit_and byte6 unit_id_mask)
