-- ===== src/Examples/Bodies.antt =====
-- Concrete bodies of xBPI replies.
use sartoriuslib.Prelude.{
  ◌/◌, ◌%◌, ◌≡◌, ◌↔◌, none, some, [], ◌∷◌, ◌++◌, true, false, arith, ◌==◌, if◌then◌else◌,
}
use sartoriuslib.Prelude.Bytes.{Bytes}
use sartoriuslib.Prelude.Float32.{unpack_float32}
use sartoriuslib.Errors.Result.{ok}
use sartoriuslib.Registry.Units.{lookup_code}
use sartoriuslib.Xbpi.Types.{MeasurementBody, StatusBlockBody, LongMeasurementBody}
use sartoriuslib.Xbpi.Units.{unit_id_table, or_unknown, decode_decimals, decode_unit, decode_sign}
use sartoriuslib.Xbpi.Parser.{
  decode_measurement_body, decode_status_block_body, decode_long_measurement_body,
  off_scale_sentinel,
}
use sartoriuslib.Xbpi.Parser.Measurement.{sign_of_bits, decode_measurement_body-pack}
use sartoriuslib.Xbpi.Parser.Status.{decode_long_measurement_body_iff}

-- 1.5 g, stable, with two decimals.
decode_measurement_body-pack_example :
    (m : MeasurementBody) × (decode_measurement_body
        (0x3f ∷ 0xc0 ∷ 0x00 ∷ 0x00 ∷ 0x00 ∷ 0x20 ∷ 0x42 ∷ 0x40 ∷ [])
      ≡ ok m)
    × (m.raw ≡ 0x3f ∷ 0xc0 ∷ 0x00 ∷ 0x00 ∷ 0x00 ∷ 0x20 ∷ 0x42 ∷ 0x40 ∷ [])
    × (m.aux ≡ 0x00)
    × (m.unit_raw ≡ 0x42)
    × (m.flags ≡ 0x40)
    × (m.decimals ≡ 2)
    × (m.sign ≡ sign_of_bits 1)
    × (m.unit ≡ or_unknown (lookup_code unit_id_table 2))
    × (m.stable ≡ (0x40 / 64 % 2 == 1))
    × ((m.off_scale ≡ true) ↔ (0x3f ∷ 0xc0 ∷ 0x00 ∷ 0x00 ∷ 0x00 ∷ [] ≡ off_scale_sentinel))
    × (m.value
        ≡ (if m.off_scale then none else some (unpack_float32 (0x3f ∷ 0xc0 ∷ 0x00 ∷ 0x00 ∷ []))))
decode_measurement_body-pack_example =
    decode_measurement_body-pack 0x3f 0xc0 0x00 0x00 0x00 2 0 1 2 0x40 (omega arith) (omega arith)
      (omega arith) (omega arith) (omega arith)

-- A stable Cubis status block.
abbrev stable_block : Bytes
stable_block = 0x00 ∷ 0x00 ∷ 0x81 ∷ 0x88 ∷ 0x08 ∷ 0x10 ∷ 0x00 ∷ 0x05 ∷ []

abbrev stable_status : StatusBlockBody
stable_status = record {
  raw = stable_block;
  aux_flag = 0x00;
  state = 0x88;
  status = 0x08;
  sequence = 0x05;
  stable = true;
  overload = false;
  underload = false;
  adc_trusted = some true;
  isocal_due = some false;
}

abbrev block_as_measurement : MeasurementBody
block_as_measurement = record {
  raw = stable_block;
  value = some (unpack_float32 (0x00 ∷ 0x00 ∷ 0x81 ∷ 0x88 ∷ []));
  aux = 0x08;
  decimals = decode_decimals 0x10;
  unit = decode_unit 0x00;
  sign = decode_sign 0x00;
  stable = false;
  off_scale = false;
  unit_raw = 0x00;
  flags = 0x05;
}

abbrev long_body : LongMeasurementBody
long_body = record { measurement = block_as_measurement; delimiter = 0x48; status = stable_status }

decode_long_measurement_body_iff_example :
    (decode_long_measurement_body (stable_block ++ 0x48 ∷ stable_block) ≡ ok long_body) ↔ (
      (stable_block ++ 0x48 ∷ stable_block ≡ stable_block ++ 0x48 ∷ stable_block)
      × (long_body.delimiter ≡ 0x48)
      × (decode_measurement_body stable_block ≡ ok block_as_measurement)
      × (decode_status_block_body stable_block ≡ ok stable_status))
decode_long_measurement_body_iff_example =
    decode_long_measurement_body_iff (stable_block ++ 0x48 ∷ stable_block) long_body
