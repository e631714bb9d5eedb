-- ===== src/Xbpi/Parser.antt =====
-- protocol/xbpi/parser.py: the decoders of a reply's body.
pub mod Measurement
pub mod Status
use Prim.Native.Nat.{bit_and}
use sartoriuslib.Prelude.{
  ℕ, ◌+◌, ◌-◌, Option, none, some, List, [], ◌∷◌, Bool, true, false, not, ◌&&◌, length, get_or,
  take, drop, slice, ◌==◌, if◌then◌else◌,
}
use sartoriuslib.Prelude.Bytes.{Bytes, bytes_eq}
use sartoriuslib.Prelude.Float32.{Float32, unpack_float32}
use sartoriuslib.Errors.{parse}
use sartoriuslib.Errors.Result.{Result, ok, err, ◌>>=◌}
use sartoriuslib.Xbpi.Types.{
  MeasurementBody, StatusBlockBody, LongMeasurementBody, TypedFloatBody, ErrorBody,
}
use sartoriuslib.Xbpi.Units.{decode_decimals, decode_sign, decode_unit}

abbrev pub off_scale_sentinel : Bytes
off_scale_sentinel = 0x7f ∷ 0xff ∷ 0xff ∷ 0xff ∷ 0xff ∷ []

abbrev pub stable_flag : ℕ
stable_flag = 0x40

abbrev pub status_block_marker_prefix : Bytes
status_block_marker_prefix = 0x00 ∷ 0x81 ∷ []

abbrev pub status_block_marker_suffix : Bytes
status_block_marker_suffix = 0x10 ∷ 0x00 ∷ []

-- bool(byte & mask)
abbrev pub has_bit : ℕ → ℕ → Bool
has_bit byte mask = not (bit_and byte mask == 0)

unfoldable pub is_status_block_body : Bytes → Bool
is_status_block_body body =
    length body == 8
    && bytes_eq (slice body 1 3) status_block_marker_prefix
    && bytes_eq (slice body 5 7) status_block_marker_suffix

unfoldable pub decode_measurement_body : Bytes → Result MeasurementBody
decode_measurement_body raw =
    let off_scale = bytes_eq (slice raw 0 5) off_scale_sentinel in
    let byte5 = get_or raw 5 0 in
    let byte6 = get_or raw 6 0 in
    let flags = get_or raw 7 0 in
    if not (length raw == 8)
    then err parse
    else ok (record {
      raw = raw;
      value = if off_scale then none else some (unpack_float32 (slice raw 0 4));
      aux = get_or raw 4 0;
      decimals = decode_decimals byte5;
      unit = decode_unit byte6;
      sign = decode_sign byte6;
      stable = has_bit flags stable_flag;
      off_scale = off_scale;
      unit_raw = byte6;
      flags = flags;
    })

unfoldable pub decode_status_block_body : Bytes → Result StatusBlockBody
decode_status_block_body raw =
    let state = get_or raw 3 0 in
    let status = get_or raw 4 0 in
    let cubis_shape = has_bit state 0x80 in
    if not (length raw == 8)
    then err parse
    else ok (record {
      raw = raw;
      aux_flag = get_or raw 0 0;
      state = state;
      status = status;
      sequence = get_or raw 7 0;
      stable = has_bit state 0x08;
      overload = state == 0x82;
      underload = state == 0x84;
      adc_trusted = if cubis_shape then some (has_bit status 0x08) else none;
      isocal_due = if cubis_shape then some (has_bit status 0x10) else none;
    })

unfoldable pub decode_long_measurement_body : Bytes → Result LongMeasurementBody
decode_long_measurement_body raw =
    let delimiter = get_or raw 8 0 in
    if not (length raw == 17) then err parse else (do
      measurement ← decode_measurement_body (slice raw 0 8)
      if delimiter == 0x48
          then (do
            status ← decode_status_block_body (drop 9 raw)
            ok (record { measurement = measurement; delimiter = delimiter; status = status }))
          else err parse)

unfoldable pub decode_typed_float_body : Bytes → Result TypedFloatBody
decode_typed_float_body raw =
    if not (length raw == 5)
    then err parse
    else ok (record { value = unpack_float32 (slice raw 0 4); aux = get_or raw 4 0 })

unfoldable pub decode_error_body : Bytes → Result ErrorBody
decode_error_body body =
    if not (length body == 1) then err parse else ok (record { code = get_or body 0 0 })
