-- ===== src/Commands/Records.antt =====
-- commands/metrology.py and commands/calibration.py: capacity, increment, temperatures, and the calibration record.
use sartoriuslib.Prelude.{
  ℕ, String, none, some, [], ◌∷◌, Bool, true, false, not, length, get_or, slice, ◌==◌,
  if◌then◌else◌,
}
use sartoriuslib.Prelude.Int.{ℤ, pos, negsuc}
use sartoriuslib.Prelude.Bytes.{Bytes, bytes_eq}
use sartoriuslib.Errors.{parse}
use sartoriuslib.Errors.Result.{Result, ok, err, ◌>>=◌}
use sartoriuslib.Xbpi.Types.{XbpiFrame}
use sartoriuslib.Devices.{SafetyTier, read_only, dangerous, Command}
use sartoriuslib.Prelude.Float32.{unpack_float32}
use sartoriuslib.Xbpi.Parser.{decode_typed_float_body}
use sartoriuslib.Registry.Units.{PhysicalUnit}
use sartoriuslib.Devices.Models.{Quantity, TemperatureReading, CalRecord}
use sartoriuslib.Commands.{encode_bare, encode_number}

abbrev pub temperature_sentinel : Bytes
temperature_sentinel = 0x7f ∷ 0xff ∷ 0xff ∷ 0xff ∷ []

-- The reply carries no unit.
unfoldable pub decode_metrology : XbpiFrame → Result Quantity
decode_metrology reply = do
  body ← decode_typed_float_body reply.body
  ok (record { value = body.value; unit = PhysicalUnit.unknown })

-- The reply does not say which sensor it is about; the caller fills it in.
unfoldable pub decode_temperature : XbpiFrame → Result TemperatureReading
decode_temperature reply =
    if bytes_eq (slice reply.body 0 4) temperature_sentinel
    then ok (record { sensor = negsuc 0; celsius = none; raw = reply.body })
    else (do
      body ← decode_typed_float_body reply.body
      ok (record { sensor = negsuc 0; celsius = some body.value; raw = reply.body }))

abbrev temp_sentinel : Bytes
temp_sentinel = 0 ∷ 0 ∷ 0 ∷ 0 ∷ []

unfoldable pub decode_cal_record : XbpiFrame → Result CalRecord
decode_cal_record reply =
    let temp_bytes = slice reply.body 0 4 in
    if not (length reply.body == 17)
    then err parse
    else ok (record {
      temperature_celsius =
          if bytes_eq temp_bytes temp_sentinel then none else some (unpack_float32 temp_bytes);
      signature = slice reply.body 4 13;
      counters = slice reply.body 13 16;
      padding = get_or reply.body 16 0;
      raw = reply.body;
    })

-- The default of `InternalAdjustRequest`.
abbrev pub internal_adjust_cal_type : ℤ
internal_adjust_cal_type = pos 0x78

module _ {R : Type 0} where
  -- A command whose request is one number in one byte.
  number_command :
      {Resp : Type 0}
      → String
      → ℕ
      → (XbpiFrame → Result Resp)
      → ℕ
      → SafetyTier
      → Bool
      → Command R ℤ Resp
  unfolding encode_number
  number_command name opcode decode hints safety parameterized = record {
    name = name;
    xbpi_variant = some (record {
      opcode = opcode;
      encode = λ ctx number. encode_number opcode number ctx;
      decode = λ reply ctx. decode reply;
    });
    sbi_variant = none;
    family_hints = [];
    capability_hints = hints;
    safety = safety;
    min_firmware = none;
    max_firmware = none;
    parameterized = parameterized;
  }

  unfoldable pub read_capacity : Command R ℤ Quantity
  unfolding number_command decode_metrology
  read_capacity = number_command "read_capacity" 0x0c decode_metrology 0 read_only true

  unfoldable pub read_increment : Command R ℤ Quantity
  unfolding number_command decode_metrology
  read_increment = number_command "read_increment" 0x0d decode_metrology 0 read_only true

  -- Capability.TEMPERATURE_SENSORS
  unfoldable pub read_temperature : Command R ℤ TemperatureReading
  unfolding number_command decode_temperature
  read_temperature = number_command "read_temperature" 0x76 decode_temperature 64 read_only true

  -- Capability.INTERNAL_CAL
  unfoldable pub internal_adjust : Command R ℤ (Unit {0})
  unfolding number_command
  internal_adjust = number_command "internal_adjust" 0x28 (λ reply. ok tt) 256 dangerous false

  -- Capability.CAL_RECORD
  unfoldable pub last_cal_record : Command R (Unit {0}) CalRecord
  unfolding encode_bare decode_cal_record
  last_cal_record = record {
    name = "last_cal_record";
    xbpi_variant = some (record {
      opcode = 0xb9;
      encode = λ ctx request. encode_bare 0xb9 ctx;
      decode = λ reply ctx. decode_cal_record reply;
    });
    sbi_variant = none;
    family_hints = [];
    capability_hints = 128;
    safety = read_only;
    min_firmware = none;
    max_firmware = none;
    parameterized = false;
  }
