-- ===== src/Commands/Readings.antt =====
-- commands/weight.py and commands/status.py: reading the weight and the status. The times of a reading are left out.
use sartoriuslib.Prelude.{ℕ, String, Option, none, some, [], ◌∷◌, Bool, false, if◌then◌else◌}
use sartoriuslib.Prelude.Int.{ℤ, pos}
use sartoriuslib.Errors.Result.{Result, ok, ◌>>=◌}
use sartoriuslib.Xbpi.Types.{XbpiFrame}
use sartoriuslib.Sbi.Types.{SbiReply}
use sartoriuslib.Devices.{read_only, CommandContext, SbiVariant, Command}
use sartoriuslib.Xbpi.Parser.{decode_measurement_body, decode_status_block_body}
use sartoriuslib.Devices.Models.{
  Reading, BalanceState, BalanceStatus, stable, unstable, overload, underload,
}
use sartoriuslib.Devices.Session.Dispatch.{token_print, require_reading}
use sartoriuslib.Commands.{encode_bare, encode_number}

unfoldable pub measurement_reply_to_reading : XbpiFrame → CommandContext → Result Reading
measurement_reply_to_reading reply ctx = do
  body ← decode_measurement_body reply.body
  ok (record {
    value = body.value;
    unit = body.unit;
    sign = body.sign;
    stable = body.stable;
    overload = false;
    underload = false;
    decimals = some body.decimals;
    sequence = none;
    status_flags = ("stable", body.stable) ∷ ("off_scale", body.off_scale) ∷ [];
    protocol = ctx.protocol;
    raw = reply.raw;
  })

unfoldable pub state_from_status_block : Bool → Bool → Bool → BalanceState
state_from_status_block over under steady =
    if over then overload else if under then underload else if steady then stable else unstable

unfoldable pub decode_status_block : XbpiFrame → Result BalanceStatus
unfolding state_from_status_block
decode_status_block reply = do
  block ← decode_status_block_body reply.body
  ok (record {
    stable = some block.stable;
    state = state_from_status_block block.overload block.underload block.stable;
    isocal_due = block.isocal_due;
    adc_trusted = block.adc_trusted;
    sequence = some block.sequence;
    raw_state = some block.state;
    raw_status = some block.status;
    raw = reply.raw;
  })

unfoldable pub decode_sbi_status : SbiReply Reading → Result BalanceStatus
unfolding state_from_status_block
decode_sbi_status reply = do
  reading ← require_reading reply.lines
  ok (record {
    stable = some reading.stable;
    state = state_from_status_block reading.overload reading.underload reading.stable;
    isocal_due = none;
    adc_trusted = none;
    sequence = none;
    raw_state = none;
    raw_status = none;
    raw = reply.raw;
  })

print_weight : SbiVariant Reading (Unit {0}) Reading
print_weight = record {
  token = token_print;
  expect_lines = pos 1;
  encode = λ ctx request. ok token_print;
  decode = λ reply ctx. require_reading reply.lines;
}

-- The standard-resolution reads differ in their opcode and in whether SBI has one.
weight_read :
    String → ℕ → Option (SbiVariant Reading (Unit {0}) Reading) → Command Reading (Unit {0}) Reading
unfolding measurement_reply_to_reading encode_bare
weight_read name opcode over_sbi = record {
  name = name;
  xbpi_variant = some (record {
    opcode = opcode;
    encode = λ ctx request. encode_bare opcode ctx;
    decode = measurement_reply_to_reading;
  });
  sbi_variant = over_sbi;
  family_hints = [];
  capability_hints = 0;
  safety = read_only;
  min_firmware = none;
  max_firmware = none;
  parameterized = false;
}

unfoldable pub read_net : Command Reading (Unit {0}) Reading
unfolding weight_read print_weight
read_net = weight_read "read_net" 0x1e (some print_weight)

unfoldable pub read_gross : Command Reading (Unit {0}) Reading
unfolding weight_read
read_gross = weight_read "read_gross" 0x20 none

unfoldable pub read_tare_value : Command Reading (Unit {0}) Reading
unfolding weight_read
read_tare_value = weight_read "read_tare_value" 0x22 none

-- The request is the resolution; Capability.HIRES_WEIGHT is the hint.
hires_read : String → ℕ → Command Reading ℤ Reading
unfolding measurement_reply_to_reading encode_number
hires_read name opcode = record {
  name = name;
  xbpi_variant = some (record {
    opcode = opcode;
    encode = λ ctx resolution. encode_number opcode resolution ctx;
    decode = measurement_reply_to_reading;
  });
  sbi_variant = none;
  family_hints = [];
  capability_hints = 8;
  safety = read_only;
  min_firmware = none;
  max_firmware = none;
  parameterized = false;
}

unfoldable pub read_net_hires : Command Reading ℤ Reading
unfolding hires_read
read_net_hires = hires_read "read_net_hires" 0x1f

unfoldable pub read_gross_hires : Command Reading ℤ Reading
unfolding hires_read
read_gross_hires = hires_read "read_gross_hires" 0x21

unfoldable pub status_block : Command Reading (Unit {0}) BalanceStatus
unfolding decode_status_block decode_sbi_status encode_bare
status_block = record {
  name = "status_block";
  xbpi_variant = some (record {
    opcode = 0x30;
    encode = λ ctx request. encode_bare 0x30 ctx;
    decode = λ reply ctx. decode_status_block reply;
  });
  sbi_variant = some (record {
    token = token_print;
    expect_lines = pos 1;
    encode = λ ctx request. ok token_print;
    decode = λ reply ctx. decode_sbi_status reply;
  });
  family_hints = [];
  capability_hints = 0;
  safety = read_only;
  min_firmware = none;
  max_firmware = none;
  parameterized = false;
}
