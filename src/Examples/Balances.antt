-- ===== src/Examples/Balances.antt =====
-- A balance that is asked to change its protocol.
use sartoriuslib.Prelude.{ℕ, String, ◌≡◌, refl, none, some, [], ◌∷◌, false, true}
use sartoriuslib.Prelude.Int.{ℤ, pos}
use sartoriuslib.Sbi.Client.{execute}
use sartoriuslib.Transport.{SerialSettings}
use sartoriuslib.Transport.Fake.{FakeTransport, write, read_exact}
use sartoriuslib.Transport.Fake.Buffer.{fake_transport}
use sartoriuslib.Xbpi.Client.{new_client, execute as xbpi_execute}
use sartoriuslib.Devices.{xbpi, BalanceFamily}
use sartoriuslib.Devices.Session.{operational}
use sartoriuslib.Devices.Balance.{Balance, Framing}
use sartoriuslib.Errors.Result.{ok}
use sartoriuslib.Xbpi.Tlv.{encode_tlv, tag_size}
use sartoriuslib.Xbpi.Framing.{build_command}
use sartoriuslib.Devices.Session.Raw.{execute_raw_xbpi}
use sartoriuslib.Devices.Session.Dispatch.{is_safe_opcode}
use sartoriuslib.Xbpi.Types.{XbpiFrame}
use sartoriuslib.Devices.Balance.Writes.{write_sbn_address}
use sartoriuslib.Devices.Balance.Writes.Address.{Addressed, write_sbn_address-Addressed}
use sartoriuslib.Commands.Parameters.{decode_parameter, write_parameter}
use sartoriuslib.Devices.Models.{ParameterEntry}
use sartoriuslib.Devices.Session.Dispatch.{execute as execute_command}
use sartoriuslib.Devices.Balance.Parameters.{write_parameter_call}
use sartoriuslib.Devices.Balance.Parameters.Written.{Written, write_parameter_call-Written}
use sartoriuslib.Commands.Parameters.Exact.{entry, decode_parameter_iff}
use sartoriuslib.Registry.Modes.{filter_mode, has_value}
use sartoriuslib.Registry.Parameters.{ParameterSpec, mode, encode, decode}
use sartoriuslib.Registry.Parameters.Faithful.{Faithful, encode-Faithful}
use sartoriuslib.Examples.Wire.{kinds, idle}
use sartoriuslib.Examples.Lines.{plus_codec}

abbrev framing_9600 : SerialSettings kinds
framing_9600 = record {
  port = "/dev/ttyUSB0";
  baudrate = 9600;
  bytesize = tt;
  parity = tt;
  stopbits = tt;
  rtscts = false;
  xonxoff = false;
  exclusive = false;
}

-- A balance on a transport that never answers.
abbrev mute : Balance kinds ℕ (FakeTransport kinds) ℕ
mute = record {
  link = record {
    session = record {
      xbpi_client = some new_client;
      sbi_client = none;
      active = xbpi;
      family = BalanceFamily.unknown;
      capabilities = 0;
      firmware = none;
      src_sbn = pos 0x01;
      dst_sbn = pos 0x09;
      strict = false;
      availability = [];
      warned_priors = [];
      result_cache = [];
      state = operational;
      recoverable_error_count = 0;
      serial_settings = some framing_9600;
    };
    wire = idle [];
    warnings = [];
  };
  info = none;
  retired_xbpi = [];
  retired_sbi = [];
}

abbrev faster : Framing kinds
faster = record { baudrate = some 19200; parity = none; stopbits = none }

-- The transport does not answer, and the session keeps its address.
write_sbn_address-Addressed_example :
    (write_sbn_address
      (fake_transport kinds)
      plus_codec
      (pos 5)
      true
      true
      mute).1.link.session.dst_sbn
    ≡ pos 0x09
unfolding write_sbn_address Addressed encode_tlv tag_size execute_raw_xbpi is_safe_opcode
    build_command xbpi_execute write read_exact
write_sbn_address-Addressed_example =
    write_sbn_address-Addressed (fake_transport kinds) plus_codec (pos 5) true true mute

-- A parameter that is at 3 of at most 9.
abbrev three_of_nine : XbpiFrame
three_of_nine = record {
  length = 6;
  marker = 0x41;
  subtype = 0x21;
  body = 3 ∷ 0x21 ∷ 9 ∷ [];
  checksum = 0x94;
  raw = [];
}

decode_parameter_iff_example : decode_parameter three_of_nine ≡ ok (entry 3 9 (3 ∷ 0x21 ∷ 9 ∷ []))
decode_parameter_iff_example =
    (decode_parameter_iff three_of_nine (entry 3 9 (3 ∷ 0x21 ∷ 9 ∷ []))).1 (3, 9, refl, refl, refl)

abbrev filter_spec : ParameterSpec
filter_spec = record {
  index = 1;
  name = "filter_mode";
  enum = some filter_mode;
  writable = true;
  bumps_config_counter = true;
  families = [];
  unit_enum = false;
}

encode-Faithful_example : Faithful false (mode 3) 3 (decode filter_spec 3)
unfolding encode has_value
encode-Faithful_example = encode-Faithful filter_spec (mode 3) 3 refl

-- The same balance with a cache of parameters, in which the entry of the display unit stands.
abbrev cached_unit : Balance kinds ParameterEntry (FakeTransport kinds) ℕ
cached_unit = record {
  link = record {
    session = record {
      xbpi_client = some new_client;
      sbi_client = none;
      active = xbpi;
      family = BalanceFamily.unknown;
      capabilities = 0;
      firmware = none;
      src_sbn = pos 0x01;
      dst_sbn = pos 0x09;
      strict = false;
      availability = [];
      warned_priors = [];
      result_cache =
          ("parameter:7", (4, record { index = pos 7; current = 2; maximum = 24; raw = [] })) ∷ [];
      state = operational;
      recoverable_error_count = 0;
      serial_settings = some framing_9600;
    };
    wire = idle [];
    warnings = [];
  };
  info = none;
  retired_xbpi = [];
  retired_sbi = [];
}

abbrev one_digit : ℤ → String
one_digit index = "7"

write_parameter_call-Written_example :
    Written
      (fake_transport kinds)
      plus_codec
      one_digit
      (pos 7)
      (pos 3)
      true
      cached_unit
      (execute_command
        (fake_transport kinds)
        plus_codec
        write_parameter
        (record { index = pos 7; value = pos 3 })
        true
        cached_unit.link).0
      (write_parameter_call
        (fake_transport kinds)
        plus_codec
        one_digit
        (pos 7)
        (pos 3)
        true
        cached_unit)
write_parameter_call-Written_example =
    write_parameter_call-Written (fake_transport kinds) plus_codec one_digit (pos 7) (pos 3) true
      cached_unit
