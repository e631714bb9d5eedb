-- ===== src/Commands/Parameters.antt =====
-- commands/parameters.py: the table of parameters.
pub mod Exact
use sartoriuslib.Prelude.{
  ℕ, String, Option, none, some, List, [], ◌∷◌, ◌++◌, Bool, true, false, not, ◌&&◌, length, get_or,
  slice, ◌==◌, if◌then◌else◌,
}
use sartoriuslib.Prelude.Int.{ℤ, pos, negsuc}
use sartoriuslib.Prelude.Bytes.{Bytes, bytes_eq}
use sartoriuslib.Errors.{frame, parse}
use sartoriuslib.Errors.Result.{Result, ok, err, ◌>>=◌}
use sartoriuslib.Xbpi.Types.{XbpiFrame}
use sartoriuslib.Xbpi.Framing.{build_command}
use sartoriuslib.Xbpi.Tlv.{TlvValue, int, encode_tlv, parse_tlv_sequence}
use sartoriuslib.Sbi.Types.{SbiReply}
use sartoriuslib.Devices.{
  SafetyTier, read_only, stateful, persistent, dangerous, CommandContext, XbpiVariant, SbiVariant,
  Command,
}
use sartoriuslib.Devices.Models.{ParameterEntry}
use sartoriuslib.Commands.{ack_only}

abbrev pub tlv_u8_tag : ℕ
tlv_u8_tag = 0x21

-- Capability.PARAMETER_TABLE
abbrev parameter_table_flag : ℕ
parameter_table_flag = 16

pub record WriteParameterRequest : Type 0 where
  pub index : ℤ
  pub value : ℤ

-- The loop of `parse_tlv_sequence` returns on every body, so the first case is never taken.
abbrev pub returned : Option (Result (List (ℕ × Bytes))) → Result (List (ℕ × Bytes))
returned none = err frame
returned (some r) = r

-- The balance does not say which parameter it answers for; the caller fills the index in.
unfoldable pub entry_of : Bytes → List (ℕ × Bytes) → Result ParameterEntry
entry_of body ((current_tag, current) ∷ (max_tag, maximum) ∷ []) =
    if current_tag == tlv_u8_tag && max_tag == tlv_u8_tag
    then ok (record {
      index = negsuc 0;
      current = get_or current 0 0;
      maximum = get_or maximum 0 0;
      raw = body;
    })
    else err parse
entry_of body [] = err parse
entry_of body (record_1 ∷ []) = err parse
entry_of body (record_1 ∷ record_2 ∷ record_3 ∷ rest) = err parse

-- The subtype is the tag of the first record.
unfoldable pub decode_parameter : XbpiFrame → Result ParameterEntry
unfolding entry_of
decode_parameter reply = do
  tlvs ← returned (parse_tlv_sequence (reply.subtype ∷ reply.body))
  entry_of reply.body tlvs

unfoldable pub read_parameter_args : ℤ → Result Bytes
read_parameter_args index = encode_tlv tlv_u8_tag (int index)

unfoldable pub write_parameter_args : WriteParameterRequest → Result Bytes
write_parameter_args request = do
  index ← encode_tlv tlv_u8_tag (int request.index)
  value ← encode_tlv tlv_u8_tag (int request.value)
  ok (index ++ value)

module _ {R : Type 0} where
  unfoldable pub read_parameter : Command R ℤ ParameterEntry
  unfolding decode_parameter read_parameter_args
  read_parameter = record {
    name = "read_parameter";
    xbpi_variant = some (record {
      opcode = 0x55;
      encode = λ ctx index. read_parameter_args index >>= λ args.
          build_command (pos 0x55) args ctx.src_sbn ctx.dst_sbn;
      decode = λ reply ctx. decode_parameter reply;
    });
    sbi_variant = none;
    family_hints = [];
    capability_hints = parameter_table_flag;
    safety = read_only;
    min_firmware = none;
    max_firmware = none;
    parameterized = true;
  }

  unfoldable pub write_parameter : Command R WriteParameterRequest (Unit {0})
  unfolding write_parameter_args
  write_parameter = record {
    name = "write_parameter";
    xbpi_variant = some (record {
      opcode = 0x56;
      encode = λ ctx request. write_parameter_args request >>= λ args.
          build_command (pos 0x56) args ctx.src_sbn ctx.dst_sbn;
      decode = λ reply ctx. ok tt;
    });
    sbi_variant = none;
    family_hints = [];
    capability_hints = parameter_table_flag;
    safety = persistent;
    min_firmware = none;
    max_firmware = none;
    parameterized = true;
  }
