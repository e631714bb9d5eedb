-- ===== src/Commands.antt =====
-- commands/: what the encoders of the commands share, and the commands that a device only acknowledges, of tare.py and
-- system.py.
pub mod Identity
pub mod Parameters
pub mod Readings
pub mod Records
use sartoriuslib.Prelude.{
  ℕ, String, Option, none, some, List, [], ◌∷◌, ◌++◌, Bool, true, false, not, ◌&&◌, length, get_or,
  slice, ◌==◌, if◌then◌else◌,
}
use sartoriuslib.Prelude.Int.{ℤ, pos, negsuc}
use sartoriuslib.Prelude.Bytes.{Bytes, bytes_eq}
use sartoriuslib.Errors.{frame, parse}
use sartoriuslib.Errors.Result.{Result, ok, err, ◌>>=◌}
use sartoriuslib.Xbpi.Types.{XbpiFrame}
use sartoriuslib.Xbpi.Framing.{build_command}
use sartoriuslib.Xbpi.Tlv.{TlvValue, int, encode_tlv, parse_tlv_sequence}
use sartoriuslib.Sbi.Types.{SbiReply}
use sartoriuslib.Devices.{
  SafetyTier, read_only, stateful, persistent, dangerous, CommandContext, XbpiVariant, SbiVariant,
  Command,
}
use sartoriuslib.Devices.Session.Dispatch.{escape}

-- The encoders of commands without arguments, and of those with one number in one byte.
unfoldable pub encode_bare : ℕ → CommandContext → Result Bytes
encode_bare opcode ctx = build_command (pos opcode) [] ctx.src_sbn ctx.dst_sbn

unfoldable pub encode_number : ℕ → ℤ → CommandContext → Result Bytes
encode_number opcode number ctx = do
  args ← encode_tlv 0x21 (int number)
  build_command (pos opcode) args ctx.src_sbn ctx.dst_sbn

abbrev pub token_tare : Bytes
token_tare = escape ∷ 84 ∷ []

abbrev pub token_zero : Bytes
token_zero = escape ∷ 86 ∷ []

-- An opcode whose reply is a bare acknowledgement.
unfoldable pub ack_only : ℕ → XbpiVariant (Unit {0}) (Unit {0})
unfolding encode_bare
ack_only opcode = record {
  opcode = opcode;
  encode = λ ctx request. encode_bare opcode ctx;
  decode = λ reply ctx. ok tt;
}

module _ {R : Type 0} where
  -- A key that is pressed for the user; no line answers.
  unfoldable pub no_reply : Bytes → SbiVariant R (Unit {0}) (Unit {0})
  no_reply token = record {
    token = token;
    expect_lines = pos 0;
    encode = λ ctx request. ok token;
    decode = λ reply ctx. ok tt;
  }

  key_command : String → ℕ → Bytes → Command R (Unit {0}) (Unit {0})
  unfolding ack_only no_reply
  key_command name opcode token = record {
    name = name;
    xbpi_variant = some (ack_only opcode);
    sbi_variant = some (no_reply token);
    family_hints = [];
    capability_hints = 0;
    safety = stateful;
    min_firmware = none;
    max_firmware = none;
    parameterized = false;
  }

  unfoldable pub tare : Command R (Unit {0}) (Unit {0})
  unfolding key_command
  tare = key_command "tare" 0x14 token_tare

  unfoldable pub zero_display : Command R (Unit {0}) (Unit {0})
  unfolding key_command
  zero_display = key_command "zero" 0x18 token_zero

  menu_command : String → ℕ → Command R (Unit {0}) (Unit {0})
  unfolding ack_only
  menu_command name opcode = record {
    name = name;
    xbpi_variant = some (ack_only opcode);
    sbi_variant = none;
    family_hints = [];
    capability_hints = 0;
    safety = persistent;
    min_firmware = none;
    max_firmware = none;
    parameterized = false;
  }

  unfoldable pub save_menu : Command R (Unit {0}) (Unit {0})
  unfolding menu_command
  save_menu = menu_command "save_menu" 0x47

  unfoldable pub reload_menu : Command R (Unit {0}) (Unit {0})
  unfolding menu_command
  reload_menu = menu_command "reload_menu" 0x46
