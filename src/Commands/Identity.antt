-- ===== src/Commands/Identity.antt =====
-- commands/identity.py: the address of a balance.
use sartoriuslib.Prelude.{ℕ, none, some, [], ◌∷◌, false}
use sartoriuslib.Prelude.Bytes.{Bytes}
use sartoriuslib.Errors.Result.{ok}
use sartoriuslib.Devices.{read_only, Command}
use sartoriuslib.Commands.{encode_bare}

unfoldable pub decode_sbn : Bytes → ℕ
decode_sbn [] = 0
decode_sbn (b ∷ rest) = b

unfoldable pub read_sbn : {R : Type 0} → Command R (Unit {0}) ℕ
unfolding encode_bare decode_sbn
read_sbn = record {
  name = "read_sbn";
  xbpi_variant = some (record {
    opcode = 0x71;
    encode = λ ctx request. encode_bare 0x71 ctx;
    decode = λ reply ctx. ok (decode_sbn reply.body);
  });
  sbi_variant = none;
  family_hints = [];
  capability_hints = 0;
  safety = read_only;
  min_firmware = none;
  max_firmware = none;
  parameterized = false;
}
