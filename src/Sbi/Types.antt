-- ===== src/Sbi/Types.antt =====
-- protocol/sbi/types.py: classified lines and replies. `R` is the type of readings.
use sartoriuslib.Prelude.{Option, List, Bool}
use sartoriuslib.Prelude.Bytes.{Bytes}
use sartoriuslib.Errors.Result.{Result}

pub data SbiLineKind : Type 0 where
  empty identity refusal weight unknown : SbiLineKind

pub record SbiLine (R : Type 0) : Type 0 where
  pub raw : Bytes
  pub text : Bytes
  pub kind : SbiLineKind
  pub reading : Option R

pub record SbiReply (R : Type 0) : Type 0 where
  pub lines : List (SbiLine R)
  pub raw : Bytes

-- What the client takes from the line parser: `parse_line`, and the test for an autoprint line.
pub record SbiCodec (R : Type 0) : Type 0 where
  pub parse_line : Bytes → Result (SbiLine R)
  pub is_autoprint_line : Bytes → Bool
