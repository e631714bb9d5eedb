-- ===== src/Prelude/Float32.antt =====
-- What `struct.unpack(">f", …)` reads: an IEEE 754 single, by its three fields.
use Prim.Native.Nat.{ℕ, ◌/◌, ◌%◌}
use mathlib.Core.Bool.{Bool}
use sartoriuslib.Prelude.Tests.{◌==◌}
use sartoriuslib.Prelude.Bytes.{Bytes, from_bytes}

pub record Float32 : Type 0 where
  pub negative : Bool
  pub exponent : ℕ
  pub fraction : ℕ

-- The fields of the big-endian word: one sign bit, eight exponent bits, 23 fraction bits.
unfoldable pub unpack_float32 : Bytes → Float32
unpack_float32 raw =
    let word = from_bytes raw in
    record {
      negative = word / 2147483648 == 1;
      exponent = word / 8388608 % 256;
      fraction = word % 8388608;
    }
