-- ===== src/Transport.antt =====
-- transport/base.py: the serial settings and the `Transport` protocol. Time is not modelled: a transport decides
-- whether a call times out, and the `timeout` arguments are left out.
pub mod Fake
use sartoriuslib.Prelude.{ℕ, ◌≡◌, String, Option, Bool, length}
use sartoriuslib.Prelude.Bytes.{Bytes}
use sartoriuslib.Errors.Result.{Result, ok}
use sartoriuslib.Errors.Exec.{Exec}

-- The enumerations of the package `anyserial`, which the code only passes on.
pub record SerialTypes : Type 1 where
  pub ByteSize : Type 0
  pub Parity : Type 0
  pub StopBits : Type 0

pub record SerialSettings (k : SerialTypes) : Type 0 where
  pub port : String
  pub baudrate : ℕ
  pub bytesize : k.ByteSize
  pub parity : k.Parity
  pub stopbits : k.StopBits
  pub rtscts : Bool
  pub xonxoff : Bool
  pub exclusive : Bool

-- The operations on a transport whose state is a `T`, with what the clients rely on: `read_exact` returns the number of
-- bytes that was asked for.
pub record Transport (k : SerialTypes) (T : Type 0) : Type 0 where
  pub write : Bytes → Exec T (Unit {0})
  pub read_exact : ℕ → Exec T Bytes
  pub read_until : Bytes → Exec T Bytes
  pub drain_input : Exec T (Unit {0})
  pub reopen : Option ℕ → Option k.Parity → Option k.StopBits → Exec T (Unit {0})
  pub read_exact_length :
      (n : ℕ) (t : T) (out : Bytes) → (read_exact n t).0 ≡ ok out → length out ≡ n
