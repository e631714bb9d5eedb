-- ===== src/Sbi/Client/Detected.antt =====
-- What the detection of autoprint moves, and what it answers.
use sartoriuslib.Prelude.{◌≡◌, Bool, false}
use sartoriuslib.Errors.{timeout, is_subclass}
use sartoriuslib.Errors.Result.{Result, ok, err}
use sartoriuslib.Errors.Exec.{continue, gets}
use sartoriuslib.Transport.{SerialTypes}
use sartoriuslib.Transport.Fake.{FakeTransport, read_until}
use sartoriuslib.Sbi.Types.{SbiCodec}
use sartoriuslib.Sbi.Lines.{line_terminator}
use sartoriuslib.Sbi.Client.{SbiClient, Port}

module _ {k : SerialTypes} {R : Type 0} (codec : SbiCodec R) where
  -- What a call returns is a value that holds of the port left, or an error, no timeout, with which the next read of the
  -- port left would raise again.
  abbrev pub Answered :
      {A : Type 0} → (A → SbiClient → Type 0) → Result A × Port (FakeTransport k) → Type 0
  Answered P (ok a, q) = P a q.client
  Answered P (err c, q) =
      (is_subclass c timeout ≡ false) × ((read_until line_terminator q.wire).0 ≡ err c)

  -- The flag of the client, read after an action.
  abbrev then_flag :
      Result (Unit {0}) × Port (FakeTransport k) → Result Bool × Port (FakeTransport k)
  then_flag o = continue o.0 (λ u. gets (λ q. q.client.autoprint_active)) o.1
