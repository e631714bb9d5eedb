-- ===== src/Devices/Balance/Rollback.antt =====
-- devices/balance.py: a change of protocol that fails.
use sartoriuslib.Prelude.{◌≡◌, ◌⊎◌, Option, none, some}
use sartoriuslib.Errors.Result.{Result, ok, err}
use sartoriuslib.Transport.{SerialTypes, SerialSettings, Transport}
use sartoriuslib.Sbi.Types.{SbiCodec}
use sartoriuslib.Devices.{ProtocolKind}
use sartoriuslib.Devices.Session.{mark_broken}
use sartoriuslib.Devices.Balance.{Balance, Framing}
use sartoriuslib.Devices.Balance.Switching.{Switched}

module _ {k : SerialTypes} {T : Type 0} (transport : Transport k T) where
  -- The transport has been reopened at the old framing, and returned.
  unfoldable pub Reopened : Option (SerialSettings k) → T → Type 0
  Reopened none wire = ⊥
  Reopened (some old) wire =
      (w : T) × (transport.reopen (some old.baudrate) (some old.parity) (some old.stopbits) w
        ≡ (ok tt, wire))

module _ {k : SerialTypes} {V T I R : Type 0} (transport : Transport k T) (codec : SbiCodec R) where
  -- After a switch that failed, the session is all as it was and the transport is back at its old framing, or it is
  -- broken, and nothing else of it has changed.
  unfoldable pub Recovered : Balance k V T I → Balance k V T I → Type 0
  Recovered before after =
      (after.retired_xbpi ≡ before.retired_xbpi)
      × (after.retired_sbi ≡ before.retired_sbi)
      × (((after.link.session ≡ before.link.session)
            × Reopened transport before.link.session.serial_settings after.link.wire)
          ⊎ (after.link.session ≡ mark_broken before.link.session))

  unfoldable pub GuardedOutcome :
      ProtocolKind → Framing k → Balance k V T I → Result (Unit {0}) × Balance k V T I → Type 0
  GuardedOutcome target framing before (ok u, after) = Switched target framing before after
  GuardedOutcome target framing before (err c, after) = Recovered before after
