-- ===== src/Devices/Session/Raw.antt =====
-- devices/session.py: the raw calls, and the reading of autoprint lines.
pub mod Broken
use sartoriuslib.Prelude.{
  ℕ, zero, suc, Option, none, some, Bool, true, false, not, ◌&&◌, ◌||◌, if◌then◌else◌,
}
use sartoriuslib.Prelude.Int.{ℤ}
use sartoriuslib.Prelude.Bytes.{Bytes, bytes_eq}
use sartoriuslib.Errors.{
  ErrorClass, is_subclass, sartorius_error, confirmation_required, protocol_unsupported, parse,
}
use sartoriuslib.Errors.Result.{Result, ok, err}
use sartoriuslib.Errors.Exec.{Exec, pure, raise, lift, gets, guard, ◌>>=◌, ◌>>◌}
use sartoriuslib.Transport.{SerialTypes, Transport}
use sartoriuslib.Xbpi.Types.{XbpiFrame}
use sartoriuslib.Xbpi.Framing.{build_command}
use sartoriuslib.Sbi.Types.{SbiReply, SbiCodec}
use sartoriuslib.Sbi.Client.{SbiClient, mark_autoprint_active, read_line, refresh_autoprint_state}
use sartoriuslib.Devices.{ProtocolKind, auto, xbpi, sbi}
use sartoriuslib.Devices.Session.{Session, check_state}
use sartoriuslib.Devices.Session.Gates.{Link}
use sartoriuslib.Devices.Session.Dispatch.{
  some_or, on_xbpi, on_sbi, exchange_sbi, is_safe_opcode, normalize_token, sbi_read_only_tokens,
  in_list, require_reading,
}

-- The session is in xBPI mode, or it is in SBI mode.
abbrev pub in_xbpi : ProtocolKind → Result (Unit {0})
in_xbpi xbpi = ok tt
in_xbpi sbi = err protocol_unsupported
in_xbpi auto = err protocol_unsupported

abbrev in_sbi : ProtocolKind → Result (Unit {0})
in_sbi sbi = ok tt
in_sbi xbpi = err protocol_unsupported
in_sbi auto = err protocol_unsupported

module _ {k : SerialTypes} {V T R : Type 0} (transport : Transport k T) (codec : SbiCodec R) where
  unfoldable pub execute_raw_xbpi : ℤ → Bytes → Bool → Exec (Link k V T) XbpiFrame
  unfolding check_state on_xbpi
  execute_raw_xbpi opcode args confirm = do
    session ← gets (λ l. l.session)
    lift (check_state session)
    lift (in_xbpi session.active)
    client ← lift (some_or sartorius_error session.xbpi_client)
    guard (is_safe_opcode opcode || confirm) confirmation_required
    request ← lift (build_command opcode args session.src_sbn session.dst_sbn)
    on_xbpi transport codec client request

  unfoldable pub execute_raw_sbi : Bytes → Bool → ℤ → Exec (Link k V T) (SbiReply R)
  unfolding check_state
  execute_raw_sbi command confirm expect_lines = do
    session ← gets (λ l. l.session)
    lift (check_state session)
    lift (in_sbi session.active)
    client ← lift (some_or sartorius_error session.sbi_client)
    token ← lift (normalize_token command)
    guard (in_list bytes_eq token sbi_read_only_tokens || confirm) confirmation_required
    exchange_sbi transport codec client token token expect_lines

  -- The client of a session that is in SBI mode.
  sbi_only : Exec (Link k V T) SbiClient
  sbi_only = do
    session ← gets (λ l. l.session)
    lift (in_sbi session.active)
    lift (some_or sartorius_error session.sbi_client)

  unfoldable pub read_sbi_line : Exec (Link k V T) (SbiReply R)
  unfolding sbi_only on_sbi
  read_sbi_line = do client ← sbi_only; on_sbi transport codec client (read_line transport codec)

  unfoldable pub refresh_sbi_autoprint_state : ℕ → ℕ → Exec (Link k V T) Bool
  unfolding sbi_only on_sbi
  refresh_sbi_autoprint_state rounds max_lines = do
    client ← sbi_only
    on_sbi transport codec client (refresh_autoprint_state transport codec rounds max_lines)

  -- The reading is returned, and the client knows from it that autoprint is on.
  accept_reading : R → Exec (Link k V T) R
  accept_reading reading link = elim link.session.sbi_client [
    | none ↦ (ok reading, link)
    | some client ↦ (
      ok reading,
      record link {
        session = record link.session { sbi_client = some (mark_autoprint_active none client) };
      },
    )
  ]

  -- A line without a reading is passed over while there is time.
  or_retry : Result R → Exec (Link k V T) R → Exec (Link k V T) R
  unfolding accept_reading
  or_retry (ok reading) retry = accept_reading reading
  or_retry (err c) retry = if is_subclass c parse then retry else raise c

  unfoldable pub read_sbi_autoprint_reading : ℕ → Exec (Link k V T) R
  unfolding read_sbi_line or_retry
  read_sbi_autoprint_reading zero = do
    reply ← read_sbi_line
    or_retry (require_reading reply.lines) (raise parse)
  read_sbi_autoprint_reading (suc rounds) = do
    reply ← read_sbi_line
    or_retry (require_reading reply.lines) (read_sbi_autoprint_reading rounds)
