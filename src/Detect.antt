-- ===== src/Detect.antt =====
-- protocol/detect.py: which protocol the device behind an open transport speaks. The clock of the passive sniff is modelled
-- by `rounds`, the number of reads that start before the deadline.
pub mod Probes
use sartoriuslib.Prelude.{
  ℕ, zero, suc, List, [], ◌∷◌, ◌++◌, Option, none, some, Bool, true, false, ◌||◌, get_or,
  if◌then◌else◌,
}
use sartoriuslib.Prelude.Int.{ℤ, pos}
use sartoriuslib.Prelude.Bytes.{Bytes}
use sartoriuslib.Errors.{ErrorClass, is_subclass, sartorius_error, timeout, protocol}
use sartoriuslib.Errors.Result.{Result, ok, err}
use sartoriuslib.Errors.Exec.{Exec, pure, raise, lift, ◌>>=◌, ◌>>◌}
use sartoriuslib.Transport.{SerialTypes, Transport}
use sartoriuslib.Xbpi.Types.{XbpiFrame}
use sartoriuslib.Xbpi.Framing.{build_command, parse_frame}
use sartoriuslib.Sbi.Types.{SbiCodec}
use sartoriuslib.Sbi.Lines.{line_terminator}
use sartoriuslib.Devices.{ProtocolKind, xbpi, sbi}
use sartoriuslib.Devices.Session.Dispatch.{token_print, escape}

pub record DetectionResult : Type 0 where
  pub protocol : ProtocolKind
  pub autoprint_active : Bool
  pub pending_lines : List Bytes

-- READ_MODEL
abbrev pub xbpi_probe_opcode : ℤ
xbpi_probe_opcode = pos 0x02

-- ESC x1_
abbrev pub token_type : Bytes
token_type = escape ∷ 120 ∷ 49 ∷ 95 ∷ []

-- What `except (SartoriusTimeoutError, SartoriusProtocolError)` catches.
unfoldable pub is_silence : ErrorClass → Bool
is_silence c = is_subclass c timeout || is_subclass c protocol

module _ {k : SerialTypes} {T R : Type 0} (transport : Transport k T) (codec : SbiCodec R) where
  suppress : Result (Unit {0}) → Exec T (Unit {0})
  suppress (ok u) t = (ok tt, t)
  suppress (err c) t = (if is_subclass c sartorius_error then ok tt else err c, t)

  -- A drain whose library errors are suppressed.
  drain : Exec T (Unit {0})
  unfolding suppress
  drain t = let (r, after) = transport.drain_input t in suppress r after

  -- The line that was found, if any.
  unfoldable pub sniff_for_autoprint : ℕ → Exec T (Option Bytes)
  sniff_for_autoprint zero t = (ok none, t)
  sniff_for_autoprint (suc rounds) t =
      let (r, after) = transport.read_until line_terminator t in
      elim r [
        | err c ↦ (if is_subclass c timeout then ok none else err c, after)
        | ok raw ↦ elim (codec.is_autoprint_line raw) [
          | true ↦ (ok (some raw), after)
          | false ↦ sniff_for_autoprint rounds after
        ]
      ]

  -- Whether an attempt succeeded; silence and bad framing answer no.
  answered : {A : Type 0} → Result A → Exec T Bool
  answered (ok a) t = (ok true, t)
  answered (err c) t = (if is_silence c then ok false else err c, t)

  -- The body of the `try` in `_probe_xbpi`.
  attempt_xbpi : Bytes → Exec T XbpiFrame
  attempt_xbpi request = do
    transport.write request
    length_byte ← transport.read_exact 1
    body ← transport.read_exact (get_or length_byte 0 0)
    lift (parse_frame (length_byte ++ body))

  try_xbpi : Bytes → Exec T Bool
  unfolding attempt_xbpi answered
  try_xbpi request t = let (r, after) = attempt_xbpi request t in answered r after

  unfoldable pub probe_xbpi : ℤ → ℤ → Exec T Bool
  unfolding try_xbpi
  probe_xbpi src_sbn dst_sbn = do
    request ← lift (build_command xbpi_probe_opcode [] src_sbn dst_sbn)
    try_xbpi request

  attempt_sbi : Bytes → Exec T Bytes
  attempt_sbi token = do transport.write token; transport.read_until line_terminator

  try_sbi : Bytes → Exec T Bool
  unfolding attempt_sbi answered
  try_sbi token t = let (r, after) = attempt_sbi token t in answered r after

  -- The loop of `_probe_sbi`; the input is drained behind each token that is not answered.
  probe_tokens : List Bytes → Exec T Bool
  unfolding try_sbi drain
  probe_tokens [] = pure false
  probe_tokens (token ∷ tokens) = do
    replied ← try_sbi token
    if replied then pure true else (drain >> probe_tokens tokens)

  unfoldable pub probe_sbi : Exec T Bool
  unfolding probe_tokens
  probe_sbi = probe_tokens (token_type ∷ token_print ∷ [])

  -- The probes, after a sniff that found nothing.
  probe : ℤ → ℤ → Exec T DetectionResult
  unfolding drain
  probe src_sbn dst_sbn = do
    drain
    is_xbpi ← probe_xbpi src_sbn dst_sbn
    if is_xbpi
        then pure (record { protocol = xbpi; autoprint_active = false; pending_lines = [] })
        else (do
          drain
          is_sbi ← probe_sbi
          if is_sbi
              then pure (record { protocol = sbi; autoprint_active = false; pending_lines = [] })
              else raise sartorius_error)

  decide : ℤ → ℤ → Option Bytes → Exec T DetectionResult
  unfolding probe
  decide src_sbn dst_sbn (some raw) =
      pure (record { protocol = sbi; autoprint_active = true; pending_lines = raw ∷ [] })
  decide src_sbn dst_sbn none = probe src_sbn dst_sbn

  unfoldable pub detect_protocol : ℕ → ℤ → ℤ → Exec T DetectionResult
  unfolding decide
  detect_protocol rounds src_sbn dst_sbn = do
    sniffed ← sniff_for_autoprint rounds
    decide src_sbn dst_sbn sniffed
