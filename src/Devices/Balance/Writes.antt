-- ===== src/Devices/Balance/Writes.antt =====
-- devices/balance.py: the calls that write to the device for good: its baud rate, its address, and its saved menu.
pub mod Address
use sartoriuslib.Prelude.{
  ℕ, ◌≡◌, Option, none, some, List, [], ◌∷◌, Bool, true, false, leb, ◌&&◌, if◌then◌else◌,
}
use sartoriuslib.Prelude.Int.{ℤ, pos, negsuc}
use sartoriuslib.Prelude.Bytes.{Bytes}
use sartoriuslib.Errors.{
  ErrorClass, sartorius_error, validation, confirmation_required, is_subclass,
}
use sartoriuslib.Errors.Result.{Result, ok, err}
use sartoriuslib.Errors.Exec.{Exec, pure, lift, gets, modify, guard, ◌>>=◌, ◌>>◌}
use sartoriuslib.Transport.{SerialTypes, Transport}
use sartoriuslib.Xbpi.Tlv.{int, encode_tlv}
use sartoriuslib.Sbi.Types.{SbiCodec}
use sartoriuslib.Devices.{ProtocolKind, xbpi, same_protocol, Command}
use sartoriuslib.Devices.Session.{Session, set_dst_sbn, invalidate_cache}
use sartoriuslib.Devices.Session.Gates.{Link}
use sartoriuslib.Devices.Session.Dispatch.{execute}
use sartoriuslib.Devices.Session.Raw.{execute_raw_xbpi}
use sartoriuslib.Devices.Balance.{Balance, Framing, set_session, configure_protocol}
use sartoriuslib.Commands.{save_menu, reload_menu}
use sartoriuslib.Commands.Identity.{read_sbn}

-- 0 <= n <= 0xFF
unfoldable pub is_u8 : ℤ → Bool
is_u8 (pos n) = leb n 255
is_u8 (negsuc n) = false

-- contextlib.suppress(SartoriusError)
unfoldable pub suppressed : {A : Type 0} → Result A → Result (Unit {0})
suppressed (ok a) = ok tt
suppressed (err c) = if is_subclass c sartorius_error then ok tt else err c

module _ {k : SerialTypes} {V T I R : Type 0} (transport : Transport k T) (codec : SbiCodec R) where
  -- A call of the session.
  abbrev pub on_link : {A : Type 0} → Exec (Link k V T) A → Exec (Balance k V T I) A
  on_link action b = let (r, link) = action b.link in (r, record b { link = link })

  suppressing : {A : Type 0} → Exec (Balance k V T I) A → Exec (Balance k V T I) (Unit {0})
  unfolding suppressed
  suppressing action b = let (r, after) = action b in (suppressed r, after)

  -- One byte under an opcode that changes the device.
  send_byte : ℤ → ℤ → Exec (Balance k V T I) (Unit {0})
  send_byte opcode byte = do
    args ← lift (encode_tlv 0x21 (int byte))
    reply ← on_link (execute_raw_xbpi transport codec opcode args true)
    pure tt

  -- `rounds` is for the sniff of `configure_protocol`, which an xBPI target does not use.
  unfoldable pub set_baud_rate :
      Exec (Balance k V T I) I → ℤ → ℕ → Framing k → Bool → Exec (Balance k V T I) I
  unfolding is_u8 suppressing send_byte
  set_baud_rate identify wire_code rounds framing confirm = do
    guard confirm confirmation_required
    active ← gets (λ b. b.link.session.active)
    guard (same_protocol active xbpi) sartorius_error
    guard (is_u8 wire_code) validation
    suppressing (send_byte (pos 0x5c) wire_code)
    configure_protocol transport codec identify xbpi rounds framing true

  -- The session follows the new address where that is asked for.
  follow : Bool → ℤ → Balance k V T I → Balance k V T I
  follow update sbn b = if update then set_session (set_dst_sbn sbn b.link.session) b else b

  unfoldable pub write_sbn_address : ℤ → Bool → Bool → Exec (Balance k V T I) ℕ
  unfolding is_u8 send_byte follow
  write_sbn_address sbn update confirm = do
    guard confirm confirmation_required
    guard (is_u8 sbn) validation
    active ← gets (λ b. b.link.session.active)
    guard (same_protocol active xbpi) sartorius_error
    send_byte (pos 0x72) sbn
    readback ← on_link (execute transport codec read_sbn tt false)
    modify (follow update sbn)
    pure readback

  -- A command on the saved menu, after which nothing that was cached is trusted.
  menu_call : Command R (Unit {0}) (Unit {0}) → Bool → Exec (Balance k V T I) (Unit {0})
  menu_call command confirm = do
    on_link (execute transport codec command tt confirm)
    modify (λ b. set_session (invalidate_cache none b.link.session) b)

  unfoldable pub save_menu_call : Bool → Exec (Balance k V T I) (Unit {0})
  unfolding menu_call
  save_menu_call confirm = menu_call save_menu confirm

  unfoldable pub reload_menu_call : Bool → Exec (Balance k V T I) (Unit {0})
  unfolding menu_call
  reload_menu_call confirm = menu_call reload_menu confirm
