-- ===== src/Devices/Balance/Writes/Address.antt =====
-- devices/balance.py: the address that a session uses after a write.
use sartoriuslib.Prelude.{ℕ, ◌≡◌, refl, ap, ◌∙◌, Bool, true, false, if◌then◌else◌, ◌||◌}
use sartoriuslib.Prelude.Int.{ℤ, pos}
use sartoriuslib.Prelude.Bytes.{Bytes}
use sartoriuslib.Errors.{sartorius_error, validation, confirmation_required}
use sartoriuslib.Errors.Result.{Result, ok, err}
use sartoriuslib.Errors.Exec.{guard}
use sartoriuslib.Errors.Keeps.{keeps_continue, keeps_guard, holds_continue, holds_guard}
use sartoriuslib.Transport.{SerialTypes, Transport}
use sartoriuslib.Xbpi.Framing.{build_command}
use sartoriuslib.Xbpi.Tlv.{int, encode_tlv}
use sartoriuslib.Sbi.Types.{SbiCodec}
use sartoriuslib.Devices.{xbpi, same_protocol}
use sartoriuslib.Devices.Session.{check_state, set_dst_sbn}
use sartoriuslib.Devices.Session.Gates.{Link}
use sartoriuslib.Devices.Session.Dispatch.{execute, on_xbpi, some_or, is_safe_opcode}
use sartoriuslib.Devices.Session.Dispatch.Seen.{execute_setup}
use sartoriuslib.Devices.Session.Raw.{execute_raw_xbpi, in_xbpi}
use sartoriuslib.Devices.Balance.{Balance}
use sartoriuslib.Devices.Balance.Writes.{is_u8, send_byte, follow, write_sbn_address}
use sartoriuslib.Commands.Identity.{read_sbn}

module _ {k : SerialTypes} {V T R : Type 0} (transport : Transport k T) (codec : SbiCodec R) where
  -- A raw call leaves the session as it is.
  raw_session :
      (opcode : ℤ) (args : Bytes) (confirm : Bool) (link : Link k V T)
      → (execute_raw_xbpi transport codec opcode args confirm link).1.session ≡ link.session
  unfolding execute_raw_xbpi on_xbpi
  raw_session opcode args confirm link =
      let Same : Link k V T → Type 0 = λ l. l.session ≡ link.session in
      keeps_continue Same (check_state link.session) _ link refl λ u.
        keeps_continue Same (in_xbpi link.session.active) _ link refl λ v.
          keeps_continue Same (some_or sartorius_error link.session.xbpi_client) _ link refl
            λ client.
              let safe = is_safe_opcode opcode || confirm in
              let asked = guard safe confirmation_required link in
              let same = keeps_guard Same safe confirmation_required link refl in
              keeps_continue Same asked.0 _ asked.1 same λ w.
                keeps_continue Same
                  (build_command opcode args link.session.src_sbn link.session.dst_sbn) _ asked.1
                  same λ request. same

module _ {k : SerialTypes} {V T I R : Type 0} (transport : Transport k T) (codec : SbiCodec R) where
  send_byte-session :
      (opcode byte : ℤ) (b : Balance k V T I)
      → (send_byte transport codec opcode byte b).1.link.session ≡ b.link.session
  unfolding send_byte
  send_byte-session opcode byte b =
      let Same : Balance k V T I → Type 0 = λ x. x.link.session ≡ b.link.session in
      keeps_continue Same (encode_tlv 0x21 (int byte)) _ b refl λ args.
        let sent = execute_raw_xbpi transport codec opcode args true b.link in
        keeps_continue Same sent.0 _ (record b { link = sent.1 })
          (raw_session transport codec opcode args true b.link)
          λ reply. raw_session transport codec opcode args true b.link

  -- The address that the session uses after the call: where it returns and is asked to follow, the one written; and
  -- otherwise the one before.
  unfoldable pub Addressed : ℤ → Bool → Balance k V T I → Result ℕ × Balance k V T I → Type 0
  Addressed sbn update before (err c, after) =
      after.link.session.dst_sbn ≡ before.link.session.dst_sbn
  Addressed sbn update before (ok read, after) =
      after.link.session.dst_sbn ≡ (if update then sbn else before.link.session.dst_sbn)

  followed :
      (update : Bool) (sbn : ℤ) (b : Balance k V T I) (old : ℤ)
      → b.link.session.dst_sbn ≡ old
      → (follow transport codec update sbn b).link.session.dst_sbn ≡ (if update then sbn else old)
  unfolding follow set_dst_sbn
  followed true sbn b old h = refl
  followed false sbn b old h = h

  -- After a write of the address, the session uses the new address where the call returns and was asked to follow,
  -- and the one from before where it was not asked to, or where the call raised.
  pub write_sbn_address-Addressed :
      (sbn : ℤ) (update confirm : Bool) (b : Balance k V T I)
      → Addressed sbn update b (write_sbn_address transport codec sbn update confirm b)
  unfolding write_sbn_address Addressed
  write_sbn_address-Addressed sbn update confirm b =
      let Q : Result ℕ × Balance k V T I → Type 0 = Addressed sbn update b in
      holds_guard Q confirm confirmation_required _ b refl λ e.
        holds_guard Q (is_u8 sbn) validation _ b refl λ f.
          holds_guard Q (same_protocol b.link.session.active xbpi) sartorius_error _ b refl λ g.
            let sent = send_byte transport codec (pos 0x72) sbn b in
            let same : sent.1.link.session ≡ b.link.session = send_byte-session (pos 0x72) sbn b in
            let kept : sent.1.link.session.dst_sbn ≡ b.link.session.dst_sbn =
              ap (λ s. s.dst_sbn) same in
            holds_continue Q sent.0 _ sent.1 (λ c. kept)
              λ u h.
                let read = execute transport codec read_sbn tt false sent.1.link in
                let setup = execute_setup transport codec read_sbn tt false sent.1.link in
                let (active, state, family, capabilities, src, dst, cache) = setup in
                let after : Balance k V T I = record sent.1 { link = read.1 } in
                holds_continue Q read.0 _ after (λ c. dst ∙ kept)
                  λ n m. followed update sbn after b.link.session.dst_sbn (dst ∙ kept)
