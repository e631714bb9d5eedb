-- ===== src/Devices/Session/Dispatch/Sticky.antt =====
-- The command that a device does not know: it is asked once.
use sartoriuslib.Prelude.{
  ◌≡◌, refl, sym, ap, ◌∙◌, String, some, Bool, false, arith, str_eq, if◌then◌else◌,
}
use sartoriuslib.Prelude.Bytes.{Bytes}
use sartoriuslib.Prelude.Dict.{get, get-put}
use text.Mathlib.TextEquality.{eq_iff}
use sartoriuslib.Errors.{unsupported_command, is_subclass}
use sartoriuslib.Errors.Result.{Result, ok, err}
use sartoriuslib.Errors.Exec.{Exec, lift, ◌>>◌}
use sartoriuslib.Transport.{SerialTypes, Transport}
use sartoriuslib.Xbpi.Client.{XbpiClient, execute as xbpi_execute}
use sartoriuslib.Sbi.Types.{SbiCodec}
use sartoriuslib.Devices.{xbpi, Command, XbpiVariant}
use sartoriuslib.Devices.Session.{operational, unsupported, check_state, refuse_broken, context}
use sartoriuslib.Devices.Session.Gates.{
  Link, pass_gates, gate_safety, gate_protocol, gate_known_denied, gate_priors, deny,
}
use sartoriuslib.Devices.Session.Dispatch.{
  execute, execute_xbpi, call_xbpi, dispatch, set_availability,
}
use sartoriuslib.Devices.Session.Dispatch.Refusal.{execute-refused, execute-passed}
use mathlib.Core.Path.{subst}

str_refl : {A : Type 0} → (s : String) (a b : A) → (if str_eq s s then a else b) ≡ a
str_refl s a b = ground (arith, eq_iff s s)

lift_ok :
    {S A : Type 0}
    → (r : Result (Unit {0})) (m : Exec S A) (s : S) → r ≡ ok tt
    → ((lift r >> m) s).0 ≡ (m s).0
lift_ok r m s h = rw h refl

gate_protocol_lem :
    {R Req Resp : Type 0}
    → (command : Command R Req Resp) (variant : XbpiVariant Req Resp)
    → command.xbpi_variant ≡ some variant
    → gate_protocol xbpi command ≡ ok tt
unfolding gate_protocol
gate_protocol_lem command variant h = rw h refl

module _ {k : SerialTypes} {V T R : Type 0} (transport : Transport k T) (codec : SbiCodec R) where
  call_unsupported :
      (name : String) (client : XbpiClient) (request : Bytes) (link : Link k V T)
      → (xbpi_execute transport client request link.wire).0 ≡ err unsupported_command
      → call_xbpi transport codec name false client request link ≡ (
        err unsupported_command,
        set_availability transport codec name unsupported
            (record link { wire = (xbpi_execute transport client request link.wire).1 }),
      )
  unfolding call_xbpi is_subclass
  call_unsupported name client request link h = rw h refl

  -- The gates of a command that the device is known not to know.
  denied_gates :
      {Req Resp : Type 0}
      → (command : Command R Req Resp) (confirm : Bool) (variant : XbpiVariant Req Resp)
        (link : Link k V T)
      → link.session.state ≡ operational
      → gate_safety command.safety confirm ≡ ok tt
      → link.session.active ≡ xbpi
      → command.xbpi_variant ≡ some variant
      → get link.session.availability command.name ≡ some unsupported
      → (pass_gates command confirm link).0 ≡ err unsupported_command
  unfolding pass_gates check_state gate_protocol gate_known_denied
  denied_gates command confirm variant link running safe mode declared seen =
      let session = link.session in
      let alive : check_state session ≡ ok tt = ap refuse_broken running in
      let spoken : gate_protocol session.active command ≡ ok tt =
        ap (λ p. gate_protocol p command) mode ∙ gate_protocol_lem command variant declared in
      let known : gate_known_denied session command ≡ err unsupported_command = ap deny seen in
      lift_ok (check_state session) _ link alive
      ∙ lift_ok (gate_safety command.safety confirm) _ link safe
      ∙ lift_ok (gate_protocol session.active command) _ link spoken
      ∙ ap (λ r. ((lift r >> gate_priors command) link).0) known

  execute_xbpi_unsupported :
      {Req Resp : Type 0}
      → (command : Command R Req Resp) (request : Req) (passed : Link k V T)
        (variant : XbpiVariant Req Resp) (client : XbpiClient) (bytes : Bytes)
      → passed.session.xbpi_client ≡ some client
      → command.xbpi_variant ≡ some variant
      → command.parameterized ≡ false
      → variant.encode (context xbpi passed.session) request ≡ ok bytes
      → (xbpi_execute transport client bytes passed.wire).0 ≡ err unsupported_command
      → execute_xbpi transport codec command request passed ≡ (
        err unsupported_command,
        set_availability transport codec command.name unsupported
            (record passed { wire = (xbpi_execute transport client bytes passed.wire).1 }),
      )
  unfolding execute_xbpi
  execute_xbpi_unsupported command request passed variant client bytes wired declared plain encoded
        refused =
      let call =
        ap (λ b. call_xbpi transport codec command.name b client bytes passed) plain
        ∙ call_unsupported command.name client bytes passed refused in
      simp (declared, wired, encoded, call)

  -- On an operational session in xBPI mode, a command without a selecting argument that passes the gates and that
  -- the device then answers with 0x04 is not sent again: each later call of it that passes the safety gate is
  -- refused with the same error, whatever its request, and leaves the device, the session and the warnings as they
  -- are.
  pub execute-unsupported_sticky :
      {Req Resp : Type 0}
      → (command : Command R Req Resp) (request request' : Req) (confirm confirm' : Bool)
        (link passed : Link k V T) (variant : XbpiVariant Req Resp) (client : XbpiClient)
        (bytes : Bytes)
      → pass_gates command confirm link ≡ (ok tt, passed)
      → passed.session.state ≡ operational
      → passed.session.active ≡ xbpi
      → passed.session.xbpi_client ≡ some client
      → command.xbpi_variant ≡ some variant
      → command.parameterized ≡ false
      → variant.encode (context xbpi passed.session) request ≡ ok bytes
      → (xbpi_execute transport client bytes passed.wire).0 ≡ err unsupported_command
      → gate_safety command.safety confirm' ≡ ok tt
      → let first = execute transport codec command request confirm link in
        (first.0 ≡ err unsupported_command)
        × (execute transport codec command request' confirm' first.1
            ≡ (err unsupported_command, first.1))
  unfolding dispatch set_availability
  execute-unsupported_sticky command request request' confirm confirm' link passed variant client
        bytes gates running mode wired declared plain encoded refused safe =
      let marked =
        set_availability transport codec command.name unsupported
          (record passed { wire = (xbpi_execute transport client bytes passed.wire).1 }) in
      let once : execute transport codec command request confirm link
          ≡ (err unsupported_command, marked) =
        execute-passed transport codec command request confirm link (ap (λ q. q.0) gates)
        ∙ ap (λ q. dispatch transport codec q.1.session.active command request q.1) gates
        ∙ ap (λ p. dispatch transport codec p command request passed) mode
        ∙ execute_xbpi_unsupported command request passed variant client bytes wired declared plain
            encoded refused in
      let again : execute transport codec command request' confirm' marked
          ≡ (err unsupported_command, marked) =
        execute-refused transport codec command request' confirm' marked unsupported_command (
          denied_gates command confirm' variant marked running safe mode declared (
            get-put passed.session.availability command.name command.name unsupported
            ∙ str_refl command.name _ _)) in
      (
        ap (λ q. q.0) once,
        subst
            (λ q.
              execute transport codec command request' confirm' q.1
              ≡ (err unsupported_command, q.1))
            (sym once) again,
      )
