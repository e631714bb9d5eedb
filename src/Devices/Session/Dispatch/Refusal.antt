-- ===== src/Devices/Session/Dispatch/Refusal.antt =====
-- The gates of a session: what they refuse leaves no trace, and nothing is refused without them.
use sartoriuslib.Prelude.{◌≡◌, refl, ap, Bool, arith}
use sartoriuslib.Errors.{ErrorClass}
use sartoriuslib.Errors.Result.{Result, ok, err}
use sartoriuslib.Errors.Exec.{Exec, lift, ◌>>=◌}
use sartoriuslib.Transport.{SerialTypes, Transport}
use sartoriuslib.Sbi.Types.{SbiCodec}
use sartoriuslib.Devices.{Command}
use sartoriuslib.Devices.Session.{check_state}
use sartoriuslib.Devices.Session.Gates.{
  Link, pass_gates, gate_safety, gate_protocol, gate_known_denied, gate_priors,
}
use sartoriuslib.Devices.Session.Dispatch.{execute, dispatch}

-- An action that leaves the state when it raises.
abbrev Atomic : {S A : Type 0} → Exec S A → Type 0
Atomic {S} m = (s : S) (c : ErrorClass) → (m s).0 ≡ err c → (m s).1 ≡ s

lift-Atomic :
    {S A B : Type 0}
    → (r : Result A) (f : A → Exec S B) → ((a : A) → Atomic (f a))
    → Atomic (lift r >>= f)
lift-Atomic (ok a) f later s c h = later a s c h
lift-Atomic (err e) f later s c h = refl

module _ {k : SerialTypes} {V T R Req Resp : Type 0} (command : Command R Req Resp) where
  gate_priors-Atomic : Atomic {S = Link k V T} (gate_priors command)
  unfolding gate_priors
  gate_priors-Atomic link c h = ground arith

  pass_gates-Atomic : (confirm : Bool) → Atomic {S = Link k V T} (pass_gates command confirm)
  unfolding pass_gates
  pass_gates-Atomic confirm link c h =
      let session = link.session in
      lift-Atomic (check_state session) _
        (λ _. lift-Atomic (gate_safety command.safety confirm) _ (λ _.
          lift-Atomic (gate_protocol session.active command) _
            (λ _. lift-Atomic (gate_known_denied session command) _ (λ _. gate_priors-Atomic))))
        link c h

module _ {k : SerialTypes} {V T R : Type 0} (transport : Transport k T) (codec : SbiCodec R) where
  -- What a gate refuses never happened: whatever the command, nothing is written to the device and nothing is read
  -- from it, the session is as it was, and no warning is given.
  pub execute-refused :
      {Req Resp : Type 0}
      → (command : Command R Req Resp) (request : Req) (confirm : Bool) (link : Link k V T)
        (c : ErrorClass)
      → (pass_gates command confirm link).0 ≡ err c
      → execute transport codec command request confirm link ≡ (err c, link)
  unfolding execute
  execute-refused command request confirm link c h =
      rw h (ap (λ l. (err c, l)) (pass_gates-Atomic command confirm link c h))

  -- Where the gates pass, the command goes to the client of the active protocol.
  pub execute-passed :
      {Req Resp : Type 0}
      → (command : Command R Req Resp) (request : Req) (confirm : Bool) (link : Link k V T)
      → (pass_gates command confirm link).0 ≡ ok tt
      → execute transport codec command request confirm link
        ≡ dispatch transport codec
            (pass_gates command confirm link).1.session.active
            command
            request
            (pass_gates command confirm link).1
  unfolding execute
  execute-passed command request confirm link h = rw h refl
