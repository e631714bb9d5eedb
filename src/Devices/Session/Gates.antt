-- ===== src/Devices/Session/Gates.antt =====
-- devices/session.py: the gates that a command passes before the session writes anything. A warning is modelled by the
-- name of the command that it is about, in the order of the warnings.
use sartoriuslib.Prelude.{
  String, Option, none, some, List, [], ◌∷◌, ◌++◌, Bool, true, false, ◌&&◌, ◌||◌, ◌==◌, str_eq,
  if◌then◌else◌,
}
use Prim.Native.Nat.{bit_and}
use sartoriuslib.Prelude.Dict.{get}
use sartoriuslib.Errors.{
  confirmation_required, protocol_unsupported, unsupported_command, capability,
}
use sartoriuslib.Errors.Result.{Result, ok, err}
use sartoriuslib.Errors.Exec.{Exec, lift, gets, ◌>>=◌, ◌>>◌}
use sartoriuslib.Transport.{SerialTypes}
use sartoriuslib.Devices.{
  ProtocolKind, auto, xbpi, sbi, SafetyTier, read_only, stateful, persistent, dangerous, Command,
  in_families,
}
use sartoriuslib.Devices.Session.{
  Session, Availability, unknown, supported, unsupported, inapplicable, check_state,
}

-- A session with its transport, and the warnings given so far.
pub record Link (k : SerialTypes) (V T : Type 0) : Type 0 where
  pub session : Session k V
  pub wire : T
  pub warnings : List String

-- x in xs, for a set of names.
abbrev pub in_names : String → List String → Bool
in_names x [] = false
in_names x (y ∷ ys) = str_eq y x || in_names x ys

unfoldable pub gate_safety : SafetyTier → Bool → Result (Unit {0})
gate_safety read_only confirm = ok tt
gate_safety stateful confirm = ok tt
gate_safety persistent confirm = if confirm then ok tt else err confirmation_required
gate_safety dangerous confirm = if confirm then ok tt else err confirmation_required

-- `is None` on a variant.
abbrev need : {A : Type 0} → Option A → Result (Unit {0})
need none = err protocol_unsupported
need (some variant) = ok tt

unfoldable pub gate_protocol :
    {R Req Resp : Type 0} → ProtocolKind → Command R Req Resp → Result (Unit {0})
gate_protocol xbpi command = need command.xbpi_variant
gate_protocol sbi command = need command.sbi_variant
gate_protocol auto command = need command.sbi_variant

unfoldable pub deny : Option Availability → Result (Unit {0})
deny none = ok tt
deny (some unknown) = ok tt
deny (some supported) = ok tt
deny (some unsupported) = err unsupported_command
deny (some inapplicable) = ok tt

-- Whether the hints of a command fit the session.
abbrev no_hints : {A : Type 0} → List A → Bool
no_hints [] = true
no_hints (x ∷ xs) = false

-- A warning is given once for each command.
warn_priors : {k : SerialTypes} {V T : Type 0} → String → Link k V T → Link k V T
warn_priors name link = if in_names name link.session.warned_priors then link else record link {
  session = record link.session { warned_priors = link.session.warned_priors ++ name ∷ [] };
  warnings = link.warnings ++ name ∷ [];
}

module _ {k : SerialTypes} {R V Req Resp : Type 0} where
  unfoldable pub gate_known_denied : Session k V → Command R Req Resp → Result (Unit {0})
  unfolding deny
  gate_known_denied session command = deny (get session.availability command.name)

  unfoldable pub priors_ok : Session k V → Command R Req Resp → Bool
  priors_ok session command =
      let hints = command.capability_hints in
      (no_hints command.family_hints || in_families session.family command.family_hints)
      && (hints == 0 || bit_and session.capabilities hints == hints)

module _ {k : SerialTypes} {R V T Req Resp : Type 0} where
  unfoldable pub gate_priors : Command R Req Resp → Exec (Link k V T) (Unit {0})
  unfolding priors_ok warn_priors
  gate_priors command link =
      if priors_ok link.session command
      then (ok tt, link)
      else if link.session.strict
      then (err capability, link)
      else (ok tt, warn_priors command.name link)

  -- The gates in the order of `execute`.
  unfoldable pub pass_gates : Command R Req Resp → Bool → Exec (Link k V T) (Unit {0})
  unfolding check_state gate_safety gate_protocol gate_known_denied gate_priors
  pass_gates command confirm = do
    session ← gets (λ l. l.session)
    lift (check_state session)
    lift (gate_safety command.safety confirm)
    lift (gate_protocol session.active command)
    lift (gate_known_denied session command)
    gate_priors command
