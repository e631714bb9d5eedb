-- ===== src/Devices/Session/Dispatch/Seen.antt =====
-- What the execution of a command may change in its session.
use sartoriuslib.Prelude.{
  ◌≡◌, ◌≢◌, refl, ◌∙◌, String, Option, none, some, List, Bool, true, false, not, ◌&&◌, arith,
  if◌then◌else◌,
}
use sartoriuslib.Prelude.Int.{ℤ}
use sartoriuslib.Prelude.Bytes.{Bytes}
use sartoriuslib.Prelude.Dict.{Dict, get, put, get-put}
use text.Mathlib.TextEquality.{eq_iff}
use sartoriuslib.Errors.{
  ErrorClass, is_subclass, unsupported_command, operation_not_applicable, autoprint_active,
  protocol_unsupported, sartorius_error,
}
use sartoriuslib.Errors.Result.{Result, ok, err}
use sartoriuslib.Errors.Exec.{guard}
use sartoriuslib.Errors.Keeps.{if_both, keeps_continue, keeps_guard}
use sartoriuslib.Transport.{SerialTypes, Transport}
use sartoriuslib.Xbpi.Types.{XbpiFrame}
use sartoriuslib.Xbpi.Client.{XbpiClient, execute as xbpi_execute}
use sartoriuslib.Sbi.Types.{SbiReply, SbiCodec}
use sartoriuslib.Sbi.Client.{SbiClient, mark_autoprint_active, execute as sbi_execute}
use sartoriuslib.Devices.{ProtocolKind, xbpi, sbi, auto, Command}
use sartoriuslib.Devices.Session.{
  Session, Availability, supported, unsupported, inapplicable, check_clients, check_state, context,
  sbi_autoprint_active,
}
use sartoriuslib.Devices.Session.Gates.{
  Link, pass_gates, gate_priors, priors_ok, in_names, gate_safety, gate_protocol, gate_known_denied,
}
use sartoriuslib.Devices.Session.Dispatch.{
  execute, dispatch, execute_xbpi, execute_sbi, exchange_sbi, refuse_surprise, surprise, on_sbi,
  on_xbpi, call_xbpi, settle, set_availability, mark_supported, some_or, positive,
}

module _ {k : SerialTypes} {V T R Req Resp : Type 0} (transport : Transport k T)
    (codec : SbiCodec R) (command : Command R Req Resp) (P : Session k V → Type 0)
    (warned : (s : Session k V) (names : List String)
      → P s
      → P (record s { warned_priors = names }))
    (client_set : (s : Session k V) (c : SbiClient) → P s → P (record s { sbi_client = some c }))
    (seen : (s : Session k V) (a : Availability)
      → (a ≡ unsupported → command.parameterized ≡ false)
      → P s
      → P (record s { availability = put s.availability command.name a })) where
  abbrev On : Link k V T → Type 0
  On link = P link.session

  abbrev After : {A : Type 0} → Result A × Link k V T → Type 0
  After q = P q.1.session

  gate_priors_keeps : (link : Link k V T) → On link → After (gate_priors command link)
  unfolding gate_priors
  gate_priors_keeps link h = if_both After (priors_ok link.session command) _ _ h (
      if_both After link.session.strict _ _ h (
        if_both On (in_names command.name link.session.warned_priors) _ _ h
          (warned link.session _ h)))

  pass_gates_keeps :
      (confirm : Bool) (link : Link k V T) → On link → After (pass_gates command confirm link)
  unfolding pass_gates
  pass_gates_keeps confirm link h = keeps_continue On (check_state link.session) _ link h (λ _.
      keeps_continue On (gate_safety command.safety confirm) _ link h (λ _.
        keeps_continue On (gate_protocol link.session.active command) _ link h (λ _.
          keeps_continue On (gate_known_denied link.session command) _ link h
            (λ _. gate_priors_keeps link h))))

  refused_keeps :
      (b : Bool) (c : ErrorClass) (x : Result XbpiFrame) (link : Link k V T)
      → command.parameterized ≡ b
      → On link
      → After (
          if◌then◌else◌ {A = Result XbpiFrame × Link k V T} b
            (x, link)
            (err c, set_availability transport codec command.name unsupported link))
  unfolding set_availability
  refused_keeps true c x link e h = h
  refused_keeps false c x link e h = seen link.session unsupported (λ _. e) h

  settle_keeps :
      (r : Result XbpiFrame) (link : Link k V T)
      → On link
      → After (settle transport codec command.name command.parameterized r link)
  unfolding settle set_availability
  settle_keeps (ok frame) link h = seen link.session supported (λ e. absurd cc) h
  settle_keeps (err c) link h =
      if_both After (is_subclass c unsupported_command) _ _
        (refused_keeps command.parameterized c _ link refl h)
        (if_both After (is_subclass c operation_not_applicable) _ _
          (seen link.session inapplicable (λ e. absurd cc) h) h)

  execute_xbpi_keeps :
      (request : Req) (link : Link k V T)
      → On link
      → After (execute_xbpi transport codec command request link)
  unfolding execute_xbpi call_xbpi on_xbpi
  execute_xbpi_keeps request link h =
      keeps_continue On (some_or protocol_unsupported command.xbpi_variant) _ link h (λ variant.
        keeps_continue On (some_or sartorius_error link.session.xbpi_client) _ link h (λ client.
          keeps_continue On (variant.encode (context xbpi link.session) request) _ link h (λ bytes.
            let moved : Link k V T = record link {
              wire = (xbpi_execute transport client bytes link.wire).1;
            } in
            let r = (xbpi_execute transport client bytes link.wire).0 in
            let settled = settle transport codec command.name command.parameterized r moved in
            keeps_continue On settled.0 _ settled.1 (settle_keeps r moved h)
              (λ frame. settle_keeps r moved h))))

  refuse_surprise_keeps :
      (token : Bytes) (reply : SbiReply R) (link : Link k V T)
      → On link
      → After (refuse_surprise transport codec token reply link)
  unfolding refuse_surprise
  refuse_surprise_keeps token reply link h = of_client link.session.sbi_client
    where
      of_client :
          (o : Option SbiClient)
          → After {A = SbiReply R} (elim o [
            | none ↦ (ok reply, link)
            | some client ↦
                if surprise codec client token reply
                then (
                  err autoprint_active,
                  record link {
                    session = record link.session {
                      sbi_client = some (mark_autoprint_active (some reply.raw) client);
                    };
                  },
                )
                else (ok reply, link)
          ])
      of_client none = h
      of_client (some client) =
          if_both After (surprise codec client token reply) _ _ (client_set link.session _ h) h

  exchange_sbi_keeps :
      (client : SbiClient) (request token : Bytes) (expect_lines : ℤ) (link : Link k V T)
      → On link
      → After (exchange_sbi transport codec client request token expect_lines link)
  unfolding exchange_sbi on_sbi
  exchange_sbi_keeps client request token expect_lines link h =
      let open_ = not (sbi_autoprint_active link.session && positive expect_lines) in
      let before = guard open_ autoprint_active link in
      let kept = keeps_guard On open_ autoprint_active link h in
      let sent =
        on_sbi transport codec client (sbi_execute transport codec request expect_lines) before.1 in
      let still = client_set before.1.session _ kept in
      keeps_continue On before.0 _ before.1 kept (λ _.
        keeps_continue On sent.0 _ sent.1 still
          (λ reply. refuse_surprise_keeps token reply sent.1 still))

  execute_sbi_keeps :
      (request : Req) (link : Link k V T)
      → On link
      → After (execute_sbi transport codec command request link)
  unfolding execute_sbi mark_supported set_availability
  execute_sbi_keeps request link h =
      keeps_continue On (some_or protocol_unsupported command.sbi_variant) _ link h (λ variant.
        keeps_continue On (some_or sartorius_error link.session.sbi_client) _ link h (λ client.
          keeps_continue On (variant.encode (context sbi link.session) request) _ link h (λ bytes.
            let done =
              exchange_sbi transport codec client bytes variant.token variant.expect_lines link in
            let kept = exchange_sbi_keeps client bytes variant.token variant.expect_lines link h in
            keeps_continue On done.0 _ done.1 kept
              (λ reply. seen done.1.session supported (λ e. absurd cc) kept))))

  dispatch_keeps :
      (active : ProtocolKind) (request : Req) (link : Link k V T)
      → On link
      → After (dispatch transport codec active command request link)
  unfolding dispatch
  dispatch_keeps xbpi request link h = execute_xbpi_keeps request link h
  dispatch_keeps sbi request link h = execute_sbi_keeps request link h
  dispatch_keeps auto request link h = h

  execute_keeps :
      (request : Req) (confirm : Bool) (link : Link k V T)
      → On link
      → After (execute transport codec command request confirm link)
  unfolding execute
  execute_keeps request confirm link h =
      let gates : Result (Unit {0}) × Link k V T = pass_gates command confirm link in
      let passed = pass_gates_keeps confirm link h in
      keeps_continue On gates.0 _ gates.1 passed
        (λ _. dispatch_keeps gates.1.session.active request gates.1 passed)

-- Wiring an SBI client takes no client away.
rewired :
    (active : ProtocolKind) (x : Option XbpiClient) (s : Option SbiClient) (c : SbiClient)
    → check_clients active x s ≡ ok tt
    → check_clients active x (some c) ≡ ok tt
unfolding check_clients
rewired auto x s c h = cc
rewired xbpi none s c h = cc
rewired xbpi (some y) s c h = refl
rewired sbi x s c h = refl

put_other : {V : Type 0} → (d : Dict V) (k j : String) (v : V) → k ≢ j → get (put d k v) j ≡ get d j
put_other d k j v h = get-put d k j v ∙ ground (arith, eq_iff k j, h)

module _ {k : SerialTypes} {V T R Req Resp : Type 0} (transport : Transport k T)
    (codec : SbiCodec R) where
  -- What a command shows of itself is not put down to another: the availability of every other name stays, however
  -- the call ends and over either protocol.
  pub execute_other_names :
      (command : Command R Req Resp) (request : Req) (confirm : Bool) (link : Link k V T)
      (name : String)
      → command.name ≢ name
      → get (execute transport codec command request confirm link).1.session.availability name
        ≡ get link.session.availability name
  execute_other_names command request confirm link name other =
      execute_keeps transport codec command
        (λ s. get s.availability name ≡ get link.session.availability name) (λ s names h. h)
        (λ s c h. h) (λ s a allowed h. put_other s.availability command.name name a other ∙ h)
        request confirm link refl

  -- A command whose request selects one of several resources, and that is not marked as unsupported, is not marked
  -- so by any call, so that a request out of range does not shut out the others.
  pub execute_parameterized :
      (command : Command R Req Resp) (request : Req) (confirm : Bool) (link : Link k V T)
      → command.parameterized ≡ true
      → get link.session.availability command.name ≢ some unsupported
      → get
          (execute transport codec command request confirm link).1.session.availability
          command.name
        ≢ some unsupported
  execute_parameterized command request confirm link selects before =
      execute_keeps transport codec command
        (λ s. get s.availability command.name ≢ some unsupported) (λ s names h. h) (λ s c h. h)
        (λ s a allowed h e. ground (
          arith,
          eq_iff command.name command.name,
          get-put s.availability command.name command.name a,
        ))
        request confirm link before

  -- A session whose active protocol has its client keeps it so through every command.
  pub execute_clients :
      (command : Command R Req Resp) (request : Req) (confirm : Bool) (link : Link k V T)
      → check_clients link.session.active link.session.xbpi_client link.session.sbi_client ≡ ok tt
      → let after = (execute transport codec command request confirm link).1.session in
        check_clients after.active after.xbpi_client after.sbi_client ≡ ok tt
  execute_clients command request confirm link h =
      execute_keeps transport codec command
        (λ s. check_clients s.active s.xbpi_client s.sbi_client ≡ ok tt) (λ s names h. h)
        (λ s c h. rewired s.active s.xbpi_client s.sbi_client c h) (λ s a allowed h. h) request
        confirm link h

  -- A command changes neither the protocol, the life cycle, the identity, the addresses nor the cache of its
  -- session.
  pub execute_setup :
      (command : Command R Req Resp) (request : Req) (confirm : Bool) (link : Link k V T)
      → let after = (execute transport codec command request confirm link).1.session in
        (after.active ≡ link.session.active)
        × (after.state ≡ link.session.state)
        × (after.family ≡ link.session.family)
        × (after.capabilities ≡ link.session.capabilities)
        × (after.src_sbn ≡ link.session.src_sbn)
        × (after.dst_sbn ≡ link.session.dst_sbn)
        × (after.result_cache ≡ link.session.result_cache)
  execute_setup command request confirm link =
      execute_keeps transport codec command
        (λ s.
          (s.active ≡ link.session.active)
          × (s.state ≡ link.session.state)
          × (s.family ≡ link.session.family)
          × (s.capabilities ≡ link.session.capabilities)
          × (s.src_sbn ≡ link.session.src_sbn)
          × (s.dst_sbn ≡ link.session.dst_sbn)
          × (s.result_cache ≡ link.session.result_cache))
        (λ s names h. h) (λ s c h. h) (λ s a allowed h. h) request confirm link
        (refl, refl, refl, refl, refl, refl, refl)
