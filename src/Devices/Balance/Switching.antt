-- ===== src/Devices/Balance/Switching.antt =====
-- devices/balance.py: what a change of protocol leaves.
use sartoriuslib.Prelude.{
  ℕ, sym, ◌∙◌, true, Bool, ◌≡◌, refl, ap, subst, Option, none, some, [], false,
}
use sartoriuslib.Prelude.Int.{ℤ, pos}
use sartoriuslib.Errors.Result.{Result, ok, err}
use sartoriuslib.Errors.Exec.{modify, lift, bind-eq-ok, ◌>>◌}
use sartoriuslib.Errors.Keeps.{keeps_continue, holds_continue, holds_known}
use sartoriuslib.Transport.{SerialTypes, SerialSettings, Transport}
use sartoriuslib.Xbpi.Framing.{build_command}
use sartoriuslib.Xbpi.Client.{XbpiClient, new_client as new_xbpi_client, execute as xbpi_execute}
use sartoriuslib.Sbi.Types.{SbiCodec}
use sartoriuslib.Sbi.Client.{SbiClient, Port, detect_autoprint, execute as sbi_execute}
use sartoriuslib.Sbi.Client.Live.{execute-disposed, detect_autoprint-disposed}
use sartoriuslib.Detect.{token_type}
use sartoriuslib.Devices.{ProtocolKind, auto, xbpi, sbi, same_protocol}
use sartoriuslib.Devices.Session.{Session, check_clients, replace_clients}
use sartoriuslib.Devices.Balance.{
  Balance, Framing, overlay_settings, probe_target, check_port, probe_sbi_port, probe_new_xbpi,
  probe_new_sbi, set_session, install, retire, switch,
}

-- The clients of a session that speaks the target, and that protocol only: one client, which is live.
abbrev pub IsTarget : ProtocolKind → Option XbpiClient → Option SbiClient → Type 0
IsTarget xbpi (some x) none = x.disposed ≡ false
IsTarget sbi none (some s) = s.disposed ≡ false
IsTarget target x s = ⊥

module _ {k : SerialTypes} {V : Type 0} where
  -- The session after a switch: as it was, but for the clients, the protocol and the framing, and with nothing of what
  -- was learnt through the old clients.
  unfoldable pub switched :
      ProtocolKind → Framing k → Option XbpiClient → Option SbiClient → Session k V → Session k V
  switched target framing x s old = record old {
    xbpi_client = x;
    sbi_client = s;
    active = target;
    availability = [];
    warned_priors = [];
    result_cache = [];
    serial_settings = overlay_settings old.serial_settings framing;
  }

module _ {k : SerialTypes} where
  -- Settings that are not known are not overlaid.
  overlaid :
      (old : Option (SerialSettings k)) (framing : Framing k)
      → (elim (overlay_settings old framing) [ none ↦ old | some new ↦ some new ])
        ≡ overlay_settings old framing
  unfolding overlay_settings
  overlaid none framing = refl
  overlaid (some base) framing = refl

module _ {k : SerialTypes} {V T I : Type 0} where
  -- The session speaks the target through new clients only, and the old ones are disposed of.
  unfoldable pub Switched : ProtocolKind → Framing k → Balance k V T I → Balance k V T I → Type 0
  Switched target framing before after =
      (x : Option XbpiClient) × (s : Option SbiClient) × IsTarget target x s
      × (after.link.session ≡ switched target framing x s before.link.session)
      × (after.retired_xbpi ≡ (retire before.link.session.xbpi_client none before).retired_xbpi)
      × (after.retired_sbi ≡ (retire none before.link.session.sbi_client before).retired_sbi)

  unfoldable pub Kept : Balance k V T I → Balance k V T I → Type 0
  Kept before after =
      (after.link.session ≡ before.link.session)
      × (after.retired_xbpi ≡ before.retired_xbpi)
      × (after.retired_sbi ≡ before.retired_sbi)

  unfoldable pub SwitchOutcome :
      ProtocolKind → Framing k → Balance k V T I → Result (Unit {0}) × Balance k V T I → Type 0
  SwitchOutcome target framing before (ok u, after) = Switched target framing before after
  SwitchOutcome target framing before (err c, after) = Kept before after

  -- Clients of the target are accepted.
  accepted :
      (target : ProtocolKind) (framing : Framing k) (x : Option XbpiClient) (s : Option SbiClient)
      → IsTarget target x s
      → (b : Balance k V T I)
      → install target framing (x, s) b
        ≡ (ok tt, set_session (switched target framing x s b.link.session) b)
  unfolding install replace_clients check_clients switched
  accepted xbpi framing (some x) none h b =
      ap
        (λ d. (
          ok tt,
          set_session
              (record (switched xbpi framing (some x) none b.link.session) { serial_settings = d })
              b,
        ))
        (overlaid b.link.session.serial_settings framing)
  accepted sbi framing none (some s) h b =
      ap
        (λ d. (
          ok tt,
          set_session
              (record (switched sbi framing none (some s) b.link.session) { serial_settings = d })
              b,
        ))
        (overlaid b.link.session.serial_settings framing)
  accepted auto framing x s h b = elim h [ ]
  accepted xbpi framing none s h b = elim h [ ]
  accepted xbpi framing (some x) (some s) h b = elim h [ ]
  accepted sbi framing none none h b = elim h [ ]
  accepted sbi framing (some x) s h b = elim h [ ]

ok_same : {A : Type 0} {a b : A} → ◌≡◌ {A = Result A} (ok a) (ok b) → a ≡ b
ok_same h = cc

module _ {k : SerialTypes} {T R : Type 0} (transport : Transport k T) (codec : SbiCodec R) where
  probe_sbi_port-client :
      (prints : Bool) (p : Port T)
      → (probe_sbi_port transport codec prints p).1.client.disposed ≡ p.client.disposed
  unfolding probe_sbi_port
  probe_sbi_port-client true p = refl
  probe_sbi_port-client false p =
      let live : Port T → Type 0 = λ q. q.client.disposed ≡ p.client.disposed in
      let sent = sbi_execute transport codec token_type (pos 1) p in
      let same = execute-disposed transport codec token_type (pos 1) p in
      keeps_continue live sent.0 _ sent.1 same (λ reply. same)

  -- A client that is probed stays as live as it was.
  check_port-disposed :
      (rounds : ℕ) (p : Port T) (client : SbiClient)
      → (check_port transport codec rounds p).0 ≡ ok client
      → p.client.disposed ≡ false
      → client.disposed ≡ false
  unfolding check_port
  check_port-disposed rounds p client h live =
      let (prints, found, next) = bind-eq-ok (detect_autoprint transport codec rounds 4) _ p h in
      let sniffed = (detect_autoprint transport codec rounds 4 p).1 in
      let (u, probed, got) = bind-eq-ok (probe_sbi_port transport codec prints) _ sniffed next in
      ap SbiClient.disposed (sym (ok_same got))
      ∙ probe_sbi_port-client prints sniffed
      ∙ detect_autoprint-disposed transport codec rounds 3 p
      ∙ live

  new_xbpi_live :
      (src dst : ℤ) (wire : T) (x : XbpiClient)
      → (probe_new_xbpi transport codec src dst wire).0 ≡ ok x
      → x.disposed ≡ false
  unfolding probe_new_xbpi
  new_xbpi_live src dst wire x h =
      let (request, built, sent) =
        bind-eq-ok (lift (build_command (pos 0x02) [] src dst)) _ wire h in
      let (frame, answered, same) =
        bind-eq-ok (xbpi_execute transport new_xbpi_client request) _ _ sent in
      ap XbpiClient.disposed (sym (ok_same same))

  new_sbi_live :
      (rounds : ℕ) (wire : T) (s : SbiClient)
      → (probe_new_sbi transport codec rounds wire).0 ≡ ok s
      → s.disposed ≡ false
  unfolding probe_new_sbi
  new_sbi_live rounds wire s h = check_port-disposed rounds _ s h refl

  probe_target-IsTarget :
      (target : ProtocolKind) (rounds : ℕ) (src dst : ℤ) (wire : T) (x : Option XbpiClient)
      (s : Option SbiClient)
      → same_protocol target auto ≡ false
      → (probe_target transport codec target rounds src dst wire).0 ≡ ok (x, s)
      → IsTarget target x s
  unfolding probe_target
  probe_target-IsTarget auto rounds src dst wire x s h returned = cc
  probe_target-IsTarget xbpi rounds src dst wire x s h returned =
      let (c, probed, same) = bind-eq-ok (probe_new_xbpi transport codec src dst) _ wire returned in
      subst (λ o. IsTarget xbpi o.0 o.1) (ok_same same) (new_xbpi_live src dst wire c probed)
  probe_target-IsTarget sbi rounds src dst wire x s h returned =
      let (c, probed, same) = bind-eq-ok (probe_new_sbi transport codec rounds) _ wire returned in
      subst (λ o. IsTarget sbi o.0 o.1) (ok_same same) (new_sbi_live rounds wire c probed)

module _ {k : SerialTypes} {V T I R : Type 0} (transport : Transport k T) (codec : SbiCodec R) where
  module _ (target : ProtocolKind) (framing : Framing k) (before : Balance k V T I) where
    unfoldable pub Out : Result (Unit {0}) × Balance k V T I → Type 0
    Out = SwitchOutcome target framing before

    -- The installation of the clients, on a balance of which only the wire has changed.
    installed :
        (wire : T) (x : Option XbpiClient) (s : Option SbiClient)
        → IsTarget target x s
        → Out (
            (do
              install target framing (x, s)
              modify (retire before.link.session.xbpi_client before.link.session.sbi_client))
              (record before { link = record before.link { wire = wire } }))
    unfolding Out SwitchOutcome Switched retire
    installed wire x s h =
        let b : Balance k V T I = record before { link = record before.link { wire = wire } } in
        holds_known Out
          (λ u. modify (retire before.link.session.xbpi_client before.link.session.sbi_client))
          (accepted target framing x s h b) (x, s, h, refl, refl, refl)

    pub switch-Outcome :
        (rounds : ℕ)
        → same_protocol target auto ≡ false
        → Out (switch transport codec target rounds framing before)
    unfolding switch Out SwitchOutcome Kept
    switch-Outcome rounds real =
        let session = before.link.session in
        let on : T → Balance k V T I =
          λ wire. record before { link = record before.link { wire = wire } } in
        let w0 = before.link.wire in
        let w1 = (transport.drain_input w0).1 in
        let w2 = (transport.reopen framing.baudrate framing.parity framing.stopbits w1).1 in
        let probe = probe_target transport codec target rounds session.src_sbn session.dst_sbn w2 in
        holds_continue Out (transport.drain_input w0).0 _ (on w1) (λ c. (refl, refl, refl))
          λ u e.
            holds_continue Out
              (transport.reopen framing.baudrate framing.parity framing.stopbits w1).0 _ (on w2)
              (λ c. (refl, refl, refl))
              λ v f.
                holds_continue Out probe.0 _ (on probe.1) (λ c. (refl, refl, refl))
                  λ clients g. installed probe.1 clients.0 clients.1 (
                    probe_target-IsTarget transport codec target rounds session.src_sbn
                      session.dst_sbn w2 clients.0 clients.1 real g)
