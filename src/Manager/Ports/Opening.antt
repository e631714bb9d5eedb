-- ===== src/Manager/Ports/Opening.antt =====
-- manager.py: what `_open_balance_on_port` does to the manager.
use sartoriuslib.Prelude.{
  ◌+◌, String, ◌≡◌, refl, sym, ap, ◌∙◌, ◌⊎◌, inl, inr, Option, none, some, Bool, true, false, not,
  if◌then◌else◌,
}
use sartoriuslib.Prelude.Dict.{put}
use sartoriuslib.Errors.{validation}
use sartoriuslib.Errors.Result.{Result, ok, err}
use sartoriuslib.Errors.Exec.{Exec, pure, guard, lift, gets, ◌>>=◌, ◌>>◌}
use sartoriuslib.Errors.Keeps.{holds_continue, holds_known, holds_guard}
use sartoriuslib.Transport.{SerialTypes, SerialSettings}
use sartoriuslib.Devices.{same_protocol, ProtocolKind, auto, xbpi, sbi}
use sartoriuslib.Devices.Session.{check_clients}
use sartoriuslib.Manager.{Client, Balance, PortEntry, Manager, is_some}
use sartoriuslib.Manager.Ports.{
  Host, Plant, AddOptions, client_for, may_join, fill, ensure_open, use_client, ensure_client,
  session_of, identify_if, open_balance_on_port, put_port, on_world,
}

-- The client through which a session of the protocol works.
abbrev pub chosen : ProtocolKind → Option Client → Option Client → Option Client
chosen auto x s = none
chosen xbpi x s = x
chosen sbi x s = s

-- A checked value that is returned has passed its check.
ok_after :
    {A : Type 0} (r : Result (Unit {0})) (a b : A)
    → (elim r [ err c ↦ err c | ok u ↦ ok a ]) ≡ ok b
    → ((u : Unit {0}) × (r ≡ ok u)) × (a ≡ b)
ok_after (ok u) a b h = ((u, refl), cc)
ok_after (err c) a b h = cc

both_kinds :
    (protocol : ProtocolKind) (b : Bool) (c : Client) (other : Option Client) {u : Unit}
    → (check_clients xbpi (if b then some c else none) other ≡ ok u
        → (if b then some c else none) ≡ some c)
      × (check_clients sbi other (if b then some c else none) ≡ ok u
          → (if b then some c else none) ≡ some c)
unfolding check_clients
both_kinds protocol true c other = (λ h. refl, λ h. refl)
both_kinds protocol false c none = (λ h. cc, λ h. cc)
both_kinds protocol false c (some o) = (λ h. cc, λ h. cc)

chosen-client_for :
    (protocol : ProtocolKind) (client : Option Client) {u : Unit}
    → check_clients protocol (client_for xbpi protocol client) (client_for sbi protocol client)
      ≡ ok u
    → chosen protocol (client_for xbpi protocol client) (client_for sbi protocol client) ≡ client
unfolding check_clients client_for
chosen-client_for auto none h = cc
chosen-client_for auto (some c) h = cc
chosen-client_for xbpi none h = cc
chosen-client_for sbi none h = cc
chosen-client_for xbpi (some c) h = (both_kinds xbpi (same_protocol c.kind xbpi) c none).0 h
chosen-client_for sbi (some c) h = (both_kinds sbi (same_protocol c.kind sbi) c none).1 h

-- The client of a balance.
unfoldable pub client_of : {k : SerialTypes} → Balance k → Option Client
client_of balance = chosen balance.active balance.xbpi_client balance.sbi_client

module _ {k : SerialTypes} {W : Type 0} where
  unfoldable pub filled : PortEntry → ProtocolKind → Plant k W → Manager k
  filled entry protocol p = record p.manager {
    ports = put p.manager.ports entry.key (fill entry protocol p.clients_made);
  }

  -- The manager is as it was, or the port has been given its first client.
  unfoldable pub Started : PortEntry → ProtocolKind → Plant k W → Manager k → Type 0
  Started entry protocol p m =
      (m ≡ p.manager) ⊎ ((entry.client ≡ none) × (m ≡ filled entry protocol p))

  -- The port has a client, and the manager knows of it.
  unfoldable pub Opened : PortEntry → ProtocolKind → Plant k W → Balance k → Manager k → Type 0
  Opened entry protocol p balance m =
      ((is_some entry.client ≡ true) × (client_of balance ≡ entry.client) × (m ≡ p.manager))
      ⊎ ((entry.client ≡ none)
          × (client_of balance ≡ (fill entry protocol p.clients_made).client)
          × (m ≡ filled entry protocol p))

  unfoldable pub Outcome :
      PortEntry → ProtocolKind → Plant k W → Result (Balance k) × Plant k W → Type 0
  Outcome entry protocol p (ok balance, q) = Opened entry protocol p balance q.manager
  Outcome entry protocol p (err c, q) = Started entry protocol p q.manager

  module _ (host : Host k W) (entry : PortEntry) (settings : Option (SerialSettings k))
      (options : AddOptions k) where
    session-client_of :
        (given : PortEntry) (label : String) (balance : Balance k)
        → session_of host given settings options label ≡ ok balance
        → client_of balance ≡ given.client
    unfolding session_of client_of
    session-client_of given label balance h =
        let (checked, built) =
          ok_after
            (check_clients options.protocol (client_for xbpi options.protocol given.client)
              (client_for sbi options.protocol given.client))
            _ balance h in
        sym (ap client_of built) ∙ chosen-client_for options.protocol given.client checked.1

    identify-Outcome :
        (b : Bool) (balance : Balance k) (p q : Plant k W)
        → Opened entry options.protocol p balance q.manager
        → Started entry options.protocol p q.manager
        → Outcome entry options.protocol p ((do identify_if host b balance; pure balance) q)
    unfolding Outcome identify_if
    identify-Outcome false balance p q opened started = opened
    identify-Outcome true balance p q opened started =
        holds_continue (Outcome entry options.protocol p) (host.identify balance q.world).0
          (λ u. pure balance) (record q { world = (host.identify balance q.world).1 })
          (λ c. started) (λ u e. opened)

    -- What is left once there is a client.
    join : PortEntry → Exec (Plant k W) (Balance k)
    unfolding session_of identify_if
    join given = do
      label ← gets (λ p. host.label entry.transport p.world)
      balance ← lift (session_of host given settings options label)
      identify_if host options.with_identify balance
      pure balance

    join-Outcome :
        (given : PortEntry) (p q : Plant k W)
        → ((balance : Balance k)
            → client_of balance ≡ given.client
            → Opened entry options.protocol p balance q.manager)
        → Started entry options.protocol p q.manager
        → Outcome entry options.protocol p (join given q)
    unfolding Outcome join
    join-Outcome given p q opened started =
        holds_continue (Outcome entry options.protocol p)
          (session_of host given settings options (host.label entry.transport q.world)) _ q
          (λ c. started)
          (λ balance e.
            identify-Outcome options.with_identify balance p q
              (opened balance (session-client_of given _ balance e)) started)

    client_first : Exec (Plant k W) (Balance k)
    unfolding join
    client_first = do given ← ensure_client host entry options.protocol; join given

    client_first-Outcome :
        (p : Plant k W) (w : W) (o : Option Client)
        → entry.client ≡ o
        → Outcome entry options.protocol p (client_first (record p { world = w }))
    unfolding Outcome Opened Started ensure_client use_client client_first filled is_some put_port
        fill
    client_first-Outcome p w (some c) e =
        let q : Plant k W = record p { world = w } in
        let known : ensure_client host entry options.protocol q ≡ (ok entry, q) =
          ap (λ o. use_client host o entry options.protocol q) e in
        holds_known (Outcome entry options.protocol p) join known
          (join-Outcome entry p q (λ balance eb. inl (ap is_some e, eb, refl)) (inl refl))
    client_first-Outcome p w none e =
        let q : Plant k W = record p { world = w } in
        let started = fill entry options.protocol p.clients_made in
        let after = put_port started (record q { clients_made = p.clients_made + 1 }) in
        let known : ensure_client host entry options.protocol q ≡ (ok started, after) =
          ap (λ o. use_client host o entry options.protocol q) e in
        holds_known (Outcome entry options.protocol p) join known
          (join-Outcome started p after (λ balance eb. inr (e, eb, refl)) (inr (e, refl)))

    guarded : Exec (Plant k W) (Balance k)
    unfolding client_first
    guarded = do guard (may_join entry.protocol options.protocol) validation; client_first

    guarded-Outcome :
        (p : Plant k W) (w : W)
        → Outcome entry options.protocol p (guarded (record p { world = w }))
    unfolding Outcome guarded Started
    guarded-Outcome p w =
        holds_guard (Outcome entry options.protocol p) (may_join entry.protocol options.protocol)
          validation client_first _ (inl refl) (λ h. client_first-Outcome p w entry.client refl)

    opened_first :
        (p : Plant k W) (b : Bool)
        → Outcome entry options.protocol p (
            (do (if b then pure tt else on_world (host.open_transport entry.transport)); guarded) p)
    unfolding Outcome Started
    opened_first p true = guarded-Outcome p p.world
    opened_first p false =
        holds_continue (Outcome entry options.protocol p)
          (host.open_transport entry.transport p.world).0 (λ u. guarded)
          (record p { world = (host.open_transport entry.transport p.world).1 }) (λ c. inl refl)
          (λ u e. guarded-Outcome p (host.open_transport entry.transport p.world).1)

    -- What the call does to the manager, whether it returns or raises.
    pub open_balance_on_port-Outcome :
        (p : Plant k W)
        → Outcome entry options.protocol p (open_balance_on_port host entry settings options p)
    unfolding open_balance_on_port ensure_open guarded client_first join Started Outcome
    open_balance_on_port-Outcome p =
        holds_guard (Outcome entry options.protocol p) (not (same_protocol options.protocol auto))
          validation _ p (inl refl) (λ h. opened_first p (host.is_open entry.transport p.world))
