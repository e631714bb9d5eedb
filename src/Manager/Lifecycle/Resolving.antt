-- ===== src/Manager/Lifecycle/Resolving.antt =====
-- manager.py: what `_resolve_source` does to the manager.
use Prim.Native.String.{◌++◌ as text_append}
use sartoriuslib.Prelude.{
  ℕ, ◌≡◌, refl, sym, ap, ◌∙◌, ◌⊎◌, inl, inr, String, Option, none, some, [], Bool, true, false,
}
use sartoriuslib.Prelude.Dict.{get, put, remove as pop, remove-put, put-put, put-get}
use sartoriuslib.Errors.Result.{Result, ok, err}
use sartoriuslib.Errors.Exec.{continue}
use sartoriuslib.Errors.Keeps.{if_both}
use sartoriuslib.Transport.{SerialTypes, SerialSettings}
use sartoriuslib.Devices.{ProtocolKind}
use sartoriuslib.Manager.{Platform, canonical_port_key, Balance, PortEntry, Manager, is_some}
use sartoriuslib.Manager.Ports.{
  Host, Plant, AddOptions, PortSource, Source, fill, maybe_teardown_port, close_if_open, cleaned,
  put_port, settings_or, prebuilt, on_port, port_name, given_transport, open_balance_on_port,
}
use sartoriuslib.Manager.Ports.Opening.{
  client_of, Started, Opened, Outcome, filled, open_balance_on_port-Outcome,
}
use sartoriuslib.Manager.Lifecycle.{attach, join_port, use_port, fresh_entry, resolve_source}

module _ {k : SerialTypes} where
  -- The port that a balance has been opened on, as the manager holds it.
  unfoldable pub Joined : String → Balance k → Manager k → Manager k → Type 0
  Joined key balance before after =
      (e : PortEntry) × (e.key ≡ key)
      × (is_some e.client ≡ true)
      × (client_of balance ≡ e.client)
      × ((get before.ports key ≡ some e) ⊎ ((get before.ports key ≡ none) × (e.refs ≡ [])))
      × (after ≡ record before { ports = put before.ports key e })

  unfoldable pub Resolved :
      {W : Type 0} → Manager k → Result (Option String × Balance k) × Plant k W → Type 0
  Resolved m (err c, q) = q.manager ≡ m
  Resolved m (ok (none, balance), q) = q.manager ≡ m
  Resolved m (ok (some key, balance), q) = Joined key balance m q.manager

module _ {k : SerialTypes} {W : Type 0} (host : Host k W) where
  pub maybe_teardown_port-manager :
      (key : String) (entry : PortEntry) (p : Plant k W)
      → (maybe_teardown_port host key entry p).manager
        ≡ record p.manager { ports = pop p.manager.ports key }
  unfolding maybe_teardown_port close_if_open
  maybe_teardown_port-manager key entry p =
      let Same : Plant k W → Type 0 = λ q.
        ◌≡◌ {A = Manager k} (record q.manager { ports = pop q.manager.ports key })
          (record p.manager { ports = pop p.manager.ports key }) in
      let closing : Plant k W = record p {
        world = (host.close_transport entry.transport p.world).1;
      } in
      let tried = if_both Same (host.is_open entry.transport p.world) closing p refl refl in
      if_both Same entry.owns_transport _ p tried refl

  unset_served : (entry : PortEntry) → entry.client ≡ none → is_some entry.client ≡ true → ⊥
  unfolding is_some
  unset_served entry unset served = let h = sym (ap is_some unset) ∙ served in cc

  -- A port with a client is joined as it stands.
  attach_existing :
      (entry : PortEntry) (protocol : ProtocolKind) (p : Plant k W)
      → get p.manager.ports entry.key ≡ some entry
      → is_some entry.client ≡ true
      → (o : Result (Balance k) × Plant k W) → Outcome entry protocol p o
      → Resolved p.manager (
          continue
            (cleaned (λ q. q) o).0
            (λ balance q. (ok (some entry.key, balance), q))
            (cleaned (λ q. q) o).1)
  unfolding Outcome Opened Started Resolved Joined is_some
  attach_existing entry protocol p held served (ok balance, q) (inl (started, client, same)) = (
    entry,
    refl,
    served,
    client,
    inl held,
    same
        ∙ sym (
            ap (λ d. record p.manager { ports = d })
              (put-get p.manager.ports entry.key entry held)),
  )
  attach_existing entry protocol p held served (ok balance, q) (inr (unset, client, same)) =
      absurd (unset_served entry unset served)
  attach_existing entry protocol p held served (err c, q) (inl same) = same
  attach_existing entry protocol p held served (err c, q) (inr (unset, rest)) =
      absurd (unset_served entry unset served)

  refilled :
      (key : String) (e f : PortEntry) (m before after : Manager k)
      → before ≡ record m { ports = put m.ports key e }
      → after ≡ record before { ports = put before.ports key f }
      → after ≡ record m { ports = put m.ports key f }
  refilled key e f m before after added same =
      same
      ∙ ap {A = Manager k} (λ x. record x { ports = put x.ports key f }) added
      ∙ ap (λ d. record m { ports = d }) (put-put m.ports key e f)

  taken_out :
      (key : String) (e f : PortEntry) (m : Manager k) (q : Plant k W)
      → get m.ports key ≡ none
      → q.manager ≡ record m { ports = put m.ports key f }
      → (maybe_teardown_port host key e q).manager ≡ m
  taken_out key e f m q absent h =
      maybe_teardown_port-manager key e q
      ∙ ap {A = Manager k} (λ x. record x { ports = pop x.ports key }) h
      ∙ ap (λ d. record m { ports = d }) (remove-put m.ports key f absent)

  -- A fresh port is given its client, or taken out again.
  attach_fresh :
      (entry : PortEntry) (protocol : ProtocolKind) (m : Manager k) (p : Plant k W)
      → p.manager ≡ record m { ports = put m.ports entry.key entry }
      → get m.ports entry.key ≡ none
      → (entry.client ≡ none) × (entry.refs ≡ [])
      → (o : Result (Balance k) × Plant k W) → Outcome entry protocol p o
      → Resolved m (
          continue
            (cleaned (maybe_teardown_port host entry.key entry) o).0
            (λ balance q. (ok (some entry.key, balance), q))
            (cleaned (maybe_teardown_port host entry.key entry) o).1)
  unfolding Outcome Opened Started Resolved Joined is_some filled fill
  attach_fresh entry protocol m p added absent (bare, free) (ok balance, q)
        (inl (started, client, same)) =
      absurd (unset_served entry bare started)
  attach_fresh entry protocol m p added absent (bare, free) (ok balance, q)
        (inr (unset, client, same)) =
      (
        fill entry protocol p.clients_made,
        refl,
        refl,
        client,
        inr (absent, free),
        refilled entry.key entry _ m p.manager q.manager added same,
      )
  attach_fresh entry protocol m p added absent (bare, free) (err c, q) (inl same) =
      taken_out entry.key entry entry m q absent (same ∙ added)
  attach_fresh entry protocol m p added absent (bare, free) (err c, q) (inr (unset, same)) =
      taken_out entry.key entry _ m q absent (
        refilled entry.key entry (fill entry protocol p.clients_made) m p.manager q.manager added
          same)

  module _ (options : AddOptions k) (settings : Option (SerialSettings k)) where
    use_fresh :
        (key : String) (t : ℕ) (w : W) (owns : Bool) (p : Plant k W)
        → get p.manager.ports key ≡ none
        → let entry : PortEntry = record {
          key = key;
          transport = t;
          client = none;
          owns_transport = owns;
          protocol = none;
          refs = [];
        } in
          Resolved p.manager
            (attach host true entry settings options (put_port entry (record p { world = w })))
    unfolding attach put_port
    use_fresh key t w owns p absent =
        let entry : PortEntry = record {
          key = key;
          transport = t;
          client = none;
          owns_transport = owns;
          protocol = none;
          refs = [];
        } in
        let q : Plant k W = put_port entry (record p { world = w }) in
        attach_fresh entry options.protocol p.manager q refl absent (refl, refl)
          (open_balance_on_port host entry settings options q)
          (open_balance_on_port-Outcome host entry settings options q)

    join_port-Resolved :
        (o : Option PortEntry) (key : String) (source : PortSource) (p : Plant k W)
        → get p.manager.ports key ≡ o
        → ((e : PortEntry) → o ≡ some e → (e.key ≡ key) × (is_some e.client ≡ true))
        → Resolved p.manager (join_port host o key source settings options p)
    unfolding join_port attach fresh_entry
    join_port-Resolved (some e) key source p found served =
        let (keyed, client) = served e refl in
        attach_existing e options.protocol p (ap (λ i. get p.manager.ports i) keyed ∙ found) client
          (open_balance_on_port host e settings options p)
          (open_balance_on_port-Outcome host e settings options p)
    join_port-Resolved none key (port_name port) p absent served =
        let (t, w) = host.make (settings_or settings (host.default_settings port)) p.world in
        use_fresh key t w true p absent
    join_port-Resolved none key (given_transport t) p absent served =
        use_fresh key t p.world false p absent

    use_port-Resolved :
        (key : String) (source : PortSource) (p : Plant k W)
        → ((e : PortEntry)
            → get p.manager.ports key ≡ some e
            → (e.key ≡ key) × (is_some e.client ≡ true))
        → Resolved p.manager (use_port host key source settings options p)
    unfolding use_port
    use_port-Resolved key source p served =
        join_port-Resolved (get p.manager.ports key) key source p refl served

  pub resolve_source-Resolved :
      (platform : Platform) (source : Source k) (options : AddOptions k) (p : Plant k W)
      → ((key : String) (e : PortEntry)
          → get p.manager.ports key ≡ some e
          → (e.key ≡ key) × (is_some e.client ≡ true))
      → Resolved p.manager (resolve_source host platform source options p)
  unfolding resolve_source Resolved
  resolve_source-Resolved platform (prebuilt balance) options p served = refl
  resolve_source-Resolved platform (on_port (port_name port)) options p served =
      use_port-Resolved options options.serial_settings (canonical_port_key platform port)
        (port_name port) p (served (canonical_port_key platform port))
  resolve_source-Resolved platform (on_port (given_transport t)) options p served =
      use_port-Resolved options none (text_append "transport:" (host.number_text t))
        (given_transport t) p (served (text_append "transport:" (host.number_text t)))
