-- ===== src/Manager/Lifecycle/Adding.antt =====
-- manager.py: what `add` does to the manager.
use sartoriuslib.Prelude.{
  ◌≡◌, refl, ap, ◌∙◌, ◌⊎◌, inl, inr, String, Option, none, some, [], Bool, true, false, not,
  if◌then◌else◌,
}
use sartoriuslib.Prelude.Dict.{get, put, get-put_same, put-put}
use sartoriuslib.Errors.{validation, connection}
use sartoriuslib.Errors.Result.{Result, ok, err}
use sartoriuslib.Errors.Exec.{continue}
use sartoriuslib.Errors.Keeps.{holds_continue, holds_guard}
use sartoriuslib.Transport.{SerialTypes}
use sartoriuslib.Manager.{
  Platform, Balance, PortEntry, DeviceEntry, Manager, is_some, add_ref, check_open,
}
use sartoriuslib.Manager.Ports.{Host, Plant, AddOptions, Source, set_devices}
use sartoriuslib.Manager.Ports.Opening.{client_of}
use sartoriuslib.Manager.Lifecycle.{
  register, take_ref_at, take_ref, resolve_source, add, settings_fit,
}
use sartoriuslib.Manager.Lifecycle.Resolving.{Joined, Resolved, resolve_source-Resolved}

not_some : {A : Type 0} (o : Option A) → not (is_some o) ≡ true → o ≡ none
unfolding is_some
not_some none h = refl
not_some (some a) h = cc

module _ {k : SerialTypes} where
  -- The entry under which a balance is registered.
  unfoldable pub device_of : String → Balance k → Option String → DeviceEntry k
  device_of name balance key = record { name = name; balance = balance; port_key = key }

  unfoldable pub EnteredOn : String → Balance k → Manager k → Manager k → Type 0
  EnteredOn name balance before after =
      (key : String) × (e : PortEntry) × (e.key ≡ key)
      × (is_some e.client ≡ true)
      × (client_of balance ≡ e.client)
      × ((get before.ports key ≡ some e) ⊎ ((get before.ports key ≡ none) × (e.refs ≡ [])))
      × (after ≡ record before {
        devices = put before.devices name (device_of name balance (some key));
        ports = put before.ports key (record e { refs = add_ref name e.refs });
      })

  -- On a manager that is open, a name that was free is registered, alone or on a port.
  unfoldable pub Entered : String → Balance k → Manager k → Manager k → Type 0
  Entered name balance before after =
      (before.closed ≡ false)
      × (get before.devices name ≡ none)
      × ((after ≡ record before { devices = put before.devices name (device_of name balance none) })
          ⊎ EnteredOn name balance before after)

  unfoldable pub Added : {W : Type 0} → String → Manager k → Result (Balance k) × Plant k W → Type 0
  Added name m (err c, q) = q.manager ≡ m
  Added name m (ok balance, q) = Entered name balance m q.manager

opened : {k : SerialTypes} (m : Manager k) {u : Unit} → check_open m ≡ ok u → m.closed ≡ false
unfolding check_open
opened m h = by_closed m.closed h
  where
    by_closed : (b : Bool) {u : Unit {0}} → (if b then err connection else ok tt) ≡ ok u → b ≡ false
    by_closed true h = cc
    by_closed false h = refl

module _ {k : SerialTypes} {W : Type 0} (host : Host k W) where
  entered_on :
      (name : String) (m : Manager k) (key : String) (balance : Balance k) (q : Plant k W)
      (e : PortEntry)
      → e.key ≡ key
      → q.manager ≡ record m { ports = put m.ports key e }
      → (register host name (some key, balance) q).1.manager ≡ record m {
        devices = put m.devices name (device_of name balance (some key));
        ports = put m.ports key (record e { refs = add_ref name e.refs });
      }
  unfolding register device_of take_ref_at take_ref
  entered_on name m key balance q e keyed same =
      let device = device_of name balance (some key) in
      let referred : PortEntry = record e { refs = add_ref name e.refs } in
      let entered : Plant k W = set_devices (put q.manager.devices name device) q in
      let found : get q.manager.ports key ≡ some e =
        ap (λ x. get x.ports key) same ∙ get-put_same m.ports key e in
      ap (λ o. (take_ref_at host name o entered).manager) found
      ∙ ap {A = String}
          (λ i. record q.manager {
            devices = put q.manager.devices name device;
            ports = put q.manager.ports i referred;
          })
          keyed
      ∙ ap {A = Manager k}
          (λ x. record x { devices = put x.devices name device; ports = put x.ports key referred })
          same
      ∙ ap (λ d. record m { devices = put m.devices name device; ports = d })
          (put-put m.ports key e referred)

  register-Added :
      (name : String) (m : Manager k) (o : Result (Option String × Balance k) × Plant k W)
      → m.closed ≡ false
      → get m.devices name ≡ none
      → Resolved m o
      → Added name m (continue o.0 (register host name) o.1)
  unfolding Resolved Added Entered EnteredOn register Joined device_of take_ref_at take_ref
  register-Added name m (err c, q) running free same = same
  register-Added name m (ok (none, balance), q) running free same = (
    running,
    free,
    inl (
        ap {A = Manager k}
          (λ x. record x { devices = put x.devices name (device_of name balance none) }) same),
  )
  register-Added name m (ok (some key, balance), q) running free
        (e, keyed, client, shared, held, same) =
      (
        running,
        free,
        inr (key, e, keyed, client, shared, held, entered_on name m key balance q e keyed same),
      )

  module _ (platform : Platform) (name : String) (source : Source k) (options : AddOptions k) where
    pub add-Added :
        (p : Plant k W)
        → ((key : String) (e : PortEntry)
            → get p.manager.ports key ≡ some e
            → (e.key ≡ key) × (is_some e.client ≡ true))
        → Added name p.manager (add host platform name source options p)
    unfolding add Added
    add-Added p served =
        let Q = Added {W = W} name p.manager in
        holds_continue Q (check_open p.manager) _ p (λ c. refl)
          (λ u e.
            holds_guard Q (not (is_some (get p.manager.devices name))) validation _ p refl (λ free.
              holds_guard Q (settings_fit host source options.serial_settings) validation _ p refl
                (λ fit.
                  register-Added name p.manager (resolve_source host platform source options p)
                    (opened p.manager e) (not_some (get p.manager.devices name) free)
                    (resolve_source-Resolved host platform source options p served))))
