-- ===== src/Manager/Lifecycle.antt =====
-- manager.py: `add`, `remove` and `close`. The manager holds its state lock over each of them, so each is one action
-- on the manager and on what it works with.
pub mod Resolving
pub mod Adding
pub mod Dropping
use Prim.Native.String.{◌++◌ as text_append}
use mathlib.Core.List.{reverse}
use sartoriuslib.Prelude.{
  ℕ, ◌+◌, ◌≡◌, String, Option, none, some, List, [], ◌∷◌, Bool, true, false, not, ◌&&◌,
  if◌then◌else◌,
}
use sartoriuslib.Prelude.Int.{ℤ}
use sartoriuslib.Prelude.Dict.{Dict, get, put, remove as pop}
use sartoriuslib.Errors.{ErrorClass, validation}
use sartoriuslib.Errors.Result.{Result, ok, err}
use sartoriuslib.Errors.Exec.{Exec, pure, raise, lift, gets, modify, guard, ◌>>=◌, ◌>>◌}
use sartoriuslib.Transport.{SerialTypes, SerialSettings}
use sartoriuslib.Devices.{ProtocolKind, auto, xbpi, sbi}
use sartoriuslib.Devices.Session.{check_clients}
use sartoriuslib.Manager.{
  Platform, canonical_port_key, Client, Balance, PortEntry, DeviceEntry, Manager, add_ref,
  discard_ref, no_refs, is_some, check_open, names,
}
use sartoriuslib.Manager.Ports.{
  Host, Plant, PortSource, port_name, given_transport, Source, prebuilt, on_port, AddOptions,
  settings_or, set_ports, set_devices, put_port, maybe_teardown_port, teardown_device,
  open_balance_on_port, on_error,
}

module _ {k : SerialTypes} {W : Type 0} (host : Host k W) where
  -- `_resolve_source` for a port: its key, whether the manager owns its transport, and what gives the transport.
  fresh_entry : String → PortSource → Option (SerialSettings k) → Exec (Plant k W) PortEntry
  fresh_entry key (port_name port) settings p =
      let (t, w) = host.make (settings_or settings (host.default_settings port)) p.world in
      (
        ok (record {
          key = key;
          transport = t;
          client = none;
          owns_transport = true;
          protocol = none;
          refs = [];
        }),
        record p { world = w },
      )
  fresh_entry key (given_transport t) settings p = (
    ok (record {
      key = key;
      transport = t;
      client = none;
      owns_transport = false;
      protocol = none;
      refs = [];
    }),
    p,
  )

  attach :
      Bool
      → PortEntry
      → Option (SerialSettings k)
      → AddOptions k
      → Exec (Plant k W) (Option String × Balance k)
  attach fresh entry settings options = do
    balance ←
        on_error (open_balance_on_port host entry settings options) (λ p.
          if fresh && no_refs entry.refs then maybe_teardown_port host entry.key entry p else p)
    pure (some entry.key, balance)

  join_port :
      Option PortEntry
      → String
      → PortSource
      → Option (SerialSettings k)
      → AddOptions k
      → Exec (Plant k W) (Option String × Balance k)
  unfolding fresh_entry attach put_port
  join_port (some entry) key source settings options = attach false entry settings options
  join_port none key source settings options = do
    entry ← fresh_entry key source settings
    modify (put_port entry)
    attach true entry settings options

  use_port :
      String
      → PortSource
      → Option (SerialSettings k)
      → AddOptions k
      → Exec (Plant k W) (Option String × Balance k)
  unfolding join_port
  use_port key source settings options p =
      join_port (get p.manager.ports key) key source settings options p

  unfoldable pub resolve_source :
      Platform → Source k → AddOptions k → Exec (Plant k W) (Option String × Balance k)
  unfolding use_port
  resolve_source platform (prebuilt balance) options = pure (none, balance)
  resolve_source platform (on_port (port_name port)) options =
      use_port (canonical_port_key platform port) (port_name port) options.serial_settings options
  resolve_source platform (on_port (given_transport t)) options =
      use_port (text_append "transport:" (host.number_text t)) (given_transport t) none options

  -- port_entry.refs.add(name)
  take_ref : String → PortEntry → Plant k W → Plant k W
  take_ref name entry p =
      set_ports (put p.manager.ports entry.key (record entry { refs = add_ref name entry.refs })) p

  take_ref_at : String → Option PortEntry → Plant k W → Plant k W
  unfolding take_ref
  take_ref_at name none p = p
  take_ref_at name (some entry) p = take_ref name entry p

  -- The device is entered, and where it is on a port, the entry of the port is given its name.
  register : String → Option String × Balance k → Exec (Plant k W) (Balance k)
  unfolding take_ref_at
  register name (key, balance) p =
      let device : DeviceEntry k = record { name = name; balance = balance; port_key = key } in
      let entered = set_devices (put p.manager.devices name device) p in
      (
        ok balance,
        elim key [ none ↦ entered | some i ↦ take_ref_at name (get p.manager.ports i) entered ],
      )

  settings_fit : Source k → Option (SerialSettings k) → Bool
  settings_fit (on_port (port_name port)) settings = true
  settings_fit (prebuilt balance) settings = not (is_some settings)
  settings_fit (on_port (given_transport t)) settings = not (is_some settings)

  unfoldable pub add : Platform → String → Source k → AddOptions k → Exec (Plant k W) (Balance k)
  unfolding resolve_source register settings_fit
  add platform name source options = do
    m ← gets (λ p. p.manager)
    lift (check_open m)
    guard (not (is_some (get m.devices name))) validation
    guard (settings_fit source options.serial_settings) validation
    resolved ← resolve_source platform source options
    register name resolved

  -- The device is taken out of the registry, and then its port is released.
  unfoldable pub drop_device : String → DeviceEntry k → Plant k W → Plant k W
  unfolding teardown_device
  drop_device name device p =
      teardown_device host device (set_devices (pop p.manager.devices name) p)

  unfoldable pub remove_found : String → Option (DeviceEntry k) → Exec (Plant k W) (Unit {0})
  unfolding drop_device
  remove_found name none = raise validation
  remove_found name (some device) = modify (drop_device name device)

  unfoldable pub remove : String → Exec (Plant k W) (Unit {0})
  unfolding remove_found
  remove name = do
    m ← gets (λ p. p.manager)
    lift (check_open m)
    remove_found name (get m.devices name)

  unfoldable pub drop_found : Option (DeviceEntry k) → String → Plant k W → Plant k W
  unfolding drop_device
  drop_found none name p = p
  drop_found (some device) name p = drop_device name device p

  unfoldable pub drop_named : String → Plant k W → Plant k W
  unfolding drop_found
  drop_named name p = drop_found (get p.manager.devices name) name p

  unfoldable pub drop_all : List String → Plant k W → Plant k W
  unfolding drop_named
  drop_all [] p = p
  drop_all (name ∷ rest) p = drop_all rest (drop_named name p)

  unfoldable pub close : Plant k W → Plant k W
  unfolding drop_all
  close p =
      if p.manager.closed
      then p
      else let after = drop_all (reverse (names p.manager)) p in
        record after { manager = record after.manager { closed = true } }
