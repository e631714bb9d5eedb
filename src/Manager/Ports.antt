-- ===== src/Manager/Ports.antt =====
-- manager.py: a balance on a port, and the release of a port. An action works on the manager and on what it works
-- with: the transports, which `Host` stands for, and the count of clients made.
pub mod Opening
use Prim.Native.String.{◌++◌ as text_append}
use mathlib.Core.List.{reverse}
use sartoriuslib.Prelude.{
  ℕ, ◌+◌, ◌≡◌, String, Option, none, some, List, [], ◌∷◌, Bool, true, false, not, ◌&&◌,
  if◌then◌else◌,
}
use sartoriuslib.Prelude.Int.{ℤ}
use sartoriuslib.Prelude.Dict.{Dict, get, put, remove as pop}
use sartoriuslib.Errors.{ErrorClass, validation}
use sartoriuslib.Errors.Result.{Result, ok, err}
use sartoriuslib.Errors.Exec.{Exec, pure, raise, lift, gets, modify, guard, ◌>>=◌, ◌>>◌}
use sartoriuslib.Transport.{SerialTypes, SerialSettings}
use sartoriuslib.Devices.{same_protocol, ProtocolKind, auto, xbpi, sbi}
use sartoriuslib.Devices.Session.{check_clients}
use sartoriuslib.Manager.{
  Platform, canonical_port_key, Client, Balance, PortEntry, DeviceEntry, Manager, add_ref,
  discard_ref, no_refs, is_some, check_open, names,
}

-- What the manager calls on transports and balances; `make` is the constructor of `SerialTransport`, and `identify` the
-- method of a balance.
pub record Host (k : SerialTypes) (W : Type 0) : Type 0 where
  pub make : SerialSettings k → W → ℕ × W
  pub is_open : ℕ → W → Bool
  pub open_transport : ℕ → Exec W (Unit {0})
  pub close_transport : ℕ → Exec W (Unit {0})
  pub label : ℕ → W → String
  pub identify : Balance k → Exec W (Unit {0})
  pub default_settings : String → SerialSettings k
  pub number_text : ℕ → String

pub record Plant (k : SerialTypes) (W : Type 0) : Type 0 where
  pub manager : Manager k
  pub world : W
  pub clients_made : ℕ

-- A source that is not a balance: the name of a port, or a transport.
pub data PortSource : Type 0 where
  port_name : String → PortSource
  given_transport : ℕ → PortSource

pub data Source (k : SerialTypes) : Type 0 where
  prebuilt : Balance k → Source k
  on_port : PortSource → Source k

-- The keyword arguments of `add`.
pub record AddOptions (k : SerialTypes) : Type 0 where
  pub protocol : ProtocolKind
  pub serial_settings : Option (SerialSettings k)
  pub src_sbn : ℤ
  pub dst_sbn : ℤ
  pub strict : Bool
  pub with_identify : Bool

unfoldable pub may_join : Option ProtocolKind → ProtocolKind → Bool
may_join none requested = true
may_join (some existing) requested = same_protocol existing requested

-- The port's client where the requested protocol is `kind`, and so is the client's class.
unfoldable pub client_for : ProtocolKind → ProtocolKind → Option Client → Option Client
client_for kind requested none = none
client_for kind requested (some client) =
    if same_protocol requested kind && same_protocol client.kind kind then some client else none

-- The port with a client, made on the first use of the port.
unfoldable pub fill : PortEntry → ProtocolKind → ℕ → PortEntry
fill entry protocol number = record entry {
  client = some (record { kind = protocol; number = number; transport = entry.transport });
  protocol = some protocol;
}

abbrev pub settings_or :
    {k : SerialTypes} → Option (SerialSettings k) → SerialSettings k → SerialSettings k
settings_or none fallback = fallback
settings_or (some settings) fallback = settings

-- An `except BaseException: ...; raise`.
abbrev pub cleaned : {S A : Type 0} → (S → S) → Result A × S → Result A × S
cleaned cleanup (ok a, after) = (ok a, after)
cleaned cleanup (err c, after) = (err c, cleanup after)

abbrev pub on_error : {S A : Type 0} → Exec S A → (S → S) → Exec S A
on_error body cleanup state = cleaned cleanup (body state)

module _ {k : SerialTypes} {W : Type 0} where
  abbrev pub set_ports : Dict PortEntry → Plant k W → Plant k W
  set_ports ports p = record p { manager = record p.manager { ports = ports } }

  abbrev pub set_devices : Dict (DeviceEntry k) → Plant k W → Plant k W
  set_devices devices p = record p { manager = record p.manager { devices = devices } }

  abbrev pub on_world : {A : Type 0} → Exec W A → Exec (Plant k W) A
  on_world action p = let (r, w) = action p.world in (r, record p { world = w })

  unfoldable pub put_port : PortEntry → Plant k W → Plant k W
  put_port entry p = set_ports (put p.manager.ports entry.key entry) p

module _ {k : SerialTypes} {W : Type 0} (host : Host k W) where
  -- A close that raises is logged and dropped.
  unfoldable pub close_if_open : ℕ → Plant k W → Plant k W
  close_if_open t p =
      if host.is_open t p.world then record p { world = (host.close_transport t p.world).1 } else p

  unfoldable pub maybe_teardown_port : String → PortEntry → Plant k W → Plant k W
  unfolding close_if_open
  maybe_teardown_port key entry p =
      let after = if entry.owns_transport then close_if_open entry.transport p else p in
      set_ports (pop after.manager.ports key) after

  unfoldable pub release : String → PortEntry → String → Plant k W → Plant k W
  unfolding maybe_teardown_port put_port
  release key entry name p =
      let left = record entry { refs = discard_ref name entry.refs } in
      let after = set_ports (put p.manager.ports key left) p in
      if no_refs left.refs then maybe_teardown_port key left after else after

  unfoldable pub teardown_at : Option PortEntry → String → String → Plant k W → Plant k W
  unfolding release
  teardown_at none key name p = p
  teardown_at (some entry) key name p = release key entry name p

  unfoldable pub teardown_key : Option String → String → Plant k W → Plant k W
  unfolding teardown_at
  teardown_key none name p = p
  teardown_key (some key) name p = teardown_at (get p.manager.ports key) key name p

  unfoldable pub teardown_device : DeviceEntry k → Plant k W → Plant k W
  unfolding teardown_key
  teardown_device device p = teardown_key device.port_key device.name p

  ensure_open : ℕ → Exec (Plant k W) (Unit {0})
  ensure_open t p = (if host.is_open t p.world then pure tt else on_world (host.open_transport t)) p

  -- The client of the port, made on the first use of the port.
  use_client : Option Client → PortEntry → ProtocolKind → Exec (Plant k W) PortEntry
  unfolding put_port fill
  use_client (some client) entry protocol p = (ok entry, p)
  use_client none entry protocol p =
      let started = fill entry protocol p.clients_made in
      (ok started, put_port started (record p { clients_made = p.clients_made + 1 }))

  ensure_client : PortEntry → ProtocolKind → Exec (Plant k W) PortEntry
  unfolding use_client
  ensure_client entry protocol = use_client entry.client entry protocol

  session_of : PortEntry → Option (SerialSettings k) → AddOptions k → String → Result (Balance k)
  session_of entry settings options label =
      let x = client_for xbpi options.protocol entry.client in
      let s = client_for sbi options.protocol entry.client in
      let balance : Balance k = record {
        xbpi_client = x;
        sbi_client = s;
        active = options.protocol;
        src_sbn = options.src_sbn;
        dst_sbn = options.dst_sbn;
        strict = options.strict;
        settings = settings_or settings (host.default_settings label);
      } in
      elim (check_clients options.protocol x s) [ err c ↦ err c | ok u ↦ ok balance ]

  identify_if : Bool → Balance k → Exec (Plant k W) (Unit {0})
  identify_if true balance = on_world (host.identify balance)
  identify_if false balance = pure tt

  unfoldable pub open_balance_on_port :
      PortEntry → Option (SerialSettings k) → AddOptions k → Exec (Plant k W) (Balance k)
  unfolding ensure_open ensure_client session_of identify_if
  open_balance_on_port entry settings options = do
    guard (not (same_protocol options.protocol auto)) validation
    ensure_open entry.transport
    guard (may_join entry.protocol options.protocol) validation
    filled ← ensure_client entry options.protocol
    label ← gets (λ p. host.label entry.transport p.world)
    balance ← lift (session_of filled settings options label)
    identify_if options.with_identify balance
    pure balance
