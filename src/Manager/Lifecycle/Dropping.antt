-- ===== src/Manager/Lifecycle/Dropping.antt =====
-- manager.py: what taking a device out does to the manager.
use sartoriuslib.Prelude.{◌≡◌, refl, String, Option, none, some, Bool, true, false, if◌then◌else◌}
use sartoriuslib.Prelude.Dict.{Dict, get, put, remove as pop}
use sartoriuslib.Transport.{SerialTypes}
use sartoriuslib.Manager.{PortEntry, DeviceEntry, Manager, discard_ref, no_refs}
use sartoriuslib.Manager.Ports.{
  Host, Plant, release, teardown_at, teardown_key, teardown_device, set_ports, set_devices,
  maybe_teardown_port,
}
use sartoriuslib.Manager.Lifecycle.{drop_device}
use sartoriuslib.Manager.Lifecycle.Resolving.{maybe_teardown_port-manager}

-- The ports once a name is taken from the port of the key.
unfoldable pub without_ref : String → String → PortEntry → Dict PortEntry → Dict PortEntry
without_ref name key entry ports =
    let left : PortEntry = record entry { refs = discard_ref name entry.refs } in
    if no_refs left.refs then pop (put ports key left) key else put ports key left

unfoldable pub released_at : String → String → Option PortEntry → Dict PortEntry → Dict PortEntry
unfolding without_ref
released_at name key none ports = ports
released_at name key (some entry) ports = without_ref name key entry ports

unfoldable pub released : String → Option String → Dict PortEntry → Dict PortEntry
unfolding released_at
released name none ports = ports
released name (some key) ports = released_at name key (get ports key) ports

module _ {k : SerialTypes} where
  unfoldable pub dropped : String → DeviceEntry k → Manager k → Manager k
  unfolding released
  dropped name device m = record m {
    devices = pop m.devices name;
    ports = released device.name device.port_key m.ports;
  }

module _ {k : SerialTypes} {W : Type 0} (host : Host k W) where
  release-manager :
      (key : String) (entry : PortEntry) (name : String) (p : Plant k W)
      → (release host key entry name p).manager
        ≡ record p.manager { ports = without_ref name key entry p.manager.ports }
  unfolding release without_ref
  release-manager key entry name p =
      let left : PortEntry = record entry { refs = discard_ref name entry.refs } in
      by_refs left (no_refs left.refs)
    where
      by_refs :
          (left : PortEntry) (b : Bool)
          → let after = set_ports (put p.manager.ports key left) p in
            ◌≡◌ {A = Manager k}
              (if b then maybe_teardown_port host key left after else after).manager
              (record p.manager {
                ports =
                    if b
                    then pop (put p.manager.ports key left) key
                    else put p.manager.ports key left;
              })
      by_refs left true =
          maybe_teardown_port-manager host key left (set_ports (put p.manager.ports key left) p)
      by_refs left false = refl

  teardown_at-manager :
      (o : Option PortEntry) (key : String) (name : String) (p : Plant k W)
      → (teardown_at host o key name p).manager
        ≡ record p.manager { ports = released_at name key o p.manager.ports }
  unfolding teardown_at released_at
  teardown_at-manager none key name p = refl
  teardown_at-manager (some entry) key name p = release-manager key entry name p

  teardown_key-manager :
      (o : Option String) (name : String) (p : Plant k W)
      → (teardown_key host o name p).manager
        ≡ record p.manager { ports = released name o p.manager.ports }
  unfolding teardown_key released
  teardown_key-manager none name p = refl
  teardown_key-manager (some key) name p = teardown_at-manager (get p.manager.ports key) key name p

  pub drop_device-manager :
      (name : String) (device : DeviceEntry k) (p : Plant k W)
      → (drop_device host name device p).manager ≡ dropped name device p.manager
  unfolding drop_device teardown_device dropped
  drop_device-manager name device p =
      teardown_key-manager device.port_key device.name (set_devices (pop p.manager.devices name) p)
