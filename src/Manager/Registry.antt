-- ===== src/Manager/Registry.antt =====
-- manager.py: what holds of the devices and the ports of a manager between its operations.
pub mod Entering
pub mod Leaving
pub mod Clearing
use sartoriuslib.Prelude.{
  ◌≡◌, refl, sym, ap, subst, ◌∙◌, ◌⊎◌, inl, inr, String, Option, none, some, List, [], ◌∷◌, Bool,
  true, false, ◌||◌, if◌then◌else◌, str_eq, eq_iff, arith, Bool-cases,
}
use sartoriuslib.Prelude.Dict.{Dict, get, put, remove as pop, get-put, get-remove, get-put_same}
use sartoriuslib.Transport.{SerialTypes}
use sartoriuslib.Devices.Session.Gates.{in_names}
use sartoriuslib.Manager.{
  Balance, PortEntry, DeviceEntry, ErrorPolicy, Manager, new_manager, is_some, add_ref, discard_ref,
  no_refs,
}
use sartoriuslib.Manager.Refs.{in_names-add_ref, in_names-discard_ref}
use sartoriuslib.Manager.Ports.Opening.{client_of}
use sartoriuslib.Manager.Lifecycle.Adding.{device_of, Entered, EnteredOn}

-- Whether the port of the key counts the name.
abbrev pub counts : String → Option PortEntry → Bool
counts n none = false
counts n (some e) = in_names n e.refs

unfoldable pub holds : Dict PortEntry → String → String → Bool
holds ports key n = counts n (get ports key)

-- Whether the device stands on the port of the key.
abbrev pub is_key : String → Option String → Bool
is_key key none = false
is_key key (some i) = str_eq i key

abbrev pub stands : {k : SerialTypes} → String → Option (DeviceEntry k) → Bool
stands key none = false
stands key (some d) = is_key key d.port_key

unfoldable pub owned : {k : SerialTypes} → Dict (DeviceEntry k) → String → String → Bool
owned devices key n = stands key (get devices n)

-- A port counts exactly the devices that stand on it, and at least one; it is held under its own key and has a client,
-- which the session of each device on it works through; a device is held under its own name; and a manager
-- that is closed holds no device.
pub record Coherent {k : SerialTypes} (m : Manager k) : Type 0 where
  pub counted : (key n : String) → holds m.ports key n ≡ owned m.devices key n
  pub used :
      (key : String) (e : PortEntry)
      → get m.ports key ≡ some e
      → (e.key ≡ key) × (is_some e.client ≡ true) × (no_refs e.refs ≡ false)
  pub named : (n : String) (d : DeviceEntry k) → get m.devices n ≡ some d → d.name ≡ n
  pub shared :
      (n key : String) (d : DeviceEntry k) (e : PortEntry)
      → get m.devices n ≡ some d
      → d.port_key ≡ some key
      → get m.ports key ≡ some e
      → client_of d.balance ≡ e.client
  pub ended : m.closed ≡ true → m.devices ≡ []

pub holds-put :
    (ports : Dict PortEntry) (key i n : String) (e : PortEntry)
    → holds (put ports key e) i n ≡ (if str_eq key i then in_names n e.refs else holds ports i n)
unfolding holds
holds-put ports key i n e = ground (arith, get-put ports key i e)

pub owned-put :
    {k : SerialTypes} (devices : Dict (DeviceEntry k)) (name key n : String) (d : DeviceEntry k)
    → owned (put devices name d) key n
      ≡ (if str_eq name n then is_key key d.port_key else owned devices key n)
unfolding owned
owned-put devices name key n d = ground (arith, get-put devices name n d)

pub holds-remove :
    (ports : Dict PortEntry) (key i n : String)
    → holds (pop ports key) i n ≡ (if str_eq key i then false else holds ports i n)
unfolding holds
holds-remove ports key i n = ground (arith, get-remove ports key i)

pub owned-remove :
    {k : SerialTypes} (devices : Dict (DeviceEntry k)) (name key n : String)
    → owned (pop devices name) key n ≡ (if str_eq name n then false else owned devices key n)
unfolding owned
owned-remove devices name key n = ground (arith, get-remove devices name n)

-- A name that is not registered stands on no port.
pub owned_free :
    {k : SerialTypes} (devices : Dict (DeviceEntry k)) (name key : String)
    → get devices name ≡ none
    → owned devices key name ≡ false
unfolding owned
owned_free devices name key h = ap (stands key) h

pub add_ref-used : (name : String) (refs : List String) → no_refs (add_ref name refs) ≡ false
unfolding add_ref
add_ref-used name [] = refl
add_ref-used name (r ∷ refs) = ground arith

pub new_manager-Coherent :
    {k : SerialTypes} (policy : ErrorPolicy) → Coherent {k = k} (new_manager policy)
unfolding new_manager holds owned get
new_manager-Coherent policy = record {
  counted = λ key n. refl;
  used = λ key e h. cc;
  named = λ n d h. cc;
  shared = λ n key d e h on there. cc;
  ended = λ h. refl;
}
