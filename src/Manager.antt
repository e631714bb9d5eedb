-- ===== src/Manager.antt =====
-- manager.py: the state of a manager, the addresses of ports, and the registry's own accessors. A transport is the
-- number that `id` gives for it; a client is known by a number of its own, since its lock is shared by identity.
pub mod Refs
pub mod Ports
pub mod Lifecycle
pub mod Registry
pub mod Directory
pub mod Shutdown
pub mod Dispatch
use Prim.Native.String.{◌++◌ as text_append, len, slice}
use text.Mathlib.Text.{starts_with}
use sartoriuslib.Prelude.{
  ℕ, ◌+◌, String, Option, none, some, List, [], ◌∷◌, map, ◌++◌, Bool, true, false, str_eq,
  if◌then◌else◌,
}
use sartoriuslib.Prelude.Int.{ℤ}
use sartoriuslib.Prelude.Dict.{Dict, get}
use sartoriuslib.Errors.{ErrorClass, connection, validation}
use sartoriuslib.Errors.Result.{Result, ok, err}
use sartoriuslib.Errors.Exec.{Exec}
use sartoriuslib.Transport.{SerialTypes, SerialSettings}
use sartoriuslib.Devices.{ProtocolKind}

pub data ErrorPolicy : Type 0 where
  raise_errors return_errors : ErrorPolicy

pub record DeviceResult (A : Type 0) : Type 0 where
  pub value : Option A
  pub error : Option ErrorClass

module _ {A : Type 0} where
  unfoldable pub success : A → DeviceResult A
  success value = record { value = some value; error = none }

  unfoldable pub failure : ErrorClass → DeviceResult A
  failure error = record { value = none; error = some error }

  unfoldable pub is_success : DeviceResult A → Bool
  is_success result = elim result.error [ none ↦ true | some error ↦ false ]

-- What the operating system says of a port's name.
pub record Platform : Type 0 where
  pub is_windows : Bool
  pub upper : String → String
  pub exists : String → Bool
  pub realpath : String → String

-- text.removeprefix(prefix)
unfoldable pub remove_prefix : String → String → String
remove_prefix text prefix =
    if starts_with text prefix then slice text (len prefix) (len text) else text

unfoldable pub canonical_port_key : Platform → String → String
unfolding remove_prefix
canonical_port_key platform port =
    if platform.is_windows
    then platform.upper (remove_prefix port "\\\\.\\")
    else if platform.exists port
    then platform.realpath port
    else port

-- A protocol client: the class it is an instance of, its own number, and its transport.
pub record Client : Type 0 where
  pub kind : ProtocolKind
  pub number : ℕ
  pub transport : ℕ

-- A balance is known here by the arguments of its session.
pub record Balance (k : SerialTypes) : Type 0 where
  pub xbpi_client : Option Client
  pub sbi_client : Option Client
  pub active : ProtocolKind
  pub src_sbn : ℤ
  pub dst_sbn : ℤ
  pub strict : Bool
  pub settings : SerialSettings k

-- `refs` is a set of names.
pub record PortEntry : Type 0 where
  pub key : String
  pub transport : ℕ
  pub client : Option Client
  pub owns_transport : Bool
  pub protocol : Option ProtocolKind
  pub refs : List String

pub record DeviceEntry (k : SerialTypes) : Type 0 where
  pub name : String
  pub balance : Balance k
  pub port_key : Option String

pub record Manager (k : SerialTypes) : Type 0 where
  pub error_policy : ErrorPolicy
  pub devices : Dict (DeviceEntry k)
  pub ports : Dict PortEntry
  pub closed : Bool

-- refs.add(name) and refs.discard(name)
unfoldable pub add_ref : String → List String → List String
add_ref name [] = name ∷ []
add_ref name (r ∷ refs) = if str_eq r name then r ∷ refs else r ∷ add_ref name refs

unfoldable pub discard_ref : String → List String → List String
discard_ref name [] = []
discard_ref name (r ∷ refs) =
    let rest = discard_ref name refs in if str_eq r name then rest else r ∷ rest

-- `not refs`
abbrev pub no_refs : List String → Bool
no_refs [] = true
no_refs (r ∷ refs) = false

unfoldable pub is_some : {A : Type 0} → Option A → Bool
is_some none = false
is_some (some a) = true

module _ {k : SerialTypes} where
  unfoldable pub new_manager : ErrorPolicy → Manager k
  new_manager policy = record { error_policy = policy; devices = []; ports = []; closed = false }

  unfoldable pub names : Manager k → List String
  names m = map (λ d. d.0) m.devices

  unfoldable pub check_open : Manager k → Result (Unit {0})
  check_open m = if m.closed then err connection else ok tt

  unfoldable pub lookup : Manager k → String → Result (Balance k)
  lookup m name = elim (get m.devices name) [ none ↦ err validation | some d ↦ ok d.balance ]

  -- The names that are not registered are the message of the error.
  unfoldable pub known : Manager k → List String → Bool
  known m [] = true
  known m (name ∷ rest) = if is_some (get m.devices name) then known m rest else false

  unfoldable pub resolve_names : Manager k → Option (List String) → Result (List String)
  unfolding names known
  resolve_names m none = ok (names m)
  resolve_names m (some targets) = if known m targets then ok targets else err validation
