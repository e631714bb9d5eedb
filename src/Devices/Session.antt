-- ===== src/Devices/Session.antt =====
-- devices/session.py: the state of a session, and the methods that change it without a word to the device. A session has
-- no lock of its own; each exchange of its clients holds the lock of the client.
pub mod Gates
pub mod Dispatch
pub mod Cache
pub mod Raw
use sartoriuslib.Prelude.{
  ℕ, ◌+◌, String, Option, none, some, List, [], ◌∷◌, Bool, true, false, ◌&&◌, ◌||◌, ◌==◌, str_eq,
  if◌then◌else◌,
}
use sartoriuslib.Prelude.Int.{ℤ}
use sartoriuslib.Prelude.Bytes.{Bytes}
use sartoriuslib.Prelude.Dict.{Dict, get, remove}
use sartoriuslib.Errors.{ErrorClass, sartorius_error, connection}
use sartoriuslib.Errors.Result.{Result, ok, err}
use sartoriuslib.Errors.Exec.{Exec}
use sartoriuslib.Transport.{SerialTypes, SerialSettings}
use sartoriuslib.Xbpi.Client.{XbpiClient}
use sartoriuslib.Sbi.Client.{SbiClient}
use sartoriuslib.Devices.{
  ProtocolKind, auto, xbpi, sbi, BalanceFamily, FirmwareVersion, CommandContext,
}

pub data Availability : Type 0 where
  unknown supported unsupported inapplicable : Availability

pub data SessionState : Type 0 where
  operational broken : SessionState

-- `V` is the type of the cached results.
pub record Session (k : SerialTypes) (V : Type 0) : Type 0 where
  pub xbpi_client : Option XbpiClient
  pub sbi_client : Option SbiClient
  pub active : ProtocolKind
  pub family : BalanceFamily
  pub capabilities : ℕ
  pub firmware : Option FirmwareVersion
  pub src_sbn : ℤ
  pub dst_sbn : ℤ
  pub strict : Bool
  pub availability : Dict Availability
  pub warned_priors : List String
  pub result_cache : Dict (ℕ × V)
  pub state : SessionState
  pub recoverable_error_count : ℕ
  pub serial_settings : Option (SerialSettings k)

-- The checks that `__init__` and `replace_clients` share.
unfoldable pub check_clients :
    {X S : Type 0} → ProtocolKind → Option X → Option S → Result (Unit {0})
check_clients auto x s = err sartorius_error
check_clients xbpi none s = err sartorius_error
check_clients xbpi (some x) s = ok tt
check_clients sbi x none = err sartorius_error
check_clients sbi x (some s) = ok tt

-- x.get(k, default), and `x if x is not None else default`.
abbrev pub given : {A : Type 0} → Option A → A → A
given none old = old
given (some new) old = new

unfoldable pub refuse_broken : SessionState → Result (Unit {0})
refuse_broken operational = ok tt
refuse_broken broken = err connection

autoprint_of : ProtocolKind → Option SbiClient → Bool
autoprint_of sbi (some client) = client.autoprint_active
autoprint_of sbi none = false
autoprint_of auto s = false
autoprint_of xbpi s = false

module _ {k : SerialTypes} {V : Type 0} where
  unfoldable pub new_session :
      Option XbpiClient
      → Option SbiClient
      → ProtocolKind
      → BalanceFamily
      → ℕ
      → Option FirmwareVersion
      → ℤ
      → ℤ
      → Bool
      → Option (SerialSettings k)
      → Result (Session k V)
  new_session x s active family capabilities firmware src dst strict settings =
      elim (check_clients active x s) [
        | err c ↦ err c
        | ok u ↦ ok (record {
          xbpi_client = x;
          sbi_client = s;
          active = active;
          family = family;
          capabilities = capabilities;
          firmware = firmware;
          src_sbn = src;
          dst_sbn = dst;
          strict = strict;
          availability = [];
          warned_priors = [];
          result_cache = [];
          state = operational;
          recoverable_error_count = 0;
          serial_settings = settings;
        })
      ]

  unfoldable pub replace_clients :
      Option XbpiClient
      → Option SbiClient
      → ProtocolKind
      → Option (SerialSettings k)
      → Exec (Session k V) (Unit {0})
  replace_clients x s active settings session = elim (check_clients active x s) [
    | err c ↦ (err c, session)
    | ok u ↦ (
      ok tt,
      record session {
        xbpi_client = x;
        sbi_client = s;
        active = active;
        availability = [];
        warned_priors = [];
        result_cache = [];
        serial_settings = elim settings [ none ↦ session.serial_settings | some new ↦ some new ];
      },
    )
  ]

  unfoldable pub update_identity :
      Option BalanceFamily → Option ℕ → Option FirmwareVersion → Session k V → Session k V
  update_identity family capabilities firmware session = record session {
    family = given family session.family;
    capabilities = given capabilities session.capabilities;
    firmware = elim firmware [ none ↦ session.firmware | some new ↦ some new ];
  }

  unfoldable pub set_dst_sbn : ℤ → Session k V → Session k V
  set_dst_sbn dst session = record session { dst_sbn = dst }

  unfoldable pub record_recoverable_error : Session k V → Session k V
  record_recoverable_error session = record session {
    recoverable_error_count = session.recoverable_error_count + 1;
  }

  unfoldable pub mark_broken : Session k V → Session k V
  mark_broken session = record session { state = broken }

  unfoldable pub invalidate_cache : Option String → Session k V → Session k V
  invalidate_cache none session = record session { result_cache = [] }
  invalidate_cache (some key) session = record session {
    result_cache = remove session.result_cache key;
  }

  unfoldable pub availability_of : Session k V → String → Availability
  availability_of session name = given (get session.availability name) unknown

  unfoldable pub check_state : Session k V → Result (Unit {0})
  unfolding refuse_broken
  check_state session = refuse_broken session.state

  unfoldable pub sbi_autoprint_active : Session k V → Bool
  unfolding autoprint_of
  sbi_autoprint_active session = autoprint_of session.active session.sbi_client

  unfoldable pub context : ProtocolKind → Session k V → CommandContext
  context protocol session = record {
    protocol = protocol;
    src_sbn = session.src_sbn;
    dst_sbn = session.dst_sbn;
    firmware = session.firmware;
    family = session.family;
  }
