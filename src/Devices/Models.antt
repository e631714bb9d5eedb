-- ===== src/Devices/Models.antt =====
-- devices/models.py: what the commands return. The times of a reading are left out.
use sartoriuslib.Prelude.{ℕ, Option, Bool}
use sartoriuslib.Prelude.Int.{ℤ}
use sartoriuslib.Prelude.Bytes.{Bytes}
use sartoriuslib.Prelude.Dict.{Dict}
use sartoriuslib.Prelude.Float32.{Float32}
use sartoriuslib.Registry.Units.{PhysicalUnit, Sign}
use sartoriuslib.Devices.{ProtocolKind}

pub data BalanceState : Type 0 where
  stable unstable overload underload off unknown : BalanceState

pub record Quantity : Type 0 where
  pub value : Float32
  pub unit : PhysicalUnit

pub record Reading : Type 0 where
  pub value : Option Float32
  pub unit : PhysicalUnit
  pub sign : Sign
  pub stable : Bool
  pub overload : Bool
  pub underload : Bool
  pub decimals : Option ℕ
  pub sequence : Option ℕ
  pub status_flags : Dict Bool
  pub protocol : ProtocolKind
  pub raw : Bytes

pub record BalanceStatus : Type 0 where
  pub stable : Option Bool
  pub state : BalanceState
  pub isocal_due : Option Bool
  pub adc_trusted : Option Bool
  pub sequence : Option ℕ
  pub raw_state : Option ℕ
  pub raw_status : Option ℕ
  pub raw : Bytes

pub record TemperatureReading : Type 0 where
  pub sensor : ℤ
  pub celsius : Option Float32
  pub raw : Bytes

pub record ParameterEntry : Type 0 where
  pub index : ℤ
  pub current : ℕ
  pub maximum : ℕ
  pub raw : Bytes

pub record CalRecord : Type 0 where
  pub temperature_celsius : Option Float32
  pub signature : Bytes
  pub counters : Bytes
  pub padding : ℕ
  pub raw : Bytes
