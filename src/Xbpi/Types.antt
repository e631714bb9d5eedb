-- ===== src/Xbpi/Types.antt =====
-- protocol/xbpi/types.py: validated frames and decoded bodies.
use sartoriuslib.Prelude.{ℕ, Bool, Option}
use sartoriuslib.Prelude.Bytes.{Bytes}
use sartoriuslib.Prelude.Float32.{Float32}
use sartoriuslib.Registry.Units.{PhysicalUnit, Sign}

pub data SubtypeFamily : Type 0 where
  ack error bargraph structured_u32 short_data : SubtypeFamily
  typed_float_alt typed_float short_blob measurement long_data unknown : SubtypeFamily

pub record XbpiFrame : Type 0 where
  pub length : ℕ
  pub marker : ℕ
  pub subtype : ℕ
  pub body : Bytes
  pub checksum : ℕ
  pub raw : Bytes

pub record MeasurementBody : Type 0 where
  pub raw : Bytes
  pub value : Option Float32
  pub aux : ℕ
  pub decimals : ℕ
  pub unit : PhysicalUnit
  pub sign : Sign
  pub stable : Bool
  pub off_scale : Bool
  pub unit_raw : ℕ
  pub flags : ℕ

pub record StatusBlockBody : Type 0 where
  pub raw : Bytes
  pub aux_flag : ℕ
  pub state : ℕ
  pub status : ℕ
  pub sequence : ℕ
  pub stable : Bool
  pub overload : Bool
  pub underload : Bool
  pub adc_trusted : Option Bool
  pub isocal_due : Option Bool

pub record LongMeasurementBody : Type 0 where
  pub measurement : MeasurementBody
  pub delimiter : ℕ
  pub status : StatusBlockBody

pub record TypedFloatBody : Type 0 where
  pub value : Float32
  pub aux : ℕ

pub record ErrorBody : Type 0 where
  pub code : ℕ
