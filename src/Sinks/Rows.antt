-- ===== src/Sinks/Rows.antt =====
-- sinks/base.py: `sample_to_row`, with `as_dict` of devices/models.py.
pub mod Schema
pub mod Locked
use sartoriuslib.Prelude.{
  ℕ, String, Option, none, some, List, [], ◌∷◌, Bool, true, false, if◌then◌else◌,
}
use sartoriuslib.Prelude.Int.{pos}
use sartoriuslib.Prelude.Float32.{Float32}
use sartoriuslib.Prelude.Dict.{put}
use sartoriuslib.Registry.Units.{PhysicalUnit, Sign}
use sartoriuslib.Devices.Models.{Reading}
use sartoriuslib.Sinks.{Cell, null, float, int, str, Row}
use sartoriuslib.Streaming.{Host, Failure, Sample, protocol_value}

-- The values of `Unit`.
unfoldable pub unit_value : PhysicalUnit → String
unit_value PhysicalUnit.userdef = "userdef"
unit_value PhysicalUnit.g = "g"
unit_value PhysicalUnit.kg = "kg"
unit_value PhysicalUnit.ct = "ct"
unit_value PhysicalUnit.lb = "lb"
unit_value PhysicalUnit.oz = "oz"
unit_value PhysicalUnit.ozt = "ozt"
unit_value PhysicalUnit.tael_hk = "tl.hk"
unit_value PhysicalUnit.tael_sg = "tl.sg"
unit_value PhysicalUnit.tael_tw = "tl.tw"
unit_value PhysicalUnit.gr = "gr"
unit_value PhysicalUnit.dwt = "dwt"
unit_value PhysicalUnit.mg = "mg"
unit_value PhysicalUnit.parts_per_pound = "/lb"
unit_value PhysicalUnit.tael_cn = "tl.cn"
unit_value PhysicalUnit.momme = "momme"
unit_value PhysicalUnit.ct_au = "ct_au"
unit_value PhysicalUnit.tola = "tola"
unit_value PhysicalUnit.baht = "baht"
unit_value PhysicalUnit.mesgal = "mesgal"
unit_value PhysicalUnit.t = "t"
unit_value PhysicalUnit.lb_oz = "lb_oz"
unit_value PhysicalUnit.newton = "N"
unit_value PhysicalUnit.ug = "µg"
unit_value PhysicalUnit.unknown = "unknown"

unfoldable pub sign_value : Sign → String
sign_value Sign.zero = "zero"
sign_value Sign.positive = "positive"
sign_value Sign.negative = "negative"
sign_value Sign.unknown = "unknown"

-- int(b)
unfoldable pub flag : Bool → Cell
flag true = int (pos 1)
flag false = int (pos 0)

-- An optional value as a cell.
unfoldable pub opt_int : Option ℕ → Cell
opt_int none = null
opt_int (some n) = int (pos n)

unfoldable pub opt_str : Option String → Cell
opt_str none = null
opt_str (some s) = str s

-- d.update(other)
unfoldable pub update : Row → Row → Row
update row [] = row
update row ((key, value) ∷ items) = update (put row key value) items

module _ (k : Host) where
  open k use {isoformat, double, hex, qualified_name}

  unfoldable pub opt_float : Option Float32 → Cell
  opt_float none = null
  opt_float (some x) = float (double x)

  unfoldable pub as_dict : Reading → Row
  unfolding opt_float opt_int flag
  as_dict r =
      ("value", opt_float r.value)
      ∷ ("unit", str (unit_value r.unit))
      ∷ ("sign", str (sign_value r.sign))
      ∷ ("stable", flag r.stable)
      ∷ ("overload", flag r.overload)
      ∷ ("underload", flag r.underload)
      ∷ ("decimals", opt_int r.decimals)
      ∷ ("sequence", opt_int r.sequence)
      ∷ ("protocol", str (protocol_value r.protocol))
      ∷ ("raw", str (hex r.raw))
      ∷ []

  unfoldable pub reading_cells : Sample k → Option Reading → Row
  unfolding as_dict
  reading_cells sample (some reading) = as_dict reading
  reading_cells sample none =
      ("value", null)
      ∷ ("unit", null)
      ∷ ("sign", null)
      ∷ ("stable", null)
      ∷ ("overload", null)
      ∷ ("underload", null)
      ∷ ("decimals", null)
      ∷ ("sequence", null)
      ∷ (
        "protocol",
        elim sample.protocol [ none ↦ null | some protocol ↦ str (protocol_value protocol) ],
      )
      ∷ ("raw", null)
      ∷ []

  unfoldable pub add_error : Row → Option Failure → Row
  add_error row (some err) =
      put (put row "error_type" (str (qualified_name err.kind))) "error_message" (str err.message)
  add_error row none = put (put row "error_type" null) "error_message" null

  unfoldable pub sample_to_row : Sample k → Row
  unfolding reading_cells add_error update
  sample_to_row sample =
      let row =
        ("device", str sample.device)
        ∷ ("t_mono_ns", int (pos sample.t_mono_ns))
        ∷ ("t_utc", str (isoformat sample.t_utc))
        ∷ ("t_midpoint_mono_ns", opt_int sample.t_midpoint_mono_ns)
        ∷ ("requested_at", str (isoformat sample.requested_at))
        ∷ ("received_at", str (isoformat sample.received_at))
        ∷ ("latency_s", float sample.latency_s)
        ∷ [] in
      add_error (update row (reading_cells sample sample.reading)) sample.error
