-- ===== src/Streaming.antt =====
-- streaming/sample.py, the summary of recorder.py, and what the recorder is given: the clocks, and the results of a poll. A datetime and the
-- difference of two are values of the host's, with the operations that the code calls; a float is its bit pattern.
pub mod PollSource
pub mod Recorder
pub mod Session
use sartoriuslib.Prelude.{
  ℕ, String, Option, none, some, List, Bool, true, false, str_eq, if◌then◌else◌,
}
use sartoriuslib.Prelude.Bytes.{Bytes}
use sartoriuslib.Prelude.Dict.{Dict}
use sartoriuslib.Prelude.Float32.{Float32}
use sartoriuslib.Errors.{ErrorClass}
use sartoriuslib.Devices.{ProtocolKind, auto, xbpi, sbi}
use sartoriuslib.Devices.Models.{Reading}

-- The datetime module, and how a value is written as text.
pub record Host : Type 1 where
  pub Time : Type 0
  pub Delta : Type 0
  pub subtract : Time → Time → Delta
  pub halve : Delta → Delta
  pub add : Time → Delta → Time
  pub total_seconds : Delta → ℕ
  pub half_seconds : ℕ → Delta
  pub isoformat : Time → String
  pub double : Float32 → ℕ
  pub hex : Bytes → String
  pub qualified_name : ErrorClass → String

-- An exception as a result carries it: its class, its message, and the protocol that its context names.
pub record Failure : Type 0 where
  pub kind : ErrorClass
  pub message : String
  pub protocol : Option String

-- The `DeviceResult[Reading]` that a source of polls returns for a device.
pub record PollResult : Type 0 where
  pub value : Option Reading
  pub error : Option Failure

pub record Sample (k : Host) : Type 0 where
  pub device : String
  pub reading : Option Reading
  pub t_mono_ns : ℕ
  pub t_utc : Host.Time k
  pub requested_at : Host.Time k
  pub received_at : Host.Time k
  pub latency_s : ℕ
  pub protocol : Option ProtocolKind
  pub t_midpoint_mono_ns : Option ℕ
  pub metadata : Dict String
  pub error : Option Failure

-- The times of a summary are left out; `finished` tells whether `finished_at` is set.
pub record AcquisitionSummary : Type 0 where
  pub finished : Bool
  pub samples_emitted : ℕ
  pub samples_late : ℕ
  pub max_drift : ℕ
  pub target_total_samples : Option ℕ

-- The values of `ProtocolKind`, and ProtocolKind(text).
unfoldable pub protocol_value : ProtocolKind → String
protocol_value auto = "auto"
protocol_value xbpi = "xbpi"
protocol_value sbi = "sbi"

unfoldable pub protocol_of_value : String → Option ProtocolKind
protocol_of_value text =
    if str_eq text "auto"
    then some auto
    else if str_eq text "xbpi"
    then some xbpi
    else if str_eq text "sbi"
    then some sbi
    else none
