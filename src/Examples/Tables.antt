-- ===== src/Examples/Tables.antt =====
-- Rows, schemas and sinks on a host whose times are numbers.
use sartoriuslib.Prelude.{
  ℕ, ◌+◌, ◌-◌, ◌/◌, ◌≡◌, refl, none, some, List, [], ◌∷◌, map, true, false, arith,
}
use sartoriuslib.Prelude.Int.{pos}
use sartoriuslib.Prelude.Dict.{get}
use sartoriuslib.Errors.{timeout}
use sartoriuslib.Errors.Result.{ok}
use sartoriuslib.Devices.{xbpi}
use sartoriuslib.Sinks.{
  null, int, float, str, int_type, str_type, float_type, Row, type_of, same_type,
}
use sartoriuslib.Sinks.Schema.{
  ColumnSpec, SchemaLock, new_lock, is_locked, is_number, infer_column, lock, project, project_all,
}
use sartoriuslib.Sinks.Schema.Inference.{infer_column-policy}
use sartoriuslib.Sinks.Schema.Projection.{IsLockedTo, Projected, project-Projected}
use sartoriuslib.Sinks.Schema.Warnings.{Warned, project_all-Warned}
use sartoriuslib.Sinks.Rows.{sample_to_row}
use sartoriuslib.Sinks.Rows.Locked.{SamplesLocked, lock-SamplesLocked}
use sartoriuslib.Sinks.Pipe.{Received, values, pipe}
use sartoriuslib.Sinks.Pipe.Delivery.{all_samples}
use sartoriuslib.Sinks.Pipe.Open.{pipe_complete}
use sartoriuslib.Sinks.Memory.{InMemorySink, is_open, memory_sink, memory_accepting}
use sartoriuslib.Sinks.Csv.{new_csv_sink}
use sartoriuslib.Sinks.Csv.Table.{Call, open_it, write_it, close_it, run, IsTable, run-IsTable}
use sartoriuslib.Streaming.{Host, Sample, AcquisitionSummary}

-- Times are numbers, and every text is short.
abbrev pub small_host : Host
small_host = record {
  Time = ℕ;
  Delta = ℕ;
  subtract = λ later earlier. later - earlier;
  halve = λ delta. delta / 2;
  add = λ time delta. time + delta;
  total_seconds = λ delta. delta;
  half_seconds = λ seconds. seconds / 2;
  isoformat = λ time. "2026-01-01T00:00:00+00:00";
  double = λ value. 0;
  hex = λ raw. "00";
  qualified_name = λ kind. "sartoriuslib.errors.SartoriusTimeoutError";
}

-- A poll that failed.
abbrev pub failed_sample : Sample small_host
failed_sample = record {
  device = "bal1";
  reading = none;
  t_mono_ns = 15;
  t_utc = 15;
  requested_at = 10;
  received_at = 20;
  latency_s = 10;
  protocol = some xbpi;
  t_midpoint_mono_ns = none;
  metadata = [];
  error = some (record { kind = timeout; message = "no reply"; protocol = some "xbpi" });
}

-- A column that holds an integer, a float and nothing.
abbrev mixed : List Row
mixed = (("a", int (pos 1)) ∷ []) ∷ (("a", float 7) ∷ ("b", str "x") ∷ []) ∷ (("a", null) ∷ []) ∷ []

infer_column-policy_example :
    infer_column "a" mixed ≡ record { name = "a"; python_type = float_type; nullable = true }
unfolding type_of same_type is_number get
infer_column-policy_example = infer_column-policy "a" mixed

abbrev two_columns : List ColumnSpec
two_columns =
    record { name = "a"; python_type = int_type; nullable = false }
    ∷ record { name = "b"; python_type = str_type; nullable = true }
    ∷ []

abbrev two_locked : SchemaLock
two_locked = record {
  columns = some two_columns;
  names = "a" ∷ "b" ∷ [];
  unknown_warned = [];
  warnings = [];
}

two_locked-IsLockedTo : IsLockedTo two_columns two_locked
two_locked-IsLockedTo = record { locked = refl; named = refl; distinct = (refl, (refl, tt)) }

abbrev wide_row : Row
wide_row = ("c", int (pos 3)) ∷ ("a", int (pos 1)) ∷ []

project-Projected_example :
    (out : Row) × ((project wide_row two_locked).0 ≡ ok out) × Projected two_columns wide_row out
project-Projected_example =
    project-Projected two_columns wide_row two_locked two_locked-IsLockedTo (refl, (refl, tt))

project_all-Warned_example :
    Warned ("c" ∷ "a" ∷ "c" ∷ "a" ∷ []) (project_all (wide_row ∷ wide_row ∷ []) two_locked).1
    × IsLockedTo two_columns (project_all (wide_row ∷ wide_row ∷ []) two_locked).1
project_all-Warned_example =
    project_all-Warned (wide_row ∷ wide_row ∷ []) [] two_locked two_locked-IsLockedTo
      (record { logged = refl; once = tt; unknown = λ k. refl })

lock-SamplesLocked_example :
    (columns : List ColumnSpec) × ((lock
        (map (sample_to_row small_host) (failed_sample ∷ []))
        new_lock).0
      ≡ ok columns)
    × SamplesLocked (map (sample_to_row small_host) (failed_sample ∷ [])) columns
unfolding new_lock is_locked
lock-SamplesLocked_example = lock-SamplesLocked small_host failed_sample [] new_lock refl

abbrev open_memory_sink : InMemorySink small_host
open_memory_sink = record { samples = []; opened = true; closed = false }

abbrev two_batches : List (Received small_host)
two_batches =
    record { batch = ("bal1", failed_sample) ∷ []; now = 5 }
    ∷ record { batch = ("bal1", failed_sample) ∷ ("bal2", failed_sample) ∷ []; now = 15 }
    ∷ []

pipe_complete_example :
    (summary : AcquisitionSummary) × ((pipe
        (memory_sink small_host)
        2
        100
        two_batches
        0
        open_memory_sink).0
      ≡ ok summary)
    × ((pipe (memory_sink small_host) 2 100 two_batches 0 open_memory_sink).1.samples
        ≡ map (λ sample. sample) (all_samples two_batches))
    × (summary.samples_emitted ≡ 3)
unfolding is_open values
pipe_complete_example =
    pipe_complete (memory_sink small_host) (memory_accepting small_host) 2 100 two_batches 0
      open_memory_sink (omega arith) (omega arith) refl

abbrev csv_calls : List (Call small_host)
csv_calls =
    open_it
    ∷ write_it (failed_sample ∷ [])
    ∷ close_it
    ∷ write_it (failed_sample ∷ [])
    ∷ open_it
    ∷ []

run-IsTable_example :
    IsTable (run csv_calls new_csv_sink).lines × ((run csv_calls new_csv_sink).warnings ≡ [])
run-IsTable_example = run-IsTable csv_calls
