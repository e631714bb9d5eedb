-- ===== src/Sinks/Jsonl.antt =====
-- sinks/jsonl.py: one JSON object to a line. The json module is a parameter, `dumps`; the file is the list of its lines,
-- and the file system does not fail.
use sartoriuslib.Prelude.{
  ◌≡◌, ◌∙◌, sym, String, List, [], ◌∷◌, ◌++◌, map, append-nil, append_assoc, arith, Bool, true,
  false, if◌then◌else◌,
}
use sartoriuslib.Errors.{runtime_error}
use sartoriuslib.Errors.Result.{ok}
use sartoriuslib.Errors.Exec.{Exec, pure, raise}
use sartoriuslib.Sinks.{Row}
use sartoriuslib.Sinks.Rows.{sample_to_row}
use sartoriuslib.Sinks.Pipe.{SampleSink}
use sartoriuslib.Streaming.{Host, Sample}

pub record JsonlSink : Type 0 where
  pub lines : List String
  pub is_open : Bool

unfoldable pub open_jsonl : Exec JsonlSink (Unit {0})
open_jsonl s = if s.is_open then pure tt s else pure tt (record s { lines = []; is_open = true })

unfoldable pub close_jsonl : Exec JsonlSink (Unit {0})
close_jsonl s = if s.is_open then pure tt (record s { is_open = false }) else pure tt s

module _ (k : Host) (dumps : Row → String) where
  unfoldable pub write_lines : List (Sample k) → List String → List String
  write_lines [] lines = lines
  write_lines (sample ∷ samples) lines =
      write_lines samples (lines ++ dumps (sample_to_row k sample) ∷ [])

  unfoldable pub write_jsonl : List (Sample k) → Exec JsonlSink (Unit {0})
  unfolding write_lines
  write_jsonl samples s =
      if s.is_open
      then pure tt (record s { lines = write_lines samples s.lines })
      else raise runtime_error s

  write_lines_lem :
      (samples : List (Sample k)) (lines : List String)
      → write_lines samples lines ≡ lines ++ map (λ sample. dumps (sample_to_row k sample)) samples
  unfolding write_lines
  write_lines_lem [] lines = sym (append-nil lines)
  write_lines_lem (sample ∷ samples) lines =
      write_lines_lem samples (lines ++ dumps (sample_to_row k sample) ∷ [])
      ∙ append_assoc lines (dumps (sample_to_row k sample) ∷ [])
          (map (λ s. dumps (sample_to_row k s)) samples)

  pub jsonl_appends :
      (samples : List (Sample k)) (s : JsonlSink)
      → (write_jsonl samples s).0 ≡ ok tt
      → (write_jsonl samples s).1.lines
        ≡ s.lines ++ map (λ sample. dumps (sample_to_row k sample)) samples
  unfolding write_jsonl
  jsonl_appends samples s h = ground (arith, write_lines_lem samples s.lines)

  abbrev pub jsonl_sink : SampleSink k JsonlSink String
  jsonl_sink = record {
    open_sink = open_jsonl;
    write_many = write_jsonl;
    close = close_jsonl;
    written = λ s. s.lines;
    render = λ sample. dumps (sample_to_row k sample);
    appends = jsonl_appends;
  }
