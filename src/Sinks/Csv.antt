-- ===== src/Sinks/Csv.antt =====
-- sinks/csv.py. The file is the list of its lines, each the cells that the csv module is given to write; the file system
-- does not fail. The logger is the list of the columns that it was warned of, the latest first.
pub mod Table
use sartoriuslib.Prelude.{
  String, Option, none, some, List, [], ◌∷◌, ◌++◌, map, Bool, true, false, if◌then◌else◌,
}
use sartoriuslib.Prelude.Dict.{get}
use sartoriuslib.Errors.{runtime_error}
use sartoriuslib.Errors.Exec.{Exec, pure, raise}
use sartoriuslib.Prelude.Names.{keys, mem}
use sartoriuslib.Sinks.{Cell, null, Row}
use sartoriuslib.Sinks.Rows.{sample_to_row}
use sartoriuslib.Streaming.{Host, Sample}

pub data Line : Type 0 where
  header : List String → Line
  cells : List Cell → Line

-- `lines` is what stands in the file; `file` tells whether it is open. The writer is the list of its field names.
pub record CsvSink : Type 0 where
  pub lines : List Line
  pub file : Bool
  pub writer : Option (List String)
  pub columns : Option (List String)
  pub unknown_columns_warned : List String
  pub warnings : List String

unfoldable pub new_csv_sink : CsvSink
new_csv_sink = record {
  lines = [];
  file = false;
  writer = none;
  columns = none;
  unknown_columns_warned = [];
  warnings = [];
}

-- Opening for writing empties the file.
unfoldable pub open_csv : Exec CsvSink (Unit {0})
open_csv s = if s.file then pure tt s else pure tt (record s { lines = []; file = true })

-- if self._writer is None: lock the columns, and write the header.
unfoldable pub start_writer : Option (List String) → Row → CsvSink → CsvSink
start_writer (some fieldnames) row s = s
start_writer none row s = record s {
  columns = some (keys row);
  writer = some (keys row);
  lines = s.lines ++ header (keys row) ∷ [];
}

unfoldable pub warn_column : String → CsvSink → CsvSink
warn_column key s = if mem key s.unknown_columns_warned then s else record s {
  unknown_columns_warned = key ∷ s.unknown_columns_warned;
  warnings = key ∷ s.warnings;
}

unfoldable pub warn_unknown : List String → List String → CsvSink → CsvSink
unfolding warn_column
warn_unknown columns [] s = s
warn_unknown columns (key ∷ rest) s =
    warn_unknown columns rest (if mem key columns then s else warn_column key s)

-- row.get(k)
unfoldable pub cell_of : Option Cell → Cell
cell_of none = null
cell_of (some value) = value

-- {k: row.get(k) for k in columns}, as the writer writes it.
unfoldable pub filtered : List String → Row → List Cell
unfolding cell_of
filtered columns row = map (λ key. cell_of (get row key)) columns

unfoldable pub write_row : List String → CsvSink → Row → CsvSink
unfolding warn_unknown filtered
write_row columns s row =
    let warned = warn_unknown columns (keys row) s in
    record warned { lines = warned.lines ++ cells (filtered columns row) ∷ [] }

unfoldable pub write_rows : List String → List Row → CsvSink → CsvSink
unfolding write_row
write_rows columns [] s = s
write_rows columns (row ∷ rows) s = write_rows columns rows (write_row columns s row)

-- columns = self._columns
unfoldable pub write_locked : Option (List String) → List Row → CsvSink → CsvSink
unfolding write_rows
write_locked none rows s = s
write_locked (some columns) rows s = write_rows columns rows s

unfoldable pub write_batch : List Row → CsvSink → CsvSink
unfolding start_writer write_locked
write_batch [] s = s
write_batch (row ∷ rows) s =
    let started = start_writer s.writer row s in write_locked started.columns (row ∷ rows) started

unfoldable pub write_csv : (k : Host) → List (Sample k) → Exec CsvSink (Unit {0})
unfolding write_batch
write_csv k samples s =
    if s.file
    then pure tt (write_batch (map (sample_to_row k) samples) s)
    else raise runtime_error s

unfoldable pub close_csv : Exec CsvSink (Unit {0})
close_csv s = if s.file then pure tt (record s { file = false; writer = none }) else pure tt s
