-- ===== src/Sinks/Csv/Table.antt =====
-- What the file holds, whatever the calls of the sink.
use sartoriuslib.Prelude.{
  ◌≡◌, refl, sym, ap, subst, ◌∙◌, String, Option, none, some, List, [], ◌∷◌, ◌++◌, map, length,
  Bool, true, false, if◌then◌else◌,
}
use sartoriuslib.Errors.{runtime_error}
use sartoriuslib.Errors.Exec.{pure, raise}
use sartoriuslib.Prelude.Names.{keys}
use sartoriuslib.Sinks.{Cell, Row}
use sartoriuslib.Sinks.Rows.{sample_to_row}
use sartoriuslib.Sinks.Rows.Schema.{sample_schema, row_fits, sample_to_row-fits, keys_of_fit}
use sartoriuslib.Sinks.Csv.{
  Line, header, cells, CsvSink, new_csv_sink, open_csv, start_writer, warn_unknown, filtered,
  write_row, write_rows, write_locked, write_batch, write_csv, close_csv,
}
use sartoriuslib.Streaming.{Host, Sample}

abbrev pub sample_columns : List String
sample_columns = keys sample_schema

-- Each line is a row with a cell for each column.
abbrev pub AllRows : List Line → Type 0
AllRows [] = Unit
AllRows (header names ∷ lines) = ⊥
AllRows (cells row ∷ lines) = (length row ≡ length sample_columns) × AllRows lines

-- A file is empty, or has the header of the columns of a sample and then rows.
abbrev pub IsTable : List Line → Type 0
IsTable [] = Unit
IsTable (header names ∷ lines) = (names ≡ sample_columns) × AllRows lines
IsTable (cells row ∷ lines) = ⊥

abbrev HasHeader : List Line → Type 0
HasHeader [] = ⊥
HasHeader (line ∷ lines) = Unit

-- The calls of a sink, and a sequence of them; an error leaves the sink to be called again.
pub data Call (k : Host) : Type 0 where
  open_it close_it : Call k
  write_it : List (Sample k) → Call k

unfoldable pub call : {k : Host} → Call k → CsvSink → CsvSink
unfolding open_csv close_csv write_csv
call open_it s = (open_csv s).1
call close_it s = (close_csv s).1
call {k} (write_it samples) s = (write_csv k samples s).1

unfoldable pub run : {k : Host} → List (Call k) → CsvSink → CsvSink
unfolding call
run [] s = s
run (c ∷ calls) s = run calls (call c s)

pub record IsValid (s : CsvSink) : Type 0 where
  pub table : IsTable s.lines
  pub fresh : s.file ≡ true → s.writer ≡ none → s.lines ≡ []
  pub started :
      (names : List String)
      → s.writer ≡ some names
      → (s.columns ≡ some sample_columns) × HasHeader s.lines
  pub resting : s.file ≡ false → s.writer ≡ none
  pub quiet : s.warnings ≡ []

AllRows-append :
    (lines : List Line) (row : List Cell)
    → AllRows lines
    → length row ≡ length sample_columns
    → AllRows (lines ++ cells row ∷ [])
AllRows-append [] row h e = (e, tt)
AllRows-append (header names ∷ lines) row h e = h
AllRows-append (cells c ∷ lines) row (l, h) e = (l, AllRows-append lines row h e)

IsTable-append :
    (lines : List Line) (row : List Cell)
    → HasHeader lines
    → IsTable lines
    → length row ≡ length sample_columns
    → IsTable (lines ++ cells row ∷ []) × HasHeader (lines ++ cells row ∷ [])
IsTable-append [] row n h e = absurd n
IsTable-append (header names ∷ lines) row n (same, h) e = ((same, AllRows-append lines row h e), tt)
IsTable-append (cells c ∷ lines) row n h e = absurd h

-- The rows of samples have no unknown columns.
warn_unknown_none : (s : CsvSink) → warn_unknown sample_columns sample_columns s ≡ s
unfolding warn_unknown
warn_unknown_none s = refl

write_row_lem :
    (s : CsvSink) (row : Row)
    → row_fits sample_schema row ≡ true
    → write_row sample_columns s row
      ≡ record s { lines = s.lines ++ cells (filtered sample_columns row) ∷ [] }
unfolding write_row
write_row_lem s row fit =
    ap with_keys (keys_of_fit sample_schema row fit) ∙ ap with_row (warn_unknown_none s)
  where
    with_row : CsvSink → CsvSink
    with_row w = record w { lines = w.lines ++ cells (filtered sample_columns row) ∷ [] }

    with_keys : List String → CsvSink
    with_keys ks = with_row (warn_unknown sample_columns ks s)

-- A sink whose writer was started, with what stays while rows are written.
record Written (s q : CsvSink) : Type 0 where
  table : IsTable q.lines
  begun : HasHeader q.lines
  same_file : q.file ≡ s.file
  same_writer : q.writer ≡ s.writer
  same_columns : q.columns ≡ s.columns
  quiet : q.warnings ≡ []

write_rows-Written :
    (k : Host) (samples : List (Sample k)) (s q : CsvSink)
    → Written s q
    → Written s (write_rows sample_columns (map (sample_to_row k) samples) q)
unfolding write_rows
write_rows-Written k [] s q w = w
write_rows-Written k (sample ∷ samples) s q w =
    write_rows-Written k samples s (write_row sample_columns q (sample_to_row k sample)) (
      subst (Written s)
        (sym (write_row_lem q (sample_to_row k sample) (sample_to_row-fits k sample))) next)
  where
    row : List Cell
    row = filtered sample_columns (sample_to_row k sample)

    added : IsTable (q.lines ++ cells row ∷ []) × HasHeader (q.lines ++ cells row ∷ [])
    added = IsTable-append q.lines row w.begun w.table refl

    next : Written s (record q { lines = q.lines ++ cells row ∷ [] })
    next = record {
      table = added.0;
      begun = added.1;
      same_file = w.same_file;
      same_writer = w.same_writer;
      same_columns = w.same_columns;
      quiet = w.quiet;
    }

true≢false : true ≡ false → ⊥
true≢false h = cc

some≢none : {names : List String} → some names ≡ none → ⊥
some≢none h = cc

Written-IsValid :
    {s q : CsvSink}
    → Written s q
    → s.file ≡ true
    → (names : List String) → s.writer ≡ some names
    → s.columns ≡ some sample_columns
    → IsValid q
Written-IsValid w is_open names writing locked = record {
  table = w.table;
  fresh = λ f none_left. absurd (some≢none (sym writing ∙ sym w.same_writer ∙ none_left));
  started = λ ns e. (w.same_columns ∙ locked, w.begun);
  resting = λ f. absurd (true≢false (sym is_open ∙ sym w.same_file ∙ f));
  quiet = w.quiet;
}

write_batch-IsValid :
    (k : Host) (samples : List (Sample k)) (s : CsvSink)
    → s.file ≡ true
    → IsValid s
    → IsValid (write_batch (map (sample_to_row k) samples) s)
unfolding write_batch write_locked start_writer
write_batch-IsValid k [] s is_open v = v
write_batch-IsValid k (sample ∷ samples) s is_open v = by_writer s.writer refl
  where
    row : Row
    row = sample_to_row k sample

    begun_with : List String → List Line → CsvSink
    begun_with names lines = record s {
      columns = some names;
      writer = some names;
      lines = lines ++ header names ∷ [];
    }

    begun : CsvSink
    begun = begun_with sample_columns []

    start_begun : s.writer ≡ none → start_writer none row s ≡ begun
    start_begun e =
        ap (λ names. begun_with names s.lines)
          (keys_of_fit sample_schema row (sample_to_row-fits k sample))
        ∙ ap (begun_with sample_columns) (v.fresh is_open e)

    by_writer :
        (o : Option (List String))
        → s.writer ≡ o
        → IsValid (
            write_locked
              (start_writer o row s).columns
              (row ∷ map (sample_to_row k) samples)
              (start_writer o row s))
    by_writer none e =
        let w : Written begun begun = record {
          table = (refl, tt);
          begun = tt;
          same_file = refl;
          same_writer = refl;
          same_columns = refl;
          quiet = v.quiet;
        } in
        subst (λ q. IsValid (write_locked q.columns (row ∷ map (sample_to_row k) samples) q))
          (sym (start_begun e))
          (Written-IsValid (write_rows-Written k (sample ∷ samples) begun begun w) is_open
            sample_columns refl refl)
    by_writer (some names) e =
        let (locked, has) = v.started names e in
        let w : Written s s = record {
          table = v.table;
          begun = has;
          same_file = refl;
          same_writer = refl;
          same_columns = refl;
          quiet = v.quiet;
        } in
        subst (λ c. IsValid (write_locked c (row ∷ map (sample_to_row k) samples) s)) (sym locked)
          (Written-IsValid (write_rows-Written k (sample ∷ samples) s s w) is_open names e locked)

call-IsValid : {k : Host} (c : Call k) (s : CsvSink) → IsValid s → IsValid (call c s)
unfolding call open_csv close_csv write_csv
call-IsValid open_it s v = by_file s.file refl
  where
    opened : CsvSink
    opened = record s { lines = []; file = true }

    by_file : (b : Bool) → s.file ≡ b → IsValid (if b then pure tt s else pure tt opened).1
    by_file true e = v
    by_file false e = record {
      table = tt;
      fresh = λ f n. refl;
      started = λ names w. absurd (some≢none (sym w ∙ v.resting e));
      resting = λ f. absurd (true≢false f);
      quiet = v.quiet;
    }
call-IsValid close_it s v = by_file s.file refl
  where
    closed : CsvSink
    closed = record s { file = false; writer = none }

    by_file : (b : Bool) → s.file ≡ b → IsValid (if b then pure tt closed else pure tt s).1
    by_file true e = record {
      table = v.table;
      fresh = λ f n. absurd (true≢false (sym f));
      started = λ names w. absurd (some≢none (sym w));
      resting = λ f. refl;
      quiet = v.quiet;
    }
    by_file false e = v
call-IsValid {k} (write_it samples) s v = by_file s.file refl
  where
    by_file :
        (b : Bool)
        → s.file ≡ b
        → IsValid
            (if b
              then pure tt (write_batch (map (sample_to_row k) samples) s)
              else raise runtime_error s).1
    by_file true e = write_batch-IsValid k samples s e v
    by_file false e = v

new_IsValid : IsValid new_csv_sink
unfolding new_csv_sink
new_IsValid = record {
  table = tt;
  fresh = λ f n. refl;
  started = λ names w. absurd (some≢none (sym w));
  resting = λ f. refl;
  quiet = refl;
}

pub run-IsValid :
    {k : Host} (calls : List (Call k)) (s : CsvSink) → IsValid s → IsValid (run calls s)
unfolding run
run-IsValid [] s v = v
run-IsValid (c ∷ calls) s v = run-IsValid calls (call c s) (call-IsValid c s v)

-- Whatever calls a new CSV sink has had, in whatever order, its file is empty or has the header of the columns of
-- a sample and then rows with a cell for each column, and it has warned of no column.
pub run-IsTable :
    {k : Host} (calls : List (Call k))
    → IsTable (run calls new_csv_sink).lines × ((run calls new_csv_sink).warnings ≡ [])
run-IsTable calls = let v = run-IsValid calls new_csv_sink new_IsValid in (v.table, v.quiet)
