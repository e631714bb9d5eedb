-- ===== src/Sinks/Schema.antt =====
-- sinks/_schema.py: the schema that the first batch locks. The sets of names are lists; the logger is the list of the
-- columns that it was warned of, the latest first.
pub mod Inference
pub mod Locking
pub mod Projection
pub mod Warnings
use sartoriuslib.Prelude.{
  String, Option, none, some, List, [], ◌∷◌, ◌++◌, map, Bool, true, false, not, ◌&&◌, ◌||◌,
  if◌then◌else◌,
}
use sartoriuslib.Prelude.Dict.{get, put}
use sartoriuslib.Errors.{runtime_error, value_error}
use sartoriuslib.Errors.Result.{Result}
use sartoriuslib.Errors.Exec.{Exec, pure, raise, ◌>>=◌}
use sartoriuslib.Prelude.Names.{keys, mem}
use sartoriuslib.Sinks.{
  Cell, null, ScalarType, float_type, int_type, str_type, bool_type, other_type, Row, type_of,
  same_type,
}

pub record ColumnSpec : Type 0 where
  pub name : String
  pub python_type : ScalarType
  pub nullable : Bool

pub record SchemaLock : Type 0 where
  pub columns : Option (List ColumnSpec)
  pub names : List String
  pub unknown_warned : List String
  pub warnings : List String

unfoldable pub new_lock : SchemaLock
new_lock = record { columns = none; names = []; unknown_warned = []; warnings = [] }

unfoldable pub is_locked : SchemaLock → Bool
is_locked s = elim s.columns [ none ↦ false | some columns ↦ true ]

-- {inferred, value_type} <= {int, float}
unfoldable pub is_number : ScalarType → Bool
is_number float_type = true
is_number int_type = true
is_number t = false

unfoldable pub widen : ScalarType → ScalarType → ScalarType
widen inferred value_type =
    if same_type inferred value_type
    then inferred
    else if is_number inferred && is_number value_type
    then float_type
    else str_type

-- The loop's two variables.
pub record Inferred : Type 0 where
  pub inferred : Option ScalarType
  pub nullable : Bool

unfoldable pub note_type : Option ScalarType → ScalarType → ScalarType
note_type none value_type = value_type
note_type (some inferred) value_type = widen inferred value_type

-- What one row says of the column: it lacks the key, or holds None, or holds a value.
unfoldable pub note_value : Option Cell → Inferred → Inferred
note_value none i = record i { nullable = true }
note_value (some value) i = elim (type_of value) [
  | none ↦ record i { nullable = true }
  | some value_type ↦ record i { inferred = some (note_type i.inferred value_type) }
]

unfoldable pub infer_rows : String → List Row → Inferred → Inferred
infer_rows key [] i = i
infer_rows key (row ∷ rows) i = infer_rows key rows (note_value (get row key) i)

-- inferred not in (float, int, str, bool)
unfoldable pub scalar : ScalarType → ScalarType
scalar (other_type name) = str_type
scalar t = t

unfoldable pub to_spec : String → Inferred → ColumnSpec
to_spec key i = elim i.inferred [
  | none ↦ record { name = key; python_type = str_type; nullable = true }
  | some t ↦ record { name = key; python_type = scalar t; nullable = i.nullable }
]

unfoldable pub infer_column : String → List Row → ColumnSpec
infer_column key rows =
    to_spec key (infer_rows key rows (record { inferred = none; nullable = false }))

-- `seen` holds the same names as `ordered_keys`, and is left out.
unfoldable pub add_keys : List String → List String → List String
add_keys ordered_keys [] = ordered_keys
add_keys ordered_keys (key ∷ rest) =
    add_keys (if mem key ordered_keys then ordered_keys else ordered_keys ++ (key ∷ [])) rest

unfoldable pub order_keys : List String → List Row → List String
order_keys ordered_keys [] = ordered_keys
order_keys ordered_keys (row ∷ rows) = order_keys (add_keys ordered_keys (keys row)) rows

unfoldable pub set_columns : List ColumnSpec → List String → Exec SchemaLock (List ColumnSpec)
set_columns specs names s =
    let locked : SchemaLock = record s { columns = some specs; names = names } in pure specs locked

unfoldable pub lock : List Row → Exec SchemaLock (List ColumnSpec)
unfolding order_keys set_columns
lock [] s = if is_locked s then raise runtime_error s else raise value_error s
lock (row ∷ rows) s =
    let ordered_keys = order_keys [] (row ∷ rows) in
    if is_locked s
    then raise runtime_error s
    else set_columns (map (λ key. infer_column key (row ∷ rows)) ordered_keys) ordered_keys s

unfoldable pub lock_to : List ColumnSpec → Exec SchemaLock (List ColumnSpec)
unfolding set_columns
lock_to [] s = if is_locked s then raise runtime_error s else raise value_error s
lock_to (spec ∷ specs) s =
    if is_locked s
    then raise runtime_error s
    else set_columns (spec ∷ specs) (map ColumnSpec.name (spec ∷ specs)) s

-- {spec.name: None for spec in columns}
unfoldable pub blank : List ColumnSpec → Row → Row
blank [] row = row
blank (spec ∷ specs) row = blank specs (put row spec.name null)

unfoldable pub warn : String → SchemaLock → SchemaLock
warn key s =
    if mem key s.unknown_warned
    then s
    else record s { unknown_warned = key ∷ s.unknown_warned; warnings = key ∷ s.warnings }

unfoldable pub project_items : Row → Row → Exec SchemaLock Row
unfolding warn
project_items [] result s = pure result s
project_items ((key, value) ∷ items) result s =
    project_items items (if mem key s.names then put result key value else result)
      (if mem key s.names then s else warn key s)

unfoldable pub project_to : Option (List ColumnSpec) → Row → Exec SchemaLock Row
unfolding blank project_items
project_to none row s = raise runtime_error s
project_to (some columns) row s = project_items row (blank columns []) s

unfoldable pub project : Row → Exec SchemaLock Row
unfolding project_to
project row s = project_to s.columns row s

unfoldable pub project_all : List Row → Exec SchemaLock (List Row)
unfolding project
project_all [] s = pure [] s
project_all (row ∷ rows) s =
    (do projected ← project row; rest ← project_all rows; pure (projected ∷ rest)) s
