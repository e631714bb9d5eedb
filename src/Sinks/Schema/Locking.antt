-- ===== src/Sinks/Schema/Locking.antt =====
-- Locking a schema to its first batch, once.
use sartoriuslib.Prelude.{
  ◌≡◌, refl, sym, ap, ◌∙◌, String, List, [], ◌∷◌, ◌++◌, map, Bool, true, false, ◌||◌, if◌then◌else◌,
  arith, eq_iff,
}
use sartoriuslib.Errors.{runtime_error}
use sartoriuslib.Errors.Result.{ok, err}
use sartoriuslib.Prelude.Names.{keys, mem, Distinct}
use sartoriuslib.Sinks.{Row}
use sartoriuslib.Prelude.Names.{mem-append, Distinct-snoc}
use sartoriuslib.Sinks.Schema.{
  ColumnSpec, SchemaLock, is_locked, infer_column, add_keys, order_keys, set_columns, lock, lock_to,
}
use sartoriuslib.Sinks.Schema.Inference.{infer_column-policy}
use sartoriuslib.Sinks.Schema.Projection.{IsLockedTo}
use sartoriuslib.Sinks.Schema.Warnings.{all_keys}

-- The names so far, and what the next names make of them: no name twice, and every name that was shown.
add_keys-Distinct : (ks ordered : List String) → Distinct ordered → Distinct (add_keys ordered ks)
unfolding add_keys
add_keys-Distinct [] ordered d = d
add_keys-Distinct (k ∷ ks) ordered d =
    add_keys-Distinct ks (if mem k ordered then ordered else ordered ++ k ∷ [])
      (by_cases (mem k ordered) refl)
  where
    by_cases : (b : Bool) → mem k ordered ≡ b → Distinct (if b then ordered else ordered ++ k ∷ [])
    by_cases true e = d
    by_cases false e = Distinct-snoc ordered k d e

mem-add_keys :
    (j : String) (ks ordered : List String)
    → mem j (add_keys ordered ks) ≡ (mem j ordered || mem j ks)
unfolding add_keys
mem-add_keys j [] ordered = ground arith
mem-add_keys j (k ∷ ks) ordered = ground (
  arith,
  mem-add_keys j ks (if mem k ordered then ordered else ordered ++ k ∷ []),
  mem-append j ordered (k ∷ []),
  eq_iff k j,
)

order_keys-Distinct :
    (rows : List Row) (ordered : List String)
    → Distinct ordered
    → Distinct (order_keys ordered rows)
unfolding order_keys
order_keys-Distinct [] ordered d = d
order_keys-Distinct (row ∷ rows) ordered d =
    order_keys-Distinct rows (add_keys ordered (keys row)) (add_keys-Distinct (keys row) ordered d)

mem-order_keys :
    (j : String) (rows : List Row) (ordered : List String)
    → mem j (order_keys ordered rows) ≡ (mem j ordered || mem j (all_keys rows))
unfolding order_keys
mem-order_keys j [] ordered = ground arith
mem-order_keys j (row ∷ rows) ordered = ground (
  arith,
  mem-order_keys j rows (add_keys ordered (keys row)),
  mem-add_keys j (keys row) ordered,
  mem-append j (keys row) (all_keys rows),
)

pub names-infer :
    (rows : List Row) (ks : List String)
    → map ColumnSpec.name (map (λ k. infer_column k rows) ks) ≡ ks
names-infer rows [] = refl
names-infer rows (k ∷ ks) =
    ap (λ name. name ∷ map ColumnSpec.name (map (λ j. infer_column j rows) ks))
      (ap ColumnSpec.name (infer_column-policy k rows))
    ∙ ap (λ names. k ∷ names) (names-infer rows ks)

-- A lock that was taken from a first batch.
pub record LockedBy (rows : List Row) (columns : List ColumnSpec) (s : SchemaLock) : Type 0 where
  pub locked_to : IsLockedTo columns s
  pub every_key : (k : String) → mem k s.names ≡ mem k (all_keys rows)
  pub in_order : s.names ≡ order_keys [] rows
  pub inferred : columns ≡ map (λ key. infer_column key rows) s.names

pub lock-LockedBy :
    (row : Row) (rows : List Row) (s : SchemaLock)
    → is_locked s ≡ false
    → (columns : List ColumnSpec) × ((lock (row ∷ rows) s).0 ≡ ok columns)
      × LockedBy (row ∷ rows) columns (lock (row ∷ rows) s).1
unfolding lock set_columns
lock-LockedBy row rows s free = rw free (
  map (λ key. infer_column key (row ∷ rows)) ordered,
  refl,
  record {
    locked_to = record {
      locked = refl;
      named = sym (names-infer (row ∷ rows) ordered);
      distinct = order_keys-Distinct (row ∷ rows) [] tt;
    };
    every_key = λ k. mem-order_keys k (row ∷ rows) [];
    in_order = refl;
    inferred = refl;
  },
)
  where
    ordered : List String
    ordered = order_keys [] (row ∷ rows)

-- A lock is taken once: from then on both ways to lock raise, and change nothing.
pub locked_once :
    (s : SchemaLock)
    → is_locked s ≡ true
    → ((rows : List Row) → lock rows s ≡ (err runtime_error, s))
      × ((specs : List ColumnSpec) → lock_to specs s ≡ (err runtime_error, s))
unfolding lock lock_to
locked_once s h = (of_rows, of_specs)
  where
    of_rows : (rows : List Row) → lock rows s ≡ (err runtime_error, s)
    of_rows [] = rw h
    of_rows (row ∷ rows) = rw h

    of_specs : (specs : List ColumnSpec) → lock_to specs s ≡ (err runtime_error, s)
    of_specs [] = rw h
    of_specs (spec ∷ specs) = rw h
