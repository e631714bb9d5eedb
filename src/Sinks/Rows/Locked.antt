-- ===== src/Sinks/Rows/Locked.antt =====
-- The columns that a batch of samples locks.
use mathlib.Core.Bool.{and-eq-true_iff}
use sartoriuslib.Prelude.{
  ◌≡◌, refl, sym, ap, subst, ◌∙◌, inl, inr, String, Option, none, some, List, [], ◌∷◌, map, All,
  Bool, true, false, ◌&&◌, ◌||◌, arith, str_eq, eq_iff, Bool-cases,
}
use sartoriuslib.Prelude.Dict.{Dict, get}
use sartoriuslib.Errors.Result.{ok}
use sartoriuslib.Prelude.Names.{keys}
use sartoriuslib.Sinks.{
  Cell, ScalarType, float_type, int_type, str_type, bool_type, other_type, Row, type_of, same_type,
}
use sartoriuslib.Sinks.Schema.{
  ColumnSpec, SchemaLock, is_locked, is_number, scalar, infer_column, add_keys, order_keys, lock,
}
use sartoriuslib.Sinks.Schema.Inference.{
  value_types, value_types_at, has_gap, policy, all_types, infer_column-policy,
}
use sartoriuslib.Sinks.Schema.Locking.{lock-LockedBy, names-infer}
use sartoriuslib.Sinks.Rows.{sample_to_row}
use sartoriuslib.Sinks.Rows.Schema.{
  sample_schema, fits, row_fits, sample_to_row-fits, column_of_fit, keys_of_fit,
}
use sartoriuslib.Streaming.{Host, Sample}

-- The rows of a batch all fit the schema.
abbrev AllFit : Dict ScalarType → List Row → Type 0
AllFit schema rows = All (λ row. row_fits schema row ≡ true) rows

samples_fit :
    (k : Host) (samples : List (Sample k)) → AllFit sample_schema (map (sample_to_row k) samples)
samples_fit k [] = tt
samples_fit k (sample ∷ samples) = (sample_to_row-fits k sample, samples_fit k samples)

order_rest :
    (rows : List Row)
    → AllFit sample_schema rows
    → order_keys (keys sample_schema) rows ≡ keys sample_schema
unfolding order_keys add_keys
order_rest [] h = refl
order_rest (row ∷ rows) (fit, h) =
    ap (λ ks. order_keys (add_keys (keys sample_schema) ks) rows)
      (keys_of_fit sample_schema row fit)
    ∙ order_rest rows h

order_all :
    (row : Row) (rows : List Row)
    → AllFit sample_schema (row ∷ rows)
    → order_keys [] (row ∷ rows) ≡ keys sample_schema
unfolding order_keys add_keys
order_all row rows (fit, h) =
    ap (λ ks. order_keys (add_keys [] ks) rows) (keys_of_fit sample_schema row fit)
    ∙ order_rest rows h

-- Values that fit a column are of its type.
value_types-All :
    (schema : Dict ScalarType) (name : String) (t : ScalarType) (rows : List Row)
    → get schema name ≡ some t
    → AllFit schema rows
    → All (λ u. same_type t u ≡ true) (value_types name rows)
value_types-All schema name t [] e h = tt
value_types-All schema name t (row ∷ rows) e (fit, h) =
    let (value, held, typed) = column_of_fit schema row name t fit e in
    rw held (of_value value typed (value_types-All schema name t rows e h))
  where
    of_value :
        (value : Cell)
        → fits t value ≡ true
        → All (λ u. same_type t u ≡ true) (value_types name rows)
        → All (λ u. same_type t u ≡ true) (value_types_at (some value) (value_types name rows))
    of_value value typed later = at_type (type_of value) typed
      where
        at_type :
            (o : Option ScalarType)
            → elim o [ none ↦ true | some u ↦ same_type t u ] ≡ true
            → All
                (λ u. same_type t u ≡ true)
                (elim o [ none ↦ value_types name rows | some u ↦ u ∷ value_types name rows ])
        at_type none typed = later
        at_type (some u) typed = (typed, later)

same_type_sound : (t u : ScalarType) → same_type t u ≡ true → t ≡ u
unfolding same_type
same_type_sound float_type float_type h = refl
same_type_sound int_type int_type h = refl
same_type_sound str_type str_type h = refl
same_type_sound bool_type bool_type h = refl
same_type_sound (other_type a) (other_type b) h = ap other_type ((eq_iff a b).0 h)
same_type_sound _ _ h = cc

all_types-same :
    (p : ScalarType → Bool) (t : ScalarType) (ts : List ScalarType)
    → p t ≡ true
    → All (λ u. same_type t u ≡ true) ts
    → all_types p ts ≡ true
all_types-same p t [] e h = refl
all_types-same p t (u ∷ ts) e (same, h) =
    rw (subst (λ s. p s ≡ true) (same_type_sound t u same) e) (all_types-same p t ts e h)

policy-same :
    (t : ScalarType) (ts : List ScalarType)
    → scalar t ≡ t
    → All (λ u. same_type t u ≡ true) ts
    → policy (t ∷ ts) ≡ t
unfolding scalar same_type is_number
policy-same float_type ts s h = rw (all_types-same is_number float_type ts refl h)
policy-same int_type ts s h = rw (all_types-same (same_type int_type) int_type ts refl h)
policy-same str_type ts s h = refl
policy-same bool_type ts s h = rw (all_types-same (same_type bool_type) bool_type ts refl h)
policy-same (other_type n) ts s h = s

-- A column, by the types of the values that the rows have for it: without a value it is text that may be missing, and
-- otherwise it has the declared type, and may be missing where a row has no value.
abbrev pub TypedBy : List Row → ScalarType → List ScalarType → ColumnSpec → Type 0
TypedBy rows t [] spec = (spec.python_type ≡ str_type) × (spec.nullable ≡ true)
TypedBy rows t (u ∷ ts) spec = (spec.python_type ≡ t) × (spec.nullable ≡ has_gap spec.name rows)

abbrev pub Typed : List Row → ScalarType → ColumnSpec → Type 0
Typed rows t spec = TypedBy rows t (value_types spec.name rows) spec

infer_column-Typed :
    (name : String) (t : ScalarType) (rows : List Row)
    → scalar t ≡ t
    → All (λ u. same_type t u ≡ true) (value_types name rows)
    → Typed rows t (infer_column name rows)
infer_column-Typed name t rows s h =
    rw (infer_column-policy name rows) (of_types (value_types name rows) h)
  where
    of_types :
        (ts : List ScalarType)
        → All (λ u. same_type t u ≡ true) ts
        → TypedBy rows t ts (record {
          name = name;
          python_type = policy ts;
          nullable = elim ts [ [] ↦ true | _ ∷ _ ↦ false ] || has_gap name rows;
        })
    of_types [] h = (refl, refl)
    of_types (u ∷ ts) (same, h) = (
      ap (λ (v : ScalarType). policy (v ∷ ts)) (sym (same_type_sound t u same))
          ∙ policy-same t ts s h,
      refl,
    )

-- Each key of a dictionary of types, with its type.
keys-All :
    (schema : Dict ScalarType) (P : String → Type 0)
    → ((name : String) (t : ScalarType) → get schema name ≡ some t → P name)
    → All P (keys schema)
unfolding get
keys-All [] P h = tt
keys-All ((n, u) ∷ schema) P h = (h n u (ground (arith, eq_iff n n)), keys-All schema P later)
  where
    later : (name : String) (t : ScalarType) → get schema name ≡ some t → P name
    later name t e = elim (Bool-cases (str_eq n name)) [
      | inl same ↦ h name u (rw same)
      | inr other ↦ h name t (rw other e)
    ]

-- Every type of the schema is one that a column can have.
scalars : (schema : Dict ScalarType) → Bool
scalars [] = true
scalars ((n, t) ∷ schema) = same_type (scalar t) t && scalars schema

scalar_of_schema :
    (schema : Dict ScalarType) (name : String) (t : ScalarType)
    → scalars schema ≡ true
    → get schema name ≡ some t
    → scalar t ≡ t
unfolding scalars get
scalar_of_schema [] name t h e = cc
scalar_of_schema ((n, u) ∷ schema) name t h e = elim (Bool-cases (str_eq n name)) [
  | inl same ↦
      let found : u ≡ t = ground (arith, e, same) in
      subst (λ v. scalar v ≡ v) found (same_type_sound (scalar u) u ((and-eq-true_iff _ _).0 h).0)
  | inr other ↦ scalar_of_schema schema name t ((and-eq-true_iff _ _).0 h).1 (rw other at e)
]

All-map :
    {A B : Type 0} (P : B → Type 0) (f : A → B) (xs : List A)
    → All (λ x. P (f x)) xs
    → All P (map f xs)
All-map P f [] h = tt
All-map P f (x ∷ xs) (p, h) = (p, All-map P f xs h)

-- A column whose name is one of the schema.
abbrev pub TypedName : List Row → ColumnSpec → Type 0
TypedName rows spec = (t : ScalarType) × (get sample_schema spec.name ≡ some t) × Typed rows t spec

-- What the rows of a batch of samples lock: the columns of the schema, in its order, each of its type, or as text that
-- may be missing where no row has a value.
pub record SamplesLocked (rows : List Row) (columns : List ColumnSpec) : Type 0 where
  pub named : map ColumnSpec.name columns ≡ keys sample_schema
  pub typed : All (TypedName rows) columns

all_scalar : scalars sample_schema ≡ true
unfolding scalars scalar same_type
all_scalar = refl

columns_of :
    (rows : List Row)
    → AllFit sample_schema rows
    → SamplesLocked rows (map (λ key. infer_column key rows) (keys sample_schema))
columns_of rows fit = record {
  named = names-infer rows (keys sample_schema);
  typed =
      All-map (TypedName rows) (λ key. infer_column key rows) (keys sample_schema)
        (keys-All sample_schema (λ key. TypedName rows (infer_column key rows)) each);
}
  where
    each :
        (key : String) (t : ScalarType)
        → get sample_schema key ≡ some t
        → TypedName rows (infer_column key rows)
    each key t e = (
      t,
      subst (λ name. get sample_schema name ≡ some t)
          (sym (ap ColumnSpec.name (infer_column-policy key rows))) e,
      infer_column-Typed key t rows (scalar_of_schema sample_schema key t (all_scalar) e)
          (value_types-All sample_schema key t rows e fit),
    )

-- On a schema that is not locked, a batch of samples, of whatever readings and failures, locks the columns of the
-- sample rows in their order: as text that may be missing where no row of the batch has a value for the column,
-- and otherwise with its own type, and as one that may be missing exactly where a row has no value.
pub lock-SamplesLocked :
    (k : Host) (sample : Sample k) (samples : List (Sample k)) (s : SchemaLock)
    → is_locked s ≡ false
    → (columns : List ColumnSpec) × ((lock (map (sample_to_row k) (sample ∷ samples)) s).0
        ≡ ok columns)
      × SamplesLocked (map (sample_to_row k) (sample ∷ samples)) columns
lock-SamplesLocked k sample samples s free =
    let rows : List Row = map (sample_to_row k) (sample ∷ samples) in
    let (columns, returned, l) =
      lock-LockedBy (sample_to_row k sample) (map (sample_to_row k) samples) s free in
    let named =
      l.in_order
      ∙ order_all (sample_to_row k sample) (map (sample_to_row k) samples)
          (samples_fit k (sample ∷ samples)) in
    (
      columns,
      returned,
      subst (SamplesLocked rows) (sym (l.inferred ∙ ap (map (λ key. infer_column key rows)) named))
          (columns_of rows (samples_fit k (sample ∷ samples))),
    )
