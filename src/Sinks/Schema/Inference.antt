-- ===== src/Sinks/Schema/Inference.antt =====
-- The type and the nullability that are inferred for a column.
use sartoriuslib.Prelude.{
  ◌≡◌, refl, sym, ap, ◌∙◌, String, Option, none, some, List, [], ◌∷◌, Bool, true, false, ◌&&◌, ◌||◌,
  if◌then◌else◌, arith,
}
use sartoriuslib.Prelude.Dict.{get}
use sartoriuslib.Sinks.{
  Cell, null, float, int, str, bool, object, ScalarType, float_type, int_type, str_type, bool_type,
  other_type, Row, type_of, same_type,
}
use sartoriuslib.Sinks.Schema.{
  ColumnSpec, is_number, widen, note_type, note_value, infer_rows, scalar, to_spec, infer_column,
}

-- What the rows hold under a key: the types of the values, and whether some row has no value.
abbrev pub value_types_at : Option Cell → List ScalarType → List ScalarType
value_types_at none later = later
value_types_at (some value) later = elim (type_of value) [ none ↦ later | some t ↦ t ∷ later ]

abbrev pub value_types : String → List Row → List ScalarType
value_types key [] = []
value_types key (row ∷ rows) = value_types_at (get row key) (value_types key rows)

abbrev pub has_gap_at : Option Cell → Bool → Bool
has_gap_at none later = true
has_gap_at (some null) later = true
has_gap_at (some value) later = later

abbrev pub has_gap : String → List Row → Bool
has_gap key [] = false
has_gap key (row ∷ rows) = has_gap_at (get row key) (has_gap key rows)

abbrev pub all_types : (ScalarType → Bool) → List ScalarType → Bool
all_types p [] = true
all_types p (t ∷ ts) = p t && all_types p ts

-- The policy: the type that all values have, float for numbers of both types, and str for every other mix, for values
-- of no scalar type, and where there is no value.
abbrev pub policy : List ScalarType → ScalarType
policy [] = str_type
policy (t ∷ ts) =
    if all_types (same_type bool_type) (t ∷ ts)
    then bool_type
    else if all_types (same_type int_type) (t ∷ ts)
    then int_type
    else if all_types is_number (t ∷ ts)
    then float_type
    else str_type

policy-widen :
    (a t : ScalarType) (ts : List ScalarType) → policy (widen a t ∷ ts) ≡ policy (a ∷ t ∷ ts)
unfolding widen same_type is_number
policy-widen float_type float_type ts = refl
policy-widen int_type float_type ts = refl
policy-widen str_type float_type ts = refl
policy-widen bool_type float_type ts = refl
policy-widen (other_type n) float_type ts = refl
policy-widen (other_type n) (other_type m) ts = ground arith
policy-widen _ _ ts = refl

-- What is known after the rows, from what was known before them.
scalar-policy : (t : ScalarType) → scalar t ≡ policy (t ∷ [])
unfolding scalar same_type is_number
scalar-policy float_type = refl
scalar-policy (other_type n) = refl
scalar-policy _ = refl

abbrev known : Option ScalarType → List ScalarType → List ScalarType
known none ts = ts
known (some t) ts = t ∷ ts

policy-note_type :
    (i : Option ScalarType) (t : ScalarType) (ts : List ScalarType)
    → policy (note_type i t ∷ ts) ≡ policy (known i (t ∷ ts))
unfolding note_type
policy-note_type none t ts = refl
policy-note_type (some a) t ts = policy-widen a t ts

-- Whether no value was met, which also makes a column nullable.
abbrev no_types : List ScalarType → Bool
no_types [] = true
no_types (t ∷ ts) = false

-- The column that fits values of the types `ts`, `gap` telling whether some row has no value.
abbrev fitting : String → List ScalarType → Bool → ColumnSpec
fitting key ts gap = record { name = key; python_type = policy ts; nullable = no_types ts || gap }

to_spec_lem :
    (key : String) (o : Option ScalarType) (gap : Bool)
    → to_spec key (record { inferred = o; nullable = gap }) ≡ fitting key (known o []) gap
unfolding to_spec
to_spec_lem key none gap = refl
to_spec_lem key (some t) gap = ground (arith, scalar-policy t)

or-true : (b : Bool) → (b || true) ≡ true
or-true true = refl
or-true false = refl

or-false : (b : Bool) → (b || false) ≡ b
or-false true = refl
or-false false = refl

fitting_typed :
    (key : String) (o : Option ScalarType) (t : ScalarType) (ts : List ScalarType) (gap : Bool)
    → fitting key (note_type o t ∷ ts) gap ≡ fitting key (known o (t ∷ ts)) gap
fitting_typed key none t ts gap =
    ap (λ s. record { name = key; python_type = s; nullable = gap }) (policy-note_type none t ts)
fitting_typed key (some a) t ts gap =
    ap (λ s. record { name = key; python_type = s; nullable = gap })
      (policy-note_type (some a) t ts)

note_value-fitting :
    (key : String) (cell : Option Cell) (o : Option ScalarType) (gap : Bool) (rows : List Row)
    → ((o' : Option ScalarType) (gap' : Bool)
        → to_spec key (infer_rows key rows (record { inferred = o'; nullable = gap' }))
          ≡ fitting key (known o' (value_types key rows)) (gap' || has_gap key rows))
    → to_spec key (infer_rows key rows (note_value cell (record { inferred = o; nullable = gap })))
      ≡ fitting key
          (known o (value_types_at cell (value_types key rows)))
          (gap || has_gap_at cell (has_gap key rows))
unfolding note_value type_of
note_value-fitting key none o gap rows ih =
    ih o true ∙ ap (fitting key (known o (value_types key rows))) (sym (or-true gap))
note_value-fitting key (some null) o gap rows ih =
    ih o true ∙ ap (fitting key (known o (value_types key rows))) (sym (or-true gap))
note_value-fitting key (some (float x)) o gap rows ih =
    ih (some (note_type o float_type)) gap
    ∙ fitting_typed key o float_type (value_types key rows) (gap || has_gap key rows)
note_value-fitting key (some (int x)) o gap rows ih =
    ih (some (note_type o int_type)) gap
    ∙ fitting_typed key o int_type (value_types key rows) (gap || has_gap key rows)
note_value-fitting key (some (str x)) o gap rows ih =
    ih (some (note_type o str_type)) gap
    ∙ fitting_typed key o str_type (value_types key rows) (gap || has_gap key rows)
note_value-fitting key (some (bool x)) o gap rows ih =
    ih (some (note_type o bool_type)) gap
    ∙ fitting_typed key o bool_type (value_types key rows) (gap || has_gap key rows)
note_value-fitting key (some (object n x)) o gap rows ih =
    ih (some (note_type o (other_type n))) gap
    ∙ fitting_typed key o (other_type n) (value_types key rows) (gap || has_gap key rows)

infer_rows-fitting :
    (key : String) (rows : List Row) (o : Option ScalarType) (gap : Bool)
    → to_spec key (infer_rows key rows (record { inferred = o; nullable = gap }))
      ≡ fitting key (known o (value_types key rows)) (gap || has_gap key rows)
unfolding infer_rows
infer_rows-fitting key [] o gap =
    to_spec_lem key o gap ∙ ap (fitting key (known o [])) (sym (or-false gap))
infer_rows-fitting key (row ∷ rows) o gap =
    note_value-fitting key (get row key) o gap rows (infer_rows-fitting key rows)

-- The loop over the rows infers for a column the type of all its values, float where integers and floats mix, and
-- text for every other mix, for values of no scalar type and for no value at all; and the column is nullable
-- exactly where a row has no value for it or there is none.
pub infer_column-policy :
    (key : String) (rows : List Row)
    → infer_column key rows ≡ record {
      name = key;
      python_type = policy (value_types key rows);
      nullable = no_types (value_types key rows) || has_gap key rows;
    }
unfolding infer_column
infer_column-policy key rows = infer_rows-fitting key rows none false
