-- ===== src/Sinks/Rows/Schema.antt =====
-- The columns of every row, and the types of their values.
use mathlib.Core.Bool.{and-eq-true_iff}
use sartoriuslib.Prelude.Int.{pos}
use sartoriuslib.Prelude.Float32.{Float32}
use sartoriuslib.Prelude.{
  ℕ, ◌≡◌, refl, sym, ap, subst, ◌∙◌, String, Option, none, some, [], ◌∷◌, Bool, true, false, ◌&&◌,
  if◌then◌else◌, arith, str_eq, eq_iff,
}
use sartoriuslib.Prelude.Dict.{Dict, get, put}
use sartoriuslib.Devices.{ProtocolKind}
use sartoriuslib.Devices.Models.{Reading}
use sartoriuslib.Prelude.Names.{keys}
use sartoriuslib.Sinks.{
  Cell, null, float, int, str, ScalarType, float_type, int_type, str_type, Row, type_of, same_type,
}
use sartoriuslib.Sinks.Rows.{
  reading_cells, as_dict, flag, opt_int, opt_float, add_error, update, sample_to_row,
}
use sartoriuslib.Streaming.{Host, Failure, Sample, protocol_value}

abbrev pub sample_schema : Dict ScalarType
sample_schema =
    ("device", str_type)
    ∷ ("t_mono_ns", int_type)
    ∷ ("t_utc", str_type)
    ∷ ("t_midpoint_mono_ns", int_type)
    ∷ ("requested_at", str_type)
    ∷ ("received_at", str_type)
    ∷ ("latency_s", float_type)
    ∷ ("value", float_type)
    ∷ ("unit", str_type)
    ∷ ("sign", str_type)
    ∷ ("stable", int_type)
    ∷ ("overload", int_type)
    ∷ ("underload", int_type)
    ∷ ("decimals", int_type)
    ∷ ("sequence", int_type)
    ∷ ("protocol", str_type)
    ∷ ("raw", str_type)
    ∷ ("error_type", str_type)
    ∷ ("error_message", str_type)
    ∷ []

-- None fits every column.
abbrev pub fits : ScalarType → Cell → Bool
fits t value = elim (type_of value) [ none ↦ true | some u ↦ same_type t u ]

-- The names and the types of a row, in order.
abbrev pub row_fits : Dict ScalarType → Row → Bool
row_fits [] [] = true
row_fits ((name, t) ∷ schema) ((key, value) ∷ row) =
    (str_eq name key && fits t value) && row_fits schema row
row_fits schema row = false

both : {a b : Bool} → a ≡ true → b ≡ true → (a && b) ≡ true
both p q = rw (p, q)

fits-opt_int : (o : Option ℕ) → fits int_type (opt_int o) ≡ true
unfolding opt_int type_of same_type
fits-opt_int none = refl
fits-opt_int (some n) = refl

fits-opt_float : (k : Host) (o : Option Float32) → fits float_type (opt_float k o) ≡ true
unfolding opt_float type_of same_type
fits-opt_float k none = refl
fits-opt_float k (some x) = refl

fits-flag : (b : Bool) → fits int_type (flag b) ≡ true
unfolding flag type_of same_type
fits-flag true = refl
fits-flag false = refl

-- The columns of a reading, or of its absence, and those of the error.
protocol_fits :
    (o : Option ProtocolKind)
    → fits str_type (elim o [ none ↦ null | some protocol ↦ str (protocol_value protocol) ]) ≡ true
unfolding type_of same_type
protocol_fits none = refl
protocol_fits (some protocol) = refl

module _ (k : Host) (sample : Sample k) where
  row_of : Option Reading → Option Failure → Row
  row_of reading error =
      add_error k
        (update
          (("device", str sample.device)
            ∷ ("t_mono_ns", int (pos sample.t_mono_ns))
            ∷ ("t_utc", str (Host.isoformat k sample.t_utc))
            ∷ ("t_midpoint_mono_ns", opt_int sample.t_midpoint_mono_ns)
            ∷ ("requested_at", str (Host.isoformat k sample.requested_at))
            ∷ ("received_at", str (Host.isoformat k sample.received_at))
            ∷ ("latency_s", float sample.latency_s)
            ∷ [])
          (reading_cells k sample reading))
        error

  -- The columns whose values may be missing or are flags, of a row with a reading.
  reading_fits :
      (r : Reading)
      → (fits int_type (opt_int sample.t_midpoint_mono_ns)
          && (fits float_type (opt_float k r.value)
              && (fits int_type (flag r.stable)
                  && (fits int_type (flag r.overload)
                      && (fits int_type (flag r.underload)
                          && (fits int_type (opt_int r.decimals)
                              && (fits int_type (opt_int r.sequence) && true)))))))
        ≡ true
  reading_fits r = both (fits-opt_int sample.t_midpoint_mono_ns) (
      both (fits-opt_float k r.value) (
        both (fits-flag r.stable) (
          both (fits-flag r.overload) (
            both (fits-flag r.underload)
              (both (fits-opt_int r.decimals) (both (fits-opt_int r.sequence) refl))))))

  row_of_fits :
      (reading : Option Reading) (error : Option Failure)
      → row_fits sample_schema (row_of reading error) ≡ true
  unfolding row_of add_error update reading_cells as_dict put type_of same_type
  row_of_fits none none =
      both (fits-opt_int sample.t_midpoint_mono_ns) (both (protocol_fits sample.protocol) refl)
  row_of_fits (some r) none = reading_fits r
  row_of_fits none (some e) =
      both (fits-opt_int sample.t_midpoint_mono_ns) (both (protocol_fits sample.protocol) refl)
  row_of_fits (some r) (some e) = reading_fits r

  -- The type of every row: the same columns in the same order, each of one type where it has a value.
  pub sample_to_row-fits : row_fits sample_schema (sample_to_row k sample) ≡ true
  unfolding sample_to_row row_of
  sample_to_row-fits = row_of_fits sample.reading sample.error

fit_parts :
    (n key : String) (u : ScalarType) (value : Cell) (later : Bool)
    → ((str_eq n key && fits u value) && later) ≡ true
    → (str_eq n key ≡ true) × (fits u value ≡ true) × (later ≡ true)
fit_parts n key u value later h =
    let (first, rest) = (and-eq-true_iff _ _).0 h in
    let (same, fit) = (and-eq-true_iff _ _).0 first in (same, fit, rest)

-- What a row holds in a column of the schema.
pub column_of_fit :
    (schema : Dict ScalarType) (row : Row) (name : String) (t : ScalarType)
    → row_fits schema row ≡ true
    → get schema name ≡ some t
    → (value : Cell) × (get row name ≡ some value) × (fits t value ≡ true)
unfolding get
column_of_fit [] [] name t h e = cc
column_of_fit [] (c ∷ row) name t h e = cc
column_of_fit ((n, u) ∷ schema) [] name t h e = cc
column_of_fit ((n, u) ∷ schema) ((key, value) ∷ row) name t h e =
    by_cases (str_eq n name) refl (column_of_fit schema row name t parts.2)
  where
    parts : (str_eq n key ≡ true) × (fits u value ≡ true) × (row_fits schema row ≡ true)
    parts = fit_parts n key u value (row_fits schema row) h

    same : n ≡ key
    same = (eq_iff n key).0 parts.0

    by_cases :
        (b : Bool)
        → str_eq n name ≡ b
        → (get schema name ≡ some t → (v : Cell) × (get row name ≡ some v) × (fits t v ≡ true))
        → (v : Cell) × (get ((key, value) ∷ row) name ≡ some v) × (fits t v ≡ true)
    by_cases true x later =
        let found : u ≡ t = ground (arith, e, x) in
        (
          value,
          rw (subst (λ s. str_eq s name ≡ true) same x),
          subst (λ s. fits s value ≡ true) found parts.1,
        )
    by_cases false x later =
        subst
          (λ c.
            (v : Cell) × ((if c then some value else get row name) ≡ some v) × (fits t v ≡ true))
          (sym (subst (λ s. str_eq s name ≡ false) same x)) (later (ground (arith, e, x)))

pub keys_of_fit :
    (schema : Dict ScalarType) (row : Row) → row_fits schema row ≡ true → keys row ≡ keys schema
keys_of_fit [] [] h = refl
keys_of_fit [] (c ∷ row) h = cc
keys_of_fit ((n, u) ∷ schema) [] h = cc
keys_of_fit ((n, u) ∷ schema) ((key, value) ∷ row) h =
    let parts = fit_parts n key u value (row_fits schema row) h in
    ap (λ s. s ∷ keys row) (sym ((eq_iff n key).0 parts.0))
    ∙ ap (λ ks. n ∷ ks) (keys_of_fit schema row parts.2)
