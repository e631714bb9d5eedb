-- ===== src/Sinks/Schema/Projection.antt =====
-- What `project` makes of a row: exactly the locked columns, in order, and one warning for each unknown name.
use sartoriuslib.Prelude.{
  ◌≡◌, refl, sym, ap, ◌∙◌, String, Option, none, some, List, [], ◌∷◌, ◌++◌, map, Bool, true, false,
  if◌then◌else◌, arith, eq_iff, append-nil, append_assoc, subst,
}
use sartoriuslib.Prelude.Dict.{get, put, get-put}
use sartoriuslib.Errors.Result.{ok}
use sartoriuslib.Prelude.Names.{keys, mem, Distinct}
use sartoriuslib.Sinks.{Cell, null, Row}
use sartoriuslib.Prelude.Names.{Distinct-before, mem-keys, keys-put}
use sartoriuslib.Sinks.Schema.{
  ColumnSpec, SchemaLock, blank, warn, project_items, project_to, project,
}

-- A lock whose columns are known: their names are the names that are looked up, and no name stands twice.
pub record IsLockedTo (columns : List ColumnSpec) (s : SchemaLock) : Type 0 where
  pub locked : s.columns ≡ some columns
  pub named : s.names ≡ map ColumnSpec.name columns
  pub distinct : Distinct s.names

-- The two results of the loop: the row that the items make, and the lock after its warnings.
pub gather : List String → Row → Row → Row
gather names [] result = result
gather names ((k, v) ∷ items) result =
    gather names items (if mem k names then put result k v else result)

unfoldable pub warn_items : List String → Row → SchemaLock → SchemaLock
warn_items names [] s = s
warn_items names ((k, v) ∷ items) s = warn_items names items (if mem k names then s else warn k s)

pub names-warn : (k : String) (s : SchemaLock) → (warn k s).names ≡ s.names
unfolding warn
names-warn k s = ground arith

project_items_lem :
    (names : List String) (items result : Row) (s : SchemaLock)
    → s.names ≡ names
    → project_items items result s ≡ (ok (gather names items result), warn_items names items s)
unfolding project_items gather warn_items
project_items_lem names [] result s e = refl
project_items_lem names ((k, v) ∷ items) result s e = rw (ap (mem k) e) (
    project_items_lem names items (if mem k names then put result k v else result)
      (if mem k names then s else warn k s) (ground (arith, names-warn k s)))

-- The value that a row's items leave under a name.
abbrev pub or_else : Option Cell → Option Cell → Option Cell
or_else none old = old
or_else (some v) old = some v

-- After the items, a locked name holds the row's value, or what it held before.
get-gather :
    (names : List String) (items result : Row)
    → Distinct (keys items)
    → (k : String)
    → get (gather names items result) k
      ≡ (if mem k names then or_else (get items k) (get result k) else get result k)
unfolding gather get
get-gather names [] result d k = ground arith
get-gather names ((j, v) ∷ items) result (fresh, d) k =
    let later = get-gather names items (if mem j names then put result j v else result) d k in
    let absent = mem-keys items j fresh in
    let stored = get-put result j k v in ground (arith, eq_iff j k)

keys-gather :
    (names : List String) (items result : Row)
    → ((k : String) → mem k (keys result) ≡ mem k names)
    → keys (gather names items result) ≡ keys result
unfolding gather
keys-gather names [] result h = refl
keys-gather names ((j, v) ∷ items) result h = keys-gather names items kept later ∙ same
  where
    kept : Row
    kept = if mem j names then put result j v else result

    same : keys kept ≡ keys result
    same = ground (arith, keys-put result j v, h j)

    later : (k : String) → mem k (keys kept) ≡ mem k names
    later k = ap (mem k) same ∙ h k

-- A fresh row has the locked columns, all None.
get-blank :
    (specs : List ColumnSpec) (row : Row) (k : String)
    → get (blank specs row) k ≡ (if mem k (map ColumnSpec.name specs) then some null else get row k)
unfolding blank
get-blank [] row k = refl
get-blank (spec ∷ specs) row k = ground (
  arith,
  get-blank specs (put row spec.name null) k,
  get-put row spec.name k null,
  eq_iff spec.name k,
)

keys-blank :
    (specs : List ColumnSpec) (row : Row)
    → Distinct (keys row ++ map ColumnSpec.name specs)
    → keys (blank specs row) ≡ keys row ++ map ColumnSpec.name specs
unfolding blank
keys-blank [] row d = sym (append-nil (keys row))
keys-blank (spec ∷ specs) row d =
    keys-blank specs (put row spec.name null)
      (rw (appended, append_assoc (keys row) (spec.name ∷ []) (map ColumnSpec.name specs)) d)
    ∙ ap (λ front. front ++ map ColumnSpec.name specs) appended
    ∙ append_assoc (keys row) (spec.name ∷ []) (map ColumnSpec.name specs)
  where
    absent : mem spec.name (keys row) ≡ false
    absent = Distinct-before (keys row) spec.name (map ColumnSpec.name specs) d

    appended : keys (put row spec.name null) ≡ keys row ++ spec.name ∷ []
    appended =
        keys-put row spec.name null
        ∙ ap (λ (b : Bool). if b then keys row else keys row ++ spec.name ∷ []) absent

abbrev pub or_null : Option Cell → Cell
or_null none = null
or_null (some v) = v

pub record Projected (columns : List ColumnSpec) (row out : Row) : Type 0 where
  pub in_order : keys out ≡ map ColumnSpec.name columns
  pub each_column :
      (k : String)
      → get out k
        ≡ (if mem k (map ColumnSpec.name columns) then some (or_null (get row k)) else none)

pub project_lem :
    (columns : List ColumnSpec) (row : Row) (s : SchemaLock)
    → IsLockedTo columns s
    → project row s ≡ (ok (gather s.names row (blank columns [])), warn_items s.names row s)
unfolding project project_to
project_lem columns row s l =
    ap (λ o. project_to o row s) l.locked ∙ project_items_lem s.names row (blank columns []) s refl

-- The column of a name, from what the row has under it.
fill_in :
    (is_name : Bool) {named : Bool}
    → is_name ≡ named
    → (o : Option Cell)
    → (if is_name
        then or_else o (if named then some null else none)
        else (if named then some null else none))
      ≡ (if named then some (or_null o) else none)
fill_in true e none = ground arith
fill_in true e (some v) = ground arith
fill_in false e o = ground arith

-- On a lock to columns with distinct names, a row with distinct names is projected to just those columns in their
-- order, each with the value that the row has under its name, or None.
pub project-Projected :
    (columns : List ColumnSpec) (row : Row) (s : SchemaLock)
    → IsLockedTo columns s
    → Distinct (keys row)
    → (out : Row) × ((project row s).0 ≡ ok out) × Projected columns row out
unfolding get
project-Projected columns row s l d = (
  gather s.names row (blank columns []),
  ap (λ o. o.0) (project_lem columns row s l),
  record { in_order = order; each_column = each },
)
  where
    unlocked : keys (blank columns []) ≡ map ColumnSpec.name columns
    unlocked = keys-blank columns [] (subst Distinct l.named l.distinct)

    order : keys (gather s.names row (blank columns [])) ≡ map ColumnSpec.name columns
    order =
        keys-gather s.names row (blank columns []) (λ k. ap (mem k) (unlocked ∙ sym l.named))
        ∙ unlocked

    each :
        (k : String)
        → get (gather s.names row (blank columns [])) k
          ≡ (if mem k (map ColumnSpec.name columns) then some (or_null (get row k)) else none)
    each k =
        get-gather s.names row (blank columns []) d k
        ∙ ap (λ held. if mem k s.names then or_else (get row k) held else held)
            (get-blank columns [] k)
        ∙ fill_in (mem k s.names) (ap (mem k) l.named) (get row k)
