-- ===== src/Sinks/Schema/Warnings.antt =====
-- The warnings of a lock: over any number of rows, each unknown name is warned of once.
use sartoriuslib.Prelude.{
  ◌≡◌, refl, ap, subst, String, List, [], ◌∷◌, ◌++◌, not, ◌&&◌, append-nil, append_assoc,
  if◌then◌else◌, arith, eq_iff,
}
use sartoriuslib.Errors.Exec.{pure, ◌>>=◌}
use sartoriuslib.Errors.Keeps.{holds_known, keeps_continue}
use sartoriuslib.Prelude.Names.{keys, mem, Distinct}
use sartoriuslib.Sinks.{Row}
use sartoriuslib.Prelude.Names.{mem-append}
use sartoriuslib.Sinks.Schema.{ColumnSpec, SchemaLock, blank, warn, project_all}
use sartoriuslib.Sinks.Schema.Projection.{IsLockedTo, warn_items, gather, names-warn, project_lem}

-- The names that the rows have shown, and the warnings given for them.
pub record Warned (shown : List String) (s : SchemaLock) : Type 0 where
  pub logged : s.warnings ≡ s.unknown_warned
  pub once : Distinct s.warnings
  pub unknown : (k : String) → mem k s.warnings ≡ (mem k shown && not (mem k s.names))

warn-Warned :
    (shown : List String) (k : String) (s : SchemaLock)
    → Warned shown s
    → Warned (shown ++ k ∷ []) (if mem k s.names then s else warn k s)
unfolding warn
warn-Warned shown k s w = record { logged = same; once = one; unknown = each }
  where
    logs : mem k s.warnings ≡ mem k s.unknown_warned
    logs = ap (mem k) w.logged

    same :
        (if mem k s.names then s else warn k s).warnings
        ≡ (if mem k s.names then s else warn k s).unknown_warned
    same = ground (arith, w.logged)

    one : Distinct (if mem k s.names then s else warn k s).warnings
    one = ground (arith, w.once, logs)

    each :
        (j : String)
        → mem j (if mem k s.names then s else warn k s).warnings
          ≡ (mem j (shown ++ k ∷ []) && not (mem j (if mem k s.names then s else warn k s).names))
    each j = ground (arith, w.unknown j, w.unknown k, logs, mem-append j shown (k ∷ []), eq_iff k j)

warn_items-Warned :
    (items : Row) (shown : List String) (s : SchemaLock) (names : List String)
    → s.names ≡ names
    → Warned shown s
    → Warned (shown ++ keys items) (warn_items names items s)
unfolding warn_items
warn_items-Warned [] shown s names e w = rw (append-nil shown) w
warn_items-Warned ((k, v) ∷ items) shown s names e w =
    rw (← append_assoc shown (k ∷ []) (keys items)) (
      warn_items-Warned items (shown ++ k ∷ []) (if mem k names then s else warn k s) names
        (ground (arith, names-warn k s))
        (subst (λ ns. Warned (shown ++ k ∷ []) (if mem k ns then s else warn k s)) e
          (warn-Warned shown k s w)))

-- A warning changes neither the columns nor their names.
warn_items-IsLockedTo :
    {columns : List ColumnSpec} (items : Row) (s : SchemaLock) (names : List String)
    → IsLockedTo columns s
    → IsLockedTo columns (warn_items names items s)
unfolding warn_items warn
warn_items-IsLockedTo [] s names l = l
warn_items-IsLockedTo ((k, v) ∷ items) s names l =
    warn_items-IsLockedTo items (if mem k names then s else warn k s) names
      (ground (arith, l.locked, l.named, l.distinct))

-- All names that a list of rows shows.
abbrev pub all_keys : List Row → List String
all_keys [] = []
all_keys (row ∷ rows) = keys row ++ all_keys rows

-- Over any rows, a lock to columns with distinct names that has warned of just the unknown names among those shown
-- so far comes to have warned of just the unknown names among these and those of the rows, of each once, and stays
-- locked to its columns.
pub project_all-Warned :
    {columns : List ColumnSpec} (rows : List Row) (shown : List String) (s : SchemaLock)
    → IsLockedTo columns s
    → Warned shown s
    → Warned (shown ++ all_keys rows) (project_all rows s).1
      × IsLockedTo columns (project_all rows s).1
unfolding project_all
project_all-Warned [] shown s l w = (rw (append-nil shown) w, l)
project_all-Warned {columns} (row ∷ rows) shown s l w =
    let later : Kept (project_all rows after).1 =
      subst
        (λ seen.
          Warned seen (project_all rows after).1 × IsLockedTo columns (project_all rows after).1)
        (append_assoc shown (keys row) (all_keys rows))
        (project_all-Warned rows (shown ++ keys row) after (warn_items-IsLockedTo row s s.names l)
          (warn_items-Warned row shown s s.names refl w)) in
    holds_known (λ o. Kept o.1) (λ projected. project_all rows >>= λ rest. pure (projected ∷ rest))
      (project_lem columns row s l)
      (keeps_continue Kept (project_all rows after).0 (λ rest. pure (made ∷ rest))
        (project_all rows after).1 later (λ rest. later))
  where
    Kept : SchemaLock → Type 0
    Kept q = Warned (shown ++ (keys row ++ all_keys rows)) q × IsLockedTo columns q

    after : SchemaLock
    after = warn_items s.names row s

    made : Row
    made = gather s.names row (blank columns [])
