-- ===== src/Manager/Refs.antt =====
-- manager.py: the sets of names that refer to a port.
use sartoriuslib.Prelude.{
  ◌≡◌, refl, String, List, [], ◌∷◌, false, ◌||◌, str_eq, eq_iff, arith, if◌then◌else◌,
}
use sartoriuslib.Devices.Session.Gates.{in_names}
use sartoriuslib.Manager.{add_ref, discard_ref}

pub in_names-add_ref :
    (name n : String) (refs : List String)
    → in_names n (add_ref name refs) ≡ (str_eq name n || in_names n refs)
unfolding add_ref
in_names-add_ref name n [] = refl
in_names-add_ref name n (r ∷ refs) =
    ground (arith, eq_iff r name, eq_iff r n, eq_iff name n, in_names-add_ref name n refs)

pub in_names-discard_ref :
    (name n : String) (refs : List String)
    → in_names n (discard_ref name refs) ≡ (if str_eq name n then false else in_names n refs)
unfolding discard_ref
in_names-discard_ref name n [] = ground arith
in_names-discard_ref name n (r ∷ refs) =
    ground (arith, eq_iff r name, eq_iff r n, eq_iff name n, in_names-discard_ref name n refs)
