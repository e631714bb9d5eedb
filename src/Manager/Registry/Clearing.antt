-- ===== src/Manager/Registry/Clearing.antt =====
-- manager.py: the devices and the ports that `close` leaves.
use mathlib.Core.List.{reverse, reverse_aux}
use sartoriuslib.Prelude.{
  ◌≡◌, refl, sym, ap, subst, ◌∙◌, inl, inr, String, Option, none, some, List, [], ◌∷◌, map, Bool,
  true, false, ◌||◌, if◌then◌else◌, eq_iff, arith, Option-cases, Bool-cases,
}
use sartoriuslib.Prelude.Dict.{Dict, get, remove as pop, get-remove, remove-absent, empty_dict}
use sartoriuslib.Transport.{SerialTypes}
use sartoriuslib.Devices.Session.Gates.{in_names}
use sartoriuslib.Manager.{DeviceEntry, Manager, names, no_refs}
use sartoriuslib.Manager.Ports.{Host, Plant}
use sartoriuslib.Manager.Lifecycle.{drop_found, drop_named, drop_all}
use sartoriuslib.Manager.Lifecycle.Dropping.{dropped, drop_device-manager}
use sartoriuslib.Manager.Registry.{counts, holds, owned, Coherent}
use sartoriuslib.Manager.Registry.Leaving.{coherent_dropped}

in_names-reverse_aux :
    (n : String) (xs ys : List String)
    → in_names n (reverse_aux xs ys) ≡ (in_names n xs || in_names n ys)
in_names-reverse_aux n [] ys = refl
in_names-reverse_aux n (x ∷ xs) ys = ground (arith, in_names-reverse_aux n xs (x ∷ ys))

in_names-reverse : (n : String) (xs : List String) → in_names n (reverse xs) ≡ in_names n xs
in_names-reverse n xs = ground (arith, in_names-reverse_aux n xs [])

get_absent :
    {V : Type 0} (d : Dict V) (n : String) → in_names n (map (λ e. e.0) d) ≡ false → get d n ≡ none
unfolding get
get_absent [] n h = refl
get_absent ((i, v) ∷ d) n h = ground (arith, get_absent d n)

true≢false : ◌≡◌ {A = Bool} true false → ⊥
true≢false h = cc

some_name : (refs : List String) → no_refs refs ≡ false → (n : String) × (in_names n refs ≡ true)
some_name [] h = cc
some_name (r ∷ refs) h = (r, ground (arith, eq_iff r r))

module _ {k : SerialTypes} {W : Type 0} (host : Host k W) where
  drop_found-devices :
      (o : Option (DeviceEntry k)) (name : String) (p : Plant k W)
      → get p.manager.devices name ≡ o
      → (drop_found host o name p).manager.devices ≡ pop p.manager.devices name
  unfolding drop_found dropped
  drop_found-devices none name p h = sym (remove-absent p.manager.devices name h)
  drop_found-devices (some d) name p h = ap (λ m. m.devices) (drop_device-manager host name d p)

  drop_found-Coherent :
      (o : Option (DeviceEntry k)) (name : String) (p : Plant k W)
      → get p.manager.devices name ≡ o
      → Coherent p.manager
      → Coherent (drop_found host o name p).manager
  unfolding drop_found
  drop_found-Coherent none name p h c = c
  drop_found-Coherent (some d) name p h c =
      subst Coherent (sym (drop_device-manager host name d p))
        (coherent_dropped p.manager name d c h)

  -- Every name that is dropped is gone, and the others stay.
  drop_all-devices :
      (dropping : List String) (p : Plant k W) (n : String)
      → get (drop_all host dropping p).manager.devices n
        ≡ (if in_names n dropping then none else get p.manager.devices n)
  unfolding drop_all drop_named
  drop_all-devices [] p n = refl
  drop_all-devices (name ∷ rest) p n =
      let next = drop_named host name p in
      let later = drop_all-devices rest next n in
      let first : get next.manager.devices n ≡ get (pop p.manager.devices name) n =
        ap (λ d. get d n) (drop_found-devices (get p.manager.devices name) name p refl) in
      let popped = get-remove p.manager.devices name n in ground arith

  pub drop_all-Coherent :
      (dropping : List String) (p : Plant k W)
      → Coherent p.manager
      → Coherent (drop_all host dropping p).manager
  unfolding drop_all drop_named
  drop_all-Coherent [] p h = h
  drop_all-Coherent (name ∷ rest) p h =
      drop_all-Coherent rest (drop_named host name p)
        (drop_found-Coherent (get p.manager.devices name) name p refl h)

  -- The names that the registry lists are all that it holds.
  dropped_all :
      (p : Plant k W) (n : String)
      → get (drop_all host (reverse (names p.manager)) p).manager.devices n ≡ none
  unfolding names
  dropped_all p n =
      let listed = in_names-reverse n (map (λ e. e.0) p.manager.devices) in
      let rest = drop_all-devices (reverse (map (λ e. e.0) p.manager.devices)) p n in
      elim (Bool-cases (in_names n (map (λ e. e.0) p.manager.devices))) [
        | inl e ↦ rest ∙ ap (λ b. if b then none else get p.manager.devices n) (listed ∙ e)
        | inr e ↦
            rest
            ∙ ap (λ b. if b then none else get p.manager.devices n) (listed ∙ e)
            ∙ get_absent p.manager.devices n e
      ]

  pub devices_cleared :
      (p : Plant k W) → (drop_all host (reverse (names p.manager)) p).manager.devices ≡ []
  devices_cleared p = empty_dict _ (dropped_all p)

-- Where no device is left, no port is.
pub ports_cleared : {k : SerialTypes} (m : Manager k) → Coherent m → m.devices ≡ [] → m.ports ≡ []
unfolding holds owned get
ports_cleared m h cleared = empty_dict m.ports λ key. elim (Option-cases (get m.ports key)) [
  | inl absent ↦ absent
  | inr (e, there) ↦
      let (keyed, client, used) = h.used key e there in
      let (n, counted) = some_name e.refs used in
      let lone : owned m.devices key n ≡ false = ap (λ d. owned d key n) cleared in
      let held : holds m.ports key n ≡ true = ap (counts n) there ∙ counted in
      let same = h.counted key n in absurd (true≢false (sym held ∙ same ∙ lone))
]
