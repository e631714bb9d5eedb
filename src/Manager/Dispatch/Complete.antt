-- ===== src/Manager/Dispatch/Complete.antt =====
-- manager.py: what every run of a dispatch gives, in whatever order the members of its groups complete.
use sartoriuslib.Prelude.{
  ◌≡◌, inl, inr, refl, sym, ap, ◌∙◌, String, some, List, [], ◌∷◌, ◌++◌, map, Bool, true, false,
  ◌||◌, if◌then◌else◌, str_eq, arith, Bool-cases,
}
use sartoriuslib.Prelude.Dict.{Dict, get, put, get-put, put_cases}
use sartoriuslib.Errors.{ErrorClass, exception_group}
use sartoriuslib.Errors.Result.{ok, err, >>=-eq-ok}
use sartoriuslib.Transport.{SerialTypes}
use sartoriuslib.Devices.Session.Gates.{in_names}
use sartoriuslib.Manager.{
  DeviceEntry, ErrorPolicy, raise_errors, return_errors, DeviceResult, success, failure, is_success,
  is_some,
}
use sartoriuslib.Manager.Dispatch.{
  join_group, group_from, device_at, group_key, has_errors, members, Progress, record_result,
  Advance, complete, Run, stop, next, all_done, begin, conclude,
}

both_ways : {b : Bool} → b ≡ true → b ≡ false → ⊥
both_ways t f = let h : ◌≡◌ {A = Bool} true false = sym t ∙ f in cc

abbrev in_groups : String → List (List String) → Bool
in_groups n [] = false
in_groups n (g ∷ groups) = in_names n g || in_groups n groups

in_groups-append :
    (n : String) (front back : List (List String))
    → in_groups n (front ++ back) ≡ (in_groups n front || in_groups n back)
in_groups-append n [] back = refl
in_groups-append n (g ∷ front) back = ground (arith, in_groups-append n front back)

all_done-in_groups :
    (n : String) (groups : List (List String)) → all_done groups ≡ true → in_groups n groups ≡ false
all_done-in_groups n [] h = refl
all_done-in_groups n ([] ∷ groups) h = all_done-in_groups n groups h
all_done-in_groups n ((x ∷ xs) ∷ groups) h = cc

errors-append : (errors : List ErrorClass) (c : ErrorClass) → has_errors (errors ++ c ∷ []) ≡ true
errors-append [] c = refl
errors-append (e ∷ errors) c = refl

module _ {A : Type 0} where
  -- A name has a result, or is still to be run.
  unfoldable served : String → Progress A → Bool
  unfolding is_some
  served n p = is_some (get p.results n) || in_groups n p.pending

  served-put :
      (n name : String) (results : Dict (DeviceResult A)) (r : DeviceResult A)
      → is_some (get (put results name r) n) ≡ (str_eq name n || is_some (get results n))
  unfolding is_some
  served-put n name results r = ground (arith, get-put results name n r)

  served-Advance : (n : String) (p q : Progress A) → Advance p q → served n q ≡ served n p
  unfolding served record_result
  served-Advance n p q (complete front back name rest results errors (ok value) h) =
      let before = in_groups-append n front ((name ∷ rest) ∷ back) in
      let after = in_groups-append n front (rest ∷ back) in
      let first = served-put n name results (success value) in grind arith
  served-Advance n p q (complete front back name rest results errors (err c) h) =
      let before = in_groups-append n front ((name ∷ rest) ∷ back) in
      let after = in_groups-append n front (rest ∷ back) in
      let first = served-put n name results (failure c) in grind arith

  served-Run : (n : String) (p q : Progress A) → Run p q → served n q ≡ served n p
  served-Run n p q (stop x) = refl
  served-Run n p r (next x q y a rest) = served-Run n q r rest ∙ served-Advance n p q a

  -- While no error was collected, every result is a success.
  Clean : Progress A → Type 0
  Clean p =
      has_errors p.errors ≡ false
      → (n : String) (r : DeviceResult A) → get p.results n ≡ some r
      → is_success r ≡ true

  Clean-Advance : (p q : Progress A) → Advance p q → Clean p → Clean q
  unfolding Clean record_result is_success success
  Clean-Advance p q (complete front back name rest results errors (ok value) h) clean =
      λ quiet n r found. elim (put_cases results name (success value) n r found) [
        | inl (at, same) ↦ ap is_success (sym same)
        | inr (other, old) ↦ clean quiet n r old
      ]
  Clean-Advance p q (complete front back name rest results errors (err c) h) clean =
      λ quiet n r found. let loud = errors-append errors c in absurd (both_ways loud quiet)

  Clean-Run : (p q : Progress A) → Run p q → Clean p → Clean q
  Clean-Run p q (stop x) clean = clean
  Clean-Run p r (next x q y a rest) clean = Clean-Run q r rest (Clean-Advance p q a clean)

in_names-append :
    (n : String) (xs ys : List String) → in_names n (xs ++ ys) ≡ (in_names n xs || in_names n ys)
in_names-append n [] ys = refl
in_names-append n (x ∷ xs) ys = ground (arith, in_names-append n xs ys)

-- A name is in one of the groups of a dictionary.
grouped : String → Dict (List String) → Bool
grouped n groups = in_groups n (map (λ g. g.1) groups)

grouped_if :
    (n : String) (b : Bool) (x y : Dict (List String))
    → grouped n (if b then x else y) ≡ (if b then grouped n x else grouped n y)
grouped_if n true x y = refl
grouped_if n false x y = refl

grouped-put :
    (n key name : String) (groups : Dict (List String))
    → grouped n (put groups key (members (get groups key) ++ name ∷ []))
      ≡ (grouped n groups || str_eq name n)
unfolding grouped put get
grouped-put n key name [] = ground arith
grouped-put n key name ((i, g) ∷ groups) =
    let rest = grouped-put n key name groups in
    let here = in_names-append n g (name ∷ []) in
    elim (Bool-cases (str_eq i key)) [ inl e ↦ rw e (ground arith) | inr e ↦ rw e (ground arith) ]

grouped-group_from :
    {k : SerialTypes} (n : String) (devices : Dict (DeviceEntry k)) (targets : List String)
    (groups out : Dict (List String))
    → group_from devices targets groups ≡ ok out
    → grouped n out ≡ (grouped n groups || in_names n targets)
unfolding group_from join_group
grouped-group_from n devices [] groups out h =
    let same : groups ≡ out = cc in rw same (ground arith)
grouped-group_from n devices (name ∷ rest) groups out h =
    let (device, found, later) = >>=-eq-ok (device_at (get devices name)) _ h in
    let last = grouped-group_from n devices rest _ out later in
    let first = grouped-put n (group_key name device.port_key) name groups in ground arith

concluded :
    {A : Type 0} (policy : ErrorPolicy) (p : Progress A) {out : Dict (DeviceResult A)}
    → conclude policy p ≡ ok out
    → p.results ≡ out
unfolding conclude
concluded return_errors p {out} h = cc
concluded raise_errors p {out} h = by_errors (has_errors p.errors) h
  where
    by_errors :
        (b : Bool) → (if b then err exception_group else ok p.results) ≡ ok out → p.results ≡ out
    by_errors true e = cc
    by_errors false e = cc

quiet_raise :
    {A : Type 0} (p : Progress A) {out : Dict (DeviceResult A)}
    → conclude raise_errors p ≡ ok out
    → has_errors p.errors ≡ false
unfolding conclude
quiet_raise p {out} h = by_errors (has_errors p.errors) h
  where
    by_errors : (b : Bool) → (if b then err exception_group else ok p.results) ≡ ok out → b ≡ false
    by_errors true e = cc
    by_errors false e = refl

module _ {k : SerialTypes} {A : Type 0} (devices : Dict (DeviceEntry k)) (targets : List String)
    (groups : Dict (List String)) (p : Progress A) (out : Dict (DeviceResult A)) where
  -- Whatever the order in which the members of the groups complete and whatever their devices answer, a run in
  -- which every group is done and that returns has a result for each target, and for no other name.
  pub dispatch_complete :
      (policy : ErrorPolicy)
      → group_from devices targets [] ≡ ok groups
      → Run (begin groups) p
      → all_done p.pending ≡ true
      → conclude policy p ≡ ok out
      → (n : String) → is_some (get out n) ≡ in_names n targets
  unfolding served begin grouped get is_some
  dispatch_complete policy grouping run done returned n =
      let kept = served-Run n (begin groups) p run in
      let over = all_done-in_groups n p.pending done in
      let all = grouped-group_from n devices targets [] groups grouping in
      let same = concluded policy p returned in
      let at : is_some (get p.results n) ≡ is_some (get out n) = ap (λ d. is_some (get d n)) same in
      ground arith

module _ {A : Type 0} (groups : Dict (List String)) (p : Progress A)
    (out : Dict (DeviceResult A)) where
  -- Where the policy is to raise and the dispatch returns all the same, every result is a success.
  pub dispatch_success :
      Run (begin groups) p
      → conclude raise_errors p ≡ ok out
      → (n : String) (r : DeviceResult A) → get out n ≡ some r
      → is_success r ≡ true
  unfolding begin Clean get
  dispatch_success run returned n r found =
      Clean-Run (begin groups) p run (λ quiet m s there. cc) (quiet_raise p returned) n r
        (ap (λ d. get d n) (concluded raise_errors p returned) ∙ found)
