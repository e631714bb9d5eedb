-- ===== src/Manager/Dispatch.antt =====
-- manager.py: `_dispatch`, which runs an operation on several balances, one group after another on each port and the ports
-- side by side. A group awaits its members in turn, so what can be seen of a run is the order in which the members of
-- the groups complete, each with whatever result the device gives.
pub mod Complete
use Prim.Native.String.{◌++◌ as text_append}
use sartoriuslib.Prelude.{
  ◌≡◌, String, Option, none, some, List, [], ◌∷◌, ◌++◌, map, Bool, true, false, ◌&&◌, if◌then◌else◌,
}
use sartoriuslib.Prelude.Dict.{Dict, get, put}
use sartoriuslib.Errors.{ErrorClass, sartorius_error, key_error, exception_group, is_subclass}
use sartoriuslib.Errors.Result.{Result, ok, err, ◌>>=◌}
use sartoriuslib.Transport.{SerialTypes}
use sartoriuslib.Manager.{
  ErrorPolicy, raise_errors, return_errors, DeviceResult, success, failure, DeviceEntry, Manager,
}

unfoldable pub group_key : String → Option String → String
group_key name none = text_append "solo:" name
group_key name (some key) = key

-- d.get(k) or a given value
abbrev pub members : Option (List String) → List String
members none = []
members (some names) = names

-- groups.setdefault(key, []).append(name)
unfoldable pub join_group : String → String → Dict (List String) → Dict (List String)
join_group key name groups = put groups key (members (get groups key) ++ name ∷ [])

module _ {k : SerialTypes} where
  -- self._devices[name]
  unfoldable pub device_at : Option (DeviceEntry k) → Result (DeviceEntry k)
  device_at none = err key_error
  device_at (some device) = ok device

  unfoldable pub group_from :
      Dict (DeviceEntry k) → List String → Dict (List String) → Result (Dict (List String))
  unfolding device_at group_key join_group
  group_from devices [] groups = ok groups
  group_from devices (name ∷ rest) groups = do
    device ← device_at (get devices name)
    group_from devices rest (join_group (group_key name device.port_key) name groups)

-- Every group has run.
abbrev pub all_done : List (List String) → Bool
all_done [] = true
all_done ([] ∷ groups) = all_done groups
all_done ((name ∷ rest) ∷ groups) = false

abbrev pub has_errors : List ErrorClass → Bool
has_errors [] = false
has_errors (c ∷ errors) = true

-- What `_run_group` shares with the other groups, and the members that each group has still to run.
pub record Progress (A : Type 0) : Type 0 where
  pub pending : List (List String)
  pub results : Dict (DeviceResult A)
  pub errors : List ErrorClass

module _ {A : Type 0} where
  -- An exception of another class leaves the task group, and ends the dispatch.
  abbrev pub caught : Result A → Bool
  caught (ok a) = true
  caught (err c) = is_subclass c sartorius_error

  unfoldable pub record_result : String → Result A → Progress A → Progress A
  unfolding success failure
  record_result name (ok value) p = record p { results = put p.results name (success value) }
  record_result name (err c) p = record p {
    results = put p.results name (failure c);
    errors = p.errors ++ c ∷ [];
  }

  -- The first member of one of the groups completes.
  pub data Advance : Progress A → Progress A → Type 0 where
    complete :
        (front back : List (List String)) (name : String) (rest : List String)
        (results : Dict (DeviceResult A)) (errors : List ErrorClass) (r : Result A)
        → caught r ≡ true
        → Advance
            (record { pending = front ++ (name ∷ rest) ∷ back; results = results; errors = errors })
            (record_result name r
              (record { pending = front ++ rest ∷ back; results = results; errors = errors }))

  pub data Run : Progress A → Progress A → Type 0 where
    stop : (p : Progress A) → Run p p
    next : (p q r : Progress A) → Advance p q → Run q r → Run p r

  unfoldable pub begin : Dict (List String) → Progress A
  begin groups = record { pending = map (λ g. g.1) groups; results = []; errors = [] }

  unfoldable pub conclude : ErrorPolicy → Progress A → Result (Dict (DeviceResult A))
  conclude raise_errors p = if has_errors p.errors then err exception_group else ok p.results
  conclude return_errors p = ok p.results
