-- ===== src/Streaming/PollSource.antt =====
-- streaming/poll_source.py: one balance as a source of polls. `poll` is `Balance.poll` on the state of the balance, and
-- `failure_of` is what a result keeps of an exception.
use sartoriuslib.Prelude.{
  String, Option, none, some, List, [], ◌∷◌, Bool, true, false, if◌then◌else◌,
}
use sartoriuslib.Prelude.Dict.{Dict}
use sartoriuslib.Prelude.Names.{mem}
use sartoriuslib.Errors.{ErrorClass, sartorius_error, is_subclass}
use sartoriuslib.Errors.Result.{Result, ok, err}
use sartoriuslib.Errors.Exec.{Exec, pure, raise}
use sartoriuslib.Devices.Models.{Reading}
use sartoriuslib.Streaming.{Failure, PollResult}

-- names is not None and self._name not in set(names)
unfoldable pub excluded : String → Option (List String) → Bool
excluded name none = false
excluded name (some names) = if mem name names then false else true

module _ {S : Type 0} (failure_of : ErrorClass → Failure) (name : String) where
  -- except SartoriusError
  unfoldable pub wrap : Result Reading → Exec S (Dict PollResult)
  wrap (ok reading) s = pure ((name, record { value = some reading; error = none }) ∷ []) s
  wrap (err c) s =
      if is_subclass c sartorius_error
      then pure ((name, record { value = none; error = some (failure_of c) }) ∷ []) s
      else raise c s

  unfoldable pub poll_adapter : Exec S Reading → Option (List String) → Exec S (Dict PollResult)
  unfolding wrap excluded
  poll_adapter poll names s = if excluded name names then pure [] s else wrap (poll s).0 (poll s).1
