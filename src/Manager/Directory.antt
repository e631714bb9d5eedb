-- ===== src/Manager/Directory.antt =====
-- manager.py: the operations of a manager, one after the other, and the directory that they keep, which gives each name
-- that is registered the port that it is on.
pub mod Refinement
use mathlib.Core.List.{reverse}
use sartoriuslib.Prelude.{
  ◌≡◌, refl, sym, ap, subst, ◌∙◌, ◌⊎◌, inl, inr, String, Option, none, some, List, [], ◌∷◌, Bool,
  true, false, if◌then◌else◌, str_eq, arith,
}
use sartoriuslib.Prelude.Dict.{Dict, get, put, remove as pop, get-put, get-remove}
use sartoriuslib.Errors.{ErrorClass}
use sartoriuslib.Errors.Result.{Result, ok, err}
use sartoriuslib.Errors.Keeps.{if_both, keeps_continue, holds_continue}
use sartoriuslib.Errors.Exec.{Exec, pure, ◌>>◌}
use sartoriuslib.Transport.{SerialTypes}
use sartoriuslib.Manager.{Platform, Balance, DeviceEntry, Manager, is_some, names, check_open}
use sartoriuslib.Manager.Ports.{Host, Plant, AddOptions, Source}
use sartoriuslib.Manager.Lifecycle.{
  add, remove, remove_found, close, drop_device, drop_named, drop_found, drop_all,
}
use sartoriuslib.Manager.Lifecycle.Adding.{device_of, Entered, EnteredOn, Added, add-Added}
use sartoriuslib.Manager.Lifecycle.Dropping.{dropped, drop_device-manager}
use sartoriuslib.Manager.Registry.{Coherent}
use sartoriuslib.Manager.Registry.Entering.{coherent_entered}
use sartoriuslib.Manager.Registry.Leaving.{coherent_dropped}
use sartoriuslib.Manager.Registry.Clearing.{drop_all-Coherent, devices_cleared}

pub data Operation (k : SerialTypes) : Type 0 where
  adding : String → Source k → AddOptions k → Operation k
  removing : String → Operation k
  closing : Operation k

-- A name that is registered has an owner, the key of its port or none.
abbrev pub Directory : Type 0
Directory = String → Option (Option String)

module _ {k : SerialTypes} where
  abbrev pub port_of_device : Option (DeviceEntry k) → Option (Option String)
  port_of_device none = none
  port_of_device (some d) = some d.port_key

  unfoldable pub directory : Manager k → Directory
  directory m n = port_of_device (get m.devices n)

-- What an operation does to the directory, by its result: one that raises does nothing, and one that returns enters a
-- free name, takes out a name that is there, or takes out every name.
pub data Change {k : SerialTypes}
    : Operation k → Result (Unit {0}) → Directory → Directory → Type 0 where
  refuse :
      (o : Operation k) (c : ErrorClass) (d e : Directory)
      → ((n : String) → e n ≡ d n)
      → Change o (err c) d e
  enter :
      (name : String) (source : Source k) (options : AddOptions k) (d e : Directory)
      (port : Option String)
      → d name ≡ none
      → ((n : String) → e n ≡ (if str_eq name n then some port else d n))
      → Change (adding name source options) (ok tt) d e
  leave :
      (name : String) (d e : Directory) (port : Option String)
      → d name ≡ some port
      → ((n : String) → e n ≡ (if str_eq name n then none else d n))
      → Change (removing name) (ok tt) d e
  clear : (d e : Directory) → ((n : String) → e n ≡ none) → Change closing (ok tt) d e

module _ {k : SerialTypes} {W : Type 0} (host : Host k W) (platform : Platform) where
  unfoldable pub step : Operation k → Exec (Plant k W) (Unit {0})
  step (adding name source options) p = (add host platform name source options >> pure tt) p
  step (removing name) p = remove host name p
  step closing p = (ok tt, close host p)

  unfoldable pub run : List (Operation k) → Plant k W → Plant k W
  unfolding step
  run [] p = p
  run (operation ∷ rest) p = run rest (step operation p).1

  -- The outcome of an `add` on a coherent manager.
  pub added :
      (name : String) (source : Source k) (options : AddOptions k) (p : Plant k W)
      → Coherent p.manager
      → Added name p.manager (add host platform name source options p)
  added name source options p h =
      add-Added host platform name source options p
        (λ key e there. let (keyed, client, used) = h.used key e there in (keyed, client))

  -- An add on a coherent manager that raises leaves the manager as it was, its ports included, whatever had been
  -- opened for it.
  pub add_failed :
      (name : String) (source : Source k) (options : AddOptions k) (p : Plant k W) (c : ErrorClass)
      → Coherent p.manager
      → (add host platform name source options p).0 ≡ err c
      → (add host platform name source options p).1.manager ≡ p.manager
  unfolding Added
  add_failed name source options p c h raised =
      by_outcome (add host platform name source options p) raised (added name source options p h)
    where
      by_outcome :
          (o : Result (Balance k) × Plant k W)
          → o.0 ≡ err c
          → Added name p.manager o
          → o.1.manager ≡ p.manager
      by_outcome (err d, q) e same = same
      by_outcome (ok b, q) e entered = cc

  add-Coherent :
      (name : String) (p : Plant k W) (o : Result (Balance k) × Plant k W)
      → Coherent p.manager
      → Added name p.manager o
      → Coherent o.1.manager
  unfolding Added
  add-Coherent name p (err c, q) h same = subst Coherent (sym same) h
  add-Coherent name p (ok balance, q) h entered =
      coherent_entered name balance p.manager q.manager h entered

  -- What `remove` does to the manager.
  unfoldable pub Removed : String → Manager k → Result (Unit {0}) × Plant k W → Type 0
  Removed name m (err c, q) = q.manager ≡ m
  Removed name m (ok u, q) =
      (d : DeviceEntry k) × (get m.devices name ≡ some d) × (q.manager ≡ dropped name d m)

  pub remove-Removed : (name : String) (p : Plant k W) → Removed name p.manager (remove host name p)
  unfolding remove remove_found Removed
  remove-Removed name p =
      holds_continue (Removed name p.manager) (check_open p.manager) _ p (λ c. refl)
        (λ u e. by_device (get p.manager.devices name) refl)
    where
      by_device :
          (o : Option (DeviceEntry k))
          → get p.manager.devices name ≡ o
          → Removed name p.manager (remove_found host name o p)
      by_device none absent = refl
      by_device (some d) found = (d, found, drop_device-manager host name d p)

  remove-Coherent :
      (name : String) (m : Manager k) (o : Result (Unit {0}) × Plant k W)
      → Coherent m
      → Removed name m o
      → Coherent o.1.manager
  unfolding Removed
  remove-Coherent name m (err c, q) h same = subst Coherent (sym same) h
  remove-Coherent name m (ok u, q) h (d, found, same) =
      subst Coherent (sym same) (coherent_dropped m name d h found)

  close-Coherent : (p : Plant k W) → Coherent p.manager → Coherent (close host p).manager
  unfolding close
  close-Coherent p h =
      let after = drop_all host (reverse (names p.manager)) p in
      let kept = drop_all-Coherent host (reverse (names p.manager)) p h in
      let ended : Plant k W = record after { manager = record after.manager { closed = true } } in
      if_both (λ q. Coherent q.manager) p.manager.closed p ended h
        (record {
          counted = kept.counted;
          used = kept.used;
          named = kept.named;
          shared = kept.shared;
          ended = λ closed. devices_cleared host p;
        })

  step-Coherent :
      (operation : Operation k) (p : Plant k W)
      → Coherent p.manager
      → Coherent (step operation p).1.manager
  unfolding step
  step-Coherent (adding name source options) p h =
      let q = add host platform name source options p in
      let kept = add-Coherent name p q h (added name source options p h) in
      keeps_continue (λ x. Coherent x.manager) q.0 (λ balance. pure tt) q.1 kept (λ balance. kept)
  step-Coherent (removing name) p h =
      remove-Coherent name p.manager (remove host name p) h (remove-Removed name p)
  step-Coherent closing p h = close-Coherent p h

  -- Whatever the operations, and whatever the transports and devices answer, the registry stays coherent: each
  -- port counts exactly the devices that stand on it, one at least, is held under its own key and has a client,
  -- which the session of each of its devices works through; each device is held under its own name; and a manager
  -- that is closed holds no device.
  pub run-Coherent :
      (operations : List (Operation k)) (p : Plant k W)
      → Coherent p.manager
      → Coherent (run operations p).manager
  unfolding run
  run-Coherent [] p h = h
  run-Coherent (operation ∷ rest) p h =
      run-Coherent rest (step operation p).1 (step-Coherent operation p h)
