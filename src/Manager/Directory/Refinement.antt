-- ===== src/Manager/Directory/Refinement.antt =====
-- manager.py: each operation of a manager is one change of its directory.
use mathlib.Core.List.{reverse}
use sartoriuslib.Prelude.{
  ◌≡◌, sym, ap, subst, ◌∙◌, inl, inr, String, Option, none, some, true, if◌then◌else◌, str_eq,
  arith, Bool-cases,
}
use sartoriuslib.Prelude.Dict.{Dict, get, put, remove as pop, get-put, get-remove}
use sartoriuslib.Errors.Result.{Result, ok, err}
use sartoriuslib.Errors.Exec.{pure, continue}
use sartoriuslib.Transport.{SerialTypes}
use sartoriuslib.Manager.{Platform, Balance, DeviceEntry, Manager, names}
use sartoriuslib.Manager.Ports.{Host, Plant, AddOptions, Source}
use sartoriuslib.Manager.Lifecycle.{add, remove, close, drop_all}
use sartoriuslib.Manager.Lifecycle.Adding.{device_of, Entered, EnteredOn, Added}
use sartoriuslib.Manager.Lifecycle.Dropping.{dropped}
use sartoriuslib.Manager.Registry.{Coherent}
use sartoriuslib.Manager.Registry.Clearing.{devices_cleared}
use sartoriuslib.Manager.Directory.{
  Operation, adding, removing, closing, port_of_device, directory, Change, refuse, enter, leave,
  clear, step, Removed, remove-Removed, added,
}

-- The directory once a device is entered or taken out.
entered :
    {k : SerialTypes} (devices : Dict (DeviceEntry k)) (name : String) (balance : Balance k)
    (key : Option String) (n : String)
    → port_of_device (get (put devices name (device_of name balance key)) n)
      ≡ (if str_eq name n then some key else port_of_device (get devices n))
unfolding device_of
entered devices name balance key n =
    ground (arith, get-put devices name n (device_of name balance key))

left :
    {k : SerialTypes} (devices : Dict (DeviceEntry k)) (name n : String)
    → port_of_device (get (pop devices name) n)
      ≡ (if str_eq name n then none else port_of_device (get devices n))
left devices name n = ground (arith, get-remove devices name n)

module _ {k : SerialTypes} {W : Type 0} (host : Host k W) (platform : Platform) where
  Added-Change :
      (name : String) (source : Source k) (options : AddOptions k) (m : Manager k)
      (o : Result (Balance k) × Plant k W)
      → Added name m o
      → let after = continue o.0 (λ balance. pure tt) o.1 in
        Change (adding name source options) after.0 (directory m) (directory after.1.manager)
  unfolding Added Entered EnteredOn directory device_of
  Added-Change name source options m (err c, q) same =
      refuse _ c _ _ (λ n. ap (λ x. directory x n) same)
  Added-Change name source options m (ok balance, q) (running, free, inl same) =
      enter name source options _ _ none (ap port_of_device free)
        (λ n. ap (λ x. directory x n) same ∙ entered m.devices name balance none n)
  Added-Change name source options m (ok balance, q)
        (running, free, inr (key, e, keyed, client, works, held, same)) =
      enter name source options _ _ (some key) (ap port_of_device free)
        (λ n. ap (λ x. directory x n) same ∙ entered m.devices name balance (some key) n)

  Removed-Change :
      (name : String) (m : Manager k) (o : Result (Unit {0}) × Plant k W)
      → Removed host platform name m o
      → Change {k = k} (removing name) o.0 (directory m) (directory o.1.manager)
  unfolding Removed directory dropped
  Removed-Change name m (err c, q) same = refuse _ c _ _ (λ n. ap (λ x. directory x n) same)
  Removed-Change name m (ok u, q) (d, found, same) =
      leave name _ _ d.port_key (ap port_of_device found)
        (λ n. ap (λ x. directory x n) same ∙ left m.devices name n)

  close-Change :
      (p : Plant k W)
      → Coherent p.manager
      → Change {k = k} closing (ok tt) (directory p.manager) (directory (close host p).manager)
  unfolding close directory get
  close-Change p h =
      let after = drop_all host (reverse (names p.manager)) p in
      let ended : Plant k W = record after { manager = record after.manager { closed = true } } in
      elim (Bool-cases p.manager.closed) [
        | inl closed ↦
            subst
              (λ b.
                Change {k = k} closing (ok tt) (directory p.manager)
                  (directory (if b then p else ended).manager))
              (sym closed) (clear _ _ (λ n. ap (λ d. port_of_device (get d n)) (h.ended closed)))
        | inr running ↦
            subst
              (λ b.
                Change {k = k} closing (ok tt) (directory p.manager)
                  (directory (if b then p else ended).manager))
              (sym running)
              (clear _ _ (λ n. ap (λ d. port_of_device (get d n)) (devices_cleared host p)))
      ]

  -- Each operation on a coherent manager is one change of its directory, which gives each registered name the key
  -- of its port or none: an operation that raises changes nothing, an add that returns enters a name that was
  -- free, a remove that returns takes out a name that was there, and close takes out every name.
  pub step-Change :
      (operation : Operation k) (p : Plant k W)
      → Coherent p.manager
      → let after = step host platform operation p in
        Change operation after.0 (directory p.manager) (directory after.1.manager)
  unfolding step
  step-Change (adding name source options) p h =
      Added-Change name source options p.manager (add host platform name source options p)
        (added host platform name source options p h)
  step-Change (removing name) p h =
      Removed-Change name p.manager (remove host name p) (remove-Removed host platform name p)
  step-Change closing p h = close-Change p h
