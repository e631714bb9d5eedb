-- ===== src/Examples/Managers.antt =====
-- A manager with two balances on one bus.
use sartoriuslib.Prelude.{
  ℕ, ◌+◌, ◌==◌, ◌≡◌, refl, String, none, List, [], ◌∷◌, Bool, true, false, ◌||◌, arith,
  if◌then◌else◌,
}
use sartoriuslib.Prelude.Int.{ℤ, pos, negsuc}
use sartoriuslib.Prelude.Dict.{Dict, get, put}
use sartoriuslib.Errors.{timeout, is_subclass}
use sartoriuslib.Errors.Result.{ok, err}
use sartoriuslib.Transport.{SerialSettings}
use sartoriuslib.Devices.{xbpi}
use sartoriuslib.Devices.Session.{check_clients}
use sartoriuslib.Manager.{
  raise_errors, return_errors, Platform, new_manager, check_open, is_some, canonical_port_key,
  success, failure,
}
use sartoriuslib.Manager.Ports.{
  Host, Plant, AddOptions, on_port, port_name, open_balance_on_port, may_join, fill, client_for,
  put_port,
}
use sartoriuslib.Manager.Lifecycle.{add, remove, remove_found, close, resolve_source}
use sartoriuslib.Manager.Registry.{Coherent, new_manager-Coherent}
use sartoriuslib.Manager.Directory.{
  Operation, adding, removing, directory, Change, step, run, add_failed, run-Coherent,
}
use sartoriuslib.Manager.Directory.Refinement.{step-Change}
use sartoriuslib.Manager.Shutdown.{Closes, Cleared, close-Cleared}
use sartoriuslib.Manager.Dispatch.{
  group_from, begin, Run, stop, next, complete, conclude, record_result, Progress,
}
use sartoriuslib.Manager.Dispatch.Complete.{dispatch_complete}
use sartoriuslib.Examples.Wire.{kinds}

-- A bench: the transports made, and those that are open.
abbrev Bench : Type 0
Bench = ℕ × List ℕ

abbrev elem : ℕ → List ℕ → Bool
elem t [] = false
elem t (u ∷ us) = (u == t) || elem t us

abbrev without : ℕ → List ℕ → List ℕ
without t [] = []
without t (u ∷ us) = let rest = without t us in if u == t then rest else u ∷ rest

abbrev settings : String → SerialSettings kinds
settings port = record {
  port = port;
  baudrate = 9600;
  bytesize = tt;
  parity = tt;
  stopbits = tt;
  rtscts = false;
  xonxoff = false;
  exclusive = false;
}

-- A balance at a negative address does not answer.
abbrev answers : ℤ → Bool
answers (pos n) = true
answers (negsuc n) = false

abbrev bench : Host kinds Bench
bench = record {
  make = λ s w. (w.0, (w.0 + 1, w.1));
  is_open = λ t w. elem t w.1;
  open_transport = λ t w. (ok tt, (w.0, t ∷ w.1));
  close_transport = λ t w. (ok tt, (w.0, without t w.1));
  label = λ t w. "port";
  identify = λ balance w. if answers balance.dst_sbn then (ok tt, w) else (err timeout, w);
  default_settings = settings;
  number_text = λ t. "0";
}

abbrev posix : Platform
posix = record {
  is_windows = false;
  upper = λ s. s;
  exists = λ s. true;
  realpath = λ s. "/dev/ttyUSB0";
}

abbrev at : ℤ → AddOptions kinds
at dst = record {
  protocol = xbpi;
  serial_settings = none;
  src_sbn = pos 1;
  dst_sbn = dst;
  strict = false;
  with_identify = true;
}

abbrev nothing : Plant kinds Bench
nothing = record { manager = new_manager raise_errors; world = (0, []); clients_made = 0 }

-- The same device under two names.
abbrev bus : List (Operation kinds)
bus =
    adding "pan" (on_port (port_name "/dev/ttyUSB0")) (at (pos 9))
    ∷ adding "lab" (on_port (port_name "/dev/serial/by-id/0")) (at (pos 10))
    ∷ []

abbrev two : Plant kinds Bench
two = run bench posix bus nothing

run-Coherent_example : Coherent two.manager
run-Coherent_example = run-Coherent bench posix bus nothing (new_manager-Coherent raise_errors)

abbrev two-Coherent : Coherent two.manager
two-Coherent = run-Coherent bench posix bus nothing (new_manager-Coherent raise_errors)

add_failed_example :
    (add bench posix "far" (on_port (port_name "/dev/ttyUSB0")) (at (negsuc 0)) nothing).1.manager
    ≡ nothing.manager
unfolding add check_open new_manager is_some get open_balance_on_port may_join check_clients
    client_for
add_failed_example =
    add_failed bench posix "far" (on_port (port_name "/dev/ttyUSB0")) (at (negsuc 0)) nothing
      timeout (new_manager-Coherent raise_errors) refl

step-Change_example :
    Change {k = kinds}
      (removing "pan")
      (ok tt)
      (directory two.manager)
      (directory (step bench posix (removing "pan") two).1.manager)
unfolding step remove check_open new_manager run add is_some get open_balance_on_port may_join
    check_clients client_for remove_found put fill put_port resolve_source canonical_port_key
step-Change_example = step-Change bench posix (removing "pan") two two-Coherent

shut : (t : ℕ) (us : List ℕ) → elem t (without t us) ≡ false
shut t [] = refl
shut t (u ∷ us) = ground (arith, shut t us)

stays_shut : (t u : ℕ) (us : List ℕ) → elem u us ≡ false → elem u (without t us) ≡ false
stays_shut t u [] h = refl
stays_shut t u (v ∷ us) h = ground (arith, stays_shut t u us)

abbrev bench_closes : Closes bench
bench_closes = record { closes = λ t w. shut t w.1; others = λ t u w h. stays_shut t u w.1 h }

close-Cleared_example : Cleared bench two (close bench two)
unfolding run step add check_open new_manager is_some get open_balance_on_port may_join
    check_clients client_for put fill put_port resolve_source canonical_port_key
close-Cleared_example = close-Cleared bench bench_closes two two-Coherent refl

-- The first balance answers 7 and the second does not answer.
abbrev groups : Dict (List String)
groups = ("/dev/ttyUSB0", "pan" ∷ "lab" ∷ []) ∷ []

abbrev half : Progress ℕ
half =
    record_result "pan" (ok 7) (record { pending = ("lab" ∷ []) ∷ []; results = []; errors = [] })

abbrev failing : Progress ℕ
failing =
    record_result "lab" (err timeout)
      (record { pending = [] ∷ []; results = half.results; errors = half.errors })

abbrev failing_run : Run (begin groups) failing
unfolding begin is_subclass record_result
failing_run =
    next (begin groups) half failing (complete [] [] "pan" ("lab" ∷ []) [] [] (ok 7) refl) (
      next half failing failing
        (complete [] [] "lab" [] half.results half.errors (err timeout) refl) (stop failing))

dispatch_complete_example : is_some (get failing.results "lab") ≡ true
unfolding record_result success failure group_from get run add check_open new_manager is_some
    open_balance_on_port may_join check_clients client_for put canonical_port_key conclude
dispatch_complete_example =
    dispatch_complete two.manager.devices ("pan" ∷ "lab" ∷ []) groups failing failing.results
      return_errors refl failing_run refl refl "lab"

abbrev done : Progress ℕ
done =
    record_result "lab" (ok 8)
      (record { pending = [] ∷ []; results = half.results; errors = half.errors })

abbrev done_run : Run (begin groups) done
unfolding begin is_subclass record_result
done_run =
    next (begin groups) half done (complete [] [] "pan" ("lab" ∷ []) [] [] (ok 7) refl) (
      next half done done (complete [] [] "lab" [] half.results half.errors (ok 8) refl)
        (stop done))
