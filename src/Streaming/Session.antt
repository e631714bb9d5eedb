-- ===== src/Streaming/Session.antt =====
-- streaming/stream_session.py: one balance as a context manager and an iterator. The balance is an interface of the calls
-- that are made; a clock counts in ticks, and a retry that ends by the clock takes the number of its rounds.
pub mod Entry
use sartoriuslib.Prelude.{
  ℕ, zero, suc, ◌+◌, ◌*◌, ◌/◌, String, Option, none, some, List, [], ◌∷◌, Bool, true, false, not,
  if◌then◌else◌,
}
use sartoriuslib.Errors.{
  ErrorClass, value_error, runtime_error, protocol_unsupported, confirmation_required,
  not_implemented_error, autoprint_active, parse, is_subclass,
}
use sartoriuslib.Errors.Result.{Result, ok, err}
use sartoriuslib.Errors.Exec.{Exec, pure, raise, lift, gets, modify, guard, ◌>>=◌, ◌>>◌}
use sartoriuslib.Devices.{ProtocolKind, same_protocol, sbi}
use sartoriuslib.Devices.Models.{Reading}
use sartoriuslib.Streaming.{Host, Sample}

pub data StreamMode : Type 0 where
  poll_mode autoprint_mode other_mode : StreamMode

-- What a streaming session calls of its balance, on the state of the balance.
pub record BalanceCalls (B : Type 0) : Type 0 where
  pub active_protocol : B → ProtocolKind
  pub autoprint_is_active : B → Bool
  pub model : B → Option String
  pub poll_balance : Exec B Reading
  pub read_autoprint : Exec B Reading

-- The clocks around one read.
pub record Moment (k : Host) : Type 0 where
  pub requested_at : Host.Time k
  pub received_at : Host.Time k
  pub start_ns : ℕ
  pub end_ns : ℕ

-- The session with its balance. The rate is the period of its polls; `waited_for` is the time that the last poll slept
-- until, where the clock was before it.
pub record StreamingSession (k : Host) (B : Type 0) : Type 0 where
  pub balance : B
  pub period : Option ℕ
  pub mode : StreamMode
  pub temporary_autoprint : Bool
  pub confirm : Bool
  pub entered : Bool
  pub tick : ℕ
  pub start : ℕ
  pub waited_for : ℕ
  pub pending : Option (Sample k)

-- `rate_hz is None or rate_hz <= 0`: a period stands for a positive rate.
unfoldable pub check_mode : StreamMode → Option ℕ → Result (Unit {0})
check_mode other_mode period = err value_error
check_mode poll_mode none = err value_error
check_mode poll_mode (some period) = ok tt
check_mode autoprint_mode period = ok tt

module _ (k : Host) where
  open k use {subtract, add, total_seconds, half_seconds}

  unfoldable pub sample_from_reading : String → Reading → Moment k → String → Sample k
  sample_from_reading device reading m mode =
      let latency = total_seconds (subtract m.received_at m.requested_at) in
      record {
        device = device;
        reading = some reading;
        t_mono_ns = (m.start_ns + m.end_ns) / 2;
        t_utc = add m.requested_at (half_seconds latency);
        requested_at = m.requested_at;
        received_at = m.received_at;
        latency_s = latency;
        protocol = some reading.protocol;
        t_midpoint_mono_ns = none;
        metadata = ("mode", mode) ∷ [];
        error = none;
      }

module _ {k : Host} {B : Type 0} (calls : BalanceCalls B) where
  open calls use {active_protocol, autoprint_is_active, model, poll_balance, read_autoprint}

  -- A call of the balance, whose state stays in the session.
  unfoldable pub on_balance : {A : Type 0} → Exec B A → Exec (StreamingSession k B) A
  on_balance call s = let (r, b) = call s.balance in (r, record s { balance = b })

  unfoldable pub new_stream :
      B → Option ℕ → StreamMode → Bool → Bool → Result (StreamingSession k B)
  new_stream balance period mode temporary confirm = elim (check_mode mode period) [
    | err c ↦ err c
    | ok done ↦ ok (record {
      balance = balance;
      period = period;
      mode = mode;
      temporary_autoprint = temporary;
      confirm = confirm;
      entered = false;
      tick = 0;
      start = 0;
      waited_for = 0;
      pending = none;
    })
  ]

  unfoldable pub device_name : StreamingSession k B → String
  device_name s = elim (model s.balance) [ none ↦ "balance" | some name ↦ name ]

  -- A parse error has the read made again, if there is time.
  unfoldable pub or_again :
      Moment k
      → Result Reading
      → Exec (StreamingSession k B) (Sample k)
      → Exec (StreamingSession k B) (Sample k)
  unfolding device_name sample_from_reading
  or_again moment (ok reading) again s =
      pure (sample_from_reading k (device_name s) reading moment "autoprint") s
  or_again moment (err c) again s = if is_subclass c parse then again s else raise c s

  -- `rounds` is the number of the reads that end before the deadline.
  unfoldable pub read_autoprint_sample : ℕ → Moment k → Exec (StreamingSession k B) (Sample k)
  unfolding or_again on_balance
  read_autoprint_sample zero moment s =
      let (r, s') = on_balance read_autoprint s in or_again moment r (raise parse) s'
  read_autoprint_sample (suc rounds) moment s =
      let (r, s') = on_balance read_autoprint s in
      or_again moment r (read_autoprint_sample rounds moment) s'

  -- The assertion that there is a rate holds for a poll session, by its constructor.
  unfoldable pub poll_target : StreamingSession k B → ℕ
  poll_target s = elim s.period [ none ↦ s.start | some period ↦ s.start + s.tick * period ]

  unfoldable pub poll_sample : Moment k → Exec (StreamingSession k B) (Sample k)
  unfolding on_balance device_name sample_from_reading poll_target
  poll_sample moment = do
    modify (λ s. record s { waited_for = poll_target s; tick = s.tick + 1 })
    reading ← on_balance poll_balance
    name ← gets device_name
    pure (sample_from_reading k name reading moment "poll")

  unfoldable pub enter_autoprint :
      ℕ → Moment k → Bool → Bool → Exec (StreamingSession k B) (Unit {0})
  unfolding read_autoprint_sample
  enter_autoprint rounds moment true false s = raise confirmation_required s
  enter_autoprint rounds moment true true s = raise not_implemented_error s
  enter_autoprint rounds moment false confirm s =
      (do
        sample ← read_autoprint_sample rounds moment
        modify (λ q. record q { pending = some sample }))
        s

  unfoldable pub enter_mode : StreamMode → ℕ → Moment k → Exec (StreamingSession k B) (Unit {0})
  unfolding enter_autoprint
  enter_mode autoprint_mode rounds moment s =
      (guard (same_protocol (active_protocol s.balance) sbi) protocol_unsupported
          >> enter_autoprint rounds moment s.temporary_autoprint s.confirm)
        s
  enter_mode mode rounds moment s = guard (not (autoprint_is_active s.balance)) autoprint_active s

  unfoldable pub begin_session : ℕ → StreamingSession k B → StreamingSession k B
  begin_session now s = record s { entered = true; start = now }

  -- __aenter__
  unfoldable pub enter : ℕ → ℕ → Moment k → Exec (StreamingSession k B) (Unit {0})
  unfolding begin_session enter_mode
  enter now rounds moment s =
      (do
        guard (not s.entered) runtime_error
        modify (begin_session now)
        enter_mode s.mode rounds moment)
        s

  -- __aexit__
  unfoldable pub exit_session : StreamingSession k B → StreamingSession k B
  exit_session s = record s { entered = false; pending = none }

  unfoldable pub next_by_mode : StreamMode → ℕ → Moment k → Exec (StreamingSession k B) (Sample k)
  unfolding read_autoprint_sample poll_sample
  next_by_mode autoprint_mode rounds moment s = read_autoprint_sample rounds moment s
  next_by_mode mode rounds moment s = poll_sample moment s

  unfoldable pub next_pending :
      Option (Sample k) → ℕ → Moment k → Exec (StreamingSession k B) (Sample k)
  unfolding next_by_mode
  next_pending (some sample) rounds moment s = pure sample (record s { pending = none })
  next_pending none rounds moment s = next_by_mode s.mode rounds moment s

  -- __anext__
  unfoldable pub next_sample : ℕ → Moment k → Exec (StreamingSession k B) (Sample k)
  unfolding next_pending
  next_sample rounds moment s =
      (guard s.entered runtime_error >> next_pending s.pending rounds moment) s
