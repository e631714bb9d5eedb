-- ===== src/Streaming/Recorder.antt =====
-- streaming/recorder.py. The clock counts in ticks of its own; the rounding of floats is left out. The consumer and the
-- source enter as the rounds of the loop: what the clock shows, what the poll returns, and how many batches the consumer
-- has taken since the last round. The receiving end stays open; a cancelled run is one with fewer rounds.
pub mod Batches
pub mod Schedule
pub mod Accounting
use sartoriuslib.Prelude.{
  ℕ, zero, suc, ◌+◌, ◌-◌, ◌*◌, ◌/◌, min, max, String, Option, none, some, List, [], ◌∷◌, ◌++◌,
  length, take, drop, Bool, true, false, not, ltb, leb, ◌==◌, if◌then◌else◌,
}
use sartoriuslib.Prelude.Int.{ℤ, pos, negsuc}
use sartoriuslib.Prelude.Dict.{Dict, put}
use sartoriuslib.Errors.{ErrorClass, value_error, not_implemented_error}
use sartoriuslib.Errors.Result.{Result, ok, err}
use sartoriuslib.Errors.Exec.{Exec, pure, raise, lift, modify, guard, ◌>>=◌, ◌>>◌}
use sartoriuslib.Devices.{ProtocolKind}
use sartoriuslib.Devices.Models.{Reading}
use sartoriuslib.Streaming.{
  Host, Failure, PollResult, Sample, AcquisitionSummary, protocol_of_value,
}

pub data OverflowPolicy : Type 0 where
  block drop_newest drop_oldest : OverflowPolicy

-- The floats of a rate and a duration, with what `record` computes from them: whether one is at most zero,
-- 1.0 / rate_hz on the clock, and round(duration * rate_hz).
pub record Rates : Type 1 where
  pub Number : Type 0
  pub nonpositive : Number → Bool
  pub period : Number → ℕ
  pub rounded_product : Number → Number → ℕ

unfoldable pub is_drop_oldest : OverflowPolicy → Bool
is_drop_oldest drop_oldest = true
is_drop_oldest policy = false

-- buffer_size < 1
unfoldable pub below_one : ℤ → Bool
below_one (pos n) = ltb n 1
below_one (negsuc n) = true

module _ (f : Rates) where
  open f use {Number, nonpositive, rounded_product}

  unfoldable pub opt_nonpositive : Option Number → Bool
  opt_nonpositive none = false
  opt_nonpositive (some duration) = nonpositive duration

  -- `total_ticks`
  unfoldable pub total_ticks : Number → Option Number → Option ℕ
  total_ticks rate_hz none = none
  total_ticks rate_hz (some duration) = some (max 1 (rounded_product duration rate_hz))

-- (a + b) // 2, and the midpoint of two datetimes.
unfoldable pub mean : ℕ → ℕ → ℕ
mean a b = (a + b) / 2

module _ (k : Host) where
  open k use {Time, subtract, halve, add, total_seconds}

  unfoldable pub midpoint : Time → Time → Time
  midpoint requested_at received_at = add requested_at (halve (subtract received_at requested_at))

  -- The protocol of an error, where its context names one.
  unfoldable pub error_protocol : Option Failure → Option ProtocolKind
  error_protocol none = none
  error_protocol (some error) = elim error.protocol [
    | none ↦ none
    | some text ↦ protocol_of_value text
  ]

  unfoldable pub sample_protocol : Option Reading → Option Failure → Option ProtocolKind
  unfolding error_protocol
  sample_protocol (some reading) error = some reading.protocol
  sample_protocol none error = error_protocol error

  unfoldable pub sample_of : Time → Time → ℕ → ℕ → String → PollResult → Sample k
  unfolding sample_protocol midpoint mean
  sample_of requested_at received_at sent_ns recv_ns name result = record {
    device = name;
    reading = result.value;
    t_mono_ns = mean sent_ns recv_ns;
    t_utc = midpoint requested_at received_at;
    requested_at = requested_at;
    received_at = received_at;
    latency_s = total_seconds (subtract received_at requested_at);
    protocol = sample_protocol result.value result.error;
    t_midpoint_mono_ns = none;
    metadata = [];
    error = result.error;
  }

  unfoldable pub fill_batch :
      (String → PollResult → Sample k) → Dict PollResult → Dict (Sample k) → Dict (Sample k)
  fill_batch to_sample [] batch = batch
  fill_batch to_sample ((name, result) ∷ results) batch =
      fill_batch to_sample results (put batch name (to_sample name result))

  unfoldable pub build_batch : Dict PollResult → Time → Time → ℕ → ℕ → Dict (Sample k)
  unfolding sample_of fill_batch
  build_batch results requested_at received_at sent_ns recv_ns =
      fill_batch (sample_of requested_at received_at sent_ns recv_ns) results []

  -- One round of the loop, as the clocks, the source and the consumer make it.
  pub record Round : Type 0 where
    pub now : ℕ
    pub after_poll : ℕ
    pub results : Result (Dict PollResult)
    pub requested_at : Time
    pub received_at : Time
    pub sent_ns : ℕ
    pub recv_ns : ℕ
    pub taken : ℕ

  -- The producer's variables, with the stream: the batches that wait in it and those that the consumer has.
  pub record Producer : Type 0 where
    pub tick : ℕ
    pub summary : AcquisitionSummary
    pub queue : List (Dict (Sample k))
    pub received : List (Dict (Sample k))
    pub closed : Bool

  unfoldable pub new_producer : Option ℕ → Producer
  new_producer total = record {
    tick = 0;
    summary = record {
      finished = false;
      samples_emitted = 0;
      samples_late = 0;
      max_drift = 0;
      target_total_samples = total;
    };
    queue = [];
    received = [];
    closed = false;
  }

  -- `record` up to the start of its producer.
  unfoldable pub prepare :
      (f : Rates) → Rates.Number f → Option (Rates.Number f) → ℤ → OverflowPolicy → Result Producer
  unfolding new_producer total_ticks
  prepare f rate_hz duration buffer_size overflow =
      if Rates.nonpositive f rate_hz
      then err value_error
      else if opt_nonpositive f duration
      then err value_error
      else if below_one buffer_size
      then err value_error
      else if is_drop_oldest overflow
      then err not_implemented_error
      else ok (new_producer (total_ticks f rate_hz duration))

-- tick < total_ticks, or an open end.
unfoldable pub goes_on : Option ℕ → ℕ → Bool
goes_on none tick = true
goes_on (some total) tick = ltb tick total

-- min(missed, total_ticks - tick)
unfoldable pub cap_missed : Option ℕ → ℕ → ℕ → ℕ
cap_missed none tick missed = missed
cap_missed (some total) tick missed = min missed (total - tick)

-- The slots that are skipped: none within a period of the target. The division is only made past it.
unfoldable pub missed_slots : ℕ → ℕ → Option ℕ → ℕ → ℕ → ℕ
unfolding cap_missed
missed_slots start period total tick now =
    if ltb (start + tick * period + period) now
    then cap_missed total tick ((now - (start + tick * period)) / period)
    else 0

module _ {k : Host} where
  unfoldable pub skip : ℕ → Producer k → Producer k
  skip missed p = record p {
    tick = p.tick + missed;
    summary = record p.summary { samples_late = p.summary.samples_late + missed };
  }

  -- The consumer takes the batches that have waited longest.
  unfoldable pub consume : ℕ → Producer k → Producer k
  consume n p = record p { queue = drop n p.queue; received = p.received ++ take n p.queue }

  unfoldable pub note_drift : ℕ → Producer k → Producer k
  note_drift drift p = record p {
    summary = record p.summary { max_drift = max p.summary.max_drift drift };
  }

  unfoldable pub emit : Dict (Sample k) → Producer k → Producer k
  emit batch p = record p {
    queue = p.queue ++ batch ∷ [];
    summary = record p.summary { samples_emitted = p.summary.samples_emitted + 1 };
  }

  unfoldable pub lose : Producer k → Producer k
  lose p = record p { summary = record p.summary { samples_late = p.summary.samples_late + 1 } }

  -- `send` waits until the consumer has taken a batch from a full stream; `send_nowait` raises on one. The last policy is
  -- refused before the loop starts.
  unfoldable pub publish : OverflowPolicy → ℕ → Dict (Sample k) → Producer k → Producer k
  unfolding emit lose consume
  publish block capacity batch p =
      emit batch (if ltb (length p.queue) capacity then p else consume 1 p)
  publish drop_newest capacity batch p =
      if ltb (length p.queue) capacity then emit batch p else lose p
  publish drop_oldest capacity batch p = p

  unfoldable pub next_tick : Producer k → Producer k
  next_tick p = record p { tick = p.tick + 1 }

  -- The end of the loop, with send_stream.aclose() of its `finally`.
  unfoldable pub close_stream : Producer k → Producer k
  close_stream p = record p { closed = true }

  -- The next round of the loop, or its end.
  unfoldable pub go_on : Exec (Producer k) Bool → Bool → Exec (Producer k) Bool
  go_on rest true p = rest p
  go_on rest false p = pure false p

  module _ (overflow : OverflowPolicy) (capacity start period : ℕ) where
    -- The batch of a round, once its poll has returned.
    unfoldable pub deliver : Round k → Dict PollResult → Producer k → Producer k
    unfolding build_batch publish note_drift consume next_tick
    deliver round results p =
        let batch =
          build_batch k results round.requested_at round.received_at round.sent_ns round.recv_ns in
        let noted = note_drift (round.after_poll - (start + p.tick * period)) p in
        next_tick (publish overflow capacity batch (consume round.taken noted))

    -- What the poll gave: a batch, after which the loop goes on (`true`), or an exception, which ends it.
    unfoldable pub poll_result : Round k → Result (Dict PollResult) → Exec (Producer k) Bool
    unfolding deliver
    poll_result round (ok results) p = pure true (deliver round results p)
    poll_result round (err c) p = raise c (close_stream p)

    -- The poll of the slot that is reached, unless the run ends with the slots that were skipped.
    unfoldable pub poll_slot : Option ℕ → Round k → Exec (Producer k) Bool
    unfolding poll_result goes_on
    poll_slot total round p =
        if goes_on total p.tick
        then poll_result round round.results p
        else pure false (close_stream p)

    unfoldable pub produce_round : Option ℕ → Round k → Exec (Producer k) Bool
    unfolding skip missed_slots poll_slot goes_on
    produce_round total round p =
        if goes_on total p.tick
        then poll_slot total round (skip (missed_slots start period total p.tick round.now) p)
        else pure false (close_stream p)

    unfoldable pub produce : Option ℕ → List (Round k) → Exec (Producer k) Bool
    unfolding produce_round go_on
    produce total [] p = pure true p
    produce total (round ∷ rounds) p =
        (produce_round total round >>= go_on (produce total rounds)) p

-- The exit of the context manager.
unfoldable pub finish : {k : Host} → Producer k → Producer k
finish p = record p { summary = record p.summary { finished = true } }
