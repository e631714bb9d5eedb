-- ===== src/Streaming/Recorder/Accounting.antt =====
-- The counters of a run: each slot is either emitted or late, and what was emitted is in the stream or with the consumer.
pub mod Finish
use native.Mathlib.Nat.{add-zero}
use sartoriuslib.Prelude.{
  ◌*◌, ◌/◌, ltb→lt, ℕ, zero, suc, ◌+◌, ◌-◌, ◌<◌, ◌≤◌, ◌≡◌, refl, sym, ap, subst, min, ◌⊎◌, inl, inr,
  Option, none, some, List, [], ◌∷◌, ◌++◌, length, take, drop, length-append, length-take,
  length-drop, Bool, true, false, ltb, arith, if◌then◌else◌,
}
use sartoriuslib.Prelude.Dict.{Dict}
use sartoriuslib.Errors.{ErrorClass}
use sartoriuslib.Errors.Result.{Result, ok, err}
use sartoriuslib.Errors.Exec.{Exec, pure, raise, continue}
use sartoriuslib.Errors.Keeps.{if_both, keeps_continue}
use sartoriuslib.Streaming.{Host, PollResult, Sample}
use sartoriuslib.Streaming.Recorder.{
  OverflowPolicy, block, drop_newest, drop_oldest, is_drop_oldest, Round, Producer, goes_on,
  cap_missed, missed_slots, skip, consume, note_drift, emit, lose, publish, next_tick, close_stream,
  deliver, poll_result, go_on, poll_slot, produce_round, produce, build_batch,
}

-- A finite run has not passed its last slot.
abbrev pub Within : Option ℕ → ℕ → Type 0
Within none tick = Unit
Within (some total) tick = tick ≤ total

pub record IsAccounted {k : Host} (total : Option ℕ) (capacity : ℕ) (p : Producer k) : Type 0 where
  pub slots : p.summary.samples_emitted + p.summary.samples_late ≡ p.tick
  pub batches : length p.received + length p.queue ≡ p.summary.samples_emitted
  pub bounded : length p.queue ≤ capacity
  pub within : Within total p.tick

Within-cap :
    (total : Option ℕ) (tick m : ℕ)
    → Within total tick
    → Within total (tick + cap_missed total tick m)
unfolding cap_missed
Within-cap none tick m h = tt
Within-cap (some n) tick m h = omega arith

Within-next : (total : Option ℕ) (tick : ℕ) → goes_on total tick ≡ true → Within total (tick + 1)
unfolding goes_on
Within-next none tick h = tt
Within-next (some n) tick h = ground arith

module _ (start period now : ℕ) where
  Within-skip :
      (total : Option ℕ) (tick : ℕ)
      → Within total tick
      → Within total (tick + missed_slots start period total tick now)
  unfolding missed_slots
  Within-skip total tick h = by_cases (ltb (start + tick * period + period) now)
    where
      by_cases :
          (b : Bool)
          → Within total (
              tick
              + (if b then cap_missed total tick ((now - (start + tick * period)) / period) else 0))
      by_cases true = Within-cap total tick ((now - (start + tick * period)) / period) h
      by_cases false = subst (Within total) (sym (add-zero tick)) h

module _ {k : Host} {total : Option ℕ} {capacity : ℕ} where
  -- The cap is what keeps a skip within the run.
  pub skip-IsAccounted :
      (start period now : ℕ) (p : Producer k)
      → IsAccounted total capacity p
      → IsAccounted total capacity (skip (missed_slots start period total p.tick now) p)
  unfolding skip
  skip-IsAccounted start period now p a = record {
    slots = omega (arith, a.slots);
    batches = a.batches;
    bounded = a.bounded;
    within = Within-skip start period now total p.tick a.within;
  }

  consume-IsAccounted :
      (n : ℕ) (p : Producer k)
      → IsAccounted total capacity p
      → IsAccounted total capacity (consume n p)
  unfolding consume
  consume-IsAccounted n p a = record {
    slots = a.slots;
    batches = omega (
      arith,
      a.batches,
      length-append p.received (take n p.queue),
      length-take n p.queue,
      length-drop n p.queue,
    );
    bounded = omega (arith, a.bounded, length-drop n p.queue);
    within = a.within;
  }

  close_stream-IsAccounted :
      (p : Producer k) → IsAccounted total capacity p → IsAccounted total capacity (close_stream p)
  unfolding close_stream
  close_stream-IsAccounted p a = record {
    slots = a.slots;
    batches = a.batches;
    bounded = a.bounded;
    within = a.within;
  }

  -- A batch that finds room, and one that is dropped, pass their slot.
  emit_next :
      (batch : Dict (Sample k)) (p : Producer k)
      → length p.queue < capacity
      → goes_on total p.tick ≡ true
      → IsAccounted total capacity p
      → IsAccounted total capacity (next_tick (emit batch p))
  unfolding next_tick emit
  emit_next batch p room on a = record {
    slots = omega (arith, a.slots);
    batches = omega (arith, a.batches, length-append p.queue (batch ∷ []));
    bounded = omega (arith, a.bounded, length-append p.queue (batch ∷ []));
    within = Within-next total p.tick on;
  }

  lose_next :
      (p : Producer k)
      → goes_on total p.tick ≡ true
      → IsAccounted total capacity p
      → IsAccounted total capacity (next_tick (lose p))
  unfolding next_tick lose
  lose_next p on a = record {
    slots = omega (arith, a.slots);
    batches = a.batches;
    bounded = a.bounded;
    within = Within-next total p.tick on;
  }

  publish-IsAccounted :
      (overflow : OverflowPolicy) (batch : Dict (Sample k)) (p : Producer k)
      → is_drop_oldest overflow ≡ false
      → 1 ≤ capacity
      → goes_on total p.tick ≡ true
      → IsAccounted total capacity p
      → IsAccounted total capacity (next_tick (publish overflow capacity batch p))
  unfolding publish consume is_drop_oldest
  publish-IsAccounted block batch p known some_room on a =
      by_cases (ltb (length p.queue) capacity) refl
    where
      by_cases :
          (b : Bool)
          → ltb (length p.queue) capacity ≡ b
          → IsAccounted total capacity (next_tick (emit batch (if b then p else consume 1 p)))
      by_cases true e = emit_next batch p (ltb→lt _ _ e) on a
      by_cases false e =
          emit_next batch (consume 1 p) (omega (arith, a.bounded, length-drop 1 p.queue)) on
            (consume-IsAccounted 1 p a)
  publish-IsAccounted drop_newest batch p known some_room on a =
      by_cases (ltb (length p.queue) capacity) refl
    where
      by_cases :
          (b : Bool)
          → ltb (length p.queue) capacity ≡ b
          → IsAccounted total capacity (next_tick (if b then emit batch p else lose p))
      by_cases true e = emit_next batch p (ltb→lt _ _ e) on a
      by_cases false e = lose_next p on a
  publish-IsAccounted drop_oldest batch p known some_room on a = cc

  module _ (overflow : OverflowPolicy) (start period : ℕ) (known : is_drop_oldest overflow ≡ false)
      (some_room : 1 ≤ capacity) where
    deliver-IsAccounted :
        (round : Round k) (results : Dict PollResult) (p : Producer k)
        → goes_on total p.tick ≡ true
        → IsAccounted total capacity p
        → IsAccounted total capacity (deliver overflow capacity start period round results p)
    unfolding deliver note_drift consume
    deliver-IsAccounted round results p on a =
        publish-IsAccounted overflow
          (build_batch k results round.requested_at round.received_at round.sent_ns round.recv_ns)
          (consume round.taken (note_drift (round.after_poll - (start + p.tick * period)) p)) known
          some_room on
          (consume-IsAccounted round.taken
            (note_drift (round.after_poll - (start + p.tick * period)) p)
            (record {
              slots = a.slots;
              batches = a.batches;
              bounded = a.bounded;
              within = a.within;
            }))

    poll_slot-IsAccounted :
        (round : Round k) (p : Producer k)
        → IsAccounted total capacity p
        → IsAccounted total capacity (poll_slot overflow capacity start period total round p).1
    unfolding poll_slot poll_result
    poll_slot-IsAccounted round p a = by_cases (goes_on total p.tick) refl
      where
        by_results :
            goes_on total p.tick ≡ true
            → (r : Result (Dict PollResult))
            → IsAccounted total capacity (poll_result overflow capacity start period round r p).1
        by_results on (ok results) = deliver-IsAccounted round results p on a
        by_results on (err c) = close_stream-IsAccounted p a

        by_cases :
            (b : Bool)
            → goes_on total p.tick ≡ b
            → IsAccounted total capacity
                (if b
                  then poll_result overflow capacity start period round round.results p
                  else pure false (close_stream p)).1
        by_cases true e = by_results e round.results
        by_cases false e = close_stream-IsAccounted p a

    pub produce_round-IsAccounted :
        (round : Round k) (p : Producer k)
        → IsAccounted total capacity p
        → IsAccounted total capacity (produce_round overflow capacity start period total round p).1
    unfolding produce_round
    produce_round-IsAccounted round p a =
        if_both (λ o. IsAccounted total capacity o.1) (goes_on total p.tick)
          (poll_slot overflow capacity start period total round
            (skip (missed_slots start period total p.tick round.now) p))
          (pure false (close_stream p))
          (poll_slot-IsAccounted round (skip (missed_slots start period total p.tick round.now) p)
            (skip-IsAccounted start period round.now p a))
          (close_stream-IsAccounted p a)

    pub produce-IsAccounted :
        (rounds : List (Round k)) (p : Producer k)
        → IsAccounted total capacity p
        → IsAccounted total capacity (produce overflow capacity start period total rounds p).1
    unfolding produce go_on
    produce-IsAccounted [] p a = a
    produce-IsAccounted (round ∷ rounds) p a =
        let first = produce_round overflow capacity start period total round p in
        let next : IsAccounted total capacity first.1 = produce_round-IsAccounted round p a in
        keeps_continue (IsAccounted total capacity) first.0
          (go_on (produce overflow capacity start period total rounds)) first.1 next
          (by_going_on first.1 next (produce-IsAccounted rounds first.1 next))
      where
        by_going_on :
            (q : Producer k)
            → IsAccounted total capacity q
            → IsAccounted total capacity (produce overflow capacity start period total rounds q).1
            → (on : Bool)
            → IsAccounted total capacity
                (go_on (produce overflow capacity start period total rounds) on q).1
        by_going_on q stopped later true = later
        by_going_on q stopped later false = stopped
