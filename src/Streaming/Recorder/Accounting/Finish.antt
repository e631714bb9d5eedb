-- ===== src/Streaming/Recorder/Accounting/Finish.antt =====
-- A finite run whose polls return comes to its end: each round passes a slot.
use sartoriuslib.Prelude.{
  ◌*◌, ℕ, ◌+◌, ◌-◌, ◌<◌, ◌≤◌, ◌≡◌, refl, sym, ap, subst, ◌∙◌, Option, none, some, List, [], ◌∷◌,
  length, All, Bool, true, false, ltb, arith, if◌then◌else◌,
}
use sartoriuslib.Prelude.Dict.{Dict}
use sartoriuslib.Errors.Result.{Result, ok, err}
use sartoriuslib.Errors.Exec.{pure, continue}
use sartoriuslib.Errors.Keeps.{if_both}
use sartoriuslib.Streaming.{Host, PollResult, Sample}
use sartoriuslib.Streaming.Recorder.{
  OverflowPolicy, block, drop_newest, drop_oldest, is_drop_oldest, Round, Producer, goes_on,
  missed_slots, skip, consume, note_drift, emit, lose, publish, next_tick, close_stream, deliver,
  poll_result, poll_slot, produce_round, go_on, produce, build_batch, new_producer,
}
use sartoriuslib.Streaming.Recorder.Accounting.{
  IsAccounted, skip-IsAccounted, produce_round-IsAccounted, produce-IsAccounted,
}

-- The poll of a round returned.
abbrev pub Polled : {k : Host} → Round k → Type 0
Polled round = (results : Dict PollResult) × (round.results ≡ ok results)

-- A round that is over: it passed a slot, or the run has come to its end.
abbrev Passed : {k : Host} → ℕ → ℕ → Result Bool × Producer k → Type 0
Passed total tick (ok true, q) = tick < q.tick
Passed total tick (ok false, q) = (q.tick ≡ total) × (q.closed ≡ true)
Passed total tick (err c, q) = ⊥

module _ {k : Host} (capacity : ℕ) (batch : Dict (Sample k)) (p : Producer k) where
  tick-publish : (overflow : OverflowPolicy) → (publish overflow capacity batch p).tick ≡ p.tick
  unfolding publish consume emit lose
  tick-publish block =
      if_both (λ (q : Producer k). (emit batch q).tick ≡ p.tick) (ltb (length p.queue) capacity) p
        (consume 1 p) refl refl
  tick-publish drop_newest =
      if_both (λ (q : Producer k). q.tick ≡ p.tick) (ltb (length p.queue) capacity) (emit batch p)
        (lose p) refl refl
  tick-publish drop_oldest = refl

module _ {k : Host} (overflow : OverflowPolicy) (capacity start period total : ℕ) where
  deliver_tick :
      (round : Round k) (results : Dict PollResult) (p : Producer k)
      → (deliver overflow capacity start period round results p).tick ≡ p.tick + 1
  unfolding deliver next_tick note_drift consume
  deliver_tick round results p =
      ap (λ (t : ℕ). t + 1)
        (tick-publish capacity
          (build_batch k results round.requested_at round.received_at round.sent_ns round.recv_ns)
          (consume round.taken (note_drift (round.after_poll - (start + p.tick * period)) p))
          overflow)

  skip_forward : (n : ℕ) (p : Producer k) → p.tick ≤ (skip n p).tick
  unfolding skip
  skip_forward n p = omega arith

  -- The slot that is polled is passed, and a run at its end is closed.
  poll_slot-Passed :
      (round : Round k) (p : Producer k) (tick : ℕ)
      → Polled round
      → tick ≤ p.tick
      → p.tick ≤ total
      → Passed total tick (poll_slot overflow capacity start period (some total) round p)
  unfolding poll_slot goes_on poll_result close_stream
  poll_slot-Passed round p tick (results, e) from h = by_cases (ltb p.tick total) refl
    where
      by_cases :
          (b : Bool)
          → ltb p.tick total ≡ b
          → Passed total tick (
              if b
              then poll_result overflow capacity start period round round.results p
              else pure false (close_stream p))
      by_cases true on =
          subst (λ r. Passed total tick (poll_result overflow capacity start period round r p))
            (sym e) (omega (arith, deliver_tick round results p))
      by_cases false on = (ground arith, refl)

  produce_round-Passed :
      (round : Round k) (p : Producer k)
      → Polled round
      → IsAccounted (some total) capacity p
      → Passed total p.tick (produce_round overflow capacity start period (some total) round p)
  unfolding produce_round goes_on close_stream
  produce_round-Passed round p polled a = by_cases (ltb p.tick total) refl
    where
      skipped : Producer k
      skipped = skip (missed_slots start period (some total) p.tick round.now) p

      by_cases :
          (b : Bool)
          → ltb p.tick total ≡ b
          → Passed total p.tick (
              if b
              then poll_slot overflow capacity start period (some total) round skipped
              else pure false (close_stream p))
      by_cases true on =
          let kept = skip-IsAccounted start period round.now p a in
          poll_slot-Passed round skipped p.tick polled
            (skip_forward (missed_slots start period (some total) p.tick round.now) p) kept.within
      by_cases false on = (ground (arith, a.within), refl)

  abbrev Ended : Result Bool × Producer k → Type 0
  Ended o = (o.0 ≡ ok false) × (o.1.tick ≡ total) × (o.1.closed ≡ true)

  -- With more rounds than slots the loop ends, at its last slot.
  pub produce_ends :
      (rounds : List (Round k)) (p : Producer k)
      → is_drop_oldest overflow ≡ false
      → 1 ≤ capacity
      → All Polled rounds
      → total < length rounds + p.tick
      → IsAccounted (some total) capacity p
      → Ended (produce overflow capacity start period (some total) rounds p)
  unfolding produce go_on
  produce_ends [] p known some_room polled enough a = absurd (let w = a.within in omega arith)
  produce_ends (round ∷ rounds) p known some_room (here, polled) enough a =
      let first = produce_round overflow capacity start period (some total) round p in
      by_outcome first.0 first.1 (produce_round-Passed round p here a) (λ more.
        produce_ends rounds first.1 known some_room polled (omega arith)
          (produce_round-IsAccounted overflow start period known some_room round p a))
    where
      by_outcome :
          (r : Result Bool) (q : Producer k)
          → Passed total p.tick (r, q)
          → (p.tick < q.tick → Ended (produce overflow capacity start period (some total) rounds q))
          → Ended
              (continue r (go_on (produce overflow capacity start period (some total) rounds)) q)
      by_outcome (ok true) q passed later = later passed
      by_outcome (ok false) q (t, c) later = (refl, t, c)
      by_outcome (err c) q passed later = absurd passed

-- A run that has come to its end, with every slot accounted for.
pub record Completed {k : Host} (total capacity : ℕ) (o : Result Bool × Producer k) : Type 0 where
  pub ended : o.0 ≡ ok false
  pub closed : o.1.closed ≡ true
  pub every_slot : o.1.summary.samples_emitted + o.1.summary.samples_late ≡ total
  pub every_batch : length o.1.received + length o.1.queue ≡ o.1.summary.samples_emitted
  pub bounded : length o.1.queue ≤ capacity

new_IsAccounted :
    (k : Host) (total : Option ℕ) (capacity : ℕ) → IsAccounted total capacity (new_producer k total)
unfolding new_producer
new_IsAccounted k none capacity = record {
  slots = refl;
  batches = refl;
  bounded = omega arith;
  within = tt;
}
new_IsAccounted k (some n) capacity = record {
  slots = refl;
  batches = refl;
  bounded = omega arith;
  within = omega arith;
}

module _ {k : Host} (overflow : OverflowPolicy) (capacity start period total : ℕ) where
  -- A finite run of the recorder whose polls return, with a policy that is accepted, room for one batch and more
  -- rounds than slots, comes to its end and closes its stream; each of its slots has then been emitted or counted
  -- as late, each emitted batch is in the stream or with the consumer, and the stream holds at most its capacity.
  pub finite_run-Completed :
      (rounds : List (Round k))
      → is_drop_oldest overflow ≡ false
      → 1 ≤ capacity
      → All Polled rounds
      → total < length rounds
      → Completed total capacity
          (produce overflow capacity start period (some total) rounds (new_producer k (some total)))
  finite_run-Completed rounds known some_room polled enough =
      let a =
        produce-IsAccounted overflow start period known some_room rounds
          (new_producer k (some total)) fresh in
      let (e, t, c) =
        produce_ends overflow capacity start period total rounds (new_producer k (some total)) known
          some_room polled (omega arith) fresh in
      record {
        ended = e;
        closed = c;
        every_slot = a.slots ∙ t;
        every_batch = a.batches;
        bounded = a.bounded;
      }
    where
      fresh : IsAccounted (some total) capacity (new_producer k (some total))
      fresh = new_IsAccounted k (some total) capacity
