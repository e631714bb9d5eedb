-- ===== src/Streaming/Recorder/Schedule.antt =====
-- The slots of the schedule: after the skip of a round the producer stands in a slot that is due, or waits for one.
use native.Mathlib.Nat.{div-add-mod', mod-lt, add-mul, add-zero, mul-le-mul_right}
use sartoriuslib.Prelude.{
  ℕ, ◌+◌, ◌-◌, ◌*◌, ◌/◌, ◌<◌, ◌≤◌, ◌≡◌, refl, sym, subst, Option, none, some, Bool, true, false,
  ltb, ltb→lt, arith, if◌then◌else◌,
}
use sartoriuslib.Streaming.Recorder.{goes_on, cap_missed, missed_slots}

-- What the division gives: the whole periods that have passed since the target.
passed :
    (late period : ℕ)
    → 0 < period
    → (late / period * period ≤ late) × (late < late / period * period + period)
passed late period pos =
    let whole = div-add-mod' late period in let rest = mod-lt late pos in (omega arith, omega arith)

-- With `missed` more slots, at most as many as the periods that have passed.
slot_begun :
    (start period tick now missed : ℕ)
    → 0 < period
    → start + tick * period + period < now
    → missed ≤ (now - (start + tick * period)) / period
    → start + (tick + missed) * period ≤ now
slot_begun start period tick now missed pos late few =
    let (whole, rest) = passed (now - (start + tick * period)) period pos in
    let most : missed * period ≤ (now - (start + tick * period)) / period * period =
      mul-le-mul_right period few in
    omega (arith, add-mul tick missed period)

slot_due :
    (start period tick now : ℕ)
    → 0 < period
    → start + tick * period + period < now
    → now ≤ start + (tick + (now - (start + tick * period)) / period) * period + period
slot_due start period tick now pos late =
    let (whole, rest) = passed (now - (start + tick * period)) period pos in
    omega (arith, add-mul tick ((now - (start + tick * period)) / period) period)

cap_missed-le : (total : Option ℕ) (tick m : ℕ) → cap_missed total tick m ≤ m
unfolding cap_missed
cap_missed-le none tick m = omega arith
cap_missed-le (some n) tick m = omega arith

-- A run that goes on was not capped.
uncapped :
    (total : Option ℕ) (tick m : ℕ)
    → goes_on total (tick + cap_missed total tick m) ≡ true
    → cap_missed total tick m ≡ m
unfolding cap_missed goes_on
uncapped none tick m h = refl
uncapped (some n) tick m h = ground arith

module _ (start period : ℕ) (total : Option ℕ) (tick now : ℕ) (pos : 0 < period) where
  abbrev missed : ℕ
  missed = missed_slots start period total tick now

  -- Where the run goes on after the skip of late slots, the slot reached is at most one period behind the clock;
  -- and where slots were skipped, the slot reached has begun. The period is positive.
  pub missed_slots_bounds :
      (goes_on total (tick + missed) ≡ true → now ≤ start + (tick + missed) * period + period)
      × (tick < tick + missed → start + (tick + missed) * period ≤ now)
  unfolding missed_slots
  missed_slots_bounds = by_cases (ltb (start + tick * period + period) now) refl
    where
      skipped : ℕ
      skipped = cap_missed total tick ((now - (start + tick * period)) / period)

      by_cases :
          (b : Bool)
          → ltb (start + tick * period + period) now ≡ b
          → let m = (if b then skipped else 0) in
            (goes_on total (tick + m) ≡ true → now ≤ start + (tick + m) * period + period)
            × (tick < tick + m → start + (tick + m) * period ≤ now)
      by_cases true e =
          let late = ltb→lt _ _ e in
          (
            λ h.
                subst (λ (m : ℕ). now ≤ start + (tick + m) * period + period)
                  (sym (uncapped total tick ((now - (start + tick * period)) / period) h))
                  (slot_due start period tick now pos late),
            λ h.
                slot_begun start period tick now skipped pos late
                  (cap_missed-le total tick ((now - (start + tick * period)) / period)),
          )
      by_cases false e = (λ h. ground (arith, add-zero tick), λ h. omega arith)
