-- ===== src/Examples/Recordings.antt =====
-- Runs of the recorder and of a streaming session.
use sartoriuslib.Prelude.{
  ℕ, ◌+◌, ◌*◌, ◌≤◌, ◌<◌, ◌≡◌, refl, none, some, List, [], ◌∷◌, Bool, true, false, arith,
}
use sartoriuslib.Prelude.Dict.{Dict}
use sartoriuslib.Errors.{timeout, autoprint_active}
use sartoriuslib.Errors.Result.{ok, err}
use sartoriuslib.Errors.Exec.{raise}
use sartoriuslib.Devices.{sbi}
use sartoriuslib.Streaming.{PollResult}
use sartoriuslib.Streaming.Recorder.{
  drop_newest, is_drop_oldest, Round, goes_on, missed_slots, new_producer, produce, build_batch,
}
use sartoriuslib.Streaming.Recorder.Schedule.{missed_slots_bounds}
use sartoriuslib.Streaming.Recorder.Batches.{BatchOf, build_batch-BatchOf}
use sartoriuslib.Streaming.Recorder.Accounting.Finish.{Completed, finite_run-Completed}
use sartoriuslib.Streaming.Session.{
  poll_mode, BalanceCalls, Moment, StreamingSession, enter, next_sample, poll_sample,
}
use sartoriuslib.Streaming.Session.Entry.{enter_refused}
use sartoriuslib.Examples.Tables.{small_host}

-- The poll of a balance that did not answer.
abbrev timed_out : Dict PollResult
timed_out =
    (
      "bal1",
      record {
        value = none;
        error = some (record { kind = timeout; message = "no reply"; protocol = some "xbpi" });
      },
    )
    ∷ []

build_batch-BatchOf_example :
    BatchOf small_host 10 20 100 200 timed_out (build_batch small_host timed_out 10 20 100 200)
build_batch-BatchOf_example = build_batch-BatchOf small_host 10 20 100 200 timed_out (refl, tt)

-- A clock that is four periods late.
missed_slots_bounds_example :
    (goes_on none (3 + missed_slots 0 10 none 3 75) ≡ true
      → 75 ≤ 0 + (3 + missed_slots 0 10 none 3 75) * 10 + 10)
    × (3 < 3 + missed_slots 0 10 none 3 75 → 0 + (3 + missed_slots 0 10 none 3 75) * 10 ≤ 75)
missed_slots_bounds_example = missed_slots_bounds 0 10 none 3 75 (omega arith)

-- A round at a time, in which the consumer takes nothing.
abbrev round_at : ℕ → Round small_host
round_at now = record {
  now = now;
  after_poll = now + 1;
  results = ok timed_out;
  requested_at = 10;
  received_at = 20;
  sent_ns = 100;
  recv_ns = 200;
  taken = 0;
}

abbrev four_rounds : List (Round small_host)
four_rounds = round_at 0 ∷ round_at 35 ∷ round_at 40 ∷ round_at 50 ∷ []

finite_run-Completed_example :
    Completed 3 1
      (produce drop_newest 1 0 10 (some 3) four_rounds (new_producer small_host (some 3)))
unfolding is_drop_oldest
finite_run-Completed_example =
    finite_run-Completed drop_newest 1 0 10 3 four_rounds refl (omega arith)
      ((timed_out, refl), ((timed_out, refl), ((timed_out, refl), ((timed_out, refl), tt))))
      (omega arith)

-- A balance, known by whether it prints by itself, that answers no poll.
abbrev printing_calls : BalanceCalls Bool
printing_calls = record {
  active_protocol = λ printing. sbi;
  autoprint_is_active = λ printing. printing;
  model = λ printing. none;
  poll_balance = raise timeout;
  read_autoprint = raise timeout;
}

abbrev moment : Moment small_host
moment = record { requested_at = 10; received_at = 20; start_ns = 100; end_ns = 200 }

-- A poll session at every ten ticks, after five polls.
abbrev session_of : Bool → StreamingSession small_host Bool
session_of printing = record {
  balance = printing;
  period = some 10;
  mode = poll_mode;
  temporary_autoprint = false;
  confirm = false;
  entered = false;
  tick = 5;
  start = 0;
  waited_for = 40;
  pending = none;
}

enter_refused_example :
    ((enter printing_calls 70 0 moment (session_of true)).0 ≡ err autoprint_active)
    × ((more : ℕ) (next : Moment small_host)
        → next_sample printing_calls more next
            (enter printing_calls 70 0 moment (session_of true)).1
          ≡ poll_sample printing_calls next (enter printing_calls 70 0 moment (session_of true)).1)
enter_refused_example =
    enter_refused printing_calls 70 0 moment (session_of true) refl refl refl refl

-- A poll session at every ten ticks that is active, after five polls.
abbrev polling : StreamingSession small_host Bool
polling = record (session_of false) { entered = true }
