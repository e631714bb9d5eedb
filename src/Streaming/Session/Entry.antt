-- ===== src/Streaming/Session/Entry.antt =====
-- Entering a session: what a refusal leaves, what the first sample is, and what a second run starts from.
use sartoriuslib.Prelude.{
  ℕ, zero, suc, ◌≡◌, refl, sym, ap, subst, ◌∙◌, none, some, List, [], ◌∷◌, Bool, true, false, not,
}
use sartoriuslib.Errors.{runtime_error, autoprint_active, protocol_unsupported, parse, is_subclass}
use sartoriuslib.Errors.Result.{Result, ok, err}
use sartoriuslib.Errors.Exec.{Exec, guard, raise, modify, err≢ok, ◌>>◌}
use sartoriuslib.Errors.Keeps.{holds_guard, holds_continue, if_both}
use sartoriuslib.Devices.{same_protocol, sbi}
use sartoriuslib.Devices.Models.{Reading}
use sartoriuslib.Streaming.{Host, Sample}
use sartoriuslib.Streaming.Session.{
  poll_mode, autoprint_mode, BalanceCalls, Moment, StreamingSession, begin_session, enter_mode,
  enter_autoprint, enter, next_pending, next_by_mode, next_sample, poll_sample, or_again,
  on_balance, read_autoprint_sample,
}

module _ {k : Host} {B : Type 0} (calls : BalanceCalls B) where
  open calls use {active_protocol, poll_balance, read_autoprint}

  again-entered :
      (moment : Moment k) (r : Result Reading) (again : Exec (StreamingSession k B) (Sample k))
      (s : StreamingSession k B)
      → s.entered ≡ true
      → (again s).1.entered ≡ true
      → (or_again calls moment r again s).1.entered ≡ true
  unfolding or_again
  again-entered moment (ok reading) again s h later = h
  again-entered moment (err c) again s h later =
      if_both (λ (o : Result (Sample k) × StreamingSession k B). o.1.entered ≡ true)
        (is_subclass c parse) (again s) (raise c s) later h

  -- A session that is not active enters as its mode does.
  enter_idle :
      (now rounds : ℕ) (moment : Moment k) (s : StreamingSession k B)
      → s.entered ≡ false
      → enter calls now rounds moment s
        ≡ enter_mode calls s.mode rounds moment (begin_session calls now s)
  unfolding enter
  enter_idle now rounds moment s idle = rw idle refl

  -- Entering a poll session that is not active and holds no sample, while the balance prints by itself, is refused
  -- with the autoprint error, and all the same leaves the session active: a call for a sample that follows polls
  -- the balance.
  pub enter_refused :
      (now rounds : ℕ) (moment : Moment k) (s : StreamingSession k B)
      → s.mode ≡ poll_mode
      → s.entered ≡ false
      → s.pending ≡ none
      → BalanceCalls.autoprint_is_active calls s.balance ≡ true
      → ((enter calls now rounds moment s).0 ≡ err autoprint_active)
        × ((more : ℕ) (next : Moment k)
            → next_sample calls more next (enter calls now rounds moment s).1
              ≡ poll_sample calls next (enter calls now rounds moment s).1)
  unfolding begin_session enter_mode next_sample next_pending next_by_mode
  enter_refused now rounds moment s polling idle empty printing =
      subst
        (λ (o : Result (Unit {0}) × StreamingSession k B).
          (o.0 ≡ err autoprint_active)
          × ((more : ℕ) (next : Moment k)
              → next_sample calls more next o.1 ≡ poll_sample calls next o.1))
        (sym refused) (refl, unguarded)
    where
      begun : StreamingSession k B
      begun = begin_session calls now s

      refused : enter calls now rounds moment s ≡ (err autoprint_active, begun)
      refused =
          enter_idle now rounds moment s idle
          ∙ ap (λ mode. enter_mode calls mode rounds moment begun) polling
          ∙ ap (λ active. guard (not active) autoprint_active begun) printing

      unguarded :
          (more : ℕ) (next : Moment k)
          → next_sample calls more next begun ≡ poll_sample calls next begun
      unguarded more next =
          ap (λ p. next_pending calls p more next begun) empty
          ∙ ap (λ mode. next_by_mode calls mode more next begun) polling

  -- A read of the autoprint lines leaves the session active.
  read-entered :
      (rounds : ℕ) (moment : Moment k) (s : StreamingSession k B)
      → s.entered ≡ true
      → (read_autoprint_sample calls rounds moment s).1.entered ≡ true
  unfolding read_autoprint_sample on_balance
  read-entered zero moment s h = again-entered moment (read_autoprint s.balance).0 _ _ h h
  read-entered (suc rounds) moment s h =
      again-entered moment (read_autoprint s.balance).0 (read_autoprint_sample calls rounds moment)
        (record s { balance = (read_autoprint s.balance).1 }) h
        (read-entered rounds moment (record s { balance = (read_autoprint s.balance).1 }) h)

  -- What holds of an entry that returned: a sample is pending, and the session is active.
  abbrev Begun : Result (Unit {0}) × StreamingSession k B → Type 0
  Begun (ok done, q) = (sample : Sample k) × (q.pending ≡ some sample) × (q.entered ≡ true)
  Begun (err c, q) = Unit

  enter_autoprint-Begun :
      (rounds : ℕ) (moment : Moment k) (temporary confirm : Bool) (s : StreamingSession k B)
      → s.entered ≡ true
      → Begun (enter_autoprint calls rounds moment temporary confirm s)
  unfolding enter_autoprint
  enter_autoprint-Begun rounds moment true false s h = tt
  enter_autoprint-Begun rounds moment true true s h = tt
  enter_autoprint-Begun rounds moment false confirm s h =
      let read = read_autoprint_sample calls rounds moment s in
      holds_continue Begun read.0 (λ sample. modify (λ q. record q { pending = some sample }))
        read.1 (λ c. tt) (λ sample e. (sample, refl, read-entered rounds moment s h))

  pub enter_autoprint-first :
      (now rounds : ℕ) (moment : Moment k) (s : StreamingSession k B)
      → s.mode ≡ autoprint_mode
      → s.entered ≡ false
      → (enter calls now rounds moment s).0 ≡ ok tt
      → (sample : Sample k) × ((more : ℕ) (next : Moment k)
          → next_sample calls more next (enter calls now rounds moment s).1
            ≡ (ok sample, record (enter calls now rounds moment s).1 { pending = none }))
  unfolding begin_session enter_mode next_sample next_pending
  enter_autoprint-first now rounds moment s printing idle h =
      first (enter calls now rounds moment s) h (
        subst Begun (sym entering) (
          holds_guard Begun (same_protocol (active_protocol s.balance) sbi) protocol_unsupported
            (enter_autoprint calls rounds moment s.temporary_autoprint s.confirm) begun tt
            (λ e. enter_autoprint-Begun rounds moment s.temporary_autoprint s.confirm begun refl)))
    where
      begun : StreamingSession k B
      begun = begin_session calls now s

      entering :
          enter calls now rounds moment s ≡ enter_mode calls autoprint_mode rounds moment begun
      entering =
          enter_idle now rounds moment s idle
          ∙ ap (λ mode. enter_mode calls mode rounds moment begun) printing

      first :
          (o : Result (Unit {0}) × StreamingSession k B)
          → o.0 ≡ ok tt
          → Begun o
          → (sample : Sample k) × ((more : ℕ) (next : Moment k)
              → next_sample calls more next o.1 ≡ (ok sample, record o.1 { pending = none }))
      first (ok done, q) e (sample, held, active) = (
        sample,
        λ more next.
            ap (λ b. (guard b runtime_error >> next_pending calls q.pending more next) q) active
            ∙ ap (λ p. next_pending calls p more next q) held,
      )
      first (err c, q) e b = absurd (err≢ok e)

  -- Calls for a sample, one at each of these moments.
  abbrev pub call_all : List (ℕ × Moment k) → StreamingSession k B → StreamingSession k B
  call_all [] s = s
  call_all ((rounds, moment) ∷ moments) s = call_all moments (next_sample calls rounds moment s).1

  -- An active poll session that holds no sample, with its period and its count of polls.
  abbrev pub Polling : ℕ → ℕ → StreamingSession k B → Type 0
  Polling period tick s =
      (s.mode ≡ poll_mode)
      × (s.entered ≡ true)
      × (s.pending ≡ none)
      × (s.period ≡ some period)
      × (s.tick ≡ tick)
