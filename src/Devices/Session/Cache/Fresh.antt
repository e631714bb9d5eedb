-- ===== src/Devices/Session/Cache/Fresh.antt =====
-- The cache of results serves a value only under the configuration counter that it was stored with.
use sartoriuslib.Prelude.{
  ℕ, ◌≡◌, ◌≢◌, refl, sym, subst, ap, ◌∙◌, String, Option, none, some, Bool, true, false,
  if◌then◌else◌, arith, Bool-cases, inl, inr, ◌==◌, ==_iff,
}
use sartoriuslib.Prelude.Dict.{get, put, get-put}
use text.Mathlib.TextEquality.{eq_iff}
use sartoriuslib.Errors.Result.{Result, ok, err}
use sartoriuslib.Errors.Exec.{pure, continue, err≢ok, ◌>>◌}
use sartoriuslib.Transport.{SerialTypes, Transport}
use sartoriuslib.Sbi.Types.{SbiCodec}
use sartoriuslib.Devices.{Command}
use sartoriuslib.Devices.Session.Gates.{Link}
use sartoriuslib.Devices.Session.Dispatch.{execute, config_counter}
use sartoriuslib.Devices.Session.Dispatch.Seen.{execute_setup}
use sartoriuslib.Devices.Session.Cache.{
  cached_execute, has_config_counter, read_config_counter, serve, refill, store,
}

module _ {k : SerialTypes} {V T R Req : Type 0} (transport : Transport k T) (codec : SbiCodec R)
    (command : Command R Req V) (request : Req) (key : String) (confirm : Bool)
    (link read : Link k V T) (counter : ℕ)
    (capable : has_config_counter link.session.capabilities ≡ true)
    (answered : read_config_counter transport codec link ≡ (ok counter, read)) where
  cached_serve :
      cached_execute transport codec command request key confirm link
      ≡ serve transport codec command request key confirm counter
          (get read.session.result_cache key)
          read
  unfolding cached_execute
  cached_serve = rw capable (rw answered refl)

  -- A value stored under the counter that the device now reports is served.
  cached_execute_hit :
      (value : V)
      → get read.session.result_cache key ≡ some (counter, value)
      → cached_execute transport codec command request key confirm link ≡ (ok value, read)
  unfolding serve
  cached_execute_hit value stored = cached_serve ∙ rw stored (ground arith)

  serve_stale :
      (o : Option (ℕ × V))
      → ((value : V) → o ≢ some (counter, value))
      → serve transport codec command request key confirm counter o read
        ≡ refill transport codec command request key confirm counter read
  unfolding serve
  serve_stale none stale = refl
  serve_stale (some (pinned, value)) stale = elim (Bool-cases (pinned == counter)) [
    | inl e ↦ absurd (stale value (ap (λ n. some (n, value)) ((==_iff pinned counter).0 e)))
    | inr e ↦ rw e refl
  ]

  -- On a session with the counter capability whose counter read succeeds, a key that holds nothing, or a value
  -- stored under another counter, has the command run; where the run returns, its result is returned and stored
  -- under the counter that was read before the run.
  pub cached_execute_miss :
      (ran : Link k V T) (value : V)
      → ((value' : V) → get read.session.result_cache key ≢ some (counter, value'))
      → execute transport codec command request confirm read ≡ (ok value, ran)
      → let after = cached_execute transport codec command request key confirm link in
        (after.0 ≡ ok value)
        × (get after.1.session.result_cache key ≡ some (counter, value))
        × (after.1.wire ≡ ran.wire)
  unfolding refill store
  cached_execute_miss ran value stale run =
      let filled : cached_execute transport codec command request key confirm link
          ≡ refill transport codec command request key confirm counter read =
        cached_serve ∙ serve_stale (get read.session.result_cache key) stale in
      let kept : Link k V T = record ran {
        session = record ran.session {
          result_cache = put ran.session.result_cache key (counter, value);
        };
      } in
      let result : cached_execute transport codec command request key confirm link
          ≡ (ok value, kept) =
        filled ∙ rw run refl in
      (
        ap (λ q. q.0) result,
        ap (λ q. get q.1.session.result_cache key) result
            ∙ get-put ran.session.result_cache key key (counter, value)
            ∙ ground (arith, eq_iff key key),
        ap (λ q. q.1.wire) result,
      )

-- A link on which the value stands under the counter, with the capabilities of another.
abbrev Holds : {k : SerialTypes} {V T : Type 0} → Link k V T → String → ℕ → V → Link k V T → Type 0
Holds start key counter value l =
    (get l.session.result_cache key ≡ some (counter, value))
    × (l.session.capabilities ≡ start.session.capabilities)

module _ {k : SerialTypes} {V T R Req : Type 0} (transport : Transport k T) (codec : SbiCodec R)
    (command : Command R Req V) (request : Req) (key : String) (confirm : Bool) where
  -- What was served or run is then in the cache.
  refill-Holds :
      (read : Link k V T) (counter : ℕ) (value : V)
      → (refill transport codec command request key confirm counter read).0 ≡ ok value
      → Holds read key counter value
          (refill transport codec command request key confirm counter read).1
  unfolding refill store
  refill-Holds read counter value returned =
      let run : Result V × Link k V T = execute transport codec command request confirm read in
      let (_, _, _, capable, _, _, _) =
        execute_setup transport codec command request confirm read in
      kept run capable returned
    where
      kept :
          (o : Result V × Link k V T)
          → o.1.session.capabilities ≡ read.session.capabilities
          → ◌≡◌ {A = Result V}
              (continue o.0 (λ v. store transport codec key counter v >> pure v) o.1).0
              (ok value)
          → Holds read key counter value
              (continue o.0 (λ v. store transport codec key counter v >> pure v) o.1).1
      kept (ok v, ran) same e = (
        get-put ran.session.result_cache key key (counter, v) ∙ ground (arith, eq_iff key key, e),
        same,
      )
      kept (err c, ran) same e = absurd (err≢ok e)

  serve-Holds :
      (read : Link k V T) (counter : ℕ) (value : V) (o : Option (ℕ × V))
      → get read.session.result_cache key ≡ o
      → (serve transport codec command request key confirm counter o read).0 ≡ ok value
      → Holds read key counter value
          (serve transport codec command request key confirm counter o read).1
  unfolding serve
  serve-Holds read counter value none held returned = refill-Holds read counter value returned
  serve-Holds read counter value (some (pinned, stored)) held returned =
      by_test (pinned == counter) refl returned
    where
      by_test :
          (b : Bool)
          → (pinned == counter) ≡ b
          → ((if b then pure stored else refill transport codec command request key confirm counter)
              read).0
            ≡ ok value
          → Holds read key counter value
              ((if b
                  then pure stored
                  else refill transport codec command request key confirm counter)
                read).1
      by_test true same e = (held ∙ ground (arith, ==_iff pinned counter, same, e), refl)
      by_test false same e = refill-Holds read counter value e

  -- On a session with the counter capability, where a call with a key read the counter and returned a value, a
  -- later call with the same key, of whatever command, that reads the same counter returns that value: after its
  -- read of the counter nothing is sent, and nothing changes. No other call comes between.
  pub cached_execute_again :
      {Req' : Type 0}
      → (command' : Command R Req' V) (request' : Req') (confirm' : Bool)
        (link read again : Link k V T) (counter : ℕ) (value : V)
      → has_config_counter link.session.capabilities ≡ true
      → read_config_counter transport codec link ≡ (ok counter, read)
      → (cached_execute transport codec command request key confirm link).0 ≡ ok value
      → read_config_counter transport codec
          (cached_execute transport codec command request key confirm link).1
        ≡ (ok counter, again)
      → cached_execute transport codec command' request' key confirm'
          (cached_execute transport codec command request key confirm link).1
        ≡ (ok value, again)
  unfolding read_config_counter
  cached_execute_again command' request' confirm' link read again counter value capable answered
        returned repeated =
      let first : Holds read key counter value
          (cached_execute transport codec command request key confirm link).1 =
        subst (λ (o : Result V × Link k V T). Holds read key counter value o.1) (sym served)
          (serve-Holds read counter value (get read.session.result_cache key) refl
            (ap (λ (o : Result V × Link k V T). o.0) (sym served) ∙ returned)) in
      let after = (cached_execute transport codec command request key confirm link).1 in
      cached_execute_hit transport codec command' request' key confirm' after again counter
        (subst (λ c. has_config_counter c ≡ true)
          (sym (first.1 ∙ capabilities_read link read answered)) capable)
        repeated value (cache_read after again repeated ∙ first.0)
    where
      served :
          cached_execute transport codec command request key confirm link
          ≡ serve transport codec command request key confirm counter
              (get read.session.result_cache key)
              read
      served =
          cached_serve transport codec command request key confirm link read counter capable
            answered

      read_setup :
          (l q : Link k V T)
          → read_config_counter transport codec l ≡ (ok counter, q)
          → (q.session.capabilities ≡ l.session.capabilities)
            × (q.session.result_cache ≡ l.session.result_cache)
      read_setup l q e =
          let (_, _, _, capabilities, _, _, cache) =
            execute_setup transport codec config_counter tt false l in
          subst
            (λ (o : Result ℕ × Link k V T).
              (o.1.session.capabilities ≡ l.session.capabilities)
              × (o.1.session.result_cache ≡ l.session.result_cache))
            e (capabilities, cache)

      capabilities_read :
          (l q : Link k V T)
          → read_config_counter transport codec l ≡ (ok counter, q)
          → q.session.capabilities ≡ l.session.capabilities
      capabilities_read l q e = (read_setup l q e).0

      cache_read :
          (l q : Link k V T)
          → read_config_counter transport codec l ≡ (ok counter, q)
          → get q.session.result_cache key ≡ get l.session.result_cache key
      cache_read l q e = ap (λ c. get c key) (read_setup l q e).1
