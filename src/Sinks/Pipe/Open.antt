-- ===== src/Sinks/Pipe/Open.antt =====
-- A sink that is open takes every batch, and the pipe into it returns.
use sartoriuslib.Prelude.{
  ℕ, ◌+◌, ◌<◌, ◌≤◌, ◌≡◌, refl, List, [], ◌∷◌, ◌++◌, map, Bool, true, false, length, arith, lt→ltb,
  leb,
}
use sartoriuslib.Errors.Result.{Result, ok, err}
use sartoriuslib.Errors.Exec.{Exec, pure, continue, ◌>>=◌}
use sartoriuslib.Sinks.Pipe.{SampleSink, Received, values, flush, is_due, drain, pipe}
use sartoriuslib.Sinks.Pipe.Delivery.{all_samples, pipe-delivers}
use sartoriuslib.Streaming.{Host, Sample, AcquisitionSummary}

-- What it means that a sink does not refuse: while it is ready, a write returns and leaves it ready.
pub record Accepts {k : Host} {S Line : Type 0} (sink : SampleSink k S Line) : Type 1 where
  pub Ready : S → Type 0
  pub accepts :
      (samples : List (Sample k)) (s : S)
      → Ready s
      → ((sink.write_many samples s).0 ≡ ok tt) × Ready (sink.write_many samples s).1

module _ {k : Host} {S Line : Type 0} (sink : SampleSink k S Line) (a : Accepts sink) where
  -- An outcome that is a return, on a sink that is still ready.
  abbrev Returned : {A : Type 0} → Result A × S → Type 0
  Returned {A} (r, q) = ((x : A) × (r ≡ ok x)) × a.Ready q

  Returned-continue :
      {A B : Type 0} (o : Result A × S) (f : A → Exec S B)
      → Returned o
      → ((x : A) (q : S) → a.Ready q → Returned (f x q))
      → Returned (continue o.0 f o.1)
  Returned-continue (ok x, q) f (h, ready) later = later x q ready
  Returned-continue (err c, q) f ((x, e), ready) later = cc

  flush-Returned :
      (emitted : ℕ) (buffer : List (Sample k)) (s : S)
      → a.Ready s
      → Returned (flush sink emitted buffer s)
  unfolding flush
  flush-Returned emitted [] s ready = ((emitted, refl), ready)
  flush-Returned emitted (first ∷ rest) s ready =
      let (e, r) = a.accepts (first ∷ rest) s ready in
      Returned-continue (sink.write_many (first ∷ rest) s)
        (λ _. pure (emitted + length (first ∷ rest))) ((tt, e), r)
        (λ x q h. ((emitted + length (first ∷ rest), refl), h))

  module _ (batch_size flush_interval : ℕ) where
    drain-Returned :
        (stream : List (Received k)) (emitted : ℕ) (buffer : List (Sample k)) (last : ℕ) (s : S)
        → a.Ready s
        → Returned (drain sink batch_size flush_interval stream emitted buffer last s)
    unfolding drain
    drain-Returned [] emitted buffer last s ready = flush-Returned emitted buffer s ready
    drain-Returned (received ∷ stream) emitted buffer last s ready =
        by_cases (is_due sink batch_size flush_interval filled received.now last)
          (λ total q r. drain-Returned stream total [] received.now q r)
          (drain-Returned stream emitted filled last s ready)
      where
        filled : List (Sample k)
        filled = buffer ++ values received.batch

        by_cases :
            (b : Bool)
            → ((total : ℕ) (q : S)
                → a.Ready q
                → Returned (drain sink batch_size flush_interval stream total [] received.now q))
            → Returned (drain sink batch_size flush_interval stream emitted filled last s)
            → Returned {A = ℕ} (elim b [
              | true ↦
                  (flush sink emitted filled >>= λ total.
                  drain sink batch_size flush_interval stream total [] received.now)
                    s
              | false ↦ drain sink batch_size flush_interval stream emitted filled last s
            ])
        by_cases true after kept =
            Returned-continue (flush sink emitted filled s) _
              (flush-Returned emitted filled s ready) after
        by_cases false after kept = kept

    pipe_returns :
        (stream : List (Received k)) (started : ℕ) (s : S)
        → 1 ≤ batch_size
        → 0 < flush_interval
        → a.Ready s
        → (summary : AcquisitionSummary) × ((pipe sink batch_size flush_interval stream started s).0
            ≡ ok summary)
    unfolding pipe
    pipe_returns stream started s some_batch some_time ready =
        rw (leb_one, lt→ltb 0 flush_interval some_time)
          (Returned-continue (drain sink batch_size flush_interval stream 0 [] started s) _
            (drain-Returned stream 0 [] started s ready) (λ n q h. ((_, refl), h))).0
      where
        leb_one : leb 1 batch_size ≡ true
        leb_one = ground arith

    -- For a batch size and an interval that are positive, and a sink that takes every batch while it is ready and
    -- is ready, the pipe returns, the sink has been given each sample of the stream once and in order, behind what
    -- it had, and the summary counts them.
    pub pipe_complete :
        (stream : List (Received k)) (started : ℕ) (s : S)
        → 1 ≤ batch_size
        → 0 < flush_interval
        → a.Ready s
        → (summary : AcquisitionSummary) × ((pipe sink batch_size flush_interval stream started s).0
            ≡ ok summary)
          × (sink.written (pipe sink batch_size flush_interval stream started s).1
              ≡ sink.written s ++ map sink.render (all_samples stream))
          × (summary.samples_emitted ≡ length (all_samples stream))
    pipe_complete stream started s some_batch some_time ready =
        let (summary, e) = pipe_returns stream started s some_batch some_time ready in
        let (kept, count) =
          pipe-delivers sink batch_size flush_interval stream started s summary e in
        (summary, e, kept, count)
