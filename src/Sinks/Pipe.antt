-- ===== src/Sinks/Pipe.antt =====
-- sinks/base.py: the interface of a sink, and `pipe`, which drains a stream into one. The stream is the list of its
-- batches, each with the time at which it is received; the times of the summary are left out.
pub mod Delivery
pub mod Open
use sartoriuslib.Prelude.{
  ℕ, ◌+◌, ◌-◌, ◌≡◌, none, List, [], ◌∷◌, ◌++◌, map, length, Bool, true, false, not, ◌||◌, leb, ltb,
  ◌==◌,
}
use sartoriuslib.Prelude.Dict.{Dict}
use sartoriuslib.Errors.{value_error}
use sartoriuslib.Errors.Result.{ok}
use sartoriuslib.Errors.Exec.{Exec, pure, guard, ◌>>=◌, ◌>>◌}
use sartoriuslib.Streaming.{Host, Sample, AcquisitionSummary}

-- A sink whose state is an `S`. What a sink has been given can be read off its state, one `Line` for each sample.
pub record SampleSink (k : Host) (S Line : Type 0) : Type 0 where
  pub open_sink : Exec S (Unit {0})
  pub write_many : List (Sample k) → Exec S (Unit {0})
  pub close : Exec S (Unit {0})
  pub written : S → List Line
  pub render : Sample k → Line
  pub appends :
      (samples : List (Sample k)) (s : S)
      → (write_many samples s).0 ≡ ok tt
      → written (write_many samples s).1 ≡ written s ++ map render samples

-- A batch of the stream and the time after it was received.
pub record Received (k : Host) : Type 0 where
  pub batch : Dict (Sample k)
  pub now : ℕ

-- batch.values()
unfoldable pub values {ℓ} : {V : Type ℓ} → Dict V → List V
values [] = []
values ((key, value) ∷ rest) = value ∷ values rest

module _ {k : Host} {S Line : Type 0} (sink : SampleSink k S Line) where
  -- The buffer is empty afterwards, and the count is returned.
  unfoldable pub flush : ℕ → List (Sample k) → Exec S ℕ
  flush emitted [] s = pure emitted s
  flush emitted (first ∷ rest) s =
      (sink.write_many (first ∷ rest) >> pure (emitted + length (first ∷ rest))) s

  module _ (batch_size flush_interval : ℕ) where
    unfoldable pub is_due : List (Sample k) → ℕ → ℕ → Bool
    is_due buffer now last_flush =
        leb batch_size (length buffer) || leb flush_interval (now - last_flush)

    unfoldable pub drain : List (Received k) → ℕ → List (Sample k) → ℕ → Exec S ℕ
    unfolding flush is_due
    drain [] emitted buffer last_flush s = flush emitted buffer s
    drain (received ∷ stream) emitted buffer last_flush s =
        let filled = buffer ++ values received.batch in
        elim (is_due filled received.now last_flush) [
          | true ↦ (flush emitted filled >>= λ total. drain stream total [] received.now) s
          | false ↦ drain stream emitted filled last_flush s
        ]

    unfoldable pub pipe : List (Received k) → ℕ → Exec S AcquisitionSummary
    unfolding drain
    pipe stream started s =
        (do
          guard (leb 1 batch_size) value_error
          guard (ltb 0 flush_interval) value_error
          emitted ← drain stream 0 [] started
          pure (record {
            finished = true;
            samples_emitted = emitted;
            samples_late = 0;
            max_drift = 0;
            target_total_samples = none;
          }))
          s
