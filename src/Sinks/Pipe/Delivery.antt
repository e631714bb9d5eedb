-- ===== src/Sinks/Pipe/Delivery.antt =====
-- What a drained stream leaves in the sink: each sample of each batch, in order and once.
use native.Mathlib.Nat.{zero-add}
use sartoriuslib.Prelude.{
  ℕ, ◌+◌, ◌≡◌, refl, sym, ap, subst, ◌∙◌, none, List, [], ◌∷◌, ◌++◌, map, length, length-append,
  append-nil, append_assoc, Bool, true, false, leb, ltb, arith,
}
use sartoriuslib.Errors.{value_error}
use sartoriuslib.Errors.Result.{Result, ok, err}
use sartoriuslib.Errors.Exec.{pure, ◌>>=◌}
use sartoriuslib.Errors.Keeps.{holds_continue, holds_guard}
use sartoriuslib.Sinks.Pipe.{SampleSink, Received, values, flush, is_due, drain, pipe}
use sartoriuslib.Streaming.{Host, Sample, AcquisitionSummary}

-- The samples of a stream, in order.
abbrev pub all_samples : {k : Host} → List (Received k) → List (Sample k)
all_samples [] = []
all_samples (received ∷ stream) = values received.batch ++ all_samples stream

map-append : {A B : Type 0} (f : A → B) (xs ys : List A) → map f (xs ++ ys) ≡ map f xs ++ map f ys
map-append f [] ys = refl
map-append f (x ∷ xs) ys = ap (λ t. f x ∷ t) (map-append f xs ys)

module _ {k : Host} {S Line : Type 0} (sink : SampleSink k S Line) where
  -- A count that is returned is that of the samples that were written behind `base`, on top of `emitted`.
  abbrev Delivered : List Line → ℕ → List (Sample k) → Result ℕ × S → Type 0
  Delivered base emitted samples (ok n, q) =
      (sink.written q ≡ base ++ map sink.render samples) × (n ≡ emitted + length samples)
  Delivered base emitted samples (err c, q) = Unit

  flush-Delivered :
      (emitted : ℕ) (buffer : List (Sample k)) (s : S)
      → Delivered (sink.written s) emitted buffer (flush sink emitted buffer s)
  unfolding flush
  flush-Delivered emitted [] s = (sym (append-nil (sink.written s)), omega arith)
  flush-Delivered emitted (first ∷ rest) s =
      holds_continue (Delivered (sink.written s) emitted (first ∷ rest))
        (sink.write_many (first ∷ rest) s).0 (λ _. pure (emitted + length (first ∷ rest)))
        (sink.write_many (first ∷ rest) s).1 (λ c. tt)
        (λ done e. (sink.appends (first ∷ rest) s e, refl))

  -- What is delivered first, and then the rest.
  Delivered-more :
      (base : List Line) (emitted : ℕ) (front back : List (Sample k)) (middle : S) (total : ℕ)
      (o : Result ℕ × S)
      → Delivered base emitted front (ok total, middle)
      → Delivered (sink.written middle) total back o
      → Delivered base emitted (front ++ back) o
  Delivered-more base emitted front back middle total (ok n, q) (w, t) (x, u) = (
    x
        ∙ ap (λ l. l ++ map sink.render back) w
        ∙ append_assoc base (map sink.render front) (map sink.render back)
        ∙ ap (λ l. base ++ l) (sym (map-append sink.render front back)),
    omega (arith, length-append front back),
  )
  Delivered-more base emitted front back middle total (err c, q) d l = tt

  module _ (batch_size flush_interval : ℕ) where
    drain-Delivered :
        (stream : List (Received k)) (emitted : ℕ) (buffer : List (Sample k)) (last : ℕ) (s : S)
        → Delivered
            (sink.written s)
            emitted
            (buffer ++ all_samples stream)
            (drain sink batch_size flush_interval stream emitted buffer last s)
    unfolding drain
    drain-Delivered [] emitted buffer last s =
        subst (λ xs. Delivered (sink.written s) emitted xs (flush sink emitted buffer s))
          (sym (append-nil buffer)) (flush-Delivered emitted buffer s)
    drain-Delivered (received ∷ stream) emitted buffer last s =
        subst
          (λ xs.
            Delivered (sink.written s) emitted xs
              (drain sink batch_size flush_interval (received ∷ stream) emitted buffer last s))
          (append_assoc buffer (values received.batch) (all_samples stream))
          (by_cases (is_due sink batch_size flush_interval filled received.now last) refl
            (λ total q. drain-Delivered stream total [] received.now q)
            (drain-Delivered stream emitted filled last s))
      where
        filled : List (Sample k)
        filled = buffer ++ values received.batch

        Goal : Result ℕ × S → Type 0
        Goal o = Delivered (sink.written s) emitted (filled ++ all_samples stream) o

        by_cases :
            (b : Bool)
            → is_due sink batch_size flush_interval filled received.now last ≡ b
            → ((total : ℕ) (q : S)
                → Delivered
                    (sink.written q)
                    total
                    (all_samples stream)
                    (drain sink batch_size flush_interval stream total [] received.now q))
            → Goal (drain sink batch_size flush_interval stream emitted filled last s)
            → Goal (elim b [
              | true ↦
                  (flush sink emitted filled >>= λ total.
                  drain sink batch_size flush_interval stream total [] received.now)
                    s
              | false ↦ drain sink batch_size flush_interval stream emitted filled last s
            ])
        by_cases true e after kept =
            let first = flush sink emitted filled s in
            holds_continue Goal first.0
              (λ total. drain sink batch_size flush_interval stream total [] received.now) first.1
              (λ c. tt)
              (λ total r.
                Delivered-more (sink.written s) emitted filled (all_samples stream) first.1 total _
                  (subst (λ o. Delivered (sink.written s) emitted filled (o, first.1)) r
                    (flush-Delivered emitted filled s))
                  (after total first.1))
        by_cases false e after kept = kept

    pub pipe-delivers :
        (stream : List (Received k)) (started : ℕ) (s : S) (summary : AcquisitionSummary)
        → (pipe sink batch_size flush_interval stream started s).0 ≡ ok summary
        → (sink.written (pipe sink batch_size flush_interval stream started s).1
            ≡ sink.written s ++ map sink.render (all_samples stream))
          × (summary.samples_emitted ≡ length (all_samples stream))
    unfolding pipe
    pipe-delivers stream started s summary =
        holds_guard Goal (leb 1 batch_size) value_error _ s (λ h. cc)
          (λ _.
            holds_guard Goal (ltb 0 flush_interval) value_error _ s (λ h. cc)
              (λ _.
                holds_continue Goal drained.0 _ drained.1 (λ c h. cc)
                  (λ n r h.
                    let (kept, count) =
                      subst (λ o. Delivered (sink.written s) 0 (all_samples stream) (o, drained.1))
                        r (drain-Delivered stream 0 [] started s) in
                    (
                      kept,
                      subst (λ (m : ℕ). m ≡ length (all_samples stream)) (emitted_of h)
                          (count ∙ zero-add (length (all_samples stream))),
                    ))))
      where
        drained : Result ℕ × S
        drained = drain sink batch_size flush_interval stream 0 [] started s

        Goal : Result AcquisitionSummary × S → Type 0
        Goal o =
            o.0 ≡ ok summary
            → (sink.written o.1 ≡ sink.written s ++ map sink.render (all_samples stream))
              × (summary.samples_emitted ≡ length (all_samples stream))

        emitted_of :
            {n : ℕ}
            → ◌≡◌ {A = Result AcquisitionSummary}
                (ok (record {
                  finished = true;
                  samples_emitted = n;
                  samples_late = 0;
                  max_drift = 0;
                  target_total_samples = none;
                }))
                (ok summary)
            → n ≡ summary.samples_emitted
        emitted_of h = ground arith
