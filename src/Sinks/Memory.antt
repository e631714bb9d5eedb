-- ===== src/Sinks/Memory.antt =====
-- sinks/memory.py: the sink that keeps its samples, as an instance of the interface.
use sartoriuslib.Prelude.{
  ◌≡◌, refl, ap, sym, List, [], ◌++◌, map, Bool, true, false, not, ◌&&◌, ◌∷◌,
}
use sartoriuslib.Errors.{runtime_error}
use sartoriuslib.Errors.Result.{ok}
use sartoriuslib.Errors.Exec.{Exec, modify, guard, ◌>>◌}
use sartoriuslib.Sinks.Pipe.{SampleSink}
use sartoriuslib.Sinks.Pipe.Open.{Accepts}
use sartoriuslib.Streaming.{Host, Sample}

pub record InMemorySink (k : Host) : Type 0 where
  pub samples : List (Sample k)
  pub opened : Bool
  pub closed : Bool

module _ {k : Host} where
  unfoldable pub new_memory_sink : InMemorySink k
  new_memory_sink = record { samples = []; opened = false; closed = false }

  unfoldable pub is_open : InMemorySink k → Bool
  is_open s = s.opened && not s.closed

  unfoldable pub open_memory : Exec (InMemorySink k) (Unit {0})
  open_memory s = modify (λ q. record q { opened = true; closed = false }) s

  unfoldable pub write_memory : List (Sample k) → Exec (InMemorySink k) (Unit {0})
  unfolding is_open
  write_memory samples s =
      (guard (is_open s) runtime_error >> modify (λ q. record q { samples = q.samples ++ samples }))
        s

  unfoldable pub close_memory : Exec (InMemorySink k) (Unit {0})
  close_memory s = modify (λ q. record q { closed = true }) s

map_id : {A : Type 0} (xs : List A) → map (λ x. x) xs ≡ xs
map_id [] = refl
map_id (x ∷ xs) = ap (λ t. x ∷ t) (map_id xs)

pub memory_appends :
    {k : Host} (samples : List (Sample k)) (s : InMemorySink k)
    → (write_memory samples s).0 ≡ ok tt
    → (write_memory samples s).1.samples ≡ s.samples ++ map (λ sample. sample) samples
unfolding write_memory
memory_appends samples s h = by_cases (is_open s) h
  where
    by_cases :
        (b : Bool)
        → ((guard b runtime_error
              >> modify (λ (q : InMemorySink _). record q { samples = q.samples ++ samples }))
            s).0
          ≡ ok tt
        → ((guard b runtime_error
              >> modify (λ (q : InMemorySink _). record q { samples = q.samples ++ samples }))
            s).1.samples
          ≡ s.samples ++ map (λ sample. sample) samples
    by_cases true e = ap (λ t. s.samples ++ t) (sym (map_id samples))
    by_cases false e = cc

abbrev pub memory_sink : (k : Host) → SampleSink k (InMemorySink k) (Sample k)
memory_sink k = record {
  open_sink = open_memory;
  write_many = write_memory;
  close = close_memory;
  written = λ s. s.samples;
  render = λ sample. sample;
  appends = memory_appends;
}

module _ {k : Host} where
  pub memory_accepts :
      (samples : List (Sample k)) (s : InMemorySink k)
      → is_open s ≡ true
      → ((write_memory samples s).0 ≡ ok tt) × (is_open (write_memory samples s).1 ≡ true)
  unfolding write_memory
  memory_accepts samples s h = rw h (refl, h)

-- An open memory sink takes every batch.
abbrev pub memory_accepting : (k : Host) → Accepts (memory_sink k)
memory_accepting k = record { Ready = λ s. is_open s ≡ true; accepts = memory_accepts }
