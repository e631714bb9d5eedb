-- ===== src/Streaming/Recorder/Batches.antt =====
-- The batch of a round has one sample for each name that the source returned, with what it returned for it.
use sartoriuslib.Prelude.{
  ℕ, ◌+◌, ◌/◌, ◌↔◌, ◌≡◌, refl, sym, ap, subst, ◌∙◌, String, Option, none, some, arith, eq_iff, [],
  ◌∷◌, ◌++◌, append-nil, append_assoc, false,
}
use sartoriuslib.Prelude.Dict.{Dict}
use sartoriuslib.Prelude.Names.{keys, mem, Distinct, Distinct-before, put-absent, keys-append}
use sartoriuslib.Devices.{ProtocolKind, auto, xbpi, sbi}
use sartoriuslib.Devices.Models.{Reading}
use sartoriuslib.Streaming.{Host, Failure, PollResult, Sample, protocol_value, protocol_of_value}
use sartoriuslib.Streaming.Recorder.{
  fill_batch, sample_of, sample_protocol, error_protocol, midpoint, mean, build_batch,
}

module _ {k : Host} (to_sample : String → PollResult → Sample k) where
  one_each : Dict PollResult → Dict (Sample k)
  one_each [] = []
  one_each ((name, result) ∷ results) = (name, to_sample name result) ∷ one_each results

  fill_batch-append :
      (results : Dict PollResult) (batch : Dict (Sample k))
      → Distinct (keys batch ++ keys results)
      → fill_batch k to_sample results batch ≡ batch ++ one_each results
  unfolding fill_batch one_each
  fill_batch-append [] batch d = sym (append-nil batch)
  fill_batch-append ((name, result) ∷ results) batch d =
      ap (fill_batch k to_sample results) (put-absent batch name made fresh)
      ∙ fill_batch-append results (batch ++ (name, made) ∷ []) (subst Distinct (sym together) d)
      ∙ append_assoc batch ((name, made) ∷ []) (one_each results)
    where
      made : Sample k
      made = to_sample name result

      fresh : mem name (keys batch) ≡ false
      fresh = Distinct-before (keys batch) name (keys results) d

      together :
          keys (batch ++ (name, made) ∷ []) ++ keys results ≡ keys batch ++ name ∷ keys results
      together =
          ap (λ front. front ++ keys results) (keys-append batch ((name, made) ∷ []))
          ∙ append_assoc (keys batch) (name ∷ []) (keys results)

-- The protocol of a sample: that of its reading, or the one that the context of its error names, if any.
abbrev pub IsProtocol : Option Reading → Option Failure → Option ProtocolKind → Type 0
IsProtocol (some reading) error p = p ≡ some reading.protocol
IsProtocol none none p = p ≡ none
IsProtocol none (some error) (some kind) = error.protocol ≡ some (protocol_value kind)
IsProtocol none (some error) none =
    (kind : ProtocolKind) → ¬ (error.protocol ≡ some (protocol_value kind))

-- A sample that carries what the source returned for a device, with the times of the poll and the instants half way
-- between them.
pub record Carries {k : Host} (requested_at received_at : Host.Time k) (sent_ns recv_ns : ℕ)
    (name : String) (result : PollResult) (sample : Sample k) : Type 0 where
  pub device : sample.device ≡ name
  pub reading : sample.reading ≡ result.value
  pub error : sample.error ≡ result.error
  pub protocol : IsProtocol result.value result.error sample.protocol
  pub requested : sample.requested_at ≡ requested_at
  pub received : sample.received_at ≡ received_at
  pub instant :
      sample.t_utc
      ≡ Host.add k requested_at (Host.halve k (Host.subtract k received_at requested_at))
  pub counted : sample.t_mono_ns ≡ (sent_ns + recv_ns) / 2
  pub latency : sample.latency_s ≡ Host.total_seconds k (Host.subtract k received_at requested_at)
  pub device_instant : sample.t_midpoint_mono_ns ≡ none
  pub metadata : sample.metadata ≡ []

protocol_of_value_iff :
    (text : String) (kind : ProtocolKind)
    → (protocol_of_value text ≡ some kind) ↔ (text ≡ protocol_value kind)
unfolding protocol_of_value protocol_value
protocol_of_value_iff text auto = (
  λ h. ground (arith, eq_iff text "auto", eq_iff text "xbpi", eq_iff text "sbi"),
  λ e. ap protocol_of_value e,
)
protocol_of_value_iff text xbpi = (
  λ h. ground (arith, eq_iff text "auto", eq_iff text "xbpi", eq_iff text "sbi"),
  λ e. ap protocol_of_value e,
)
protocol_of_value_iff text sbi = (
  λ h. ground (arith, eq_iff text "auto", eq_iff text "xbpi", eq_iff text "sbi"),
  λ e. ap protocol_of_value e,
)

named_protocol :
    (error : Failure) (text : Option String) (p : Option ProtocolKind)
    → error.protocol ≡ text
    → elim text [ none ↦ none | some t ↦ protocol_of_value t ] ≡ p
    → IsProtocol none (some error) p
named_protocol error none none named e = λ kind h. cc
named_protocol error none (some kind) named e = cc
named_protocol error (some t) (some kind) named e =
    named ∙ ap some ((protocol_of_value_iff t kind).0 e)
named_protocol error (some t) none named e = λ kind h.
    let same : t ≡ protocol_value kind = cc (h, named) in
    cc (e, (protocol_of_value_iff t kind).1 same)

sample_protocol-IsProtocol :
    (k : Host) (reading : Option Reading) (error : Option Failure)
    → IsProtocol reading error (sample_protocol k reading error)
unfolding sample_protocol error_protocol
sample_protocol-IsProtocol k (some reading) error = refl
sample_protocol-IsProtocol k none none = refl
sample_protocol-IsProtocol k none (some error) = named_protocol error error.protocol _ refl refl

module _ (k : Host) (requested_at received_at : Host.Time k) (sent_ns recv_ns : ℕ) where
  -- The names of the results, in their order, each with its sample.
  abbrev pub BatchOf : Dict PollResult → Dict (Sample k) → Type 0
  BatchOf [] [] = Unit
  BatchOf ((name, result) ∷ results) ((device, sample) ∷ batch) =
      ((device ≡ name) × Carries requested_at received_at sent_ns recv_ns name result sample)
      × BatchOf results batch
  BatchOf results batch = ⊥

  one_each-BatchOf :
      (results : Dict PollResult)
      → BatchOf results (one_each (sample_of k requested_at received_at sent_ns recv_ns) results)
  unfolding one_each sample_of midpoint mean
  one_each-BatchOf [] = tt
  one_each-BatchOf ((name, result) ∷ results) = (
    (
      refl,
      record {
        device = refl;
        reading = refl;
        error = refl;
        protocol = sample_protocol-IsProtocol k result.value result.error;
        requested = refl;
        received = refl;
        instant = refl;
        counted = refl;
        latency = refl;
        device_instant = refl;
        metadata = refl;
      },
    ),
    one_each-BatchOf results,
  )

  -- For results with distinct names, the batch has one sample for each name that the source returned, in the order
  -- of the results and under the name. It carries the reading and the error of the result, the protocol of the
  -- reading or else the one that the error names, if it names one, the two times of the poll with the latency
  -- between them, and the instants half way between the times and between the counts.
  pub build_batch-BatchOf :
      (results : Dict PollResult)
      → Distinct (keys results)
      → BatchOf results (build_batch k results requested_at received_at sent_ns recv_ns)
  unfolding build_batch
  build_batch-BatchOf results d =
      subst (BatchOf results)
        (sym
          (fill_batch-append (sample_of k requested_at received_at sent_ns recv_ns) results [] d))
        (one_each-BatchOf results)
