-- ===== src/Xbpi/Parser/Status.antt =====
-- The status block, the long measurement that joins it to a short one, and the fixed lengths.
use sartoriuslib.Prelude.{
  ℕ, suc, ◌/◌, ◌%◌, ◌<◌, ◌≡◌, refl, ap, ◌↔◌, Option, none, some, [], ◌∷◌, ◌++◌, Bool, true, false,
  ◌&&◌, ◌||◌, arith, length, get_or, take, drop, take-append, take-append-drop, length-append,
  get_or-append, drop-cons,
}
use mathlib.Core.Path.{subst}
use sartoriuslib.Prelude.Bytes.{Bytes}
use sartoriuslib.Prelude.Masks.{mask_08, mask_80}
use sartoriuslib.Errors.Result.{ok}
use sartoriuslib.Xbpi.Types.{MeasurementBody, StatusBlockBody, LongMeasurementBody}
use sartoriuslib.Xbpi.Parser.{
  decode_measurement_body, decode_status_block_body, decode_long_measurement_body,
}

-- Whether a signal is missing.
abbrev pub is_none {ℓ} : {A : Type ℓ} → Option A → Bool
is_none none = true
is_none (some a) = false

-- The signals of a status block whose state is a byte agree with one another: a block is not both overloaded and
-- underloaded, neither of these states is stable, both have the two Cubis signals, these are missing together,
-- exactly where the state lacks its base bit, and stability is bit 3 of the state.
pub status_block_consistent :
    (b0 b1 b2 state status b5 b6 b7 : ℕ) (m : StatusBlockBody)
    → state < 256
    → decode_status_block_body (b0 ∷ b1 ∷ b2 ∷ state ∷ status ∷ b5 ∷ b6 ∷ b7 ∷ []) ≡ ok m
    → (m.overload && m.underload ≡ false)
      × ((m.overload || m.underload) && m.stable ≡ false)
      × ((m.overload || m.underload) && is_none m.adc_trusted ≡ false)
      × (is_none m.adc_trusted ≡ is_none m.isocal_due)
      × ((is_none m.adc_trusted ≡ true) ↔ (state < 128))
      × ((m.stable ≡ true) ↔ (state / 8 % 2 ≡ 1))
unfolding decode_status_block_body
status_block_consistent b0 b1 b2 state status b5 b6 b7 m h e =
    let low = mask_08 state h in
    let base = mask_80 state h in
    (
      ground arith,
      ground arith,
      ground arith,
      ground arith,
      (λ p. ground arith, λ p. ground arith),
      (λ p. ground arith, λ p. ground arith),
    )

measurement_raw :
    (raw : Bytes) (m : MeasurementBody)
    → decode_measurement_body raw ≡ ok m
    → (m.raw ≡ raw) × (length raw ≡ 8)
unfolding decode_measurement_body
measurement_raw raw m h = ground arith

status_raw :
    (raw : Bytes) (m : StatusBlockBody)
    → decode_status_block_body raw ≡ ok m
    → (m.raw ≡ raw) × (length raw ≡ 8)
unfolding decode_status_block_body
status_raw raw m h = ground arith

-- The tests and calls of the long decoder, for a body that it accepts.
long_sound :
    (raw : Bytes) (l : LongMeasurementBody)
    → decode_long_measurement_body raw ≡ ok l
    → (length raw ≡ 17)
      × (get_or raw 8 0 ≡ 0x48)
      × (l.delimiter ≡ 0x48)
      × (decode_measurement_body (take 8 raw) ≡ ok l.measurement)
      × (decode_status_block_body (drop 9 raw) ≡ ok l.status)
unfolding decode_long_measurement_body
long_sound raw l h = ground arith

long_complete :
    (raw : Bytes) (l : LongMeasurementBody)
    → length raw ≡ 17
    → get_or raw 8 0 ≡ 0x48
    → l.delimiter ≡ 0x48
    → decode_measurement_body (take 8 raw) ≡ ok l.measurement
    → decode_status_block_body (drop 9 raw) ≡ ok l.status
    → decode_long_measurement_body raw ≡ ok l
unfolding decode_long_measurement_body
long_complete raw l a b c d e = ground arith

drop_past : (xs : Bytes) (y : ℕ) (ys : Bytes) → drop (suc (length xs)) (xs ++ y ∷ ys) ≡ ys
drop_past [] y ys = refl
drop_past (x ∷ xs) y ys = drop_past xs y ys

-- The parts of a body around its byte at `n`.
around :
    (xs : Bytes) (y : ℕ) (ys : Bytes) (n : ℕ)
    → length xs ≡ n
    → (get_or (xs ++ y ∷ ys) n 0 ≡ y)
      × (take n (xs ++ y ∷ ys) ≡ xs)
      × (drop (suc n) (xs ++ y ∷ ys) ≡ ys)
around xs y ys n h =
    subst
      (λ k.
        (get_or (xs ++ y ∷ ys) k 0 ≡ y)
        × (take k (xs ++ y ∷ ys) ≡ xs)
        × (drop (suc k) (xs ++ y ∷ ys) ≡ ys))
      h (get_or-append xs y ys 0, take-append xs (y ∷ ys), drop_past xs y ys)

-- The long decoder accepts exactly a short measurement, the delimiter and a status block in a row, and returns
-- what the decoders of the two halves return.
pub decode_long_measurement_body_iff :
    (raw : Bytes) (l : LongMeasurementBody)
    → (decode_long_measurement_body raw ≡ ok l) ↔ (
        (raw ≡ l.measurement.raw ++ 0x48 ∷ l.status.raw)
        × (l.delimiter ≡ 0x48)
        × (decode_measurement_body l.measurement.raw ≡ ok l.measurement)
        × (decode_status_block_body l.status.raw ≡ ok l.status))
decode_long_measurement_body_iff raw l = (
  λ h.
      let (len, mid, del, m, s) = long_sound raw l h in
      let (mr, ml) = measurement_raw (take 8 raw) l.measurement m in
      let (sr, sl) = status_raw (drop 9 raw) l.status s in
      (
        cc (take-append-drop 8 raw, drop-cons 8 raw 0 (omega arith), mid, mr, sr),
        del,
        cc (mr, m),
        cc (sr, s),
      ),
  λ (whole, del, m, s).
      let ml = (measurement_raw l.measurement.raw l.measurement m).1 in
      let sl = (status_raw l.status.raw l.status s).1 in
      let (mid, front, back) = around l.measurement.raw 0x48 l.status.raw 8 ml in
      long_complete raw l
        (omega (arith, ap length whole, length-append l.measurement.raw (0x48 ∷ l.status.raw)))
        (cc (whole, mid)) del (cc (whole, front, m)) (cc (whole, back, s)),
)
