-- ===== src/Xbpi/Framing/Corruption.antt =====
-- A reply with one byte changed is refused: the checksum tells any single change.
use sartoriuslib.Prelude.{
  ℕ, ◌+◌, ◌≤◌, ◌<◌, ◌≡◌, ◌≢◌, refl, sym, ap, ◌∙◌, inl, inr, [], ◌∷◌, ◌++◌, append_assoc, arith,
  length, length-append, snoc_cases,
}
use sartoriuslib.Prelude.Bytes.{Bytes, sum}
use sartoriuslib.Errors.{frame}
use sartoriuslib.Errors.Result.{Result, ok, err}
use sartoriuslib.Xbpi.Types.{XbpiFrame}
use sartoriuslib.Xbpi.Framing.{checksum, parse_frame, last_byte, all_but_last}
use sartoriuslib.Xbpi.Framing.Codec.{last_byte-snoc, all_but_last-snoc, error_cases}

parse_frame-summed :
    (raw : Bytes) (f : XbpiFrame)
    → parse_frame raw ≡ ok f
    → last_byte raw ≡ checksum (all_but_last raw)
unfolding parse_frame
parse_frame-summed raw f h = ground arith

parse_frame-long : (raw : Bytes) (f : XbpiFrame) → parse_frame raw ≡ ok f → 4 ≤ length raw
unfolding parse_frame
parse_frame-long raw f h = ground arith

-- On a buffer that ends in `z`, the checksum of the rest is `z`.
summed-snoc :
    (pre : Bytes) (z : ℕ) (f : XbpiFrame) → parse_frame (pre ++ z ∷ []) ≡ ok f → z ≡ checksum pre
summed-snoc pre z f h =
    sym (last_byte-snoc pre z)
    ∙ parse_frame-summed (pre ++ z ∷ []) f h
    ∙ ap checksum (all_but_last-snoc pre z)

sum-append : (xs ys : Bytes) → sum (xs ++ ys) ≡ sum xs + sum ys
sum-append [] ys = omega arith
sum-append (x ∷ xs) ys = omega (arith, sum-append xs ys)

-- One different byte, and the checksum differs.
checksum_tells :
    (xs us : Bytes) (a b : ℕ)
    → a < 256
    → b < 256
    → checksum (xs ++ a ∷ us) ≡ checksum (xs ++ b ∷ us)
    → a ≡ b
unfolding checksum
checksum_tells xs us a b ha hb h = omega (arith, sum-append xs (a ∷ us), sum-append xs (b ∷ us))

-- Two frames that differ in at most one byte are one frame.
one_byte_apart :
    (xs ws : Bytes) (a b : ℕ) (f g : XbpiFrame)
    → a < 256
    → b < 256
    → parse_frame (xs ++ a ∷ ws) ≡ ok f
    → parse_frame (xs ++ b ∷ ws) ≡ ok g
    → a ≡ b
one_byte_apart xs [] a b f g ha hb p q = summed-snoc xs a f p ∙ sym (summed-snoc xs b g q)
one_byte_apart xs (w ∷ ws) a b f g ha hb p q =
    let (us, z, e) = snoc_cases (w ∷ ws) (omega arith) in
    let at_end = λ (t : ℕ). append_assoc xs (t ∷ us) (z ∷ []) ∙ ap (λ r. xs ++ t ∷ r) (sym e) in
    checksum_tells xs us a b ha hb (
      sym (summed-snoc (xs ++ a ∷ us) z f (ap parse_frame (at_end a) ∙ p))
      ∙ summed-snoc (xs ++ b ∷ us) z g (ap parse_frame (at_end b) ∙ q))

length_apart : (xs ws : Bytes) (a b : ℕ) → length (xs ++ a ∷ ws) ≡ length (xs ++ b ∷ ws)
length_apart xs ws a b = omega (arith, length-append xs (a ∷ ws), length-append xs (b ∷ ws))

-- Changing any one byte of a valid reply, be it the length, the marker, the body or the checksum, makes a buffer
-- that is refused with a framing error.
pub parse_frame-corrupted :
    (xs ws : Bytes) (a b : ℕ) (f : XbpiFrame)
    → a < 256
    → b < 256
    → a ≢ b
    → parse_frame (xs ++ a ∷ ws) ≡ ok f
    → parse_frame (xs ++ b ∷ ws) ≡ err frame
parse_frame-corrupted xs ws a b f ha hb differ p = outcome (parse_frame (xs ++ b ∷ ws)) refl
  where
    outcome : (r : Result XbpiFrame) → parse_frame (xs ++ b ∷ ws) ≡ r → r ≡ err frame
    outcome (ok g) q = absurd (differ (one_byte_apart xs ws a b f g ha hb p q))
    outcome (err c) q = elim (error_cases (xs ++ b ∷ ws) c q) [
      | inl short ↦
          absurd
            (omega (arith, short.1, parse_frame-long (xs ++ a ∷ ws) f p, length_apart xs ws a b))
      | inr long ↦ ap err long.0
    ]
