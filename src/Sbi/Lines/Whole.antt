-- ===== src/Sbi/Lines/Whole.antt =====
-- The lines that a read up to the terminator returns.
use sartoriuslib.Prelude.{
  ℕ, zero, suc, ◌+◌, ◌≤◌, ◌<◌, ◌≡◌, refl, sym, ap, ◌∙◌, [], ◌∷◌, ◌++◌, append_assoc, arith, true,
  false, length, length-append, take, drop, length-take, drop-append, ltb, Bool-cases, ltb→lt, inl,
  inr,
}
use native.Mathlib.Nat.{suc-add}
use sartoriuslib.Prelude.Bytes.{Bytes}
use sartoriuslib.Transport.Fake.{starts_with}
use sartoriuslib.Sbi.Lines.{line_terminator}

-- A whole line: it ends in the terminator, and no terminator comes before.
abbrev pub IsLine : Bytes → Type 0
IsLine raw =
    ((front : Bytes) × (raw ≡ front ++ line_terminator))
    × ((front back : Bytes) → raw ≡ front ++ (line_terminator ++ back) → back ≡ [])

take_add : (i n : ℕ) (xs : Bytes) → take (i + n) xs ≡ take i xs ++ take n (drop i xs)
take_add zero n xs = ap (λ m. take m xs) (omega arith)
take_add (suc i) zero [] = rw suc-add refl
take_add (suc i) (suc n) [] = rw suc-add refl
take_add (suc i) n (x ∷ xs) = rw suc-add (ap (λ t. x ∷ t) (take_add i n xs))

is_empty : (xs : Bytes) → length xs ≡ 0 → xs ≡ []
is_empty [] h = refl
is_empty (x ∷ xs) h = absurd (omega (arith, h))

-- What a read up to the terminator returns is a whole line.
pub read-IsLine :
    (raw rest buffer : Bytes) (i : ℕ)
    → raw ++ rest ≡ buffer
    → raw ≡ take (i + 2) buffer
    → take 2 (drop i buffer) ≡ line_terminator
    → ((j : ℕ) → j < i → starts_with (drop j buffer) line_terminator ≡ false)
    → IsLine raw
read-IsLine raw rest buffer i whole taken here first = (
  (take i buffer, taken ∙ take_add i 2 buffer ∙ ap (λ t. take i buffer ++ t) here),
  λ u v e.
      let split : buffer ≡ u ++ (line_terminator ++ (v ++ rest)) =
        sym whole ∙ ap (λ t. t ++ rest) e ∙ append_assoc u (line_terminator ++ v) rest in
      let seam : starts_with (drop (length u) buffer) line_terminator ≡ true =
        ap (λ b. starts_with (drop (length u) b) line_terminator) split
        ∙ ap (λ b. starts_with b line_terminator)
            (drop-append u (line_terminator ++ (v ++ rest))) in
      elim (Bool-cases (ltb (length u) i)) [
        | inl before ↦ absurd (cc (seam, first (length u) (ltb→lt _ _ before)))
        | inr after ↦
            let size : length raw ≡ length u + suc (suc (length v)) =
              ap length e ∙ length-append u (line_terminator ++ v) in
            let bound : length raw ≤ i + 2 =
              omega (arith, ap length taken, length-take (i + 2) buffer) in
            is_empty v (ground (arith, size, bound))
      ],
)
