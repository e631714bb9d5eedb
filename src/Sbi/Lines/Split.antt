-- ===== src/Sbi/Lines/Split.antt =====
-- `split_lines` loses no byte and cuts behind each newline.
use sartoriuslib.Prelude.{
  ℕ, ◌≡◌, ◌≢◌, refl, sym, ap, ◌∙◌, List, [], ◌∷◌, ◌++◌, append_assoc, append-nil, true, false,
  arith, All, All-append, ◌==◌, Bool-cases, inl, inr,
}
use mathlib.Core.Path.{subst}
use sartoriuslib.Prelude.Bytes.{Bytes}
use sartoriuslib.Errors.Result.{ok, ◌>>=◌, >>=-eq-ok}
use sartoriuslib.Transport.Fake.{join}
use sartoriuslib.Sbi.Lines.{newline, split_from, split_lines}

-- A line: bytes that are no newline, then one newline.
abbrev pub IsLine : Bytes → Type 0
IsLine line = (body : Bytes) × (line ≡ body ++ newline ∷ []) × All (λ c. c ≢ newline) body

split_from-newline :
    (line : Bytes) (c : ℕ) (rest : Bytes)
    → (c == newline) ≡ true
    → split_from line (c ∷ rest) ≡ (split_from [] rest >>= λ lines. ok ((line ++ c ∷ []) ∷ lines))
unfolding split_from
split_from-newline line c rest e = rw (e, split_from)

split_from-other :
    (line : Bytes) (c : ℕ) (rest : Bytes)
    → (c == newline) ≡ false
    → split_from line (c ∷ rest) ≡ split_from (line ++ c ∷ []) rest
unfolding split_from
split_from-other line c rest e = rw (e, split_from)

split_from-nil :
    (line : Bytes) (lines : List Bytes) → split_from line [] ≡ ok lines → (lines ≡ []) × (line ≡ [])
unfolding split_from
split_from-nil [] lines h = (ground arith, refl)
split_from-nil (c ∷ line) lines h = cc

split_from_sound :
    (raw line : Bytes) (lines : List Bytes)
    → All (λ c. c ≢ newline) line
    → split_from line raw ≡ ok lines
    → (join lines ≡ line ++ raw) × All IsLine lines
split_from_sound [] line lines clean h =
    let (e, f) = split_from-nil line lines h in (cc (ap join e, f), subst (All IsLine) (sym e) tt)
split_from_sound (c ∷ rest) line lines clean h = elim (Bool-cases (c == newline)) [
  | inl e ↦
      let (others, q, r) =
        >>=-eq-ok (split_from [] rest) _ (sym (split_from-newline line c rest e) ∙ h) in
      let (joined, all) = split_from_sound rest [] others tt q in
      let same : lines ≡ (line ++ c ∷ []) ∷ others = cc r in
      let nl : c ≡ newline = ground arith in
      (
        ap join same ∙ append_assoc line (c ∷ []) (join others) ∙ ap (λ t. line ++ c ∷ t) joined,
        subst (All IsLine) (sym same) ((line, ap (λ t. line ++ t ∷ []) nl, clean), all),
      )
  | inr e ↦
      let (joined, all) =
        split_from_sound rest (line ++ c ∷ []) lines
          (All-append (λ d. d ≢ newline) line (c ∷ []) clean (ground arith, tt))
          (sym (split_from-other line c rest e) ∙ h) in
      (joined ∙ append_assoc line (c ∷ []) rest, all)
]

-- A payload that is split gives back the payload when its lines are joined, and each line is bytes other than a
-- newline with one newline behind them.
pub split_lines_sound :
    (raw : Bytes) (lines : List Bytes)
    → split_lines raw ≡ ok lines
    → (join lines ≡ raw) × All IsLine lines
unfolding split_lines
split_lines_sound raw lines h = split_from_sound raw [] lines tt h

split_from_complete :
    (body line rest : Bytes)
    → All (λ c. c ≢ newline) body
    → split_from line (body ++ newline ∷ rest)
      ≡ (split_from [] rest >>= λ lines. ok ((line ++ body ++ newline ∷ []) ∷ lines))
split_from_complete [] line rest clean = split_from-newline line newline rest refl ∙ rw append-nil
split_from_complete (c ∷ body) line rest clean =
    split_from-other line c (body ++ newline ∷ rest) (ground (arith, clean.0))
    ∙ split_from_complete body (line ++ c ∷ []) rest clean.1
    ∙ ap (λ t. split_from [] rest >>= λ lines. ok ((t ++ newline ∷ []) ∷ lines))
        (append_assoc line (c ∷ []) body)

-- Joined lines are split into the same lines.
pub split_lines-join : (lines : List Bytes) → All IsLine lines → split_lines (join lines) ≡ ok lines
unfolding split_lines split_from
split_lines-join [] h = refl
split_lines-join (l ∷ lines) ((body, e, clean), rest) =
    ap (λ t. split_from [] (t ++ join lines)) e
    ∙ ap (split_from []) (append_assoc body (newline ∷ []) (join lines))
    ∙ split_from_complete body [] (join lines) clean
    ∙ ap (λ r. r >>= λ ls. ok ((body ++ newline ∷ []) ∷ ls)) (split_lines-join lines rest)
    ∙ ap (λ t. ok (t ∷ lines)) (sym e)

split_from_empty : split_from [] [] ≡ ok []
unfolding split_from
split_from_empty = refl

-- What ends in a newline is split, whatever stands before.
split_from_total :
    (body line : Bytes) → (lines : List Bytes) × (split_from line (body ++ newline ∷ []) ≡ ok lines)
split_from_total [] line =
    ((line ++ newline ∷ []) ∷ [], split_from-newline line newline [] refl ∙ rw split_from_empty)
split_from_total (c ∷ body) line = elim (Bool-cases (c == newline)) [
  | inl e ↦
      let (lines, h) = split_from_total body [] in
      ((line ++ c ∷ []) ∷ lines, split_from-newline line c (body ++ newline ∷ []) e ∙ rw h)
  | inr e ↦
      let (lines, h) = split_from_total body (line ++ c ∷ []) in
      (lines, split_from-other line c (body ++ newline ∷ []) e ∙ h)
]

pub split_lines_total :
    (body : Bytes) → (lines : List Bytes) × (split_lines (body ++ newline ∷ []) ≡ ok lines)
unfolding split_lines
split_lines_total body = split_from_total body []
