-- ===== src/Xbpi/Tlv/Sequence.antt =====
-- A concatenation of records: `parse_tlv_sequence` against its encoder.
use sartoriuslib.Prelude.{
  ℕ, zero, suc, ◌+◌, ◌≤◌, ◌<◌, ◌≡◌, refl, sym, ap, ◌∙◌, ◌↔◌, inl, inr, none, some, List, [], ◌∷◌,
  ◌++◌, append-nil, append_assoc, arith, length, drop, All, ltb, length-append, length-drop,
  drop-nil_iff, Bool-cases, ltb→lt, lt→ltb,
}
use mathlib.Core.Path.{subst}
use sartoriuslib.Prelude.Bytes.{Bytes}
use sartoriuslib.Errors.{ErrorClass}
use sartoriuslib.Errors.Result.{Result, ok, err, Result-cases}
use sartoriuslib.Xbpi.Tlv.{decode_tlv, tlv_loop, parse_tlv_sequence}
use sartoriuslib.Xbpi.Tlv.Record.{IsRecord, decode_tlv_sound, decode_tlv_complete}

-- The records, one after the other, a tag before its value.
abbrev pub encode_all : List (ℕ × Bytes) → Bytes
encode_all [] = []
encode_all ((tag, value) ∷ records) = tag ∷ value ++ encode_all records

loop_spent :
    (body : Bytes) (offset : ℕ) (out : List (ℕ × Bytes)) → tlv_loop 0 body offset out ≡ none
unfolding tlv_loop
loop_spent body offset out = refl

-- One round of the loop, inside the buffer and at its end.
loop_done :
    (fuel : ℕ) (body : Bytes) (offset : ℕ) (out : List (ℕ × Bytes))
    → length body ≤ offset
    → tlv_loop (suc fuel) body offset out ≡ some (ok out)
unfolding tlv_loop
loop_done fuel body offset out h = ground arith

loop_read :
    (fuel : ℕ) (body : Bytes) (offset : ℕ) (out : List (ℕ × Bytes)) (tag : ℕ) (value : Bytes)
    (next : ℕ)
    → offset < length body
    → decode_tlv body offset ≡ ok (tag, value, next)
    → tlv_loop (suc fuel) body offset out ≡ tlv_loop fuel body next (out ++ (tag, value) ∷ [])
unfolding tlv_loop
loop_read fuel body offset out tag value next lt h = rw (lt→ltb offset (length body) lt) (rw h)

loop_fail :
    (fuel : ℕ) (body : Bytes) (offset : ℕ) (out : List (ℕ × Bytes)) (c : ErrorClass)
    → offset < length body
    → decode_tlv body offset ≡ err c
    → tlv_loop (suc fuel) body offset out ≡ some (err c)
unfolding tlv_loop
loop_fail fuel body offset out c lt h = rw (lt→ltb offset (length body) lt) (rw h)

-- With fuel for each byte that is left, and one more, the loop returns.
loop_returns :
    (fuel : ℕ) (body : Bytes) (offset : ℕ) (out : List (ℕ × Bytes))
    → offset ≤ length body
    → length body < fuel + offset
    → (r : Result (List (ℕ × Bytes))) × (tlv_loop fuel body offset out ≡ some r)
loop_returns zero body offset out le room = absurd (omega arith)
loop_returns (suc fuel) body offset out le room = elim (Bool-cases (ltb offset (length body))) [
  | inr past ↦ (ok out, loop_done fuel body offset out (ground arith))
  | inl inside ↦ elim (Result-cases (decode_tlv body offset)) [
    | inl ((tag, value, next), h) ↦
        let lt : offset < length body = ltb→lt _ _ inside in
        let read = decode_tlv_sound body offset h in
        let (r, e) = loop_returns fuel body next (out ++ (tag, value) ∷ []) read.2 (omega arith) in
        (r, loop_read fuel body offset out tag value next lt h ∙ e)
    | inr (c, h) ↦ (err c, loop_fail fuel body offset out c (ltb→lt _ _ inside) h)
  ]
]

-- The loop ends on every body, with its records or with an error: the fuel given is enough.
pub parse_tlv_sequence_returns :
    (body : Bytes) → (r : Result (List (ℕ × Bytes))) × (parse_tlv_sequence body ≡ some r)
unfolding parse_tlv_sequence
parse_tlv_sequence_returns body =
    loop_returns (suc (length body)) body 0 [] (omega arith) (omega arith)

loop_complete :
    (fuel : ℕ) (body : Bytes) (offset : ℕ) (out records : List (ℕ × Bytes))
    → length records < fuel
    → All IsRecord records
    → drop offset body ≡ encode_all records
    → tlv_loop fuel body offset out ≡ some (ok (out ++ records))
loop_complete zero body offset out records room valid at = absurd (omega arith)
loop_complete (suc fuel) body offset out [] room valid at =
    loop_done fuel body offset out (omega (arith, ap length at, length-drop offset body))
    ∙ rw append-nil refl
loop_complete (suc fuel) body offset out ((tag, value) ∷ records) room valid at =
    let (read, rest) = decode_tlv_complete body offset tag value (encode_all records) valid.0 at in
    loop_read fuel body offset out tag value (offset + 1 + length value)
      (omega (arith, ap length at, length-drop offset body)) read
    ∙ loop_complete fuel body (offset + 1 + length value) (out ++ (tag, value) ∷ []) records
        (omega arith) valid.1 rest
    ∙ rw append_assoc refl

length-encode_all : (records : List (ℕ × Bytes)) → length records ≤ length (encode_all records)
length-encode_all [] = omega arith
length-encode_all ((tag, value) ∷ records) =
    omega (arith, length-append value (encode_all records), length-encode_all records)

loop_sound :
    (fuel : ℕ) (body : Bytes) (offset : ℕ) (out result : List (ℕ × Bytes))
    → tlv_loop fuel body offset out ≡ some (ok result)
    → (records : List (ℕ × Bytes)) × (result ≡ out ++ records)
      × All IsRecord records
      × (drop offset body ≡ encode_all records)
loop_sound zero body offset out result h = cc (h, loop_spent body offset out)
loop_sound (suc fuel) body offset out result h = elim (Bool-cases (ltb offset (length body))) [
  | inr past ↦ (
    [],
    rw append-nil (cc (h, loop_done fuel body offset out (ground arith))),
    tt,
    drop-nil_iff offset body (ground arith),
  )
  | inl inside ↦ elim (Result-cases (decode_tlv body offset)) [
    | inl ((tag, value, next), e) ↦
        let read = loop_read fuel body offset out tag value next (ltb→lt _ _ inside) e in
        let (records, same, valid, rest) =
          loop_sound fuel body next (out ++ (tag, value) ∷ []) result (sym read ∙ h) in
        let (known, at, fits, split) = decode_tlv_sound body offset e in
        (
          (tag, value) ∷ records,
          same ∙ append_assoc out ((tag, value) ∷ []) records,
          (known, valid),
          split ∙ ap (λ r. tag ∷ value ++ r) rest,
        )
    | inr (c, e) ↦ absurd (ground (arith, loop_fail fuel body offset out c (ltb→lt _ _ inside) e))
  ]
]

-- parse_tlv_sequence returns records exactly when they are records of the table and the body is their
-- concatenation.
pub parse_tlv_sequence_iff :
    (body : Bytes) (records : List (ℕ × Bytes))
    → (parse_tlv_sequence body ≡ some (ok records))
      ↔ (All IsRecord records × (body ≡ encode_all records))
unfolding parse_tlv_sequence
parse_tlv_sequence_iff body records = (
  λ h.
      let (found, same, valid, whole) = loop_sound (suc (length body)) body 0 [] records h in
      (subst (All IsRecord) (sym same) valid, whole ∙ ap encode_all (sym same)),
  λ h.
      loop_complete (suc (length body)) body 0 [] records
        (omega (arith, ap length h.1, length-encode_all records)) h.0 h.1,
)
