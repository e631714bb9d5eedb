-- ===== src/Xbpi/Tlv/Record.antt =====
-- One record: what `encode_tlv` writes and what `decode_tlv` reads.
use sartoriuslib.Prelude.{
  ℕ, suc, ◌+◌, ◌-◌, ◌^◌, ◌≤◌, ◌<◌, ◌≡◌, sym, ap, ◌∙◌, inl, inr, Option, none, some, ◌∷◌, ◌++◌,
  arith, length, get_or, take, drop, slice, length-append, length-take, length-drop,
  take-append-drop, take-append, drop-append, drop-drop, drop-cons, Option-cases, lt→ltb,
}
use sartoriuslib.Prelude.Bytes.{Bytes, to_bytes_unchecked, length-to_bytes, from_bytes-to_bytes}
use sartoriuslib.Prelude.Int.{pos, negsuc}
use sartoriuslib.Errors.Result.{ok, >>=-eq-ok}
use sartoriuslib.Xbpi.Tlv.{
  tag_size, TlvValue, int, raw, encode_tlv, decode_tlv, decode_sized, tlv_value_as_int, payload,
  encode_sized,
}

-- A tag of the table with a value of the size that it says.
abbrev pub IsRecord : ℕ × Bytes → Type 0
IsRecord (tag, value) = tag_size tag ≡ some (length value)

-- What a successful decode says of the rest of the buffer.
decode_sized_sound :
    (bytes : Bytes) (offset tag size : ℕ) {t : ℕ} {value : Bytes} {next : ℕ}
    → offset < length bytes
    → decode_sized bytes offset tag (some size) ≡ ok (t, value, next)
    → (t ≡ tag)
      × (length value ≡ size)
      × (next ≡ offset + 1 + size)
      × (next ≤ length bytes)
      × (value ≡ take size (drop (offset + 1) bytes))
unfolding decode_sized
decode_sized_sound bytes offset tag size {t} {value} {next} lt h =
    let e : offset + 1 + size - (offset + 1) ≡ size = omega arith in
    ground (arith, e, length-take size (drop (offset + 1) bytes), length-drop (offset + 1) bytes)

-- A successful `decode_tlv` found its offset in the buffer and its tag in the table.
decode_tlv_inside :
    (bytes : Bytes) (offset : ℕ) {r : ℕ × Bytes × ℕ}
    → decode_tlv bytes offset ≡ ok r
    → offset < length bytes
unfolding decode_tlv
decode_tlv_inside bytes offset h = ground arith

decode_tlv_known :
    (bytes : Bytes) (offset : ℕ) {r : ℕ × Bytes × ℕ}
    → decode_tlv bytes offset ≡ ok r
    → (size : ℕ) × (tag_size (get_or bytes offset 0) ≡ some size)
      × (decode_sized bytes offset (get_or bytes offset 0) (some size) ≡ ok r)
unfolding decode_tlv
decode_tlv_known bytes offset h = elim (Option-cases (tag_size (get_or bytes offset 0))) [
  | inl e ↦ absurd (ground arith)
  | inr (size, e) ↦ (size, e, ground arith)
]

-- A successful `decode_tlv` has read one record of the table at the offset, and stands behind it, in the buffer.
pub decode_tlv_sound :
    (bytes : Bytes) (offset : ℕ) {t : ℕ} {value : Bytes} {next : ℕ}
    → decode_tlv bytes offset ≡ ok (t, value, next)
    → IsRecord (t, value)
      × (next ≡ offset + 1 + length value)
      × (next ≤ length bytes)
      × (drop offset bytes ≡ t ∷ value ++ drop next bytes)
decode_tlv_sound bytes offset {t} {value} {next} h =
    let inside = decode_tlv_inside bytes offset h in
    let (size, known, sized) = decode_tlv_known bytes offset h in
    let (same, len, at, fits, taken) =
      decode_sized_sound bytes offset (get_or bytes offset 0) size inside sized in
    let plus_one : offset + 1 ≡ suc offset = omega arith in
    let split : drop offset bytes ≡ get_or bytes offset 0 ∷ drop (suc offset) bytes =
      drop-cons offset bytes 0 inside in
    (
      cc (same, known, len),
      omega arith,
      fits,
      split
          ∙ cc (
            same,
            plus_one,
            at,
            taken,
            take-append-drop size (drop (offset + 1) bytes),
            drop-drop (offset + 1) size bytes,
          ),
    )

record_room :
    (bytes : Bytes) (offset tag : ℕ) (value rest : Bytes)
    → drop offset bytes ≡ tag ∷ value ++ rest
    → length bytes ≡ offset + 1 + length value + length rest
record_room bytes offset tag value rest at =
    omega (arith, ap length at, length-drop offset bytes, length-append value rest)

record_head :
    (bytes : Bytes) (offset tag : ℕ) (value rest : Bytes)
    → drop offset bytes ≡ tag ∷ value ++ rest
    → (get_or bytes offset 0 ≡ tag) × (drop (offset + 1) bytes ≡ value ++ rest)
record_head bytes offset tag value rest at =
    let room = record_room bytes offset tag value rest at in
    let whole = sym (drop-cons offset bytes 0 (omega arith)) ∙ at in
    let plus_one : offset + 1 ≡ suc offset = omega arith in (cc whole, cc (whole, plus_one))

record_slice :
    (bytes : Bytes) (offset tag : ℕ) (value rest : Bytes)
    → drop offset bytes ≡ tag ∷ value ++ rest
    → slice bytes (offset + 1) (offset + 1 + length value) ≡ value
record_slice bytes offset tag value rest at =
    let size : offset + 1 + length value - (offset + 1) ≡ length value = omega arith in
    rw (size, (record_head bytes offset tag value rest at).1) (take-append value rest)

-- Where a record of the table starts, `decode_tlv` reads it.
pub decode_tlv_complete :
    (bytes : Bytes) (offset tag : ℕ) (value rest : Bytes)
    → IsRecord (tag, value)
    → drop offset bytes ≡ tag ∷ value ++ rest
    → (decode_tlv bytes offset ≡ ok (tag, value, offset + 1 + length value))
      × (drop (offset + 1 + length value) bytes ≡ rest)
unfolding decode_tlv
decode_tlv_complete bytes offset tag value rest known at =
    let (head, tail) = record_head bytes offset tag value rest at in
    let room = record_room bytes offset tag value rest at in
    (
      rw (head, known) (ground (arith, record_slice bytes offset tag value rest at)),
      drop-drop (offset + 1) (length value) bytes
          ∙ ap (drop (length value)) tail
          ∙ drop-append value rest,
    )

payload_sound :
    (size : ℕ) (value : TlvValue) (p : Bytes) → payload size value ≡ ok p → length p ≡ size
unfolding payload
payload_sound size (int (pos n)) p h = ground (arith, length-to_bytes size n)
payload_sound size (int (negsuc n)) p h = cc
payload_sound size (raw v) p h = ground arith

encode_sized_sound :
    (tag : ℕ) (o : Option ℕ) (value : TlvValue) (out : Bytes)
    → encode_sized tag o value ≡ ok out
    → (p : Bytes) × (out ≡ tag ∷ p) × (o ≡ some (length p))
unfolding encode_sized
encode_sized_sound tag none value out h = cc
encode_sized_sound tag (some size) value out h =
    let (p, e, f) = >>=-eq-ok (payload size value) (λ p. ok (tag ∷ p)) h in
    (p, cc f, ap some (sym (payload_sound size value p e)))

-- What `encode_tlv` returns is one record of the table.
pub encode_tlv_sound :
    (tag : ℕ) (value : TlvValue) (out : Bytes)
    → encode_tlv tag value ≡ ok out
    → (p : Bytes) × (out ≡ tag ∷ p) × IsRecord (tag, p)
unfolding encode_tlv
encode_tlv_sound tag value out h = encode_sized_sound tag (tag_size tag) value out h

-- An integer that fits a tag of the table is written, and reading the written bytes anywhere in a buffer gives
-- back the tag, the integer and the offset behind the record.
pub decode-encode_int :
    (tag size n : ℕ) (before after : Bytes)
    → tag_size tag ≡ some size
    → n < 256 ^ size
    → (out : Bytes) × (value : Bytes) × (encode_tlv tag (int (pos n)) ≡ ok out)
      × (decode_tlv (before ++ (out ++ after)) (length before)
          ≡ ok (tag, value, length before + length out))
      × (tlv_value_as_int value ≡ n)
unfolding encode_tlv tlv_value_as_int
decode-encode_int tag size n before after known fits =
    let value = to_bytes_unchecked size n in
    let len = length-to_bytes size n in
    (
      tag ∷ value,
      value,
      rw known (ground (arith, lt→ltb n (256 ^ size) fits)),
      (decode_tlv_complete (before ++ (tag ∷ value ++ after)) (length before) tag value after
            (known ∙ ap some (sym len)) (drop-append before (tag ∷ value ++ after))).0
          ∙ ap (λ k. ok (tag, value, k)) (omega arith),
      from_bytes-to_bytes size n fits,
    )
