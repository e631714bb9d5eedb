-- ===== src/Xbpi/Tlv.antt =====
-- protocol/xbpi/tlv.py: tag-length-value records.
pub mod Record
pub mod Sequence
use sartoriuslib.Prelude.{
  ℕ, zero, suc, ◌+◌, ◌-◌, ◌^◌, Option, none, some, List, [], ◌∷◌, ◌++◌, length, get_or, slice, ltb,
  ◌==◌, if◌then◌else◌,
}
use sartoriuslib.Prelude.Bytes.{Bytes, to_bytes_unchecked, from_bytes}
use sartoriuslib.Prelude.Int.{ℤ, pos, negsuc}
use sartoriuslib.Errors.{frame}
use sartoriuslib.Errors.Result.{Result, ok, err, ◌>>=◌}

-- `TLV_TAG_SIZES[tag]`; `none` is a tag that is not in the table.
unfoldable pub tag_size : ℕ → Option ℕ
tag_size tag =
    if tag == 0x11
    then some 1
    else if tag == 0x12
    then some 2
    else if tag == 0x14
    then some 4
    else if tag == 0x21
    then some 1
    else if tag == 0x22
    then some 2
    else if tag == 0x24
    then some 4
    else none

-- The two types of `value`.
pub data TlvValue : Type 0 where
  int : ℤ → TlvValue
  raw : Bytes → TlvValue

-- value.to_bytes(size, "big"), whose OverflowError is re-raised as a framing error.
int_payload : ℕ → ℤ → Result Bytes
int_payload size (negsuc value) = err frame
int_payload size (pos value) =
    if ltb value (256 ^ size) then ok (to_bytes_unchecked size value) else err frame

payload : ℕ → TlvValue → Result Bytes
unfolding int_payload
payload size (int value) = int_payload size value
payload size (raw value) = if length value == size then ok value else err frame

encode_sized : ℕ → Option ℕ → TlvValue → Result Bytes
unfolding payload
encode_sized tag none value = err frame
encode_sized tag (some size) value = payload size value >>= λ p. ok (tag ∷ p)

unfoldable pub encode_tlv : ℕ → TlvValue → Result Bytes
unfolding encode_sized
encode_tlv tag value = encode_sized tag (tag_size tag) value

-- The part of `decode_tlv` below the tag lookup.
decode_sized : Bytes → ℕ → ℕ → Option ℕ → Result (ℕ × Bytes × ℕ)
decode_sized bytes offset tag none = err frame
decode_sized bytes offset tag (some size) =
    let value_start = offset + 1 in
    let value_end = value_start + size in
    if ltb (length bytes) value_end
    then err frame
    else ok (tag, slice bytes value_start value_end, value_end)

unfoldable pub decode_tlv : Bytes → ℕ → Result (ℕ × Bytes × ℕ)
unfolding decode_sized
decode_tlv bytes offset =
    let tag = get_or bytes offset 0 in
    if ltb offset (length bytes) then decode_sized bytes offset tag (tag_size tag) else err frame

-- The `while` loop with its state `out` and `offset`; `none` means that the fuel ran out.
tlv_loop : ℕ → Bytes → ℕ → List (ℕ × Bytes) → Option (Result (List (ℕ × Bytes)))
tlv_loop zero body offset out = none
tlv_loop (suc fuel) body offset out =
    if ltb offset (length body)
    then (elim (decode_tlv body offset) [
      | ok (tag, value, next) ↦ tlv_loop fuel body next (out ++ (tag, value) ∷ [])
      | err c ↦ some (err c)
    ])
    else some (ok out)

-- Each round but the last passes a tag and a value, so the rounds are at most the bytes and one more.
unfoldable pub parse_tlv_sequence : Bytes → Option (Result (List (ℕ × Bytes)))
unfolding tlv_loop
parse_tlv_sequence body = tlv_loop (suc (length body)) body 0 []

unfoldable pub tlv_value_as_int : Bytes → ℕ
tlv_value_as_int value = from_bytes value
