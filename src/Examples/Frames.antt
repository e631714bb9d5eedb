-- ===== src/Examples/Frames.antt =====
-- Concrete xBPI frames and records.
use sartoriuslib.Prelude.{ℕ, ◌≤◌, ◌<◌, ◌≡◌, refl, ◌↔◌, some, List, [], ◌∷◌, arith, length, All}
use sartoriuslib.Prelude.Int.{pos}
use sartoriuslib.Prelude.Bytes.{Bytes}
use sartoriuslib.Errors.{frame, transient_transport}
use sartoriuslib.Errors.Result.{Result, ok, err}
use sartoriuslib.Xbpi.Framing.{
  parse_frame, build_command, checksum, last_byte, all_but_last, body_of,
}
use sartoriuslib.Xbpi.Framing.Codec.{
  encode_reply, decoded_reply, IsReply, parse_frame_iff, parse_frame_error_class,
}
use sartoriuslib.Xbpi.Framing.Corruption.{parse_frame-corrupted}
use sartoriuslib.Xbpi.Framing.Request.{FitsByte, encode_request, build_command_iff}
use sartoriuslib.Xbpi.Tlv.{parse_tlv_sequence}
use sartoriuslib.Xbpi.Tlv.Record.{IsRecord}
use sartoriuslib.Xbpi.Tlv.Sequence.{encode_all, parse_tlv_sequence_iff, parse_tlv_sequence_returns}

parse_frame_iff_example :
    (parse_frame (0x03 ∷ 0x41 ∷ 0x00 ∷ 0x44 ∷ []) ≡ ok (decoded_reply 0x00 [])) ↔ (
      (0x03 ∷ 0x41 ∷ 0x00 ∷ 0x44 ∷ [] ≡ encode_reply 0x00 [])
      × (decoded_reply 0x00 [] ≡ decoded_reply 0x00 []))
parse_frame_iff_example = parse_frame_iff (0x03 ∷ 0x41 ∷ 0x00 ∷ 0x44 ∷ []) (decoded_reply 0x00 [])

parse_frame-corrupted_example : parse_frame (0x03 ∷ 0x42 ∷ 0x00 ∷ 0x44 ∷ []) ≡ err frame
unfolding parse_frame last_byte all_but_last body_of checksum
parse_frame-corrupted_example =
    parse_frame-corrupted (0x03 ∷ []) (0x00 ∷ 0x44 ∷ []) 0x41 0x42 (decoded_reply 0x00 [])
      (omega arith) (omega arith) (λ e. omega (arith, e)) refl

abbrev two_bytes : Bytes
two_bytes = 0x03 ∷ 0x41 ∷ []

parse_frame_error_class_example :
    ((parse_frame two_bytes ≡ err transient_transport) ↔ (length two_bytes < 4))
    × ((parse_frame two_bytes ≡ err frame) ↔ ((4 ≤ length two_bytes) × ¬ (IsReply two_bytes)))
parse_frame_error_class_example = parse_frame_error_class two_bytes

abbrev read_weight : Bytes
read_weight = 0x04 ∷ 0x01 ∷ 0x09 ∷ 0x1e ∷ 0x2c ∷ []

build_command_iff_example : (build_command (pos 0x1e) [] (pos 0x01) (pos 0x09) ≡ ok read_weight) ↔ (
    FitsByte (pos 0x1e)
    × FitsByte (pos 0x01)
    × FitsByte (pos 0x09)
    × (0 ≤ 251)
    × (read_weight ≡ encode_request 0x1e [] 0x01 0x09))
build_command_iff_example = build_command_iff (pos 0x1e) (pos 0x01) (pos 0x09) [] read_weight

parse_tlv_sequence_iff_example :
    (parse_tlv_sequence (0x11 ∷ 0x07 ∷ []) ≡ some (ok ((0x11, 0x07 ∷ []) ∷ []))) ↔ (
      All IsRecord ((0x11, 0x07 ∷ []) ∷ [])
      × (0x11 ∷ 0x07 ∷ [] ≡ encode_all ((0x11, 0x07 ∷ []) ∷ [])))
parse_tlv_sequence_iff_example = parse_tlv_sequence_iff (0x11 ∷ 0x07 ∷ []) ((0x11, 0x07 ∷ []) ∷ [])

parse_tlv_sequence_returns_example :
    (r : Result (List (ℕ × Bytes))) × (parse_tlv_sequence (0x12 ∷ 0x07 ∷ []) ≡ some r)
parse_tlv_sequence_returns_example = parse_tlv_sequence_returns (0x12 ∷ 0x07 ∷ [])
