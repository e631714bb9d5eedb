-- ===== src/Xbpi/Parser/Measurement.antt =====
-- The short measurement body, by its packed fields.
use Prim.Native.Nat.{bit_and}
use sartoriuslib.Prelude.{
  ℕ, ◌+◌, ◌*◌, ◌/◌, ◌%◌, ◌<◌, ◌≡◌, refl, ◌↔◌, none, some, [], ◌∷◌, true, false, arith, ◌==◌,
  if◌then◌else◌,
}
use sartoriuslib.Prelude.Bytes.{Bytes, bytes_eq_iff}
use sartoriuslib.Prelude.Float32.{unpack_float32}
use sartoriuslib.Prelude.Masks.{mask_0f, mask_3f, mask_c0, mask_40}
use sartoriuslib.Registry.Units.{Sign, lookup_code}
use sartoriuslib.Errors.Result.{ok}
use sartoriuslib.Xbpi.Types.{MeasurementBody}
use sartoriuslib.Xbpi.Units.{decode_decimals, decode_sign, decode_unit, unit_id_table, or_unknown}
use sartoriuslib.Xbpi.Parser.{
  decode_measurement_body, is_status_block_body, off_scale_sentinel, has_bit,
}

-- Byte [5]: the decimals above a nibble that is ignored.
decode_decimals-pack :
    (decimals low : ℕ) → decimals < 16 → low < 16 → decode_decimals (decimals * 16 + low) ≡ decimals
unfolding decode_decimals
decode_decimals-pack decimals low h k =
    let shifted : (decimals * 16 + low) / 16 ≡ decimals = omega arith in
    rw shifted (omega (arith, mask_0f decimals (omega arith)))

-- The sign that each value of the two bits stands for.
abbrev pub sign_of_bits : ℕ → Sign
sign_of_bits s =
    if s == 0
    then Sign.zero
    else if s == 1
    then Sign.positive
    else if s == 2
    then Sign.negative
    else Sign.unknown

-- Byte [6]: two sign bits above six bits of unit.
decode_sign-pack : (s u : ℕ) → s < 4 → u < 64 → decode_sign (s * 64 + u) ≡ sign_of_bits s
unfolding decode_sign
decode_sign-pack s u h k = ground (arith, mask_c0 (s * 64 + u))

decode_unit-pack :
    (s u : ℕ) → s < 4 → u < 64 → decode_unit (s * 64 + u) ≡ or_unknown (lookup_code unit_id_table u)
unfolding decode_unit
decode_unit-pack s u h k =
    let once : bit_and (s * 64 + u) 0x3f ≡ u = omega (arith, mask_3f (s * 64 + u) (omega arith)) in
    let again : bit_and u 0x3f ≡ u = omega (arith, mask_3f u (omega arith)) in rw (once, again)

has_bit_40 : (x : ℕ) → x < 256 → has_bit x 0x40 ≡ (x / 64 % 2 == 1)
has_bit_40 x h = ground (arith, mask_40 x)

-- An eight-byte body, given by its four value bytes, the aux byte, the decimals with the nibble beside them, the
-- sign bits with the unit bits, and the flags, decodes to just these parts, with the unit byte and the body as
-- they were. The value is missing exactly when the first five bytes are the off-scale sentinel, and otherwise it
-- is the number in the first four.
pub decode_measurement_body-pack :
    (b0 b1 b2 b3 aux decimals low s u flags : ℕ)
    → decimals < 16
    → low < 16
    → s < 4
    → u < 64
    → flags < 256
    → (m : MeasurementBody) × (decode_measurement_body
          (b0 ∷ b1 ∷ b2 ∷ b3 ∷ aux ∷ (decimals * 16 + low) ∷ (s * 64 + u) ∷ flags ∷ [])
        ≡ ok m)
      × (m.raw ≡ b0 ∷ b1 ∷ b2 ∷ b3 ∷ aux ∷ (decimals * 16 + low) ∷ (s * 64 + u) ∷ flags ∷ [])
      × (m.aux ≡ aux)
      × (m.unit_raw ≡ s * 64 + u)
      × (m.flags ≡ flags)
      × (m.decimals ≡ decimals)
      × (m.sign ≡ sign_of_bits s)
      × (m.unit ≡ or_unknown (lookup_code unit_id_table u))
      × (m.stable ≡ (flags / 64 % 2 == 1))
      × ((m.off_scale ≡ true) ↔ (b0 ∷ b1 ∷ b2 ∷ b3 ∷ aux ∷ [] ≡ off_scale_sentinel))
      × (m.value ≡ (if m.off_scale then none else some (unpack_float32 (b0 ∷ b1 ∷ b2 ∷ b3 ∷ []))))
unfolding decode_measurement_body
decode_measurement_body-pack b0 b1 b2 b3 aux decimals low s u flags hd hl hs hu hf = (
  _,
  refl,
  refl,
  refl,
  refl,
  refl,
  decode_decimals-pack decimals low hd hl,
  decode_sign-pack s u hs hu,
  decode_unit-pack s u hs hu,
  has_bit_40 flags hf,
  bytes_eq_iff (b0 ∷ b1 ∷ b2 ∷ b3 ∷ aux ∷ []) off_scale_sentinel,
  refl,
)

-- A body that looks like a status block is never read as an off-scale measurement.
pub status_block-off_scale :
    (raw : Bytes) (m : MeasurementBody)
    → is_status_block_body raw ≡ true
    → decode_measurement_body raw ≡ ok m
    → m.off_scale ≡ false
unfolding is_status_block_body decode_measurement_body
status_block-off_scale (b0 ∷ b1 ∷ b2 ∷ b3 ∷ b4 ∷ b5 ∷ b6 ∷ b7 ∷ []) m h e = ground arith
status_block-off_scale raw m h e = ground arith
