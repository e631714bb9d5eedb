-- ===== src/Commands/Parameters/Exact.antt =====
-- commands/parameters.py: which replies hold a parameter.
use sartoriuslib.Prelude.{
  ℕ, suc, ◌≡◌, refl, sym, ap, subst, ◌∙◌, ◌↔◌, Option, none, some, List, [], ◌∷◌, Bool, true, false,
  ◌&&◌, length, get_or, All, ◌==◌, if◌then◌else◌, arith, ==_iff,
}
use sartoriuslib.Prelude.Int.{negsuc}
use sartoriuslib.Prelude.Bytes.{Bytes}
use sartoriuslib.Errors.{parse}
use sartoriuslib.Errors.Result.{Result, ok, err, >>=-eq-ok, ◌>>=◌}
use sartoriuslib.Xbpi.Types.{XbpiFrame}
use sartoriuslib.Xbpi.Tlv.{tag_size, parse_tlv_sequence}
use sartoriuslib.Xbpi.Tlv.Record.{IsRecord}
use sartoriuslib.Xbpi.Tlv.Sequence.{encode_all, parse_tlv_sequence_iff}
use sartoriuslib.Devices.Models.{ParameterEntry}
use sartoriuslib.Commands.Parameters.{returned, entry_of, decode_parameter}

one_byte :
    (tag : ℕ) (value : Bytes) → tag ≡ 0x21 → IsRecord (tag, value) → (x : ℕ) × (value ≡ x ∷ [])
unfolding tag_size
one_byte tag [] h sized =
    let e : ◌≡◌ {A = Option ℕ} (some 1) (some 0) = ap tag_size (sym h) ∙ sized in ground arith
one_byte tag (x ∷ []) h sized = (x, refl)
one_byte tag (x ∷ y ∷ rest) h sized =
    let e : ◌≡◌ {A = Option ℕ} (some 1) (some (suc (suc (length rest)))) =
      ap tag_size (sym h) ∙ sized in
    ground arith

abbrev pub entry : ℕ → ℕ → Bytes → ParameterEntry
entry current maximum body = record {
  index = negsuc 0;
  current = current;
  maximum = maximum;
  raw = body;
}

-- What the two records of an entry are.
entry_of_sound :
    (body : Bytes) (records : List (ℕ × Bytes)) (out : ParameterEntry)
    → entry_of body records ≡ ok out
    → (c m : Bytes) × (records ≡ (0x21, c) ∷ (0x21, m) ∷ [])
      × (out ≡ entry (get_or c 0 0) (get_or m 0 0) body)
unfolding entry_of
entry_of_sound body [] out h = cc
entry_of_sound body (a ∷ []) out h = cc
entry_of_sound body (a ∷ b ∷ c ∷ rest) out h = cc
entry_of_sound body ((s, c) ∷ (t, m) ∷ []) out h = by_tags (s == 0x21) (t == 0x21) refl refl h
  where
    by_tags :
        (p q : Bool)
        → (s == 0x21) ≡ p
        → (t == 0x21) ≡ q
        → (if p && q then ok (entry (get_or c 0 0) (get_or m 0 0) body) else err parse) ≡ ok out
        → (c' m' : Bytes) × ◌≡◌ {A = List (ℕ × Bytes)}
            ((s, c) ∷ (t, m) ∷ [])
            ((0x21, c') ∷ (0x21, m') ∷ [])
          × (out ≡ entry (get_or c' 0 0) (get_or m' 0 0) body)
    by_tags true true e f k =
        let first : s ≡ 0x21 = (==_iff s 0x21).0 e in
        let second : t ≡ 0x21 = (==_iff t 0x21).0 f in (c, m, cc, cc)
    by_tags true false e f k = cc
    by_tags false q e f k = cc

returned-eq-ok :
    (o : Option (Result (List (ℕ × Bytes)))) {records : List (ℕ × Bytes)}
    → returned o ≡ ok records
    → o ≡ some (ok records)
returned-eq-ok none h = cc
returned-eq-ok (some r) h = ap some h

-- A reply is decoded to an entry exactly when its subtype and its body are the two records of a current value and
-- a maximum, each one byte long, and the entry holds them, with the index left to the caller.
pub decode_parameter_iff :
    (reply : XbpiFrame) (out : ParameterEntry)
    → (decode_parameter reply ≡ ok out) ↔ (
        (c m : ℕ) × (reply.subtype ≡ 0x21)
        × (reply.body ≡ c ∷ 0x21 ∷ m ∷ [])
        × (out ≡ entry c m reply.body))
unfolding decode_parameter entry_of tag_size
decode_parameter_iff reply out = (
  λ h.
      let (records, read, built) =
        >>=-eq-ok (returned (parse_tlv_sequence (reply.subtype ∷ reply.body))) _ h in
      let (c, m, two, made) = entry_of_sound reply.body records out built in
      let (valid, whole) =
        (parse_tlv_sequence_iff (reply.subtype ∷ reply.body) records).0 (returned-eq-ok _ read) in
      let (first, (second, end)) = subst (All IsRecord) two valid in
      let (x, one) = one_byte 0x21 c refl first in
      let (y, other) = one_byte 0x21 m refl second in
      let bytes : reply.subtype ∷ reply.body ≡ 0x21 ∷ x ∷ 0x21 ∷ y ∷ [] =
        whole
        ∙ ap encode_all two
        ∙ ap (λ v. encode_all ((0x21, v) ∷ (0x21, m) ∷ [])) one
        ∙ ap (λ v. encode_all ((0x21, x ∷ []) ∷ (0x21, v) ∷ [])) other in
      (
        x,
        y,
        cc,
        cc,
        made
            ∙ ap (λ v. entry (get_or v 0 0) (get_or m 0 0) reply.body) one
            ∙ ap (λ v. entry x (get_or v 0 0) reply.body) other,
      ),
  λ (c, m, tag, body, made).
      let whole : reply.subtype ∷ reply.body ≡ 0x21 ∷ c ∷ 0x21 ∷ m ∷ [] = cc in
      let read =
        (parse_tlv_sequence_iff (reply.subtype ∷ reply.body)
            ((0x21, c ∷ []) ∷ (0x21, m ∷ []) ∷ [])).1
          ((refl, (refl, tt)), whole) in
      ap (λ o. returned o >>= entry_of reply.body) read ∙ ap ok (sym made),
)
