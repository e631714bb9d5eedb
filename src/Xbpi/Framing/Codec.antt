-- ===== src/Xbpi/Framing/Codec.antt =====
-- `parse_frame` against an independent encoder of reply frames, and what `build_command` sends.
use sartoriuslib.Prelude.{
  ℕ, suc, ◌+◌, ◌-◌, ◌≤◌, ◌<◌, ◌≡◌, sym, ap, ◌∙◌, ◌↔◌, ◌⊎◌, refl, inl, inr, true, not, [], ◌∷◌, ◌++◌,
  arith, length, length-append, take-append, get_or-append, snoc_cases, leb, ◌==◌, if◌then◌else◌,
  Bool-cases,
}
use sartoriuslib.Prelude.Bytes.{Bytes}
use sartoriuslib.Errors.{ErrorClass, frame, transient_transport}
use sartoriuslib.Errors.Result.{Result, ok, err}
use sartoriuslib.Xbpi.Types.{XbpiFrame}
use sartoriuslib.Xbpi.Framing.{checksum, parse_frame, last_byte, all_but_last, body_of, rx_marker}

-- [len] [0x41] [subtype] [body...] [chk], as the module's documentation draws a reply.
abbrev pub encode_reply : ℕ → Bytes → Bytes
encode_reply subtype body =
    let pre : Bytes = (length body + 3) ∷ rx_marker ∷ subtype ∷ body in pre ++ checksum pre ∷ []

-- What `parse_frame` makes of that reply.
abbrev pub decoded_reply : ℕ → Bytes → XbpiFrame
decoded_reply subtype body = record {
  length = length body + 3;
  marker = rx_marker;
  subtype = subtype;
  body = body;
  checksum = checksum ((length body + 3) ∷ rx_marker ∷ subtype ∷ body);
  raw = encode_reply subtype body;
}

length-snoc : (xs : Bytes) (y : ℕ) → length (xs ++ y ∷ []) ≡ length xs + 1
length-snoc xs y = length-append xs (y ∷ [])

snoc_pred : (xs : Bytes) (y : ℕ) → length (xs ++ y ∷ []) - 1 ≡ length xs
snoc_pred xs y = omega (arith, length-snoc xs y)

pub last_byte-snoc : (xs : Bytes) (y : ℕ) → last_byte (xs ++ y ∷ []) ≡ y
unfolding last_byte
last_byte-snoc xs y = rw (snoc_pred xs y) (get_or-append xs y [] 0)

pub all_but_last-snoc : (xs : Bytes) (y : ℕ) → all_but_last (xs ++ y ∷ []) ≡ xs
unfolding all_but_last
all_but_last-snoc xs y = rw (snoc_pred xs y) (take-append xs (y ∷ []))

body_of-snoc : (a b c : ℕ) (ys : Bytes) (z : ℕ) → body_of (a ∷ b ∷ c ∷ ys ++ z ∷ []) ≡ ys
unfolding body_of
body_of-snoc a b c ys z =
    let e : suc (suc (suc (length (ys ++ z ∷ [])))) - 1 - 3 ≡ length ys =
      omega (arith, length-snoc ys z) in
    rw e (take-append ys (z ∷ []))

-- `parse_frame` on four bytes or more, by the frame's parts.
abbrev check_parts : ℕ → ℕ → ℕ → Bytes → ℕ → Result XbpiFrame
check_parts a b c ys z =
    if not (length ys + 3 == a)
    then err frame
    else if not (b == rx_marker)
    then err frame
    else if not (z == checksum (a ∷ b ∷ c ∷ ys))
    then err frame
    else ok (record {
      length = a;
      marker = b;
      subtype = c;
      body = ys;
      checksum = z;
      raw = a ∷ b ∷ c ∷ ys ++ z ∷ [];
    })

parse_frame-parts :
    (a b c : ℕ) (ys : Bytes) (z : ℕ)
    → parse_frame (a ∷ b ∷ c ∷ ys ++ z ∷ []) ≡ check_parts a b c ys z
unfolding parse_frame
parse_frame-parts a b c ys z = ground (
  arith,
  length-snoc ys z,
  body_of-snoc a b c ys z,
  last_byte-snoc (a ∷ b ∷ c ∷ ys) z,
  all_but_last-snoc (a ∷ b ∷ c ∷ ys) z,
)

-- Parsing what the encoder wrote gives back the subtype and the body, with the other fields as sent.
pub parse-encode :
    (subtype : ℕ) (body : Bytes)
    → parse_frame (encode_reply subtype body) ≡ ok (decoded_reply subtype body)
parse-encode subtype body =
    rw
      (parse_frame-parts (length body + 3) rx_marker subtype body
        (checksum ((length body + 3) ∷ rx_marker ∷ subtype ∷ body)))
      (ground arith)

check_parts_sound :
    (a b c : ℕ) (ys : Bytes) (z : ℕ) (f : XbpiFrame)
    → check_parts a b c ys z ≡ ok f
    → (a ∷ b ∷ c ∷ ys ++ z ∷ [] ≡ encode_reply f.subtype f.body)
      × (f ≡ decoded_reply f.subtype f.body)
check_parts_sound a b c ys z f h = ground arith

-- Four bytes or more are three bytes, a middle and a last byte.
parts :
    (raw : Bytes)
    → leb 4 (length raw) ≡ true
    → (a : ℕ) × (b : ℕ) × (c : ℕ) × (ys : Bytes) × (z : ℕ) × (raw ≡ a ∷ b ∷ c ∷ ys ++ z ∷ [])
parts [] h = absurd (ground arith)
parts (a ∷ []) h = absurd (ground arith)
parts (a ∷ b ∷ []) h = absurd (ground arith)
parts (a ∷ b ∷ c ∷ rest) h =
    let (ys, z, e) = snoc_cases rest (ground arith) in (a, b, c, ys, z, ap (λ t. a ∷ b ∷ c ∷ t) e)

pub parse_frame-short : (raw : Bytes) → length raw < 4 → parse_frame raw ≡ err transient_transport
unfolding parse_frame
parse_frame-short raw h = ground arith

parse_frame_sound :
    (raw : Bytes) (f : XbpiFrame)
    → parse_frame raw ≡ ok f
    → (raw ≡ encode_reply f.subtype f.body) × (f ≡ decoded_reply f.subtype f.body)
parse_frame_sound raw f h = elim (Bool-cases (leb 4 (length raw))) [
  | inl long ↦
      let (a, b, c, ys, z, e) = parts raw long in
      let (r, d) =
        check_parts_sound a b c ys z f
          (sym (parse_frame-parts a b c ys z) ∙ ap parse_frame (sym e) ∙ h) in
      (e ∙ r, d)
  | inr short ↦ cc (h, parse_frame-short raw (ground arith))
]

-- parse_frame accepts a buffer exactly when it is what the encoder of reply frames writes for the subtype and the
-- body returned, with the other fields as sent.
pub parse_frame_iff :
    (raw : Bytes) (f : XbpiFrame)
    → (parse_frame raw ≡ ok f)
      ↔ ((raw ≡ encode_reply f.subtype f.body) × (f ≡ decoded_reply f.subtype f.body))
parse_frame_iff raw f = (parse_frame_sound raw f, λ h. cc (h.0, h.1, parse-encode f.subtype f.body))

-- A buffer that is refused is short, or has a framing error.
pub error_cases :
    (raw : Bytes) (c : ErrorClass)
    → parse_frame raw ≡ err c
    → ((c ≡ transient_transport) × (length raw < 4)) ⊎ ((c ≡ frame) × (4 ≤ length raw))
unfolding parse_frame
error_cases raw c h = ground arith

-- The buffer is what the encoder writes for some reply.
abbrev pub IsReply : Bytes → Type 0
IsReply raw = (subtype : ℕ) × (body : Bytes) × (raw ≡ encode_reply subtype body)

not_reply :
    (raw : Bytes)
    → 4 ≤ length raw
    → ¬ (IsReply raw)
    → (r : Result XbpiFrame) → parse_frame raw ≡ r
    → r ≡ err frame
not_reply raw long other (ok f) h =
    absurd (other (f.subtype, f.body, (parse_frame_sound raw f h).0))
not_reply raw long other (err c) h = elim (error_cases raw c h) [
  | inl (e, short) ↦ absurd (omega arith)
  | inr (e, k) ↦ ap err e
]

is_long : (raw : Bytes) → parse_frame raw ≡ err frame → 4 ≤ length raw
unfolding parse_frame
is_long raw h = ground arith

is_short : (raw : Bytes) → parse_frame raw ≡ err transient_transport → length raw < 4
unfolding parse_frame
is_short raw h = ground arith

refused : (raw : Bytes) → parse_frame raw ≡ err frame → ¬ (IsReply raw)
refused raw h (subtype, body, e) = cc (h, e, parse-encode subtype body)

-- The error tells the two kinds of bad buffer apart: transient_transport is raised exactly below the minimal frame
-- size, although the docstring says SartoriusFrameError there, and a framing error exactly on a buffer of that
-- size or more that is no reply of the encoder.
pub parse_frame_error_class :
    (raw : Bytes)
    → ((parse_frame raw ≡ err transient_transport) ↔ (length raw < 4))
      × ((parse_frame raw ≡ err frame) ↔ ((4 ≤ length raw) × ¬ (IsReply raw)))
parse_frame_error_class raw = (
  (is_short raw, parse_frame-short raw),
  (
    λ h. (is_long raw h, refused raw h),
    λ (long, other). not_reply raw long other (parse_frame raw) refl,
  ),
)
