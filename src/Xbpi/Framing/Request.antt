-- ===== src/Xbpi/Framing/Request.antt =====
-- What `build_command` sends, and when it refuses.
use sartoriuslib.Prelude.{
  ℕ, ◌+◌, ◌≤◌, ◌<◌, ◌≡◌, sym, ap, ◌∙◌, ◌↔◌, [], ◌∷◌, ◌++◌, arith, length, get_or, length-append,
  All-append,
}
use sartoriuslib.Prelude.Bytes.{Bytes, IsBytes}
use sartoriuslib.Prelude.Int.{ℤ, pos, negsuc}
use sartoriuslib.Errors.Result.{ok}
use sartoriuslib.Xbpi.Framing.{checksum, build_command, last_byte, all_but_last}
use sartoriuslib.Xbpi.Framing.Codec.{last_byte-snoc, all_but_last-snoc}

-- [len] [src_sbn] [dst_sbn] [opcode] [args...] [chk], as the module's documentation draws a request.
abbrev pub encode_request : ℕ → Bytes → ℕ → ℕ → Bytes
encode_request opcode args src_sbn dst_sbn =
    let pre : Bytes = (length args + 4) ∷ src_sbn ∷ dst_sbn ∷ opcode ∷ args in
    pre ++ checksum pre ∷ []

-- The values that fit a wire byte.
abbrev pub FitsByte : ℤ → Type 0
FitsByte (pos n) = n ≤ 255
FitsByte (negsuc n) = ⊥

-- The number that a value in range stands for.
abbrev pub to_nat : ℤ → ℕ
to_nat (pos n) = n
to_nat (negsuc n) = 0

build_command_sound :
    (opcode src_sbn dst_sbn : ℤ) (args out : Bytes)
    → build_command opcode args src_sbn dst_sbn ≡ ok out
    → FitsByte opcode
      × FitsByte src_sbn
      × FitsByte dst_sbn
      × (length args ≤ 251)
      × (out ≡ encode_request (to_nat opcode) args (to_nat src_sbn) (to_nat dst_sbn))
unfolding build_command
build_command_sound (pos o) (pos s) (pos d) args out h = ground arith
build_command_sound (negsuc o) s d args out h = ground arith
build_command_sound (pos o) (negsuc s) d args out h = ground arith
build_command_sound (pos o) (pos s) (negsuc d) args out h = ground arith

build_command_complete :
    (opcode src_sbn dst_sbn : ℤ) (args : Bytes)
    → FitsByte opcode
    → FitsByte src_sbn
    → FitsByte dst_sbn
    → length args ≤ 251
    → build_command opcode args src_sbn dst_sbn
      ≡ ok (encode_request (to_nat opcode) args (to_nat src_sbn) (to_nat dst_sbn))
unfolding build_command
build_command_complete (pos o) (pos s) (pos d) args a b c l = ground arith
build_command_complete (negsuc o) s d args a b c l = absurd a
build_command_complete (pos o) (negsuc s) d args a b c l = absurd b
build_command_complete (pos o) (pos s) (negsuc d) args a b c l = absurd c

-- build_command returns exactly when the opcode and the two addresses fit a byte and at most 251 bytes of
-- arguments follow, and what it returns is the drawn frame.
pub build_command_iff :
    (opcode src_sbn dst_sbn : ℤ) (args out : Bytes)
    → (build_command opcode args src_sbn dst_sbn ≡ ok out) ↔ (
        FitsByte opcode
        × FitsByte src_sbn
        × FitsByte dst_sbn
        × (length args ≤ 251)
        × (out ≡ encode_request (to_nat opcode) args (to_nat src_sbn) (to_nat dst_sbn)))
build_command_iff o s d args out = (
  build_command_sound o s d args out,
  λ (a, b, c, l, e). cc (e, build_command_complete o s d args a b c l),
)

FitsByte-lt : (z : ℤ) → FitsByte z → to_nat z < 256
FitsByte-lt (pos n) h = omega arith
FitsByte-lt (negsuc n) h = absurd h

checksum-lt : (xs : Bytes) → checksum xs < 256
unfolding checksum
checksum-lt xs = omega arith

encode_request_frame :
    (o s d : ℕ) (args : Bytes)
    → o < 256
    → s < 256
    → d < 256
    → length args ≤ 251
    → IsBytes args
    → let out = encode_request o args s d in
      (length out ≡ get_or out 0 0 + 1)
      × (length out ≤ 256)
      × (last_byte out ≡ checksum (all_but_last out))
      × IsBytes out
encode_request_frame o s d args a b c l h =
    let pre : Bytes = (length args + 4) ∷ s ∷ d ∷ o ∷ args in
    let n = length-append args (checksum pre ∷ []) in
    (
      omega (arith, n),
      omega (arith, n),
      last_byte-snoc pre (checksum pre) ∙ ap checksum (sym (all_but_last-snoc pre (checksum pre))),
      (
        omega arith,
        (b, (c, (a, All-append (λ t. t < 256) args (checksum pre ∷ []) h (checksum-lt pre, tt)))),
      ),
    )

-- Every request built from arguments that are bytes counts its own length, is at most 256 bytes long, ends in the
-- checksum of what stands before it, and holds bytes only.
pub build_command_frame :
    (opcode src_sbn dst_sbn : ℤ) (args out : Bytes)
    → IsBytes args
    → build_command opcode args src_sbn dst_sbn ≡ ok out
    → (length out ≡ get_or out 0 0 + 1)
      × (length out ≤ 256)
      × (last_byte out ≡ checksum (all_but_last out))
      × IsBytes out
build_command_frame o s d args out h e =
    let (a, b, c, l, q) = build_command_sound o s d args out e in
    rw q (
      encode_request_frame (to_nat o) (to_nat s) (to_nat d) args (FitsByte-lt o a) (FitsByte-lt s b)
        (FitsByte-lt d c) l h)
