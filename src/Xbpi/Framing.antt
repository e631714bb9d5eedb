-- ===== src/Xbpi/Framing.antt =====
-- protocol/xbpi/framing.py: the frame codec.
pub mod Codec
pub mod Corruption
pub mod Request
use sartoriuslib.Prelude.{
  ℕ, ◌+◌, ◌-◌, ◌%◌, [], ◌∷◌, ◌++◌, not, length, get_or, take, slice, ltb, leb, ◌==◌, if◌then◌else◌,
}
use sartoriuslib.Prelude.Bytes.{Bytes, sum}
use sartoriuslib.Prelude.Int.{ℤ, pos, negsuc}
use sartoriuslib.Errors.{frame, transient_transport}
use sartoriuslib.Errors.Result.{Result, ok, err, ◌>>=◌}
use sartoriuslib.Xbpi.Types.{XbpiFrame}

abbrev pub host_sbn_default : ℕ
host_sbn_default = 0x01

abbrev pub balance_sbn_default : ℕ
balance_sbn_default = 0x09

abbrev pub rx_marker : ℕ
rx_marker = 0x41

abbrev pub min_frame_size : ℕ
min_frame_size = 4

abbrev pub max_length : ℕ
max_length = 0xff

abbrev pub max_byte : ℕ
max_byte = 0xff

-- sum(data) & 0xFF
unfoldable pub checksum : Bytes → ℕ
checksum data' = sum data' % 256

-- `_require_byte`, returning the byte that it has checked.
unfoldable pub require_byte : ℤ → Result ℕ
require_byte (pos value) = if leb value max_byte then ok value else err frame
require_byte (negsuc value) = err frame

-- The part of `build_command` below its range checks.
assemble : ℕ → Bytes → ℕ → ℕ → Result Bytes
assemble opcode args src_sbn dst_sbn =
    let payload : Bytes = src_sbn ∷ dst_sbn ∷ opcode ∷ args in
    let len = length payload + 1 in
    let pre_chk : Bytes = len ∷ payload in
    if ltb max_length len then err frame else ok (pre_chk ++ checksum pre_chk ∷ [])

unfoldable pub build_command : ℤ → Bytes → ℤ → ℤ → Result Bytes
unfolding assemble require_byte
build_command opcode args src_sbn dst_sbn = do
  opcode' ← require_byte opcode
  src' ← require_byte src_sbn
  dst' ← require_byte dst_sbn
  assemble opcode' args src' dst'

-- raw[-1] and raw[:-1], of a frame that is long enough.
unfoldable pub last_byte : Bytes → ℕ
last_byte raw = get_or raw (length raw - 1) 0

unfoldable pub all_but_last : Bytes → Bytes
all_but_last raw = take (length raw - 1) raw

-- raw[3:-1], of a frame that is long enough.
unfoldable pub body_of : Bytes → Bytes
body_of raw = slice raw 3 (length raw - 1)

unfoldable pub parse_frame : Bytes → Result XbpiFrame
parse_frame raw =
    let len = get_or raw 0 0 in
    let marker = get_or raw 1 0 in
    let chk = last_byte raw in
    if ltb (length raw) min_frame_size
    then err transient_transport
    else if not (length raw == len + 1)
    then err frame
    else if not (marker == rx_marker)
    then err frame
    else if not (chk == checksum (all_but_last raw))
    then err frame
    else ok (record {
      length = len;
      marker = marker;
      subtype = get_or raw 2 0;
      body = body_of raw;
      checksum = chk;
      raw = raw;
    })
