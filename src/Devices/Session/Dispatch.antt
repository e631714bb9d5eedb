-- ===== src/Devices/Session/Dispatch.antt =====
-- devices/session.py: the dispatch of a command to the client of the active protocol, the cache of results, and the raw
-- calls. Both clients work on one transport. The clock of `read_sbi_autoprint_reading` is modelled by `rounds`, the
-- number of its tests that come before the deadline.
pub mod Refusal
pub mod Sticky
pub mod Seen
use sartoriuslib.Prelude.{
  ℕ, zero, suc, String, Option, none, some, List, [], ◌∷◌, ◌++◌, Bool, true, false, not, ◌&&◌, ◌||◌,
  length, get_or, ◌==◌, if◌then◌else◌,
}
use Prim.Native.Nat.{bit_and}
use sartoriuslib.Prelude.Int.{ℤ, pos, negsuc}
use sartoriuslib.Prelude.Bytes.{Bytes, bytes_eq}
use sartoriuslib.Prelude.Dict.{get, put}
use sartoriuslib.Errors.{
  ErrorClass, is_subclass, sartorius_error, validation, confirmation_required, protocol_unsupported,
  unsupported_command, operation_not_applicable, index_out_of_range, autoprint_active, parse,
}
use sartoriuslib.Errors.Result.{Result, ok, err}
use sartoriuslib.Errors.Exec.{Exec, pure, raise, lift, gets, modify, guard, ◌>>=◌, ◌>>◌}
use sartoriuslib.Transport.{SerialTypes, Transport}
use sartoriuslib.Xbpi.Types.{XbpiFrame}
use sartoriuslib.Xbpi.Framing.{build_command}
use sartoriuslib.Xbpi.Client.{XbpiClient, execute as xbpi_execute}
use sartoriuslib.Sbi.Types.{SbiLine, SbiReply, SbiCodec}
use sartoriuslib.Sbi.Lines.{newline, carriage_return}
use sartoriuslib.Sbi.Client.{
  SbiClient, Port, mark_autoprint_active, execute as sbi_execute, read_line,
  refresh_autoprint_state,
}
use sartoriuslib.Devices.{
  ProtocolKind, auto, xbpi, sbi, read_only, XbpiVariant, SbiVariant, Command, CommandContext,
  config_counter_flag,
}
use sartoriuslib.Devices.Session.{
  Session, Availability, supported, unsupported, inapplicable, check_state, sbi_autoprint_active,
  context,
}
use sartoriuslib.Devices.Session.Gates.{Link, pass_gates}

abbrev pub some_or : {A : Type 0} → ErrorClass → Option A → Result A
some_or c none = err c
some_or c (some a) = ok a

-- expect_lines > 0
abbrev positive : ℤ → Bool
positive (pos zero) = false
positive (pos (suc n)) = true
positive (negsuc n) = false

abbrev pub escape : ℕ
escape = 27

-- TOKEN_PRINT
abbrev pub token_print : Bytes
token_print = escape ∷ 80 ∷ []

-- any(is_autoprint_line(line.raw) for line in lines)
unfoldable pub any_autoprint : {R : Type 0} → (Bytes → Bool) → List (SbiLine R) → Bool
any_autoprint test [] = false
any_autoprint test (line ∷ lines) = test line.raw || any_autoprint test lines

-- x in xs
abbrev pub in_list : {A : Type 0} → (A → A → Bool) → A → List A → Bool
in_list same x [] = false
in_list same x (y ∷ ys) = same x y || in_list same x ys

abbrev pub safe_read_only_opcodes : List ℕ
safe_read_only_opcodes =
    0x00 ∷ 0x01 ∷ 0x02 ∷ 0x03 ∷ 0x05 ∷ 0x07 ∷ 0x0a ∷ 0x0f ∷ 0x0b ∷ 0x0c ∷ 0x0d ∷ 0x0e ∷ 0x1c ∷ 0x1e
    ∷ 0x1f ∷ 0x20 ∷ 0x21 ∷ 0x22 ∷ 0x23 ∷ 0x26 ∷ 0x57 ∷ 0x2e ∷ 0x2f ∷ 0x30 ∷ 0x32 ∷ 0x35 ∷ 0x36
    ∷ 0x76 ∷ 0x54 ∷ 0x55 ∷ 0x71 ∷ 0xb9 ∷ 0xba ∷ 0xbc ∷ []

unfoldable pub is_safe_opcode : ℤ → Bool
is_safe_opcode (pos opcode) = in_list (λ x y. x == y) opcode safe_read_only_opcodes
is_safe_opcode (negsuc n) = false

-- ESC P, ESC p_, ESC x1_, ESC x2_, ESC x3_, ESC m0_ and ESC w0_.
abbrev pub sbi_read_only_tokens : List Bytes
sbi_read_only_tokens =
    token_print
    ∷ (escape ∷ 112 ∷ 95 ∷ [])
    ∷ (escape ∷ 120 ∷ 49 ∷ 95 ∷ [])
    ∷ (escape ∷ 120 ∷ 50 ∷ 95 ∷ [])
    ∷ (escape ∷ 120 ∷ 51 ∷ 95 ∷ [])
    ∷ (escape ∷ 109 ∷ 48 ∷ 95 ∷ [])
    ∷ (escape ∷ 119 ∷ 48 ∷ 95 ∷ [])
    ∷ []

abbrev keep_or_drop : ℕ → Bytes → Bytes
keep_or_drop c [] = if c == newline || c == carriage_return then [] else c ∷ []
keep_or_drop c (d ∷ rest) = c ∷ d ∷ rest

-- token.rstrip(b"\r\n")
unfoldable pub rstrip_newlines : Bytes → Bytes
rstrip_newlines [] = []
rstrip_newlines (c ∷ rest) = keep_or_drop c (rstrip_newlines rest)

abbrev check_token : Bytes → Result Bytes
check_token [] = err validation
check_token (c ∷ rest) = if c == escape then ok (c ∷ rest) else err validation

-- `normalize_token` on bytes.
unfoldable pub normalize_token : Bytes → Result Bytes
unfolding rstrip_newlines
normalize_token command = check_token (rstrip_newlines command)

-- The first reading among the lines of a reply.
unfoldable pub require_reading : {R : Type 0} → List (SbiLine R) → Result R
require_reading [] = err parse
require_reading (line ∷ lines) = elim line.reading [
  | some reading ↦ ok reading
  | none ↦ require_reading lines
]

counter_byte : Bytes → Result ℕ
counter_byte [] = err parse
counter_byte (b ∷ []) = ok b
counter_byte (b ∷ c ∷ rest) = err parse

-- CONFIG_COUNTER of commands/system.py
unfoldable pub config_counter : {R : Type 0} → Command R (Unit {0}) ℕ
unfolding counter_byte
config_counter = record {
  name = "config_counter";
  xbpi_variant = some (record {
    opcode = 0xba;
    encode = λ ctx request. build_command (pos 0xba) [] ctx.src_sbn ctx.dst_sbn;
    decode = λ frame ctx. counter_byte frame.body;
  });
  sbi_variant = none;
  family_hints = [];
  capability_hints = config_counter_flag;
  safety = read_only;
  min_firmware = none;
  max_firmware = none;
  parameterized = false;
}

-- `_reply_is_surprise_autoprint`, on a client that is wired.
unfoldable pub surprise : {R : Type 0} → SbiCodec R → SbiClient → Bytes → SbiReply R → Bool
unfolding any_autoprint
surprise codec client token reply =
    if client.autoprint_active
    then false
    else if bytes_eq token token_print
    then false
    else any_autoprint codec.is_autoprint_line reply.lines

module _ {k : SerialTypes} {V T R : Type 0} (transport : Transport k T) (codec : SbiCodec R) where
  set_availability : String → Availability → Link k V T → Link k V T
  set_availability name seen link = record link {
    session = record link.session { availability = put link.session.availability name seen };
  }

  -- A call of the xBPI client.
  unfoldable pub on_xbpi : XbpiClient → Bytes → Exec (Link k V T) XbpiFrame
  on_xbpi client request link =
      let (r, wire) = xbpi_execute transport client request link.wire in
      (r, record link { wire = wire })

  -- A call of the SBI client, which changes that client too.
  unfoldable pub on_sbi : {A : Type 0} → SbiClient → Exec (Port T) A → Exec (Link k V T) A
  on_sbi client m link =
      let (r, port) = m (record { client = client; wire = link.wire }) in
      (
        r,
        record {
          session = record link.session { sbi_client = some port.client };
          wire = port.wire;
          warnings = link.warnings;
        },
      )

  -- What an xBPI reply or refusal says about the command.
  settle : String → Bool → Result XbpiFrame → Exec (Link k V T) XbpiFrame
  unfolding set_availability
  settle name parameterized (ok frame) link = (ok frame, set_availability name supported link)
  settle name parameterized (err c) link =
      if is_subclass c unsupported_command
      then (if parameterized
          then (err index_out_of_range, link)
          else (err c, set_availability name unsupported link))
      else if is_subclass c operation_not_applicable
      then (err c, set_availability name inapplicable link)
      else (err c, link)

  -- The call of the client with its `try`.
  call_xbpi : String → Bool → XbpiClient → Bytes → Exec (Link k V T) XbpiFrame
  unfolding on_xbpi settle
  call_xbpi name parameterized client request link =
      let (r, after) = on_xbpi client request link in settle name parameterized r after

  unfoldable pub execute_xbpi :
      {Req Resp : Type 0} → Command R Req Resp → Req → Exec (Link k V T) Resp
  unfolding call_xbpi
  execute_xbpi command request = do
    session ← gets (λ l. l.session)
    variant ← lift (some_or protocol_unsupported command.xbpi_variant)
    client ← lift (some_or sartorius_error session.xbpi_client)
    request_bytes ← lift (variant.encode (context xbpi session) request)
    frame ← call_xbpi command.name command.parameterized client request_bytes
    lift (variant.decode frame (context xbpi session))

  -- A surprise is handed back to the client, and refused.
  refuse_surprise : Bytes → SbiReply R → Exec (Link k V T) (SbiReply R)
  unfolding surprise
  refuse_surprise token reply link = elim link.session.sbi_client [
    | none ↦ (ok reply, link)
    | some client ↦
        if surprise codec client token reply
        then (
          err autoprint_active,
          record link {
            session = record link.session {
              sbi_client = some (mark_autoprint_active (some reply.raw) client);
            };
          },
        )
        else (ok reply, link)
  ]

  -- The part that `_execute_sbi` and `execute_raw_sbi` share.
  unfoldable pub exchange_sbi : SbiClient → Bytes → Bytes → ℤ → Exec (Link k V T) (SbiReply R)
  unfolding on_sbi refuse_surprise sbi_autoprint_active
  exchange_sbi client request token expect_lines = do
    session ← gets (λ l. l.session)
    guard (not (sbi_autoprint_active session && positive expect_lines)) autoprint_active
    reply ← on_sbi client (sbi_execute transport codec request expect_lines)
    refuse_surprise token reply

  mark_supported : String → Exec (Link k V T) (Unit {0})
  unfolding set_availability
  mark_supported name link = (ok tt, set_availability name supported link)

  unfoldable pub execute_sbi :
      {Req Resp : Type 0} → Command R Req Resp → Req → Exec (Link k V T) Resp
  unfolding mark_supported
  execute_sbi command request = do
    session ← gets (λ l. l.session)
    variant ← lift (some_or protocol_unsupported command.sbi_variant)
    client ← lift (some_or sartorius_error session.sbi_client)
    request_bytes ← lift (variant.encode (context sbi session) request)
    reply ← exchange_sbi client request_bytes variant.token variant.expect_lines
    mark_supported command.name
    lift (variant.decode reply (context sbi session))

  unfoldable pub dispatch :
      {Req Resp : Type 0} → ProtocolKind → Command R Req Resp → Req → Exec (Link k V T) Resp
  unfolding execute_xbpi execute_sbi
  dispatch xbpi command request = execute_xbpi command request
  dispatch sbi command request = execute_sbi command request
  dispatch auto command request = raise sartorius_error

  unfoldable pub execute :
      {Req Resp : Type 0} → Command R Req Resp → Req → Bool → Exec (Link k V T) Resp
  unfolding pass_gates dispatch
  execute command request confirm = do
    pass_gates command confirm
    active ← gets (λ l. l.session.active)
    dispatch active command request
