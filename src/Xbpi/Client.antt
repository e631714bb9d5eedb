-- ===== src/Xbpi/Client.antt =====
-- protocol/xbpi/client.py: one request and its reply over a transport. An exchange holds the client's lock from its
-- first byte to its last, so it is one action; its message texts are left out.
pub mod Exchange
use sartoriuslib.Prelude.{
  ℕ, Option, none, some, List, [], ◌∷◌, ◌++◌, Bool, true, false, get_or, ◌==◌, if◌then◌else◌,
}
use sartoriuslib.Prelude.Bytes.{Bytes}
use sartoriuslib.Registry.Units.{lookup_code}
use sartoriuslib.Errors.{
  ErrorClass, connection, command_rejected, value_out_of_range, unsupported_command,
  operation_not_applicable, missing_args, index_out_of_range,
}
use sartoriuslib.Errors.Result.{Result, ok, err}
use sartoriuslib.Errors.Exec.{Exec, pure, raise, lift, guard, ◌>>=◌, ◌>>◌}
use sartoriuslib.Transport.{SerialTypes, Transport}
use sartoriuslib.Xbpi.Types.{XbpiFrame}
use sartoriuslib.Xbpi.Framing.{parse_frame}
use sartoriuslib.Xbpi.Tables.{or_else}
use sartoriuslib.Xbpi.Parser.{decode_error_body}

-- The client's own state, beside the transport.
pub record XbpiClient : Type 0 where
  pub disposed : Bool

abbrev pub new_client : XbpiClient
new_client = record { disposed = false }

unfoldable pub dispose : XbpiClient → XbpiClient
dispose client = record client { disposed = true }

-- `_ERROR_CLASS_MAP`
abbrev pub error_class_map : List (ℕ × ErrorClass)
error_class_map =
    (0x03, value_out_of_range)
    ∷ (0x04, unsupported_command)
    ∷ (0x06, operation_not_applicable)
    ∷ (0x07, missing_args)
    ∷ (0x10, index_out_of_range)
    ∷ (0x11, index_out_of_range)
    ∷ []

-- The class of what `_make_refusal` makes.
unfoldable pub make_refusal : ℕ → ErrorClass
unfolding lookup_code
make_refusal code = or_else (lookup_code error_class_map code) command_rejected

abbrev pub error_subtype : ℕ
error_subtype = 0x01

-- What a validated frame means: a reply, or the device's refusal.
unfoldable pub check_refusal : XbpiFrame → Result XbpiFrame
unfolding make_refusal decode_error_body
check_refusal frame =
    if frame.subtype == error_subtype
    then (elim (decode_error_body frame.body) [ ok e ↦ err (make_refusal e.code) | err c ↦ err c ])
    else ok frame

module _ {k : SerialTypes} {T : Type 0} (transport : Transport k T) where
  -- The `try` around `parse_frame`: on an error the input is drained, what the drain raises is only logged, and the
  -- first error goes on.
  parse_or_drain : Result XbpiFrame → Exec T XbpiFrame
  parse_or_drain (ok frame) t = (ok frame, t)
  parse_or_drain (err c) t = (err c, (transport.drain_input t).1)

  -- Below `_raise_if_disposed`.
  exchange : Bytes → Exec T XbpiFrame
  unfolding parse_or_drain
  exchange request = do
    transport.write request
    length_byte ← transport.read_exact 1
    rest ← transport.read_exact (get_or length_byte 0 0)
    frame ← parse_or_drain (parse_frame (length_byte ++ rest))
    lift (check_refusal frame)

  unfoldable pub execute : XbpiClient → Bytes → Exec T XbpiFrame
  unfolding exchange
  execute client request = if client.disposed then raise connection else exchange request
