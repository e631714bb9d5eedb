-- ===== src/Devices/Balance/Parameters.antt =====
-- devices/balance.py: the table of parameters, read through the cache and written past it. The cached results are entries
-- of the table; an alias of a mode is resolved by the caller. `digits` writes an index as text.
pub mod Written
use sartoriuslib.Prelude.{ℕ, String, some, Bool, false}
use Prim.Native.String.{◌++◌ as text_append}
use sartoriuslib.Prelude.Int.{ℤ, pos}
use sartoriuslib.Errors.Exec.{Exec, pure, lift, modify, ◌>>=◌, ◌>>◌}
use sartoriuslib.Transport.{SerialTypes, Transport}
use sartoriuslib.Sbi.Types.{SbiCodec}
use sartoriuslib.Devices.Models.{ParameterEntry}
use sartoriuslib.Devices.Session.{invalidate_cache}
use sartoriuslib.Devices.Session.Dispatch.{execute}
use sartoriuslib.Devices.Session.Cache.{cached_execute}
use sartoriuslib.Devices.Balance.{Balance, set_session}
use sartoriuslib.Devices.Balance.Writes.{on_link}
use sartoriuslib.Commands.Parameters.{read_parameter, write_parameter}
use sartoriuslib.Registry.Parameters.{ParameterSpec, ParameterValue, encode, decode}

-- f"parameter:{index}"
unfoldable pub cache_key_parameter : (ℤ → String) → ℤ → String
cache_key_parameter digits index = text_append "parameter:" (digits index)

module _ {k : SerialTypes} {T I R : Type 0} (transport : Transport k T) (codec : SbiCodec R)
    (digits : ℤ → String) where
  unfoldable pub read_parameter_call : ℤ → Exec (Balance k ParameterEntry T I) ParameterEntry
  unfolding cache_key_parameter
  read_parameter_call index = do
    entry ← on_link transport codec (
        cached_execute transport codec read_parameter index (cache_key_parameter digits index)
          false)
    pure (record entry { index = index })

  unfoldable pub write_parameter_call :
      ℤ → ℤ → Bool → Exec (Balance k ParameterEntry T I) (Unit {0})
  unfolding cache_key_parameter
  write_parameter_call index value confirm = do
    on_link transport codec
        (execute transport codec write_parameter (record { index = index; value = value }) confirm)
    modify (λ b.
        set_session (invalidate_cache (some (cache_key_parameter digits index)) b.link.session) b)

  unfoldable pub get_typed : ℤ → Exec (Balance k ParameterEntry T I) ℕ
  unfolding read_parameter_call
  get_typed index = do entry ← read_parameter_call index; pure entry.current

  -- The typed accessors differ in the specification only.
  unfoldable pub get_parameter : ParameterSpec → Exec (Balance k ParameterEntry T I) ParameterValue
  unfolding get_typed
  get_parameter spec = do current ← get_typed (pos spec.index); lift (decode spec current)

  unfoldable pub set_parameter :
      ParameterSpec → ParameterValue → Bool → Exec (Balance k ParameterEntry T I) (Unit {0})
  unfolding write_parameter_call
  set_parameter spec value confirm = do
    wire ← lift (encode spec value)
    write_parameter_call (pos spec.index) (pos wire) confirm
