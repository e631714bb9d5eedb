-- ===== src/Devices/Session/Cache.antt =====
-- devices/session.py: the cache of results, which the configuration counter of the device keeps fresh. The
-- read of the counter and the run are two exchanges, each of which holds the lock of the client; nothing holds a lock over
-- both, and the model is of calls between which no other caller of the session comes.
pub mod Fresh
use Prim.Native.Nat.{bit_and}
use sartoriuslib.Prelude.{ℕ, String, Option, none, some, Bool, true, false, ◌==◌, if◌then◌else◌}
use sartoriuslib.Prelude.Dict.{get, put}
use sartoriuslib.Errors.Exec.{Exec, pure, gets, modify, ◌>>=◌, ◌>>◌}
use sartoriuslib.Transport.{SerialTypes, Transport}
use sartoriuslib.Sbi.Types.{SbiCodec}
use sartoriuslib.Devices.{Command, config_counter_flag}
use sartoriuslib.Devices.Session.{Session}
use sartoriuslib.Devices.Session.Gates.{Link}
use sartoriuslib.Devices.Session.Dispatch.{execute, config_counter}

-- Capability.CONFIG_COUNTER in capabilities
abbrev pub has_config_counter : ℕ → Bool
has_config_counter capabilities = bit_and capabilities config_counter_flag == config_counter_flag

module _ {k : SerialTypes} {V T R : Type 0} (transport : Transport k T) (codec : SbiCodec R) where
  unfoldable pub read_config_counter : Exec (Link k V T) ℕ
  read_config_counter = execute transport codec config_counter tt false

  unfoldable pub store : String → ℕ → V → Exec (Link k V T) (Unit {0})
  store key counter result = modify (λ l. record l {
    session = record l.session { result_cache = put l.session.result_cache key (counter, result) };
  })

  module _ {Req : Type 0} (command : Command R Req V) (request : Req) (key : String)
      (confirm : Bool) where
    -- The command runs, and its result is kept.
    unfoldable pub refill : ℕ → Exec (Link k V T) V
    unfolding store
    refill counter = do
      result ← execute transport codec command request confirm
      store key counter result
      pure result

    unfoldable pub serve : ℕ → Option (ℕ × V) → Exec (Link k V T) V
    unfolding refill
    serve counter none = refill counter
    serve counter (some (pinned, value)) = if pinned == counter then pure value else refill counter

    unfoldable pub cached_execute : Exec (Link k V T) V
    unfolding serve read_config_counter
    cached_execute = do
      session ← gets (λ l. l.session)
      if has_config_counter session.capabilities
          then (do
            counter ← read_config_counter
            cached ← gets (λ l. get l.session.result_cache key)
            serve counter cached)
          else execute transport codec command request confirm
