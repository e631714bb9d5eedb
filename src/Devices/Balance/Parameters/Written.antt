-- ===== src/Devices/Balance/Parameters/Written.antt =====
-- What a write of a parameter leaves in the cache.
use sartoriuslib.Prelude.{◌≡◌, refl, ap, ◌∙◌, String, none, some, Bool, str_eq, if◌then◌else◌}
use sartoriuslib.Prelude.Int.{ℤ}
use sartoriuslib.Prelude.Dict.{get, get-remove}
use sartoriuslib.Errors.Result.{Result, ok, err}
use sartoriuslib.Errors.Exec.{continue, modify}
use sartoriuslib.Transport.{SerialTypes, Transport}
use sartoriuslib.Sbi.Types.{SbiCodec}
use sartoriuslib.Devices.Models.{ParameterEntry}
use sartoriuslib.Devices.Session.{invalidate_cache}
use sartoriuslib.Devices.Session.Gates.{Link}
use sartoriuslib.Devices.Session.Dispatch.{execute}
use sartoriuslib.Devices.Session.Dispatch.Seen.{execute_setup}
use sartoriuslib.Devices.Balance.{Balance, set_session}
use sartoriuslib.Commands.Parameters.{WriteParameterRequest, write_parameter}
use sartoriuslib.Devices.Balance.Parameters.{cache_key_parameter, write_parameter_call}

module _ {k : SerialTypes} {T I R : Type 0} (transport : Transport k T) (codec : SbiCodec R)
    (digits : ℤ → String) (index value : ℤ) (confirm : Bool)
    (b : Balance k ParameterEntry T I) where
  -- What follows the command, on its outcome.
  after :
      Result (Unit {0}) × Link k ParameterEntry T → Result (Unit {0}) × Balance k ParameterEntry T I
  after o =
      continue o.0
        (λ _. modify (λ c.
          set_session (invalidate_cache (some (cache_key_parameter digits index)) c.link.session)
            c))
        (record b { link = o.1 })

  -- Where the command returns, the call returns, and the cache holds what it held before the call, but for the entry
  -- of the index; where the command raises, the call raises the same, and the cache still holds all that it held.
  abbrev pub Written : Result (Unit {0}) → Result (Unit {0}) × Balance k ParameterEntry T I → Type 0
  Written (ok done) o =
      (o.0 ≡ ok tt)
      × ((key : String)
          → get o.1.link.session.result_cache key ≡ (
              if str_eq (cache_key_parameter digits index) key
              then none
              else get b.link.session.result_cache key))
  Written (err c) o =
      (o.0 ≡ err c)
      × ((key : String)
          → get o.1.link.session.result_cache key ≡ get b.link.session.result_cache key)

  after-Written :
      (o : Result (Unit {0}) × Link k ParameterEntry T)
      → o.1.session.result_cache ≡ b.link.session.result_cache
      → Written o.0 (after o)
  unfolding after invalidate_cache
  after-Written (ok done, ran) same = (
    refl,
    λ key.
        get-remove ran.session.result_cache (cache_key_parameter digits index) key
        ∙ ap
            (λ cache. if str_eq (cache_key_parameter digits index) key then none else get cache key)
            same,
  )
  after-Written (err c, ran) same = (refl, λ key. ap (λ cache. get cache key) same)

  -- A write of a parameter whose command returns, returns, and the cache then holds what it held before the call,
  -- but for the entry of the index, which is gone; one whose command raises, raises the same, and every entry that
  -- was cached before the call is still cached, that of the index included.
  pub write_parameter_call-Written :
      Written
        (execute transport codec write_parameter
          (record { index = index; value = value })
          confirm
          b.link).0
        (write_parameter_call transport codec digits index value confirm b)
  unfolding write_parameter_call after
  write_parameter_call-Written =
      let request : WriteParameterRequest = record { index = index; value = value } in
      let (_, _, _, _, _, _, cache) =
        execute_setup transport codec write_parameter request confirm b.link in
      after-Written (execute transport codec write_parameter request confirm b.link) cache
