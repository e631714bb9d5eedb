-- ===== src/Devices/Session/Raw/Broken.antt =====
-- A broken session.
use sartoriuslib.Prelude.{◌≡◌, refl, ap, String, Bool, false, Bool-cases, inl, inr}
use sartoriuslib.Prelude.Int.{ℤ}
use sartoriuslib.Prelude.Bytes.{Bytes}
use sartoriuslib.Errors.{connection}
use sartoriuslib.Errors.Result.{err}
use sartoriuslib.Transport.{SerialTypes, Transport}
use sartoriuslib.Sbi.Types.{SbiCodec}
use sartoriuslib.Devices.{Command}
use sartoriuslib.Devices.Session.{broken, check_state, refuse_broken}
use sartoriuslib.Devices.Session.Gates.{Link, pass_gates}
use sartoriuslib.Devices.Session.Dispatch.{execute, config_counter}
use sartoriuslib.Devices.Session.Dispatch.Refusal.{execute-refused}
use sartoriuslib.Devices.Session.Cache.{cached_execute, has_config_counter, read_config_counter}
use sartoriuslib.Devices.Session.Raw.{execute_raw_xbpi, execute_raw_sbi}

module _ {k : SerialTypes} {V T R : Type 0} (transport : Transport k T) (codec : SbiCodec R) where
  broken_gates :
      {Req Resp : Type 0}
      → (command : Command R Req Resp) (confirm : Bool) (link : Link k V T)
      → link.session.state ≡ broken
      → (pass_gates command confirm link).0 ≡ err connection
  unfolding pass_gates
  broken_gates command confirm link h =
      let dead : check_state link.session ≡ err connection = ap refuse_broken h in rw dead refl

  broken_execute :
      {Req Resp : Type 0}
      → (command : Command R Req Resp) (request : Req) (confirm : Bool) (link : Link k V T)
      → link.session.state ≡ broken
      → execute transport codec command request confirm link ≡ (err connection, link)
  broken_execute command request confirm link h =
      execute-refused transport codec command request confirm link connection
        (broken_gates command confirm link h)

  broken_cached :
      {Req : Type 0}
      → (command : Command R Req V) (request : Req) (key : String) (confirm : Bool)
        (link : Link k V T)
      → link.session.state ≡ broken
      → cached_execute transport codec command request key confirm link ≡ (err connection, link)
  unfolding cached_execute read_config_counter
  broken_cached command request key confirm link h =
      elim (Bool-cases (has_config_counter link.session.capabilities)) [
        | inl e ↦ simp (e, broken_execute config_counter tt false link h)
        | inr e ↦ simp (e, broken_execute command request confirm link h)
      ]

  -- A broken session refuses each way to send something, a command, a command through the cache, and a raw call of
  -- either protocol, with a connection error, and neither the device nor the session sees the call.
  pub broken_refuses :
      {Req : Type 0}
      → (command : Command R Req V) (request : Req) (key : String) (confirm : Bool) (opcode : ℤ)
        (args : Bytes) (expect_lines : ℤ) (link : Link k V T)
      → link.session.state ≡ broken
      → (execute transport codec command request confirm link ≡ (err connection, link))
        × (cached_execute transport codec command request key confirm link ≡ (err connection, link))
        × (execute_raw_xbpi transport codec opcode args confirm link ≡ (err connection, link))
        × (execute_raw_sbi transport codec args confirm expect_lines link ≡ (err connection, link))
  unfolding execute_raw_xbpi execute_raw_sbi
  broken_refuses command request key confirm opcode args expect_lines link h =
      let dead : check_state link.session ≡ err connection = ap refuse_broken h in
      (
        broken_execute command request confirm link h,
        broken_cached command request key confirm link h,
        rw dead refl,
        rw dead refl,
      )
