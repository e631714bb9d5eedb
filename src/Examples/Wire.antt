-- ===== src/Examples/Wire.antt =====
-- Concrete exchanges on a scripted transport.
use sartoriuslib.Prelude.{◌≡◌, ◌≢◌, refl, none, [], ◌∷◌, true, false}
use sartoriuslib.Prelude.Bytes.{Bytes}
use sartoriuslib.Errors.{frame}
use sartoriuslib.Errors.Result.{ok, err}
use sartoriuslib.Transport.{SerialTypes}
use sartoriuslib.Transport.Fake.{
  FakeTransport, Script, verbatim, one, write, read_exact, lookup_script,
}
use sartoriuslib.Transport.Fake.Buffer.{IsQuiet, fake_transport}
use sartoriuslib.Xbpi.Framing.{parse_frame, checksum, last_byte, all_but_last, body_of}
use sartoriuslib.Xbpi.Framing.Codec.{encode_reply, decoded_reply}
use sartoriuslib.Xbpi.Client.{new_client, execute, check_refusal}
use sartoriuslib.Xbpi.Client.Exchange.{
  after_exchange, execute-reply, execute-garbled, execute-validated,
}

abbrev pub kinds : SerialTypes
kinds = record { ByteSize = Unit {0}; Parity = Unit {0}; StopBits = Unit {0} }

-- An open transport with nothing to read.
abbrev pub idle : Script → FakeTransport kinds
idle script = record {
  script = script;
  writes = [];
  read_buffer = [];
  is_open = true;
  forces_read_timeout = false;
  forces_write_timeout = false;
  last_reopen_baud = none;
  last_reopen_parity = none;
  last_reopen_stopbits = none;
  reopen_count = 0;
  forces_reopen_error = false;
}

abbrev quiet : (script : Script) → IsQuiet (idle script)
quiet script = record { opened = refl; reads = refl; writes = refl }

abbrev pub ping : Bytes
ping = 0x04 ∷ 0x01 ∷ 0x09 ∷ 0xba ∷ 0xc8 ∷ []

-- The device acknowledges.
abbrev acknowledging : FakeTransport kinds
acknowledging = idle ((ping, verbatim (one (0x03 ∷ 0x41 ∷ 0x00 ∷ 0x44 ∷ 0x99 ∷ []))) ∷ [])

-- The device answers with 0x04.
abbrev pub refusing : FakeTransport kinds
refusing = idle ((ping, verbatim (one (0x04 ∷ 0x41 ∷ 0x01 ∷ 0x04 ∷ 0x4a ∷ []))) ∷ [])

-- The checksum is wrong.
abbrev garbling : FakeTransport kinds
garbling = idle ((ping, verbatim (one (0x03 ∷ 0x41 ∷ 0x00 ∷ 0x45 ∷ 0x99 ∷ []))) ∷ [])

execute-reply_example :
    execute (fake_transport kinds) new_client ping acknowledging
    ≡ (check_refusal (decoded_reply 0x00 []), after_exchange acknowledging ping (0x99 ∷ []))
unfolding lookup_script checksum
execute-reply_example =
    execute-reply acknowledging (quiet acknowledging.script) new_client refl ping 0x00 []
      (0x99 ∷ []) refl

execute-garbled_example :
    execute (fake_transport kinds) new_client ping garbling
    ≡ (err frame, after_exchange garbling ping [])
unfolding lookup_script parse_frame last_byte all_but_last body_of checksum
execute-garbled_example =
    execute-garbled garbling (quiet garbling.script) new_client refl ping 0x03
      (0x41 ∷ 0x00 ∷ 0x45 ∷ []) (0x99 ∷ []) frame refl refl refl

execute-validated_example :
    (new_client.disposed ≡ false)
    × ((decoded_reply 0x00 []).subtype ≢ 1)
    × (parse_frame (encode_reply 0x00 []) ≡ ok (decoded_reply 0x00 []))
unfolding check_refusal execute write lookup_script read_exact parse_frame last_byte all_but_last
    body_of checksum
execute-validated_example =
    execute-validated (fake_transport kinds) new_client ping acknowledging (decoded_reply 0x00 [])
      refl

abbrev first_two : Bytes
first_two = 1 ∷ 2 ∷ []
