-- ===== src/Examples/Sessions.antt =====
-- Concrete sessions.
use sartoriuslib.Prelude.{ℕ, ◌≡◌, refl, String, none, some, [], ◌∷◌, Bool, true, false}
use sartoriuslib.Prelude.Int.{pos}
use sartoriuslib.Prelude.Dict.{get, put}
use sartoriuslib.Errors.{connection, unsupported_command, confirmation_required}
use sartoriuslib.Errors.Result.{Result, ok, err}
use sartoriuslib.Transport.Fake.{FakeTransport, verbatim, one, write, read_exact, lookup_script}
use sartoriuslib.Transport.Fake.Buffer.{fake_transport}
use sartoriuslib.Xbpi.Framing.{
  parse_frame, build_command, require_byte, checksum, last_byte, all_but_last, body_of,
}
use sartoriuslib.Xbpi.Client.{new_client, check_refusal, make_refusal, execute as xbpi_execute}
use sartoriuslib.Xbpi.Parser.{decode_error_body}
use sartoriuslib.Registry.Units.{lookup_code}
use sartoriuslib.Devices.{xbpi, BalanceFamily, SafetyTier, read_only, dangerous, Command}
use sartoriuslib.Devices.Session.{Session, operational, broken, check_state, refuse_broken, context}
use sartoriuslib.Devices.Session.Gates.{
  Link, pass_gates, gate_safety, gate_protocol, gate_known_denied, deny, gate_priors, priors_ok,
}
use sartoriuslib.Devices.Session.Dispatch.{execute, config_counter, execute_xbpi, dispatch}
use sartoriuslib.Devices.Session.Dispatch.Refusal.{execute-refused}
use sartoriuslib.Devices.Session.Dispatch.Sticky.{execute-unsupported_sticky}
use sartoriuslib.Devices.Session.Cache.{cached_execute, serve, refill, store, read_config_counter}
use sartoriuslib.Devices.Session.Cache.Fresh.{cached_execute_again, cached_execute_miss}
use sartoriuslib.Devices.Session.Raw.{execute_raw_xbpi, execute_raw_sbi}
use sartoriuslib.Devices.Session.Raw.Broken.{broken_refuses}
use sartoriuslib.Examples.Wire.{kinds, idle, ping, refusing}
use sartoriuslib.Examples.Lines.{plus_codec}

-- A session in xBPI mode that knows nothing of its balance.
abbrev fresh : Session kinds ℕ
fresh = record {
  xbpi_client = some new_client;
  sbi_client = none;
  active = xbpi;
  family = BalanceFamily.unknown;
  capabilities = 0;
  firmware = none;
  src_sbn = pos 0x01;
  dst_sbn = pos 0x09;
  strict = false;
  availability = [];
  warned_priors = [];
  result_cache = [];
  state = operational;
  recoverable_error_count = 0;
  serial_settings = none;
}

abbrev Wired : Type 0
Wired = Link kinds ℕ (FakeTransport kinds)

abbrev over : Session kinds ℕ → FakeTransport kinds → Wired
over session wire = record { session = session; wire = wire; warnings = [] }

-- A command without a request of its own.
abbrev asking : String → SafetyTier → Bool → Command (Unit {0}) (Unit {0}) ℕ
asking name safety parameterized = record {
  name = name;
  xbpi_variant = some (record {
    opcode = 0xba;
    encode = λ ctx request. ok ping;
    decode = λ frame ctx. ok frame.subtype;
  });
  sbi_variant = none;
  family_hints = [];
  capability_hints = 0;
  safety = safety;
  min_firmware = none;
  max_firmware = none;
  parameterized = parameterized;
}

abbrev reset : Command (Unit {0}) (Unit {0}) ℕ
reset = asking "reset" dangerous false

execute-refused_example :
    execute (fake_transport kinds) plus_codec reset tt false (over fresh refusing)
    ≡ (err confirmation_required, over fresh refusing)
unfolding pass_gates check_state refuse_broken gate_safety
execute-refused_example =
    execute-refused (fake_transport kinds) plus_codec reset tt false (over fresh refusing)
      confirmation_required refl

abbrev identify : Command (Unit {0}) (Unit {0}) ℕ
identify = asking "identify" read_only false

abbrev first_call : Result ℕ × Wired
first_call = execute (fake_transport kinds) plus_codec identify tt false (over fresh refusing)

execute-unsupported_sticky_example :
    (first_call.0 ≡ err unsupported_command)
    × (execute (fake_transport kinds) plus_codec identify tt true first_call.1
        ≡ (err unsupported_command, first_call.1))
unfolding pass_gates check_state refuse_broken gate_safety gate_protocol gate_known_denied deny get
    gate_priors priors_ok xbpi_execute write lookup_script read_exact parse_frame last_byte
    all_but_last body_of checksum check_refusal make_refusal lookup_code decode_error_body
execute-unsupported_sticky_example =
    execute-unsupported_sticky (fake_transport kinds) plus_codec identify tt tt false true
      (over fresh refusing) (over fresh refusing)
      (record {
        opcode = 0xba;
        encode = λ ctx request. ok ping;
        decode = λ frame ctx. ok frame.subtype;
      })
      new_client ping refl refl refl refl refl refl refl refl refl

abbrev dead : Wired
dead = over (record fresh { state = broken }) refusing

broken_refuses_example :
    (execute (fake_transport kinds) plus_codec identify tt true dead ≡ (err connection, dead))
    × (cached_execute (fake_transport kinds) plus_codec identify tt "identify" true dead
        ≡ (err connection, dead))
    × (execute_raw_xbpi (fake_transport kinds) plus_codec (pos 0xba) [] true dead
        ≡ (err connection, dead))
    × (execute_raw_sbi (fake_transport kinds) plus_codec [] true (pos 1) dead
        ≡ (err connection, dead))
broken_refuses_example =
    broken_refuses (fake_transport kinds) plus_codec identify tt "identify" true (pos 0xba) []
      (pos 1) dead refl

abbrev sensor : Command (Unit {0}) (Unit {0}) ℕ
sensor = asking "sensor" read_only true

-- A device whose configuration counter is 7.
abbrev counting : FakeTransport kinds
counting = idle ((ping, verbatim (one (0x04 ∷ 0x41 ∷ 0x21 ∷ 0x07 ∷ 0x6d ∷ []))) ∷ [])

-- A session with the counter capability, and a value stored under a counter.
abbrev caching : ℕ → Wired
caching counter =
    over (record fresh { capabilities = 32; result_cache = ("capacity", (counter, 220)) ∷ [] })
      counting

abbrev counted : ℕ → Wired
counted counter = (read_config_counter (fake_transport kinds) plus_codec (caching counter)).1

abbrev capacity : Command (Unit {0}) (Unit {0}) ℕ
capacity = asking "capacity" read_only false

abbrev recounted : Result ℕ × Wired
recounted = execute (fake_transport kinds) plus_codec capacity tt false (counted 6)

abbrev refreshed : Result ℕ × Wired
refreshed =
    cached_execute (fake_transport kinds) plus_codec capacity tt "capacity" false (caching 6)

cached_execute_miss_example :
    (refreshed.0 ≡ ok 0x21)
    × (get refreshed.1.session.result_cache "capacity" ≡ some (7, 0x21))
    × (refreshed.1.wire ≡ recounted.1.wire)
unfolding read_config_counter execute dispatch execute_xbpi config_counter build_command
    require_byte pass_gates check_state refuse_broken gate_safety gate_protocol gate_known_denied
    deny get gate_priors priors_ok xbpi_execute write lookup_script read_exact parse_frame last_byte
    all_but_last body_of checksum check_refusal context put
cached_execute_miss_example =
    cached_execute_miss (fake_transport kinds) plus_codec capacity tt "capacity" false (caching 6)
      (counted 6) 7 refl refl recounted.1 0x21 (λ value e. cc) refl

-- The cache of that session is asked again, under the counter that has not changed.
abbrev asked_again : Wired
asked_again = (read_config_counter (fake_transport kinds) plus_codec refreshed.1).1

-- Another command that is given the same key.
abbrev other_capacity : Command (Unit {0}) (Unit {0}) ℕ
other_capacity = asking "other_capacity" read_only false

cached_execute_again_example :
    cached_execute (fake_transport kinds) plus_codec other_capacity tt "capacity" false refreshed.1
    ≡ (ok 0x21, asked_again)
unfolding cached_execute serve refill store read_config_counter execute dispatch execute_xbpi
    config_counter build_command require_byte pass_gates check_state refuse_broken gate_safety
    gate_protocol gate_known_denied deny get gate_priors priors_ok xbpi_execute write lookup_script
    read_exact parse_frame last_byte all_but_last body_of checksum check_refusal context put
cached_execute_again_example =
    cached_execute_again (fake_transport kinds) plus_codec capacity tt "capacity" false
      other_capacity tt false (caching 6) (counted 6) asked_again 7 0x21 refl refl refl refl
