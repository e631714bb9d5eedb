-- ===== src/Devices/Balance.antt =====
-- devices/balance.py: the balance, which holds a session and what `identify` found, and its change of protocol and
-- framing. `identify` is an argument: it runs commands of the session one after the other.
pub mod Switching
pub mod Rollback
pub mod Writes
pub mod Parameters
use sartoriuslib.Prelude.{
  ℕ, ◌≡◌, String, Option, none, some, List, [], ◌∷◌, ◌++◌, Bool, true, false, not, ◌&&◌,
  if◌then◌else◌,
}
use sartoriuslib.Prelude.Int.{ℤ, pos}
use sartoriuslib.Prelude.Bytes.{Bytes}
use sartoriuslib.Errors.{ErrorClass, sartorius_error, validation, confirmation_required, connection}
use sartoriuslib.Errors.Result.{Result, ok, err}
use sartoriuslib.Errors.Exec.{Exec, pure, raise, lift, gets, modify, guard, ◌>>=◌, ◌>>◌}
use sartoriuslib.Transport.{SerialTypes, SerialSettings, Transport}
use sartoriuslib.Xbpi.Framing.{build_command}
use sartoriuslib.Xbpi.Client.{
  XbpiClient, new_client as new_xbpi_client, execute as xbpi_execute, dispose as dispose_xbpi,
}
use sartoriuslib.Sbi.Types.{SbiCodec}
use sartoriuslib.Sbi.Client.{
  SbiClient, Port, new_client as new_sbi_client, detect_autoprint, execute as sbi_execute,
  dispose as dispose_sbi,
}
use sartoriuslib.Devices.{ProtocolKind, auto, xbpi, sbi, same_protocol}
use sartoriuslib.Devices.Session.{Session, check_state, replace_clients, mark_broken}
use sartoriuslib.Devices.Session.Gates.{Link}
use sartoriuslib.Detect.{token_type}

-- The retired clients are those that were disposed of: others may still hold them.
pub record Balance (k : SerialTypes) (V T I : Type 0) : Type 0 where
  pub link : Link k V T
  pub info : Option I
  pub retired_xbpi : List XbpiClient
  pub retired_sbi : List SbiClient

-- The overrides of the framing; one that is `none` keeps what is there.
pub record Framing (k : SerialTypes) : Type 0 where
  pub baudrate : Option ℕ
  pub parity : Option k.Parity
  pub stopbits : Option k.StopBits

abbrev pub or_old : {A : Type 0} → Option A → A → A
or_old none old = old
or_old (some new) old = new

abbrev is_none : {A : Type 0} → Option A → Bool
is_none none = true
is_none (some a) = false

-- Whether the active protocol has a client, whose lock is held during the switch.
unfoldable pub has_lock : ProtocolKind → Option XbpiClient → Option SbiClient → Bool
has_lock xbpi (some x) s = true
has_lock xbpi none s = not (is_none s)
has_lock auto x s = not (is_none s)
has_lock sbi x s = not (is_none s)

module _ {k : SerialTypes} where
  unfoldable pub overlay_settings :
      Option (SerialSettings k) → Framing k → Option (SerialSettings k)
  overlay_settings none framing = none
  overlay_settings (some base) framing = some (record base {
    baudrate = or_old framing.baudrate base.baudrate;
    parity = or_old framing.parity base.parity;
    stopbits = or_old framing.stopbits base.stopbits;
  })

  unfoldable pub no_change : Framing k → Bool
  no_change framing = is_none framing.baudrate && is_none framing.parity && is_none framing.stopbits

module _ {k : SerialTypes} {T R : Type 0} (transport : Transport k T) (codec : SbiCodec R) where
  -- READ_MODEL through a new xBPI client.
  probe_new_xbpi : ℤ → ℤ → Exec T XbpiClient
  probe_new_xbpi src_sbn dst_sbn = do
    request ← lift (build_command (pos 0x02) [] src_sbn dst_sbn)
    frame ← xbpi_execute transport new_xbpi_client request
    pure new_xbpi_client

  -- READ_MODEL through a new SBI client, where the device does not print unasked.
  probe_sbi_port : Bool → Exec (Port T) (Unit {0})
  probe_sbi_port true = pure tt
  probe_sbi_port false = sbi_execute transport codec token_type (pos 1) >> pure tt

  check_port : ℕ → Exec (Port T) SbiClient
  unfolding probe_sbi_port
  check_port rounds = do
    prints ← detect_autoprint transport codec rounds 4
    probe_sbi_port prints
    gets (λ p. p.client)

  probe_new_sbi : ℕ → Exec T SbiClient
  unfolding check_port
  probe_new_sbi rounds wire =
      let (r, port) = check_port rounds (record { client = new_sbi_client; wire = wire }) in
      (r, port.wire)

  -- The new clients, xBPI or SBI.
  unfoldable pub probe_target :
      ProtocolKind → ℕ → ℤ → ℤ → Exec T (Option XbpiClient × Option SbiClient)
  unfolding probe_new_xbpi probe_new_sbi
  probe_target xbpi rounds src_sbn dst_sbn = do
    client ← probe_new_xbpi src_sbn dst_sbn
    pure (some client, none)
  probe_target sbi rounds src_sbn dst_sbn = do
    client ← probe_new_sbi rounds
    pure (none, some client)
  probe_target auto rounds src_sbn dst_sbn = do
    client ← probe_new_sbi rounds
    pure (none, some client)

module _ {k : SerialTypes} {V T I : Type 0} where
  abbrev pub on_wire : {A : Type 0} → Exec T A → Exec (Balance k V T I) A
  on_wire action b =
      let (r, wire) = action b.link.wire in (r, record b { link = record b.link { wire = wire } })

  abbrev pub set_session : Session k V → Balance k V T I → Balance k V T I
  set_session session b = record b { link = record b.link { session = session } }

  -- The session takes the new clients, which are none of the old ones.
  unfoldable pub install :
      ProtocolKind
      → Framing k
      → Option XbpiClient × Option SbiClient
      → Exec (Balance k V T I) (Unit {0})
  install target framing (x, s) b =
      let old = b.link.session in
      let (r, session) =
        replace_clients x s target (overlay_settings old.serial_settings framing) old in
      (r, set_session session b)

  -- Clients that are replaced are disposed of.
  unfoldable pub retire : Option XbpiClient → Option SbiClient → Balance k V T I → Balance k V T I
  retire x s b = record b {
    retired_xbpi = elim x [ none ↦ b.retired_xbpi | some c ↦ dispose_xbpi c ∷ b.retired_xbpi ];
    retired_sbi = elim s [ none ↦ b.retired_sbi | some c ↦ dispose_sbi c ∷ b.retired_sbi ];
  }

  unfoldable pub break_session : Balance k V T I → Balance k V T I
  break_session b = set_session (mark_broken b.link.session) b

  -- The end of the `except`: what is raised, once the reopen at the old framing has returned or raised.
  unfoldable pub rolled_back : ErrorClass → Result (Unit {0}) → Exec (Balance k V T I) (Unit {0})
  unfolding break_session
  rolled_back cause (ok u) b = (err cause, b)
  rolled_back cause (err c) b = (err connection, break_session b)

module _ {k : SerialTypes} {V T I : Type 0} (transport : Transport k T) where
  unfoldable pub rollback :
      Option (SerialSettings k) → ErrorClass → Exec (Balance k V T I) (Unit {0})
  unfolding break_session rolled_back
  rollback none cause b = (err cause, break_session b)
  rollback (some old) cause b =
      let (r, after) =
        on_wire (transport.reopen (some old.baudrate) (some old.parity) (some old.stopbits)) b in
      rolled_back cause r after

  unfoldable pub recover :
      Option (SerialSettings k)
      → Result (Unit {0}) × Balance k V T I
      → Result (Unit {0}) × Balance k V T I
  unfolding rollback
  recover settings (ok u, b) = (ok u, b)
  recover settings (err c, b) = rollback settings c b

module _ {k : SerialTypes} {V T I R : Type 0} (transport : Transport k T) (codec : SbiCodec R) where
  -- The body of the `try`.
  unfoldable pub switch : ProtocolKind → ℕ → Framing k → Exec (Balance k V T I) (Unit {0})
  unfolding probe_target install retire
  switch target rounds framing = do
    old ← gets (λ b. b.link.session)
    on_wire transport.drain_input
    on_wire (transport.reopen framing.baudrate framing.parity framing.stopbits)
    clients ← on_wire (probe_target transport codec target rounds old.src_sbn old.dst_sbn)
    install target framing clients
    modify (retire old.xbpi_client old.sbi_client)

  -- The `try` with its `except`; the settings are those of before the switch.
  unfoldable pub guarded_switch : ProtocolKind → ℕ → Framing k → Exec (Balance k V T I) (Unit {0})
  unfolding switch recover
  guarded_switch target rounds framing b =
      recover transport b.link.session.serial_settings (switch target rounds framing b)

  module _ (identify : Exec (Balance k V T I) I) where
    known_info : Option I → Exec (Balance k V T I) I
    known_info none = identify
    known_info (some info) = pure info

    unfoldable pub configure_protocol :
        ProtocolKind → ℕ → Framing k → Bool → Exec (Balance k V T I) I
    unfolding guarded_switch known_info
    configure_protocol target rounds framing confirm = do
      guard (not (same_protocol target auto)) validation
      guard confirm confirmation_required
      session ← gets (λ b. b.link.session)
      info ← gets (λ b. b.info)
      lift (check_state session)
      if same_protocol target session.active && no_change framing then known_info info else (do
        guard (has_lock session.active session.xbpi_client session.sbi_client) sartorius_error
        guarded_switch target rounds framing
        identify)
