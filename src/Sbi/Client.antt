-- ===== src/Sbi/Client.antt =====
-- protocol/sbi/client.py: the line client with its queue of pending lines. The clock is modelled by how often its
-- test passes: `rounds` is the number of reads that start before the deadline.
pub mod Queue
pub mod Live
pub mod Steps
pub mod Sniffing
pub mod Detected
use sartoriuslib.Prelude.{
  ℕ, zero, suc, ◌≡◌, Option, none, some, List, [], ◌∷◌, ◌++◌, Bool, true, false, not, length, ltb,
  leb, ◌==◌, if◌then◌else◌,
}
use sartoriuslib.Prelude.Int.{ℤ, pos, negsuc}
use sartoriuslib.Prelude.Bytes.{Bytes}
use sartoriuslib.Errors.{
  ErrorClass, is_subclass, connection, command_rejected, timeout, value_error,
}
use sartoriuslib.Errors.Result.{Result, ok, err}
use sartoriuslib.Errors.Exec.{Exec, pure, raise, lift, gets, modify, guard, ◌>>=◌, ◌>>◌}
use sartoriuslib.Transport.{SerialTypes, Transport}
use sartoriuslib.Sbi.Types.{SbiLine, SbiLineKind, SbiReply, SbiCodec}
use sartoriuslib.Sbi.Lines.{line_terminator, newline, ends_with, split_lines, parse_reply}

pub record SbiClient : Type 0 where
  pub pending_lines : List Bytes
  pub autoprint_active : Bool
  pub disposed : Bool

abbrev pub new_client : SbiClient
new_client = record { pending_lines = []; autoprint_active = false; disposed = false }

-- A client with the state of its transport.
pub record Port (T : Type 0) : Type 0 where
  pub client : SbiClient
  pub wire : T

unfoldable pub dispose : SbiClient → SbiClient
dispose client = record client { disposed = true }

-- The lines in the order in which they will be read, put before those that wait.
abbrev queue_split : Result (List Bytes) → Bytes → SbiClient → SbiClient
queue_split (ok lines) raw client = record client { pending_lines = lines ++ client.pending_lines }
queue_split (err c) raw client = client

-- `_queue_pending_front`: `split_lines` does not raise on a buffer that ends in a newline.
unfoldable pub queue_pending_front : Bytes → SbiClient → SbiClient
queue_pending_front [] client = client
queue_pending_front (b ∷ raw) client =
    if ends_with (b ∷ raw) (newline ∷ [])
    then queue_split (split_lines (b ∷ raw)) (b ∷ raw) client
    else record client { pending_lines = (b ∷ raw) ∷ client.pending_lines }

-- The argument `pending`; `none` and empty bytes queue nothing.
abbrev queue_given : Option Bytes → SbiClient → SbiClient
queue_given none client = client
queue_given (some raw) client = queue_pending_front raw client

unfoldable pub mark_autoprint_active : Option Bytes → SbiClient → SbiClient
mark_autoprint_active pending client =
    queue_given pending (record client { autoprint_active = true })

unfoldable pub mark_autoprint_inactive : SbiClient → SbiClient
mark_autoprint_inactive client = record client { autoprint_active = false }

-- Whether a reply holds a refusal line.
abbrev pub has_refusal : {R : Type 0} → List (SbiLine R) → Bool
has_refusal [] = false
has_refusal (line ∷ lines) = elim line.kind [ SbiLineKind.refusal ↦ true | _ ↦ has_refusal lines ]

-- What one read of the sniffing loop does with its line, which is an autoprint line or not.
abbrev pub note_line : Bool → Bytes → SbiClient → SbiClient
note_line autoprint raw client =
    let queued : SbiClient = record client { pending_lines = client.pending_lines ++ raw ∷ [] } in
    if autoprint then record queued { autoprint_active = true } else queued

module _ {k : SerialTypes} {T R : Type 0} (transport : Transport k T) (codec : SbiCodec R) where
  -- An action on the transport alone.
  on_wire : {A : Type 0} → Exec T A → Exec (Port T) A
  on_wire m p = ((m p.wire).0, record p { wire = (m p.wire).1 })

  set_client : (SbiClient → SbiClient) → Exec (Port T) (Unit {0})
  set_client f p = (ok tt, record p { client = f p.client })

  pub raise_if_disposed : Exec (Port T) (Unit {0})
  raise_if_disposed p = (if p.client.disposed then err connection else ok tt, p)

  -- `_parse_or_drain` below the `try`.
  check_lines : Result (SbiReply R) → Exec T (SbiReply R)
  check_lines (ok reply) t = (if has_refusal reply.lines then err command_rejected else ok reply, t)
  check_lines (err c) t = (err c, (transport.drain_input t).1)

  parse_or_drain : Bytes → Exec T (SbiReply R)
  unfolding check_lines
  parse_or_drain raw = check_lines (parse_reply codec raw)

  -- b"".join of `n` reads.
  read_chunks : ℕ → Exec T Bytes
  read_chunks zero = pure []
  read_chunks (suc n) = do
    chunk ← transport.read_until line_terminator
    rest ← read_chunks n
    pure (chunk ++ rest)

  -- Below `_raise_if_disposed` in `_execute_locked`.
  exchange : Bytes → ℕ → Exec T (SbiReply R)
  exchange request zero = do transport.write request; pure (record { lines = []; raw = [] })
  exchange request (suc n) = do
    transport.write request
    raw ← read_chunks (suc n)
    parse_or_drain raw

  unfoldable pub execute : Bytes → ℤ → Exec (Port T) (SbiReply R)
  unfolding on_wire raise_if_disposed exchange read_chunks parse_or_drain
  execute request (negsuc n) = raise value_error
  execute request (pos n) = do raise_if_disposed; on_wire (exchange request n)

  -- The next line: the first that waits, or else one from the transport.
  next_line : List Bytes → Exec (Port T) Bytes
  unfolding on_wire set_client
  next_line [] = on_wire (transport.read_until line_terminator)
  next_line (raw ∷ rest) = do set_client (λ c. record c { pending_lines = rest }); pure raw

  unfoldable pub read_line : Exec (Port T) (SbiReply R)
  unfolding raise_if_disposed next_line on_wire parse_or_drain
  read_line = do
    raise_if_disposed
    pending ← gets (λ p. p.client.pending_lines)
    raw ← next_line pending
    on_wire (parse_or_drain raw)

  -- The sniffing loop; a timeout ends it, any other error is raised.
  pub sniff : ℕ → ℕ → Exec (Port T) (Unit {0})
  sniff zero max_lines p = (ok tt, p)
  sniff (suc rounds) max_lines p = elim (ltb (length p.client.pending_lines) max_lines) [
    | false ↦ (ok tt, p)
    | true ↦
        let (r, wire) = transport.read_until line_terminator p.wire in
        elim r [
          | err c ↦ (if is_subclass c timeout then ok tt else err c, record p { wire = wire })
          | ok raw ↦
              let noted : Port T = record {
                client = note_line (codec.is_autoprint_line raw) raw p.client;
                wire = wire;
              } in
              elim (codec.is_autoprint_line raw) [
                | true ↦ (ok tt, noted)
                | false ↦ sniff rounds max_lines noted
              ]
        ]
  ]

  unfoldable pub detect_autoprint : ℕ → ℕ → Exec (Port T) Bool
  unfolding raise_if_disposed sniff
  detect_autoprint rounds zero = raise value_error
  detect_autoprint rounds (suc n) = do
    raise_if_disposed
    sniff rounds (suc n)
    gets (λ p. p.client.autoprint_active)

  unfoldable pub refresh_autoprint_state : ℕ → ℕ → Exec (Port T) Bool
  unfolding raise_if_disposed sniff set_client
  refresh_autoprint_state rounds zero = raise value_error
  refresh_autoprint_state rounds (suc n) = do
    raise_if_disposed
    set_client (λ c. record c { pending_lines = []; autoprint_active = false })
    sniff rounds (suc n)
    gets (λ p. p.client.autoprint_active)
