-- ===== src/Transport/Fake.antt =====
-- transport/fake.py: the scripted transport. The artificial latency is left out.
pub mod Buffer
use sartoriuslib.Prelude.{
  ℕ, zero, suc, ◌+◌, ◌≡◌, Option, none, some, List, [], ◌∷◌, ◌++◌, Bool, true, false, ◌&&◌, length,
  take, drop, leb, ltb, ◌==◌, if◌then◌else◌,
}
use sartoriuslib.Prelude.Bytes.{Bytes, bytes_eq}
use sartoriuslib.Errors.{connection, timeout}
use sartoriuslib.Errors.Result.{Result, ok, err}
use sartoriuslib.Errors.Exec.{Exec, pure, raise, guard, modify, gets, ◌>>=◌, ◌>>◌}
use sartoriuslib.Transport.{SerialTypes}

-- `bytes | Sequence[bytes]`
pub data Produced : Type 0 where
  one : Bytes → Produced
  many : List Bytes → Produced

pub data ScriptedReply : Type 0 where
  verbatim : Produced → ScriptedReply
  callable : (Bytes → Produced) → ScriptedReply

-- b"".join(chunks)
abbrev pub join : List Bytes → Bytes
join [] = []
join (chunk ∷ chunks) = chunk ++ join chunks

abbrev pub normalize_reply : Produced → Bytes
normalize_reply (one bytes) = bytes
normalize_reply (many chunks) = join chunks

abbrev pub Script : Type 0
Script = List (Bytes × ScriptedReply)

-- self._script.get(payload)
unfoldable pub lookup_script : Script → Bytes → Option ScriptedReply
lookup_script [] payload = none
lookup_script ((command, reply) ∷ rest) payload =
    if bytes_eq command payload then some reply else lookup_script rest payload

pub record FakeTransport (k : SerialTypes) : Type 0 where
  pub script : Script
  pub writes : List Bytes
  pub read_buffer : Bytes
  pub is_open : Bool
  pub forces_read_timeout : Bool
  pub forces_write_timeout : Bool
  pub last_reopen_baud : Option ℕ
  pub last_reopen_parity : Option k.Parity
  pub last_reopen_stopbits : Option k.StopBits
  pub reopen_count : ℕ
  pub forces_reopen_error : Bool

-- What a write adds to the read buffer.
abbrev pub reply_bytes : Option ScriptedReply → Bytes → Bytes
reply_bytes none payload = []
reply_bytes (some (verbatim p)) payload = normalize_reply p
reply_bytes (some (callable f)) payload = normalize_reply (f payload)

-- Whether `separator` stands at the front.
abbrev pub starts_with : Bytes → Bytes → Bool
starts_with xs [] = true
starts_with [] (s ∷ separator) = false
starts_with (x ∷ xs) (s ∷ separator) = x == s && starts_with xs separator

abbrev pub shift : Option ℕ → Option ℕ
shift none = none
shift (some i) = some (suc i)

-- buffer.find(separator); `none` is -1.
unfoldable pub find : Bytes → Bytes → Option ℕ
find [] separator = if starts_with [] separator then some 0 else none
find (x ∷ xs) separator =
    let later = shift (find xs separator) in
    if starts_with (x ∷ xs) separator then some 0 else later

abbrev override {ℓ} : {A : Type ℓ} → Option A → Option A → Option A
override none old = old
override (some a) old = some a

abbrev limit : Option ℕ → Bytes → ℕ
limit none buffer = length buffer
limit (some n) buffer = if leb (length buffer) n then length buffer else n

module _ {k : SerialTypes} where
  unfoldable pub open_port : Exec (FakeTransport k) (Unit {0})
  open_port s = if s.is_open then (err connection, s) else (ok tt, record s { is_open = true })

  unfoldable pub close : Exec (FakeTransport k) (Unit {0})
  close s = (ok tt, record s { is_open = false })

  unfoldable pub reopen :
      Option ℕ → Option k.Parity → Option k.StopBits → Exec (FakeTransport k) (Unit {0})
  unfolding close open_port
  reopen baudrate parity stopbits = do
    close
    modify (λ s. record s {
      reopen_count = s.reopen_count + 1;
      last_reopen_baud = override baudrate s.last_reopen_baud;
      last_reopen_parity = override parity s.last_reopen_parity;
      last_reopen_stopbits = override stopbits s.last_reopen_stopbits;
    })
    failing ← gets (λ s. s.forces_reopen_error)
    if failing then raise connection else open_port

  unfoldable pub write : Bytes → Exec (FakeTransport k) (Unit {0})
  unfolding lookup_script
  write payload s =
      if s.is_open
      then (if s.forces_write_timeout then (err timeout, s) else (
        ok tt,
        record s {
          writes = s.writes ++ payload ∷ [];
          read_buffer = s.read_buffer ++ reply_bytes (lookup_script s.script payload) payload;
        },
      ))
      else (err connection, s)

  -- Hands out the first `n` bytes of the buffer.
  abbrev consume : ℕ → Exec (FakeTransport k) Bytes
  consume n s = (ok (take n s.read_buffer), record s { read_buffer = drop n s.read_buffer })

  unfoldable pub read_exact : ℕ → Exec (FakeTransport k) Bytes
  read_exact n s =
      if s.is_open
      then (if s.forces_read_timeout
          then (err timeout, s)
          else if ltb (length s.read_buffer) n
          then (err timeout, s)
          else consume n s)
      else (err connection, s)

  abbrev read_found : Option ℕ → ℕ → Exec (FakeTransport k) Bytes
  read_found none size s = (err timeout, s)
  read_found (some idx) size s = consume (idx + size) s

  unfoldable pub read_until : Bytes → Exec (FakeTransport k) Bytes
  read_until separator s =
      if s.is_open
      then (if s.forces_read_timeout
          then (err timeout, s)
          else read_found (find s.read_buffer separator) (length separator) s)
      else (err connection, s)

  unfoldable pub read_available : Option ℕ → Exec (FakeTransport k) Bytes
  read_available max_bytes s =
      if s.is_open then consume (limit max_bytes s.read_buffer) s else (err connection, s)

  unfoldable pub drain_input : Exec (FakeTransport k) (Unit {0})
  drain_input s = (ok tt, record s { read_buffer = [] })

  unfoldable pub feed : Bytes → FakeTransport k → FakeTransport k
  feed bytes s = record s { read_buffer = s.read_buffer ++ bytes }

  unfoldable pub add_script : Bytes → ScriptedReply → FakeTransport k → FakeTransport k
  add_script command reply s = record s { script = (command, reply) ∷ s.script }

  unfoldable pub force_read_timeout : Bool → FakeTransport k → FakeTransport k
  force_read_timeout enabled s = record s { forces_read_timeout = enabled }

  unfoldable pub force_write_timeout : Bool → FakeTransport k → FakeTransport k
  force_write_timeout enabled s = record s { forces_write_timeout = enabled }

  unfoldable pub force_reopen_error : Bool → FakeTransport k → FakeTransport k
  force_reopen_error enabled s = record s { forces_reopen_error = enabled }
