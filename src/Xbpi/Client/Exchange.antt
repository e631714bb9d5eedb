-- ===== src/Xbpi/Client/Exchange.antt =====
-- What an exchange returns and what it leaves on the wire.
use sartoriuslib.Prelude.{
  ℕ, ◌+◌, ◌≡◌, ◌≢◌, refl, ap, ◌∙◌, [], ◌∷◌, ◌++◌, true, false, arith, length, length-append, get_or,
  Bool-cases, inl, inr,
}
use sartoriuslib.Prelude.Bytes.{Bytes}
use sartoriuslib.Errors.{ErrorClass, connection}
use sartoriuslib.Errors.Result.{Result, ok, err}
use sartoriuslib.Errors.Exec.{◌>>=◌, bind-eq-ok}
use sartoriuslib.Transport.{SerialTypes, Transport}
use sartoriuslib.Transport.Fake.{FakeTransport, reply_bytes, lookup_script, drain_input}
use sartoriuslib.Transport.Fake.Buffer.{IsQuiet, fake_transport, read_exact-front, write-answer}
use sartoriuslib.Xbpi.Types.{XbpiFrame}
use sartoriuslib.Xbpi.Framing.{checksum, parse_frame, rx_marker}
use sartoriuslib.Xbpi.Framing.Codec.{encode_reply, decoded_reply, parse-encode}
use sartoriuslib.Xbpi.Client.{XbpiClient, execute, exchange, parse_or_drain, check_refusal}

check_refusal_ok : (g f : XbpiFrame) → check_refusal g ≡ ok f → (g ≡ f) × (f.subtype ≢ 1)
unfolding check_refusal
check_refusal_ok g f h = (ground arith, λ e. ground arith)

raw_of : (raw : Bytes) (f : XbpiFrame) → parse_frame raw ≡ ok f → f.raw ≡ raw
unfolding parse_frame
raw_of raw f h = ground arith

parse_frame_raw : (raw : Bytes) (f : XbpiFrame) → parse_frame raw ≡ ok f → parse_frame f.raw ≡ ok f
parse_frame_raw raw f h = ap parse_frame (raw_of raw f h) ∙ h

module _ {k : SerialTypes} {T : Type 0} (transport : Transport k T) where
  parse_or_drain_ok :
      (r : Result XbpiFrame) (t : T) (f : XbpiFrame)
      → (parse_or_drain transport r t).0 ≡ ok f
      → r ≡ ok f
  unfolding parse_or_drain
  parse_or_drain_ok (ok g) t f h = h
  parse_or_drain_ok (err c) t f h = cc

  -- A retired client raises and touches no byte of the wire.
  pub execute-disposed :
      (client : XbpiClient) (request : Bytes) (t : T)
      → client.disposed ≡ true
      → execute transport client request t ≡ (err connection, t)
  unfolding execute
  execute-disposed client request t h = rw h

  exchange_validated :
      (request : Bytes) (t : T) (f : XbpiFrame)
      → (exchange transport request t).0 ≡ ok f
      → (f.subtype ≢ 1) × (parse_frame f.raw ≡ ok f)
  unfolding exchange
  exchange_validated request t f h =
      let (_, _, h1) = bind-eq-ok (transport.write request) _ t h in
      let (lb, _, h2) = bind-eq-ok (transport.read_exact 1) _ _ h1 in
      let (rest, _, h3) = bind-eq-ok (transport.read_exact (get_or lb 0 0)) _ _ h2 in
      let (g, parsed, h4) =
        bind-eq-ok (parse_or_drain transport (parse_frame (lb ++ rest))) _ _ h3 in
      let (same, subtype) = check_refusal_ok g f h4 in
      (subtype, parse_frame_raw (lb ++ rest) f (parse_or_drain_ok _ _ g parsed ∙ ap ok same))

  -- Over every transport, a frame that the client returns comes from a client that is not retired, was validated
  -- by parse_frame and is no refusal.
  pub execute-validated :
      (client : XbpiClient) (request : Bytes) (t : T) (f : XbpiFrame)
      → (execute transport client request t).0 ≡ ok f
      → (client.disposed ≡ false) × (f.subtype ≢ 1) × (parse_frame f.raw ≡ ok f)
  unfolding execute
  execute-validated client request t f h = elim (Bool-cases client.disposed) [
    | inl retired ↦ absurd (ground arith)
    | inr active ↦
        let returned : (exchange transport request t).0 ≡ ok f = ground arith in
        let (subtype, valid) = exchange_validated request t f returned in (active, subtype, valid)
  ]

-- The state that an exchange on a scripted transport leaves.
abbrev pub after_exchange : {k : SerialTypes} → FakeTransport k → Bytes → Bytes → FakeTransport k
after_exchange s request rest = record s { writes = s.writes ++ request ∷ []; read_buffer = rest }

-- A reply behind its length byte.
abbrev after_length : ℕ → Bytes → Bytes
after_length subtype body =
    rx_marker ∷ subtype ∷ body ++ checksum ((length body + 3) ∷ rx_marker ∷ subtype ∷ body) ∷ []

length-after_length :
    (subtype : ℕ) (body : Bytes) → length (after_length subtype body) ≡ length body + 3
length-after_length subtype body =
    omega
      (arith, length-append body (checksum ((length body + 3) ∷ rx_marker ∷ subtype ∷ body) ∷ []))

module _ {k : SerialTypes} (s : FakeTransport k) (quiet : IsQuiet s) (client : XbpiClient)
    (active : client.disposed ≡ false) (request : Bytes) where
  abbrev answer : Bytes
  answer = reply_bytes (lookup_script s.script request) request

  -- The request is written, as many bytes as the first one says are read, and what they hold is parsed.
  execute_reads :
      (len : ℕ) (body rest : Bytes)
      → s.read_buffer ++ answer ≡ len ∷ body ++ rest
      → length body ≡ len
      → execute (fake_transport k) client request s
        ≡ (parse_or_drain (fake_transport k) (parse_frame (len ∷ body)) >>= λ f t.
              (check_refusal f, t))
            (after_exchange s request rest)
  unfolding execute
  execute_reads len body rest e size =
      let start : FakeTransport k = record s {
        writes = s.writes ++ request ∷ [];
        read_buffer = s.read_buffer ++ answer;
      } in
      let one =
        read_exact-front start
          (record { opened = quiet.opened; reads = quiet.reads; writes = quiet.writes }) 1
          (len ∷ []) (body ++ rest) e refl in
      let two =
        read_exact-front (after_exchange s request (body ++ rest))
          (record { opened = quiet.opened; reads = quiet.reads; writes = quiet.writes }) len body
          rest refl size in
      rw (active, write-answer s quiet request answer refl) (rw one (rw two refl))

  -- On an open scripted transport without forced failures, whose unread bytes and answer begin with a whole reply,
  -- the reply is returned, or raised as the refusal that it is, and what stands behind it stays in the buffer: a
  -- refusal does not drain the input.
  pub execute-reply :
      (subtype : ℕ) (body rest : Bytes)
      → s.read_buffer ++ answer ≡ encode_reply subtype body ++ rest
      → execute (fake_transport k) client request s
        ≡ (check_refusal (decoded_reply subtype body), after_exchange s request rest)
  unfolding parse_or_drain
  execute-reply subtype body rest e =
      execute_reads (length body + 3) (after_length subtype body) rest e
        (length-after_length subtype body)
      ∙ rw (parse-encode subtype body)

  -- On an open scripted transport without forced failures, bytes that are no frame are raised as parse_frame
  -- raises them, and the input is drained, so that the next call starts from an empty buffer.
  pub execute-garbled :
      (len : ℕ) (body rest : Bytes) (c : ErrorClass)
      → s.read_buffer ++ answer ≡ len ∷ body ++ rest
      → length body ≡ len
      → parse_frame (len ∷ body) ≡ err c
      → execute (fake_transport k) client request s ≡ (err c, after_exchange s request [])
  unfolding parse_or_drain drain_input
  execute-garbled len body rest c e size bad = execute_reads len body rest e size ∙ rw bad
