-- ===== src/Detect/Probes.antt =====
-- What detection writes to the device.
use sartoriuslib.Prelude.{
  ℕ, zero, suc, List, [], ◌∷◌, ◌++◌, append_assoc, append-nil, Option, none, some, true, ◌≡◌, refl,
  sym, ap, ◌∙◌, ◌⊎◌, inl, inr, get_or, All, All-append, Bool-cases, arith,
}
use sartoriuslib.Prelude.Int.{ℤ}
use sartoriuslib.Prelude.Bytes.{Bytes}
use sartoriuslib.Errors.Result.{Result, ok, err, Result-cases}
use sartoriuslib.Errors.Exec.{pure, ◌>>◌}
use sartoriuslib.Errors.Keeps.{keeps_if, keeps_continue}
use sartoriuslib.Transport.{SerialTypes}
use sartoriuslib.Transport.Fake.{FakeTransport, write, read_exact, read_until, drain_input}
use sartoriuslib.Transport.Fake.Buffer.{fake_transport, read_until-writes}
use sartoriuslib.Xbpi.Framing.{build_command}
use sartoriuslib.Sbi.Types.{SbiCodec}
use sartoriuslib.Sbi.Lines.{line_terminator}
use sartoriuslib.Devices.Session.Dispatch.{token_print}
use sartoriuslib.Detect.{
  xbpi_probe_opcode, token_type, suppress, drain, sniff_for_autoprint, answered, attempt_xbpi,
  try_xbpi, probe_xbpi, attempt_sbi, try_sbi, probe_tokens, probe_sbi, probe, decide,
  detect_protocol,
}

write-writes :
    {k : SerialTypes} (request : Bytes) (s : FakeTransport k)
    → ((write request s).1.writes ≡ s.writes)
      ⊎ ((write request s).1.writes ≡ s.writes ++ request ∷ [])
unfolding write
write-writes request s = ground arith

read_exact-writes :
    {k : SerialTypes} (n : ℕ) (s : FakeTransport k) → (read_exact n s).1.writes ≡ s.writes
unfolding read_exact
read_exact-writes n s = ground arith

-- What detection may write: the request for the model, and the two tokens that ask for a line.
abbrev pub IsProbe : ℤ → ℤ → Bytes → Type 0
IsProbe src_sbn dst_sbn sent =
    (build_command xbpi_probe_opcode [] src_sbn dst_sbn ≡ ok sent)
    ⊎ ((sent ≡ token_type) ⊎ (sent ≡ token_print))

module _ {k : SerialTypes} {R : Type 0} (codec : SbiCodec R) (src_sbn dst_sbn : ℤ)
    (start : FakeTransport k) where
  -- Only probes were written since the start.
  abbrev Asked : FakeTransport k → Type 0
  Asked t =
      (sent : List Bytes) × (t.writes ≡ start.writes ++ sent) × All (IsProbe src_sbn dst_sbn) sent

  unwritten-Asked : (t after : FakeTransport k) → after.writes ≡ t.writes → Asked t → Asked after
  unwritten-Asked t after e (sent, whole, probes) = (sent, e ∙ whole, probes)

  write-Asked :
      (t : FakeTransport k) (request : Bytes)
      → IsProbe src_sbn dst_sbn request
      → Asked t
      → Asked (write request t).1
  write-Asked t request fits (sent, whole, probes) = elim (write-writes request t) [
    | inl e ↦ (sent, e ∙ whole, probes)
    | inr e ↦ (
      sent ++ request ∷ [],
      e ∙ ap (λ w. w ++ request ∷ []) whole ∙ append_assoc start.writes sent (request ∷ []),
      All-append (IsProbe src_sbn dst_sbn) sent (request ∷ []) probes (fits, tt),
    )
  ]

  read_exact-Asked : (n : ℕ) (t : FakeTransport k) → Asked t → Asked (read_exact n t).1
  read_exact-Asked n t = unwritten-Asked t (read_exact n t).1 (read_exact-writes n t)

  read_until-Asked : (t : FakeTransport k) → Asked t → Asked (read_until line_terminator t).1
  read_until-Asked t =
      unwritten-Asked t (read_until line_terminator t).1 (read_until-writes t line_terminator)

  suppress-Asked :
      (r : Result (Unit {0})) (t : FakeTransport k)
      → Asked t
      → Asked (suppress (fake_transport k) codec r t).1
  unfolding suppress
  suppress-Asked (ok u) t h = h
  suppress-Asked (err c) t h = h

  drain-Asked : (t : FakeTransport k) → Asked t → Asked (drain (fake_transport k) codec t).1
  unfolding drain drain_input
  drain-Asked t h =
      suppress-Asked (drain_input t).0 (drain_input t).1
        (unwritten-Asked t (drain_input t).1 refl h)

  answered-Asked :
      {A : Type 0}
      → (r : Result A) (t : FakeTransport k) → Asked t
      → Asked (answered (fake_transport k) codec r t).1
  unfolding answered
  answered-Asked (ok a) t h = h
  answered-Asked (err c) t h = h

  sniff-Asked :
      (rounds : ℕ) (t : FakeTransport k)
      → Asked t
      → Asked (sniff_for_autoprint (fake_transport k) codec rounds t).1
  unfolding sniff_for_autoprint
  sniff-Asked zero t h = h
  sniff-Asked (suc rounds) t h =
      let after = read_until-Asked t h in
      elim (Result-cases (read_until line_terminator t).0) [
        | inr (c, e) ↦ rw (e, sniff_for_autoprint) after
        | inl (raw, e) ↦ elim (Bool-cases (codec.is_autoprint_line raw)) [
          | inl b ↦ rw (e, sniff_for_autoprint) (rw b after)
          | inr b ↦
              rw (e, sniff_for_autoprint)
                (rw b (sniff-Asked rounds (read_until line_terminator t).1 after))
        ]
      ]

  try_xbpi-Asked :
      (request : Bytes) (t : FakeTransport k)
      → IsProbe src_sbn dst_sbn request
      → Asked t
      → Asked (try_xbpi (fake_transport k) codec request t).1
  unfolding try_xbpi attempt_xbpi
  try_xbpi-Asked request t fits h =
      let wrote = write-Asked t request fits h in
      let first = write request t in
      let attempted : Asked (attempt_xbpi (fake_transport k) codec request t).1 =
        keeps_continue Asked first.0 _ first.1 wrote (λ _.
          let second = read_exact 1 first.1 in
          keeps_continue Asked second.0 _ second.1 (read_exact-Asked 1 first.1 wrote)
            (λ length_byte.
              let third = read_exact (get_or length_byte 0 0) second.1 in
              let read =
                read_exact-Asked (get_or length_byte 0 0) second.1
                  (read_exact-Asked 1 first.1 wrote) in
              keeps_continue Asked third.0 _ third.1 read (λ body. read))) in
      let tried = attempt_xbpi (fake_transport k) codec request t in
      answered-Asked tried.0 tried.1 attempted

  probe_xbpi-Asked :
      (t : FakeTransport k)
      → Asked t
      → Asked (probe_xbpi (fake_transport k) codec src_sbn dst_sbn t).1
  unfolding probe_xbpi
  probe_xbpi-Asked t h = elim (Result-cases (build_command xbpi_probe_opcode [] src_sbn dst_sbn)) [
    | inl (request, e) ↦ rw e (try_xbpi-Asked request t (inl e) h)
    | inr (c, e) ↦ rw e h
  ]

  try_sbi-Asked :
      (token : Bytes) (t : FakeTransport k)
      → IsProbe src_sbn dst_sbn token
      → Asked t
      → Asked (try_sbi (fake_transport k) codec token t).1
  unfolding try_sbi attempt_sbi
  try_sbi-Asked token t fits h =
      let wrote = write-Asked t token fits h in
      let first = write token t in
      let attempted : Asked (attempt_sbi (fake_transport k) codec token t).1 =
        keeps_continue Asked first.0 _ first.1 wrote (λ _. read_until-Asked first.1 wrote) in
      let tried = attempt_sbi (fake_transport k) codec token t in
      answered-Asked tried.0 tried.1 attempted

  probe_tokens-Asked :
      (tokens : List Bytes) (t : FakeTransport k)
      → All (IsProbe src_sbn dst_sbn) tokens
      → Asked t
      → Asked (probe_tokens (fake_transport k) codec tokens t).1
  unfolding probe_tokens
  probe_tokens-Asked [] t fits h = h
  probe_tokens-Asked (token ∷ tokens) t (fit, fits) h =
      let tried = try_sbi (fake_transport k) codec token t in
      let h1 = try_sbi-Asked token t fit h in
      let drained = drain (fake_transport k) codec tried.1 in
      let h2 = drain-Asked tried.1 h1 in
      keeps_continue Asked tried.0 _ tried.1 h1 (λ replied.
        keeps_if Asked replied (pure true)
          (drain (fake_transport k) codec >> probe_tokens (fake_transport k) codec tokens) tried.1
          h1
          (keeps_continue Asked drained.0 _ drained.1 h2
            (λ _. probe_tokens-Asked tokens drained.1 fits h2)))

  probe-Asked :
      (t : FakeTransport k) → Asked t → Asked (probe (fake_transport k) codec src_sbn dst_sbn t).1
  unfolding probe probe_sbi
  probe-Asked t h =
      let d1 = drain (fake_transport k) codec t in
      let h1 = drain-Asked t h in
      let x = probe_xbpi (fake_transport k) codec src_sbn dst_sbn d1.1 in
      let h2 = probe_xbpi-Asked d1.1 h1 in
      let d2 = drain (fake_transport k) codec x.1 in
      let h3 = drain-Asked x.1 h2 in
      let y = probe_tokens (fake_transport k) codec (token_type ∷ token_print ∷ []) d2.1 in
      let h4 =
        probe_tokens-Asked (token_type ∷ token_print ∷ []) d2.1
          (inr (inl refl), (inr (inr refl), tt)) h3 in
      keeps_continue Asked d1.0 _ d1.1 h1 (λ _. keeps_continue Asked x.0 _ x.1 h2 (λ is_xbpi.
        keeps_if Asked is_xbpi _ _ x.1 h2 (
          keeps_continue Asked d2.0 _ d2.1 h3 (λ _.
            keeps_continue Asked y.0 _ y.1 h4 (λ is_sbi. keeps_if Asked is_sbi _ _ y.1 h4 h4)))))

  decide-Asked :
      (o : Option Bytes) (t : FakeTransport k)
      → Asked t
      → Asked (decide (fake_transport k) codec src_sbn dst_sbn o t).1
  unfolding decide
  decide-Asked (some raw) t h = h
  decide-Asked none t h = probe-Asked t h

module _ {k : SerialTypes} {R : Type 0} (codec : SbiCodec R) where
  -- Over the scripted transport, whatever the device does and however the detection ends, all that it has written
  -- are whole probes: the xBPI request for the model and the two SBI tokens that ask for a line.
  pub detect_protocol_probes :
      (rounds : ℕ) (src_sbn dst_sbn : ℤ) (s : FakeTransport k)
      → (sent : List Bytes) × ((detect_protocol
            (fake_transport k)
            codec
            rounds
            src_sbn
            dst_sbn
            s).1.writes
          ≡ s.writes ++ sent)
        × All (IsProbe src_sbn dst_sbn) sent
  unfolding detect_protocol
  detect_protocol_probes rounds src_sbn dst_sbn s =
      let sniffed = sniff_for_autoprint (fake_transport k) codec rounds s in
      let h = sniff-Asked codec src_sbn dst_sbn s rounds s ([], sym (append-nil s.writes), tt) in
      keeps_continue (Asked codec src_sbn dst_sbn s) sniffed.0 _ sniffed.1 h
        (λ o. decide-Asked codec src_sbn dst_sbn s o sniffed.1 h)
