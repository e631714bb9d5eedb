-- ===== src/Sbi/Client/Steps.antt =====
-- One round of the loop that looks for autoprint lines, over the scripted transport.
use sartoriuslib.Prelude.{
  ℕ, suc, ◌+◌, ◌||◌, ◌≤◌, ◌<◌, ◌≡◌, refl, ap, ◌∙◌, [], ◌∷◌, ◌++◌, arith, Bool, true, false, length,
  length-append, ltb, if◌then◌else◌,
}
use sartoriuslib.Prelude.Bytes.{Bytes}
use sartoriuslib.Errors.{ErrorClass, timeout, is_subclass}
use sartoriuslib.Errors.Result.{ok, err}
use sartoriuslib.Transport.{SerialTypes}
use sartoriuslib.Transport.Fake.{FakeTransport, read_until}
use sartoriuslib.Transport.Fake.Buffer.{fake_transport, read_until_error}
use sartoriuslib.Sbi.Types.{SbiCodec}
use sartoriuslib.Sbi.Lines.{line_terminator}
use sartoriuslib.Sbi.Client.{SbiClient, Port, sniff, note_line}

pub noted_pending :
    (b : Bool) (raw : Bytes) (c : SbiClient)
    → (note_line b raw c).pending_lines ≡ c.pending_lines ++ raw ∷ []
noted_pending true raw c = refl
noted_pending false raw c = refl

pub noted_active :
    (b : Bool) (raw : Bytes) (c : SbiClient)
    → (note_line b raw c).autoprint_active ≡ (c.autoprint_active || b)
noted_active true raw c = ground arith
noted_active false raw c = ground arith

module _ {k : SerialTypes} {R : Type 0} (codec : SbiCodec R) where
  -- The port after one line.
  abbrev pub noted : Bytes → Port (FakeTransport k) → Port (FakeTransport k)
  noted raw p = record {
    client = note_line (codec.is_autoprint_line raw) raw p.client;
    wire = (read_until line_terminator p.wire).1;
  }

  pub sniff_full :
      (rounds max_lines : ℕ) (p : Port (FakeTransport k))
      → ltb (length p.client.pending_lines) max_lines ≡ false
      → sniff (fake_transport k) codec (suc rounds) max_lines p ≡ (ok tt, p)
  unfolding sniff
  sniff_full rounds max_lines p e = rw (e, sniff)

  pub sniff_error :
      (rounds max_lines : ℕ) (p : Port (FakeTransport k)) (c : ErrorClass)
      → ltb (length p.client.pending_lines) max_lines ≡ true
      → (read_until line_terminator p.wire).0 ≡ err c
      → sniff (fake_transport k) codec (suc rounds) max_lines p
        ≡ (if is_subclass c timeout then ok tt else err c, p)
  unfolding sniff
  sniff_error rounds max_lines p c e h =
      rw (e, sniff)
        (rw h (
          ap (λ w. (if is_subclass c timeout then ok tt else err c, record p { wire = w }))
            (read_until_error p.wire c line_terminator h)))

  pub sniff_line :
      (rounds max_lines : ℕ) (p : Port (FakeTransport k)) (raw : Bytes)
      → ltb (length p.client.pending_lines) max_lines ≡ true
      → (read_until line_terminator p.wire).0 ≡ ok raw
      → let q : Port (FakeTransport k) = record {
        client = note_line (codec.is_autoprint_line raw) raw p.client;
        wire = (read_until line_terminator p.wire).1;
      } in
        sniff (fake_transport k) codec (suc rounds) max_lines p ≡ (
          if codec.is_autoprint_line raw
          then (ok tt, q)
          else sniff (fake_transport k) codec rounds max_lines q)
  unfolding sniff
  sniff_line rounds max_lines p raw e h = rw (e, sniff) (rw h (ground arith))

  pub noted_within :
      (max_lines : ℕ) (p : Port (FakeTransport k)) (raw : Bytes)
      → length p.client.pending_lines < max_lines
      → length (noted raw p).client.pending_lines ≤ max_lines
  noted_within max_lines p raw room =
      let grown : length (noted raw p).client.pending_lines ≡ length p.client.pending_lines + 1 =
        ap length (noted_pending (codec.is_autoprint_line raw) raw p.client)
        ∙ length-append p.client.pending_lines (raw ∷ []) in
      omega arith
