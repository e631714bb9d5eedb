-- ===== src/Sbi/Client/Live.antt =====
-- The calls of a client that is probed do not retire it, over any transport.
use sartoriuslib.Prelude.{
  ℕ, zero, suc, ◌≡◌, refl, ◌∙◌, true, false, length, ltb, inl, inr, Bool, Bool-cases,
}
use sartoriuslib.Prelude.Int.{ℤ, pos, negsuc}
use sartoriuslib.Prelude.Bytes.{Bytes}
use sartoriuslib.Errors.Result.{Result-cases}
use sartoriuslib.Errors.Keeps.{keeps_continue}
use sartoriuslib.Transport.{SerialTypes, Transport}
use sartoriuslib.Sbi.Types.{SbiCodec}
use sartoriuslib.Sbi.Lines.{line_terminator}
use sartoriuslib.Sbi.Client.{
  SbiClient, Port, note_line, on_wire, raise_if_disposed, execute, sniff, detect_autoprint,
}

module _ {k : SerialTypes} {T R : Type 0} (transport : Transport k T) (codec : SbiCodec R) where
  -- The port after some calls has a client that is as live as before.
  abbrev SameLife : Port T → Port T → Type 0
  SameLife before after = after.client.disposed ≡ before.client.disposed

  -- Below its check, `execute` works on the transport alone.
  pub execute-disposed :
      (request : Bytes) (n : ℤ) (p : Port T)
      → (execute transport codec request n p).1.client.disposed ≡ p.client.disposed
  unfolding execute on_wire raise_if_disposed
  execute-disposed request (negsuc n) p = refl
  execute-disposed request (pos n) p =
      keeps_continue (SameLife p) (raise_if_disposed transport codec p).0 _ p refl (λ u. refl)

  note_line-disposed :
      (b : Bool) (raw : Bytes) (client : SbiClient)
      → (note_line b raw client).disposed ≡ client.disposed
  note_line-disposed true raw client = refl
  note_line-disposed false raw client = refl

  sniff-disposed :
      (rounds max_lines : ℕ) (p : Port T)
      → (sniff transport codec rounds max_lines p).1.client.disposed ≡ p.client.disposed
  unfolding sniff
  sniff-disposed zero max_lines p = refl
  sniff-disposed (suc rounds) max_lines p =
      elim (Bool-cases (ltb (length p.client.pending_lines) max_lines)) [
        | inr full ↦ rw (full, sniff) refl
        | inl room ↦ elim (Result-cases (transport.read_until line_terminator p.wire).0) [
          | inr (c, e) ↦ rw (room, sniff) (rw e refl)
          | inl (raw, e) ↦ elim (Bool-cases (codec.is_autoprint_line raw)) [
            | inl a ↦ rw (room, sniff) (rw (e, a) (note_line-disposed _ raw p.client))
            | inr n ↦
                rw (room, sniff)
                  (rw (e, n)
                    (sniff-disposed rounds max_lines _ ∙ note_line-disposed _ raw p.client))
          ]
        ]
      ]

  pub detect_autoprint-disposed :
      (rounds n : ℕ) (p : Port T)
      → (detect_autoprint transport codec rounds (suc n) p).1.client.disposed ≡ p.client.disposed
  unfolding detect_autoprint raise_if_disposed
  detect_autoprint-disposed rounds n p =
      let sniffed = sniff transport codec rounds (suc n) p in
      keeps_continue (SameLife p) (raise_if_disposed transport codec p).0 _ p refl (λ u.
        keeps_continue (SameLife p) sniffed.0 _ sniffed.1 (sniff-disposed rounds (suc n) p)
          (λ v. sniff-disposed rounds (suc n) p))
