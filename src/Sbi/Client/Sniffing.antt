-- ===== src/Sbi/Client/Sniffing.antt =====
-- The loop that looks for autoprint lines, over the scripted transport: what it moves from the wire to the queue, and what
-- ends it.
use sartoriuslib.Prelude.{
  ℕ, zero, suc, ◌||◌, ◌≤◌, ◌<◌, ◌≡◌, refl, sym, ap, ◌∙◌, List, [], ◌∷◌, ◌++◌, subst, ◌⊎◌, All,
  append_assoc, append-nil, arith, Bool, true, false, length, ltb, if◌then◌else◌, Bool-cases,
  ltb→lt, inl, inr,
}
use sartoriuslib.Prelude.Bytes.{Bytes}
use sartoriuslib.Errors.{ErrorClass}
use sartoriuslib.Errors.Result.{ok, err, Result-cases}
use sartoriuslib.Transport.{SerialTypes}
use sartoriuslib.Transport.Fake.{FakeTransport, join, read_until}
use sartoriuslib.Transport.Fake.Buffer.{fake_transport, read_until-conserves, read_until-writes}
use sartoriuslib.Sbi.Types.{SbiCodec}
use sartoriuslib.Sbi.Lines.{line_terminator}
use sartoriuslib.Sbi.Lines.Whole.{IsLine, read-IsLine}
use sartoriuslib.Sbi.Client.{Port, sniff}
use sartoriuslib.Sbi.Client.Steps.{
  noted_pending, noted_active, noted, sniff_full, sniff_error, sniff_line, noted_within,
}

module _ {R : Type 0} (codec : SbiCodec R) where
  -- The last line is one that the device prints by itself.
  abbrev pub EndsPrinted : List Bytes → Type 0
  EndsPrinted [] = ⊥
  EndsPrinted (raw ∷ []) = codec.is_autoprint_line raw ≡ true
  EndsPrinted (raw ∷ next ∷ lines) = EndsPrinted (next ∷ lines)

  -- No line but the last is.
  abbrev pub NoneBefore : List Bytes → Type 0
  NoneBefore [] = Unit
  NoneBefore (raw ∷ []) = Unit
  NoneBefore (raw ∷ next ∷ lines) =
      (codec.is_autoprint_line raw ≡ false) × NoneBefore (next ∷ lines)

  -- Some line is.
  abbrev pub any_printed : List Bytes → Bool
  any_printed [] = false
  any_printed (raw ∷ lines) = codec.is_autoprint_line raw || any_printed lines

  longer_ends : (raw : Bytes) (lines : List Bytes) → EndsPrinted lines → EndsPrinted (raw ∷ lines)
  longer_ends raw [] h = elim h [ ]
  longer_ends raw (next ∷ lines) h = h

  longer_before :
      (raw : Bytes) (lines : List Bytes)
      → codec.is_autoprint_line raw ≡ false
      → NoneBefore lines
      → NoneBefore (raw ∷ lines)
  longer_before raw [] other h = tt
  longer_before raw (next ∷ lines) other h = (other, h)

module _ {k : SerialTypes} {R : Type 0} (codec : SbiCodec R) where
  -- The next read would raise.
  abbrev pub Blocked : FakeTransport k → Type 0
  Blocked wire = (c : ErrorClass) × ((read_until line_terminator wire).0 ≡ err c)

  -- Some whole lines went from the front of the wire to the end of the queue, in their order, and nothing was written; it
  -- ended after all the rounds, with a full queue, with a line of autoprint, or before a read that raises.
  pub record Sniffed (rounds max_lines : ℕ) (before after : Port (FakeTransport k)) : Type 0 where
    pub lines : List Bytes
    pub queued : after.client.pending_lines ≡ before.client.pending_lines ++ lines
    pub taken : join lines ++ after.wire.read_buffer ≡ before.wire.read_buffer
    pub whole : All IsLine lines
    pub silent : after.wire.writes ≡ before.wire.writes
    pub stops : NoneBefore codec lines
    pub flagged :
        after.client.autoprint_active ≡ (before.client.autoprint_active || any_printed codec lines)
    pub within : length after.client.pending_lines ≤ max_lines
    pub ended :
        (length lines ≡ rounds)
        ⊎ ((length after.client.pending_lines ≡ max_lines)
            ⊎ (EndsPrinted codec lines ⊎ Blocked after.wire))

  unmoved :
      (rounds max_lines : ℕ) (p : Port (FakeTransport k))
      → length p.client.pending_lines ≤ max_lines
      → (0 ≡ rounds) ⊎ ((length p.client.pending_lines ≡ max_lines) ⊎ Blocked p.wire)
      → Sniffed rounds max_lines p p
  unmoved rounds max_lines p within ended = record {
    lines = [];
    queued = sym (append-nil p.client.pending_lines);
    taken = refl;
    whole = tt;
    silent = refl;
    stops = tt;
    flagged = ground arith;
    within = within;
    ended = elim ended [
      | inl e ↦ inl e
      | inr (inl e) ↦ inr (inl e)
      | inr (inr b) ↦ inr (inr (inr b))
    ];
  }

  -- One line in front of others.
  moved :
      (rounds max_lines : ℕ) (p q : Port (FakeTransport k)) (raw : Bytes)
      → (read_until line_terminator p.wire).0 ≡ ok raw
      → codec.is_autoprint_line raw ≡ false
      → Sniffed rounds max_lines (noted codec raw p) q
      → Sniffed (suc rounds) max_lines p q
  moved rounds max_lines p q raw e other s =
      let (i, whole, front, here, first) = read_until-conserves p.wire raw line_terminator e in
      record {
        lines = raw ∷ s.lines;
        queued =
            s.queued
            ∙ ap (λ l. l ++ s.lines) (noted_pending (codec.is_autoprint_line raw) raw p.client)
            ∙ append_assoc p.client.pending_lines (raw ∷ []) s.lines;
        taken =
            append_assoc raw (join s.lines) q.wire.read_buffer ∙ ap (λ t. raw ++ t) s.taken ∙ whole;
        whole = (read-IsLine raw _ p.wire.read_buffer i whole front here first, s.whole);
        silent = s.silent ∙ read_until-writes p.wire line_terminator;
        stops = longer_before codec raw s.lines other s.stops;
        flagged =
            ground
              (arith, s.flagged, other, noted_active (codec.is_autoprint_line raw) raw p.client);
        within = s.within;
        ended = elim s.ended [
          | inl all ↦ inl (ap (λ n. suc n) all)
          | inr (inl full) ↦ inr (inl full)
          | inr (inr (inl printed)) ↦ inr (inr (inl (longer_ends codec raw s.lines printed)))
          | inr (inr (inr blocked)) ↦ inr (inr (inr blocked))
        ];
      }

  -- A line of autoprint is the last.
  printed :
      (rounds max_lines : ℕ) (p : Port (FakeTransport k)) (raw : Bytes)
      → length p.client.pending_lines < max_lines
      → (read_until line_terminator p.wire).0 ≡ ok raw
      → codec.is_autoprint_line raw ≡ true
      → Sniffed (suc rounds) max_lines p (noted codec raw p)
  printed rounds max_lines p raw room e prints =
      let (i, whole, front, here, first) = read_until-conserves p.wire raw line_terminator e in
      record {
        lines = raw ∷ [];
        queued = noted_pending (codec.is_autoprint_line raw) raw p.client;
        taken = ap (λ t. t ++ (noted codec raw p).wire.read_buffer) (append-nil raw) ∙ whole;
        whole = (read-IsLine raw _ p.wire.read_buffer i whole front here first, tt);
        silent = read_until-writes p.wire line_terminator;
        stops = tt;
        flagged = ground (arith, prints, noted_active (codec.is_autoprint_line raw) raw p.client);
        within = noted_within codec max_lines p raw room;
        ended = inr (inr (inl prints));
      }

  pub sniff-Sniffed :
      (max_lines rounds : ℕ) (p : Port (FakeTransport k))
      → length p.client.pending_lines ≤ max_lines
      → Sniffed rounds max_lines p (sniff (fake_transport k) codec rounds max_lines p).1
  unfolding sniff
  sniff-Sniffed max_lines zero p within = unmoved 0 max_lines p within (inl refl)
  sniff-Sniffed max_lines (suc rounds) p within =
      let Out : Port (FakeTransport k) → Type 0 = Sniffed (suc rounds) max_lines p in
      elim (Bool-cases (ltb (length p.client.pending_lines) max_lines)) [
        | inr full ↦
            subst (λ o. Out o.1) (sym (sniff_full codec rounds max_lines p full))
              (unmoved (suc rounds) max_lines p within (inr (inl (ground arith))))
        | inl room ↦ elim (Result-cases (read_until line_terminator p.wire).0) [
          | inr (c, e) ↦
              subst (λ o. Out o.1) (sym (sniff_error codec rounds max_lines p c room e))
                (unmoved (suc rounds) max_lines p within (inr (inr (c, e))))
          | inl (raw, e) ↦
              subst (λ o. Out o.1) (sym (sniff_line codec rounds max_lines p raw room e))
                (after_line raw (ltb→lt _ _ room) e
                  (sniff-Sniffed max_lines rounds (noted codec raw p)
                    (noted_within codec max_lines p raw (ltb→lt _ _ room)))
                  (codec.is_autoprint_line raw) refl)
        ]
      ]
    where
      after_line :
          (raw : Bytes)
          → length p.client.pending_lines < max_lines
          → (read_until line_terminator p.wire).0 ≡ ok raw
          → Sniffed rounds max_lines
              (noted codec raw p)
              (sniff (fake_transport k) codec rounds max_lines (noted codec raw p)).1
          → (b : Bool) → codec.is_autoprint_line raw ≡ b
          → Sniffed
              (suc rounds)
              max_lines
              p
              (if b
                then (ok tt, noted codec raw p)
                else sniff (fake_transport k) codec rounds max_lines (noted codec raw p)).1
      after_line raw room e later true prints = printed rounds max_lines p raw room e prints
      after_line raw room e later false other = moved rounds max_lines p _ raw e other later
