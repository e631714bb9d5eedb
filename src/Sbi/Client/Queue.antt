-- ===== src/Sbi/Client/Queue.antt =====
-- The queue of pending lines: no byte is lost and no order is changed on its way through it.
use sartoriuslib.Prelude.{
  ◌-◌, ◌≡◌, refl, sym, ap, ◌∙◌, some, List, [], ◌∷◌, ◌++◌, append_assoc, arith, true, length, take,
  drop, Bool-cases, take-append-drop, inl, inr,
}
use sartoriuslib.Prelude.Bytes.{Bytes, bytes_eq, bytes_eq_iff}
use sartoriuslib.Errors.Result.{ok}
use sartoriuslib.Transport.Fake.{join}
use sartoriuslib.Sbi.Lines.{newline, ends_with, split_lines}
use sartoriuslib.Sbi.Lines.Split.{split_lines_sound, split_lines_total}
use sartoriuslib.Sbi.Client.{SbiClient, queue_pending_front, mark_autoprint_active}

join-append : (xs ys : List Bytes) → join (xs ++ ys) ≡ join xs ++ join ys
join-append [] ys = refl
join-append (x ∷ xs) ys =
    ap (λ t. x ++ t) (join-append xs ys) ∙ sym (append_assoc x (join xs) (join ys))

-- A payload that ends in a newline is split.
ends_with_split :
    (raw : Bytes)
    → ends_with raw (newline ∷ []) ≡ true
    → (lines : List Bytes) × (split_lines raw ≡ ok lines)
ends_with_split raw h =
    let last : bytes_eq (drop (length raw - 1) raw) (newline ∷ []) ≡ true = ground arith in
    let whole : raw ≡ take (length raw - 1) raw ++ newline ∷ [] =
      sym (take-append-drop (length raw - 1) raw)
      ∙ ap (λ t. take (length raw - 1) raw ++ t)
          ((bytes_eq_iff (drop (length raw - 1) raw) (newline ∷ [])).0 last) in
    let (lines, split) = split_lines_total (take (length raw - 1) raw) in
    (lines, ap split_lines whole ∙ split)

-- Whatever bytes are handed back, they stand before the bytes that wait, none is lost, and the client knows that
-- autoprint is on.
pub join-mark_autoprint_active :
    (raw : Bytes) (client : SbiClient)
    → (join (mark_autoprint_active (some raw) client).pending_lines
        ≡ raw ++ join client.pending_lines)
      × ((mark_autoprint_active (some raw) client).autoprint_active ≡ true)
unfolding mark_autoprint_active queue_pending_front
join-mark_autoprint_active [] client = (refl, refl)
join-mark_autoprint_active (b ∷ raw) client =
    elim (Bool-cases (ends_with (b ∷ raw) (newline ∷ []))) [
      | inl e ↦
          let (lines, split) = ends_with_split (b ∷ raw) e in
          rw (e, split)
            (
              join-append lines client.pending_lines
                  ∙ ap (λ t. t ++ join client.pending_lines)
                      (split_lines_sound (b ∷ raw) lines split).0,
              refl,
            )
      | inr e ↦ rw e (refl, refl)
    ]
