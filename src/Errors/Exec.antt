-- ===== src/Errors/Exec.antt =====
-- Actions: methods that change an object and may raise. The state comes back beside an error too, since what was
-- written before a raise stays written.
use sartoriuslib.Prelude.{◌≡◌, refl, sym, ap, ◌∙◌, Bool, true, false}
use sartoriuslib.Errors.{ErrorClass}
use sartoriuslib.Errors.Result.{Result, ok, err}

abbrev pub Exec : Type 0 → Type 0 → Type 0
Exec S A = S → Result A × S

module _ {S A : Type 0} where
  abbrev pub pure : A → Exec S A
  pure a s = (ok a, s)

  abbrev pub raise : ErrorClass → Exec S A
  raise c s = (err c, s)

  abbrev pub lift : Result A → Exec S A
  lift r s = (r, s)

  abbrev pub gets : (S → A) → Exec S A
  gets f s = (ok (f s), s)

module _ {S : Type 0} where
  abbrev pub modify : (S → S) → Exec S (Unit {0})
  modify f s = (ok tt, f s)

  abbrev pub guard : Bool → ErrorClass → Exec S (Unit {0})
  guard true c s = (ok tt, s)
  guard false c s = (err c, s)

pub err≢ok : {A : Type 0} {c : ErrorClass} {a : A} → ◌≡◌ {A = Result A} (err c) (ok a) → ⊥
err≢ok h = cc

module _ {S A B : Type 0} where
  abbrev pub continue : Result A → (A → Exec S B) → Exec S B
  continue (ok a) f s = f a s
  continue (err c) f s = (err c, s)

  infixl 5 ◌>>=◌ ◌>>◌
  abbrev pub ◌>>=◌ : Exec S A → (A → Exec S B) → Exec S B
  ◌>>=◌ m f s = continue (m s).0 f (m s).1

  abbrev pub ◌>>◌ : Exec S A → Exec S B → Exec S B
  m >> n = m >>= λ _. n

  -- An action that returns went through its first part.
  pub bind-eq-ok :
      (m : Exec S A) (f : A → Exec S B) (s : S) {b : B}
      → ((m >>= f) s).0 ≡ ok b
      → (a : A) × ((m s).0 ≡ ok a) × ((f a (m s).1).0 ≡ ok b)
  bind-eq-ok m f s {b} h = of_result (m s).0 refl
    where
      of_result :
          (r : Result A) → (m s).0 ≡ r → (a : A) × ((m s).0 ≡ ok a) × ((f a (m s).1).0 ≡ ok b)
      of_result (ok a) e = (a, e, ap (λ q. (continue q f (m s).1).0) (sym e) ∙ h)
      of_result (err c) e = absurd (err≢ok (ap (λ q. (continue q f (m s).1).0) (sym e) ∙ h))
