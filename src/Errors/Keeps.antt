-- ===== src/Errors/Keeps.antt =====
-- What a sequence of actions keeps of the state, whether it returns or raises.
use sartoriuslib.Prelude.{◌≡◌, refl, sym, subst, Bool, true, false, if◌then◌else◌}
use sartoriuslib.Errors.{ErrorClass}
use sartoriuslib.Errors.Result.{Result, ok, err}
use sartoriuslib.Errors.Exec.{Exec, continue, guard, ◌>>◌}

-- What holds of both branches holds of a test.
pub if_both :
    {X : Type 0} → (Q : X → Type 0) (b : Bool) (x y : X) → Q x → Q y → Q (if b then x else y)
if_both Q true x y h l = h
if_both Q false x y h l = l

-- What holds of the state between two actions, and is kept by the second, holds after both.
pub keeps_continue :
    {S A B : Type 0}
    → (P : S → Type 0) (r : Result A) (f : A → Exec S B) (s : S) → P s
    → ((a : A) → P (f a s).1)
    → P (continue r f s).1
keeps_continue P (ok a) f s h later = later a
keeps_continue P (err c) f s h later = h

pub keeps_guard :
    {S : Type 0} → (P : S → Type 0) (b : Bool) (c : ErrorClass) (s : S) → P s → P (guard b c s).1
keeps_guard P true c s h = h
keeps_guard P false c s h = h

pub keeps_if :
    {S A : Type 0}
    → (P : S → Type 0) (b : Bool) (m n : Exec S A) (s : S) → P (m s).1
    → P (n s).1
    → P ((if b then m else n) s).1
keeps_if P true m n s h l = h
keeps_if P false m n s h l = l

-- What holds of an outcome, its result with its state.
module _ {S A B : Type 0} (Q : Result B × S → Type 0) where
  pub holds_continue :
      (r : Result A) (f : A → Exec S B) (s : S)
      → ((c : ErrorClass) → Q (err c, s))
      → ((a : A) → r ≡ ok a → Q (f a s))
      → Q (continue r f s)
  holds_continue (ok a) f s raised later = later a refl
  holds_continue (err c) f s raised later = raised c

  -- A call whose outcome is known.
  pub holds_known :
      {x y : Result A × S} (f : A → Exec S B)
      → x ≡ y
      → Q (continue y.0 f y.1)
      → Q (continue x.0 f x.1)
  holds_known f e h = subst (λ o. Q (continue o.0 f o.1)) (sym e) h

module _ {S B : Type 0} (Q : Result B × S → Type 0) where
  pub holds_guard :
      (b : Bool) (c : ErrorClass) (n : Exec S B) (s : S)
      → Q (err c, s)
      → (b ≡ true → Q (n s))
      → Q ((guard b c >> n) s)
  holds_guard true c n s refused later = later refl
  holds_guard false c n s refused later = refused
