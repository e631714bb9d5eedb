-- ===== src/Errors/Result.antt =====
-- A call that may raise returns a `Result`; a method that also changes an object is an action
-- `Exec S`, whose state comes back beside the error too.
use sartoriuslib.Prelude.{◌≡◌, refl, ◌⊎◌, inl, inr, Bool, true, false}
use sartoriuslib.Errors.{ErrorClass}

pub data Result {ℓ} (A : Type ℓ) : Type ℓ where
  ok : A → Result A
  err : ErrorClass → Result A

-- The next call takes what the first returned; an error ends the chain.
infixl 5 ◌>>=◌ ◌>>◌
abbrev pub ◌>>=◌ {ℓ κ} : {X : Type ℓ} {Y : Type κ} → Result X → (X → Result Y) → Result Y
ok x >>= next = next x
err raised >>= next = err raised

abbrev pub ◌>>◌ {ℓ} : {Y : Type ℓ} → Result (Unit {0}) → Result Y → Result Y
check >> after = check >>= λ _. after

-- `if not b: raise e`
abbrev pub require : Bool → ErrorClass → Result (Unit {0})
require true c = ok tt
require false c = err c

-- Whether a call returned.
abbrev pub is_ok {ℓ} : {A : Type ℓ} → Result A → Bool
is_ok (ok a) = true
is_ok (err c) = false

-- A chain that returns has passed its first call.
pub >>=-eq-ok {ℓ κ} :
    {X : Type ℓ} {Y : Type κ} (first : Result X) (next : X → Result Y) {out : Y}
    → (first >>= next) ≡ ok out
    → (x : X) × (first ≡ ok x) × (next x ≡ ok out)
>>=-eq-ok (ok x) next returned = (x, refl, returned)
>>=-eq-ok (err raised) next returned = cc

pub Result-cases {ℓ} :
    {A : Type ℓ} (r : Result A) → ((a : A) × (r ≡ ok a)) ⊎ ((c : ErrorClass) × (r ≡ err c))
Result-cases (ok a) = inl (a, refl)
Result-cases (err c) = inr (c, refl)
