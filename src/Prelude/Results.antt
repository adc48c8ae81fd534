-- ===== src/Prelude/Results.antt =====
-- Exceptions as values. Each constructor is an exception class of the source or of its standard
-- library, with what() where the class carries a message.
use mathlib.Core.Path.{◌≡◌, refl}
use mathlib.Core.Logic.{◌⊎◌, inl, inr}
use mathlib.Core.Bool.{Bool, true, false}
use receipt_scanner.Prelude.Bytes.{Text}

pub data Exception : Type 0 where
  validation_error not_found_error conflict_error : Text → Exception
  receipt_not_found_error too_many_images_error duplicate_email_error : Exception
  image_decode_error scan_error runtime_error logic_error : Text → Exception
  invalid_argument out_of_range json_type_error : Exception

pub data Result {ℓ} (A : Type ℓ) : Type ℓ where
  ok : A → Result A
  err : Exception → Result A

-- A step that throws ends the body.
infixl 5 ◌>>=◌
abbrev pub ◌>>=◌ {ℓ κ} : {A : Type ℓ} {B : Type κ} → Result A → (A → Result B) → Result B
err thrown >>= body = err thrown
ok value >>= body = body value

-- `if (c) throw e;`
abbrev pub throw_if : Bool → Exception → Result (Unit {0})
throw_if true e = err e
throw_if false e = ok tt

-- A step that is run for its checks alone.
infixl 5 ◌>>◌
abbrev pub ◌>>◌ {ℓ} : {B : Type ℓ} → Result (Unit {0}) → Result B → Result B
check >> body = check >>= λ _. body

-- The steps of a body that did not throw.
module _ {A B : Type 0} where
  pub >>=-eq-ok :
      (step : Result A) (body : A → Result B) {out : B} (returned : (step >>= body) ≡ ok out)
      → (value : A) × (step ≡ ok value) × (body value ≡ ok out)
  >>=-eq-ok (err thrown) body returned = cc
  >>=-eq-ok (ok value) body returned = (value, refl, returned)

pub >>-eq-ok :
    {B : Type 0} (m : Result (Unit {0})) (k : Result B) {b : B}
    → (m >> k) ≡ ok b
    → (m ≡ ok tt) × (k ≡ ok b)
>>-eq-ok (ok tt) k h = (refl, h)
>>-eq-ok (err e) k h = cc

pub throw_if-eq-ok : (c : Bool) (e : Exception) → throw_if c e ≡ ok tt → c ≡ false
throw_if-eq-ok true e h = cc
throw_if-eq-ok false e h = refl

pub Result-cases :
    {A : Type 0} (m : Result A) → ((a : A) × (m ≡ ok a)) ⊎ ((e : Exception) × (m ≡ err e))
Result-cases (ok a) = inl (a, refl)
Result-cases (err e) = inr (e, refl)
