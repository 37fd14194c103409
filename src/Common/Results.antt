-- ===== src/Common/Results.antt =====
-- Rust's `Result`, with `?` as the bind of a `do` block.
use mathlib.Core.Path.{◌≡◌, refl}
use mathlib.Core.Bool.{Bool, true, false}
use i_phone_loadly.Common.Tests.{if◌then◌else◌}

pub data Result {ℓ} (E : Type 0) (A : Type ℓ) : Type ℓ where
  err : E → Result E A
  ok : A → Result E A

module _ {ℓ κ} {E : Type 0} {A : Type ℓ} {B : Type κ} where
  infixl 5 ◌>>=◌
  infixl 5 ◌>>◌
  -- `?` on the first result
  abbrev pub ◌>>=◌ : Result E A → (A → Result E B) → Result E B
  err e >>= next = err e
  ok value >>= next = next value

  -- … where its value is not used
  abbrev pub ◌>>◌ : Result E A → Result E B → Result E B
  first >> second = first >>= λ _. second

-- Inversions of a success.
module _ {ℓ} {E : Type 0} {A : Type ℓ} where
  pub ok-injective : {x y : A} → ◌≡◌ {A = Result E A} (ok x) (ok y) → x ≡ y
  ok-injective h = cc

  pub guarded-eq-ok :
      (b : Bool) (e : E) (m : Result E A) {a : A} → (if b then err e else m) ≡ ok a → m ≡ ok a
  guarded-eq-ok true e m h = cc
  guarded-eq-ok false e m h = h

  pub checked-eq-ok :
      (b : Bool) (e : E) (x : A) {a : A} → (if b then ok x else err e) ≡ ok a → x ≡ a
  checked-eq-ok true e x h = cc
  checked-eq-ok false e x h = cc

pub >>=-eq-ok {ℓ κ} :
    {E : Type 0} {A : Type ℓ} {B : Type κ} (first : Result E A) (next : A → Result E B) {done : B}
    → (first >>= next) ≡ ok done
    → (value : A) × (first ≡ ok value) × (next value ≡ ok done)
>>=-eq-ok (err e) next h = cc
>>=-eq-ok (ok value) next h = (value, refl, h)

-- What holds of the value of a result, if it has one.
abbrev pub Holds {ℓ κ} : {E : Type 0} {A : Type ℓ} → (A → Type κ) → Result E A → Type κ
Holds P (err e) = Unit
Holds P (ok value) = P value

pub Holds-bind {ℓ κ μ} :
    {E : Type 0} {A : Type ℓ} {B : Type κ} (P : B → Type μ) (first : Result E A)
    (next : A → Result E B)
    → ((value : A) → first ≡ ok value → Holds P (next value))
    → Holds P (first >>= next)
Holds-bind P (err e) next h = tt
Holds-bind P (ok value) next h = h value refl
