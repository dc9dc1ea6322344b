-- ===== src/Common/Results.antt =====
-- Go's pair of a value and an error: `ok` is the value with a nil error, `err` any other error.
use mathlib.Core.Path.{◌≡◌, refl}
use mathlib.Core.Logic.{◌≢◌, ◌⊎◌, inl, inr}
use mathlib.Core.Bool.{Bool, true, false}
use mathlib.Core.Option.{Option, none, some}
use portfolio_itmo.Common.Tests.{if◌then◌else◌}

module _ {ℓ} (E : Type ℓ) where
  pub data Result {κ} (A : Type κ) : Type (ℓ ⊔ κ) where
    ok : A → Result A
    err : E → Result A

module _ {ℓ} {E : Type ℓ} where
  infixl 5 ◌>>=◌
  abbrev pub ◌>>=◌ {κ μ} : {A : Type κ} {B : Type μ} → Result E A → (A → Result E B) → Result E B
  Result.ok a >>= f = f a
  Result.err e >>= f = Result.err e

  infixl 5 ◌>>◌
  abbrev pub ◌>>◌ {κ} : {B : Type κ} → Result E (Unit {0}) → Result E B → Result E B
  m >> k = m >>= λ _. k

  -- `if bad { return err }`
  abbrev pub raise_if : Bool → E → Result E (Unit {0})
  raise_if true e = Result.err e
  raise_if false e = Result.ok tt

  pub >>=-eq-ok {κ μ} :
      {A : Type κ} {B : Type μ} (m : Result E A) (f : A → Result E B) {b : B}
      → (m >>= f) ≡ Result.ok b
      → (a : A) × (m ≡ Result.ok a) × (f a ≡ Result.ok b)
  >>=-eq-ok (Result.ok a) f h = (a, refl, h)
  >>=-eq-ok (Result.err e) f h = cc

  pub >>=-eq-err {κ μ} :
      {A : Type κ} {B : Type μ} (m : Result E A) (f : A → Result E B) {e : E}
      → (m >>= f) ≡ Result.err e
      → (m ≡ Result.err e) ⊎ ((a : A) × (m ≡ Result.ok a) × (f a ≡ Result.err e))
  >>=-eq-err (Result.ok a) f h = inr (a, refl, h)
  >>=-eq-err (Result.err c) f h = inl (cc)

  -- Two ways to go on that agree on every result.
  pub >>=-Cong {κ μ} :
      {A : Type κ} {B : Type μ} (m : Result E A) (f g : A → Result E B)
      → ((a : A) → m ≡ Result.ok a → f a ≡ g a)
      → (m >>= f) ≡ (m >>= g)
  >>=-Cong (Result.ok a) f g same = same a refl
  >>=-Cong (Result.err e) f g same = refl

  -- An error that neither part returns.
  pub >>=-ne-err {κ μ} :
      {A : Type κ} {B : Type μ} {e : E} (m : Result E A) (f : A → Result E B)
      → m ≢ Result.err e
      → ((a : A) → m ≡ Result.ok a → f a ≢ Result.err e)
      → (m >>= f) ≢ Result.err e
  >>=-ne-err (Result.ok a) f first later = later a refl
  >>=-ne-err (Result.err c) f first later = λ h. first (cc)

  -- The error for a value that is missing.
  abbrev pub or_err {κ} : {A : Type κ} → Option A → E → Result E A
  or_err none e = Result.err e
  or_err (some a) e = Result.ok a

  -- What holds of a value, when there is one.
  abbrev pub Returns {κ μ} : {A : Type κ} → (A → Type μ) → Result E A → Type μ
  Returns P (Result.ok a) = P a
  Returns P (Result.err e) = Unit {μ}

  pub >>=-Returns {κ μ ν ξ} :
      {A : Type κ} {B : Type μ} (Q : A → Type ν) (P : B → Type ξ) (m : Result E A)
      (f : A → Result E B)
      → Returns Q m
      → ((a : A) → Q a → Returns P (f a))
      → Returns P (m >>= f)
  >>=-Returns Q P (Result.ok a) f first later = later a first
  >>=-Returns Q P (Result.err e) f first later = tt

  pub if-Returns {κ μ} :
      {A : Type κ} (P : A → Type μ) (b : Bool) (x y : Result E A)
      → Returns P x
      → Returns P y
      → Returns P (if b then x else y)
  if-Returns P true x y hx hy = hx
  if-Returns P false x y hx hy = hy

  pub of_Returns {κ μ} :
      {A : Type κ} (P : A → Type μ) (m : Result E A) (a : A) → Returns P m → m ≡ Result.ok a → P a
  of_Returns P (Result.ok b) a h e = let same_value : b ≡ a = cc in rw (← same_value) h
  of_Returns P (Result.err c) a h e = absurd cc

  pub or_err-Returns {κ} :
      {A : Type κ} (o : Option A) (e : E) → Returns (λ a. o ≡ some a) (or_err o e)
  or_err-Returns none e = tt
  or_err-Returns (some a) e = refl

  pub Returns-map {κ μ ν} :
      {A : Type κ} (P : A → Type μ) (Q : A → Type ν) (m : Result E A)
      → Returns P m
      → ((a : A) → P a → Q a)
      → Returns Q m
  Returns-map P Q (Result.ok a) h f = f a h
  Returns-map P Q (Result.err e) h f = tt

  -- A first part of which nothing is said.
  pub after-Returns {κ μ ν} :
      {A : Type κ} {B : Type μ} (P : B → Type ν) (m : Result E A) (f : A → Result E B)
      → ((a : A) → Returns P (f a))
      → Returns P (m >>= f)
  after-Returns P (Result.ok a) f later = later a
  after-Returns P (Result.err e) f later = tt
