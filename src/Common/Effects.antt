-- ===== src/Common/Effects.antt =====
-- Calls on a shared state that may return an error. What was written before the error stays.
pub mod Ensures
use portfolio_itmo.Common.Results.{Result}
use portfolio_itmo.Common.Results
use mathlib.Core.Bool.{Bool, true, false}

abbrev pub Action : Type 0 → Type 0 → Type 0 → Type 0
Action E S A = S → Result E A × S

module _ {E S : Type 0} where
  infixl 5 ◌>>=◌
  abbrev pub ◌>>=◌ : {A B : Type 0} → Action E S A → (A → Action E S B) → Action E S B
  ◌>>=◌ m f s =
      let (r, s') = m s in elim r [ Results.ok a ↦ f a s' | Results.err e ↦ (Results.err e, s') ]

  infixl 5 ◌>>◌
  abbrev pub ◌>>◌ : {A B : Type 0} → Action E S A → Action E S B → Action E S B
  m >> k = m >>= λ _. k

  abbrev pub pure : {A : Type 0} → A → Action E S A
  pure a s = (Results.ok a, s)

  abbrev pub raise : {A : Type 0} → E → Action E S A
  raise e s = (Results.err e, s)

  abbrev pub gets : {A : Type 0} → (S → A) → Action E S A
  gets f s = (Results.ok (f s), s)

  abbrev pub modify : (S → S) → Action E S (Unit {0})
  modify f s = (Results.ok tt, f s)

  abbrev pub fail_if : Bool → E → Action E S (Unit {0})
  fail_if true e s = (Results.err e, s)
  fail_if false e s = (Results.ok tt, s)

  -- The error of a call in the middle of a function that goes on regardless.
  abbrev pub ignore : {A : Type 0} → Action E S A → Action E S (Unit {0})
  ignore m s = (Results.ok tt, (m s).1)

  abbrev pub lift : {A : Type 0} → Result E A → Action E S A
  lift r s = (r, s)
