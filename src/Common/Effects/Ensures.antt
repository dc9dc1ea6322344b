-- ===== src/Common/Effects/Ensures.antt =====
-- What a call keeps of the state, and what it promises of its result: a property of sequences of
-- calls from those of the calls.
use portfolio_itmo.Common.Results.{Result}
use portfolio_itmo.Common.Results
use portfolio_itmo.Common.Effects.{Action, ◌>>=◌, pure, raise, gets, modify, fail_if, ignore}
use mathlib.Core.Path.{◌≡◌, refl}
use mathlib.Core.Bool.{Bool, true, false}

module _ {E S : Type 0} where
  abbrev pub Outcome : {A : Type 0} → (S → Type 0) → (A → Type 0) → Result E A × S → Type 0
  Outcome I Q (Results.ok a, s) = I s × Q a
  Outcome I Q (Results.err e, s) = I s

-- From a state with `I`, the call leaves one with `I`, and a result with `Q`, if any.
pub record Ensures {E S A : Type 0} (I : S → Type 0) (Q : A → Type 0) (call : Action E S A)
    : Type 0 where
  pub holds : (s : S) → I s → Outcome I Q (call s)

abbrev pub Keeps : {E S A : Type 0} → (S → Type 0) → Action E S A → Type 0
Keeps I call = Ensures I (λ _. Unit {0}) call

module _ {E S : Type 0} (I : S → Type 0) {A : Type 0} (Q : A → Type 0) where
  outcome_kept : (out : Result E A × S) → Outcome I Q out → I out.1
  outcome_kept (Results.ok a, s) h = h.0
  outcome_kept (Results.err e, s) h = h

  pub Outcome-of :
      (out : Result E A × S) → I out.1 → ((a : A) → out.0 ≡ Results.ok a → Q a) → Outcome I Q out
  Outcome-of (Results.ok a, s) i q = (i, q a refl)
  Outcome-of (Results.err e, s) i q = i

module _ {E S : Type 0} {I : S → Type 0} where
  pub kept :
      {A : Type 0} {Q : A → Type 0} {call : Action E S A}
      → Ensures I Q call
      → (s : S) → I s
      → I (call s).1
  kept {Q} {call} h s i = outcome_kept I Q (call s) (h.holds s i)

  after-Outcome :
      {A B : Type 0} {Q : A → Type 0} {R : B → Type 0} (f : A → Action E S B) (out : Result E A × S)
      → ((a : A) → Q a → Ensures I R (f a))
      → Outcome I Q out
      → Outcome I R (◌>>=◌ (λ (s : S). out) f out.1)
  after-Outcome f (Results.ok a, s) k h = (k a h.1).holds s h.0
  after-Outcome f (Results.err e, s) k h = h

  pub >>=-Ensures :
      {A B : Type 0} {Q : A → Type 0} {R : B → Type 0} {m : Action E S A} {f : A → Action E S B}
      → Ensures I Q m
      → ((a : A) → Q a → Ensures I R (f a))
      → Ensures I R (m >>= f)
  >>=-Ensures {Q} {R} {m} {f} h k = record {
    holds = λ s i. after-Outcome {Q = Q} {R = R} f (m s) k (h.holds s i);
  }

  pub pure-Ensures : {A : Type 0} {Q : A → Type 0} {a : A} → Q a → Ensures I Q (pure {E = E} a)
  pure-Ensures q = record { holds = λ s i. (i, q) }

  pub raise-Ensures : {A : Type 0} {Q : A → Type 0} (e : E) → Ensures I Q (raise {A = A} e)
  raise-Ensures e = record { holds = λ s i. i }

  pub gets-Keeps : {A : Type 0} (g : S → A) → Keeps I (gets {E = E} g)
  gets-Keeps g = record { holds = λ s i. (i, tt) }

  pub modify-Keeps :
      (change : S → S) → ((s : S) → I s → I (change s)) → Keeps I (modify {E = E} change)
  modify-Keeps change k = record { holds = λ s i. (k s i, tt) }

  pub fail_if-Ensures : (test : Bool) (e : E) → Ensures I (λ _. test ≡ false) (fail_if test e)
  fail_if-Ensures true e = record { holds = λ s i. i }
  fail_if-Ensures false e = record { holds = λ s i. (i, refl) }

  pub ignore-Keeps :
      {A : Type 0} {Q : A → Type 0} {call : Action E S A} → Ensures I Q call → Keeps I (ignore call)
  ignore-Keeps {Q} h = record { holds = λ s i. (kept {Q = Q} h s i, tt) }

  pub fail_if-Keeps : (test : Bool) (e : E) → Keeps I (fail_if test e)
  fail_if-Keeps true e = record { holds = λ s i. i }
  fail_if-Keeps false e = record { holds = λ s i. (i, tt) }
