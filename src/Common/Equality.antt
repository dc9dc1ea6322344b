-- ===== src/Common/Equality.antt =====
-- Decidable equality as a Boolean test, for the keys of maps.
use portfolio_itmo.Common.Tests.{◌==◌ as nat_beq, ==_iff}
use Prim.Native.Nat.{ℕ}
use Prim.Native.String.{String}
use mathlib.Core.Path.{◌≡◌, refl}
use mathlib.Core.Logic.{◌↔◌, ◌≢◌}
use mathlib.Core.Bool.{Bool, true, false, ◌&&◌}
use mathlib.Core.List.{List, [], ◌∷◌}
use native.Mathlib.Omega.{arith}
use text.Mathlib.Text.{◌==◌ as str_beq}
use text.Mathlib.TextEquality.{eq_iff}

pub record Eq {ℓ} (A : Type ℓ) : Type ℓ where
  pub beq : A → A → Bool
  pub beq_iff : (a b : A) → (beq a b ≡ true) ↔ (a ≡ b)

abbrev pub same {ℓ} : {A : Type ℓ} ⦃e : Eq A⦄ → A → A → Bool
same ⦃e⦄ = e.beq

instance abbrev pub nat_eq : Eq ℕ
nat_eq = record { beq = nat_beq; beq_iff = ==_iff }

instance abbrev pub string_eq : Eq String
string_eq = record { beq = str_beq; beq_iff = eq_iff }

module _ {ℓ} {A : Type ℓ} ⦃e : Eq A⦄ where
  pub same_refl : (k : A) → same k k ≡ true
  same_refl k = (e.beq_iff k k).1 refl

  pub same_ne : {j k : A} → j ≢ k → same j k ≡ false
  same_ne {j} {k} h = ground (arith, e.beq_iff j k)

  pub eq_of_same : {j k : A} → same j k ≡ true → j ≡ k
  eq_of_same {j} {k} h = (e.beq_iff j k).0 h

module _ {ℓ} {A : Type ℓ} ⦃e : Eq A⦄ where
  unfoldable pub list_beq : List A → List A → Bool
  list_beq [] [] = true
  list_beq (a ∷ as') (b ∷ bs) = same a b && list_beq as' bs
  list_beq _ _ = false

  pub list_beq_iff : (as' bs : List A) → (list_beq as' bs ≡ true) ↔ (as' ≡ bs)
  unfolding list_beq
  list_beq_iff [] [] = (λ h. refl, λ h. refl)
  list_beq_iff [] (b ∷ bs) = (λ h. absurd cc, λ h. absurd cc)
  list_beq_iff (a ∷ as') [] = (λ h. absurd cc, λ h. absurd cc)
  list_beq_iff (a ∷ as') (b ∷ bs) = (
    λ h. ground (arith, h, e.beq_iff a b, list_beq_iff as' bs),
    λ h. ground (arith, h, e.beq_iff a b, list_beq_iff as' bs),
  )

  -- Strings as lists of bytes.
  instance abbrev pub list_eq : Eq (List A)
  list_eq = record { beq = list_beq; beq_iff = list_beq_iff }
