-- ===== src/Cfa/Decimal.antt =====
-- github.com/shopspring/decimal, as far as projects/03-cfa-bonds uses it, and the laws of its sums.
-- `from_int` takes the counts of units and days, which are not negative.
use portfolio_itmo.Common.{ℕ, ◌≡◌, ◌∙◌, ap, sym, Bool}

pub record Decimals (D : Type 0) : Type 0 where
  pub zero : D
  pub add : D → D → D
  pub neg : D → D
  pub mul : D → D → D
  pub div : D → D → D
  pub round : ℕ → D → D
  pub from_int : ℕ → D
  pub less_than : D → D → Bool

-- Sums are exact.
pub record SumLaws {D : Type 0} (decimals : Decimals D) : Type 0 where
  pub add_comm : (a b : D) → decimals.add a b ≡ decimals.add b a
  pub add_assoc :
      (a b c : D) → decimals.add (decimals.add a b) c ≡ decimals.add a (decimals.add b c)
  pub add_zero : (a : D) → decimals.add a decimals.zero ≡ a
  pub add_neg : (a : D) → decimals.add a (decimals.neg a) ≡ decimals.zero

module _ {D : Type 0} (decimals : Decimals D) (laws : SumLaws decimals) where
  -- What is added to the first summand is added to the sum.
  pub add_right_comm :
      (a b c : D) → decimals.add (decimals.add a b) c ≡ decimals.add (decimals.add a c) b
  add_right_comm a b c =
      laws.add_assoc a b c ∙ ap (decimals.add a) (laws.add_comm b c) ∙ sym (laws.add_assoc a c b)

  -- A debit and a credit of one amount cancel.
  pub add-neg_cancel : (a b : D) → decimals.add (decimals.add a (decimals.neg b)) b ≡ a
  add-neg_cancel a b =
      laws.add_assoc a (decimals.neg b) b
      ∙ ap (decimals.add a) (laws.add_comm (decimals.neg b) b ∙ laws.add_neg b)
      ∙ laws.add_zero a
