-- ===== src/Cfa/Settlement/Reads.antt =====
-- What the reads of a settlement keep: any property of the tables.
use portfolio_itmo.Common.{
  ℕ, ◌≡◌, refl, sym, arith, Bool, true, false, not, List, Option, none, some, ltb, ◌==◌,
  if◌then◌else◌, Result, ok, err,
}
use portfolio_itmo.Common
use portfolio_itmo.Common.Database.{Database, exec}
use portfolio_itmo.Common.Database.Keeps.{Of, exec-Keeps}
use portfolio_itmo.Common.Effects.{lift}
use portfolio_itmo.Common.Effects.Ensures.{
  Keeps, Outcome-of, kept, >>=-Ensures, pure-Ensures, raise-Ensures, fail_if-Keeps,
}
use mathlib.Core.Path.{subst}
use portfolio_itmo.Cfa.Decimal.{Decimals}
use portfolio_itmo.Cfa.Models.{BondIssue, Trade, is_active}
use portfolio_itmo.Cfa.Repo.{
  Tables, Error, not_found, not_active, seller_holds, balance_below, one_of, get_issue,
  get_investor, get_trade, get_position, find_position, get_coupons,
}
use portfolio_itmo.Cfa.Settlement.{sums_of, amounts, last_coupon_date, calc_accrued_interest}

one_of-Keeps : {D A : Type 0} (P : Tables D → Type 0) (row : Option A) → Keeps (Of P) (one_of row)
one_of-Keeps P none = raise-Ensures not_found
one_of-Keeps P (some a) = pure-Ensures tt

read-Keeps :
    {D A : Type 0} (P : Tables D → Type 0) (e : Error) (query : Tables D → A)
    → Keeps (Of P) (exec e (λ t. some (query t, t)))
read-Keeps P e query = exec-Keeps P e _ (λ t a t' p h. let same : t ≡ t' = cc in subst P same p)

module _ {D : Type 0} (P : Tables D → Type 0) where
  pub get_issue-Keeps : (id : ℕ) → Keeps (Of P) (get_issue id)
  unfolding get_issue
  get_issue-Keeps id = >>=-Ensures (read-Keeps _ _ _) (λ row v. one_of-Keeps _ row)

  pub get_investor-Keeps : (id : ℕ) → Keeps (Of P) (get_investor id)
  unfolding get_investor
  get_investor-Keeps id = >>=-Ensures (read-Keeps _ _ _) (λ row v. one_of-Keeps _ row)

  pub get_trade-Keeps : (id : ℕ) → Keeps (Of P) (get_trade id)
  unfolding get_trade
  get_trade-Keeps id = >>=-Ensures (read-Keeps _ _ _) (λ row v. one_of-Keeps _ row)

  pub get_position-Keeps : (investor issue : ℕ) → Keeps (Of P) (get_position investor issue)
  unfolding get_position find_position
  get_position-Keeps investor issue = >>=-Ensures (read-Keeps _ _ _) (λ row v. one_of-Keeps _ row)

  pub get_coupons-Keeps : (issue : ℕ) → Keeps (Of P) (get_coupons {D = D} issue)
  unfolding get_coupons
  get_coupons-Keeps issue = read-Keeps _ _ _

  last_coupon_date_same :
      (now : ℕ) (issue : BondIssue D) (db : Database (Tables D))
      → (last_coupon_date now issue db).1 ≡ (get_coupons issue.id db).1
  unfolding last_coupon_date
  last_coupon_date_same now issue db = ground arith

  pub last_coupon_date-Keeps :
      (now : ℕ) (issue : BondIssue D) → Keeps (Of P) (last_coupon_date now issue)
  last_coupon_date-Keeps now issue = record {
    holds = λ db i.
        Outcome-of (Of P) (λ _. Unit {0}) (last_coupon_date now issue db)
          (subst (Of P) (sym (last_coupon_date_same now issue db))
            (kept (get_coupons-Keeps issue.id) db i))
          (λ a e. tt);
  }

  pub lift-Keeps : {A : Type 0} (r : Result Error A) → Keeps (Of P) (lift r)
  lift-Keeps (Common.ok a) = pure-Ensures tt
  lift-Keeps (Common.err e) = raise-Ensures e

module _ {D : Type 0} (decimals : Decimals D) (P : Tables D → Type 0) where
  pub amounts-Keeps :
      (now later : ℕ) (trade : Trade D) → Keeps (Of P) (amounts decimals now later trade)
  unfolding amounts
  amounts-Keeps now later trade = >>=-Ensures (get_issue-Keeps P trade.issue_id) λ issue u1.
      >>=-Ensures (fail_if-Keeps (not (is_active issue.status)) (not_active issue.id)) λ u2 u3.
        >>=-Ensures (get_position-Keeps P trade.seller_id trade.issue_id) λ pos u4.
          >>=-Ensures
            (fail_if-Keeps (ltb pos.quantity trade.quantity)
              (seller_holds pos.quantity trade.quantity))
            λ u5 u6. >>=-Ensures (last_coupon_date-Keeps P now issue) λ last u7.
              >>=-Ensures
                (lift-Keeps P (
                  calc_accrued_interest decimals issue.nominal issue.coupon_rate
                    issue.coupon_frequency last later))
                λ ai u8. >>=-Ensures (get_investor-Keeps P trade.buyer_id) λ buyer u9.
                  >>=-Ensures
                    (fail_if-Keeps (decimals.less_than buyer.balance (sums_of decimals trade ai).1)
                      (balance_below buyer.id))
                    λ u10 u11. pure-Ensures {a = sums_of decimals trade ai} tt
