-- ===== src/Cfa/Repo.antt =====
-- projects/03-cfa-bonds/internal/repo: the tables, and the statements that the settlement of a
-- trade sends.
pub mod Totals
pub mod Steps
use portfolio_itmo.Common.{
  ℕ, suc, ◌+◌, ◌-◌, ◌^◌, Bool, ◌&&◌, not, List, [], ◌∷◌, Option, none, some, ltb, ◌==◌,
  if◌then◌else◌,
}
use portfolio_itmo.Common.Database.{Database, exec}
use portfolio_itmo.Common.Effects.{Action, ◌>>=◌, ◌>>◌, pure, raise, fail_if}
use portfolio_itmo.Common.Table.{update_where, count_where, find_where, select_where, order_by}
use portfolio_itmo.Cfa.Decimal.{Decimals}
use portfolio_itmo.Cfa.Models.{
  BondIssue, Investor, Position, Trade, CouponSchedule, EventLog, TradeStatus,
}
use Prim.Native.String.{String}

pub data Error : Type 0 where
  not_found : Error
  conflict : ℕ → ℕ → Error
  sql : String → Error
  -- settlement
  coupon_frequency : ℕ → Error
  precedes_last_coupon : ℕ → ℕ → Error
  degenerate_period : ℕ → Error
  not_active : ℕ → Error
  seller_holds : ℕ → ℕ → Error
  balance_below : ℕ → Error

pub record Tables (D : Type 0) : Type 0 where
  pub issues : List (BondIssue D)
  pub investors : List (Investor D)
  pub positions : List (Position D)
  pub trades : List (Trade D)
  pub coupons : List (CouponSchedule D)
  pub events : List EventLog

abbrev pub Call : Type 0 → Type 0 → Type 0
Call D A = Action Error (Database (Tables D)) A

module _ {D : Type 0} where
  -- The row of a query for one, or `ErrNotFound`.
  abbrev pub one_of : {A : Type 0} → Option A → Call D A
  one_of none = raise not_found
  one_of (some a) = pure a

  abbrev pub is_investor : ℕ → Investor D → Bool
  is_investor id i = i.id == id

  abbrev pub is_position : ℕ → ℕ → Position D → Bool
  is_position investor issue p = p.investor_id == investor && p.issue_id == issue

  abbrev pub is_trade : ℕ → Trade D → Bool
  is_trade id t = t.id == id

  -- `IssueRepo.Get`
  unfoldable pub get_issue : ℕ → Call D (BondIssue D)
  get_issue id = do
    row ←
        exec (sql "get issue")
          (λ t. some (find_where (λ (i : BondIssue D). i.id == id) t.issues, t))
    one_of row

  -- `InvestorRepo.Get`
  unfoldable pub get_investor : ℕ → Call D (Investor D)
  get_investor id = do
    row ← exec (sql "get investor") (λ t. some (find_where (is_investor id) t.investors, t))
    one_of row

  -- `TradeRepo.Get`
  unfoldable pub get_trade : ℕ → Call D (Trade D)
  get_trade id = do
    row ← exec (sql "get trade") (λ t. some (find_where (is_trade id) t.trades, t))
    one_of row

  -- `PositionRepo.GetByInvestorAndIssue`, with no row as a result
  unfoldable pub find_position : ℕ → ℕ → Call D (Option (Position D))
  find_position investor issue =
      exec (sql "get position") λ t. some (find_where (is_position investor issue) t.positions, t)

  -- `PositionRepo.GetByInvestorAndIssue`
  unfoldable pub get_position : ℕ → ℕ → Call D (Position D)
  get_position investor issue = do row ← find_position investor issue; one_of row

  -- `CouponRepo.GetByIssue`
  unfoldable pub get_coupons : ℕ → Call D (List (CouponSchedule D))
  get_coupons issue = exec (sql "coupon schedule") λ t. some (
    order_by (λ (c : CouponSchedule D). c.sequence_num)
        (select_where (λ (c : CouponSchedule D). c.issue_id == issue) t.coupons),
    t,
  )

  abbrev pub known_investor : ℕ → Tables D → Bool
  known_investor id t = ltb 0 (count_where (is_investor id) t.investors)

  abbrev pub known_issue : ℕ → Tables D → Bool
  known_issue id t = ltb 0 (count_where (λ (i : BondIssue D). i.id == id) t.issues)

  -- The row of an `INSERT … ON CONFLICT (investor_id, issue_id) DO UPDATE`
  abbrev pub put_position : Position D → List (Position D) → List (Position D)
  put_position p rows =
      if ltb 0 (count_where (is_position p.investor_id p.issue_id) rows)
      then update_where (is_position p.investor_id p.issue_id)
          (λ r. record r { quantity = p.quantity; avg_price = p.avg_price }) rows
      else p ∷ rows

  -- `PositionRepo.Upsert`. A quantity of 2 ^ 63 or more stands for the negative number that it
  -- wraps to as an int64, which the table refuses, as it does an unknown investor or issue.
  unfoldable pub upsert_position : Position D → Call D (Unit {0})
  upsert_position p = exec (sql "upsert position") λ t.
      if ltb p.quantity (2 ^ 63) && known_investor p.investor_id t && known_issue p.issue_id t
      then some (tt, record t { positions = put_position p t.positions })
      else none

  -- `EventRepo.Append`
  unfoldable pub append_event : EventLog → Call D (Unit {0})
  append_event e = exec (sql "append event") λ t. some (tt, record t { events = e ∷ t.events })

  -- `TradeRepo.UpdateStatus`; the reason of a failure is left out.
  unfoldable pub update_trade : ℕ → TradeStatus → D → D → Call D (Unit {0})
  update_trade id status accrued total = do
    affected ← exec (sql "update trade") λ t. some (
      count_where (is_trade id) t.trades,
      record t {
        trades =
            update_where (is_trade id)
              (λ (r : Trade D). record r {
                status = status;
                accrued_interest = accrued;
                total_amount = total;
              })
              t.trades;
      },
    )
    fail_if (affected == 0) not_found

module _ {D : Type 0} (decimals : Decimals D) where
  abbrev pub add_balance : D → Investor D → Investor D
  add_balance delta i = record i { balance = decimals.add i.balance delta }

  -- `InvestorRepo.UpdateBalanceTx`
  unfoldable pub update_balance : ℕ → D → Call D (Unit {0})
  update_balance id delta = do
    affected ← exec (sql "update balance") λ t. some (
      count_where (is_investor id) t.investors,
      record t { investors = update_where (is_investor id) (add_balance delta) t.investors },
    )
    fail_if (affected == 0) not_found

  -- The buyer's position after a purchase.
  abbrev pub bought : ℕ → D → Position D → Position D
  bought quantity price p = record p {
    quantity = p.quantity + quantity;
    avg_price = decimals.round 8 (
        decimals.div
          (decimals.add (decimals.mul p.avg_price (decimals.from_int p.quantity))
            (decimals.mul price (decimals.from_int quantity)))
          (decimals.from_int (p.quantity + quantity)));
  }

  abbrev pub no_position : ℕ → ℕ → Position D
  no_position investor issue = record {
    investor_id = investor;
    issue_id = issue;
    quantity = 0;
    avg_price = decimals.zero;
  }

  abbrev pub or_empty : ℕ → ℕ → Option (Position D) → Position D
  or_empty investor issue none = no_position investor issue
  or_empty investor issue (some p) = p

  -- `PositionRepo.Transfer`
  unfoldable pub transfer : ℕ → ℕ → ℕ → ℕ → D → Call D (Unit {0})
  transfer seller_id buyer_id issue_id quantity price = do
    seller ← get_position seller_id issue_id
    fail_if (ltb seller.quantity quantity) (conflict seller.quantity quantity)
    upsert_position (record seller { quantity = seller.quantity - quantity })
    row ← find_position buyer_id issue_id
    upsert_position (bought quantity price (or_empty buyer_id issue_id row))
