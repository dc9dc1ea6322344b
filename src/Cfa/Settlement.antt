-- ===== src/Cfa/Settlement.antt =====
-- projects/03-cfa-bonds/internal/settlement: accrued interest, and the settlement of a trade. The
-- clock is read twice, first where the last coupon is looked for. Caches and Kafka, whose failures
-- are only logged, are left out, as are the texts of reasons and payloads. Amounts have 8 decimals at
-- most, so that the columns hold them exactly; an amount too large for its column is a failed
-- statement.
pub mod Conservation
pub mod Reads
pub mod Books
pub mod Effect
use portfolio_itmo.Common.{
  ℕ, ◌-◌, ◌/◌, Bool, true, false, ◌&&◌, not, List, [], ◌∷◌, ltb, leb, ◌==◌, if◌then◌else◌, Result,
  ok, err,
}
use portfolio_itmo.Common
use portfolio_itmo.Common.Database.{transaction}
use portfolio_itmo.Common.Effects.{Action, ◌>>=◌, ◌>>◌, pure, fail_if, ignore, lift}
use portfolio_itmo.Cfa.Decimal.{Decimals}
use portfolio_itmo.Cfa.Models.{
  entity_trade, BondIssue, Trade, CouponSchedule, is_active, is_submitted, settled, failed,
  trade_settled, trade_failed,
}
use portfolio_itmo.Cfa.Repo.{
  Error, coupon_frequency, precedes_last_coupon, degenerate_period, not_active, seller_holds,
  balance_below, sql, Call, get_issue, get_investor, get_trade, get_position, get_coupons,
  append_event, update_trade, update_balance, transfer,
}

abbrev pub days_basis : ℕ
days_basis = 365

-- Whole days between two times, at most those of a period.
unfoldable pub days_elapsed : ℕ → ℕ → ℕ → ℕ
days_elapsed period last date =
    let days = (date - last) / 86400 in if ltb period days then period else days

-- The latest payment that is not to come.
unfoldable pub latest_payment : {D : Type 0} → ℕ → ℕ → List (CouponSchedule D) → ℕ
latest_payment now last [] = last
latest_payment now last (c ∷ coupons) =
    latest_payment now
      (if ltb last c.payment_date && leb c.payment_date now then c.payment_date else last) coupons

module _ {D : Type 0} where
  -- `lastCouponDate`
  unfoldable pub last_coupon_date : ℕ → BondIssue D → Call D ℕ
  last_coupon_date now issue db =
      let (coupons, db') = get_coupons issue.id db in
      elim coupons [
        | Common.err e ↦ (ok issue.issue_date, db')
        | Common.ok cs ↦ (ok (latest_payment now issue.issue_date cs), db')
      ]

  -- `Engine.fail`
  unfoldable pub fail_trade : Trade D → Call D (Unit {0})
  fail_trade trade = do
    ignore (update_trade trade.id failed trade.accrued_interest trade.total_amount)
    ignore (
        append_event
          (record { entity_type = entity_trade; entity_id = trade.id; event_type = trade_failed }))

  -- After `settle`: an error is recorded, and returned.
  abbrev pub conclude : Trade D → Call D (Unit {0}) → Call D (Unit {0})
  conclude trade settling db =
      let (r, db') = settling db in
      elim r [ Common.ok u ↦ (ok tt, db') | Common.err e ↦ (err e, (fail_trade trade db').1) ]

module _ {D : Type 0} (decimals : Decimals D) where
  unfoldable pub calc_accrued_interest : D → D → ℕ → ℕ → ℕ → Result Error D
  calc_accrued_interest nominal coupon_rate frequency last date =
      if frequency == 0
      then err (coupon_frequency frequency)
      else if ltb date last
      then err (precedes_last_coupon date last)
      else if days_basis / frequency == 0
      then err (degenerate_period frequency)
      else ok (
          decimals.round 6 (
            decimals.mul
              (decimals.div (decimals.mul nominal coupon_rate) (decimals.from_int frequency))
              (decimals.div (decimals.from_int (days_elapsed (days_basis / frequency) last date))
                (decimals.from_int (days_basis / frequency)))))

  unfoldable pub coupon_amount_per_unit : D → D → ℕ → D
  coupon_amount_per_unit nominal coupon_rate frequency =
      decimals.round 6
        (decimals.div (decimals.mul nominal coupon_rate) (decimals.from_int frequency))

  -- The accrued interest of all units, and the total.
  abbrev pub sums_of : Trade D → D → D × D
  sums_of trade ai_per_unit =
      let qty = decimals.from_int trade.quantity in
      let accrued = decimals.mul ai_per_unit qty in
      (accrued, decimals.add (decimals.mul trade.price qty) accrued)

  -- `settle` up to its transaction: the accrued interest and the total.
  unfoldable pub amounts : ℕ → ℕ → Trade D → Call D (D × D)
  amounts now later trade = do
    issue ← get_issue trade.issue_id
    fail_if (not (is_active issue.status)) (not_active issue.id)
    seller_pos ← get_position trade.seller_id trade.issue_id
    fail_if (ltb seller_pos.quantity trade.quantity)
        (seller_holds seller_pos.quantity trade.quantity)
    last ← last_coupon_date now issue
    ai_per_unit ←
        lift
          (calc_accrued_interest issue.nominal issue.coupon_rate issue.coupon_frequency last later)
    buyer ← get_investor trade.buyer_id
    fail_if (decimals.less_than buyer.balance (sums_of trade ai_per_unit).1)
        (balance_below buyer.id)
    pure (sums_of trade ai_per_unit)

  -- What the transaction does.
  unfoldable pub move : Trade D → D → D → Call D (Unit {0})
  move trade accrued total = do
    transfer decimals trade.seller_id trade.buyer_id trade.issue_id trade.quantity trade.price
    update_balance decimals trade.buyer_id (decimals.neg total)
    update_balance decimals trade.seller_id total
    update_trade trade.id settled accrued total
    append_event
        (record { entity_type = entity_trade; entity_id = trade.id; event_type = trade_settled })

  unfoldable pub settle : ℕ → ℕ → Trade D → Call D (Unit {0})
  settle now later trade = do
    (accrued, total) ← amounts now later trade
    transaction (sql "begin settlement tx") (sql "commit settlement") (move trade accrued total)

  unfoldable pub process_trade : ℕ → ℕ → ℕ → Call D (Unit {0})
  process_trade now later id = do
    trade ← get_trade id
    if is_submitted trade.status then conclude trade (settle now later trade) else pure tt
