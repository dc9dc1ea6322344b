-- ===== src/Cfa/Tests.antt =====
-- Runs of the settlement with whole amounts for decimals.
use portfolio_itmo.Common.{◌/◌, ◌≡◌, refl, arith, true, false, [], ◌∷◌, ok, err}
use portfolio_itmo.Common.Database.{Database, exec, transaction}
use portfolio_itmo.Common.Int.{
  ℤ, pos, pos_part, ◌+ℤ◌, ◌*ℤ◌, negate, ltb_ℤ, +ℤ_parts, negate_parts, eq_of_parts,
}
use portfolio_itmo.Common.Table.{count_where, find_where, update_where, select_where, order_by}
use portfolio_itmo.Cfa.Decimal.{Decimals, SumLaws}
use portfolio_itmo.Cfa.Models.{BondIssue, Trade, active, submitted}
use portfolio_itmo.Cfa.Repo.{
  Tables, sql, update_trade, append_event, transfer, upsert_position, update_balance, get_issue,
  get_position, find_position, get_coupons, get_investor,
}
use portfolio_itmo.Cfa.Repo.Totals.{units}
use portfolio_itmo.Cfa.Settlement.{
  settle, move, process_trade, amounts, last_coupon_date, latest_payment, calc_accrued_interest,
  days_elapsed,
}
use portfolio_itmo.Cfa.Settlement.Conservation.{IsBalanced}
use portfolio_itmo.Cfa.Maturity.{
  redeem_issue, get_holders, redeem, redeem_each, zero_out, close_issue,
}
use portfolio_itmo.Cfa.Maturity.{is_due, get_maturing, redeem_issues, process_maturities}
use portfolio_itmo.Cfa.Maturity.Due.{process_maturities-ok}
use portfolio_itmo.Cfa.Maturity.Redemption.{IsRedeemed, redeem_issue-ok}
use portfolio_itmo.Cfa.Settlement.Effect.{IsSettled, settle-ok}
use portfolio_itmo.Cfa.Settlement.Books.{process_trade-IsBalanced, settle-err}

abbrev whole : Decimals ℤ
whole = record {
  zero = pos 0;
  add = ◌+ℤ◌;
  neg = negate;
  mul = ◌*ℤ◌;
  div = λ a b. pos (pos_part a / pos_part b);
  round = λ places a. a;
  from_int = pos;
  less_than = ltb_ℤ;
}

whole_laws : SumLaws whole
whole_laws = record {
  add_comm = λ a b. eq_of_parts (a +ℤ b) (b +ℤ a) (omega (arith, +ℤ_parts a b, +ℤ_parts b a));
  add_assoc = λ a b c.
      eq_of_parts (a +ℤ b +ℤ c) (a +ℤ (b +ℤ c))
        (omega (arith, +ℤ_parts a b, +ℤ_parts (a +ℤ b) c, +ℤ_parts b c, +ℤ_parts a (b +ℤ c)));
  add_zero = λ a. eq_of_parts (a +ℤ pos 0) a (omega (arith, +ℤ_parts a (pos 0)));
  add_neg = λ a.
      eq_of_parts (a +ℤ negate a) (pos 0) (omega (arith, +ℤ_parts a (negate a), negate_parts a));
}

abbrev issue : BondIssue ℤ
issue = record {
  id = 1;
  nominal = pos 1000;
  coupon_rate = pos 1;
  coupon_frequency = 2;
  issue_date = 0;
  maturity_date = 94608000;
  total_quantity = 100;
  placed_quantity = 100;
  status = active;
}

abbrev trade : Trade ℤ
trade = record {
  id = 9;
  issue_id = 1;
  seller_id = 2;
  buyer_id = 3;
  quantity = 4;
  price = pos 900;
  accrued_interest = pos 0;
  total_amount = pos 0;
  status = submitted;
}

abbrev tables : Tables ℤ
tables = record {
  issues = issue ∷ [];
  investors = record { id = 2; balance = pos 50 } ∷ record { id = 3; balance = pos 5000 } ∷ [];
  positions = record { investor_id = 2; issue_id = 1; quantity = 10; avg_price = pos 1000 } ∷ [];
  trades = trade ∷ [];
  coupons = [];
  events = [];
}

tables-IsBalanced : IsBalanced whole whole_laws (pos 5050) (λ i. units i tables.positions) tables
unfolding ◌+ℤ◌ count_where
tables-IsBalanced = record {
  investor_ids = λ id. ground arith;
  position_keys = λ j k. ground arith;
  cash_total = refl;
  unit_totals = λ i. refl;
}

process_trade-IsBalanced_example :
    IsBalanced whole whole_laws
      (pos 5050)
      (λ i. units i tables.positions)
      (process_trade whole 8640000 8640000 9 (record { tables = tables; faults = [] })).1.tables
process_trade-IsBalanced_example =
    process_trade-IsBalanced whole whole_laws (pos 5050) (λ i. units i tables.positions) 8640000
      8640000 9 (record { tables = tables; faults = [] }) tables-IsBalanced

-- The database fails the debit of the buyer.
abbrev failing : Database (Tables ℤ)
failing = record {
  tables = tables;
  faults = false ∷ false ∷ false ∷ false ∷ false ∷ false ∷ false ∷ false ∷ false ∷ true ∷ [];
}

settle-failing : (settle whole 8640000 8640000 trade failing).0 ≡ err (sql "update balance")
unfolding settle amounts get_issue find_where get_position find_position last_coupon_date
    get_coupons select_where order_by latest_payment calc_accrued_interest days_elapsed get_investor
    exec transaction move transfer upsert_position count_where update_balance update_where ◌+ℤ◌ ◌*ℤ◌
settle-failing = refl

settle-err_example : (settle whole 8640000 8640000 trade failing).1.tables ≡ tables
settle-err_example = settle-err whole 8640000 8640000 trade failing settle-failing

abbrev working : Database (Tables ℤ)
working = record { tables = tables; faults = [] }

settle-working : (settle whole 8640000 8640000 trade working).0 ≡ ok tt
unfolding settle amounts get_issue find_where get_position find_position last_coupon_date
    get_coupons select_where order_by latest_payment calc_accrued_interest days_elapsed get_investor
    exec transaction move transfer upsert_position count_where update_balance update_where
    update_trade append_event ◌+ℤ◌ ◌*ℤ◌
settle-working = refl

settle-ok_example :
    (accrued : ℤ) × (total : ℤ) × ((amounts whole 8640000 8640000 trade working).0
      ≡ ok (accrued, total))
    × IsSettled whole trade tables
        (settle whole 8640000 8640000 trade working).1.tables
        accrued
        total
settle-ok_example = settle-ok whole 8640000 8640000 trade working settle-working

redeemed : (redeem_issue whole issue working).0 ≡ ok tt
unfolding redeem_issue get_holders redeem redeem_each zero_out close_issue update_balance
    append_event exec transaction select_where order_by update_where count_where ◌+ℤ◌ ◌*ℤ◌
redeemed = refl

redeem_issue-ok_example : IsRedeemed whole issue tables (redeem_issue whole issue working).1.tables
redeem_issue-ok_example =
    redeem_issue-ok whole whole_laws issue working tables-IsBalanced.investor_ids redeemed

processed : (process_maturities whole 94608000 working).0 ≡ ok tt
unfolding process_maturities get_maturing redeem_issues redeem_issue get_holders redeem redeem_each
    zero_out close_issue update_balance append_event exec transaction select_where order_by
    update_where count_where ◌+ℤ◌ ◌*ℤ◌
processed = refl

process_maturities-ok_example :
    select_where (is_due 94608000) (process_maturities whole 94608000 working).1.tables.issues ≡ []
process_maturities-ok_example =
    process_maturities-ok whole whole_laws 94608000 working tables-IsBalanced.investor_ids processed
