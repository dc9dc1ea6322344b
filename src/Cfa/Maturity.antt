-- ===== src/Cfa/Maturity.antt =====
-- projects/03-cfa-bonds/internal/maturity/service.go: the redemption of an issue, and of all that are
-- due. The holders are read before the transaction. Caches and Kafka are left out as in the
-- settlement.
pub mod Redemption
pub mod Due
use portfolio_itmo.Common.{
  ℕ, Bool, ◌&&◌, List, [], ◌∷◌, Option, none, some, ltb, leb, ◌==◌, if◌then◌else◌, Result, ok, err,
}
use portfolio_itmo.Common
use portfolio_itmo.Common.Database.{transaction, exec}
use portfolio_itmo.Common.Effects.{Action, ◌>>=◌, ◌>>◌, pure}
use portfolio_itmo.Common.Table.{update_where, select_where, order_by}
use portfolio_itmo.Cfa.Decimal.{Decimals}
use portfolio_itmo.Cfa.Models.{
  BondIssue, Position, EventLog, EntityType, entity_investor, entity_issue, issue_matured,
  is_active, matured,
}
use portfolio_itmo.Cfa.Repo.{Tables, Error, sql, Call, append_event, update_balance}
use mathlib.Core.List.{reverse}

module _ {D : Type 0} where
  abbrev pub of_issue : ℕ → Position D → Bool
  of_issue issue p = p.issue_id == issue

  -- `PositionRepo.GetByIssue`, the largest position first
  unfoldable pub get_holders : ℕ → Call D (List (Position D))
  get_holders issue = exec (sql "holders") λ t. some (
    reverse (
        order_by (λ (p : Position D). p.quantity)
          (select_where (λ (p : Position D). of_issue issue p && ltb 0 p.quantity) t.positions)),
    t,
  )

  abbrev pub cleared : Position D → Position D
  cleared p = record p { quantity = 0 }

  -- `PositionRepo.ZeroOutByIssue`
  unfoldable pub zero_out : ℕ → Call D (Unit {0})
  zero_out issue =
      exec (sql "zero positions")
        λ t. some (tt, record t { positions = update_where (of_issue issue) cleared t.positions })

  abbrev pub is_open : ℕ → BondIssue D → Bool
  is_open id i = i.id == id && is_active i.status

  abbrev pub as_matured : BondIssue D → BondIssue D
  as_matured i = record i { status = matured }

  -- The code does not look at the number of rows.
  unfoldable pub close_issue : ℕ → Call D (Unit {0})
  close_issue id =
      exec (sql "close issue")
        λ t. some (tt, record t { issues = update_where (is_open id) as_matured t.issues })

  abbrev pub is_due : ℕ → BondIssue D → Bool
  is_due as_of i = is_active i.status && leb i.maturity_date as_of

  -- `IssueRepo.GetMaturingIssues`
  unfoldable pub get_maturing : ℕ → Call D (List (BondIssue D))
  get_maturing as_of = exec (sql "query maturing issues") λ t.
      some
        (order_by (λ (i : BondIssue D). i.maturity_date) (select_where (is_due as_of) t.issues), t)

abbrev pub matured_event : EntityType → ℕ → EventLog
matured_event kind id = record { entity_type = kind; entity_id = id; event_type = issue_matured }

module _ {D : Type 0} (decimals : Decimals D) where
  -- The loop over the holders.
  unfoldable pub redeem_each : D → List (Position D) → Call D (Unit {0})
  redeem_each nominal [] = pure tt
  redeem_each nominal (h ∷ holders) = do
    update_balance decimals h.investor_id (decimals.mul nominal (decimals.from_int h.quantity))
    append_event (matured_event entity_investor h.investor_id)
    redeem_each nominal holders

  -- What the transaction does.
  unfoldable pub redeem : BondIssue D → List (Position D) → Call D (Unit {0})
  redeem issue holders = do
    redeem_each issue.nominal holders
    zero_out issue.id
    close_issue issue.id
    append_event (matured_event entity_issue issue.id)

  unfoldable pub redeem_issue : BondIssue D → Call D (Unit {0})
  redeem_issue issue = do
    holders ← get_holders issue.id
    transaction (sql "begin maturity tx") (sql "commit redemption") (redeem issue holders)

  -- The loop over the issues: the first error is kept, and the others are tried all the same.
  unfoldable pub redeem_issues : Result Error (Unit {0}) → List (BondIssue D) → Call D (Unit {0})
  redeem_issues first [] db = (first, db)
  redeem_issues first (issue ∷ issues) db =
      let (r, db) = redeem_issue issue db in
      redeem_issues (elim first [ Common.err e ↦ err e | Common.ok u ↦ r ]) issues db

  -- `ProcessMaturities`
  unfoldable pub process_maturities : ℕ → Call D (Unit {0})
  process_maturities as_of = do issues ← get_maturing as_of; redeem_issues (ok tt) issues
