-- ===== src/Cfa/Settlement/Books.antt =====
-- The processing of a trade keeps the books balanced, however it ends, and a settlement that fails
-- leaves no trace.
use portfolio_itmo.Common.{
  ℕ, ◌≡◌, refl, sym, ◌∙◌, arith, Bool, true, false, not, List, Option, none, some, ltb, ◌==◌,
  if◌then◌else◌, Result, ok, err,
}
use portfolio_itmo.Common
use portfolio_itmo.Common.Database.{Database, transaction, transaction-err}
use portfolio_itmo.Common.Database.Keeps.{Of, exec-Keeps, transaction-Keeps}
use portfolio_itmo.Common.Effects.{pure, ◌>>=◌}
use portfolio_itmo.Common.Effects.Ensures.{
  Keeps, Outcome, kept, >>=-Ensures, pure-Ensures, fail_if-Keeps, ignore-Keeps,
}
use portfolio_itmo.Cfa.Decimal.{Decimals, SumLaws}
use portfolio_itmo.Cfa.Models.{
  entity_trade, Trade, TradeStatus, EventLog, is_submitted, failed, trade_failed,
}
use portfolio_itmo.Cfa.Repo.{Tables, Call, Error, sql, not_found, append_event, update_trade}
use portfolio_itmo.Cfa.Settlement.{move, amounts, settle, process_trade, fail_trade, conclude}
use portfolio_itmo.Cfa.Settlement.Conservation.{IsBalanced, move-Ends}
use portfolio_itmo.Cfa.Settlement.Reads.{get_trade-Keeps, amounts-Keeps}

module _ {D : Type 0} (decimals : Decimals D) (laws : SumLaws decimals) (c : D) (u : ℕ → ℕ) where
  abbrev Books : Database (Tables D) → Type 0
  Books = Of (IsBalanced decimals laws c u)

  IsBalanced-same :
      (t t' : Tables D)
      → t'.investors ≡ t.investors
      → t'.positions ≡ t.positions
      → IsBalanced decimals laws c u t
      → IsBalanced decimals laws c u t'
  IsBalanced-same t t' same_investors same_positions i = record {
    investor_ids = rw same_investors i.investor_ids;
    position_keys = rw same_positions i.position_keys;
    cash_total = rw same_investors i.cash_total;
    unit_totals = rw same_positions i.unit_totals;
  }

  update_trade-Keeps :
      (id : ℕ) (status : TradeStatus) (accrued total : D)
      → Keeps Books (update_trade id status accrued total)
  unfolding update_trade
  update_trade-Keeps id status accrued total =
      >>=-Ensures
        (exec-Keeps (IsBalanced decimals laws c u) _ _ λ t a t' i h.
          let same_investors : t'.investors ≡ t.investors = cc in
          let same_positions : t'.positions ≡ t.positions = cc in
          IsBalanced-same t t' same_investors same_positions i)
        (λ affected v. fail_if-Keeps (affected == 0) not_found)

  append_event-Keeps : (e : EventLog) → Keeps Books (append_event e)
  unfolding append_event
  append_event-Keeps e = exec-Keeps (IsBalanced decimals laws c u) _ _ λ t a t' i h.
      let same_investors : t'.investors ≡ t.investors = cc in
      let same_positions : t'.positions ≡ t.positions = cc in
      IsBalanced-same t t' same_investors same_positions i

  fail_trade-Keeps : (trade : Trade D) → Keeps Books (fail_trade trade)
  unfolding fail_trade
  fail_trade-Keeps trade =
      >>=-Ensures
        (ignore-Keeps
          (update_trade-Keeps trade.id failed trade.accrued_interest trade.total_amount))
        λ v w. ignore-Keeps (
          append_event-Keeps (record {
            entity_type = entity_trade;
            entity_id = trade.id;
            event_type = trade_failed;
          }))

  settle-Keeps : (now later : ℕ) (trade : Trade D) → Keeps Books (settle decimals now later trade)
  unfolding settle
  settle-Keeps now later trade =
      >>=-Ensures (amounts-Keeps decimals (IsBalanced decimals laws c u) now later trade) λ sums v.
        transaction-Keeps (IsBalanced decimals laws c u) (sql "begin settlement tx")
          (sql "commit settlement") (move decimals trade sums.0 sums.1)
          λ start a i h.
            (move-Ends decimals laws start.tables trade sums.0 sums.1 i).ends start a refl h

  concluded :
      (trade : Trade D) (out : Result Error (Unit {0}) × Database (Tables D))
      → Books out.1
      → Outcome Books (λ _. Unit {0}) (conclude trade (λ db. out) out.1)
  concluded trade (Common.ok v, db) i = (i, tt)
  concluded trade (Common.err e, db) i = kept (fail_trade-Keeps trade) db i

  conclude-Keeps :
      (trade : Trade D) {settling : Call D (Unit {0})}
      → Keeps Books settling
      → Keeps Books (conclude trade settling)
  conclude-Keeps trade {settling} h = record {
    holds = λ db i. concluded trade (settling db) (kept h db i);
  }

  -- The processing of a trade, submitted or not, settled or failed, and whatever statements the
  -- database fails, keeps the ids and keys unique, the total of the balances, and the units of
  -- every issue that are held.
  pub process_trade-IsBalanced :
      (now later id : ℕ) (db : Database (Tables D))
      → IsBalanced decimals laws c u db.tables
      → IsBalanced decimals laws c u (process_trade decimals now later id db).1.tables
  unfolding process_trade
  process_trade-IsBalanced now later id = kept (
      >>=-Ensures (get_trade-Keeps (IsBalanced decimals laws c u) id)
        λ trade v. by_status trade (is_submitted trade.status))
    where
      by_status :
          (trade : Trade D) (test : Bool)
          → Keeps Books (if test then conclude trade (settle decimals now later trade) else pure tt)
      by_status trade true = conclude-Keeps trade (settle-Keeps now later trade)
      by_status trade false = pure-Ensures tt

module _ {D : Type 0} (decimals : Decimals D) where
  settled_or_kept :
      (trade : Trade D) (tables : Tables D) (out : Result Error (D × D) × Database (Tables D))
      {e : Error}
      → out.1.tables ≡ tables
      → (◌>>=◌
          (λ (db : Database (Tables D)). out)
          (λ (sums : D × D).
            transaction
              (sql "begin settlement tx")
              (sql "commit settlement")
              (move decimals trade sums.0 sums.1))
          out.1).0
        ≡ err e
      → (◌>>=◌
          (λ (db : Database (Tables D)). out)
          (λ (sums : D × D).
            transaction
              (sql "begin settlement tx")
              (sql "commit settlement")
              (move decimals trade sums.0 sums.1))
          out.1).1.tables
        ≡ tables
  settled_or_kept trade tables (Common.ok sums, db) same h =
      transaction-err (sql "begin settlement tx") (sql "commit settlement")
        (move decimals trade sums.0 sums.1) db h
      ∙ same
  settled_or_kept trade tables (Common.err cause, db) same h = same

  -- A settlement that returns an error leaves every table as it was.
  pub settle-err :
      (now later : ℕ) (trade : Trade D) (db : Database (Tables D)) {e : Error}
      → (settle decimals now later trade db).0 ≡ err e
      → (settle decimals now later trade db).1.tables ≡ db.tables
  unfolding settle
  settle-err now later trade db {e} h =
      let kept_tables =
        kept (amounts-Keeps decimals (λ t. t ≡ db.tables) now later trade) db refl in
      settled_or_kept trade db.tables (amounts decimals now later trade db) kept_tables h
