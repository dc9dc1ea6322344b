-- ===== src/Cfa/Settlement/Effect.antt =====
-- What a settlement that succeeds has done.
use portfolio_itmo.Common.{
  ℕ, ◌+◌, ◌≤◌, ◌<◌, ◌≡◌, refl, sym, ap, ◌∙◌, arith, List, [], ◌∷◌, some, Result, ok, err,
}
use portfolio_itmo.Common
use portfolio_itmo.Common.Database.{Database, transaction, transaction-ok}
use portfolio_itmo.Common.Database.Ends.{Ends, >>=-Ends, last-Ends, then-Ends}
use portfolio_itmo.Common.Effects.{◌>>=◌}
use portfolio_itmo.Common.Effects.Ensures.{kept}
use portfolio_itmo.Common.Table.{update_where, count_where, find_where}
use portfolio_itmo.Cfa.Decimal.{Decimals}
use portfolio_itmo.Cfa.Models.{entity_trade, Position, Trade, settled, trade_settled}
use portfolio_itmo.Cfa.Repo.{Tables, Error, sql, is_investor, is_position, is_trade, add_balance}
use portfolio_itmo.Cfa.Repo.Steps.{
  transferred, transfer-Step, update_balance-Step, update_trade-Step, append_event-Step,
}
use portfolio_itmo.Cfa.Settlement.{move, amounts, settle}
use portfolio_itmo.Cfa.Settlement.Reads.{amounts-Keeps}
use mathlib.Core.Path.{subst}

module _ {D : Type 0} (decimals : Decimals D) where
  abbrev as_settled : D → D → Trade D → Trade D
  as_settled accrued total r = record r {
    status = settled;
    accrued_interest = accrued;
    total_amount = total;
  }

  abbrev paid : ℕ → ℕ → D → Tables D → Tables D
  paid buyer seller total t = record t {
    investors =
        update_where (is_investor seller) (add_balance decimals total) (
          update_where (is_investor buyer) (add_balance decimals (decimals.neg total)) t.investors);
  }

  -- The tables `left` are `t` with a trade settled for these amounts: the seller's position `s` had
  -- the units, which are the buyer's now; the total is paid; the trade and an event say so.
  pub record IsSettled (trade : Trade D) (t left : Tables D) (accrued total : D) : Type 0 where
    pub held : Position D
    pub is_held : find_where (is_position trade.seller_id trade.issue_id) t.positions ≡ some held
    pub enough : trade.quantity ≤ held.quantity
    pub positions_moved :
        left.positions
        ≡ transferred decimals trade.buyer_id trade.issue_id trade.quantity trade.price held
            t.positions
    pub total_paid : left.investors ≡ (paid trade.buyer_id trade.seller_id total t).investors
    pub is_known : 0 < count_where (is_trade trade.id) t.trades
    pub trade_marked :
        left.trades ≡ update_where (is_trade trade.id) (as_settled accrued total) t.trades
    pub event_appended :
        left.events
        ≡ record { entity_type = entity_trade; entity_id = trade.id; event_type = trade_settled }
          ∷ t.events

  move-settles :
      (t : Tables D) (trade : Trade D) (accrued total : D)
      → Ends t (move decimals trade accrued total) (λ _ left. IsSettled trade t left accrued total)
  unfolding move
  move-settles t trade accrued total =
      then-Ends
        (transfer-Step decimals t trade.seller_id trade.buyer_id trade.issue_id trade.quantity
          trade.price)
        λ v t1 (s, found, enough, same).
          >>=-Ends (update_balance-Step t1 decimals trade.buyer_id (decimals.neg total))
            λ w has_buyer.
              >>=-Ends (update_balance-Step _ decimals trade.seller_id total) λ x has_seller.
                >>=-Ends (update_trade-Step _ trade.id settled accrued total) λ y has_trade.
                  last-Ends
                    (append_event-Step _ (record {
                      entity_type = entity_trade;
                      entity_id = trade.id;
                      event_type = trade_settled;
                    }))
                    λ z zz. record {
                      held = s;
                      is_held = found;
                      enough = enough;
                      positions_moved = ap (λ (r : Tables D). r.positions) same;
                      total_paid =
                          ap
                            (λ (r : Tables D).
                              (paid trade.buyer_id trade.seller_id total r).investors)
                            same;
                      is_known =
                          subst (λ (r : Tables D). 0 < count_where (is_trade trade.id) r.trades)
                            same has_trade;
                      trade_marked =
                          ap
                            (λ (r : Tables D).
                              update_where (is_trade trade.id) (as_settled accrued total) r.trades)
                            same;
                      event_appended =
                          ap
                            (λ (r : Tables D).
                              record {
                                entity_type = entity_trade;
                                entity_id = trade.id;
                                event_type = trade_settled;
                              }
                              ∷ r.events)
                            same;
                    }

  IsSettled-from :
      (trade : Trade D) (tables : Tables D) (out : Result Error (D × D) × Database (Tables D))
      → out.1.tables ≡ tables
      → let done =
          ◌>>=◌
            (λ (db : Database (Tables D)). out)
            (λ (sums : D × D).
              transaction
                (sql "begin settlement tx")
                (sql "commit settlement")
                (move decimals trade sums.0 sums.1))
            out.1 in
        done.0 ≡ ok tt
        → (accrued : D) × (total : D) × (out.0 ≡ ok (accrued, total))
          × IsSettled trade tables done.1.tables accrued total
  IsSettled-from trade tables (Common.err e, db) same h = absurd cc
  IsSettled-from trade tables (Common.ok sums, db) same h =
      let (start, begun, run, left) =
        transaction-ok (sql "begin settlement tx") (sql "commit settlement")
          (move decimals trade sums.0 sums.1) db h in
      let done = (move-settles tables trade sums.0 sums.1).ends start tt (begun ∙ same) run in
      (sums.0, sums.1, refl, subst (λ r. IsSettled trade tables r sums.0 sums.1) (sym left) done)

  -- A settlement that returns no error: the amounts have been found, the seller held the units,
  -- which are the buyer's now, the total is paid, the trade is settled
  -- with the amounts, and an event is appended.
  pub settle-ok :
      (now later : ℕ) (trade : Trade D) (db : Database (Tables D))
      → (settle decimals now later trade db).0 ≡ ok tt
      → (accrued : D) × (total : D) × ((amounts decimals now later trade db).0
          ≡ ok (accrued, total))
        × IsSettled trade db.tables (settle decimals now later trade db).1.tables accrued total
  unfolding settle
  settle-ok now later trade db h =
      IsSettled-from trade db.tables (amounts decimals now later trade db)
        (kept (amounts-Keeps decimals (λ t. t ≡ db.tables) now later trade) db refl) h
