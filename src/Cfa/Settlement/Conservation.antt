-- ===== src/Cfa/Settlement/Conservation.antt =====
-- The settlement of trades moves cash and units between investors, and makes none.
use portfolio_itmo.Common.{
  ℕ, ◌+◌, ◌≤◌, ◌<◌, ◌≡◌, refl, sym, ap, ◌∙◌, arith, List, none, some, ==_iff, Option-cases, inl,
  inr,
}
use portfolio_itmo.Common.Database.Ends.{Ends, >>=-Ends, last-Ends, then-Ends}
use portfolio_itmo.Cfa.Settlement.{move}
use mathlib.Core.Path.{subst}
use portfolio_itmo.Common.Table.{update_where, count_where, find_where, find_sound, count-update}
use portfolio_itmo.Cfa.Decimal.{Decimals, SumLaws, add-neg_cancel}
use portfolio_itmo.Cfa.Models.{entity_trade, Position, Trade, settled, trade_settled}
use portfolio_itmo.Cfa.Repo.{
  Tables, is_investor, is_position, add_balance, put_position, or_empty, bought,
}
use portfolio_itmo.Cfa.Repo.Steps.{
  transferred, sold, buyers_position, transfer-Step, update_balance-Step, update_trade-Step,
  append_event-Step,
}
use portfolio_itmo.Cfa.Repo.Totals.{
  units, in_issue, cash, cash-update, units-put_position, count-put_position,
}

module _ {D : Type 0} (decimals : Decimals D) (rows : List (Position D))
    (keys : (investor issue : ℕ) → count_where (is_position investor issue) rows ≤ 1) where
  found_key :
      (investor issue : ℕ) (r : Position D)
      → find_where (is_position investor issue) rows ≡ some r
      → (r.investor_id ≡ investor) × (r.issue_id ≡ issue)
  found_key investor issue r found = ground (
    arith,
    find_sound (is_position investor issue) rows found,
    ==_iff r.investor_id investor,
    ==_iff r.issue_id issue,
  )

  -- What is held by the key of a row that is found.
  held_by_key :
      (investor issue : ℕ) (r : Position D)
      → find_where (is_position investor issue) rows ≡ some r
      → (elim (find_where (is_position r.investor_id r.issue_id) rows) [
        | none ↦ 0
        | some q ↦ q.quantity
      ])
        ≡ r.quantity
  held_by_key investor issue r found =
      let (same_investor, same_issue) = found_key investor issue r found in
      rw (same_investor, same_issue, found) refl

  units-sold :
      (seller issue quantity i : ℕ) (s : Position D)
      → find_where (is_position seller issue) rows ≡ some s
      → quantity ≤ s.quantity
      → units i (put_position (sold decimals quantity s) rows) + in_issue issue i quantity
        ≡ units i rows
  units-sold seller issue quantity i s found enough =
      let put =
        units-put_position (sold decimals quantity s) i rows {held = s.quantity}
          (keys s.investor_id s.issue_id) (held_by_key seller issue s found) in
      ground (arith, put, enough, (found_key seller issue s found).1)

  units-bought :
      (buyer issue quantity i : ℕ) (price : D)
      → units i (
          put_position
            (bought decimals quantity price (buyers_position decimals buyer issue rows))
            rows)
        ≡ units i rows + in_issue issue i quantity
  units-bought buyer issue quantity i price =
      elim (Option-cases (find_where (is_position buyer issue) rows)) [
        | inl e ↦
            (let put =
                units-put_position
                  (bought decimals quantity price (or_empty decimals buyer issue none)) i rows
                  {held = 0} (keys buyer issue) (rw e refl) in
              rw e (ground (arith, put)))
        | inr (r, e) ↦
            (let put =
                units-put_position (bought decimals quantity price r) i rows {held = r.quantity}
                  (keys r.investor_id r.issue_id) (held_by_key buyer issue r e) in
              rw e (ground (arith, put, (found_key buyer issue r e).1)))
      ]

module _ {D : Type 0} (decimals : Decimals D) (laws : SumLaws decimals) where
  -- The ids of investors and the keys of positions are unique, the balances add up to `c`, and
  -- `u i` units of each issue i are held.
  pub record IsBalanced (c : D) (u : ℕ → ℕ) (t : Tables D) : Type 0 where
    pub investor_ids : (id : ℕ) → count_where (is_investor id) t.investors ≤ 1
    pub position_keys :
        (investor issue : ℕ) → count_where (is_position investor issue) t.positions ≤ 1
    pub cash_total : cash decimals t.investors ≡ c
    pub unit_totals : (i : ℕ) → units i t.positions ≡ u i

  module _ {c : D} {u : ℕ → ℕ} where
    transferred-IsBalanced :
        (t : Tables D) (seller buyer issue quantity : ℕ) (price : D) (s : Position D)
        → IsBalanced c u t
        → find_where (is_position seller issue) t.positions ≡ some s
        → quantity ≤ s.quantity
        → IsBalanced c u
            (record t { positions = transferred decimals buyer issue quantity price s t.positions })
    transferred-IsBalanced t seller buyer issue quantity price s i found enough =
        let rows = put_position (sold decimals quantity s) t.positions in
        let keys : (investor issue : ℕ) → count_where (is_position investor issue) rows ≤ 1 = λ j k.
          count-put_position (sold decimals quantity s) j k t.positions (i.position_keys j k) in
        record {
          investor_ids = i.investor_ids;
          position_keys = λ j k. count-put_position _ j k rows (keys j k);
          cash_total = i.cash_total;
          unit_totals = λ k. omega (
            arith,
            units-bought decimals rows keys buyer issue quantity k price,
            units-sold decimals t.positions i.position_keys seller issue quantity k s found enough,
            i.unit_totals k,
          );
        }

    paid-IsBalanced :
        (t : Tables D) (buyer seller : ℕ) (total : D)
        → IsBalanced c u t
        → 0 < count_where (is_investor buyer) t.investors
        → 0
          < count_where (is_investor seller) (
              update_where
                (is_investor buyer)
                (add_balance decimals (decimals.neg total))
                t.investors)
        → IsBalanced c u (record t {
          investors = update_where (is_investor seller) (add_balance decimals total) (
              update_where
                (is_investor buyer)
                (add_balance decimals (decimals.neg total))
                t.investors);
        })
    paid-IsBalanced t buyer seller total i has_buyer has_seller =
        let debited =
          update_where (is_investor buyer) (add_balance decimals (decimals.neg total))
            t.investors in
        let ids : (id : ℕ) → count_where (is_investor id) debited ≤ 1 = λ id.
          rw
            (count-update (is_investor id) (is_investor buyer)
              (add_balance decimals (decimals.neg total)) (λ r. refl) t.investors)
            (i.investor_ids id) in
        record {
          investor_ids = λ id.
              rw
                (count-update (is_investor id) (is_investor seller) (add_balance decimals total)
                  (λ r. refl) debited)
                (ids id);
          position_keys = i.position_keys;
          cash_total =
              cash-update decimals laws seller total debited (ids seller) has_seller
              ∙ ap (λ x. decimals.add x total)
                  (cash-update decimals laws buyer (decimals.neg total) t.investors
                    (i.investor_ids buyer) has_buyer)
              ∙ add-neg_cancel decimals laws (cash decimals t.investors) total
              ∙ i.cash_total;
          unit_totals = i.unit_totals;
        }

    pub move-Ends :
        (t : Tables D) (trade : Trade D) (accrued total : D)
        → IsBalanced c u t
        → Ends t (move decimals trade accrued total) (λ _ left. IsBalanced c u left)
    unfolding move
    move-Ends t trade accrued total i =
        then-Ends
          (transfer-Step decimals t trade.seller_id trade.buyer_id trade.issue_id trade.quantity
            trade.price)
          λ v t1 (s, found, enough, same).
            let i1 : IsBalanced c u t1 = subst (IsBalanced c u) (sym same) (
              transferred-IsBalanced t trade.seller_id trade.buyer_id trade.issue_id trade.quantity
                trade.price s i found enough) in
            >>=-Ends (update_balance-Step t1 decimals trade.buyer_id (decimals.neg total))
              λ w has_buyer.
                >>=-Ends
                  (update_balance-Step
                    (record t1 {
                      investors =
                          update_where (is_investor trade.buyer_id)
                            (add_balance decimals (decimals.neg total)) t1.investors;
                    })
                    decimals trade.seller_id total)
                  λ x has_seller.
                    let i2 =
                      paid-IsBalanced t1 trade.buyer_id trade.seller_id total i1 has_buyer
                        has_seller in
                    >>=-Ends (update_trade-Step _ trade.id settled accrued total) λ y has_trade.
                      last-Ends
                        (append_event-Step _ (record {
                          entity_type = entity_trade;
                          entity_id = trade.id;
                          event_type = trade_settled;
                        }))
                        λ z zz. record {
                          investor_ids = i2.investor_ids;
                          position_keys = i2.position_keys;
                          cash_total = i2.cash_total;
                          unit_totals = i2.unit_totals;
                        }
