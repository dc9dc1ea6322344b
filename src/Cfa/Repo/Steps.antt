-- ===== src/Cfa/Repo/Steps.antt =====
-- What the statements of projects/03-cfa-bonds/internal/repo return, and what they leave in the
-- tables where they return.
use portfolio_itmo.Common.{ℕ, ◌-◌, ◌≤◌, ◌<◌, ◌≡◌, refl, arith, List, ◌∷◌, some, ltb}
use portfolio_itmo.Common.Database.{exec}
use portfolio_itmo.Common.Database.Ends.{Step, Ends, >>=-Ends, last-Ends, fail_if-Step}
use portfolio_itmo.Common.Table.{update_where, count_where, find_where}
use portfolio_itmo.Cfa.Decimal.{Decimals}
use portfolio_itmo.Cfa.Models.{Position, Trade, EventLog, TradeStatus}
use portfolio_itmo.Cfa.Repo.{
  Tables, conflict, is_investor, is_position, is_trade, add_balance, put_position, find_position,
  get_position, upsert_position, update_balance, update_trade, append_event, or_empty, bought,
  transfer,
}

module _ {D : Type 0} (t : Tables D) where
  pub find_position-Step :
      (investor issue : ℕ)
      → Step t
          (find_position investor issue)
          (λ row. row ≡ find_where (is_position investor issue) t.positions)
          (λ _. t)
  unfolding find_position exec
  find_position-Step investor issue = record { steps = λ db a same h. ground arith }

  pub get_position-Step :
      (investor issue : ℕ)
      → Step t
          (get_position investor issue)
          (λ p. find_where (is_position investor issue) t.positions ≡ some p)
          (λ _. t)
  unfolding get_position find_position exec
  get_position-Step investor issue = record { steps = λ db a same h. ground arith }

  pub upsert_position-Step :
      (p : Position D)
      → Step t
          (upsert_position p)
          (λ _. Unit {0})
          (λ _. record t { positions = put_position p t.positions })
  unfolding upsert_position exec
  upsert_position-Step p = record { steps = λ db a same h. ground arith }

  pub update_balance-Step :
      (decimals : Decimals D) (id : ℕ) (delta : D)
      → Step t
          (update_balance decimals id delta)
          (λ _. 0 < count_where (is_investor id) t.investors)
          (λ _. record t {
            investors = update_where (is_investor id) (add_balance decimals delta) t.investors;
          })
  unfolding update_balance exec
  update_balance-Step decimals id delta = record { steps = λ db a same h. ground arith }

  pub append_event-Step :
      (e : EventLog)
      → Step t (append_event e) (λ _. Unit {0}) (λ _. record t { events = e ∷ t.events })
  unfolding append_event exec
  append_event-Step e = record { steps = λ db a same h. ground arith }

  pub update_trade-Step :
      (id : ℕ) (status : TradeStatus) (accrued total : D)
      → Step t
          (update_trade id status accrued total)
          (λ _. 0 < count_where (is_trade id) t.trades)
          (λ _. record t {
            trades =
                update_where
                  (is_trade id)
                  (λ (r : Trade D). record r {
                    status = status;
                    accrued_interest = accrued;
                    total_amount = total;
                  })
                  t.trades;
          })
  unfolding update_trade exec
  update_trade-Step id status accrued total = record { steps = λ db a same h. ground arith }

module _ {D : Type 0} (decimals : Decimals D) where
  -- The seller's position after a sale.
  abbrev pub sold : ℕ → Position D → Position D
  sold quantity s = record s { quantity = s.quantity - quantity }

  abbrev pub buyers_position : ℕ → ℕ → List (Position D) → Position D
  buyers_position buyer issue rows =
      or_empty decimals buyer issue (find_where (is_position buyer issue) rows)

  -- The positions after a transfer from the holder of `s`.
  abbrev pub transferred : ℕ → ℕ → ℕ → D → Position D → List (Position D) → List (Position D)
  transferred buyer issue quantity price s rows =
      let rows = put_position (sold quantity s) rows in
      put_position (bought decimals quantity price (buyers_position buyer issue rows)) rows

  -- A transfer that returns has found the seller's position and enough units in it.
  pub transfer-Step :
      (t : Tables D) (seller buyer issue quantity : ℕ) (price : D)
      → Ends t (transfer decimals seller buyer issue quantity price) λ _ left.
        (s : Position D) × (find_where (is_position seller issue) t.positions ≡ some s)
        × (quantity ≤ s.quantity)
        × (left ≡ record t { positions = transferred buyer issue quantity price s t.positions })
  unfolding transfer
  transfer-Step t seller buyer issue quantity price =
      >>=-Ends (get_position-Step t seller issue) λ s found.
        >>=-Ends (fail_if-Step t (ltb s.quantity quantity) (conflict s.quantity quantity))
          λ u enough. >>=-Ends (upsert_position-Step t (sold quantity s)) λ v w.
            >>=-Ends
              (find_position-Step
                (record t { positions = put_position (sold quantity s) t.positions }) buyer issue)
              λ row same.
                last-Ends
                  (upsert_position-Step
                    (record t { positions = put_position (sold quantity s) t.positions })
                    (bought decimals quantity price (or_empty decimals buyer issue row)))
                  λ x y. (s, found, ground (arith, enough), rw same refl)
