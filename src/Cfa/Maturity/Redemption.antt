-- ===== src/Cfa/Maturity/Redemption.antt =====
-- What a redemption in projects/03-cfa-bonds/internal/maturity/service.go that succeeds has done.
use portfolio_itmo.Common.{
  ℕ, ◌≤◌, ◌≡◌, ◌≢◌, refl, sym, ap, ◌∙◌, arith, List, [], ◌∷◌, ok, ◌&&◌, ==_iff, ltb,
}
use portfolio_itmo.Common.Database.{Database, transaction, exec}
use portfolio_itmo.Common.Database.Ends.{
  Step, Ends, >>=-Ends, last-Ends, then-Ends, pure-Ends, weaken-Ends, transaction-Ends,
}
use portfolio_itmo.Common.Table.{update_where, count_where, select_where, order_by, count-update}
use portfolio_itmo.Cfa.Decimal.{Decimals, SumLaws}
use portfolio_itmo.Cfa.Models.{BondIssue, Position, entity_investor, entity_issue}
use portfolio_itmo.Cfa.Repo.{Tables, sql, is_investor, add_balance}
use portfolio_itmo.Cfa.Repo.Totals.{cash, cash-update, units}
use portfolio_itmo.Cfa.Repo.Steps.{update_balance-Step, append_event-Step}
use portfolio_itmo.Cfa.Maturity.{
  of_issue, get_holders, cleared, zero_out, is_open, as_matured, close_issue, matured_event,
  redeem_each, redeem, redeem_issue,
}
use mathlib.Core.List.{reverse}

module _ {D : Type 0} where
  abbrev holders_of : ℕ → List (Position D) → List (Position D)
  holders_of issue rows = reverse (
      order_by (λ (p : Position D). p.quantity)
        (select_where (λ (p : Position D). of_issue issue p && ltb 0 p.quantity) rows))

  module _ (t : Tables D) where
    get_holders-Step :
        (issue : ℕ) → Step t (get_holders issue) (λ hs. hs ≡ holders_of issue t.positions) (λ _. t)
    unfolding get_holders exec
    get_holders-Step issue = record { steps = λ db a same h. ground arith }

    zero_out-Step :
        (issue : ℕ)
        → Step t
            (zero_out issue)
            (λ _. Unit {0})
            (λ _. record t { positions = update_where (of_issue issue) cleared t.positions })
    unfolding zero_out exec
    zero_out-Step issue = record { steps = λ db a same h. ground arith }

    close_issue-Step :
        (id : ℕ)
        → Step t
            (close_issue id)
            (λ _. Unit {0})
            (λ _. record t { issues = update_where (is_open id) as_matured t.issues })
    unfolding close_issue exec
    close_issue-Step id = record { steps = λ db a same h. ground arith }

  units-cleared :
      (issue : ℕ) (rows : List (Position D))
      → units issue (update_where (of_issue issue) cleared rows) ≡ 0
  unfolding update_where
  units-cleared issue [] = refl
  units-cleared issue (p ∷ rows) = ground (arith, units-cleared issue rows)

  units-others :
      (issue i : ℕ) (rows : List (Position D))
      → i ≢ issue
      → units i (update_where (of_issue issue) cleared rows) ≡ units i rows
  unfolding update_where
  units-others issue i [] other = refl
  units-others issue i (p ∷ rows) other =
      ground (arith, ==_iff p.issue_id issue, ==_iff p.issue_id i, units-others issue i rows other)

module _ {D : Type 0} (decimals : Decimals D) where
  -- The nominal of each unit that the holders have.
  abbrev pub owed : D → List (Position D) → D
  owed nominal [] = decimals.zero
  owed nominal (h ∷ hs) =
      decimals.add (decimals.mul nominal (decimals.from_int h.quantity)) (owed nominal hs)

  -- No two investors have an id.
  abbrev pub HasKeys : Tables D → Type 0
  HasKeys t = (id : ℕ) → count_where (is_investor id) t.investors ≤ 1

  record IsPaid (t left : Tables D) (sum : D) : Type 0 where
    cash_paid : cash decimals left.investors ≡ decimals.add (cash decimals t.investors) sum
    same_positions : left.positions ≡ t.positions
    same_issues : left.issues ≡ t.issues
    same_ids :
        (id : ℕ)
        → count_where (is_investor id) left.investors ≡ count_where (is_investor id) t.investors

  pub record IsRedeemed (issue : BondIssue D) (t left : Tables D) : Type 0 where
    pub nominal_paid :
        cash decimals left.investors
        ≡ decimals.add
            (cash decimals t.investors)
            (owed issue.nominal (holders_of issue.id t.positions))
    pub none_held : units issue.id left.positions ≡ 0
    pub others_kept : (i : ℕ) → i ≢ issue.id → units i left.positions ≡ units i t.positions
    pub ids_kept :
        (id : ℕ)
        → count_where (is_investor id) left.investors ≡ count_where (is_investor id) t.investors
    pub closed : left.issues ≡ update_where (is_open issue.id) as_matured t.issues

  module _ (laws : SumLaws decimals) where
    redeem_each-pays :
        (nominal : D) (hs : List (Position D)) (t : Tables D)
        → HasKeys t
        → Ends t (redeem_each decimals nominal hs) (λ _ left. IsPaid t left (owed nominal hs))
    unfolding redeem_each
    redeem_each-pays nominal [] t keys = pure-Ends (record {
      cash_paid = sym (laws.add_zero (cash decimals t.investors));
      same_positions = refl;
      same_issues = refl;
      same_ids = λ id. refl;
    })
    redeem_each-pays nominal (h ∷ hs) t keys =
        let amount = decimals.mul nominal (decimals.from_int h.quantity) in
        >>=-Ends (update_balance-Step t decimals h.investor_id amount) λ u found.
          >>=-Ends (append_event-Step _ (matured_event entity_investor h.investor_id)) λ v w.
            weaken-Ends
              (redeem_each-pays nominal hs _ λ id. ground (
                arith,
                keys id,
                count-update (is_investor id) (is_investor h.investor_id)
                    (add_balance decimals amount) (λ r. refl) t.investors,
              ))
              λ x left rest. record {
                cash_paid =
                    rest.cash_paid
                    ∙ ap (λ c. decimals.add c (owed nominal hs))
                        (cash-update decimals laws h.investor_id amount t.investors
                          (keys h.investor_id) found)
                    ∙ laws.add_assoc (cash decimals t.investors) amount (owed nominal hs);
                same_positions = rest.same_positions;
                same_issues = rest.same_issues;
                same_ids = λ id.
                    rest.same_ids id
                    ∙ count-update (is_investor id) (is_investor h.investor_id)
                        (add_balance decimals amount) (λ r. refl) t.investors;
              }

    redeem-redeems :
        (issue : BondIssue D) (hs : List (Position D)) (t : Tables D)
        → hs ≡ holders_of issue.id t.positions
        → HasKeys t
        → Ends t (redeem decimals issue hs) (λ _ left. IsRedeemed issue t left)
    unfolding redeem
    redeem-redeems issue hs t read keys =
        then-Ends (redeem_each-pays issue.nominal hs t keys) λ u t1 done.
          >>=-Ends (zero_out-Step t1 issue.id) λ v w. >>=-Ends (close_issue-Step _ issue.id) λ x y.
            last-Ends (append_event-Step _ (matured_event entity_issue issue.id)) λ z zz. record {
              nominal_paid =
                  done.cash_paid
                  ∙ ap
                      (λ (rows : List (Position D)).
                        decimals.add (cash decimals t.investors) (owed issue.nominal rows))
                      read;
              ids_kept = done.same_ids;
              none_held = units-cleared issue.id t1.positions;
              others_kept = λ i other.
                  units-others issue.id i t1.positions other
                  ∙ ap (λ (rows : List (Position D)). units i rows) done.same_positions;
              closed =
                  ap
                    (λ (rows : List (BondIssue D)). update_where (is_open issue.id) as_matured rows)
                    done.same_issues;
            }

    -- A redemption that returns no error, where no two investors have an id and sums of decimals are
    -- exact: the total of the balances has grown by the nominal of every unit in the positions of
    -- the issue above 0, nobody holds a unit of the issue, the units of the other issues and the
    -- number of the investors with an id are as they were, and the issue is matured where it was
    -- active.
    pub redeem_issue-ok :
        (issue : BondIssue D) (db : Database (Tables D))
        → HasKeys db.tables
        → (redeem_issue decimals issue db).0 ≡ ok tt
        → IsRedeemed issue db.tables (redeem_issue decimals issue db).1.tables
    unfolding redeem_issue
    redeem_issue-ok issue db keys h =
        (>>=-Ends
            {f = λ hs.
              transaction (sql "begin maturity tx") (sql "commit redemption")
                (redeem decimals issue hs)}
            (get_holders-Step db.tables issue.id)
            λ hs read. transaction-Ends _ _ (redeem-redeems issue hs db.tables read keys)).ends
          db tt refl h
