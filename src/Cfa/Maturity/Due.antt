-- ===== src/Cfa/Maturity/Due.antt =====
-- What a run over the issues that are due has left, in
-- projects/03-cfa-bonds/internal/maturity/service.go.
use portfolio_itmo.Common.{
  ℕ, ◌≤◌, ◌<◌, ◌≡◌, refl, sym, ap, ◌∙◌, arith, Bool, List, [], ◌∷◌, Result, ok, err, ◌&&◌, ◌==◌,
  ==_iff, if◌then◌else◌, ◌⊎◌, inl, inr,
}
use portfolio_itmo.Common
use mathlib.Core.Path.{subst}
use portfolio_itmo.Common.Database.{Database, exec}
use portfolio_itmo.Common.Database.Ends.{Step, >>=-Ends}
use portfolio_itmo.Common.Table.{
  update_where, count_where, select_where, order_by, count-order_by, count-select_where,
}
use portfolio_itmo.Cfa.Decimal.{Decimals, SumLaws}
use portfolio_itmo.Cfa.Models.{BondIssue}
use portfolio_itmo.Cfa.Repo.{Tables, Error}
use portfolio_itmo.Cfa.Maturity.{
  is_due, is_open, as_matured, get_maturing, redeem_issue, redeem_issues, process_maturities,
}
use portfolio_itmo.Cfa.Maturity.Redemption.{HasKeys, redeem_issue-ok}

module _ {D : Type 0} where
  abbrev has_id : ℕ → BondIssue D → Bool
  has_id id i = i.id == id

  abbrev due_at : ℕ → ℕ → BondIssue D → Bool
  due_at as_of id i = is_due as_of i && has_id id i

  -- Every issue that is due is among those to come.
  abbrev IsCovered : ℕ → List (BondIssue D) → List (BondIssue D) → Type 0
  IsCovered as_of coming rows =
      (id : ℕ) → 0 < count_where (due_at as_of id) rows → 0 < count_where (has_id id) coming

  count-closed :
      (as_of id k : ℕ) (rows : List (BondIssue D))
      → count_where (due_at as_of id) (update_where (is_open k) as_matured rows)
        ≡ (if id == k then 0 else count_where (due_at as_of id) rows)
  unfolding count_where update_where
  count-closed as_of id k [] = ground arith
  count-closed as_of id k (i ∷ rows) =
      ground (arith, ==_iff i.id id, ==_iff i.id k, ==_iff id k, count-closed as_of id k rows)

  closed-IsCovered :
      (as_of : ℕ) (i : BondIssue D) (coming rows : List (BondIssue D))
      → IsCovered as_of (i ∷ coming) rows
      → IsCovered as_of coming (update_where (is_open i.id) as_matured rows)
  unfolding count_where
  closed-IsCovered as_of i coming rows covered id some =
      ground (arith, count-closed as_of id i.id rows, covered id, ==_iff id i.id, ==_iff i.id id)

  none_due :
      (as_of : ℕ) (rows : List (BondIssue D))
      → IsCovered as_of [] rows
      → select_where (is_due as_of) rows ≡ []
  unfolding count_where select_where
  none_due as_of [] covered = refl
  none_due as_of (i ∷ rows) covered = ground (
    arith,
    covered i.id,
    ==_iff i.id i.id,
    none_due as_of rows λ id some. ground (arith, covered id),
  )

  -- What `get_maturing` reads.
  abbrev due_of : ℕ → List (BondIssue D) → List (BondIssue D)
  due_of as_of rows =
      order_by (λ (i : BondIssue D). i.maturity_date) (select_where (is_due as_of) rows)

  due_of-IsCovered :
      (as_of : ℕ) (rows : List (BondIssue D)) → IsCovered as_of (due_of as_of rows) rows
  due_of-IsCovered as_of rows id some = omega (
    arith,
    some,
    count-order_by (has_id id) (λ (i : BondIssue D). i.maturity_date)
        (select_where (is_due as_of) rows),
    count-select_where (has_id id) (is_due as_of) rows,
  )

  get_maturing-Step :
      (t : Tables D) (as_of : ℕ)
      → Step t (get_maturing as_of) (λ coming. coming ≡ due_of as_of t.issues) (λ _. t)
  unfolding get_maturing exec
  get_maturing-Step t as_of = record { steps = λ db a same h. ground arith }

Result-cases : (r : Result Error (Unit {0})) → (r ≡ ok tt) ⊎ ((e : Error) × (r ≡ err e))
Result-cases (Common.ok u) = inl refl
Result-cases (Common.err e) = inr (e, refl)

module _ {D : Type 0} (decimals : Decimals D) (laws : SumLaws decimals) where
  redeem_issues-err :
      (e : Error) (coming : List (BondIssue D)) (db : Database (Tables D))
      → (redeem_issues decimals (err e) coming db).0 ≡ err e
  unfolding redeem_issues
  redeem_issues-err e [] db = refl
  redeem_issues-err e (i ∷ coming) db = redeem_issues-err e coming (redeem_issue decimals i db).1

  redeem_issues-none :
      (as_of : ℕ) (coming : List (BondIssue D)) (first : Result Error (Unit {0}))
      (db : Database (Tables D))
      → HasKeys decimals db.tables
      → IsCovered as_of coming db.tables.issues
      → (redeem_issues decimals first coming db).0 ≡ ok tt
      → select_where (is_due as_of) (redeem_issues decimals first coming db).1.tables.issues ≡ []
  unfolding redeem_issues
  redeem_issues-none as_of [] first db keys covered h = none_due as_of db.tables.issues covered
  redeem_issues-none as_of (i ∷ coming) (Common.err e) db keys covered h =
      let kept = redeem_issues-err e coming (redeem_issue decimals i db).1 in absurd cc
  redeem_issues-none as_of (i ∷ coming) (Common.ok u) db keys covered h =
      let out = redeem_issue decimals i db in
      elim (Result-cases out.0) [
        | inl e ↦
            let done = redeem_issue-ok decimals laws i db keys e in
            redeem_issues-none as_of coming out.0 out.1
              (λ id. omega (arith, keys id, done.ids_kept id))
              (subst (IsCovered as_of coming) (sym done.closed)
                (closed-IsCovered as_of i coming db.tables.issues covered))
              h
        | inr (e, same) ↦
            let kept = redeem_issues-err e coming out.1 in
            let read = subst (λ r. (redeem_issues decimals r coming out.1).0 ≡ ok tt) same h in
            absurd cc
      ]

  -- A run that returns no error, where no two investors have an id and sums of decimals are exact,
  -- leaves no active issue whose maturity date has come.
  pub process_maturities-ok :
      (as_of : ℕ) (db : Database (Tables D))
      → HasKeys decimals db.tables
      → (process_maturities decimals as_of db).0 ≡ ok tt
      → select_where (is_due as_of) (process_maturities decimals as_of db).1.tables.issues ≡ []
  unfolding process_maturities
  process_maturities-ok as_of db keys h =
      (>>=-Ends {f = redeem_issues decimals (ok tt)}
          {G = λ _ left. select_where (is_due as_of) left.issues ≡ []}
          (get_maturing-Step db.tables as_of)
          λ coming read. record {
            ends = λ start b same done.
                redeem_issues-none as_of coming (ok tt) start
                  (subst (HasKeys decimals) (sym same) keys)
                  (subst (λ (t : Tables D). IsCovered as_of coming t.issues) (sym same)
                    (subst (λ is. IsCovered as_of is db.tables.issues) (sym read)
                      (due_of-IsCovered as_of db.tables.issues)))
                  done;
          }).ends
        db tt refl h
