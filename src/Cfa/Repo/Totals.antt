-- ===== src/Cfa/Repo/Totals.antt =====
-- What the statements of projects/03-cfa-bonds/internal/repo do to the total of the balances and to
-- the units of an issue that are held.
use portfolio_itmo.Common.{
  ℕ, ◌+◌, ◌≤◌, ◌<◌, ◌≡◌, refl, arith, List, [], ◌∷◌, none, some, ◌==◌, ==_iff, if◌then◌else◌,
  Option-cases, inl, inr,
}
use portfolio_itmo.Common.Table.{
  update_where, count_where, find_where, update-count_zero, count-find, find-count, count-update,
}
use portfolio_itmo.Cfa.Decimal.{Decimals, SumLaws, add_right_comm}
use portfolio_itmo.Cfa.Models.{Investor, Position}
use portfolio_itmo.Cfa.Repo.{is_investor, is_position, add_balance, put_position}

-- A quantity where an issue is the one looked at.
abbrev pub in_issue : ℕ → ℕ → ℕ → ℕ
in_issue issue other quantity = if issue == other then quantity else 0

module _ {D : Type 0} where
  -- The units of an issue that are held.
  abbrev pub units : ℕ → List (Position D) → ℕ
  units issue [] = 0
  units issue (p ∷ rows) =
      let rest = units issue rows in if p.issue_id == issue then p.quantity + rest else rest

  abbrev pub set_position : ℕ → D → Position D → Position D
  set_position quantity price r = record r { quantity = quantity; avg_price = price }

  units-update :
      (investor issue quantity i : ℕ) (price : D) (rows : List (Position D)) {r : Position D}
      → count_where (is_position investor issue) rows ≤ 1
      → find_where (is_position investor issue) rows ≡ some r
      → units i (update_where (is_position investor issue) (set_position quantity price) rows)
          + in_issue issue i r.quantity
        ≡ units i rows + in_issue issue i quantity
  unfolding count_where find_where update_where
  units-update investor issue quantity i price [] one found = absurd cc
  units-update investor issue quantity i price (p ∷ rows) {r} one found = ground (
    arith,
    ==_iff p.issue_id issue,
    units-update investor issue quantity i price rows {r = r},
    update-count_zero (is_position investor issue) (set_position quantity price) rows,
  )

  -- A position that is put replaces what its investor held of the issue.
  pub units-put_position :
      (p : Position D) (i : ℕ) (rows : List (Position D)) {held : ℕ}
      → count_where (is_position p.investor_id p.issue_id) rows ≤ 1
      → (elim (find_where (is_position p.investor_id p.issue_id) rows) [
        | none ↦ 0
        | some r ↦ r.quantity
      ])
        ≡ held
      → units i (put_position p rows) + in_issue p.issue_id i held
        ≡ units i rows + in_issue p.issue_id i p.quantity
  units-put_position p i rows {held} one found =
      elim (Option-cases (find_where (is_position p.investor_id p.issue_id) rows)) [
        | inl e ↦ ground (arith, e, found, find-count (is_position p.investor_id p.issue_id) rows)
        | inr (r, e) ↦ ground (
          arith,
          e,
          found,
          count-find (is_position p.investor_id p.issue_id) rows,
          units-update p.investor_id p.issue_id p.quantity i p.avg_price rows {r = r} one e,
        )
      ]

  pub count-put_position :
      (p : Position D) (investor issue : ℕ) (rows : List (Position D))
      → count_where (is_position investor issue) rows ≤ 1
      → count_where (is_position investor issue) (put_position p rows) ≤ 1
  unfolding count_where
  count-put_position p investor issue rows one = ground (
    arith,
    count-update (is_position investor issue) (is_position p.investor_id p.issue_id)
        (set_position p.quantity p.avg_price) (λ r. refl) rows,
    ==_iff p.investor_id investor,
    ==_iff p.issue_id issue,
  )

module _ {D : Type 0} (decimals : Decimals D) where
  -- The total of the balances.
  abbrev pub cash : List (Investor D) → D
  cash [] = decimals.zero
  cash (i ∷ rows) = decimals.add i.balance (cash rows)

  module _ (laws : SumLaws decimals) where
    pub cash-update :
        (id : ℕ) (delta : D) (rows : List (Investor D))
        → count_where (is_investor id) rows ≤ 1
        → 0 < count_where (is_investor id) rows
        → cash (update_where (is_investor id) (add_balance decimals delta) rows)
          ≡ decimals.add (cash rows) delta
    unfolding count_where update_where
    cash-update id delta [] one found = absurd (omega (arith, found))
    cash-update id delta (i ∷ rows) one found = ground (
      arith,
      cash-update id delta rows,
      update-count_zero (is_investor id) (add_balance decimals delta) rows,
      add_right_comm decimals laws i.balance delta (cash rows),
      laws.add_assoc i.balance (cash rows) delta,
    )
