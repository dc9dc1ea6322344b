-- ===== src/Mpc/Node/Columns.antt =====
-- The shares of a session's inputs, read slot by slot and node by node: the sums are the same.
use portfolio_itmo.Common.{
  ℕ, zero, suc, ◌+◌, ◌<◌, ◌≡◌, refl, ap, ◌∙◌, arith, List, [], ◌∷◌, All, length,
}
use portfolio_itmo.Common.Congruence.{Cong, Cong-refl, Cong-add}
use portfolio_itmo.Common.Equality.{nat_eq}
use portfolio_itmo.Common.Table.{order_by}
use portfolio_itmo.Mpc.Field.{FieldElement}
use portfolio_itmo.Mpc.Sharing.Laws.{sum_v}
use portfolio_itmo.Mpc.Session.Inputs.{share_data, share_at}
use portfolio_itmo.Mpc.Session.Task.{ShareData}
use portfolio_itmo.Mpc.Session.Inputs.Shares.{slot_sum}

-- The sum of h i, h (i + 1), …, with k summands.
abbrev pub sum_from : (ℕ → ℕ) → ℕ → ℕ → ℕ
sum_from h i zero = 0
sum_from h i (suc k) = h i + sum_from h (i + 1) k

sum_from-add :
    (g h : ℕ → ℕ) (i k : ℕ) → sum_from (λ j. g j + h j) i k ≡ sum_from g i k + sum_from h i k
sum_from-add g h i zero = omega arith
sum_from-add g h i (suc k) = omega (arith, sum_from-add g h (i + 1) k)

sum_from-shift : (h : ℕ → ℕ) (i k : ℕ) → sum_from h (i + 1) k ≡ sum_from (λ j. h (suc j)) i k
sum_from-shift h i zero = refl
sum_from-shift h i (suc k) =
    let next : i + 1 ≡ suc i = omega arith in omega (arith, ap h next, sum_from-shift h (i + 1) k)

sum_from-zero : (i k : ℕ) → sum_from (λ j. 0) i k ≡ 0
sum_from-zero i zero = refl
sum_from-zero i (suc k) = omega (arith, sum_from-zero (i + 1) k)

pub sum_from-Cong :
    (p : ℕ) (g h : ℕ → ℕ) (i k : ℕ)
    → ((j : ℕ) → j < i + k → Cong p (g j) (h j))
    → Cong p (sum_from g i k) (sum_from h i k)
sum_from-Cong p g h i zero e = Cong-refl 0
sum_from-Cong p g h i (suc k) e =
    Cong-add (e i (omega arith)) (sum_from-Cong p g h (i + 1) k (λ j b. e j (omega (arith, b))))

-- The shares of one slot, node by node.
sum-share_at :
    (shares : List FieldElement)
    → sum_from (λ j. (share_at shares j).v) 0 (length shares) ≡ sum_v shares
sum-share_at [] = refl
sum-share_at (a ∷ shares) =
    ap (λ t. a.v + t)
      (sum_from-shift (λ j. (share_at (a ∷ shares) j).v) 0 (length shares) ∙ sum-share_at shares)

-- The sum of what one node holds.
abbrev pub column_sum : List (List FieldElement) → ℕ → ℕ
column_sum [] node = 0
column_sum (s ∷ slots) node = (share_at s node).v + column_sum slots node

pub columns-sum :
    (n : ℕ) (slots : List (List FieldElement))
    → All (λ (s : List FieldElement). length s ≡ n) slots
    → sum_from (column_sum slots) 0 n ≡ slot_sum slots
columns-sum n [] h = sum_from-zero 0 n
columns-sum n (s ∷ slots) (e, h) = omega (
  arith,
  sum_from-add (λ j. (share_at s j).v) (column_sum slots) 0 n,
  columns-sum n slots h,
  ap (λ k. sum_from (λ j. (share_at s j).v) 0 k) e,
  sum-share_at s,
)

pub order_by-share_data :
    (node i : ℕ) (slots : List (List FieldElement))
    → order_by (λ (s : ShareData). s.slot) (share_data node i slots) ≡ share_data node i slots
unfolding share_data order_by
order_by-share_data node i [] = refl
order_by-share_data node i (s ∷ []) = refl
order_by-share_data node i (s ∷ t ∷ slots) =
    ground (arith, order_by-share_data node (i + 1) (t ∷ slots))
