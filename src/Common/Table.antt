-- ===== src/Common/Table.antt =====
-- A table of a SQL database as the list of its rows, and the statements that the programs send.
use portfolio_itmo.Common.Tests.{if◌then◌else◌, ltb}
use Prim.Native.Nat.{ℕ, suc, ◌≤◌, ◌<◌}
use mathlib.Core.Path.{◌≡◌, refl}
use mathlib.Core.Bool.{Bool, true, ◌&&◌}
use mathlib.Core.Option.{Option, none, some}
use mathlib.Core.Option
use mathlib.Core.List.{List, [], ◌∷◌}
use native.Mathlib.Omega.{arith}

module _ {A : Type 0} where
  -- `UPDATE … SET change WHERE test`
  unfoldable pub update_where : (A → Bool) → (A → A) → List A → List A
  update_where test change [] = []
  update_where test change (r ∷ rows) =
      (if test r then change r else r) ∷ update_where test change rows

  -- The rows that an `UPDATE` affects, and `SELECT count(*)`.
  unfoldable pub count_where : (A → Bool) → List A → ℕ
  count_where test [] = 0
  count_where test (r ∷ rows) =
      let rest = count_where test rows in if test r then suc rest else rest

  -- `SELECT … WHERE test`, of one row.
  unfoldable pub find_where : (A → Bool) → List A → Option A
  find_where test [] = none
  find_where test (r ∷ rows) = let rest = find_where test rows in if test r then some r else rest

  -- `SELECT … WHERE test`
  unfoldable pub select_where : (A → Bool) → List A → List A
  select_where test [] = []
  select_where test (r ∷ rows) =
      let rest = select_where test rows in if test r then r ∷ rest else rest

  -- `ORDER BY key`, ascending; rows of one key keep their order.
  insert_by : (A → ℕ) → A → List A → List A
  insert_by key r [] = r ∷ []
  insert_by key r (q ∷ rows) =
      let rest = insert_by key r rows in if ltb (key q) (key r) then q ∷ rest else r ∷ q ∷ rows

  unfoldable pub order_by : (A → ℕ) → List A → List A
  unfolding insert_by
  order_by key [] = []
  order_by key (r ∷ rows) = insert_by key r (order_by key rows)

  count-insert_by :
      (test : A → Bool) (key : A → ℕ) (r : A) (rows : List A)
      → count_where test (insert_by key r rows) ≡ count_where test (r ∷ rows)
  unfolding count_where insert_by
  count-insert_by test key r [] = refl
  count-insert_by test key r (q ∷ rows) = ground (arith, count-insert_by test key r rows)

  pub count-order_by :
      (test : A → Bool) (key : A → ℕ) (rows : List A)
      → count_where test (order_by key rows) ≡ count_where test rows
  unfolding count_where order_by
  count-order_by test key [] = refl
  count-order_by test key (r ∷ rows) =
      ground (arith, count-insert_by test key r (order_by key rows), count-order_by test key rows)

  pub count-select_where :
      (test more : A → Bool) (rows : List A)
      → count_where test (select_where more rows) ≡ count_where (λ r. more r && test r) rows
  unfolding count_where select_where
  count-select_where test more [] = refl
  count-select_where test more (r ∷ rows) = ground (arith, count-select_where test more rows)

  -- Some row is affected exactly when one is found.
  pub find-count :
      (test : A → Bool) (rows : List A) → (find_where test rows ≡ none) → count_where test rows ≡ 0
  unfolding find_where count_where
  find-count test [] h = refl
  find-count test (r ∷ rows) h = ground (arith, find-count test rows)

  pub count-find :
      (test : A → Bool) (rows : List A) → count_where test rows ≡ 0 → find_where test rows ≡ none
  unfolding find_where count_where
  count-find test [] h = refl
  count-find test (r ∷ rows) h = ground (arith, count-find test rows)

  pub find_sound :
      (test : A → Bool) (rows : List A) {r : A} → find_where test rows ≡ some r → test r ≡ true
  unfolding find_where
  find_sound test [] h = cc
  find_sound test (x ∷ rows) {r} h = ground (arith, find_sound test rows {r = r})

  -- A row that is looked up by its key after an update that keeps the key.
  pub find-update :
      (key test : A → Bool) (change : A → A)
      → ((r : A) → key (change r) ≡ key r)
      → (rows : List A)
      → find_where key (update_where test change rows)
        ≡ Option.map (λ r. if test r then change r else r) (find_where key rows)
  unfolding find_where update_where
  find-update key test change keeps [] = refl
  find-update key test change keeps (r ∷ rows) =
      ground (arith, keeps r, find-update key test change keeps rows)

  pub count-update :
      (key test : A → Bool) (change : A → A)
      → ((r : A) → key (change r) ≡ key r)
      → (rows : List A) → count_where key (update_where test change rows) ≡ count_where key rows
  unfolding count_where update_where
  count-update key test change keeps [] = refl
  count-update key test change keeps (r ∷ rows) =
      ground (arith, keeps r, count-update key test change keeps rows)

  none_later :
      (key more : A → Bool) (rows : List A)
      → count_where (λ x. key x && more x) rows ≤ count_where key rows
  unfolding count_where
  none_later key more [] = omega arith
  none_later key more (x ∷ rows) = ground (arith, none_later key more rows)

  -- Where a key is unique, a row of that key with a further property is the one that is found.
  pub find_unique :
      (key more : A → Bool) (rows : List A) {r : A}
      → count_where key rows ≤ 1
      → 0 < count_where (λ x. key x && more x) rows
      → find_where key rows ≡ some r
      → more r ≡ true
  unfolding find_where count_where
  find_unique key more [] one some_row found = cc
  find_unique key more (x ∷ rows) {r} one some_row found =
      ground (arith, find_unique key more rows {r = r}, none_later key more rows)

  -- An update that affects no row changes nothing.
  pub update-count_zero :
      (test : A → Bool) (change : A → A) (rows : List A)
      → count_where test rows ≡ 0
      → update_where test change rows ≡ rows
  unfolding count_where update_where
  update-count_zero test change [] h = refl
  update-count_zero test change (r ∷ rows) h = ground (arith, update-count_zero test change rows)
