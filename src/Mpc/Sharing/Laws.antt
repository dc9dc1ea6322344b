-- ===== src/Mpc/Sharing/Laws.antt =====
-- Additive shares recombine to the secret, and all but the last are the random numbers drawn.
use portfolio_itmo.Common.{
  ℕ, zero, suc, ◌+◌, ◌-◌, ◌≤◌, ◌<◌, ◌≡◌, ◌∙◌, ap, refl, arith, List, [], ◌∷◌, ◌++◌, map, length,
  take, drop, length-append, length-map, length-take, take-append_eq, ok,
}
use portfolio_itmo.Common.Congruence.{
  Cong, Cong-refl, Cong-of_eq, Cong-trans, Cong-symm, Cong-add, Cong-eq,
}
use portfolio_itmo.Mpc.Field.{Field, FieldElement, zero_element, add, sub, rand}
use portfolio_itmo.Mpc.Field.Laws.{add-Cong, add-v, sub-Cong}
use portfolio_itmo.Mpc.Sharing.{share_loop, additive_share, additive_recombine}
use mathlib.Core.List.{foldl}
use native.Mathlib.Nat.{mod-lt, add_comm, add_assoc}

-- The sum of the values, not reduced.
abbrev pub sum_v : List FieldElement → ℕ
sum_v [] = 0
sum_v (a ∷ as') = a.v + sum_v as'

pub sum_v-append : (xs ys : List FieldElement) → sum_v (xs ++ ys) ≡ sum_v xs + sum_v ys
sum_v-append [] ys = omega arith
sum_v-append (x ∷ xs) ys = omega (arith, sum_v-append xs ys)

-- A number below p as a field element: what `rand` makes of a draw.
abbrev pub drawn : ℕ → FieldElement
drawn n = record { v = n }

module _ (f : Field) (positive : 0 < f.p) where
  pub foldl-Cong :
      (acc : FieldElement) (xs : List FieldElement)
      → Cong f.p (foldl (add f) acc xs).v (acc.v + sum_v xs)
  foldl-Cong acc [] = Cong-of_eq f.p (omega arith)
  foldl-Cong acc (x ∷ xs) = Cong-trans (foldl-Cong (add f acc x) xs) (
      Cong-trans (Cong-add (add-Cong f positive acc x) (Cong-refl (sum_v xs)))
        (Cong-of_eq f.p (omega arith)))

  pub foldl-lt :
      (acc : FieldElement) (xs : List FieldElement) → acc.v < f.p → (foldl (add f) acc xs).v < f.p
  foldl-lt acc [] h = h
  foldl-lt acc (x ∷ xs) h = foldl-lt (add f acc x) xs (rw (add-v f acc x) (mod-lt _ positive))

  pub recombine-Cong : (xs : List FieldElement) → Cong f.p (additive_recombine f xs).v (sum_v xs)
  unfolding additive_recombine
  recombine-Cong xs = Cong-trans (foldl-Cong zero_element xs) (Cong-of_eq f.p (omega arith))

  pub recombine-lt : (xs : List FieldElement) → (additive_recombine f xs).v < f.p
  unfolding additive_recombine
  recombine-lt xs = foldl-lt zero_element xs positive

  -- With enough draws the loop returns them, and their sum.
  share_loop_total :
      (n i k : ℕ) (acc : FieldElement) (reader : List ℕ)
      → k ≤ length reader
      → share_loop f n i k acc reader
        ≡ ok (
          map drawn (take k reader),
          foldl (add f) acc (map drawn (take k reader)),
          drop k reader,
        )
  unfolding share_loop rand
  share_loop_total n i zero acc reader h = refl
  share_loop_total n i (suc k) acc [] h = absurd (omega arith)
  share_loop_total n i (suc k) acc (r ∷ reader) h =
      rw (share_loop_total n (i + 1) k (add f acc (drawn r)) reader (omega arith))

  abbrev loop_shares : ℕ → List ℕ → List FieldElement
  loop_shares n reader = map drawn (take (n - 1) reader)

  -- The shares that `additive_share` returns.
  pub shares_of : FieldElement → ℕ → List ℕ → List FieldElement
  shares_of secret n reader =
      loop_shares n reader
      ++ (sub f secret (foldl (add f) zero_element (loop_shares n reader)) ∷ [])

  pub additive_share_total :
      (secret : FieldElement) (n : ℕ) (reader : List ℕ)
      → 2 ≤ n
      → n - 1 ≤ length reader
      → additive_share f secret n reader ≡ ok (shares_of secret n reader, drop (n - 1) reader)
  unfolding additive_share shares_of
  additive_share_total secret n reader two enough =
      ground (arith, share_loop_total n 0 (n - 1) zero_element reader)

  pub length-shares_of :
      (secret : FieldElement) (n : ℕ) (reader : List ℕ)
      → 2 ≤ n
      → n - 1 ≤ length reader
      → length (shares_of secret n reader) ≡ n
  unfolding shares_of
  length-shares_of secret n reader two enough = omega (
    arith,
    length-append (loop_shares n reader)
        (sub f secret (foldl (add f) zero_element (loop_shares n reader)) ∷ []),
    length-map (take (n - 1) reader) drawn,
    length-take (n - 1) reader enough,
  )

  pub sum-shares_of :
      (secret : FieldElement) (n : ℕ) (reader : List ℕ)
      → Cong f.p (sum_v (shares_of secret n reader)) secret.v
  unfolding shares_of
  sum-shares_of secret n reader =
      let drawn_shares = loop_shares n reader in
      let acc = foldl (add f) zero_element drawn_shares in
      Cong-trans
        (Cong-of_eq f.p (
          sum_v-append drawn_shares (sub f secret acc ∷ [])
          ∙ add_comm (sum_v drawn_shares) ((sub f secret acc).v + 0)
          ∙ add_assoc (sub f secret acc).v 0 (sum_v drawn_shares)))
        (Cong-trans
          (Cong-add (Cong-refl (sub f secret acc).v)
            (Cong-symm (foldl-Cong zero_element drawn_shares)))
          (sub-Cong f positive secret acc))

  prefix_drawn :
      (secret : FieldElement) (n : ℕ) (reader : List ℕ)
      → n - 1 ≤ length reader
      → take (n - 1) (shares_of secret n reader) ≡ loop_shares n reader
  unfolding shares_of
  prefix_drawn secret n reader enough =
      take-append_eq (n - 1) (loop_shares n reader) _
        (length-map (take (n - 1) reader) drawn ∙ length-take (n - 1) reader enough)

  -- A secret below p, shared among n ≥ 2 parties with n - 1 draws at hand, yields n shares that
  -- recombine to it; the shares but the last are the draws themselves, whatever the secret is.
  pub recombine-additive_share :
      (secret : FieldElement) (n : ℕ) (reader : List ℕ)
      → secret.v < f.p
      → 2 ≤ n
      → n - 1 ≤ length reader
      → (shares : List FieldElement) × (additive_share f secret n reader
          ≡ ok (shares, drop (n - 1) reader))
        × (length shares ≡ n)
        × (additive_recombine f shares ≡ secret)
        × (take (n - 1) shares ≡ map drawn (take (n - 1) reader))
  recombine-additive_share secret n reader below two enough = (
    shares_of secret n reader,
    additive_share_total secret n reader two enough,
    length-shares_of secret n reader two enough,
    ap drawn (
        Cong-eq (Cong-trans (recombine-Cong _) (sum-shares_of secret n reader)) (recombine-lt _)
          below),
    prefix_drawn secret n reader enough,
  )
