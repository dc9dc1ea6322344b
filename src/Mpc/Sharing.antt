-- ===== src/Mpc/Sharing.antt =====
-- projects/01-mpc-cluster/internal/protocol/sharing.go: additive shares, and the checks around the
-- Shamir shares of hashicorp/vault, whose `Split` and `Combine` are arguments here.
-- Counts of parties are natural numbers: the code refuses a negative one as it refuses 0.
pub mod Laws
use portfolio_itmo.Common.{
  ℕ, zero, suc, ◌+◌, ◌-◌, ◌||◌, List, [], ◌∷◌, ◌++◌, ltb, ◌==◌, if◌then◌else◌, length, ok, err,
  ◌>>=◌,
}
use portfolio_itmo.Common
use portfolio_itmo.Mpc.Error.{Error, Result, wrap}
use portfolio_itmo.Mpc.Error
use portfolio_itmo.Mpc.Field.{Field, FieldElement, zero_element, add, sub, rand}
use mathlib.Core.List.{foldl}

-- The first `k` shares from number `i` on, with the sum that `acc` reaches.
share_loop :
    Field → ℕ → ℕ → ℕ → FieldElement → List ℕ → Result (List FieldElement × FieldElement × List ℕ)
share_loop f n i zero acc reader = ok ([], acc, reader)
share_loop f n i (suc k) acc reader = do
  (r, reader) ← wrap (Error.share i n) (rand f reader)
  (shares, acc, reader) ← share_loop f n (i + 1) k (add f acc r) reader
  ok (r ∷ shares, acc, reader)

unfoldable pub additive_share :
    Field → FieldElement → ℕ → List ℕ → Result (List FieldElement × List ℕ)
unfolding share_loop
additive_share f secret n reader = if ltb n 2 then err (Error.need_parties n) else (do
  (shares, acc, reader) ← share_loop f n 0 (n - 1) zero_element reader
  ok (shares ++ (sub f secret acc ∷ []), reader))

unfoldable pub additive_recombine : Field → List FieldElement → FieldElement
additive_recombine f shares = foldl (add f) zero_element shares

module _ (Split : List ℕ → ℕ → ℕ → Result (List (List ℕ))) where
  unfoldable pub shamir_split : List ℕ → ℕ → ℕ → Result (List (List ℕ))
  shamir_split secret n threshold =
      if ltb threshold 2 || ltb n threshold
      then err (Error.invalid_threshold threshold n)
      else wrap (Error.shamir_split n threshold) (Split secret n threshold)

module _ (Combine : List (List ℕ) → Result (List ℕ)) where
  unfoldable pub shamir_combine : List (List ℕ) → Result (List ℕ)
  shamir_combine parts =
      if length parts == 0
      then err Error.no_parts
      else wrap (Error.shamir_combine (length parts)) (Combine parts)
