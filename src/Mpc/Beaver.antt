-- ===== src/Mpc/Beaver.antt =====
-- projects/01-mpc-cluster/internal/protocol/beaver.go: multiplication triples, and the two local
-- halves of a multiplication of shared values.
pub mod Product
pub mod Triples
use portfolio_itmo.Common.{ℕ, ◌==◌, if◌then◌else◌, List, [], ◌∷◌, ok, ◌>>=◌}
use portfolio_itmo.Mpc.Error.{Result, wrap}
use portfolio_itmo.Mpc.Error
use portfolio_itmo.Mpc.Field.{Field, FieldElement, add, sub, mul, rand}
use portfolio_itmo.Mpc.Sharing.{additive_share}

pub record BeaverTriple : Type 0 where
  pub a : FieldElement
  pub b : FieldElement
  pub c : FieldElement

pub record SharedTriple : Type 0 where
  pub a : FieldElement
  pub b : FieldElement
  pub c : FieldElement

unfoldable pub generate_triple : Field → List ℕ → Result (BeaverTriple × List ℕ)
generate_triple f reader = do
  (a, reader) ← wrap Error.triple_factor_a (rand f reader)
  (b, reader) ← wrap Error.triple_factor_b (rand f reader)
  ok (record { a = a; b = b; c = mul f a b }, reader)

-- `out[i] = SharedTriple{A: aShares[i], B: bShares[i], C: cShares[i]}` for every i; the three
-- slices have the same length.
unfoldable pub zip_triples :
    List FieldElement → List FieldElement → List FieldElement → List SharedTriple
zip_triples (a ∷ as') (b ∷ bs) (c ∷ cs) = record { a = a; b = b; c = c } ∷ zip_triples as' bs cs
zip_triples _ _ _ = []

unfoldable pub share_triple :
    Field → BeaverTriple → ℕ → List ℕ → Result (List SharedTriple × List ℕ)
unfolding zip_triples
share_triple f t n reader = do
  (a_shares, reader) ← wrap Error.share_a (additive_share f t.a n reader)
  (b_shares, reader) ← wrap Error.share_b (additive_share f t.b n reader)
  (c_shares, reader) ← wrap Error.share_c (additive_share f t.c n reader)
  ok (zip_triples a_shares b_shares c_shares, reader)

unfoldable pub mul_open :
    Field → FieldElement → FieldElement → SharedTriple → FieldElement × FieldElement
mul_open f x_share y_share t = (sub f x_share t.a, sub f y_share t.b)

unfoldable pub mul_finalize : Field → FieldElement → FieldElement → SharedTriple → ℕ → FieldElement
mul_finalize f d e t my_index =
    let res = add f (add f t.c (mul f d t.b)) (mul f e t.a) in
    if my_index == 0 then add f res (mul f d e) else res
