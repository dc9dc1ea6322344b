-- ===== src/Mpc/Beaver/Product.antt =====
-- The shares that all parties compute from the opened differences recombine to the product.
use portfolio_itmo.Common.{
  ℕ, suc, ◌+◌, ◌*◌, ◌<◌, ◌≡◌, refl, ap, arith, List, [], ◌∷◌, map, ◌==◌, false,
}
use portfolio_itmo.Common.Congruence.{
  Cong, Cong-refl, Cong-of_eq, Cong-trans, Cong-symm, Cong-add, Cong-mul, Cong-eq,
}
use portfolio_itmo.Mpc.Field.{Field, FieldElement, add, mul}
use portfolio_itmo.Mpc.Field.Laws.{add-Cong, sub-Cong, mul-Cong, mul-v}
use portfolio_itmo.Mpc.Sharing.{additive_recombine}
use portfolio_itmo.Mpc.Sharing.Laws.{sum_v, recombine-Cong, recombine-lt, drawn}
use portfolio_itmo.Mpc.Beaver.{SharedTriple, mul_open, mul_finalize}
use native.Mathlib.Nat.{mod-lt}

-- What one party holds of x, of y and of a triple.
pub record Party : Type 0 where
  pub x : FieldElement
  pub y : FieldElement
  pub triple : SharedTriple

abbrev pub sum_of : (Party → FieldElement) → List Party → ℕ
sum_of g [] = 0
sum_of g (q ∷ qs) = (g q).v + sum_of g qs

abbrev pub xs : Party → FieldElement
xs q = q.x

abbrev pub ys : Party → FieldElement
ys q = q.y

abbrev pub triple_a : Party → FieldElement
triple_a q = q.triple.a

abbrev pub triple_b : Party → FieldElement
triple_b q = q.triple.b

abbrev pub triple_c : Party → FieldElement
triple_c q = q.triple.c

-- Party number i, i + 1, … run `mul_finalize` on the same opened d and e.
unfoldable pub finalize_all :
    Field → FieldElement → FieldElement → ℕ → List Party → List FieldElement
finalize_all f d e i [] = []
finalize_all f d e i (q ∷ qs) = mul_finalize f d e q.triple i ∷ finalize_all f d e (suc i) qs

-- The masked differences that all parties open.
unfoldable pub opened_d : Field → List Party → List FieldElement
opened_d f [] = []
opened_d f (q ∷ qs) = (mul_open f q.x q.y q.triple).0 ∷ opened_d f qs

unfoldable pub opened_e : Field → List Party → List FieldElement
opened_e f [] = []
opened_e f (q ∷ qs) = (mul_open f q.x q.y q.triple).1 ∷ opened_e f qs

pub sum_v-map : (g : Party → FieldElement) (qs : List Party) → sum_v (map g qs) ≡ sum_of g qs
sum_v-map g [] = refl
sum_v-map g (q ∷ qs) = omega (arith, sum_v-map g qs)

module _ (f : Field) (positive : 0 < f.p) where
  pub recombine-sum_of :
      (g : Party → FieldElement) (qs : List Party)
      → Cong f.p (additive_recombine f (map g qs)).v (sum_of g qs)
  recombine-sum_of g qs =
      Cong-trans (recombine-Cong f positive (map g qs)) (Cong-of_eq f.p (sum_v-map g qs))

  three_terms :
      (d e : FieldElement) (t : SharedTriple)
      → Cong f.p
          (add f (add f t.c (mul f d t.b)) (mul f e t.a)).v
          (t.c.v + d.v * t.b.v + e.v * t.a.v)
  three_terms d e t = Cong-trans (add-Cong f positive _ _) (
      Cong-add
        (Cong-trans (add-Cong f positive _ _)
          (Cong-add (Cong-refl t.c.v) (mul-Cong f positive d t.b)))
        (mul-Cong f positive e t.a))

  finalize_first :
      (d e : FieldElement) (t : SharedTriple)
      → Cong f.p (mul_finalize f d e t 0).v (t.c.v + d.v * t.b.v + e.v * t.a.v + d.v * e.v)
  unfolding mul_finalize
  finalize_first d e t =
      Cong-trans (add-Cong f positive _ _) (Cong-add (three_terms d e t) (mul-Cong f positive d e))

  finalize_later :
      (d e : FieldElement) (t : SharedTriple) (i : ℕ)
      → Cong f.p (mul_finalize f d e t (suc i)).v (t.c.v + d.v * t.b.v + e.v * t.a.v)
  unfolding mul_finalize
  finalize_later d e t i = rw (if_later i) (three_terms d e t)
    where
      if_later : (k : ℕ) → (suc k == 0) ≡ false
      if_later k = ground arith

  sum_later :
      (d e : FieldElement) (i : ℕ) (qs : List Party)
      → Cong f.p
          (sum_v (finalize_all f d e (suc i) qs))
          (sum_of triple_c qs + d.v * sum_of triple_b qs + e.v * sum_of triple_a qs)
  unfolding finalize_all
  sum_later d e i [] = Cong-of_eq f.p (omega arith)
  sum_later d e i (q ∷ qs) =
      Cong-trans (Cong-add (finalize_later d e q.triple i) (sum_later d e (suc i) qs))
        (Cong-of_eq f.p (omega arith))

  sum_finalize :
      (d e : FieldElement) (q : Party) (qs : List Party)
      → Cong f.p (sum_v (finalize_all f d e 0 (q ∷ qs))) (
          sum_of triple_c (q ∷ qs)
          + d.v * sum_of triple_b (q ∷ qs)
          + e.v * sum_of triple_a (q ∷ qs)
          + d.v * e.v)
  unfolding finalize_all
  sum_finalize d e q qs =
      Cong-trans (Cong-add (finalize_first d e q.triple) (sum_later d e 0 qs))
        (Cong-of_eq f.p (omega arith))

  pub opened_d-Cong :
      (qs : List Party) → Cong f.p (sum_v (opened_d f qs) + sum_of triple_a qs) (sum_of xs qs)
  unfolding opened_d mul_open
  opened_d-Cong [] = Cong-refl 0
  opened_d-Cong (q ∷ qs) =
      Cong-trans (Cong-of_eq f.p (omega arith))
        (Cong-add (sub-Cong f positive q.x q.triple.a) (opened_d-Cong qs))

  pub opened_e-Cong :
      (qs : List Party) → Cong f.p (sum_v (opened_e f qs) + sum_of triple_b qs) (sum_of ys qs)
  unfolding opened_e mul_open
  opened_e-Cong [] = Cong-refl 0
  opened_e-Cong (q ∷ qs) =
      Cong-trans (Cong-of_eq f.p (omega arith))
        (Cong-add (sub-Cong f positive q.y q.triple.b) (opened_e-Cong qs))

  -- (d + A) (e + B) = A B + d B + e A + d e
  expand :
      (d e a b c x y : ℕ)
      → Cong f.p (d + a) x
      → Cong f.p (e + b) y
      → Cong f.p c (a * b)
      → Cong f.p (c + d * b + e * a + d * e) (x * y)
  expand d e a b c x y hx hy hc =
      Cong-trans
        (Cong-add (Cong-add (Cong-add hc (Cong-refl (d * b))) (Cong-refl (e * a)))
          (Cong-refl (d * e)))
        (Cong-trans (Cong-of_eq f.p (omega arith)) (Cong-mul hx hy))

  -- When d and e are the sums of the masked differences and the triple is one of a product, the
  -- finalized shares recombine to the product of the shared values.
  pub recombine-finalize_all :
      (d e : FieldElement) (q : Party) (qs : List Party)
      → Cong f.p d.v (sum_v (opened_d f (q ∷ qs)))
      → Cong f.p e.v (sum_v (opened_e f (q ∷ qs)))
      → Cong f.p (sum_of triple_c (q ∷ qs)) (sum_of triple_a (q ∷ qs) * sum_of triple_b (q ∷ qs))
      → additive_recombine f (finalize_all f d e 0 (q ∷ qs))
        ≡ mul f (additive_recombine f (map xs (q ∷ qs))) (additive_recombine f (map ys (q ∷ qs)))
  recombine-finalize_all d e q qs hd he hc =
      ap drawn (
        Cong-eq (Cong-trans (recombine-Cong f positive _) product) (recombine-lt f positive _)
          below)
    where
      parties : List Party
      parties = q ∷ qs

      recombined :
          (g : Party → FieldElement)
          → Cong f.p (sum_of g parties) (additive_recombine f (map g parties)).v
      recombined g = Cong-symm (recombine-sum_of g parties)

      below :
          (mul f (additive_recombine f (map xs parties)) (additive_recombine f (map ys parties))).v
          < f.p
      below = rw (mul-v f) (mod-lt _ positive)

      product :
          Cong f.p
            (sum_v (finalize_all f d e 0 parties))
            (mul f
              (additive_recombine f (map xs parties))
              (additive_recombine f (map ys parties))).v
      product = Cong-trans (sum_finalize d e q qs) (
          Cong-trans
            (expand d.v e.v (sum_of triple_a parties) (sum_of triple_b parties)
              (sum_of triple_c parties) _ _
              (Cong-trans
                (Cong-trans (Cong-add hd (Cong-refl (sum_of triple_a parties)))
                  (opened_d-Cong parties))
                (recombined xs))
              (Cong-trans
                (Cong-trans (Cong-add he (Cong-refl (sum_of triple_b parties)))
                  (opened_e-Cong parties))
                (recombined ys))
              hc)
            (Cong-symm (mul-Cong f positive _ _)))
