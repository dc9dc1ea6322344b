-- ===== src/Mpc/Beaver/Triples.antt =====
-- The coordinator's triples: what it shares among the parties is a product.
use portfolio_itmo.Common.{
  ℕ, ◌+◌, ◌-◌, ◌*◌, ◌≤◌, ◌<◌, ◌≡◌, refl, sym, ◌∙◌, arith, List, [], ◌∷◌, length, drop, length-drop,
  ok,
}
use portfolio_itmo.Common.Congruence.{Cong, Cong-trans, Cong-symm, Cong-mul}
use portfolio_itmo.Mpc.Field.{Field, FieldElement, mul, rand}
use portfolio_itmo.Mpc.Field.Laws.{mul-Cong}
use portfolio_itmo.Mpc.Sharing.Laws.{
  sum_v, drawn, shares_of, additive_share_total, length-shares_of, sum-shares_of,
}
use portfolio_itmo.Mpc.Beaver.{
  BeaverTriple, SharedTriple, generate_triple, share_triple, zip_triples,
}

-- The sum of one component of the shares.
abbrev pub component_sum : (SharedTriple → FieldElement) → List SharedTriple → ℕ
component_sum g [] = 0
component_sum g (t ∷ ts) = (g t).v + component_sum g ts

-- Shared triples whose first two components multiply to the third, modulo p.
pub record IsProductTriple (f : Field) (ts : List SharedTriple) : Type 0 where
  pub product :
      Cong f.p
        (component_sum (λ t. t.c) ts)
        (component_sum (λ t. t.a) ts * component_sum (λ t. t.b) ts)

zip_sums :
    (as' bs cs : List FieldElement)
    → length as' ≡ length bs
    → length bs ≡ length cs
    → let ts = zip_triples as' bs cs in
      (length ts ≡ length cs)
      × (component_sum (λ t. t.a) ts ≡ sum_v as')
      × (component_sum (λ t. t.b) ts ≡ sum_v bs)
      × (component_sum (λ t. t.c) ts ≡ sum_v cs)
unfolding zip_triples
zip_sums [] [] [] h k = (refl, refl, refl, refl)
zip_sums [] [] (c ∷ cs) h k = absurd (omega arith)
zip_sums [] (b ∷ bs) cs h k = absurd (omega arith)
zip_sums (a ∷ as') [] cs h k = absurd (omega arith)
zip_sums (a ∷ as') (b ∷ bs) [] h k = absurd (omega arith)
zip_sums (a ∷ as') (b ∷ bs) (c ∷ cs) h k = ground (arith, zip_sums as' bs cs)

module _ (f : Field) (positive : 0 < f.p) where
  -- `share_triple` deals every party one share of each component.
  share_triple_total :
      (t : BeaverTriple) (n : ℕ) (reader : List ℕ)
      → 2 ≤ n
      → 3 * (n - 1) ≤ length reader
      → share_triple f t n reader
        ≡ ok (
          zip_triples
              (shares_of f positive t.a n reader)
              (shares_of f positive t.b n (drop (n - 1) reader))
              (shares_of f positive t.c n (drop (n - 1) (drop (n - 1) reader))),
          drop (n - 1) (drop (n - 1) (drop (n - 1) reader)),
        )
  unfolding share_triple
  share_triple_total t n reader two enough = rw (
    additive_share_total f positive t.a n reader two (omega arith),
    additive_share_total f positive t.b n (drop (n - 1) reader) two
        (omega (arith, length-drop (n - 1) reader)),
    additive_share_total f positive t.c n (drop (n - 1) (drop (n - 1) reader)) two
        (omega (arith, length-drop (n - 1) (drop (n - 1) reader), length-drop (n - 1) reader)),
  )

  abbrev dealt : BeaverTriple → ℕ → List ℕ → List SharedTriple
  dealt t n reader =
      zip_triples (shares_of f positive t.a n reader)
        (shares_of f positive t.b n (drop (n - 1) reader))
        (shares_of f positive t.c n (drop (n - 1) (drop (n - 1) reader)))

  dealt-sums :
      (t : BeaverTriple) (n : ℕ) (reader : List ℕ)
      → 2 ≤ n
      → 3 * (n - 1) ≤ length reader
      → Cong f.p t.c.v (t.a.v * t.b.v)
      → (length (dealt t n reader) ≡ n) × IsProductTriple f (dealt t n reader)
  dealt-sums t n reader two enough product = (sums.0 ∙ length_c, record { product = congruent })
    where
      once : List ℕ
      once = drop (n - 1) reader

      twice : List ℕ
      twice = drop (n - 1) once

      length_a : length (shares_of f positive t.a n reader) ≡ n
      length_a = length-shares_of f positive t.a n reader two (omega arith)

      length_b : length (shares_of f positive t.b n once) ≡ n
      length_b =
          length-shares_of f positive t.b n once two (omega (arith, length-drop (n - 1) reader))

      length_c : length (shares_of f positive t.c n twice) ≡ n
      length_c =
          length-shares_of f positive t.c n twice two
            (omega (arith, length-drop (n - 1) once, length-drop (n - 1) reader))

      sums :
          (length (dealt t n reader) ≡ length (shares_of f positive t.c n twice))
          × (component_sum (λ t. t.a) (dealt t n reader)
              ≡ sum_v (shares_of f positive t.a n reader))
          × (component_sum (λ t. t.b) (dealt t n reader) ≡ sum_v (shares_of f positive t.b n once))
          × (component_sum (λ t. t.c) (dealt t n reader) ≡ sum_v (shares_of f positive t.c n twice))
      sums = zip_sums _ _ _ (length_a ∙ sym length_b) (length_b ∙ sym length_c)

      congruent : Cong f.p (component_sum (λ t. t.c) (dealt t n reader)) (
          component_sum (λ t. t.a) (dealt t n reader) * component_sum (λ t. t.b) (dealt t n reader))
      congruent =
          rw (sums.1, sums.2, sums.3)
            (Cong-trans (sum-shares_of f positive t.c n twice) (
              Cong-trans product (
                Cong-symm (
                  Cong-mul (sum-shares_of f positive t.a n reader)
                    (sum-shares_of f positive t.b n once)))))

  -- With 2 + 3 (n - 1) draws at hand the coordinator generates a triple and deals it to n ≥ 2
  -- parties, one shared triple each, and what it dealt is a triple of a product.
  pub share_triple-generate_triple :
      (n : ℕ) (reader : List ℕ)
      → 2 ≤ n
      → 2 + 3 * (n - 1) ≤ length reader
      → (t : BeaverTriple) × (rest : List ℕ) × (shared : List SharedTriple) × (left : List ℕ)
        × (generate_triple f reader ≡ ok (t, rest))
        × (share_triple f t n rest ≡ ok (shared, left))
        × (length shared ≡ n)
        × IsProductTriple f shared
  unfolding generate_triple rand
  share_triple-generate_triple n [] two enough = absurd (omega arith)
  share_triple-generate_triple n (a ∷ []) two enough = absurd (omega arith)
  share_triple-generate_triple n (a ∷ b ∷ rest) two enough =
      let t : BeaverTriple = record { a = drawn a; b = drawn b; c = mul f (drawn a) (drawn b) } in
      let (count, product) =
        dealt-sums t n rest two (omega arith) (mul-Cong f positive (drawn a) (drawn b)) in
      (
        t,
        rest,
        dealt t n rest,
        _,
        refl,
        share_triple_total t n rest two (omega arith),
        count,
        product,
      )
