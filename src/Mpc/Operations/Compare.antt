-- ===== src/Mpc/Operations/Compare.antt =====
-- `secure_compare` run by all parties: when the comparison of the recombined inputs is right, and
-- where it is wrong.
use portfolio_itmo.Common.{
  ℕ, suc, ◌+◌, ◌-◌, ◌/◌, ◌<◌, ◌≤◌, ◌≡◌, refl, sym, ap, ◌∙◌, arith, List, [], ◌∷◌, map, ltb, ◌==◌,
  if◌then◌else◌, ◌||◌, All, ok, false, ◌>>=◌, inl, inr, ◌⊎◌,
}
use portfolio_itmo.Common.Int.{pos}
use portfolio_itmo.Common.Congruence.{
  Cong, Cong-refl, Cong-of_eq, Cong-trans, Cong-symm, Cong-add, Cong-eq,
}
use portfolio_itmo.Mpc.Error.{Result}
use portfolio_itmo.Mpc.Field.{Field, FieldElement, add, sub, from_int, to_bytes, zero_element}
use portfolio_itmo.Mpc.Field.Laws.{sub-Cong, sub-lt, from_bytes-to_bytes, from_int-pos}
use portfolio_itmo.Mpc.Sharing.{additive_recombine}
use portfolio_itmo.Mpc.Sharing.Laws.{sum_v, recombine-Cong, recombine-lt, drawn}
use portfolio_itmo.Mpc.Beaver.Product.{Party, sum_of, sum_v-map, recombine-sum_of, xs, ys}
use portfolio_itmo.Mpc.Beaver.{SharedTriple}
use portfolio_itmo.Mpc.Operations.{PeerNetwork, open_differences, greater, secure_compare}
use portfolio_itmo.Mpc.Operations.Rounds.{Seat, parties_of, Delivers, others, opened_same}
use mathlib.Core.List.{Perm, foldl}
use native.Mathlib.Decide.{dec_lt}
use native.Mathlib.Nat.{mod-eq_of_lt, mod-eq-sub-mod}

-- The test on the opened number, for the number o below p with o + y ≡ x modulo p.
module _ (f : Field) (o : FieldElement) (x y : ℕ) (below : o.v < f.p)
    (h : Cong f.p (o.v + y) x) where
  -- The opened number is the difference, or the difference with p added.
  difference_cases : x < f.p → y < f.p → (o.v + y ≡ x) ⊎ (o.v + y ≡ x + f.p)
  difference_cases hx hy = elim (dec_lt (o.v + y) f.p) [
    | yes small ↦ inl (sym (mod-eq_of_lt small) ∙ h.same ∙ mod-eq_of_lt hx)
    | no large ↦ inr (
        omega (
          arith,
          sym (mod-eq_of_lt {n = o.v + y - f.p} (omega arith))
              ∙ sym (mod-eq-sub-mod {n = o.v + y} {m = f.p} (omega arith))
              ∙ h.same
              ∙ mod-eq_of_lt hx,
        ))
  ]

  greater-small : x < f.p / 2 → y < f.p / 2 → greater f o ≡ (if ltb y x then 1 else 0)
  unfolding greater
  greater-small hx hy = elim (difference_cases (omega arith) (omega arith)) [
    | inl e ↦ ground arith
    | inr e ↦ ground arith
  ]

  greater-far : x < f.p → y + f.p / 2 ≤ x → greater f o ≡ 0
  unfolding greater
  greater-far hx far = elim (difference_cases hx (omega arith)) [
    | inl e ↦ ground arith
    | inr e ↦ ground arith
  ]

pub difference : Field → Party → FieldElement
difference f q = sub f q.x q.y

abbrev pub difference_messages : Field → List (ℕ × Party) → List (ℕ × List ℕ)
difference_messages f [] = []
difference_messages f ((sender, q) ∷ rest) =
    (sender, to_bytes (difference f q)) ∷ difference_messages f rest

-- What party number i returns for the opened difference.
verdict : Field → FieldElement → ℕ → FieldElement
verdict f opened i = if i == 0 then from_int f (pos (greater f opened)) else zero_element

verdicts : Field → FieldElement → ℕ → List Party → List FieldElement
verdicts f opened i [] = []
verdicts f opened i (q ∷ qs) = verdict f opened i ∷ verdicts f opened (suc i) qs

in_range : (bit_len : ℕ) → 0 < bit_len → bit_len ≤ 126 → (bit_len == 0 || ltb 126 bit_len) ≡ false
in_range bit_len lo hi = ground arith

-- Every party in its seat, one after the other, from number `i` on.
module _ (f : Field) {S : Type 0} (net : PeerNetwork S) where
  -- The network delivers to this seat the messages of all the other parties.
  pub record IsServed (parties : List Party) (c : Seat S) : Type 0 where
    pub delivers :
        Delivers net c.state (to_bytes (difference f c.party)) (difference_messages f c.peers)
    pub complete : Perm (c.party ∷ others c.peers) parties

  module _ (triples : List SharedTriple) (bit_len : ℕ) where
    pub run_compare : ℕ → List (Seat S) → Result (List FieldElement)
    run_compare i [] = ok []
    run_compare i (c ∷ cs) = do
      (share, _) ← secure_compare net f c.party.x c.party.y i triples bit_len c.state
      shares ← run_compare (suc i) cs
      ok (share ∷ shares)

module _ (f : Field) (positive : 0 < f.p) where
  opened_differences :
      (peers : List (ℕ × Party)) (d : FieldElement)
      → open_differences f (difference_messages f peers) d
        ≡ foldl (add f) d (map (difference f) (others peers))
  unfolding open_differences difference
  opened_differences [] d = refl
  opened_differences ((sender, q) ∷ rest) d =
      ap (open_differences f (difference_messages f rest))
        (ap (add f d) (from_bytes-to_bytes f positive (sub f q.x q.y) (sub-lt f positive q.x q.y)))
      ∙ opened_differences rest (add f d (sub f q.x q.y))

  -- The opened difference of all parties.
  total : List Party → FieldElement
  total parties = additive_recombine f (map (difference f) parties)

  total-Cong :
      (parties : List Party) → Cong f.p ((total parties).v + sum_of ys parties) (sum_of xs parties)
  unfolding total difference
  total-Cong parties =
      Cong-trans
        (Cong-add
          (Cong-trans (recombine-Cong f positive _)
            (Cong-of_eq f.p (sum_v-map (difference f) parties)))
          (Cong-refl (sum_of ys parties)))
        (summands parties)
    where
      one : (q : Party) → Cong f.p ((difference f q).v + q.y.v) q.x.v
      one q = sub-Cong f positive q.x q.y

      summands :
          (qs : List Party) → Cong f.p (sum_of (difference f) qs + sum_of ys qs) (sum_of xs qs)
      summands [] = Cong-refl 0
      summands (q ∷ qs) = Cong-trans (Cong-of_eq f.p (omega arith)) (Cong-add (one q) (summands qs))

  secure_compare_delivered :
      {S : Type 0} (net : PeerNetwork S) (q : Party) (i : ℕ) (triples : List SharedTriple)
      (bit_len : ℕ) (s : S) (peers : List (ℕ × Party)) (parties : List Party)
      → 0 < bit_len
      → bit_len ≤ 126
      → (h : Delivers net s (to_bytes (difference f q)) (difference_messages f peers))
      → Perm (q ∷ others peers) parties
      → secure_compare net f q.x q.y i triples bit_len s
        ≡ ok (verdict f (total parties) i, h.final_state)
  unfolding secure_compare difference verdict total
  secure_compare_delivered net q i triples bit_len s peers parties lo hi h p = rw (
    in_range bit_len lo hi,
    h.sends,
    h.receives,
    opened_differences peers,
    opened_same f positive (difference f) (map (difference f)) (sum_v-map (difference f)) q
        (others peers) parties (sub-lt f positive q.x q.y) p,
  )

  greater-le-one : (o : FieldElement) → greater f o ≤ 1
  unfolding greater
  greater-le-one o = ground arith

  sum-later_verdicts :
      (o : FieldElement) (i : ℕ) (qs : List Party) → sum_v (verdicts f o (suc i) qs) ≡ 0
  unfolding verdicts verdict
  sum-later_verdicts o i [] = refl
  sum-later_verdicts o i (q ∷ qs) = ground (arith, sum-later_verdicts o (suc i) qs)

  recombine-verdicts :
      (o : FieldElement) (q : Party) (qs : List Party)
      → 1 < f.p
      → additive_recombine f (verdicts f o 0 (q ∷ qs)) ≡ record { v = greater f o }
  recombine-verdicts o q qs big = ap drawn (
      Cong-eq (Cong-trans (recombine-Cong f positive _) (Cong-of_eq f.p summed))
        (recombine-lt f positive (verdicts f o 0 (q ∷ qs))) (omega (arith, greater-le-one o)))
    where
      summed : sum_v (verdicts f o 0 (q ∷ qs)) ≡ greater f o
      summed =
          unfold verdicts verdict in
          omega (
            arith,
            ap (λ (a : FieldElement). a.v)
                (from_int-pos f (greater f o) (omega (arith, greater-le-one o))),
            sum-later_verdicts o 0 qs,
          )

  -- The opened difference is the difference of what the inputs recombine to.
  total-recombined :
      (qs : List Party)
      → Cong f.p
          ((total qs).v + (additive_recombine f (map ys qs)).v)
          (additive_recombine f (map xs qs)).v
  total-recombined qs =
      Cong-trans (Cong-add (Cong-refl (total qs).v) (recombine-sum_of f positive ys qs))
        (Cong-trans (total-Cong qs) (Cong-symm (recombine-sum_of f positive xs qs)))

  total-lt : (qs : List Party) → (total qs).v < f.p
  unfolding total
  total-lt qs = recombine-lt f positive (map (difference f) qs)

  module _ {S : Type 0} (net : PeerNetwork S) (triples : List SharedTriple) (bit_len : ℕ) where
    run_compare-verdicts :
        (parties : List Party) (i : ℕ) (cs : List (Seat S))
        → 0 < bit_len
        → bit_len ≤ 126
        → All (IsServed f net parties) cs
        → run_compare f net triples bit_len i cs ≡ ok (verdicts f (total parties) i (parties_of cs))
    unfolding run_compare verdicts
    run_compare-verdicts parties i [] lo hi h = refl
    run_compare-verdicts parties i (c ∷ cs) lo hi (h, hs) = rw (
      secure_compare_delivered net c.party i triples bit_len c.state c.peers parties lo hi
          h.delivers h.complete,
      run_compare-verdicts parties (suc i) cs lo hi hs,
    )

    -- All runs succeed, and the shares recombine to what the test says of the opened difference.
    run_compare-greater :
        (c : Seat S) (cs : List (Seat S))
        → 0 < bit_len
        → bit_len ≤ 126
        → 1 < f.p
        → All (IsServed f net (parties_of (c ∷ cs))) (c ∷ cs)
        → (shares : List FieldElement) × (run_compare f net triples bit_len 0 (c ∷ cs) ≡ ok shares)
          × (additive_recombine f shares ≡ record { v = greater f (total (parties_of (c ∷ cs))) })
    run_compare-greater c cs lo hi big h = (
      _,
      run_compare-verdicts (parties_of (c ∷ cs)) 0 (c ∷ cs) lo hi h,
      recombine-verdicts _ c.party (parties_of cs) big,
    )

    -- When every party gets the messages of all others, in any order, and the two shared numbers
    -- lie below the half of p, all runs succeed and the shares recombine to 1 if the first number
    -- is the greater one, and to 0 otherwise.
    pub secure_compare-greater :
        (c : Seat S) (cs : List (Seat S))
        → 0 < bit_len
        → bit_len ≤ 126
        → All (IsServed f net (parties_of (c ∷ cs))) (c ∷ cs)
        → (additive_recombine f (map xs (parties_of (c ∷ cs)))).v < f.p / 2
        → (additive_recombine f (map ys (parties_of (c ∷ cs)))).v < f.p / 2
        → (shares : List FieldElement) × (run_compare f net triples bit_len 0 (c ∷ cs) ≡ ok shares)
          × ((additive_recombine f shares).v ≡ (
              if ltb
                (additive_recombine f (map ys (parties_of (c ∷ cs)))).v
                (additive_recombine f (map xs (parties_of (c ∷ cs)))).v
              then 1
              else 0))
    secure_compare-greater c cs lo hi h hx hy =
        let parties = parties_of (c ∷ cs) in
        let (shares, runs, e) = run_compare-greater c cs lo hi (omega arith) h in
        (
          shares,
          runs,
          ap (λ (a : FieldElement). a.v) e
              ∙ greater-small f (total parties) _ _ (total-lt parties) (total-recombined parties) hx
                  hy,
        )

    -- When the first number exceeds the second by the half of p or more, all runs succeed and the
    -- shares recombine to 0, as if it were not the greater one.
    pub secure_compare_far :
        (c : Seat S) (cs : List (Seat S))
        → 0 < bit_len
        → bit_len ≤ 126
        → 1 < f.p
        → All (IsServed f net (parties_of (c ∷ cs))) (c ∷ cs)
        → (additive_recombine f (map ys (parties_of (c ∷ cs)))).v + f.p / 2
          ≤ (additive_recombine f (map xs (parties_of (c ∷ cs)))).v
        → (shares : List FieldElement) × (run_compare f net triples bit_len 0 (c ∷ cs) ≡ ok shares)
          × ((additive_recombine f shares).v ≡ 0)
    secure_compare_far c cs lo hi big h far =
        let parties = parties_of (c ∷ cs) in
        let (shares, runs, e) = run_compare-greater c cs lo hi big h in
        (
          shares,
          runs,
          ap (λ (a : FieldElement). a.v) e
              ∙ greater-far f (total parties) _ _ (total-lt parties) (total-recombined parties)
                  (recombine-lt f positive (map xs parties)) far,
        )
