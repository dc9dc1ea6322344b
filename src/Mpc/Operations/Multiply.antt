-- ===== src/Mpc/Operations/Multiply.antt =====
-- `secure_mul` run by all parties: every party opens the same masked differences, in whatever order
-- its peers' messages arrive, and the shares that they return recombine to the product.
use portfolio_itmo.Common.{
  ℕ, suc, ◌+◌, ◌*◌, ◌^◌, ◌<◌, ◌≤◌, ◌≡◌, refl, sym, ap, ◌∙◌, List, [], ◌∷◌, map, All, ok, ◌>>=◌,
}
use portfolio_itmo.Common.Congruence.{Cong}
use portfolio_itmo.Mpc.Error.{Result}
use portfolio_itmo.Mpc.Field.{Field, FieldElement, add, mul, to_bytes}
use portfolio_itmo.Mpc.Field.Laws.{sub-lt, from_bytes-to_bytes}
use portfolio_itmo.Mpc.Sharing.{additive_recombine}
use portfolio_itmo.Mpc.Sharing.Laws.{sum_v, recombine-Cong}
use portfolio_itmo.Mpc.Beaver.{mul_open, mul_finalize}
use portfolio_itmo.Mpc.Beaver.Product.{
  Party, opened_d, opened_e, sum_of, finalize_all, xs, ys, triple_a, triple_b, triple_c,
  recombine-finalize_all,
}
use portfolio_itmo.Mpc.Operations.{PeerNetwork, encode_pair, decode_pair, open_pairs, secure_mul}
use portfolio_itmo.Mpc.Operations.Rounds.{Seat, parties_of, Delivers, others, short, opened_same}
use portfolio_itmo.Mpc.Operations.Wire.{decode_pair-encode_pair}
use mathlib.Core.List.{Perm, append-nil, foldl}

-- What a party sends in the round.
pub opening : Field → Party → List ℕ
opening f q = let (d, e) = mul_open f q.x q.y q.triple in encode_pair (to_bytes d) (to_bytes e)

abbrev pub messages : Field → List (ℕ × Party) → List (ℕ × List ℕ)
messages f [] = []
messages f ((sender, q) ∷ others) = (sender, opening f q) ∷ messages f others

module _ (f : Field) where
  pub d_of : Party → FieldElement
  d_of q = (mul_open f q.x q.y q.triple).0

  pub e_of : Party → FieldElement
  e_of q = (mul_open f q.x q.y q.triple).1

  sum_v-opened_d : (qs : List Party) → sum_v (opened_d f qs) ≡ sum_of d_of qs
  unfolding opened_d d_of
  sum_v-opened_d [] = refl
  sum_v-opened_d (q ∷ qs) = ap (λ t. (mul_open f q.x q.y q.triple).0.v + t) (sum_v-opened_d qs)

  sum_v-opened_e : (qs : List Party) → sum_v (opened_e f qs) ≡ sum_of e_of qs
  unfolding opened_e e_of
  sum_v-opened_e [] = refl
  sum_v-opened_e (q ∷ qs) = ap (λ t. (mul_open f q.x q.y q.triple).1.v + t) (sum_v-opened_e qs)

  d_of-lt : 0 < f.p → (q : Party) → (d_of q).v < f.p
  unfolding d_of mul_open
  d_of-lt positive q = sub-lt f positive _ _

  e_of-lt : 0 < f.p → (q : Party) → (e_of q).v < f.p
  unfolding e_of mul_open
  e_of-lt positive q = sub-lt f positive _ _

-- Every party in its seat, one after the other, from number `i` on.
module _ (f : Field) {S : Type 0} (net : PeerNetwork S) where
  pub run_mul : ℕ → List (Seat S) → Result (List FieldElement)
  run_mul i [] = ok []
  run_mul i (c ∷ cs) = do
    (share, _) ← secure_mul net f c.party.x c.party.y i c.party.triple c.state
    shares ← run_mul (suc i) cs
    ok (share ∷ shares)

  -- The network delivers to this seat the messages of all the other parties.
  pub record IsServed (parties : List Party) (c : Seat S) : Type 0 where
    pub delivers : Delivers net c.state (opening f c.party) (messages f c.peers)
    pub complete : Perm (c.party ∷ others c.peers) parties

module _ (f : Field) (positive : 0 < f.p) (fits : f.p ≤ 256 ^ 16) where
  decode_opening :
      (q : Party) → decode_pair (opening f q) ≡ ok (to_bytes (d_of f q), to_bytes (e_of f q))
  unfolding opening d_of e_of
  decode_opening q =
      ap decode_pair (sym (append-nil (opening f q)))
      ∙ decode_pair-encode_pair (to_bytes (d_of f q)) (to_bytes (e_of f q)) []
          (short f positive (d_of f q) fits (d_of-lt f positive q))
          (short f positive (e_of f q) fits (e_of-lt f positive q))

  -- What a party has opened after the messages of its peers.
  open_pairs-messages :
      (peers : List (ℕ × Party)) (d e : FieldElement)
      → open_pairs f (messages f peers) d e
        ≡ ok (
          foldl (add f) d (opened_d f (others peers)),
          foldl (add f) e (opened_e f (others peers)),
        )
  unfolding open_pairs opened_d opened_e d_of e_of
  open_pairs-messages [] d e = refl
  open_pairs-messages ((sender, q) ∷ rest) d e =
      rw
        (
          decode_opening q,
          from_bytes-to_bytes f positive (d_of f q) (d_of-lt f positive q),
          from_bytes-to_bytes f positive (e_of f q) (e_of-lt f positive q),
        )
        (open_pairs-messages rest (add f d (d_of f q)) (add f e (e_of f q)))

  -- One party's run, when its peers' messages arrive.
  secure_mul_delivered :
      {S : Type 0} (net : PeerNetwork S) (q : Party) (i : ℕ) (s : S) (peers : List (ℕ × Party))
      (parties : List Party)
      → (h : Delivers net s (opening f q) (messages f peers)) → Perm (q ∷ others peers) parties
      → secure_mul net f q.x q.y i q.triple s
        ≡ ok (
          mul_finalize f
              (additive_recombine f (opened_d f parties))
              (additive_recombine f (opened_e f parties))
              q.triple
              i,
          h.final_state,
        )
  unfolding secure_mul d_of e_of opening
  secure_mul_delivered net q i s peers parties h p = rw (
    h.sends,
    h.receives,
    open_pairs-messages peers,
    opened_same f positive (d_of f) (opened_d f) (sum_v-opened_d f) q (others peers) parties
        (d_of-lt f positive q) p,
    opened_same f positive (e_of f) (opened_e f) (sum_v-opened_e f) q (others peers) parties
        (e_of-lt f positive q) p,
  )

  module _ {S : Type 0} (net : PeerNetwork S) where
    run_mul-finalize_all :
        (parties : List Party) (i : ℕ) (cs : List (Seat S))
        → All (IsServed f net parties) cs
        → run_mul f net i cs
          ≡ ok (
              finalize_all f
                (additive_recombine f (opened_d f parties))
                (additive_recombine f (opened_e f parties))
                i
                (parties_of cs))
    unfolding run_mul finalize_all
    run_mul-finalize_all parties i [] h = refl
    run_mul-finalize_all parties i (c ∷ cs) (h, hs) = rw (
      secure_mul_delivered net c.party i c.state c.peers parties h.delivers h.complete,
      run_mul-finalize_all parties (suc i) cs hs,
    )

    -- When every party gets the messages of all others, in any order, all runs of `secure_mul`
    -- succeed and the shares that they return recombine to the product of the recombined inputs.
    pub secure_mul-product :
        (c : Seat S) (cs : List (Seat S))
        → All (IsServed f net (parties_of (c ∷ cs))) (c ∷ cs)
        → Cong f.p
            (sum_of triple_c (parties_of (c ∷ cs)))
            (sum_of triple_a (parties_of (c ∷ cs)) * sum_of triple_b (parties_of (c ∷ cs)))
        → (shares : List FieldElement) × (run_mul f net 0 (c ∷ cs) ≡ ok shares)
          × (additive_recombine f shares
              ≡ mul f
                  (additive_recombine f (map xs (parties_of (c ∷ cs))))
                  (additive_recombine f (map ys (parties_of (c ∷ cs)))))
    secure_mul-product c cs served product =
        let parties = parties_of (c ∷ cs) in
        (
          _,
          run_mul-finalize_all parties 0 (c ∷ cs) served,
          recombine-finalize_all f positive _ _ c.party (parties_of cs)
              (recombine-Cong f positive (opened_d f parties))
              (recombine-Cong f positive (opened_e f parties)) product,
        )
