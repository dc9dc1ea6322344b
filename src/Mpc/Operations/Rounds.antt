-- ===== src/Mpc/Operations/Rounds.antt =====
-- A round of messages among parties: what each party opens does not depend on the order in which
-- the messages of its peers arrive.
use portfolio_itmo.Common.{
  ℕ, ◌+◌, ◌^◌, ◌<◌, ◌≤◌, ◌≡◌, refl, sym, ap, ◌∙◌, arith, List, [], ◌∷◌, map, length, ok,
}
use portfolio_itmo.Common.BigInt.{length-bytes}
use portfolio_itmo.Common.Congruence.{Cong, Cong-of_eq, Cong-trans, Cong-symm, Cong-eq}
use portfolio_itmo.Mpc.Field.{Field, FieldElement, add, to_bytes}
use portfolio_itmo.Mpc.Sharing.{additive_recombine}
use portfolio_itmo.Mpc.Sharing.Laws.{
  sum_v, foldl-Cong, foldl-lt, recombine-Cong, recombine-lt, drawn,
}
use portfolio_itmo.Mpc.Beaver.Product.{Party, sum_of}
use portfolio_itmo.Mpc.Operations.{PeerNetwork}
use mathlib.Core.List.{Perm, Permᴰ, foldl}
use mathlib.Core.Logic.{∥∥₁_elim}
use mathlib.Core.Path.{ap₂}
use native.Mathlib.Nat.{ℕ_set}

-- One party with the state of its network, and the peers in the order in which their messages
-- are met.
pub record Seat (S : Type 0) : Type 0 where
  pub party : Party
  pub state : S
  pub peers : List (ℕ × Party)

abbrev pub parties_of : {S : Type 0} → List (Seat S) → List Party
parties_of cs = map (λ c. c.party) cs

-- The network takes a party's message and hands it those of its peers.
pub record Delivers {S : Type 0} (net : PeerNetwork S) (s : S) (sent : List ℕ)
    (received : List (ℕ × List ℕ)) : Type 0 where
  pub sent_state : S
  pub final_state : S
  pub sends : net.broadcast (net.next_round s).1 (net.next_round s).0 sent ≡ ok sent_state
  pub receives : net.gather sent_state (net.next_round s).0 ≡ ok (received, final_state)

abbrev pub others : List (ℕ × Party) → List Party
others [] = []
others ((_, q) ∷ rest) = q ∷ others rest

sum_of-permᴰ :
    (g : Party → FieldElement) {ps qs : List Party} → Permᴰ ps qs → sum_of g ps ≡ sum_of g qs
sum_of-permᴰ g Permᴰ.nil = refl
sum_of-permᴰ g (Permᴰ.cons e d) = ap₂ (λ q t. (g q).v + t) e (sum_of-permᴰ g d)
sum_of-permᴰ g (Permᴰ.swap {l = l} e d) = rw (e, d) (omega arith)
sum_of-permᴰ g (Permᴰ.trans d e) = sum_of-permᴰ g d ∙ sum_of-permᴰ g e

pub sum_of-perm :
    (g : Party → FieldElement) {ps qs : List Party} → Perm ps qs → sum_of g ps ≡ sum_of g qs
sum_of-perm g h = ∥∥₁_elim h (ℕ_set _ _) (sum_of-permᴰ g)

module _ (f : Field) (positive : 0 < f.p) where
  pub short : (a : FieldElement) → f.p ≤ 256 ^ 16 → a.v < f.p → length (to_bytes a) < 2 ^ 32
  unfolding to_bytes
  short a fits h = omega (arith, length-bytes 16 a.v (omega arith))

  -- All orders of arrival open the same number.
  pub opened_same :
      (g : Party → FieldElement) (opened : List Party → List FieldElement)
      → ((qs : List Party) → sum_v (opened qs) ≡ sum_of g qs)
      → (q : Party) (qs parties : List Party) → (g q).v < f.p
      → Perm (q ∷ qs) parties
      → foldl (add f) (g q) (opened qs) ≡ additive_recombine f (opened parties)
  opened_same g opened sums q qs parties below p = ap drawn (
      Cong-eq congruent (foldl-lt f positive (g q) (opened qs) below)
        (recombine-lt f positive (opened parties)))
    where
      congruent :
          Cong f.p (foldl (add f) (g q) (opened qs)).v (additive_recombine f (opened parties)).v
      congruent = Cong-trans (foldl-Cong f positive (g q) (opened qs)) (
          Cong-trans
            (Cong-of_eq f.p
              (ap (λ t. (g q).v + t) (sums qs) ∙ sum_of-perm g p ∙ sym (sums parties)))
            (Cong-symm (recombine-Cong f positive (opened parties))))
