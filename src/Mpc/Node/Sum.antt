-- ===== src/Mpc/Node/Sum.antt =====
-- The sum of a session: what the nodes compute on the tasks of the coordinator recombines to the sum
-- of the inputs, whatever the random numbers are and without a message between the nodes.
use portfolio_itmo.Common.{
  ℕ, zero, suc, ◌+◌, ◌-◌, ◌*◌, ◌%◌, ◌≤◌, ◌<◌, ◌≡◌, refl, arith, List, [], ◌∷◌, map, some, false,
  All, length, ok,
}
use portfolio_itmo.Common.Congruence.{
  Cong, Cong-refl, Cong-add, Cong-trans, Cong-symm, Cong-of_eq, Cong-mod, Cong-eq,
}
use portfolio_itmo.Common.Dict.{Dict, lookup}
use portfolio_itmo.Common.Equality.{nat_eq}
use portfolio_itmo.Mpc.Field.{Field, FieldElement, add, from_bytes, to_bytes}
use portfolio_itmo.Mpc.Sharing.{additive_recombine}
use portfolio_itmo.Mpc.Sharing.Laws.{sum_v, foldl-Cong, recombine-Cong, recombine-lt}
use portfolio_itmo.Mpc.Session.Inputs.{share_data, share_at, collect_parts, recombine}
use portfolio_itmo.Mpc.Session.Collector.{Collector}
use portfolio_itmo.Mpc.Session.Task.{ShareData}
use portfolio_itmo.Mpc.Session.Inputs.Shares.{slot_sum}
use portfolio_itmo.Mpc.Node.{parse_slots}
use portfolio_itmo.Mpc.Node.{compute, compute_on, parse_triples, bits}
use portfolio_itmo.Mpc.Operations.{PeerNetwork}
use portfolio_itmo.Mpc.Beaver.{SharedTriple}
use portfolio_itmo.Mpc.Field.Laws.{from_bytes-Cong}
use portfolio_itmo.Mpc.Session.{OpType, Session, sum, average}
use Prim.Native.String.{String}
use portfolio_itmo.Mpc.Session.Task.{PeerEntry, Task}
use portfolio_itmo.Mpc.Session.Inputs.{task_for, share_inputs, is_comparison, print_result}
use portfolio_itmo.Mpc.Session.Inputs.Shares.{
  Reads, slots_of, share_slots_total, slots_of-length, slots_of-sum,
}
use native.Mathlib.Nat.{mod-lt}
use mathlib.Core.List.{foldl}
use mathlib.Core.Path.{subst}
use portfolio_itmo.Mpc.Node.Columns.{
  sum_from, sum_from-Cong, column_sum, columns-sum, order_by-share_data,
}

-- The operations that add up the inputs.
pub data IsAdditive : OpType → Type 0 where
  adds : IsAdditive sum
  averages : IsAdditive average

-- Node i's answer for the k nodes from i on, as the collector reads them.
answers_from : Field → (ℕ → FieldElement) → ℕ → ℕ → List FieldElement
answers_from f answer i zero = []
answers_from f answer i (suc k) =
    from_bytes f (to_bytes (answer i)) ∷ answers_from f answer (i + 1) k

module _ (f : Field) (positive : 0 < f.p) where
  slots-Cong :
      (node i : ℕ) (slots : List (List FieldElement))
      → Cong f.p
          (sum_v (map (λ (s : ShareData). from_bytes f s.value) (share_data node i slots)))
          (column_sum slots node)
  unfolding share_data
  slots-Cong node i [] = Cong-refl 0
  slots-Cong node i (s ∷ slots) =
      Cong-add (from_bytes-Cong f positive (share_at s node)) (slots-Cong node (i + 1) slots)

  parts-Cong :
      (answer : ℕ → FieldElement) (i k : ℕ)
      → Cong f.p (sum_v (answers_from f answer i k)) (sum_from (λ j. (answer j).v) i k)
  unfolding answers_from
  parts-Cong answer i zero = Cong-refl 0
  parts-Cong answer i (suc k) =
      Cong-add (from_bytes-Cong f positive (answer i)) (parts-Cong answer (i + 1) k)

  collect_parts_total :
      (coll : Collector) (answer : ℕ → FieldElement) (i k : ℕ)
      → ((j : ℕ) → j < i + k → lookup j coll.shares ≡ some (to_bytes (answer j)))
      → collect_parts f coll i k ≡ ok (answers_from f answer i k)
  unfolding collect_parts answers_from
  collect_parts_total coll answer i zero h = refl
  collect_parts_total coll answer i (suc k) h = ground (
    arith,
    h i (omega arith),
    collect_parts_total coll answer (i + 1) k (λ j b. h j (omega (arith, b))),
  )

  module _ {S : Type 0} (net : PeerNetwork S) where
    compute_on-Cong :
        {op : OpType} (node : ℕ) (xs : List FieldElement) (triples : List SharedTriple)
        (bit_len : ℕ) (s : S) {r : FieldElement} {s' : S}
        → IsAdditive op
        → compute_on net f node op xs triples bit_len s ≡ ok (r, s')
        → Cong f.p r.v (sum_v xs)
    unfolding compute_on
    compute_on-Cong node [] triples bit_len s adds h = absurd cc
    compute_on-Cong node [] triples bit_len s averages h = absurd cc
    compute_on-Cong node (x ∷ xs) triples bit_len s {r} adds h =
        let e : foldl (add f) x xs ≡ r = cc in rw (← e) (foldl-Cong f positive x xs)
    compute_on-Cong node (x ∷ xs) triples bit_len s {r} averages h =
        let e : foldl (add f) x xs ≡ r = cc in rw (← e) (foldl-Cong f positive x xs)

    parse_slots-Cong :
        (id : String) (sess : Session) (entries : List PeerEntry) (slots : List (List FieldElement))
        (triples : List (List SharedTriple)) (node : ℕ)
        → Cong f.p
            (sum_v (parse_slots f (task_for id sess entries slots triples node)))
            (column_sum slots node)
    unfolding parse_slots task_for
    parse_slots-Cong id sess entries slots triples node =
        rw (order_by-share_data node 0 slots) (slots-Cong node 0 slots)

    compute-Cong :
        (id : String) (sess : Session) (entries : List PeerEntry) (slots : List (List FieldElement))
        (triples : List (List SharedTriple)) (node : ℕ) (s : S) {r : FieldElement} {s' : S}
        → IsAdditive sess.type
        → compute net f node (task_for id sess entries slots triples node) s ≡ ok (r, s')
        → Cong f.p r.v (column_sum slots node)
    unfolding compute
    compute-Cong id sess entries slots triples node s {r} {s'} adding h =
        let task = task_for id sess entries slots triples node in
        let task_op : task.op ≡ sess.type = unfold task_for in refl in
        Cong-trans
          (compute_on-Cong node (parse_slots f task) (parse_triples f task) (bits task.bit_len) s
            adding
            (subst
              (λ op.
                compute_on net f node op (parse_slots f task) (parse_triples f task)
                  (bits task.bit_len) s
                ≡ ok (r, s'))
              task_op h))
          (parse_slots-Cong id sess entries slots triples node)

-- The k nodes from 0 on computed their tasks, and the collector holds their results.
pub record Answers {S : Type 0} (net : PeerNetwork S) (f : Field) (task : ℕ → Task)
    (coll : Collector) (n : ℕ) : Type 0 where
  pub answer : ℕ → FieldElement
  pub at_start : ℕ → S
  pub at_end : ℕ → S
  pub computes : (j : ℕ) → j < n → compute net f j (task j) (at_start j) ≡ ok (answer j, at_end j)
  pub submits : (j : ℕ) → j < n → lookup j coll.shares ≡ some (to_bytes (answer j))
  pub complete : n ≤ length coll.shares

additive-comparison : {op : OpType} → IsAdditive op → is_comparison op ≡ false
unfolding is_comparison
additive-comparison adds = refl
additive-comparison averages = refl

-- `shareInputs` returns the slots of the secrets.
share_inputs-slots :
    (f : Field) (positive : 0 < f.p) (sess : Session) (inputs : Dict ℕ (List ℕ))
    (secrets : List FieldElement) (reader : List ℕ) {slots : List (List FieldElement)}
    {rest : List ℕ} (two : 2 ≤ sess.party_count)
    → IsAdditive sess.type
    → Reads f inputs 0 secrets
    → length inputs ≡ length secrets
    → length secrets * (sess.party_count - 1) ≤ length reader
    → share_inputs f sess inputs reader ≡ (ok slots, rest)
    → slots_of f positive sess.party_count two secrets reader ≡ slots
unfolding share_inputs
share_inputs-slots f positive sess inputs secrets reader {slots} {rest} two adding reads len enough
      h =
    ground (
      arith,
      h,
      len,
      additive-comparison adding,
      share_slots_total f positive sess.party_count two inputs 0 secrets reader reads enough,
    )

module _ {S : Type 0} (net : PeerNetwork S) (f : Field) (positive : 0 < f.p) where
  combined-sum :
      (id : String) (sess : Session) (entries : List PeerEntry) (slots : List (List FieldElement))
      (triples : List (List SharedTriple)) (coll : Collector) (total : ℕ)
      → IsAdditive sess.type
      → All (λ (s : List FieldElement). length s ≡ sess.party_count) slots
      → Cong f.p (slot_sum slots) total
      → (given : Answers net f (task_for id sess entries slots triples) coll sess.party_count)
      → (additive_recombine f (answers_from f given.answer 0 sess.party_count)).v ≡ total % f.p
  combined-sum id sess entries slots triples coll total adding lengths sums given =
      Cong-eq
        (Cong-trans (recombine-Cong f positive _) (
          Cong-trans (parts-Cong f positive given.answer 0 sess.party_count) (
            Cong-trans
              (sum_from-Cong f.p (λ j. (given.answer j).v) (column_sum slots) 0 sess.party_count
                at_node)
              (Cong-trans (Cong-of_eq f.p (columns-sum sess.party_count slots lengths))
                (Cong-trans sums (Cong-symm (Cong-mod f.p total)))))))
        (recombine-lt f positive _) (mod-lt total positive)
    where
      at_node :
          (j : ℕ) → j < 0 + sess.party_count → Cong f.p (given.answer j).v (column_sum slots j)
      at_node j b =
          compute-Cong f positive net id sess entries slots triples j (given.at_start j)
            {s' = given.at_end j} adding (given.computes j (omega (arith, b)))

  -- The coordinator of a sum or an average over n ≥ 2 nodes, with as many inputs as there are
  -- secrets and enough random numbers: once each node has computed its task and the collector holds
  -- the n results, they recombine to the sum of the secrets modulo p, which is printed in decimal,
  -- for an average divided by n and rounded down.
  pub recombine-inputs :
      (id : String) (sess : Session) (entries : List PeerEntry) (inputs : Dict ℕ (List ℕ))
      (secrets : List FieldElement) (reader : List ℕ) {slots : List (List FieldElement)}
      {rest : List ℕ} (triples : List (List SharedTriple)) (coll : Collector)
      → IsAdditive sess.type
      → 2 ≤ sess.party_count
      → Reads f inputs 0 secrets
      → length inputs ≡ length secrets
      → length secrets * (sess.party_count - 1) ≤ length reader
      → share_inputs f sess inputs reader ≡ (ok slots, rest)
      → Answers net f (task_for id sess entries slots triples) coll sess.party_count
      → recombine f sess coll ≡ ok (print_result sess (sum_v secrets % f.p))
  unfolding recombine
  recombine-inputs id sess entries inputs secrets reader {slots} {rest} triples coll adding two
        reads len enough h given =
      let e =
        share_inputs-slots f positive sess inputs secrets reader {rest = rest} two adding reads len
          enough h in
      ground (
        arith,
        given.complete,
        collect_parts_total f positive coll given.answer 0 sess.party_count
            (λ j b. given.submits j (omega (arith, b))),
        combined-sum id sess entries slots triples coll (sum_v secrets) adding
            (subst (All (λ (s : List FieldElement). length s ≡ sess.party_count)) e
              (slots_of-length f positive sess.party_count two secrets reader enough))
            (subst (λ slots. Cong f.p (slot_sum slots) (sum_v secrets)) e
              (slots_of-sum f positive sess.party_count two secrets reader))
            given,
      )
