-- ===== src/Mpc/Node.antt =====
-- projects/01-mpc-cluster/internal/node/worker.go: what a node computes on its task. The peers are
-- a `PeerNetwork` over the state `S`.
pub mod Columns
pub mod Sum
use portfolio_itmo.Common.{
  ℕ, zero, suc, ◌+◌, List, [], ◌∷◌, map, Option, none, some, ltb, ◌==◌, if◌then◌else◌, length,
  get_elem?, ok, err, ◌>>=◌,
}
use portfolio_itmo.Common
use portfolio_itmo.Common.Table.{order_by}
use portfolio_itmo.Mpc.Error.{Error as ProtocolError}
use portfolio_itmo.Mpc.Error
use portfolio_itmo.Mpc.Field.{Field, FieldElement, add, sub, from_bytes}
use portfolio_itmo.Mpc.Beaver.{SharedTriple}
use portfolio_itmo.Mpc.Operations.{PeerNetwork, secure_mul, secure_compare}
use portfolio_itmo.Mpc.Session.{OpType, sum, average, max, comparison, other}
use portfolio_itmo.Mpc.Session.Task.{ShareData, TripleData, Task}
use Prim.Native.String.{String}
use mathlib.Core.List.{foldl}

pub data Failure : Type 0 where
  no_shares comparison_shares : Failure
  out_of_triples : ℕ → Failure
  compare_step select_step : ℕ → ProtocolError → Failure
  unknown_operation : String → Failure
  protocol : ProtocolError → Failure

abbrev pub failing_as :
    {A : Type 0} → (ProtocolError → Failure) → Error.Result A → Common.Result Failure A
failing_as w (Common.ok a) = ok a
failing_as w (Common.err e) = err (w e)

unfoldable pub parse_slots : Field → Task → List FieldElement
parse_slots f task =
    map (λ (s : ShareData). from_bytes f s.value) (order_by (λ s. s.slot) task.shares)

unfoldable pub parse_triples : Field → Task → List SharedTriple
parse_triples f task =
    map
      (λ (t : TripleData). record {
        a = from_bytes f t.a;
        b = from_bytes f t.b;
        c = from_bytes f t.c;
      })
      task.triples

unfoldable pub bits : ℕ → ℕ
bits bit_len = if bit_len == 0 then 32 else bit_len

module _ {S : Type 0} (net : PeerNetwork S) (f : Field) (node_id : ℕ) (triples : List SharedTriple)
    (bit_len : ℕ) where
  -- The loop of `max` from slot `i` on; `left` are the triples from `cursor` on.
  unfoldable pub running_max :
      FieldElement
      → List FieldElement
      → ℕ
      → List SharedTriple
      → S
      → Common.Result Failure (FieldElement × S)
  running_max running [] i left s = ok (running, s)
  running_max running (x ∷ slots) i left s = do
    (cmp, s) ←
        failing_as (compare_step i) (secure_compare net f running x node_id triples bit_len s)
    (t, later) ← elim left [ [] ↦ err (out_of_triples i) | t ∷ later ↦ ok (t, later) ]
    (prod, s) ← failing_as (select_step i) (secure_mul net f cmp (sub f running x) node_id t s)
    running_max (add f x prod) slots (i + 1) later s

module _ {S : Type 0} (net : PeerNetwork S) (f : Field) (node_id : ℕ) where
  unfoldable pub compute_on :
      OpType
      → List FieldElement
      → List SharedTriple
      → ℕ
      → S
      → Common.Result Failure (FieldElement × S)
  compute_on op [] triples bit_len s = err no_shares
  compute_on sum (x ∷ slots) triples bit_len s = ok (foldl (add f) x slots, s)
  compute_on average (x ∷ slots) triples bit_len s = ok (foldl (add f) x slots, s)
  compute_on comparison (x ∷ []) triples bit_len s = err comparison_shares
  compute_on comparison (x ∷ y ∷ slots) triples bit_len s =
      failing_as protocol (secure_compare net f x y node_id triples bit_len s)
  compute_on max (x ∷ slots) triples bit_len s =
      running_max net f node_id triples bit_len x slots 1 triples s
  compute_on (other name) (x ∷ slots) triples bit_len s = err (unknown_operation name)

  unfoldable pub compute : Task → S → Common.Result Failure (FieldElement × S)
  compute task s =
      compute_on task.op (parse_slots f task) (parse_triples f task) (bits task.bit_len) s
