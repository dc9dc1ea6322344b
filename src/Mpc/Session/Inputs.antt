-- ===== src/Mpc/Session/Inputs.antt =====
-- What projects/01-mpc-cluster/internal/session/manager.go does with the inputs of a session: it
-- shares them out as tasks, and recombines the shares of the result. The random numbers to come are
-- the state of the actions.
pub mod Shares
use portfolio_itmo.Common.{
  ℕ, zero, suc, ◌+◌, ◌/◌, Bool, true, not, ◌&&◌, List, [], ◌∷◌, map, Option, none, some, ltb, ◌==◌,
  if◌then◌else◌, length, get_elem?, ok, err,
}
use portfolio_itmo.Common
use portfolio_itmo.Common.BigInt.{decimal}
use portfolio_itmo.Common.Dict.{Dict, lookup}
use portfolio_itmo.Common.Effects.{Action, ◌>>=◌, ◌>>◌, pure, raise, fail_if}
use portfolio_itmo.Common.Equality.{nat_eq}
use portfolio_itmo.Mpc.Error.{Error as ProtocolError, Result as ProtocolResult}
use portfolio_itmo.Mpc.Field.{Field, FieldElement, from_string, from_bytes, to_bytes, zero_element}
use portfolio_itmo.Mpc.Sharing.{additive_share, additive_recombine}
use portfolio_itmo.Mpc.Beaver.{SharedTriple, generate_triple, share_triple}
use portfolio_itmo.Mpc.Session.{
  OpType, sum, average, max, comparison, other, Session, Error, bad_slot, share_slot, build_triple,
  share_of_triple, missing_input, comparison_inputs, no_inputs, too_few_shares, missing_share,
}
use portfolio_itmo.Mpc.Session.Collector.{Collector}
use portfolio_itmo.Mpc.Session.Task.{PeerEntry, ShareData, TripleData, Task}
use Prim.Native.String.{String}

unfoldable pub is_comparison : OpType → Bool
is_comparison comparison = true
is_comparison _ = Bool.false

abbrev pub draw :
    {A : Type 0}
    → (ProtocolError → Error)
    → (List ℕ → ProtocolResult (A × List ℕ))
    → Action Error (List ℕ) A
draw w sample reader = elim (sample reader) [
  | Common.ok (a, rest) ↦ (ok a, rest)
  | Common.err e ↦ (err (w e), reader)
]

abbrev pub checked :
    {A : Type 0} → (ProtocolError → Error) → ProtocolResult A → Action Error (List ℕ) A
checked w r reader = elim r [ Common.ok a ↦ (ok a, reader) | Common.err e ↦ (err (w e), reader) ]

-- The slots from number `i` on.
unfoldable pub share_slots :
    Field → Dict ℕ (List ℕ) → ℕ → ℕ → ℕ → Action Error (List ℕ) (List (List FieldElement))
share_slots f inputs parties i zero = pure []
share_slots f inputs parties i (suc k) = do
  raw ← elim (lookup i inputs) [ none ↦ raise (missing_input i) | some raw ↦ pure raw ]
  secret ← checked (bad_slot i) (from_string f raw)
  shares ← draw (share_slot i) (additive_share f secret parties)
  rest ← share_slots f inputs parties (i + 1) k
  pure (shares ∷ rest)

unfoldable pub share_inputs :
    Field → Session → Dict ℕ (List ℕ) → Action Error (List ℕ) (List (List FieldElement))
share_inputs f sess inputs = do
  let count = length inputs
  fail_if (is_comparison sess.type && not (count == 2)) (comparison_inputs count)
  fail_if (count == 0) no_inputs
  share_slots f inputs sess.party_count 0 count

unfoldable pub triple_count : OpType → ℕ → ℕ
triple_count sum parties = 0
triple_count average parties = 0
triple_count comparison parties = 2
triple_count max parties = if ltb parties 2 then 1 else parties
triple_count (other name) parties = 0

-- The triples from number `i` on.
unfoldable pub build_from : Field → ℕ → ℕ → ℕ → Action Error (List ℕ) (List (List SharedTriple))
build_from f parties i zero = pure []
build_from f parties i (suc k) = do
  t ← draw (build_triple i) (generate_triple f)
  shared ← draw (share_of_triple i) (share_triple f t parties)
  rest ← build_from f parties (i + 1) k
  pure (shared ∷ rest)

unfoldable pub build_triples : Field → Session → Action Error (List ℕ) (List (List SharedTriple))
build_triples f sess = build_from f sess.party_count 0 (triple_count sess.type sess.party_count)

-- `shares[nodeID]`; every slot and every triple has a share for each party.
abbrev pub share_at : List FieldElement → ℕ → FieldElement
share_at shares node = elim (get_elem? shares node) [ none ↦ zero_element | some a ↦ a ]

abbrev pub triple_at : List SharedTriple → ℕ → SharedTriple
triple_at shares node = elim (get_elem? shares node) [
  | none ↦ record { a = zero_element; b = zero_element; c = zero_element }
  | some t ↦ t
]

-- The shares of one node, from slot `i` on.
unfoldable pub share_data : ℕ → ℕ → List (List FieldElement) → List ShareData
share_data node i [] = []
share_data node i (shares ∷ slots) =
    record { slot = i; value = to_bytes (share_at shares node) } ∷ share_data node (i + 1) slots

unfoldable pub triple_data : ℕ → List (List SharedTriple) → List TripleData
triple_data node [] = []
triple_data node (ts ∷ rest) =
    let st = triple_at ts node in
    record { a = to_bytes st.a; b = to_bytes st.b; c = to_bytes st.c } ∷ triple_data node rest

abbrev pub default_bit_len : ℕ
default_bit_len = 64

unfoldable pub task_for :
    String
    → Session
    → List PeerEntry
    → List (List FieldElement)
    → List (List SharedTriple)
    → ℕ
    → Task
task_for session_id sess peers slots triples node = record {
  session_id = session_id;
  node_id = node;
  op = sess.type;
  party_count = sess.party_count;
  bit_len = default_bit_len;
  is_ready = true;
  peers = peers;
  shares = share_data node 0 slots;
  triples = triple_data node triples;
}

-- The parts of the nodes from number `i` on.
unfoldable pub collect_parts : Field → Collector → ℕ → ℕ → Common.Result Error (List FieldElement)
collect_parts f coll i zero = ok []
collect_parts f coll i (suc k) = elim (lookup i coll.shares) [
  | none ↦ err (missing_share i)
  | some b ↦ Common.◌>>=◌ (collect_parts f coll (i + 1) k) (λ parts. ok (from_bytes f b ∷ parts))
]

unfoldable pub print_result : Session → ℕ → List ℕ
print_result sess val = elim sess.type [
  | average ↦ decimal (val / sess.party_count)
  | _ ↦ decimal val
]

unfoldable pub recombine : Field → Session → Collector → Common.Result Error (List ℕ)
recombine f sess coll =
    if ltb (length coll.shares) sess.party_count
    then err (too_few_shares (length coll.shares) sess.party_count)
    else Common.◌>>=◌ (collect_parts f coll 0 sess.party_count)
        (λ parts. ok (print_result sess (additive_recombine f parts).v))
