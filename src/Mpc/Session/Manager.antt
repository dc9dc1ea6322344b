-- ===== src/Mpc/Session/Manager.antt =====
-- projects/01-mpc-cluster/internal/session/manager.go: the handlers of the coordinator over the
-- database, the three maps and the collectors that they point to. `Execute` is cut where other
-- handlers may run: `prepare`, `publish`, `start` and `finish`, in this order. Kubernetes refuses
-- the nodes that `refuses` names; Redis, whose failures are only logged, is left out.
pub mod Sound
pub mod Invariant
pub mod Outcome
use portfolio_itmo.Common.{
  ℕ, zero, suc, ◌+◌, ◌<◌, Bool, true, false, not, ◌&&◌, List, [], ◌∷◌, ◌++◌, map, Option, none,
  some, ltb, ◌==◌, if◌then◌else◌, length, get_elem?, ok, err,
}
use portfolio_itmo.Common
use portfolio_itmo.Common.Dict.{Dict, lookup, insert, remove}
use portfolio_itmo.Common.Effects.{
  Action, ◌>>=◌, ◌>>◌, pure, raise, gets, modify, fail_if, ignore, lift,
}
use portfolio_itmo.Common.Equality.{same, nat_eq, string_eq}
use portfolio_itmo.Mpc.Field.{FieldElement, new_field}
use portfolio_itmo.Mpc.Session.{
  OpType, valid, Session, Round, NodeRecord, Error, Reason, status_eq, created, nodes_ready,
  computing, unsupported_operation, too_few_parties, comparison_parties, generate_id, spawn_node,
  unexpected_status, timed_out, node_failure, no_computation, no_reason, timed_out_waiting,
  cancelled, spawn, reported, cause, other,
}
use portfolio_itmo.Mpc.Session.Collector.{Collector, new_collector, add_result}
use portfolio_itmo.Mpc.Session.Inputs.{
  is_comparison, share_inputs, build_triples, task_for, recombine,
}
use portfolio_itmo.Mpc.Session.Store.{Db}
use portfolio_itmo.Mpc.Session.Store
use portfolio_itmo.Mpc.Session.Task.{PeerEntry, Task}
use Prim.Native.String.{String}

pub record CreateRequest : Type 0 where
  pub id : String
  pub type : OpType
  pub party_count : ℕ
  pub threshold : ℕ

-- `collectors` holds addresses: the collector at address i is element i of `heap`.
pub record Manager : Type 0 where
  pub db : Db
  pub tasks : Dict String (Dict ℕ Task)
  pub peers : Dict String (Dict ℕ String)
  pub collectors : Dict String ℕ
  pub heap : List Collector
  pub reader : List ℕ

-- A call of the store.
abbrev pub on_db : {A : Type 0} → Action Error Db A → Action Error Manager A
on_db call m = let (r, db) = call m.db in (r, record m { db = db })

-- A call that draws random numbers.
abbrev pub on_reader : {A : Type 0} → Action Error (List ℕ) A → Action Error Manager A
on_reader call m = let (r, reader) = call m.reader in (r, record m { reader = reader })

-- `req.ID`, or a new one; `generated` is what `newID` returns.
abbrev pub choose_id : Bool → CreateRequest → Option String → Action Error Manager String
choose_id true req none = raise generate_id
choose_id true req (some id) = pure id
choose_id false req generated = pure req.id

abbrev pub new_session : String → CreateRequest → Session
new_session id req = record {
  id = id;
  type = req.type;
  status = created;
  party_count = req.party_count;
  threshold = if req.threshold == 0 then req.party_count else req.threshold;
  result = [];
  error_msg = no_reason;
}

abbrev pub no_peers : String → Manager → Manager
no_peers id m = record m { peers = insert id [] m.peers }

-- After `CreateNodeJob`, which was refused or not.
abbrev pub spawn_next :
    Bool → String → ℕ → Action Error Manager (Unit {0}) → Action Error Manager (Unit {0})
spawn_next true id node rest = do
  ignore (on_db (Store.fail id (spawn node)))
  raise (spawn_node node)
spawn_next false id node rest = rest

module _ (refuses : ℕ → Bool) where
  -- The nodes from number `node` on.
  unfoldable pub spawn_nodes : String → ℕ → ℕ → Action Error Manager (Unit {0})
  spawn_nodes id node zero = pure tt
  spawn_nodes id node (suc k) = spawn_next (refuses node) id node (spawn_nodes id (node + 1) k)

  abbrev pub spawn_all : Bool → String → ℕ → Action Error Manager (Unit {0})
  spawn_all true id parties = spawn_nodes id 0 parties
  spawn_all false id parties = pure tt

  unfoldable pub create : Bool → Option String → CreateRequest → Action Error Manager Session
  create k8s_enabled generated req = do
    fail_if (not (valid req.type)) unsupported_operation
    fail_if (ltb req.party_count 2) (too_few_parties req.party_count)
    fail_if (is_comparison req.type && not (req.party_count == 2)) comparison_parties
    id ← choose_id (same req.id "") req generated
    on_db (Store.create (new_session id req))
    modify (no_peers id)
    spawn_all k8s_enabled id req.party_count
    pure (new_session id req)

-- `m.peers[sessionID]`, and the empty map where there is none.
abbrev pub peers_of : String → Manager → Dict ℕ String
peers_of id m = elim (lookup id m.peers) [ none ↦ [] | some addrs ↦ addrs ]

abbrev pub joining : String → ℕ → String → NodeRecord
joining id node addr = record { session_id = id; node_id = node; addr = addr; status = "" }

-- `m.peers[sessionID][nodeID] = addr`
abbrev pub add_peer : String → ℕ → String → Manager → Manager
add_peer id node addr m = record m { peers = insert id (insert node addr (peers_of id m)) m.peers }

abbrev pub set_ready : String → Bool → Action Error Manager (Unit {0})
set_ready id is_last =
    if is_last then on_db (Store.update_status id created nodes_ready) else pure tt

unfoldable pub register_node : String → ℕ → String → Action Error Manager (Unit {0})
register_node id node addr = do
  sess ← on_db (Store.get id)
  count ← on_db (Store.register_node (joining id node addr))
  modify (add_peer id node addr)
  set_ready id (count == sess.party_count)

-- `range` meets the entries of the map in some order; here it is that of insertion.
unfoldable pub peer_entries : Dict ℕ String → List PeerEntry
peer_entries addrs = map (λ (e : ℕ × String). record { node_id = e.0; addr = e.1 }) addrs

abbrev pub entries_of : String → Manager → List PeerEntry
entries_of id m = peer_entries (peers_of id m)

-- The tasks of the nodes from number `node` on.
unfoldable pub tasks_from : (ℕ → Task) → ℕ → ℕ → Dict ℕ Task
tasks_from make node zero = []
tasks_from make node (suc k) = (node, make node) ∷ tasks_from make (node + 1) k

unfoldable pub prepare : String → Dict ℕ (List ℕ) → Action Error Manager (Session × Dict ℕ Task)
prepare id inputs = do
  sess ← on_db (Store.get id)
  fail_if (not (status_eq sess.status nodes_ready)) (unexpected_status id)
  slots ← on_reader (share_inputs new_field sess inputs)
  triples ← on_reader (build_triples new_field sess)
  entries ← gets (entries_of id)
  pure (sess, tasks_from (task_for id sess entries slots triples) 0 sess.party_count)

-- The new collector's address is the result.
unfoldable pub publish : String → Session → Dict ℕ Task → Action Error Manager ℕ
publish id sess tasks m =
    let address = length m.heap in
    (
      ok address,
      record m {
        tasks = insert id tasks m.tasks;
        collectors = insert id address m.collectors;
        heap = m.heap ++ (new_collector sess.party_count ∷ []);
      },
    )

abbrev pub first_round : String → Round
first_round id = record {
  session_id = id;
  number = 1;
  phase = "compute";
  status = "running";
  is_completed = false;
}

unfoldable pub start : String → Action Error Manager (Unit {0})
start id = do
  on_db (Store.update_status id nodes_ready computing)
  ignore (on_db (Store.create_round (first_round id)))

-- `Execute` up to where it waits for the results.
unfoldable pub begin : String → Dict ℕ (List ℕ) → Action Error Manager (Session × ℕ)
begin id inputs = do
  (sess, tasks) ← prepare id inputs
  address ← publish id sess tasks
  start id
  pure (sess, address)

abbrev pub collector_at : ℕ → Manager → Option Collector
collector_at address m = get_elem? m.heap address

unfoldable pub cleanup : String → Manager → Manager
cleanup id m = record m { tasks = remove id m.tasks; collectors = remove id m.collectors }

-- What follows a failure of the computation.
abbrev pub abandon : {A : Type 0} → String → Reason → Error → Action Error Manager A
abandon id why e = do ignore (on_db (Store.fail id why)); raise e

-- What follows the recombination.
abbrev pub conclude : String → Common.Result Error (List ℕ) → Action Error Manager (List ℕ)
conclude id (Common.err e) = abandon id (cause e) e
conclude id (Common.ok result) = do
  ignore (on_db (Store.complete_round id 1))
  on_db (Store.set_result id result)
  modify (cleanup id)
  pure result

-- The end of `Execute` once the collector is closed, or once the time is over.
unfoldable pub finish : String → Session → Collector → Bool → Action Error Manager (List ℕ)
finish id sess coll true = abandon id timed_out_waiting (timed_out id)
finish id sess coll false =
    if same coll.failed ""
    then conclude id (recombine new_field sess coll)
    else abandon id (reported coll.failed) (node_failure coll.failed)

unfoldable pub fetch_task : String → ℕ → Manager → Task
fetch_task id node m = elim (lookup id m.tasks) [
  | none ↦ idle
  | some by_node ↦ elim (lookup node by_node) [ none ↦ idle | some t ↦ t ]
]
  where
    idle : Task
    idle = record {
      session_id = id;
      node_id = node;
      op = other "";
      party_count = 0;
      bit_len = 0;
      is_ready = false;
      peers = [];
      shares = [];
      triples = [];
    }

-- `coll.add`, of the collector at an address.
unfoldable pub update_at : ℕ → (Collector → Collector) → List Collector → List Collector
update_at i change [] = []
update_at zero change (c ∷ heap) = change c ∷ heap
update_at (suc i) change (c ∷ heap) = c ∷ update_at i change heap

-- The result goes to the collector that was looked up.
abbrev pub deliver : String → ℕ → List ℕ → String → Option ℕ → Action Error Manager (Unit {0})
deliver id node value err_str none = raise (no_computation id)
deliver id node value err_str (some address) =
    modify
      (λ m. record m { heap = update_at address (λ c. add_result c node value err_str) m.heap })

unfoldable pub accept_result : String → ℕ → List ℕ → String → Action Error Manager (Unit {0})
accept_result id node value err_str = do
  found ← gets (λ m. lookup id m.collectors)
  deliver id node value err_str found

unfoldable pub cancel : String → Action Error Manager (Unit {0})
cancel id = do on_db (Store.get id); on_db (Store.fail id cancelled); modify (cleanup id)
