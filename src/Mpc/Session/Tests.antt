-- ===== src/Mpc/Session/Tests.antt =====
-- Runs of the session store, the collector, the coordinator and the nodes at concrete inputs.
use portfolio_itmo.Common.{
  ℕ, zero, suc, ◌%◌, ◌<◌, ◌≡◌, refl, arith, true, false, List, [], ◌∷◌, some, ok,
}
use portfolio_itmo.Common.BigInt.{decimal, set_bytes, set_string, bytes}
use portfolio_itmo.Common.Int.{mod_ℤ, ◌+ℤ◌, ◌-ℤ◌}
use portfolio_itmo.Common.Dict.{Dict, lookup}
use portfolio_itmo.Common.Equality.{nat_eq, string_eq}
use portfolio_itmo.Common.Table.{count_where, find_where, update_where, order_by}
use portfolio_itmo.Mpc.Field.{
  Field, FieldElement, reduce, from_string, from_bytes, to_bytes, add, sub, rand, new_field,
}
use portfolio_itmo.Mpc.Sharing.{additive_share, additive_recombine}
use portfolio_itmo.Mpc.Sharing.Laws.{drawn, sum_v}
use portfolio_itmo.Mpc.Operations.{PeerNetwork}
use portfolio_itmo.Mpc.Node.{compute, compute_on, parse_slots, parse_triples, bits}
use portfolio_itmo.Mpc.Node.Sum.{Answers, adds, recombine-inputs}
use portfolio_itmo.Mpc.Session.{
  Session, sum, created, nodes_ready, computing, no_reason, status_conflict, completed,
}
use portfolio_itmo.Mpc.Session.Collector.{
  Collector, new_collector, add_result, IsSettled, new_collector-IsSettled, add_result-IsSettled,
}
use portfolio_itmo.Mpc.Session.Inputs.{
  share_inputs, share_slots, task_for, share_data, triple_data, recombine, collect_parts,
  print_result, is_comparison,
}
use portfolio_itmo.Mpc.Session.Inputs.Shares.{Reads}
use portfolio_itmo.Mpc.Session.Store.{Db, update_status, complete_round, set_result}
use portfolio_itmo.Mpc.Session.Store.Laws.{IsKeyed, session_at, update_status-ok, update_status-err}
use portfolio_itmo.Mpc.Session.Manager.{Manager, finish, fetch_task}
use portfolio_itmo.Mpc.Session.Manager.Sound.{IsSound}
use portfolio_itmo.Mpc.Session.Manager.Invariant.{accepts, serve, serve-IsSound}
use portfolio_itmo.Mpc.Session.Manager.Outcome.{finish-ok}
use Prim.Native.String.{String}

abbrev pair_sum : Session
pair_sum = record {
  id = "s1";
  type = sum;
  status = nodes_ready;
  party_count = 2;
  threshold = 2;
  result = [];
  error_msg = no_reason;
}

abbrev db : Db
db = record { sessions = pair_sum ∷ []; rounds = []; nodes = []; faults = [] }

db-IsKeyed : IsKeyed db
db-IsKeyed = record { unique = λ id. unfold count_where in ground arith }

update_status-ok_example :
    (pair_sum.status ≡ nodes_ready)
    × (session_at "s1" (update_status "s1" nodes_ready computing db).1
        ≡ some (record pair_sum { status = computing }))
update_status-ok_example =
    update_status-ok "s1" nodes_ready computing db db-IsKeyed (unfold find_where in refl)
      (unfold update_status count_where update_where in refl)

update_status-err_example : (update_status "s1" created computing db).1.sessions ≡ db.sessions
update_status-err_example =
    update_status-err "s1" created computing db {e = status_conflict "s1"}
      (unfold update_status count_where update_where in refl)

abbrev waiting : Collector
waiting = new_collector 2

add_result-IsSettled_example : IsSettled (add_result waiting 0 (7 ∷ []) "")
add_result-IsSettled_example =
    add_result-IsSettled waiting 0 (7 ∷ []) "" (new_collector-IsSettled 2 (omega arith))

abbrev coordinator : Manager
coordinator = record {
  db = db;
  tasks = [];
  peers = [];
  collectors = ("s1", 0) ∷ [];
  heap = waiting ∷ [];
  reader = [];
}

only_address :
    (id : String) {address : ℕ} → lookup id coordinator.collectors ≡ some address → address < 1
unfolding lookup
only_address id e = ground arith

coordinator-IsSound : IsSound coordinator
coordinator-IsSound = record {
  stored = record { keyed = db-IsKeyed; large = (omega arith, tt) };
  settled = (new_collector-IsSettled 2 (omega arith), tt);
  in_heap = λ id e. only_address id e;
}

serve-IsSound_example : IsSound (serve (accepts "s1" 0 (7 ∷ []) "") coordinator)
serve-IsSound_example = serve-IsSound (accepts "s1" 0 (7 ∷ []) "") coordinator coordinator-IsSound

abbrev full : Collector
full = record {
  expected = 2;
  shares = (0, 7 ∷ []) ∷ (1, 35 ∷ []) ∷ [];
  failed = "";
  is_closed = true;
}

finish-full : (finish "s1" pair_sum full false coordinator).0 ≡ ok (52 ∷ 50 ∷ [])
unfolding finish recombine collect_parts lookup from_bytes set_bytes reduce mod_ℤ additive_recombine
    add ◌+ℤ◌ print_result decimal complete_round update_where set_result count_where
finish-full = refl

finish-ok_example :
    (false ≡ false)
    × (full.failed ≡ "")
    × (recombine new_field pair_sum full ≡ ok (52 ∷ 50 ∷ []))
    × (session_at "s1" (finish "s1" pair_sum full false coordinator).1.db
        ≡ some (record pair_sum { status = completed; result = 52 ∷ 50 ∷ [] }))
    × ((node : ℕ)
        → (fetch_task "s1" node (finish "s1" pair_sum full false coordinator).1).is_ready ≡ false)
finish-ok_example =
    finish-ok "s1" pair_sum full false coordinator {s = pair_sum} (unfold find_where in refl)
      finish-full

-- The sum of 20 and 22 in the field of 101 elements, by two nodes.
abbrev small : Field
small = record { p = 101 }

abbrev inputs : Dict ℕ (List ℕ)
inputs = (1, 50 ∷ 50 ∷ []) ∷ (0, 50 ∷ 48 ∷ []) ∷ []

abbrev secrets : List FieldElement
secrets = drawn 20 ∷ drawn 22 ∷ []

inputs_read : Reads small inputs 0 secrets
unfolding lookup from_string set_string reduce mod_ℤ
inputs_read = ((50 ∷ 48 ∷ [], refl, refl), ((50 ∷ 50 ∷ [], refl, refl), tt))

abbrev slots : List (List FieldElement)
slots = (drawn 7 ∷ drawn 13 ∷ []) ∷ (drawn 55 ∷ drawn 68 ∷ []) ∷ []

inputs_shared : share_inputs small pair_sum inputs (7 ∷ 55 ∷ []) ≡ (ok slots, [])
unfolding share_inputs is_comparison share_slots lookup from_string set_string reduce mod_ℤ
    additive_share rand add sub ◌+ℤ◌ ◌-ℤ◌
inputs_shared = refl

abbrev offline : PeerNetwork (Unit {0})
offline = record {
  next_round = λ s. (0, s);
  broadcast = λ s n message. ok s;
  gather = λ s n. ok ([], s);
}

abbrev answered : Collector
answered = record {
  expected = 2;
  shares = (1, 81 ∷ []) ∷ (0, 62 ∷ []) ∷ [];
  failed = "";
  is_closed = true;
}

abbrev answer_of : ℕ → FieldElement
answer_of zero = drawn 62
answer_of (suc j) = drawn 81

node_computes :
    (j : ℕ)
    → j < 2
    → compute offline small j (task_for "s1" pair_sum [] slots [] j) tt ≡ ok (answer_of j, tt)
unfolding compute compute_on parse_slots parse_triples bits order_by task_for share_data triple_data
    from_bytes to_bytes set_bytes bytes reduce mod_ℤ add ◌+ℤ◌
node_computes zero h = refl
node_computes (suc zero) h = refl
node_computes (suc (suc j)) h = absurd (omega arith)

node_submits : (j : ℕ) → j < 2 → lookup j answered.shares ≡ some (to_bytes (answer_of j))
unfolding lookup to_bytes bytes
node_submits zero h = refl
node_submits (suc zero) h = refl
node_submits (suc (suc j)) h = absurd (omega arith)

nodes_answer : Answers offline small (task_for "s1" pair_sum [] slots []) answered 2
nodes_answer = record {
  answer = answer_of;
  at_start = λ j. tt;
  at_end = λ j. tt;
  computes = node_computes;
  submits = node_submits;
  complete = omega arith;
}

recombine-inputs_example :
    recombine small pair_sum answered ≡ ok (print_result pair_sum (sum_v secrets % 101))
recombine-inputs_example =
    recombine-inputs offline small (omega arith) "s1" pair_sum [] inputs secrets (7 ∷ 55 ∷ []) []
      answered adds (omega arith) inputs_read refl (omega arith) inputs_shared nodes_answer
