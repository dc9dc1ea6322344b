-- ===== src/Mpc/Session/Manager/Invariant.antt =====
-- What every handler of the coordinator keeps, in whatever order the calls come and wherever the
-- database fails.
use portfolio_itmo.Common.{
  ℕ, zero, suc, ◌+◌, Bool, true, false, not, ◌&&◌, ◌||◌, arith, List, Option, none, some, ltb,
  Result, ◌==◌, if◌then◌else◌, ok, err,
}
use portfolio_itmo.Common.Dict.{Dict}
use portfolio_itmo.Common.Effects.{Action}
use portfolio_itmo.Common.Effects.Ensures.{
  Ensures, Keeps, kept, >>=-Ensures, pure-Ensures, raise-Ensures, modify-Keeps, gets-Keeps,
  fail_if-Ensures, ignore-Keeps,
}
use portfolio_itmo.Common.Equality.{nat_eq, string_eq, same}
use portfolio_itmo.Mpc.Session.{
  Session, Error, no_computation, unexpected_status, status_eq, created, nodes_ready, computing,
  cancelled, spawn, spawn_node, generate_id, unsupported_operation, too_few_parties,
  comparison_parties, Reason, cause, timed_out_waiting, timed_out, reported, node_failure, valid,
}
use portfolio_itmo.Mpc.Session.Collector.{Collector, add_result, add_result-IsSettled}
use portfolio_itmo.Mpc.Session.Task.{Task}
use portfolio_itmo.Mpc.Session.Manager.{
  Manager, cleanup, deliver, accept_result, cancel, register_node, spawn_nodes, CreateRequest,
  choose_id, spawn_next, spawn_all, create, new_session, no_peers, abandon, conclude, collector_at,
  finish, set_ready, add_peer, joining, entries_of, tasks_from, first_round, start, prepare, begin,
}
use portfolio_itmo.Mpc.Session.Store.Keeps.{
  IsValid, IsLarge, get-Ensures, fail-Keeps, update_status-Keeps, create_round-Keeps,
  set_result-Keeps, complete_round-Keeps,
}
use portfolio_itmo.Mpc.Session.Store.Keeps
use portfolio_itmo.Mpc.Session.Inputs.{
  share_inputs, is_comparison, recombine, task_for, build_triples,
}
use portfolio_itmo.Mpc.Field.{new_field}
use Prim.Native.String.{String}
use portfolio_itmo.Mpc.Session.Manager.Sound.{
  IsSound, on_db-Ensures, on_reader-Keeps, cleanup-IsSound, update_at-IsSettled, length-update_at,
  publish-Keeps,
}

deliver-Keeps :
    (id : String) (node : ℕ) (value : List ℕ) (err_str : String) (found : Option ℕ)
    → Keeps IsSound (deliver id node value err_str found)
deliver-Keeps id node value err_str none = raise-Ensures (no_computation id)
deliver-Keeps id node value err_str (some address) = modify-Keeps _ λ m i. record {
  stored = i.stored;
  settled =
      update_at-IsSettled address _ m.heap
        (λ c settled. add_result-IsSettled c node value err_str settled) i.settled;
  in_heap = λ k {address = target} e. omega (
    arith,
    i.in_heap k e,
    length-update_at address (λ c. add_result c node value err_str) m.heap,
  );
}

-- A result that is accepted keeps the coordinator sound, whoever sends it and however often.
pub accept_result-Keeps :
    (id : String) (node : ℕ) (value : List ℕ) (err_str : String)
    → Keeps IsSound (accept_result id node value err_str)
unfolding accept_result
accept_result-Keeps id node value err_str =
    >>=-Ensures (gets-Keeps _) (λ found u. deliver-Keeps id node value err_str found)

pub cancel-Keeps : (id : String) → Keeps IsSound (cancel id)
unfolding cancel
cancel-Keeps id = >>=-Ensures (on_db-Ensures (get-Ensures id)) λ sess large.
    >>=-Ensures (on_db-Ensures (fail-Keeps id cancelled))
      λ u v. modify-Keeps (cleanup id) (cleanup-IsSound id)

set_ready-Keeps : (id : String) (is_last : Bool) → Keeps IsSound (set_ready id is_last)
set_ready-Keeps id true = on_db-Ensures (update_status-Keeps id created nodes_ready)
set_ready-Keeps id false = pure-Ensures tt

pub register_node-Keeps :
    (id : String) (node : ℕ) (addr : String) → Keeps IsSound (register_node id node addr)
unfolding register_node
register_node-Keeps id node addr = >>=-Ensures (on_db-Ensures (get-Ensures id)) λ sess large.
    >>=-Ensures (on_db-Ensures (Keeps.register_node-Keeps (joining id node addr))) λ count u.
      >>=-Ensures (modify-Keeps (add_peer id node addr) same)
        λ u v. set_ready-Keeps id (count == sess.party_count)
  where
    same : (m : Manager) → IsSound m → IsSound (add_peer id node addr m)
    same m i = record { stored = i.stored; settled = i.settled; in_heap = i.in_heap }

pub start-Keeps : (id : String) → Keeps IsSound (start id)
unfolding start
start-Keeps id =
    >>=-Ensures (on_db-Ensures (update_status-Keeps id nodes_ready computing))
      λ u v. ignore-Keeps (on_db-Ensures (create_round-Keeps (first_round id)))

-- The session that `prepare` returns has two parties at least.
pub prepare-Ensures :
    (id : String) (inputs : Dict ℕ (List ℕ))
    → Ensures IsSound (λ (r : Session × Dict ℕ Task). IsLarge r.0) (prepare id inputs)
unfolding prepare
prepare-Ensures id inputs = >>=-Ensures (on_db-Ensures (get-Ensures id)) λ sess large.
    >>=-Ensures (fail_if-Ensures (not (status_eq sess.status nodes_ready)) (unexpected_status id))
      λ u v. >>=-Ensures (on_reader-Keeps (share_inputs new_field sess inputs)) λ slots w.
        >>=-Ensures (on_reader-Keeps (build_triples new_field sess)) λ triples x.
          >>=-Ensures (gets-Keeps (entries_of id)) λ entries y.
            pure-Ensures
              {a = (sess, tasks_from (task_for id sess entries slots triples) 0 sess.party_count)}
              large

-- `Execute` up to its wait keeps the coordinator sound, also where it fails.
pub begin-Keeps : (id : String) (inputs : Dict ℕ (List ℕ)) → Keeps IsSound (begin id inputs)
unfolding begin
begin-Keeps id inputs = >>=-Ensures (prepare-Ensures id inputs) λ r large.
    >>=-Ensures (publish-Keeps id r.0 r.1 large)
      λ address u. >>=-Ensures (start-Keeps id) λ v w. pure-Ensures {a = (r.0, address)} tt

choose_id-Keeps :
    (is_empty : Bool) (req : CreateRequest) (generated : Option String)
    → Keeps IsSound (choose_id is_empty req generated)
choose_id-Keeps true req none = raise-Ensures generate_id
choose_id-Keeps true req (some id) = pure-Ensures tt
choose_id-Keeps false req generated = pure-Ensures tt

spawn_next-Keeps :
    (refused : Bool) (id : String) (node : ℕ) {rest : Action Error Manager (Unit {0})}
    → Keeps IsSound rest
    → Keeps IsSound (spawn_next refused id node rest)
spawn_next-Keeps true id node h =
    >>=-Ensures (ignore-Keeps (on_db-Ensures (fail-Keeps id (spawn node))))
      λ u v. raise-Ensures (spawn_node node)
spawn_next-Keeps false id node h = h

module _ (refuses : ℕ → Bool) where
  spawn_nodes-Keeps : (id : String) (node k : ℕ) → Keeps IsSound (spawn_nodes refuses id node k)
  unfolding spawn_nodes
  spawn_nodes-Keeps id node zero = pure-Ensures tt
  spawn_nodes-Keeps id node (suc k) =
      spawn_next-Keeps (refuses node) id node (spawn_nodes-Keeps id (node + 1) k)

  spawn_all-Keeps :
      (enabled : Bool) (id : String) (parties : ℕ)
      → Keeps IsSound (spawn_all refuses enabled id parties)
  spawn_all-Keeps true id parties = spawn_nodes-Keeps id 0 parties
  spawn_all-Keeps false id parties = pure-Ensures tt

  pub create-Keeps :
      (enabled : Bool) (generated : Option String) (req : CreateRequest)
      → Keeps IsSound (create refuses enabled generated req)
  unfolding create
  create-Keeps enabled generated req =
      >>=-Ensures (fail_if-Ensures (not (valid req.type)) unsupported_operation) λ u v.
        >>=-Ensures (fail_if-Ensures (ltb req.party_count 2) (too_few_parties req.party_count))
          λ w two.
            >>=-Ensures
              (fail_if-Ensures (is_comparison req.type && not (req.party_count == 2))
                comparison_parties)
              λ x y. >>=-Ensures (choose_id-Keeps (same req.id "") req generated) λ id z.
                >>=-Ensures
                  (on_db-Ensures (Keeps.create-Keeps (new_session id req) (ground (arith, two))))
                  λ a b. >>=-Ensures (modify-Keeps (no_peers id) (peerless id)) λ c d.
                    >>=-Ensures (spawn_all-Keeps enabled id req.party_count)
                      λ e f. pure-Ensures {a = new_session id req} tt
    where
      peerless : (id : String) (m : Manager) → IsSound m → IsSound (no_peers id m)
      peerless id m i = record { stored = i.stored; settled = i.settled; in_heap = i.in_heap }

abandon-Keeps :
    {A : Type 0} (id : String) (why : Reason) (e : Error) → Keeps IsSound (abandon {A = A} id why e)
abandon-Keeps id why e =
    >>=-Ensures (ignore-Keeps (on_db-Ensures (fail-Keeps id why))) (λ u v. raise-Ensures e)

conclude-Keeps : (id : String) (r : Result Error (List ℕ)) → Keeps IsSound (conclude id r)
conclude-Keeps id (err e) = abandon-Keeps id (cause e) e
conclude-Keeps id (ok result) =
    >>=-Ensures (ignore-Keeps (on_db-Ensures (complete_round-Keeps id 1))) λ u v.
      >>=-Ensures (on_db-Ensures (set_result-Keeps id result)) λ w x.
        >>=-Ensures (modify-Keeps (cleanup id) (cleanup-IsSound id))
          λ y z. pure-Ensures {a = result} tt

pub finish-Keeps :
    (id : String) (sess : Session) (coll : Collector) (expired : Bool)
    → Keeps IsSound (finish id sess coll expired)
unfolding finish
finish-Keeps id sess coll true = abandon-Keeps id timed_out_waiting (timed_out id)
finish-Keeps id sess coll false = by_error (same coll.failed "")
  where
    by_error :
        (test : Bool)
        → Keeps IsSound (
            if test
            then conclude id (recombine new_field sess coll)
            else abandon id (reported coll.failed) (node_failure coll.failed))
    by_error true = conclude-Keeps id (recombine new_field sess coll)
    by_error false = abandon-Keeps id (reported coll.failed) (node_failure coll.failed)

-- The wait of an `Execute` ends when its collector is closed or the time is over.
pub resume : String → Session → Bool → Option Collector → Manager → Manager
resume id sess expired none m = m
resume id sess expired (some coll) m =
    if coll.is_closed || expired then (finish id sess coll expired m).1 else m

-- A run of the coordinator: calls of its handlers one after another, where `Execute` is cut at
-- its wait, so that those of several sessions interleave.
pub data Call : Type 0 where
  creates : (ℕ → Bool) → Bool → Option String → CreateRequest → Call
  registers : String → ℕ → String → Call
  begins : String → Dict ℕ (List ℕ) → Call
  accepts : String → ℕ → List ℕ → String → Call
  finishes : String → Session → ℕ → Bool → Call
  cancels : String → Call

pub serve : Call → Manager → Manager
serve (creates refuses enabled generated req) m = (create refuses enabled generated req m).1
serve (registers id node addr) m = (register_node id node addr m).1
serve (begins id inputs) m = (begin id inputs m).1
serve (accepts id node value err_str) m = (accept_result id node value err_str m).1
serve (finishes id sess address expired) m = resume id sess expired (collector_at address m) m
serve (cancels id) m = (cancel id m).1

resume-IsSound :
    (id : String) (sess : Session) (expired : Bool) (found : Option Collector) (m : Manager)
    → IsSound m
    → IsSound (resume id sess expired found m)
unfolding resume
resume-IsSound id sess expired none m i = i
resume-IsSound id sess expired (some coll) m i = ended (coll.is_closed || expired)
  where
    ended : (test : Bool) → IsSound (if test then (finish id sess coll expired m).1 else m)
    ended true = kept (finish-Keeps id sess coll expired) m i
    ended false = i

-- Every call keeps the coordinator sound, also one that fails halfway: ids are unique, each session
-- has two parties at least, a collector is closed by an error or by as many shares as it expects,
-- and each session's collector exists.
pub serve-IsSound : (c : Call) (m : Manager) → IsSound m → IsSound (serve c m)
unfolding serve
serve-IsSound (creates refuses enabled generated req) m =
    kept (create-Keeps refuses enabled generated req) m
serve-IsSound (registers id node addr) m = kept (register_node-Keeps id node addr) m
serve-IsSound (begins id inputs) m = kept (begin-Keeps id inputs) m
serve-IsSound (accepts id node value err_str) m = kept (accept_result-Keeps id node value err_str) m
serve-IsSound (finishes id sess address expired) m =
    resume-IsSound id sess expired (collector_at address m) m
serve-IsSound (cancels id) m = kept (cancel-Keeps id) m
