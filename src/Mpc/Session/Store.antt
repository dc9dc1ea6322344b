-- ===== src/Mpc/Session/Store.antt =====
-- projects/01-mpc-cluster/internal/session/store.go: the three tables of
-- projects/01-mpc-cluster/migrations and the statements on them. `faults` says, for each statement to
-- come, whether the database fails it; an empty list is a database without faults.
pub mod Laws
pub mod Keeps
use portfolio_itmo.Common.{
  ℕ, ◌+◌, Bool, true, false, not, ◌&&◌, ◌||◌, List, [], ◌∷◌, ◌++◌, Option, none, some, ltb, ◌==◌,
  if◌then◌else◌, length, take, drop, ok, err,
}
use portfolio_itmo.Common.Effects.{Action, ◌>>=◌, ◌>>◌, pure, raise, fail_if}
use portfolio_itmo.Common.Equality.{same, string_eq}
use portfolio_itmo.Common.Table.{update_where, count_where, find_where, select_where, order_by}
use portfolio_itmo.Mpc.Session.{
  Session, Round, NodeRecord, Status, Reason, Error, status_eq, not_found, status_conflict, sql,
  no_reason, completed, failed,
}
use mathlib.Core.List.{get_last?}
use Prim.Native.String.{String}

pub record Db : Type 0 where
  pub sessions : List Session
  pub rounds : List Round
  pub nodes : List NodeRecord
  pub faults : List Bool

-- A statement that the database runs; `none` is a violated constraint.
abbrev pub settle : {A : Type 0} → Error → (Db → Option (A × Db)) → Action Error Db A
settle e run db = elim (run db) [ none ↦ (err e, db) | some (a, db') ↦ (ok a, db') ]

-- A statement that the database may fail before it runs.
abbrev pub exec : {A : Type 0} → Error → (Db → Option (A × Db)) → Action Error Db A
exec e run db = elim db.faults [
  | [] ↦ settle e run db
  | fault ∷ rest ↦
      if fault
      then (err e, record db { faults = rest })
      else settle e run (record db { faults = rest })
]

abbrev pub has_id : String → Session → Bool
has_id id s = same s.id id

-- The reference that `rounds` and `session_nodes` hold to `sessions`.
abbrev known : String → Db → Bool
known id db = ltb 0 (count_where (has_id id) db.sessions)

unfoldable pub create : Session → Action Error Db (Unit {0})
create sess =
    exec (sql "insert session") λ db.
      if known sess.id db then none else some (tt, record db { sessions = sess ∷ db.sessions })

unfoldable pub get : String → Action Error Db Session
get id = do
  row ← exec (sql "load session") (λ db. some (find_where (has_id id) db.sessions, db))
  elim row [ none ↦ raise not_found | some sess ↦ pure sess ]

-- An `UPDATE sessions … WHERE test`, with the number of rows affected.
abbrev update_sessions : Error → (Session → Bool) → (Session → Session) → Action Error Db ℕ
update_sessions e test change = exec e λ db.
    some
      (count_where test db.sessions, record db { sessions = update_where test change db.sessions })

unfoldable pub update_status : String → Status → Status → Action Error Db (Unit {0})
update_status id expected next = do
  affected ←
      update_sessions (sql "update status") (λ s. same s.id id && status_eq s.status expected)
        (λ s. record s { status = next })
  fail_if (affected == 0) (status_conflict id)

unfoldable pub set_result : String → List ℕ → Action Error Db (Unit {0})
set_result id result = do
  affected ←
      update_sessions (sql "store result") (has_id id)
        (λ s. record s { status = completed; result = result })
  fail_if (affected == 0) not_found

unfoldable pub fail : String → Reason → Action Error Db (Unit {0})
fail id why = do
  update_sessions (sql "mark session failed") (has_id id)
      (λ s. record s { status = failed; error_msg = why })
  pure tt

-- `ORDER BY created_at DESC`: `create` puts the newest row first.
unfoldable pub list_active : Action Error Db (List Session)
list_active = exec (sql "query active sessions") λ db. some (
  select_where (λ s. not (status_eq s.status completed || status_eq s.status failed)) db.sessions,
  db,
)

unfoldable pub list_all : ℕ → ℕ → Action Error Db (List Session × ℕ)
list_all limit offset = do
  total ← exec (sql "count sessions") (λ db. some (length db.sessions, db))
  page ← exec (sql "query sessions page") (λ db. some (take limit (drop offset db.sessions), db))
  pure (page, total)

abbrev is_round : String → ℕ → Round → Bool
is_round id number r = same r.session_id id && r.number == number

unfoldable pub create_round : Round → Action Error Db (Unit {0})
create_round r = exec (sql "create round") λ db.
    if not (known r.session_id db)
    then none
    else if ltb 0 (count_where (is_round r.session_id r.number) db.rounds)
    then some (
      tt,
      record db {
        rounds =
            update_where (is_round r.session_id r.number)
              (λ row. record row { phase = r.phase; status = r.status }) db.rounds;
      },
    )
    else some (tt, record db { rounds = r ∷ db.rounds })

unfoldable pub complete_round : String → ℕ → Action Error Db (Unit {0})
complete_round id number = exec (sql "complete round") λ db. some (
  tt,
  record db {
    rounds =
        update_where (is_round id number)
          (λ row. record row { status = "completed"; is_completed = true }) db.rounds;
  },
)

unfoldable pub list_rounds : String → Action Error Db (List Round)
list_rounds id =
    exec (sql "list rounds")
      λ db. some (order_by (λ r. r.number) (select_where (λ r. same r.session_id id) db.rounds), db)

unfoldable pub get_current_round : String → Action Error Db Round
get_current_round id = do
  row ← exec (sql "current round") λ db. some (
    get_last? (order_by (λ r. r.number) (select_where (λ r. same r.session_id id) db.rounds)),
    db,
  )
  elim row [ none ↦ raise not_found | some r ↦ pure r ]

abbrev is_node : String → ℕ → NodeRecord → Bool
is_node id node n = same n.session_id id && n.node_id == node

abbrev upsert_node : NodeRecord → Db → Db
upsert_node n db =
    if ltb 0 (count_where (is_node n.session_id n.node_id) db.nodes)
    then record db {
      nodes =
          update_where (is_node n.session_id n.node_id)
            (λ row. record row { addr = n.addr; status = "ready" }) db.nodes;
    }
    else record db { nodes = record n { status = "ready" } ∷ db.nodes }

unfoldable pub register_node : NodeRecord → Action Error Db ℕ
register_node n = do
  exec (sql "register node")
      (λ db. if known n.session_id db then some (tt, upsert_node n db) else none)
  exec (sql "count nodes")
      (λ db. some (count_where (λ row. same row.session_id n.session_id) db.nodes, db))

unfoldable pub list_nodes : String → Action Error Db (List NodeRecord)
list_nodes id =
    exec (sql "list nodes")
      λ db. some (order_by (λ n. n.node_id) (select_where (λ n. same n.session_id id) db.nodes), db)
