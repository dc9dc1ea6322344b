-- ===== src/Mpc/Session/Manager/Outcome.antt =====
-- How an `Execute` ends: the row of its session, and what is left in the maps.
use portfolio_itmo.Common.{
  ℕ, ◌≡◌, refl, sym, ap, Bool, Bool-cases, inl, inr, true, false, arith, List, some, Result, ok,
  err,
}
use portfolio_itmo.Common.Dict.{lookup-remove}
use portfolio_itmo.Common.Equality.{same, string_eq, same_refl, eq_of_same}
use portfolio_itmo.Common.Table.{update_where, find-update, find_sound}
use portfolio_itmo.Mpc.Field.{new_field}
use portfolio_itmo.Mpc.Session.{Session, Error, completed}
use portfolio_itmo.Mpc.Session.Collector.{Collector}
use portfolio_itmo.Mpc.Session.Inputs.{recombine}
use portfolio_itmo.Mpc.Session.Manager.{Manager, finish, conclude, cleanup, fetch_task}
use portfolio_itmo.Mpc.Session.Store.{Db, has_id, set_result, complete_round}
use portfolio_itmo.Mpc.Session.Store.Laws.{session_at, with_result}
use mathlib.Core.Path.{subst}
use Prim.Native.String.{String}

complete_round_sessions :
    (id : String) (n : ℕ) (db : Db) → (complete_round id n db).1.sessions ≡ db.sessions
unfolding complete_round
complete_round_sessions id n db = ground arith

set_result_written :
    (id : String) (result : List ℕ) (db : Db)
    → (set_result id result db).0 ≡ ok tt
    → (set_result id result db).1.sessions
      ≡ update_where (has_id id) (with_result result) db.sessions
unfolding set_result
set_result_written id result db h = ground arith

-- A result that the store accepts is the result of a completed session.
pub set_result-ok :
    (id : String) (result : List ℕ) (db : Db) {s : Session}
    → session_at id db ≡ some s
    → (set_result id result db).0 ≡ ok tt
    → session_at id (set_result id result db).1 ≡ some (with_result result s)
set_result-ok id result db {s} found h = rw (
  set_result_written id result db h,
  find-update (has_id id) (has_id id) (with_result result) (λ r. refl) db.sessions,
  found,
  find_sound (has_id id) db.sessions found,
)

no_task :
    (id : String) (node : ℕ) (m : Manager) → (fetch_task id node (cleanup id m)).is_ready ≡ false
unfolding fetch_task cleanup
no_task id node m = ground (arith, lookup-remove id id m.tasks, same_refl id)

abbrev IsConcluded : String → Session → List ℕ → Manager → Type 0
IsConcluded id s result m =
    (session_at id m.db ≡ some (record s { status = completed; result = result }))
    × ((node : ℕ) → (fetch_task id node m).is_ready ≡ false)

conclude_effect :
    (id : String) (res : List ℕ) (m : Manager) {result : List ℕ}
    → (conclude id (ok res) m).0 ≡ ok result
    → let (stored, db) = set_result id res (complete_round id 1 m.db).1 in
      (res ≡ result)
      × (stored ≡ ok tt)
      × ((conclude id (ok res) m).1 ≡ cleanup id (record m { db = db }))
conclude_effect id res m {result} h = ground arith

conclude-ok :
    (id : String) (r : Result Error (List ℕ)) (m : Manager) {s : Session} {result : List ℕ}
    → session_at id m.db ≡ some s
    → (conclude id r m).0 ≡ ok result
    → (r ≡ ok result) × IsConcluded id s result (conclude id r m).1
conclude-ok id (err e) m found h = absurd cc
conclude-ok id (ok res) m {s} {result} found h =
    let (same_result, stored, effect) = conclude_effect id res m h in
    let db = (complete_round id 1 m.db).1 in
    let kept : session_at id db ≡ some s = rw (complete_round_sessions id 1 m.db) found in
    let written : session_at id (set_result id res db).1 ≡ some (with_result result s) =
      subst (λ r. session_at id (set_result id res db).1 ≡ some (with_result r s)) same_result
        (set_result-ok id res db kept stored) in
    (
      ap ok same_result,
      subst (IsConcluded id s result) (sym effect) (
        unfold cleanup in written,
        λ node. no_task id node (record m { db = (set_result id res db).1 }),
      ),
    )

-- An `Execute` that returns a result: the shares that were collected recombine to it, its session
-- is completed with it, whatever the status of the session has become in the meantime, and there
-- is no task left to fetch.
pub finish-ok :
    (id : String) (sess : Session) (coll : Collector) (expired : Bool) (m : Manager) {s : Session}
    {result : List ℕ}
    → session_at id m.db ≡ some s
    → (finish id sess coll expired m).0 ≡ ok result
    → (expired ≡ false)
      × (coll.failed ≡ "")
      × (recombine new_field sess coll ≡ ok result)
      × (session_at id (finish id sess coll expired m).1.db
          ≡ some (record s { status = completed; result = result }))
      × ((node : ℕ) → (fetch_task id node (finish id sess coll expired m).1).is_ready ≡ false)
unfolding finish
finish-ok id sess coll true m found h = absurd cc
finish-ok id sess coll false m {s} {result} found h = elim (Bool-cases (same coll.failed "")) [
  | inl clean ↦
      (let done = conclude-ok id (recombine new_field sess coll) m {s = s} found (rw clean at h) in
        rw clean (refl, eq_of_same clean, done.0, done.1.0, done.1.1))
  | inr failing ↦ absurd (ground (arith, failing))
]
