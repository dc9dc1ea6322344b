-- ===== src/Common/Database.antt =====
-- A SQL database as a client meets it: its tables, and for each statement to come whether the
-- database fails it; an empty list is a database without faults. A statement is atomic, and so is a
-- transaction at the serializable level.
pub mod Keeps
pub mod Ends
use portfolio_itmo.Common.Effects.{Action}
use portfolio_itmo.Common.Results.{Result}
use portfolio_itmo.Common.Results
use portfolio_itmo.Common.Tests.{if◌then◌else◌}
use mathlib.Core.Path.{◌≡◌, refl}
use mathlib.Core.Bool.{Bool, true, false}
use mathlib.Core.Option.{Option, none, some}
use mathlib.Core.List.{List, [], ◌∷◌}
use native.Mathlib.Omega.{arith}

pub record Database (T : Type 0) : Type 0 where
  pub tables : T
  pub faults : List Bool

module _ {E T : Type 0} where
  abbrev pub answer : {A : Type 0} → E → Option (A × T) → Database T → Result E A × Database T
  answer e none db = (Results.err e, db)
  answer e (some (a, tables)) db = (Results.ok a, record db { tables = tables })

  -- A statement, `none` being a violated constraint.
  unfoldable pub exec : {A : Type 0} → E → (T → Option (A × T)) → Action E (Database T) A
  exec e run db = elim db.faults [
    | [] ↦ answer e (run db.tables) db
    | fault ∷ rest ↦
        if fault
        then (Results.err e, record db { faults = rest })
        else answer e (run db.tables) (record db { faults = rest })
  ]

  -- A commit that fails rolls back, as does an error of the body.
  commit : {A : Type 0} → E → T → Result E A × Database T → Result E A × Database T
  commit e before (Results.err cause, db) = (Results.err cause, record db { tables = before })
  commit e before (Results.ok a, db) = elim db.faults [
    | [] ↦ (Results.ok a, db)
    | fault ∷ rest ↦
        if fault
        then (Results.err e, record { tables = before; faults = rest })
        else (Results.ok a, record db { faults = rest })
  ]

  unfoldable pub transaction :
      {A : Type 0} → E → E → Action E (Database T) A → Action E (Database T) A
  unfolding commit
  transaction cannot_begin cannot_commit body db = elim db.faults [
    | [] ↦ commit cannot_commit db.tables (body db)
    | fault ∷ rest ↦
        if fault
        then (Results.err cannot_begin, record db { faults = rest })
        else commit cannot_commit db.tables (body (record db { faults = rest }))
  ]

  commit-err :
      {A : Type 0} (e : E) (before : T) (out : Result E A × Database T) {cause : E}
      → (commit e before out).0 ≡ Results.err cause
      → (commit e before out).1.tables ≡ before
  unfolding commit
  commit-err e before (Results.err cause, db) h = refl
  commit-err e before (Results.ok a, db) h = ground arith

  commit-ok :
      {A : Type 0} (e : E) (before : T) (out : Result E A × Database T) {a : A}
      → (commit e before out).0 ≡ Results.ok a
      → (out.0 ≡ Results.ok a) × ((commit e before out).1.tables ≡ out.1.tables)
  unfolding commit
  commit-ok e before (Results.err cause, db) h = absurd cc
  commit-ok e before (Results.ok a, db) h = ground arith

  -- A transaction that returns an error leaves the tables as they were.
  pub transaction-err :
      {A : Type 0} (e f : E) (body : Action E (Database T) A) (db : Database T) {cause : E}
      → (transaction e f body db).0 ≡ Results.err cause
      → (transaction e f body db).1.tables ≡ db.tables
  unfolding transaction
  transaction-err e f body db {cause} h = begun db.tables db.faults h
    where
      begun :
          (tables : T) (faults : List Bool) {cause : E}
          → (transaction e f body (record { tables = tables; faults = faults })).0
            ≡ Results.err cause
          → (transaction e f body (record { tables = tables; faults = faults })).1.tables ≡ tables
      begun tables [] h = commit-err f tables (body (record { tables = tables; faults = [] })) h
      begun tables (true ∷ rest) h = refl
      begun tables (false ∷ rest) h =
          commit-err f tables (body (record { tables = tables; faults = rest })) h

  -- A transaction that returns a result has run its body on the tables as they were.
  pub transaction-ok :
      {A : Type 0} (e f : E) (body : Action E (Database T) A) (db : Database T) {a : A}
      → (transaction e f body db).0 ≡ Results.ok a
      → (start : Database T) × (start.tables ≡ db.tables)
        × ((body start).0 ≡ Results.ok a)
        × ((transaction e f body db).1.tables ≡ (body start).1.tables)
  unfolding transaction
  transaction-ok e f body db {a} h = begun db.tables db.faults h
    where
      begun :
          (tables : T) (faults : List Bool)
          → (transaction e f body (record { tables = tables; faults = faults })).0 ≡ Results.ok a
          → (start : Database T) × (start.tables ≡ tables)
            × ((body start).0 ≡ Results.ok a)
            × ((transaction e f body (record { tables = tables; faults = faults })).1.tables
                ≡ (body start).1.tables)
      begun tables [] h =
          let k = commit-ok f tables _ h in
          (record { tables = tables; faults = [] }, refl, k.0, k.1)
      begun tables (true ∷ rest) h = absurd cc
      begun tables (false ∷ rest) h =
          let k = commit-ok f tables _ h in
          (record { tables = tables; faults = rest }, refl, k.0, k.1)

  answer-ok :
      {A : Type 0} (e : E) (out : Option (A × T)) (db : Database T) {a : A}
      → (answer e out db).0 ≡ Results.ok a
      → out ≡ some (a, (answer e out db).1.tables)
  answer-ok e none db h = absurd cc
  answer-ok e (some (b, tables)) db h = cc

  -- A statement that returns a result has run on the tables as they were.
  pub exec-ok :
      {A : Type 0} (e : E) (run : T → Option (A × T)) (db : Database T) {a : A}
      → (exec e run db).0 ≡ Results.ok a
      → run db.tables ≡ some (a, (exec e run db).1.tables)
  unfolding exec
  exec-ok e run db {a} h = begun db.tables db.faults h
    where
      begun :
          (tables : T) (faults : List Bool)
          → (exec e run (record { tables = tables; faults = faults })).0 ≡ Results.ok a
          → run tables
            ≡ some (a, (exec e run (record { tables = tables; faults = faults })).1.tables)
      begun tables [] h = answer-ok e (run tables) _ h
      begun tables (true ∷ rest) h = absurd cc
      begun tables (false ∷ rest) h = answer-ok e (run tables) _ h
