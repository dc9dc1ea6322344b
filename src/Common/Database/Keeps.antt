-- ===== src/Common/Database/Keeps.antt =====
-- What statements and transactions keep of the tables.
use portfolio_itmo.Common.Database.{
  Database, answer, exec, transaction, transaction-err, transaction-ok,
}
use portfolio_itmo.Common.Effects.{Action}
use portfolio_itmo.Common.Effects.Ensures.{Keeps, Outcome, Outcome-of}
use portfolio_itmo.Common.Results.{Result}
use portfolio_itmo.Common.Results
use mathlib.Core.Path.{◌≡◌, refl, sym, subst}
use mathlib.Core.Bool.{Bool, true, false}
use mathlib.Core.Option.{Option, none, some}
use mathlib.Core.List.{List, [], ◌∷◌}

-- A property of the tables, of a database.
abbrev pub Of : {T : Type 0} → (T → Type 0) → Database T → Type 0
Of P db = P db.tables

module _ {E T : Type 0} (P : T → Type 0) where
  answer-Outcome :
      {A : Type 0} (e : E) (out : Option (A × T)) (db : Database T)
      → ((a : A) (t : T) → out ≡ some (a, t) → P t)
      → P db.tables
      → Outcome (Of P) (λ _. Unit {0}) (answer e out db)
  answer-Outcome e none db h p = p
  answer-Outcome e (some (a, t)) db h p = (h a t refl, tt)

  -- A statement keeps what its change of the tables keeps.
  pub exec-Keeps :
      {A : Type 0} (e : E) (run : T → Option (A × T))
      → ((before : T) (a : A) (t : T) → P before → run before ≡ some (a, t) → P t)
      → Keeps (Of P) (exec e run)
  unfolding exec
  exec-Keeps e run h = record { holds = λ db p. begun db.tables db.faults p }
    where
      begun :
          (tables : T) (faults : List Bool)
          → P tables
          → Outcome
              (Of P)
              (λ _. Unit {0})
              (exec e run (record { tables = tables; faults = faults }))
      begun tables [] p =
          answer-Outcome e (run tables) (record { tables = tables; faults = [] })
            (λ a t r. h tables a t p r) p
      begun tables (true ∷ rest) p = p
      begun tables (false ∷ rest) p =
          answer-Outcome e (run tables) (record { tables = tables; faults = rest })
            (λ a t r. h tables a t p r) p

  tables_kept :
      {A : Type 0} (e f : E) (body : Action E (Database T) A) (db : Database T) (r : Result E A)
      → (transaction e f body db).0 ≡ r
      → ((start : Database T) (a : A)
          → P start.tables
          → (body start).0 ≡ Results.ok a
          → P (body start).1.tables)
      → P db.tables
      → P (transaction e f body db).1.tables
  tables_kept e f body db (Results.err cause) same h p =
      subst P (sym (transaction-err e f body db same)) p
  tables_kept e f body db (Results.ok a) same h p =
      let (start, begun, run, left) = transaction-ok e f body db same in
      subst P (sym left) (h start a (subst P (sym begun) p) run)

  -- A transaction keeps what its body keeps where it returns a result.
  pub transaction-Keeps :
      {A : Type 0} (e f : E) (body : Action E (Database T) A)
      → ((start : Database T) (a : A)
          → P start.tables
          → (body start).0 ≡ Results.ok a
          → P (body start).1.tables)
      → Keeps (Of P) (transaction e f body)
  transaction-Keeps e f body h = record {
    holds = λ db p.
        Outcome-of (Of P) (λ _. Unit {0}) (transaction e f body db)
          (tables_kept e f body db (transaction e f body db).0 refl h p) (λ a e. tt);
  }
