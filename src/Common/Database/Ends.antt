-- ===== src/Common/Database/Ends.antt =====
-- What has happened to the tables where a sequence of calls returns a result.
use portfolio_itmo.Common.Database.{Database, transaction, transaction-ok}
use portfolio_itmo.Common.Effects.{Action, ◌>>=◌, fail_if, pure}
use portfolio_itmo.Common.Results.{Result}
use portfolio_itmo.Common.Results
use mathlib.Core.Path.{◌≡◌, ◌∙◌, refl, sym, subst}
use mathlib.Core.Bool.{Bool, true, false}

-- From the tables `t`, a result `a` of the call has the fact `F a` and leaves the tables `g a`.
pub record Step {E T A : Type 0} (t : T) (call : Action E (Database T) A) (F : A → Type 0)
    (g : A → T) : Type 0 where
  pub steps :
      (db : Database T) (a : A)
      → db.tables ≡ t
      → (call db).0 ≡ Results.ok a
      → F a × ((call db).1.tables ≡ g a)

-- From the tables `t`, a result of the call and the tables that it leaves are related by `G`.
pub record Ends {E T B : Type 0} (t : T) (call : Action E (Database T) B) (G : B → T → Type 0)
    : Type 0 where
  pub ends :
      (db : Database T) (b : B)
      → db.tables ≡ t
      → (call db).0 ≡ Results.ok b
      → G b (call db).1.tables

module _ {E T : Type 0} where
  after_first :
      {A B : Type 0} {F : A → Type 0} {g : A → T} {f : A → Action E (Database T) B}
      {G : B → T → Type 0}
      → ((a : A) → F a → Ends (g a) (f a) G)
      → (out : Result E A × Database T) (b : B)
      → ((a : A) → out.0 ≡ Results.ok a → F a × (out.1.tables ≡ g a))
      → (◌>>=◌ (λ (s : Database T). out) f out.1).0 ≡ Results.ok b
      → G b (◌>>=◌ (λ (s : Database T). out) f out.1).1.tables
  after_first later (Results.ok a, db) b first h =
      let fact = first a refl in (later a fact.0).ends db b fact.1 h
  after_first later (Results.err e, db) b first h = absurd cc

module _ {E T : Type 0} {t : T} where
  pub >>=-Ends :
      {A B : Type 0} {F : A → Type 0} {g : A → T} {m : Action E (Database T) A}
      {f : A → Action E (Database T) B} {G : B → T → Type 0}
      → Step t m F g
      → ((a : A) → F a → Ends (g a) (f a) G)
      → Ends t (m >>= f) G
  >>=-Ends {m} first later = record {
    ends = λ db b same h. after_first later (m db) b (λ a e. first.steps db a same e) h;
  }

  pub last-Ends :
      {A : Type 0} {F : A → Type 0} {g : A → T} {m : Action E (Database T) A} {G : A → T → Type 0}
      → Step t m F g
      → ((a : A) → F a → G a (g a))
      → Ends t m G
  last-Ends {G} step k = record {
    ends = λ db b same h.
        let (fact, left) = step.steps db b same h in subst (G b) (sym left) (k b fact);
  }

pub fail_if-Step :
    {E T : Type 0} (t : T) (test : Bool) (e : E)
    → Step t (fail_if test e) (λ _. test ≡ false) (λ _. t)
fail_if-Step t true e = record { steps = λ db a same h. absurd cc }
fail_if-Step t false e = record { steps = λ db a same h. (refl, same) }

module _ {E T : Type 0} where
  after_any :
      {A B : Type 0} {F : A → T → Type 0} {f : A → Action E (Database T) B} {G : B → T → Type 0}
      → ((a : A) (t : T) → F a t → Ends t (f a) G)
      → (out : Result E A × Database T) (b : B)
      → ((a : A) → out.0 ≡ Results.ok a → F a out.1.tables)
      → (◌>>=◌ (λ (s : Database T). out) f out.1).0 ≡ Results.ok b
      → G b (◌>>=◌ (λ (s : Database T). out) f out.1).1.tables
  after_any later (Results.ok a, db) b first h = (later a db.tables (first a refl)).ends db b refl h
  after_any later (Results.err e, db) b first h = absurd cc

  pub then-Ends :
      {A B : Type 0} {t : T} {F : A → T → Type 0} {m : Action E (Database T) A}
      {f : A → Action E (Database T) B} {G : B → T → Type 0}
      → Ends t m F
      → ((a : A) (t' : T) → F a t' → Ends t' (f a) G)
      → Ends t (m >>= f) G
  then-Ends {m} first later = record {
    ends = λ db b same h. after_any later (m db) b (λ a e. first.ends db a same e) h;
  }

  pub pure-Ends :
      {A : Type 0} {t : T} {a : A} {G : A → T → Type 0} → G a t → Ends {E = E} t (pure a) G
  pure-Ends {a = a} {G = G} g = record {
    ends = λ db b same h.
        let result : a ≡ b = cc in subst (λ x. G x db.tables) result (subst (G a) (sym same) g);
  }

  pub weaken-Ends :
      {A : Type 0} {t : T} {call : Action E (Database T) A} {G H : A → T → Type 0}
      → Ends t call G
      → ((a : A) (left : T) → G a left → H a left)
      → Ends t call H
  weaken-Ends first k = record { ends = λ db b same h. k b _ (first.ends db b same h) }

  pub transaction-Ends :
      {A : Type 0} {t : T} {body : Action E (Database T) A} {G : A → T → Type 0}
      → (e f : E) → Ends t body G
      → Ends t (transaction e f body) G
  transaction-Ends {body = body} {G = G} e f first = record {
    ends = λ db b same h.
        let (start, begun, run, left) = transaction-ok e f body db h in
        subst (G b) (sym left) (first.ends start b (begun ∙ same) run);
  }
