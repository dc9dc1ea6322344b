-- ===== src/Mpc/Session/Store/Keeps.antt =====
-- What every statement of the store keeps: ids are unique, and a session has two parties at least.
use portfolio_itmo.Common.{
  ℕ, ◌≤◌, ◌≡◌, sym, Bool, arith, List, [], ◌∷◌, some, All, ok, ◌⊎◌, inl, inr,
}
use portfolio_itmo.Common.Effects.{Action}
use portfolio_itmo.Common.Effects.Ensures.{Ensures, Keeps, Outcome-of}
use portfolio_itmo.Common.Table.{update_where, find_where, count_where}
use portfolio_itmo.Mpc.Session.{Session, Round, NodeRecord, Status, Reason, Error}
use portfolio_itmo.Mpc.Session.Store.{
  Db, has_id, create, get, update_status, set_result, fail, create_round, complete_round,
  register_node,
}
use portfolio_itmo.Mpc.Session.Store.Laws.{
  IsKeyed, after, after-IsKeyed, creates, updates_status, sets_result, fails, Rewrites, in_status,
  with_status, with_result, as_failed, update_status-Rewrites, set_result-Rewrites, fail-Rewrites,
  create_cases,
}
use mathlib.Core.Path.{subst}
use Prim.Native.String.{String}

abbrev pub IsLarge : Session → Type 0
IsLarge s = 2 ≤ s.party_count

pub record IsValid (db : Db) : Type 0 where
  pub keyed : IsKeyed db
  pub large : All IsLarge db.sessions

update-All :
    (test : Session → Bool) (change : Session → Session) (rows : List Session)
    → ((s : Session) → IsLarge s → IsLarge (change s))
    → All IsLarge rows
    → All IsLarge (update_where test change rows)
unfolding update_where
update-All test change [] k h = tt
update-All test change (r ∷ rows) k (a, h) =
    (ground (arith, k r a), update-All test change rows k h)

find-All :
    (test : Session → Bool) (rows : List Session) {s : Session}
    → All IsLarge rows
    → find_where test rows ≡ some s
    → IsLarge s
unfolding find_where
find-All test [] h e = absurd cc
find-All test (r ∷ rows) {s} (a, h) e = ground (arith, find-All test rows {s = s} h)

Rewrites-IsLarge :
    (test : Session → Bool) (change : Session → Session) (db db' : Db)
    → ((s : Session) → IsLarge s → IsLarge (change s))
    → Rewrites test change db db'
    → All IsLarge db.sessions
    → All IsLarge db'.sessions
Rewrites-IsLarge test change db db' k (inl e) h = subst (All IsLarge) (sym e) h
Rewrites-IsLarge test change db db' k (inr e) h =
    subst (All IsLarge) (sym e) (update-All test change db.sessions k h)

create-IsLarge :
    (s : Session) (db db' : Db)
    → IsLarge s
    → (db'.sessions ≡ db.sessions)
      ⊎ ((count_where (has_id s.id) db.sessions ≡ 0) × (db'.sessions ≡ s ∷ db.sessions))
    → All IsLarge db.sessions
    → All IsLarge db'.sessions
create-IsLarge s db db' large (inl e) h = subst (All IsLarge) (sym e) h
create-IsLarge s db db' large (inr (fresh, e)) h = subst (All IsLarge) (sym e) (large, h)

-- A call that returns no value keeps the database valid where each of its runs does.
Keeps-of :
    {A : Type 0} (call : Action Error Db A)
    → ((db : Db) → IsValid db → IsValid (call db).1)
    → Keeps IsValid call
Keeps-of call h = record {
  holds = λ db i. Outcome-of IsValid (λ _. Unit {0}) (call db) (h db i) (λ a e. tt);
}

same-IsValid : (db db' : Db) → db'.sessions ≡ db.sessions → IsValid db → IsValid db'
same-IsValid db db' e i = record {
  keyed = record { unique = λ id. rw e (i.keyed.unique id) };
  large = subst (All IsLarge) (sym e) i.large;
}

get_sessions : (id : String) (db : Db) → (get id db).1.sessions ≡ db.sessions
unfolding get
get_sessions id db = ground arith

get_found :
    (id : String) (db : Db) (s : Session)
    → (get id db).0 ≡ ok s
    → find_where (has_id id) db.sessions ≡ some s
unfolding get
get_found id db s h = ground arith

pub get-Ensures : (id : String) → Ensures IsValid IsLarge (get id)
get-Ensures id = record {
  holds = λ db i.
      Outcome-of IsValid IsLarge (get id db) (same-IsValid db _ (get_sessions id db) i)
        (λ s e. find-All (has_id id) db.sessions i.large (get_found id db s e));
}

pub create-Keeps : (s : Session) → IsLarge s → Keeps IsValid (create s)
unfolding after
create-Keeps s large = Keeps-of (create s) λ db i. record {
  keyed = after-IsKeyed (creates s) db i.keyed;
  large = create-IsLarge s db (create s db).1 large (create_cases s db) i.large;
}

pub update_status-Keeps :
    (id : String) (expected next : Status) → Keeps IsValid (update_status id expected next)
unfolding after
update_status-Keeps id expected next = Keeps-of (update_status id expected next) λ db i. record {
  keyed = after-IsKeyed (updates_status id expected next) db i.keyed;
  large =
      Rewrites-IsLarge (in_status id expected) (with_status next) db
        (update_status id expected next db).1 (λ s h. h)
        (update_status-Rewrites id expected next db) i.large;
}

pub set_result-Keeps : (id : String) (result : List ℕ) → Keeps IsValid (set_result id result)
unfolding after
set_result-Keeps id result = Keeps-of (set_result id result) λ db i. record {
  keyed = after-IsKeyed (sets_result id result) db i.keyed;
  large =
      Rewrites-IsLarge (has_id id) (with_result result) db (set_result id result db).1 (λ s h. h)
        (set_result-Rewrites id result db) i.large;
}

pub fail-Keeps : (id : String) (why : Reason) → Keeps IsValid (fail id why)
unfolding after
fail-Keeps id why = Keeps-of (fail id why) λ db i. record {
  keyed = after-IsKeyed (fails id why) db i.keyed;
  large =
      Rewrites-IsLarge (has_id id) (as_failed why) db (fail id why db).1 (λ s h. h)
        (fail-Rewrites id why db) i.large;
}

pub create_round-Keeps : (r : Round) → Keeps IsValid (create_round r)
create_round-Keeps r =
    Keeps-of (create_round r) λ db i. same-IsValid db _ (unfold create_round in ground arith) i

pub complete_round-Keeps : (id : String) (number : ℕ) → Keeps IsValid (complete_round id number)
complete_round-Keeps id number =
    Keeps-of (complete_round id number)
      λ db i. same-IsValid db _ (unfold complete_round in ground arith) i

pub register_node-Keeps : (n : NodeRecord) → Keeps IsValid (register_node n)
register_node-Keeps n =
    Keeps-of (register_node n) λ db i. same-IsValid db _ (unfold register_node in ground arith) i
