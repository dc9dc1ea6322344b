-- ===== src/Mpc/Session/Store/Laws.antt =====
-- A status changes only from the expected one, ids stay unique, and a refused statement leaves the
-- sessions alone, whatever statements the database fails.
use portfolio_itmo.Common.{
  ℕ, suc, ◌≤◌, ◌<◌, ◌≡◌, refl, ap, Bool, true, ◌&&◌, List, ◌∷◌, Option, some, arith, if◌then◌else◌,
  ok, err, Bool-cases, inl, inr, ◌⊎◌,
}
use portfolio_itmo.Common.Equality.{same, string_eq, eq_of_same}
use portfolio_itmo.Common.Table.{
  update_where, count_where, find_where, find-update, count-update, find_unique, find_sound,
  update-count_zero,
}
use portfolio_itmo.Mpc.Session.{Session, Round, NodeRecord, Status, Reason, Error, status_eq}
use portfolio_itmo.Mpc.Session.Store.{
  Db, has_id, create, update_status, set_result, fail, create_round, complete_round, register_node,
}
use mathlib.Core.Path.{subst}
use Prim.Native.String.{String}

abbrev pub session_at : String → Db → Option Session
session_at id db = find_where (has_id id) db.sessions

-- No two rows of `sessions` have one id.
pub record IsKeyed (db : Db) : Type 0 where
  pub unique : (id : String) → count_where (has_id id) db.sessions ≤ 1

pub status_eq→eq : (a b : Status) → status_eq a b ≡ true → a ≡ b
status_eq→eq a b h = ground arith

abbrev pub in_status : String → Status → Session → Bool
in_status id expected s = has_id id s && status_eq s.status expected

abbrev pub with_status : Status → Session → Session
with_status next s = record s { status = next }

-- What an `update_status` that returns without an error found, and what it wrote.
update_status_effect :
    (id : String) (expected next : Status) (db : Db)
    → (update_status id expected next db).0 ≡ ok tt
    → (0 < count_where (in_status id expected) db.sessions)
      × ((update_status id expected next db).1.sessions
          ≡ update_where (in_status id expected) (with_status next) db.sessions)
unfolding update_status
update_status_effect id expected next db h = ground arith

-- A successful `update_status` on a keyed table: the session was in the expected status, and is in
-- the next one with all else kept.
pub update_status-ok :
    (id : String) (expected next : Status) (db : Db) {s : Session}
    → IsKeyed db
    → session_at id db ≡ some s
    → (update_status id expected next db).0 ≡ ok tt
    → (s.status ≡ expected)
      × (session_at id (update_status id expected next db).1 ≡ some (record s { status = next }))
update_status-ok id expected next db {s} keyed found h =
    let (affected, written) = update_status_effect id expected next db h in
    let hit : status_eq s.status expected ≡ true =
      find_unique (has_id id) (λ r. status_eq r.status expected) db.sessions (keyed.unique id)
        affected found in
    (
      status_eq→eq s.status expected hit,
      rw (
        written,
        find-update (has_id id) (in_status id expected) (with_status next) (λ r. refl) db.sessions,
        found,
        hit,
        find_sound (has_id id) db.sessions found,
      ),
    )

-- A refused `update_status` leaves every session as it was.
pub update_status-err :
    (id : String) (expected next : Status) (db : Db) {e : Error}
    → (update_status id expected next db).0 ≡ err e
    → (update_status id expected next db).1.sessions ≡ db.sessions
unfolding update_status
update_status-err id expected next db {e} h =
    ground (arith, update-count_zero (in_status id expected) (with_status next) db.sessions)

-- The writing statements of the store.
pub data Write : Type 0 where
  creates : Session → Write
  updates_status : String → Status → Status → Write
  sets_result : String → List ℕ → Write
  fails : String → Reason → Write
  creates_round : Round → Write
  completes_round : String → ℕ → Write
  registers_node : NodeRecord → Write

unfoldable pub after : Write → Db → Db
after (creates s) db = (create s db).1
after (updates_status id expected next) db = (update_status id expected next db).1
after (sets_result id result) db = (set_result id result db).1
after (fails id why) db = (fail id why db).1
after (creates_round r) db = (create_round r db).1
after (completes_round id n) db = (complete_round id n db).1
after (registers_node n) db = (register_node n db).1

update-IsKeyed :
    (test : Session → Bool) (change : Session → Session) (db db' : Db)
    → ((s : Session) → (change s).id ≡ s.id)
    → db'.sessions ≡ update_where test change db.sessions
    → IsKeyed db
    → IsKeyed db'
update-IsKeyed test change db db' keeps e keyed = record {
  unique = λ id.
      rw (e, count-update (has_id id) test change (λ s. ap (λ k. same k id) (keeps s)) db.sessions)
        (keyed.unique id);
}

same-IsKeyed : (db db' : Db) → db'.sessions ≡ db.sessions → IsKeyed db → IsKeyed db'
same-IsKeyed db db' e keyed = record { unique = λ id. rw e (keyed.unique id) }

-- A statement that may rewrite rows rewrites them or leaves them alone.
abbrev pub Rewrites : (Session → Bool) → (Session → Session) → Db → Db → Type 0
Rewrites test change db db' =
    (db'.sessions ≡ db.sessions) ⊎ (db'.sessions ≡ update_where test change db.sessions)

Rewrites-IsKeyed :
    (test : Session → Bool) (change : Session → Session) (db db' : Db)
    → ((s : Session) → (change s).id ≡ s.id)
    → Rewrites test change db db'
    → IsKeyed db
    → IsKeyed db'
Rewrites-IsKeyed test change db db' keeps (inl e) keyed = same-IsKeyed db db' e keyed
Rewrites-IsKeyed test change db db' keeps (inr e) keyed =
    update-IsKeyed test change db db' keeps e keyed

pub update_status-Rewrites :
    (id : String) (expected next : Status) (db : Db)
    → Rewrites (in_status id expected) (with_status next) db (update_status id expected next db).1
unfolding update_status
update_status-Rewrites id expected next db = ground arith

abbrev pub with_result : List ℕ → Session → Session
with_result result s = record s { status = Status.completed; result = result }

pub set_result-Rewrites :
    (id : String) (result : List ℕ) (db : Db)
    → Rewrites (has_id id) (with_result result) db (set_result id result db).1
unfolding set_result
set_result-Rewrites id result db = ground arith

abbrev pub as_failed : Reason → Session → Session
as_failed why s = record s { status = Status.failed; error_msg = why }

pub fail-Rewrites :
    (id : String) (why : Reason) (db : Db)
    → Rewrites (has_id id) (as_failed why) db (fail id why db).1
unfolding fail
fail-Rewrites id why db = ground arith

pub create_cases :
    (s : Session) (db : Db)
    → let db' = (create s db).1 in
      (db'.sessions ≡ db.sessions)
      ⊎ ((count_where (has_id s.id) db.sessions ≡ 0) × (db'.sessions ≡ s ∷ db.sessions))
unfolding create
create_cases s db = ground arith

create-IsKeyed :
    (s : Session) (db db' : Db)
    → (db'.sessions ≡ db.sessions)
      ⊎ ((count_where (has_id s.id) db.sessions ≡ 0) × (db'.sessions ≡ s ∷ db.sessions))
    → IsKeyed db
    → IsKeyed db'
create-IsKeyed s db db' (inl e) keyed = same-IsKeyed db db' e keyed
create-IsKeyed s db db' (inr (fresh, e)) keyed = record {
  unique = λ id. rw e (unfold count_where in at_id id);
}
  where
    at_id :
        (id : String)
        → (if same s.id id
            then suc (count_where (has_id id) db.sessions)
            else count_where (has_id id) db.sessions)
          ≤ 1
    at_id id = elim (Bool-cases (same s.id id)) [
      | inl hit ↦
          rw hit
            (subst (λ k. suc (count_where (has_id k) db.sessions) ≤ 1) (eq_of_same hit) fresh_le)
      | inr miss ↦ rw miss (keyed.unique id)
    ]
      where
        fresh_le : suc (count_where (has_id s.id) db.sessions) ≤ 1
        fresh_le = omega (arith, fresh)

-- Every statement that writes keeps the ids of the sessions unique, also where it fails.
pub after-IsKeyed : (w : Write) (db : Db) → IsKeyed db → IsKeyed (after w db)
unfolding after
after-IsKeyed (creates s) db keyed = create-IsKeyed s db _ (create_cases s db) keyed
after-IsKeyed (updates_status id expected next) db keyed =
    Rewrites-IsKeyed (in_status id expected) (with_status next) db _ (λ s. refl)
      (update_status-Rewrites id expected next db) keyed
after-IsKeyed (sets_result id result) db keyed =
    Rewrites-IsKeyed (has_id id) (with_result result) db _ (λ s. refl)
      (set_result-Rewrites id result db) keyed
after-IsKeyed (fails id why) db keyed =
    Rewrites-IsKeyed (has_id id) (as_failed why) db _ (λ s. refl) (fail-Rewrites id why db) keyed
after-IsKeyed (creates_round r) db keyed =
    same-IsKeyed db _ (unfold create_round in ground arith) keyed
after-IsKeyed (completes_round id n) db keyed =
    same-IsKeyed db _ (unfold complete_round in ground arith) keyed
after-IsKeyed (registers_node n) db keyed =
    same-IsKeyed db _ (unfold register_node in ground arith) keyed
