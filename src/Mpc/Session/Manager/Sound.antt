-- ===== src/Mpc/Session/Manager/Sound.antt =====
-- A sound coordinator: what its database, its collectors and its maps have in common, and the
-- calls inside a handler that keep it.
use portfolio_itmo.Common.{
  ℕ, zero, suc, ◌<◌, ◌≡◌, refl, arith, List, [], ◌∷◌, some, All, All-append, length, length-append,
  Result, ok, err,
}
use portfolio_itmo.Common.Dict.{Dict, lookup, lookup-insert, lookup-remove}
use portfolio_itmo.Common.Effects.{Action}
use portfolio_itmo.Common.Effects.Ensures.{Ensures, Keeps, Outcome, Outcome-of}
use portfolio_itmo.Common.Equality.{nat_eq, string_eq}
use portfolio_itmo.Mpc.Session.{Session, Error}
use portfolio_itmo.Mpc.Session.Collector.{
  Collector, new_collector, IsSettled, new_collector-IsSettled,
}
use portfolio_itmo.Mpc.Session.Task.{Task}
use portfolio_itmo.Mpc.Session.Manager.{Manager, on_db, on_reader, cleanup, publish, update_at}
use portfolio_itmo.Mpc.Session.Store.{Db}
use portfolio_itmo.Mpc.Session.Store.Keeps.{IsValid, IsLarge}
use Prim.Native.String.{String}

-- The database is valid, every collector settled, and every address one of the heap.
pub record IsSound (m : Manager) : Type 0 where
  pub stored : IsValid m.db
  pub settled : All IsSettled m.heap
  pub in_heap :
      (id : String) {address : ℕ} → lookup id m.collectors ≡ some address → address < length m.heap

stored-Outcome :
    {A : Type 0} (Q : A → Type 0) (m : Manager) (out : Result Error A × Db)
    → IsSound m
    → Outcome IsValid Q out
    → Outcome IsSound Q (out.0, record m { db = out.1 })
stored-Outcome Q m (ok a, db) i h =
    (record { stored = h.0; settled = i.settled; in_heap = i.in_heap }, h.1)
stored-Outcome Q m (err e, db) i h = record { stored = h; settled = i.settled; in_heap = i.in_heap }

pub on_db-Ensures :
    {A : Type 0} {Q : A → Type 0} {call : Action Error Db A}
    → Ensures IsValid Q call
    → Ensures IsSound Q (on_db call)
on_db-Ensures {Q} {call} h = record {
  holds = λ m i. stored-Outcome Q m (call m.db) i (h.holds m.db i.stored);
}

pub on_reader-Keeps : {A : Type 0} (call : Action Error (List ℕ) A) → Keeps IsSound (on_reader call)
on_reader-Keeps call = record {
  holds = λ m i.
      Outcome-of IsSound (λ _. Unit {0}) (on_reader call m)
        (record { stored = i.stored; settled = i.settled; in_heap = i.in_heap }) (λ a e. tt);
}

pub cleanup-IsSound : (id : String) (m : Manager) → IsSound m → IsSound (cleanup id m)
unfolding cleanup
cleanup-IsSound id m i = record {
  stored = i.stored;
  settled = i.settled;
  in_heap = λ k {address} e. i.in_heap k (ground (arith, lookup-remove id k m.collectors));
}

pub update_at-IsSettled :
    (address : ℕ) (change : Collector → Collector) (heap : List Collector)
    → ((c : Collector) → IsSettled c → IsSettled (change c))
    → All IsSettled heap
    → All IsSettled (update_at address change heap)
unfolding update_at
update_at-IsSettled address change [] k h = tt
update_at-IsSettled zero change (c ∷ heap) k (s, h) = (k c s, h)
update_at-IsSettled (suc address) change (c ∷ heap) k (s, h) =
    (s, update_at-IsSettled address change heap k h)

pub length-update_at :
    (address : ℕ) (change : Collector → Collector) (heap : List Collector)
    → length (update_at address change heap) ≡ length heap
unfolding update_at
length-update_at address change [] = refl
length-update_at zero change (c ∷ heap) = refl
length-update_at (suc address) change (c ∷ heap) =
    omega (arith, length-update_at address change heap)

-- A new collector is settled, its address is one of the heap, and no address before it moves.
pub publish-Keeps :
    (id : String) (sess : Session) (tasks : Dict ℕ Task)
    → IsLarge sess
    → Keeps IsSound (publish id sess tasks)
unfolding publish
publish-Keeps id sess tasks large = record {
  holds = λ m i. (
    record {
      stored = i.stored;
      settled =
          All-append IsSettled m.heap _ i.settled
            (new_collector-IsSettled sess.party_count (omega arith), tt);
      in_heap = λ k {address} e. ground (
        arith,
        lookup-insert id k (length m.heap) m.collectors,
        i.in_heap k {address = address},
        length-append m.heap (new_collector sess.party_count ∷ []),
      );
    },
    tt,
  );
}
