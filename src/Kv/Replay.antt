-- ===== src/Kv/Replay.antt =====
-- A replica that restores a snapshot and applies the rest of the log agrees with one that has applied
-- all of it.
use portfolio_itmo.Common.{
  ℕ, ◌≡◌, refl, sym, ap, ◌∙◌, arith, List, [], ◌∷◌, ◌++◌, Option, none, some, if◌then◌else◌,
}
use portfolio_itmo.Common.Dict.{lookup, lookup-insert, lookup-remove}
use portfolio_itmo.Common.Equality.{same, nat_eq, list_eq}
use portfolio_itmo.Kv.{
  Data, Json, Error, unmarshal_command, KvStore, Log, Command, Op, op_set, op_delete, other_op,
  run_command, get, snapshot, apply, persist, restore, apply_all, new_kv_store,
}

-- Two stores that answer every `Get` alike.
pub record Agree (s t : KvStore) : Type 0 where
  pub answers : (key : List ℕ) → get key s ≡ get key t

run_command-Agree :
    (index : ℕ) (c : Command) (s t : KvStore)
    → Agree s t
    → Agree (run_command index c s).1 (run_command index c t).1
unfolding run_command get
run_command-Agree index c s t h = record { answers = λ key. at key c.op }
  where
    at :
        (key : List ℕ) (op : Op)
        → get key (run_command index (record c { op = op }) s).1
          ≡ get key (run_command index (record c { op = op }) t).1
    at key op_set =
        lookup-insert c.key key c.value s.data_by_key
        ∙ ap (λ rest. if same c.key key then some c.value else rest) (h.answers key)
        ∙ sym (lookup-insert c.key key c.value t.data_by_key)
    at key op_delete =
        lookup-remove c.key key s.data_by_key
        ∙ ap (λ rest. if same c.key key then none else rest) (h.answers key)
        ∙ sym (lookup-remove c.key key t.data_by_key)
    at key (other_op name) = h.answers key

-- The encoding of this map is not empty, and decoded it answers every lookup alike. JSON does so for
-- keys that are valid UTF-8.
pub record Encodes (json : Json) (d : Data) : Type 0 where
  pub first : ℕ
  pub rest : List ℕ
  pub decoded : Data
  pub bytes_written : json.marshal_data d ≡ first ∷ rest
  pub decodes : json.unmarshal_data (first ∷ rest) ≡ some decoded
  pub same_answers : (key : List ℕ) → lookup key decoded ≡ lookup key d

module _ (json : Json) where
  apply-Agree :
      (log : Log) (s t : KvStore) → Agree s t → Agree (apply json log s).1 (apply json log t).1
  unfolding apply
  apply-Agree log s t h = decoded (json.unmarshal log.data_bytes)
    where
      decoded :
          (c : Option Command)
          → Agree
              ((elim c as (λ x. Option Error × KvStore) [
                | none ↦ (some unmarshal_command, s)
                | some c ↦ run_command log.index c s
              ]).1)
              ((elim c as (λ x. Option Error × KvStore) [
                | none ↦ (some unmarshal_command, t)
                | some c ↦ run_command log.index c t
              ]).1)
      decoded none = h
      decoded (some c) = run_command-Agree log.index c s t h

  pub apply_all-Agree :
      (logs : List Log) (s t : KvStore)
      → Agree s t
      → Agree (apply_all json logs s) (apply_all json logs t)
  unfolding apply_all
  apply_all-Agree [] s t h = h
  apply_all-Agree (log ∷ logs) s t h =
      apply_all-Agree logs (apply json log s).1 (apply json log t).1 (apply-Agree log s t h)

  apply_all-append :
      (early late : List Log) (s : KvStore)
      → apply_all json (early ++ late) s ≡ apply_all json late (apply_all json early s)
  unfolding apply_all
  apply_all-append [] late s = refl
  apply_all-append (log ∷ early) late s = apply_all-append early late (apply json log s).1

  restore-snapshot :
      (s t : KvStore)
      → (e : Encodes json s.data_by_key)
      → restore json (some (persist json (snapshot s))) t
        ≡ (none, record { data_by_key = e.decoded })
  unfolding restore persist snapshot
  restore-snapshot s t e = ground (arith, e.bytes_written, e.decodes)

  -- A replica that restores the snapshot of a store after a log, whatever it held before, does so
  -- without an error, and after further entries it answers every `Get` as a store that has applied
  -- the whole log, when the encoding of the snapshot is faithful.
  pub apply_all-restore :
      (early late : List Log) (replica : KvStore)
      → Encodes json (apply_all json early new_kv_store).data_by_key
      → let restored =
          restore json
            (some (persist json (snapshot (apply_all json early new_kv_store))))
            replica in
        (restored.0 ≡ none)
        × Agree (apply_all json late restored.1) (apply_all json (early ++ late) new_kv_store)
  apply_all-restore early late replica e =
      let s = apply_all json early new_kv_store in
      let done = restore-snapshot s replica e in
      (
        ap (λ r. r.0) done,
        rw (done, apply_all-append early late new_kv_store)
            (apply_all-Agree late (record { data_by_key = e.decoded }) s
              (record { answers = unfold get in e.same_answers })),
      )
