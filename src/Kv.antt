-- ===== src/Kv.antt =====
-- projects/10-distributed-kv/internal/store: the state machine that the raft log drives, and its
-- snapshots. Keys and values are lists of bytes. The encoding of JSON is a parameter: the code uses
-- it for commands and for the map.
pub mod Grpc
pub mod Replay
mod Tests
use portfolio_itmo.Common.{
  ℕ, Bool, true, false, ◌&&◌, ◌||◌, List, [], ◌∷◌, map, Option, none, some, ◌==◌, if◌then◌else◌,
  length, ok, err, Result,
}
use portfolio_itmo.Common.Dict.{Dict, lookup, insert, remove}
use portfolio_itmo.Common.Equality.{nat_eq, list_eq}

pub data Op : Type 0 where
  op_set op_delete : Op
  other_op : List ℕ → Op

pub record Command : Type 0 where
  pub op : Op
  pub key : List ℕ
  pub value : List ℕ

pub data Error : Type 0 where
  unmarshal_command : Error
  unknown_operation : Op → ℕ → Error
  read_snapshot decode_snapshot : Error

abbrev pub Data : Type 0
Data = Dict (List ℕ) (List ℕ)

-- `encoding/json` on commands and on maps of keys to values.
pub record Json : Type 0 where
  pub marshal : Command → List ℕ
  pub unmarshal : List ℕ → Option Command
  pub marshal_data : Data → List ℕ
  pub unmarshal_data : List ℕ → Option Data

pub record KvStore : Type 0 where
  pub data_by_key : Data

abbrev pub new_kv_store : KvStore
new_kv_store = record { data_by_key = [] }

-- A committed entry of the raft log.
pub record Log : Type 0 where
  pub index : ℕ
  pub data_bytes : List ℕ

-- The change of a command that was decoded, with the error that `Apply` returns.
unfoldable pub run_command : ℕ → Command → KvStore → Option Error × KvStore
run_command index c s = elim c.op [
  | op_set ↦ (none, record { data_by_key = insert c.key c.value s.data_by_key })
  | op_delete ↦ (none, record { data_by_key = remove c.key s.data_by_key })
  | other_op name ↦ (some (unknown_operation (other_op name) index), s)
]

unfoldable pub get : List ℕ → KvStore → Option (List ℕ)
get key s = lookup key s.data_by_key

unfoldable pub has_prefix : List ℕ → List ℕ → Bool
has_prefix key [] = true
has_prefix [] (p ∷ prefix) = false
has_prefix (k ∷ key) (p ∷ prefix) = k == p && has_prefix key prefix

-- `Keys`, in the order of insertion; an empty prefix is one of every key.
unfoldable pub keys_of : List ℕ → Data → List (List ℕ)
keys_of prefix [] = []
keys_of prefix ((k, v) ∷ rest) =
    let later = keys_of prefix rest in if has_prefix k prefix then k ∷ later else later

unfoldable pub count : KvStore → ℕ
count s = length s.data_by_key

-- A copy of the map.
pub record KvSnapshot : Type 0 where
  pub data_by_key : Data

unfoldable pub snapshot : KvStore → KvSnapshot
snapshot s = record { data_by_key = s.data_by_key }

module _ (json : Json) where
  unfoldable pub apply : Log → KvStore → Option Error × KvStore
  apply log s = elim (json.unmarshal log.data_bytes) [
    | none ↦ (some unmarshal_command, s)
    | some c ↦ run_command log.index c s
  ]

  -- `Persist`, into a sink that takes everything
  unfoldable pub persist : KvSnapshot → List ℕ
  persist snap = json.marshal_data snap.data_by_key

  -- `Restore`, with what the reader yields, or none where it fails
  unfoldable pub restore : Option (List ℕ) → KvStore → Option Error × KvStore
  restore none s = (some read_snapshot, s)
  restore (some []) s = (none, new_kv_store)
  restore (some (b ∷ raw)) s = elim (json.unmarshal_data (b ∷ raw)) [
    | none ↦ (some decode_snapshot, s)
    | some restored ↦ (none, record { data_by_key = restored })
  ]

  -- The state after a log.
  unfoldable pub apply_all : List Log → KvStore → KvStore
  apply_all [] s = s
  apply_all (log ∷ logs) s = apply_all logs (apply log s).1
