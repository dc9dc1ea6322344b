-- ===== src/Mpc/Session.antt =====
-- projects/01-mpc-cluster/internal/session/model.go: sessions, rounds and node records.
-- The timestamps, which no decision of the code reads, are left out.
mod Errors
pub mod Collector
mod Tests
pub mod Task
pub mod Inputs
pub mod Manager
pub mod Store
pub use Errors.*
use portfolio_itmo.Common.{ℕ, Bool, true, false, List}
use portfolio_itmo.Common.Equality.{Eq}
use Prim.Native.String.{String}

-- `OpType` is a string in the code: `other` is any that no constant names.
pub data OpType : Type 0 where
  sum average max comparison : OpType
  other : String → OpType

unfoldable pub valid : OpType → Bool
valid (other name) = false
valid _ = true

pub data Status : Type 0 where
  created nodes_ready computing completed failed : Status

abbrev pub status_eq : Status → Status → Bool
status_eq created created = true
status_eq nodes_ready nodes_ready = true
status_eq computing computing = true
status_eq completed completed = true
status_eq failed failed = true
status_eq _ _ = false

pub record Session : Type 0 where
  pub id : String
  pub type : OpType
  pub status : Status
  pub party_count : ℕ
  pub threshold : ℕ
  pub result : List ℕ
  pub error_msg : Reason

pub record Round : Type 0 where
  pub session_id : String
  pub number : ℕ
  pub phase : String
  pub status : String
  pub is_completed : Bool

pub record NodeRecord : Type 0 where
  pub session_id : String
  pub node_id : ℕ
  pub addr : String
  pub status : String
