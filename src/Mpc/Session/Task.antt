-- ===== src/Mpc/Session/Task.antt =====
-- The messages of projects/01-mpc-cluster/internal/grpc/proto.go that carry a node's work. `int32`
-- fields hold party counts and node ids, which are kept as numbers.
use portfolio_itmo.Common.{ℕ, Bool, List}
use portfolio_itmo.Mpc.Session.{OpType}
use Prim.Native.String.{String}

pub record PeerEntry : Type 0 where
  pub node_id : ℕ
  pub addr : String

pub record ShareData : Type 0 where
  pub slot : ℕ
  pub value : List ℕ

pub record TripleData : Type 0 where
  pub a : List ℕ
  pub b : List ℕ
  pub c : List ℕ

pub record Task : Type 0 where
  pub session_id : String
  pub node_id : ℕ
  pub op : OpType
  pub party_count : ℕ
  pub bit_len : ℕ
  pub is_ready : Bool
  pub peers : List PeerEntry
  pub shares : List ShareData
  pub triples : List TripleData
