-- ===== src/Mpc/Session/Errors.antt =====
-- The errors of projects/01-mpc-cluster/internal/session, a constructor for each format string, and
-- the reasons that a failed session is stored with.
use portfolio_itmo.Common.{ℕ}
use portfolio_itmo.Mpc.Error.{Error as ProtocolError}
use Prim.Native.String.{String}

pub data Error : Type 0 where
  -- store.go; `sql` is a failed statement or a violated constraint
  not_found : Error
  status_conflict : String → Error
  sql : String → Error
  -- manager.go
  unsupported_operation : Error
  too_few_parties : ℕ → Error
  comparison_parties : Error
  generate_id : Error
  spawn_node : ℕ → Error
  unexpected_status : String → Error
  comparison_inputs : ℕ → Error
  no_inputs : Error
  missing_input : ℕ → Error
  bad_slot share_slot build_triple share_of_triple : ℕ → ProtocolError → Error
  timed_out : String → Error
  node_failure : String → Error
  too_few_shares : ℕ → ℕ → Error
  missing_share : ℕ → Error
  no_computation : String → Error

pub data Reason : Type 0 where
  no_reason timed_out_waiting cancelled : Reason
  spawn : ℕ → Reason
  reported : String → Reason
  cause : Error → Reason
