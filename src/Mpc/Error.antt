-- ===== src/Mpc/Error.antt =====
-- The errors that projects/01-mpc-cluster/internal/protocol returns. A constructor stands for each
-- format string; `%w` keeps the wrapped error.
use portfolio_itmo.Common.{ℕ, List}
use portfolio_itmo.Common

pub data Error : Type 0 where
  -- field.go
  parse_element : List ℕ → Error
  inverse_of_zero : Error
  no_inverse : ℕ → Error
  sample_element : Error
  -- sharing.go
  need_parties : ℕ → Error
  share : ℕ → ℕ → Error → Error
  invalid_threshold : ℕ → ℕ → Error
  shamir_split : ℕ → ℕ → Error → Error
  no_parts : Error
  shamir_combine : ℕ → Error → Error
  -- beaver.go
  triple_factor_a triple_factor_b share_a share_b share_c : Error → Error
  -- operations.go
  share_count_mismatch : ℕ → ℕ → Error
  broadcast gather : ℕ → Error → Error
  decode_share : ℕ → Error → Error
  bit_length : ℕ → Error
  payload_too_short : ℕ → Error
  truncated_payload : ℕ → ℕ → Error
  truncated_second : Error
  -- an error of a library or of a `PeerNetwork`, which is passed on
  external : ℕ → Error

abbrev pub Result : Type 0 → Type 0
Result = Common.Result Error

-- `fmt.Errorf("…: %w", err)`
abbrev pub wrap : {A : Type 0} → (Error → Error) → Result A → Result A
wrap w (Common.ok a) = Common.ok a
wrap w (Common.err e) = Common.err (w e)
