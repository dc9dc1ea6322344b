-- ===== src/Common/Wire/Append.antt =====
-- `appendString`, `appendBytes`, `appendVarint` and `appendBool`, which the messages of
-- projects/01-mpc-cluster/internal/grpc/proto.go and of
-- projects/10-distributed-kv/internal/grpc/proto.go are written with. A text is its bytes.
use portfolio_itmo.Common.Tests.{◌==◌, if◌then◌else◌}
use portfolio_itmo.Common.Wire.{Protowire, varint_type, bytes_type}
use Prim.Native.Nat.{ℕ}
use mathlib.Core.Bool.{Bool, true, false}
use mathlib.Core.List.{List, [], ◌∷◌}

module _ (w : Protowire) where
  unfoldable pub append_bytes : List ℕ → ℕ → List ℕ → List ℕ
  append_bytes b num [] = b
  append_bytes b num (x ∷ v) = w.append_bytes (w.append_tag b num bytes_type) (x ∷ v)

  unfoldable pub append_string : List ℕ → ℕ → List ℕ → List ℕ
  append_string b num [] = b
  append_string b num (x ∷ s) = w.append_bytes (w.append_tag b num bytes_type) (x ∷ s)

  unfoldable pub append_varint : List ℕ → ℕ → ℕ → List ℕ
  append_varint b num v = if v == 0 then b else w.append_varint (w.append_tag b num varint_type) v

  unfoldable pub append_bool : List ℕ → ℕ → Bool → List ℕ
  append_bool b num false = b
  append_bool b num true = w.append_varint (w.append_tag b num varint_type) 1

  -- The loop over a list of messages in `MarshalMPC`. No message of this file returns an error.
  unfoldable pub append_messages : {S : Type 0} → (S → List ℕ) → List ℕ → ℕ → List S → List ℕ
  append_messages marshal b num [] = b
  append_messages marshal b num (s ∷ ss) =
      append_messages marshal (append_bytes b num (marshal s)) num ss
