-- ===== src/Wallet/ProtoBuilder.antt =====
-- `ProtoBuilder` of projects/02-wallet-scoring/internal/common/protowire.go. The state of a builder is
-- its buffer. A float is the number that its bits make, which `math.Float64bits` and
-- `math.Float32bits` give.
pub mod Written
use portfolio_itmo.Common.{ℕ, Bool, List, [], ◌∷◌, if◌then◌else◌, length}
use portfolio_itmo.Common.Wire.{Protowire, varint_type, bytes_type, fixed32_type, fixed64_type}

module _ (w : Protowire) where
  unfoldable pub varint : List ℕ → ℕ → ℕ → List ℕ
  varint buf field v = w.append_varint (w.append_tag buf field varint_type) v

  unfoldable pub bool : List ℕ → ℕ → Bool → List ℕ
  unfolding varint
  bool buf field v = varint buf field (if v then 1 else 0)

  unfoldable pub bytes : List ℕ → ℕ → List ℕ → List ℕ
  bytes buf field v = w.append_bytes (w.append_tag buf field bytes_type) v

  unfoldable pub string : List ℕ → ℕ → List ℕ → List ℕ
  string buf field [] = buf
  string buf field (x ∷ v) = w.append_bytes (w.append_tag buf field bytes_type) (x ∷ v)

  unfoldable pub fixed32 : List ℕ → ℕ → ℕ → List ℕ
  fixed32 buf field v = w.append_fixed32 (w.append_tag buf field fixed32_type) v

  unfoldable pub fixed64 : List ℕ → ℕ → ℕ → List ℕ
  fixed64 buf field v = w.append_fixed64 (w.append_tag buf field fixed64_type) v
