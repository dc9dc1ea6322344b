-- ===== src/Common/Wire.antt =====
-- google.golang.org/protobuf/encoding/protowire as its callers meet it, which the programs of
-- projects/01-mpc-cluster, projects/02-wallet-scoring and projects/10-distributed-kv use, and Go's
-- conversions between integers of a fixed width.
pub mod Append
pub mod Loop
pub mod Plain
pub mod Written
use portfolio_itmo.Common.Tests.{ltb, if◌then◌else◌}
use portfolio_itmo.Common.Lists.{length}
use portfolio_itmo.Common.Int.{ℤ, pos, negsuc}
use portfolio_itmo.Common.Results.{Result}
use portfolio_itmo.Common.Results
use Prim.Native.Nat.{ℕ, suc, ◌+◌, ◌-◌, ◌*◌, ◌%◌, ◌^◌, ◌≤◌, ◌<◌}
use mathlib.Core.Path.{◌≡◌, refl}
use mathlib.Core.Logic.{◌≢◌}
use mathlib.Core.Bool.{Bool, true, false}
use mathlib.Core.List.{List, [], ◌∷◌, ◌++◌}
use native.Mathlib.Omega.{arith}

-- `parse n` is `protowire.ParseError(n)` of the code -n. `stuck` is no value of Go: a loop ran out
-- of fuel.
pub data WireError : Type 0 where
  parse : ℕ → WireError
  unexpected_type : ℕ → WireError
  stuck : WireError

-- `protowire.VarintType` and its like
abbrev pub varint_type : ℕ
varint_type = 0

abbrev pub fixed64_type : ℕ
fixed64_type = 1

abbrev pub bytes_type : ℕ
bytes_type = 2

abbrev pub fixed32_type : ℕ
fixed32_type = 5

-- A value with the number of bytes that it was read from, or a code below 0 without its sign.
abbrev pub Consumed : Type 0 → Type 0
Consumed A = Result ℕ (A × ℕ)

-- `if n < 0 { return protowire.ParseError(n) }`
abbrev pub checked : {A : Type 0} → Result ℕ A → Result WireError A
checked (Results.ok a) = Results.ok a
checked (Results.err code) = Results.err (parse code)

pub checked-ok : {A : Type 0} (r : Result ℕ A) {a : A} → checked r ≡ Results.ok a → r ≡ Results.ok a
checked-ok (Results.ok b) h = cc
checked-ok (Results.err code) h = absurd cc

pub checked-ne-stuck : {A : Type 0} (r : Result ℕ A) → checked r ≢ Results.err stuck
checked-ne-stuck (Results.ok a) = λ h. cc
checked-ne-stuck (Results.err code) = λ h. cc

pub record Protowire : Type 0 where
  pub append_tag : List ℕ → ℕ → ℕ → List ℕ
  pub append_varint : List ℕ → ℕ → List ℕ
  pub append_bytes : List ℕ → List ℕ → List ℕ
  pub append_fixed32 : List ℕ → ℕ → List ℕ
  pub append_fixed64 : List ℕ → ℕ → List ℕ
  pub consume_tag : List ℕ → Consumed (ℕ × ℕ)
  pub consume_varint : List ℕ → Consumed ℕ
  pub consume_bytes : List ℕ → Consumed (List ℕ)
  pub consume_fixed32 : List ℕ → Consumed ℕ
  pub consume_fixed64 : List ℕ → Consumed ℕ
  pub consume_field_value : ℕ → ℕ → List ℕ → Result ℕ ℕ

-- Its documentation: what is appended comes after what is there, and is consumed as it was.
pub record IsWire (w : Protowire) : Type 0 where
  pub tag_appended :
      (b : List ℕ) (num typ : ℕ) → w.append_tag b num typ ≡ b ++ w.append_tag [] num typ
  pub varint_appended : (b : List ℕ) (v : ℕ) → w.append_varint b v ≡ b ++ w.append_varint [] v
  pub bytes_appended : (b v : List ℕ) → w.append_bytes b v ≡ b ++ w.append_bytes [] v
  pub fixed32_appended : (b : List ℕ) (v : ℕ) → w.append_fixed32 b v ≡ b ++ w.append_fixed32 [] v
  pub fixed64_appended : (b : List ℕ) (v : ℕ) → w.append_fixed64 b v ≡ b ++ w.append_fixed64 [] v
  pub tag_consumed :
      (num typ : ℕ) (rest : List ℕ)
      → 0 < num
      → num < 2 ^ 29
      → typ < 6
      → w.consume_tag (w.append_tag [] num typ ++ rest)
        ≡ Results.ok ((num, typ), length (w.append_tag [] num typ))
  pub varint_consumed :
      (v : ℕ) (rest : List ℕ)
      → v < 2 ^ 64
      → w.consume_varint (w.append_varint [] v ++ rest)
        ≡ Results.ok (v, length (w.append_varint [] v))
  pub bytes_consumed :
      (v rest : List ℕ)
      → w.consume_bytes (w.append_bytes [] v ++ rest) ≡ Results.ok (v, length (w.append_bytes [] v))
  pub fixed32_consumed :
      (v : ℕ) (rest : List ℕ)
      → v < 2 ^ 32
      → w.consume_fixed32 (w.append_fixed32 [] v ++ rest)
        ≡ Results.ok (v, length (w.append_fixed32 [] v))
  pub fixed64_consumed :
      (v : ℕ) (rest : List ℕ)
      → v < 2 ^ 64
      → w.consume_fixed64 (w.append_fixed64 [] v ++ rest)
        ≡ Results.ok (v, length (w.append_fixed64 [] v))
  -- A number, as a tag, has a byte at least.
  pub varint_has_bytes : (b : List ℕ) {v n : ℕ} → w.consume_varint b ≡ Results.ok (v, n) → 0 < n
  pub tag_has_bytes :
      (b : List ℕ) {num typ n : ℕ} → w.consume_tag b ≡ Results.ok ((num, typ), n) → 0 < n

-- `int32(v)` of a `uint64`
unfoldable pub int32 : ℕ → ℤ
int32 v = let u = v % 2 ^ 32 in if ltb u (2 ^ 31) then pos u else negsuc (2 ^ 32 - 1 - u)

-- `uint64(uint32(z))`
unfoldable pub uint32 : ℤ → ℕ
uint32 (pos n) = n % 2 ^ 32
uint32 (negsuc n) = 2 ^ 32 - 1 - n % 2 ^ 32

-- `int64(v)` of a `uint64`, and back
unfoldable pub int64 : ℕ → ℤ
int64 v = let u = v % 2 ^ 64 in if ltb u (2 ^ 63) then pos u else negsuc (2 ^ 64 - 1 - u)

unfoldable pub uint64 : ℤ → ℕ
uint64 (pos n) = n % 2 ^ 64
uint64 (negsuc n) = 2 ^ 64 - 1 - n % 2 ^ 64

abbrev pub IsInt32 : ℤ → Type 0
IsInt32 (pos n) = n < 2 ^ 31
IsInt32 (negsuc n) = n < 2 ^ 31

abbrev pub IsInt64 : ℤ → Type 0
IsInt64 (pos n) = n < 2 ^ 63
IsInt64 (negsuc n) = n < 2 ^ 63

pub int32-uint32 : (z : ℤ) → IsInt32 z → int32 (uint32 z) ≡ z
unfolding int32 uint32
int32-uint32 (pos n) h = ground arith
int32-uint32 (negsuc n) h = ground arith

pub int64-uint64 : (z : ℤ) → IsInt64 z → int64 (uint64 z) ≡ z
unfolding int64 uint64
int64-uint64 (pos n) h = ground arith
int64-uint64 (negsuc n) h = ground arith

pub uint32_bounds : (z : ℤ) → uint32 z < 2 ^ 64
unfolding uint32
uint32_bounds (pos n) = omega arith
uint32_bounds (negsuc n) = omega arith

pub uint64_bounds : (z : ℤ) → uint64 z < 2 ^ 64
unfolding uint64
uint64_bounds (pos n) = omega arith
uint64_bounds (negsuc n) = omega arith
