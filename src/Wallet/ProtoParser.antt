-- ===== src/Wallet/ProtoParser.antt =====
-- `ProtoParser` of projects/02-wallet-scoring/internal/common/protowire.go, which keeps its first
-- error and reads zeros after it.
pub mod Follows
pub mod Fields
use portfolio_itmo.Common.{
  ℕ, zero, suc, Bool, List, [], ◌∷◌, ◌++◌, Option, none, some, Result, ok, err, drop, length, ◌==◌,
  if◌then◌else◌, ◌>>=◌,
}
use portfolio_itmo.Common
use portfolio_itmo.Common.Wire.{
  WireError, parse, unexpected_type, stuck, Protowire, Consumed, varint_type, bytes_type,
}

pub record ProtoParser : Type 0 where
  pub bytes_left : List ℕ
  pub error : Option WireError

abbrev pub new_proto_parser : List ℕ → ProtoParser
new_proto_parser b = record { bytes_left = b; error = none }

abbrev pub advance : {A : Type 0} → A → List ℕ → Consumed A → A × ProtoParser
advance nil b (Common.ok (v, n)) = (v, record { bytes_left = drop n b; error = none })
advance nil b (Common.err code) = (nil, record { bytes_left = b; error = some (parse code) })

-- What `Tag`, `Varint`, `Bytes`, `Fixed32` and `Fixed64` do: the zero of the type after an error,
-- and the value that is consumed otherwise.
abbrev pub read : {A : Type 0} → A → (List ℕ → Consumed A) → ProtoParser → A × ProtoParser
read nil consume p = elim p.error [
  | some e ↦ (nil, p)
  | none ↦ advance nil p.bytes_left (consume p.bytes_left)
]

-- The `switch` over the number of a field: the message, or the error that a nested one returns.
abbrev pub Cases : Type 0 → Type 0
Cases M = M → ℕ → ℕ → ProtoParser → Result WireError M × ProtoParser

-- A case of such a `switch`, with what the value changes in the message. The value of a nested message
-- is decoded, and its error returned.
module _ (M : Type 0) where
  pub data Field : Type 0 where
    varint_field fixed32_field fixed64_field : ℕ → (M → ℕ → M) → Field
    bytes_field : ℕ → (M → List ℕ → M) → Field
    packed_field : ℕ → (M → List ℕ) → (M → List ℕ → M) → Field
    message_field : ℕ → (List ℕ → Result WireError (M → M)) → Field

abbrev pub number : {M : Type 0} → Field M → ℕ
number (varint_field n f) = n
number (fixed32_field n f) = n
number (fixed64_field n f) = n
number (bytes_field n f) = n
number (packed_field n held f) = n
number (message_field n f) = n

module _ (w : Protowire) where
  abbrev pub tag : ProtoParser → (ℕ × ℕ) × ProtoParser
  tag = read (0, 0) w.consume_tag

  abbrev pub varint : ProtoParser → ℕ × ProtoParser
  varint = read 0 w.consume_varint

  abbrev pub bytes : ProtoParser → List ℕ × ProtoParser
  bytes = read [] w.consume_bytes

  abbrev pub fixed32 : ProtoParser → ℕ × ProtoParser
  fixed32 = read 0 w.consume_fixed32

  abbrev pub fixed64 : ProtoParser → ℕ × ProtoParser
  fixed64 = read 0 w.consume_fixed64

  abbrev pub skip_value : List ℕ → Result ℕ ℕ → ProtoParser
  skip_value b (Common.ok n) = record { bytes_left = drop n b; error = none }
  skip_value b (Common.err code) = record { bytes_left = b; error = some (parse code) }

  abbrev pub skip : ℕ → ℕ → ProtoParser → ProtoParser
  skip num typ p = elim p.error [
    | some e ↦ p
    | none ↦ skip_value p.bytes_left (w.consume_field_value num typ p.bytes_left)
  ]

  -- The loop over the chunk in `PackedVarints`, with its error; each number takes a byte at least.
  unfoldable pub unpack : ℕ → List ℕ → List ℕ → List ℕ × Option WireError
  unpack fuel dst [] = (dst, none)
  unpack zero dst (x ∷ chunk) = (dst, some stuck)
  unpack (suc fuel) dst (x ∷ chunk) = elim (w.consume_varint (x ∷ chunk)) [
    | Common.ok (v, n) ↦ unpack fuel (dst ++ (v ∷ [])) (drop n (x ∷ chunk))
    | Common.err code ↦ (dst, some (parse code))
  ]

  -- The chunk is read from a parser that has no error.
  abbrev pub unpack_chunk : List ℕ → List ℕ × ProtoParser → List ℕ × ProtoParser
  unpack_chunk dst (chunk, p) = elim p.error [
    | some e ↦ (dst, p)
    | none ↦ let (dst, error) = unpack (length chunk) dst chunk in (dst, record p { error = error })
  ]

  unfoldable pub packed_varints : List ℕ → ℕ → ProtoParser → List ℕ × ProtoParser
  packed_varints dst typ p = elim p.error [
    | some e ↦ (dst, p)
    | none ↦
        if typ == varint_type
        then (let (v, p) = varint p in (dst ++ (v ∷ []), p))
        else if typ == bytes_type
        then unpack_chunk dst (bytes p)
        else (dst, record p { error = some (unexpected_type typ) })
  ]

  -- `for p.More() { num, typ := p.Tag(); switch num { … } } return p.Err`, on the parts of a parser.
  unfoldable pub parse_fields :
      {M : Type 0} → Cases M → ℕ → M → List ℕ → Option WireError → Result WireError M
  parse_fields cases fuel m b (some e) = err e
  parse_fields cases fuel m [] none = ok m
  parse_fields cases zero m (x ∷ b) none = err stuck
  parse_fields cases (suc fuel) m (x ∷ b) none =
      let ((num, typ), p) = tag (new_proto_parser (x ∷ b)) in
      let (r, p) = cases m num typ p in r >>= λ m. parse_fields cases fuel m p.bytes_left p.error

  unfoldable pub unmarshal_with : {M : Type 0} → Cases M → M → List ℕ → Result WireError M
  unfolding parse_fields
  unmarshal_with cases m b = parse_fields cases (length b) m b none

  abbrev pub read_field :
      {M : Type 0} → Field M → M → ℕ → ProtoParser → Result WireError M × ProtoParser
  read_field (varint_field n f) m typ p = let (v, p) = varint p in (ok (f m v), p)
  read_field (fixed32_field n f) m typ p = let (v, p) = fixed32 p in (ok (f m v), p)
  read_field (fixed64_field n f) m typ p = let (v, p) = fixed64 p in (ok (f m v), p)
  read_field (bytes_field n f) m typ p = let (v, p) = bytes p in (ok (f m v), p)
  read_field (packed_field n held f) m typ p =
      let (v, p) = packed_varints (held m) typ p in (ok (f m v), p)
  read_field (message_field n f) m typ p =
      let (v, p) = bytes p in (do change ← f v; ok (change m), p)

  -- Any other field is skipped.
  abbrev pub cases : {M : Type 0} → List (Field M) → Cases M
  cases [] m num typ p = (ok m, skip num typ p)
  cases (f ∷ fs) m num typ p =
      let rest = cases fs m num typ p in if num == number f then read_field f m typ p else rest
