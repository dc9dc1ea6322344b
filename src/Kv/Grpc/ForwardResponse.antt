-- ===== src/Kv/Grpc/ForwardResponse.antt =====
-- `ForwardResponse` of projects/10-distributed-kv/internal/grpc/proto.go.
use portfolio_itmo.Common.{ℕ, List, Result, refl, arith, ok, err, ◌≡◌, ◌≢◌, ◌==◌, if◌then◌else◌, []}
use portfolio_itmo.Common.Int.{ℤ, pos}
use portfolio_itmo.Common.Wire.{WireError, stuck, Protowire, IsWire, int32, uint32, IsInt32}
use portfolio_itmo.Common.Wire.Append.{append_bytes, append_varint}
use portfolio_itmo.Common.Wire.Loop.{
  Switch, bytes_into, varint_into, skip_field, unmarshal_fields, unmarshal-ne-stuck, if-ne-stuck,
  bytes_into-ne-stuck, varint_into-ne-stuck, skip_field-ne-stuck,
}
use portfolio_itmo.Common.Wire.Written.{
  nothing-Written, unmarshal-Written, bytes-Written, int32-Written,
}

pub record ForwardResponse : Type 0 where
  pub status_code : ℤ
  pub body : List ℕ

-- `new(ForwardResponse)`
abbrev pub blank : ForwardResponse
blank = record { status_code = pos 0; body = [] }

module _ (w : Protowire) where
  unfoldable pub marshal_msg : ForwardResponse → List ℕ
  marshal_msg m = let b = append_varint w [] 1 (uint32 m.status_code) in append_bytes w b 2 m.body

  -- The cases of the `switch`.
  unfoldable pub switch : Switch ForwardResponse
  switch m num typ b =
      if num == 1
      then varint_into w (λ v. record m { status_code = int32 v }) b
      else if num == 2
      then bytes_into w (λ v. record m { body = v }) b
      else skip_field w m num typ b

  unfoldable pub unmarshal_msg : List ℕ → ForwardResponse → Result WireError ForwardResponse
  unmarshal_msg b m = unmarshal_fields w switch m b

  pub unmarshal_msg-ne-stuck :
      IsWire w → (b : List ℕ) (m : ForwardResponse) → unmarshal_msg b m ≢ err stuck
  unfolding unmarshal_msg switch
  unmarshal_msg-ne-stuck wire b m =
      unmarshal-ne-stuck w wire switch
        (λ m num typ b. if-ne-stuck (num == 1) _ _ (varint_into-ne-stuck w _ b) (
          if-ne-stuck (num == 2) _ _ (bytes_into-ne-stuck w _ b)
            (skip_field-ne-stuck w m num typ b)))
        m b

-- The integers are in the range of their type.
abbrev pub IsSendable : ForwardResponse → Type 0
IsSendable m = IsInt32 m.status_code

module _ (w : Protowire) (wire : IsWire w) where
  pub unmarshal_msg-marshal_msg :
      (m : ForwardResponse) → IsSendable m → unmarshal_msg w (marshal_msg w m) blank ≡ ok (m)
  unfolding marshal_msg unmarshal_msg switch
  unmarshal_msg-marshal_msg m h0 =
      let w0 = nothing-Written w wire (switch w) blank in
      let w1 =
        int32-Written w wire (switch w) blank blank 1 _ (λ v. record blank { status_code = v })
          m.status_code h0 (omega arith) (omega arith) (λ c. refl) refl w0 in
      let m0 = record blank { status_code = m.status_code } in
      unmarshal-Written w wire (switch w) blank _ _ (
        bytes-Written w wire (switch w) blank m0 2 _ (λ v. record m0 { body = v }) m.body
          (omega arith) (omega arith) (λ c. refl) refl w1)
