-- ===== src/Wallet/Grpcint/GetTopWalletsRequest.antt =====
-- `GetTopWalletsRequest` of projects/02-wallet-scoring/internal/grpcint/aggregator.pb.go.
use portfolio_itmo.Common.{
  ℕ, List, Result, refl, arith, ok, err, All, ◌≡◌, ◌≢◌, ◌∷◌, [], ◌%◌, ◌^◌, ◌<◌, ◌∙◌,
}
use portfolio_itmo.Common.Wire.{WireError, stuck, Protowire, IsWire}
use portfolio_itmo.Common.Wire.Written.{nothing-Written, unmarshal-Written}
use portfolio_itmo.Wallet.ProtoBuilder
use portfolio_itmo.Wallet.ProtoBuilder.Written.{uint32-Written}
use portfolio_itmo.Wallet.ProtoParser.{Field, varint_field, cases, unmarshal_with}
use portfolio_itmo.Wallet.ProtoParser.Fields.{
  switch, IsCase, unmarshal_with-switch, unmarshal_with-ne-stuck,
}

pub record GetTopWalletsRequest : Type 0 where
  pub limit : ℕ
  pub offset : ℕ

-- `new(GetTopWalletsRequest)`
abbrev pub blank : GetTopWalletsRequest
blank = record { limit = 0; offset = 0 }

module _ (w : Protowire) where
  unfoldable pub marshal_proto : GetTopWalletsRequest → List ℕ
  marshal_proto m = let b = ProtoBuilder.varint w [] 1 m.limit in ProtoBuilder.varint w b 2 m.offset

  -- The cases of the `switch`.
  unfoldable pub fields : List (Field GetTopWalletsRequest)
  fields =
      varint_field 1 (λ m v. record m { limit = v % 2 ^ 32 })
      ∷ varint_field 2 (λ m v. record m { offset = v % 2 ^ 32 })
      ∷ []

  unfoldable pub unmarshal_proto :
      List ℕ → GetTopWalletsRequest → Result WireError GetTopWalletsRequest
  unmarshal_proto b m = unmarshal_with w (cases w fields) m b

  pub unmarshal_proto-nil : (m : GetTopWalletsRequest) → unmarshal_proto [] m ≡ ok m
  unfolding unmarshal_proto unmarshal_with
  unmarshal_proto-nil m = refl

-- The numbers are in the range of their type.
abbrev pub IsSendable : GetTopWalletsRequest → Type 0
IsSendable m = m.limit < 2 ^ 32 × m.offset < 2 ^ 32

module _ (w : Protowire) (wire : IsWire w) where
  fields-IsCase : All (IsCase w) (fields w)
  unfolding fields
  fields-IsCase = (omega arith, (omega arith, tt))

  -- A message whose numbers are in range is decoded from its bytes as it was.
  pub unmarshal_proto-marshal_proto :
      (m : GetTopWalletsRequest) → IsSendable m → unmarshal_proto w (marshal_proto w m) blank ≡ ok m
  unfolding marshal_proto unmarshal_proto fields
  unmarshal_proto-marshal_proto m (h0, h1) =
      let w0 = nothing-Written w wire (switch w (fields w)) blank in
      let w1 =
        uint32-Written w wire (switch w (fields w)) blank 1 (omega arith) (omega arith) blank _
          (λ v. record blank { limit = v }) m.limit h0 (λ c. refl) w0 in
      let m0 = record blank { limit = m.limit } in
      unmarshal_with-switch w (fields w) blank (marshal_proto w m) fields-IsCase
      ∙ unmarshal-Written w wire (switch w (fields w)) blank _ _ (
          uint32-Written w wire (switch w (fields w)) blank 2 (omega arith) (omega arith) m0 _
            (λ v. record m0 { offset = v }) m.offset h1 (λ c. refl) w1)

  -- Decoding ends on all bytes.
  pub unmarshal_proto-ne-stuck :
      (b : List ℕ) (m : GetTopWalletsRequest) → unmarshal_proto w b m ≢ err stuck
  unfolding unmarshal_proto
  unmarshal_proto-ne-stuck b m = unmarshal_with-ne-stuck w wire (fields w) m b fields-IsCase
