-- ===== src/Wallet/Grpcint/GetWalletStatsRequest.antt =====
-- `GetWalletStatsRequest` of projects/02-wallet-scoring/internal/grpcint/aggregator.pb.go.
use portfolio_itmo.Common.{ℕ, List, Result, refl, arith, ok, err, All, ◌≡◌, ◌≢◌, ◌∷◌, [], ◌∙◌}
use portfolio_itmo.Common.Wire.{WireError, stuck, Protowire, IsWire}
use portfolio_itmo.Common.Wire.Written.{nothing-Written, unmarshal-Written}
use portfolio_itmo.Wallet.ProtoBuilder
use portfolio_itmo.Wallet.ProtoBuilder.Written.{string-Written}
use portfolio_itmo.Wallet.ProtoParser.{Field, bytes_field, cases, unmarshal_with}
use portfolio_itmo.Wallet.ProtoParser.Fields.{
  switch, IsCase, unmarshal_with-switch, unmarshal_with-ne-stuck,
}

pub record GetWalletStatsRequest : Type 0 where
  pub address : List ℕ

-- `new(GetWalletStatsRequest)`
abbrev pub blank : GetWalletStatsRequest
blank = record { address = [] }

module _ (w : Protowire) where
  unfoldable pub marshal_proto : GetWalletStatsRequest → List ℕ
  marshal_proto m = ProtoBuilder.string w [] 1 m.address

  -- The cases of the `switch`.
  unfoldable pub fields : List (Field GetWalletStatsRequest)
  fields = bytes_field 1 (λ m v. record m { address = v }) ∷ []

  unfoldable pub unmarshal_proto :
      List ℕ → GetWalletStatsRequest → Result WireError GetWalletStatsRequest
  unmarshal_proto b m = unmarshal_with w (cases w fields) m b

  pub unmarshal_proto-nil : (m : GetWalletStatsRequest) → unmarshal_proto [] m ≡ ok m
  unfolding unmarshal_proto unmarshal_with
  unmarshal_proto-nil m = refl

module _ (w : Protowire) (wire : IsWire w) where
  fields-IsCase : All (IsCase w) (fields w)
  unfolding fields
  fields-IsCase = (omega arith, tt)

  -- A message whose numbers are in range is decoded from its bytes as it was.
  pub unmarshal_proto-marshal_proto :
      (m : GetWalletStatsRequest) → unmarshal_proto w (marshal_proto w m) blank ≡ ok m
  unfolding marshal_proto unmarshal_proto fields
  unmarshal_proto-marshal_proto m =
      let w0 = nothing-Written w wire (switch w (fields w)) blank in
      unmarshal_with-switch w (fields w) blank (marshal_proto w m) fields-IsCase
      ∙ unmarshal-Written w wire (switch w (fields w)) blank _ _ (
          string-Written w wire (switch w (fields w)) blank 1 (omega arith) (omega arith) blank _
            (λ v. record blank { address = v }) m.address (λ c. refl) refl w0)

  -- Decoding ends on all bytes.
  pub unmarshal_proto-ne-stuck :
      (b : List ℕ) (m : GetWalletStatsRequest) → unmarshal_proto w b m ≢ err stuck
  unfolding unmarshal_proto
  unmarshal_proto-ne-stuck b m = unmarshal_with-ne-stuck w wire (fields w) m b fields-IsCase
