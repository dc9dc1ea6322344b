-- ===== src/Wallet/Grpcint/TopWalletsResponse.antt =====
-- `TopWalletsResponse` of projects/02-wallet-scoring/internal/grpcint/aggregator.pb.go.
use portfolio_itmo.Common.{
  ℕ, List, Result, refl, arith, ok, err, All, All-map, ◌≡◌, ◌≢◌, ◌++◌, ◌∷◌, [], ◌>>=◌, ◌∙◌,
}
use portfolio_itmo.Common.Wire.{WireError, stuck, Protowire, IsWire}
use portfolio_itmo.Common.Wire.Written.{nothing-Written, unmarshal-Written}
use portfolio_itmo.Wallet.ProtoBuilder.Written.{messages, messages-Written}
use portfolio_itmo.Wallet.ProtoParser.{Field, message_field, cases, unmarshal_with}
use portfolio_itmo.Wallet.ProtoParser.Fields.{
  switch, IsCase, nested-IsCase, nested-message_into, unmarshal_with-switch,
  unmarshal_with-ne-stuck,
}
use portfolio_itmo.Wallet.Grpcint.WalletStatsResponse.{WalletStatsResponse}
use portfolio_itmo.Wallet.Grpcint.WalletStatsResponse

pub record TopWalletsResponse : Type 0 where
  pub items : List WalletStatsResponse

-- `new(TopWalletsResponse)`
abbrev pub blank : TopWalletsResponse
blank = record { items = [] }

module _ (w : Protowire) where
  unfoldable pub marshal_proto : TopWalletsResponse → List ℕ
  marshal_proto m = messages w (WalletStatsResponse.marshal_proto w) [] 1 m.items

  -- The cases of the `switch`.
  unfoldable pub fields : List (Field TopWalletsResponse)
  fields =
      message_field 1 (λ v. do
        s ← WalletStatsResponse.unmarshal_proto w v WalletStatsResponse.blank
        ok (λ m. record m { items = m.items ++ (s ∷ []) }))
      ∷ []

  unfoldable pub unmarshal_proto : List ℕ → TopWalletsResponse → Result WireError TopWalletsResponse
  unmarshal_proto b m = unmarshal_with w (cases w fields) m b

  pub unmarshal_proto-nil : (m : TopWalletsResponse) → unmarshal_proto [] m ≡ ok m
  unfolding unmarshal_proto unmarshal_with
  unmarshal_proto-nil m = refl

-- The numbers are in the range of their type.
abbrev pub IsSendable : TopWalletsResponse → Type 0
IsSendable m = All WalletStatsResponse.IsSendable m.items

module _ (w : Protowire) (wire : IsWire w) where
  fields-IsCase : All (IsCase w) (fields w)
  unfolding fields
  fields-IsCase = (
    nested-IsCase w (λ v. WalletStatsResponse.unmarshal_proto w v WalletStatsResponse.blank) 1
        (λ s m. record m { items = m.items ++ (s ∷ []) }) WalletStatsResponse.blank (omega arith)
        (WalletStatsResponse.unmarshal_proto-nil w WalletStatsResponse.blank)
        (λ v. WalletStatsResponse.unmarshal_proto-ne-stuck w wire v WalletStatsResponse.blank),
    tt,
  )

  -- A message whose numbers are in range is decoded from its bytes as it was.
  pub unmarshal_proto-marshal_proto :
      (m : TopWalletsResponse) → IsSendable m → unmarshal_proto w (marshal_proto w m) blank ≡ ok m
  unfolding marshal_proto unmarshal_proto fields
  unmarshal_proto-marshal_proto m h0 =
      let w0 = nothing-Written w wire (switch w (fields w)) blank in
      unmarshal_with-switch w (fields w) blank (marshal_proto w m) fields-IsCase
      ∙ unmarshal-Written w wire (switch w (fields w)) blank _ _ (
          messages-Written w wire (switch w (fields w)) blank 1 (omega arith) (omega arith)
            (λ v. WalletStatsResponse.unmarshal_proto w v WalletStatsResponse.blank)
            (WalletStatsResponse.marshal_proto w) (λ v. record blank { items = v }) [] m.items _
            (λ held c.
              nested-message_into w
                (λ v. WalletStatsResponse.unmarshal_proto w v WalletStatsResponse.blank)
                (λ s m. record m { items = m.items ++ (s ∷ []) }) (record blank { items = held }) c)
            (All-map (λ s h. WalletStatsResponse.unmarshal_proto-marshal_proto w wire s h) m.items
              h0)
            w0)

  -- Decoding ends on all bytes.
  pub unmarshal_proto-ne-stuck :
      (b : List ℕ) (m : TopWalletsResponse) → unmarshal_proto w b m ≢ err stuck
  unfolding unmarshal_proto
  unmarshal_proto-ne-stuck b m = unmarshal_with-ne-stuck w wire (fields w) m b fields-IsCase
