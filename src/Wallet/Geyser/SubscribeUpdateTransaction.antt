-- ===== src/Wallet/Geyser/SubscribeUpdateTransaction.antt =====
-- `SubscribeUpdateTransaction` of projects/02-wallet-scoring/internal/proto/geyser.pb.go.
use portfolio_itmo.Common.{
  ℕ, List, Option, none, some, Result, refl, arith, ok, err, All, ◌≡◌, ◌≢◌, ◌∷◌, [], ◌>>=◌, ◌^◌,
  ◌<◌, ◌∙◌,
}
use portfolio_itmo.Common.Wire.{WireError, stuck, Protowire, IsWire}
use portfolio_itmo.Common.Wire.Written.{nothing-Written, unmarshal-Written}
use portfolio_itmo.Wallet.Geyser.Repeated.{Packing}
use portfolio_itmo.Wallet.ProtoBuilder
use portfolio_itmo.Wallet.ProtoBuilder.Written.{
  optional, varint-Written, optional-Written, Present, present,
}
use portfolio_itmo.Wallet.ProtoParser.{Field, varint_field, message_field, cases, unmarshal_with}
use portfolio_itmo.Wallet.ProtoParser.Fields.{
  switch, IsCase, nested-IsCase, nested-message_into, unmarshal_with-switch,
  unmarshal_with-ne-stuck,
}
use portfolio_itmo.Wallet.Geyser.TransactionInfo.{TransactionInfo}
use portfolio_itmo.Wallet.Geyser.TransactionInfo

pub record SubscribeUpdateTransaction : Type 0 where
  pub transaction : Option TransactionInfo
  pub slot : ℕ

-- `new(SubscribeUpdateTransaction)`
abbrev pub blank : SubscribeUpdateTransaction
blank = record { transaction = none; slot = 0 }

module _ (w : Protowire) where
  -- The fields as a sender writes them; the code only reads them.
  unfoldable pub encode : Packing → SubscribeUpdateTransaction → List ℕ
  encode p m =
      let b = optional w (TransactionInfo.encode w p) [] 1 m.transaction in
      ProtoBuilder.varint w b 2 m.slot

  -- The cases of the `switch`.
  unfoldable pub fields : List (Field SubscribeUpdateTransaction)
  fields =
      message_field 1 (λ v. do
        s ← TransactionInfo.unmarshal_proto w v TransactionInfo.blank
        ok (λ m. record m { transaction = some s }))
      ∷ varint_field 2 (λ m v. record m { slot = v })
      ∷ []

  unfoldable pub unmarshal_proto :
      List ℕ → SubscribeUpdateTransaction → Result WireError SubscribeUpdateTransaction
  unmarshal_proto b m = unmarshal_with w (cases w fields) m b

  pub unmarshal_proto-nil : (m : SubscribeUpdateTransaction) → unmarshal_proto [] m ≡ ok m
  unfolding unmarshal_proto unmarshal_with
  unmarshal_proto-nil m = refl

-- The numbers are in the range of their type.
abbrev pub IsSendable : SubscribeUpdateTransaction → Type 0
IsSendable m = Present TransactionInfo.IsSendable m.transaction × m.slot < 2 ^ 64

module _ (w : Protowire) (wire : IsWire w) where
  fields-IsCase : All (IsCase w) (fields w)
  unfolding fields
  fields-IsCase = (
    nested-IsCase w (λ v. TransactionInfo.unmarshal_proto w v TransactionInfo.blank) 1
        (λ s m. record m { transaction = some s }) TransactionInfo.blank (omega arith)
        (TransactionInfo.unmarshal_proto-nil w TransactionInfo.blank)
        (λ v. TransactionInfo.unmarshal_proto-ne-stuck w wire v TransactionInfo.blank),
    (omega arith, tt),
  )

  -- A message whose numbers are in range is decoded from the fields that a sender writes for it,
  -- however repeated numbers are packed.
  pub unmarshal_proto-encode :
      (p : Packing) (m : SubscribeUpdateTransaction)
      → IsSendable m
      → unmarshal_proto w (encode w p m) blank ≡ ok m
  unfolding encode unmarshal_proto fields
  unmarshal_proto-encode p m (h0, h1) =
      let w0 = nothing-Written w wire (switch w (fields w)) blank in
      let w1 =
        optional-Written w wire (switch w (fields w)) blank 1 (omega arith) (omega arith) blank _
          (λ v. TransactionInfo.unmarshal_proto w v TransactionInfo.blank)
          (TransactionInfo.encode w p) (λ v. record blank { transaction = v }) m.transaction
          (λ c.
            nested-message_into w (λ v. TransactionInfo.unmarshal_proto w v TransactionInfo.blank)
              (λ s m. record m { transaction = some s }) blank c)
          (λ s e.
            TransactionInfo.unmarshal_proto-encode w wire p s
              (present TransactionInfo.IsSendable m.transaction e h0))
          refl w0 in
      let m0 = record blank { transaction = m.transaction } in
      unmarshal_with-switch w (fields w) blank (encode w p m) fields-IsCase
      ∙ unmarshal-Written w wire (switch w (fields w)) blank _ _ (
          varint-Written w wire (switch w (fields w)) blank 2 (omega arith) (omega arith) m0 _
            (λ v. record m0 { slot = v }) m.slot h1 (λ c. refl) w1)

  -- Decoding ends on all bytes.
  pub unmarshal_proto-ne-stuck :
      (b : List ℕ) (m : SubscribeUpdateTransaction) → unmarshal_proto w b m ≢ err stuck
  unfolding unmarshal_proto
  unmarshal_proto-ne-stuck b m = unmarshal_with-ne-stuck w wire (fields w) m b fields-IsCase
