-- ===== src/Wallet/Geyser/TransactionInfo.antt =====
-- `TransactionInfo` of projects/02-wallet-scoring/internal/proto/geyser.pb.go.
use portfolio_itmo.Common.{
  ℕ, Bool, false, not, List, Option, none, some, Result, refl, arith, ok, err, All, ◌≡◌, ◌≢◌, ◌∷◌,
  ◌==◌, [], ◌>>=◌, ◌^◌, ◌<◌, ◌∙◌,
}
use portfolio_itmo.Common.Wire.{WireError, stuck, Protowire, IsWire}
use portfolio_itmo.Common.Wire.Written.{nothing-Written, unmarshal-Written}
use portfolio_itmo.Wallet.Geyser.Repeated.{Packing}
use portfolio_itmo.Wallet.ProtoBuilder
use portfolio_itmo.Wallet.ProtoBuilder.Written.{
  optional, varint-Written, bool-Written, bytes-Written, optional-Written, Present, present,
}
use portfolio_itmo.Wallet.ProtoParser.{
  Field, varint_field, bytes_field, message_field, cases, unmarshal_with,
}
use portfolio_itmo.Wallet.ProtoParser.Fields.{
  switch, IsCase, nested-IsCase, nested-message_into, unmarshal_with-switch,
  unmarshal_with-ne-stuck,
}
use portfolio_itmo.Wallet.Geyser.Transaction.{Transaction}
use portfolio_itmo.Wallet.Geyser.Transaction
use portfolio_itmo.Wallet.Geyser.TransactionStatusMeta.{TransactionStatusMeta}
use portfolio_itmo.Wallet.Geyser.TransactionStatusMeta

pub record TransactionInfo : Type 0 where
  pub signature : List ℕ
  pub is_vote : Bool
  pub transaction : Option Transaction
  pub meta : Option TransactionStatusMeta
  pub index : ℕ

-- `new(TransactionInfo)`
abbrev pub blank : TransactionInfo
blank = record { signature = []; is_vote = false; transaction = none; meta = none; index = 0 }

module _ (w : Protowire) where
  -- The fields as a sender writes them; the code only reads them.
  unfoldable pub encode : Packing → TransactionInfo → List ℕ
  encode p m =
      let b = ProtoBuilder.bytes w [] 1 m.signature in
      let b = ProtoBuilder.bool w b 2 m.is_vote in
      let b = optional w (Transaction.encode w) b 3 m.transaction in
      let b = optional w (TransactionStatusMeta.encode w p) b 4 m.meta in
      ProtoBuilder.varint w b 5 m.index

  -- The cases of the `switch`.
  unfoldable pub fields : List (Field TransactionInfo)
  fields =
      bytes_field 1 (λ m v. record m { signature = v })
      ∷ varint_field 2 (λ m v. record m { is_vote = not (v == 0) })
      ∷ message_field 3 (λ v. do
        s ← Transaction.unmarshal_proto w v Transaction.blank
        ok (λ m. record m { transaction = some s }))
      ∷ message_field 4 (λ v. do
        s ← TransactionStatusMeta.unmarshal_proto w v TransactionStatusMeta.blank
        ok (λ m. record m { meta = some s }))
      ∷ varint_field 5 (λ m v. record m { index = v })
      ∷ []

  unfoldable pub unmarshal_proto : List ℕ → TransactionInfo → Result WireError TransactionInfo
  unmarshal_proto b m = unmarshal_with w (cases w fields) m b

  pub unmarshal_proto-nil : (m : TransactionInfo) → unmarshal_proto [] m ≡ ok m
  unfolding unmarshal_proto unmarshal_with
  unmarshal_proto-nil m = refl

-- The numbers are in the range of their type.
abbrev pub IsSendable : TransactionInfo → Type 0
IsSendable m =
    Present Transaction.IsSendable m.transaction
    × Present TransactionStatusMeta.IsSendable m.meta
    × m.index < 2 ^ 64

module _ (w : Protowire) (wire : IsWire w) where
  fields-IsCase : All (IsCase w) (fields w)
  unfolding fields
  fields-IsCase = (
    omega arith,
    (
      omega arith,
      (
        nested-IsCase w (λ v. Transaction.unmarshal_proto w v Transaction.blank) 3
            (λ s m. record m { transaction = some s }) Transaction.blank (omega arith)
            (Transaction.unmarshal_proto-nil w Transaction.blank)
            (λ v. Transaction.unmarshal_proto-ne-stuck w wire v Transaction.blank),
        (
          nested-IsCase w
              (λ v. TransactionStatusMeta.unmarshal_proto w v TransactionStatusMeta.blank) 4
              (λ s m. record m { meta = some s }) TransactionStatusMeta.blank (omega arith)
              (TransactionStatusMeta.unmarshal_proto-nil w TransactionStatusMeta.blank)
              (λ v.
                TransactionStatusMeta.unmarshal_proto-ne-stuck w wire v
                  TransactionStatusMeta.blank),
          (omega arith, tt),
        ),
      ),
    ),
  )

  -- A message whose numbers are in range is decoded from the fields that a sender writes for it,
  -- however repeated numbers are packed.
  pub unmarshal_proto-encode :
      (p : Packing) (m : TransactionInfo)
      → IsSendable m
      → unmarshal_proto w (encode w p m) blank ≡ ok m
  unfolding encode unmarshal_proto fields
  unmarshal_proto-encode p m (h0, h1, h2) =
      let w0 = nothing-Written w wire (switch w (fields w)) blank in
      let w1 =
        bytes-Written w wire (switch w (fields w)) blank 1 (omega arith) (omega arith) blank _
          (λ v. record blank { signature = v }) m.signature (λ c. refl) w0 in
      let m0 = record blank { signature = m.signature } in
      let w2 =
        bool-Written w wire (switch w (fields w)) blank 2 (omega arith) (omega arith) m0 _
          (λ v. record m0 { is_vote = v }) m.is_vote (λ c. refl) w1 in
      let m1 = record m0 { is_vote = m.is_vote } in
      let w3 =
        optional-Written w wire (switch w (fields w)) blank 3 (omega arith) (omega arith) m1 _
          (λ v. Transaction.unmarshal_proto w v Transaction.blank) (Transaction.encode w)
          (λ v. record m1 { transaction = v }) m.transaction
          (λ c.
            nested-message_into w (λ v. Transaction.unmarshal_proto w v Transaction.blank)
              (λ s m. record m { transaction = some s }) m1 c)
          (λ s e.
            Transaction.unmarshal_proto-encode w wire s
              (present Transaction.IsSendable m.transaction e h0))
          refl w2 in
      let m2 = record m1 { transaction = m.transaction } in
      let w4 =
        optional-Written w wire (switch w (fields w)) blank 4 (omega arith) (omega arith) m2 _
          (λ v. TransactionStatusMeta.unmarshal_proto w v TransactionStatusMeta.blank)
          (TransactionStatusMeta.encode w p) (λ v. record m2 { meta = v }) m.meta
          (λ c.
            nested-message_into w
              (λ v. TransactionStatusMeta.unmarshal_proto w v TransactionStatusMeta.blank)
              (λ s m. record m { meta = some s }) m2 c)
          (λ s e.
            TransactionStatusMeta.unmarshal_proto-encode w wire p s
              (present TransactionStatusMeta.IsSendable m.meta e h1))
          refl w3 in
      let m3 = record m2 { meta = m.meta } in
      unmarshal_with-switch w (fields w) blank (encode w p m) fields-IsCase
      ∙ unmarshal-Written w wire (switch w (fields w)) blank _ _ (
          varint-Written w wire (switch w (fields w)) blank 5 (omega arith) (omega arith) m3 _
            (λ v. record m3 { index = v }) m.index h2 (λ c. refl) w4)

  -- Decoding ends on all bytes.
  pub unmarshal_proto-ne-stuck :
      (b : List ℕ) (m : TransactionInfo) → unmarshal_proto w b m ≢ err stuck
  unfolding unmarshal_proto
  unmarshal_proto-ne-stuck b m = unmarshal_with-ne-stuck w wire (fields w) m b fields-IsCase
