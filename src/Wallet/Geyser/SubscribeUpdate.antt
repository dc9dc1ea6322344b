-- ===== src/Wallet/Geyser/SubscribeUpdate.antt =====
-- `SubscribeUpdate` of projects/02-wallet-scoring/internal/proto/geyser.pb.go.
use portfolio_itmo.Common.{
  ℕ, Bool, true, false, List, Option, none, some, Result, refl, arith, ok, err, All, ◌≡◌, ◌≢◌, ◌++◌,
  ◌∷◌, if◌then◌else◌, [], ◌>>=◌, ◌∙◌,
}
use portfolio_itmo.Common.Wire.{WireError, stuck, Protowire, IsWire}
use portfolio_itmo.Common.Wire.Written.{nothing-Written, unmarshal-Written}
use portfolio_itmo.Wallet.Geyser.Repeated.{Packing}
use portfolio_itmo.Wallet.ProtoBuilder
use portfolio_itmo.Wallet.ProtoBuilder.Written.{
  byte_strings, optional, optional-Written, byte_strings-Written, flag-Written, Present, present,
}
use portfolio_itmo.Wallet.ProtoParser.{Field, bytes_field, message_field, cases, unmarshal_with}
use portfolio_itmo.Wallet.ProtoParser.Fields.{
  switch, IsCase, nested-IsCase, nested-message_into, unmarshal_with-switch,
  unmarshal_with-ne-stuck,
}
use portfolio_itmo.Wallet.Geyser.SubscribeUpdateTransaction.{SubscribeUpdateTransaction}
use portfolio_itmo.Wallet.Geyser.SubscribeUpdateTransaction

pub record SubscribeUpdate : Type 0 where
  pub filters : List (List ℕ)
  pub transaction : Option SubscribeUpdateTransaction
  pub is_ping : Bool

-- `new(SubscribeUpdate)`
abbrev pub blank : SubscribeUpdate
blank = record { filters = []; transaction = none; is_ping = false }

module _ (w : Protowire) where
  -- The fields as a sender writes them; the code only reads them.
  unfoldable pub encode : Packing → SubscribeUpdate → List ℕ
  encode p m =
      let b = byte_strings w [] 1 m.filters in
      let b = optional w (SubscribeUpdateTransaction.encode w p) b 4 m.transaction in
      (if m.is_ping then ProtoBuilder.bytes w b 6 [] else b)

  -- The cases of the `switch`.
  unfoldable pub fields : List (Field SubscribeUpdate)
  fields =
      bytes_field 1 (λ m v. record m { filters = m.filters ++ (v ∷ []) })
      ∷ message_field 4 (λ v. do
        s ← SubscribeUpdateTransaction.unmarshal_proto w v SubscribeUpdateTransaction.blank
        ok (λ m. record m { transaction = some s }))
      ∷ bytes_field 6 (λ m v. record m { is_ping = true })
      ∷ []

  unfoldable pub unmarshal_proto : List ℕ → SubscribeUpdate → Result WireError SubscribeUpdate
  unmarshal_proto b m = unmarshal_with w (cases w fields) m b

  pub unmarshal_proto-nil : (m : SubscribeUpdate) → unmarshal_proto [] m ≡ ok m
  unfolding unmarshal_proto unmarshal_with
  unmarshal_proto-nil m = refl

-- The numbers are in the range of their type.
abbrev pub IsSendable : SubscribeUpdate → Type 0
IsSendable m = Present SubscribeUpdateTransaction.IsSendable m.transaction

module _ (w : Protowire) (wire : IsWire w) where
  fields-IsCase : All (IsCase w) (fields w)
  unfolding fields
  fields-IsCase = (
    omega arith,
    (
      nested-IsCase w
          (λ v. SubscribeUpdateTransaction.unmarshal_proto w v SubscribeUpdateTransaction.blank) 4
          (λ s m. record m { transaction = some s }) SubscribeUpdateTransaction.blank (omega arith)
          (SubscribeUpdateTransaction.unmarshal_proto-nil w SubscribeUpdateTransaction.blank)
          (λ v.
            SubscribeUpdateTransaction.unmarshal_proto-ne-stuck w wire v
              SubscribeUpdateTransaction.blank),
      (omega arith, tt),
    ),
  )

  -- A message whose numbers are in range is decoded from the fields that a sender writes for it,
  -- however repeated numbers are packed.
  pub unmarshal_proto-encode :
      (p : Packing) (m : SubscribeUpdate)
      → IsSendable m
      → unmarshal_proto w (encode w p m) blank ≡ ok m
  unfolding encode unmarshal_proto fields
  unmarshal_proto-encode p m h0 =
      let w0 = nothing-Written w wire (switch w (fields w)) blank in
      let w1 =
        byte_strings-Written w wire (switch w (fields w)) blank 1 (omega arith) (omega arith)
          (λ v. record blank { filters = v }) [] m.filters _ (λ held c. refl) w0 in
      let m0 = record blank { filters = m.filters } in
      let w2 =
        optional-Written w wire (switch w (fields w)) blank 4 (omega arith) (omega arith) m0 _
          (λ v. SubscribeUpdateTransaction.unmarshal_proto w v SubscribeUpdateTransaction.blank)
          (SubscribeUpdateTransaction.encode w p) (λ v. record m0 { transaction = v }) m.transaction
          (λ c.
            nested-message_into w
              (λ v. SubscribeUpdateTransaction.unmarshal_proto w v SubscribeUpdateTransaction.blank)
              (λ s m. record m { transaction = some s }) m0 c)
          (λ s e.
            SubscribeUpdateTransaction.unmarshal_proto-encode w wire p s
              (present SubscribeUpdateTransaction.IsSendable m.transaction e h0))
          refl w1 in
      let m1 = record m0 { transaction = m.transaction } in
      unmarshal_with-switch w (fields w) blank (encode w p m) fields-IsCase
      ∙ unmarshal-Written w wire (switch w (fields w)) blank _ _ (
          flag-Written w wire (switch w (fields w)) blank 6 (omega arith) (omega arith) m1 _
            (λ v. record m1 { is_ping = v }) m.is_ping (λ c. refl) refl w2)

  -- Decoding ends on all bytes.
  pub unmarshal_proto-ne-stuck :
      (b : List ℕ) (m : SubscribeUpdate) → unmarshal_proto w b m ≢ err stuck
  unfolding unmarshal_proto
  unmarshal_proto-ne-stuck b m = unmarshal_with-ne-stuck w wire (fields w) m b fields-IsCase
