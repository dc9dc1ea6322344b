-- ===== src/Wallet/Geyser/Transaction.antt =====
-- `Transaction` of projects/02-wallet-scoring/internal/proto/geyser.pb.go.
use portfolio_itmo.Common.{
  ℕ, List, Option, none, some, Result, refl, arith, ok, err, All, ◌≡◌, ◌≢◌, ◌++◌, ◌∷◌, [], ◌>>=◌,
  ◌∙◌,
}
use portfolio_itmo.Common.Wire.{WireError, stuck, Protowire, IsWire}
use portfolio_itmo.Common.Wire.Written.{nothing-Written, unmarshal-Written}
use portfolio_itmo.Wallet.ProtoBuilder.Written.{
  byte_strings, optional, optional-Written, byte_strings-Written, Present, present,
}
use portfolio_itmo.Wallet.ProtoParser.{Field, bytes_field, message_field, cases, unmarshal_with}
use portfolio_itmo.Wallet.ProtoParser.Fields.{
  switch, IsCase, nested-IsCase, nested-message_into, unmarshal_with-switch,
  unmarshal_with-ne-stuck,
}
use portfolio_itmo.Wallet.Geyser.Message.{Message}
use portfolio_itmo.Wallet.Geyser.Message

pub record Transaction : Type 0 where
  pub signatures : List (List ℕ)
  pub message : Option Message

-- `new(Transaction)`
abbrev pub blank : Transaction
blank = record { signatures = []; message = none }

module _ (w : Protowire) where
  -- The fields as a sender writes them; the code only reads them.
  unfoldable pub encode : Transaction → List ℕ
  encode m = let b = byte_strings w [] 1 m.signatures in optional w (Message.encode w) b 2 m.message

  -- The cases of the `switch`.
  unfoldable pub fields : List (Field Transaction)
  fields =
      bytes_field 1 (λ m v. record m { signatures = m.signatures ++ (v ∷ []) })
      ∷ message_field 2 (λ v. do
        s ← Message.unmarshal_proto w v Message.blank
        ok (λ m. record m { message = some s }))
      ∷ []

  unfoldable pub unmarshal_proto : List ℕ → Transaction → Result WireError Transaction
  unmarshal_proto b m = unmarshal_with w (cases w fields) m b

  pub unmarshal_proto-nil : (m : Transaction) → unmarshal_proto [] m ≡ ok m
  unfolding unmarshal_proto unmarshal_with
  unmarshal_proto-nil m = refl

-- The numbers are in the range of their type.
abbrev pub IsSendable : Transaction → Type 0
IsSendable m = Present Message.IsSendable m.message

module _ (w : Protowire) (wire : IsWire w) where
  fields-IsCase : All (IsCase w) (fields w)
  unfolding fields
  fields-IsCase = (
    omega arith,
    (
      nested-IsCase w (λ v. Message.unmarshal_proto w v Message.blank) 2
          (λ s m. record m { message = some s }) Message.blank (omega arith)
          (Message.unmarshal_proto-nil w Message.blank)
          (λ v. Message.unmarshal_proto-ne-stuck w wire v Message.blank),
      tt,
    ),
  )

  -- A message whose numbers are in range is decoded from the fields that a sender writes for it.
  pub unmarshal_proto-encode :
      (m : Transaction) → IsSendable m → unmarshal_proto w (encode w m) blank ≡ ok m
  unfolding encode unmarshal_proto fields
  unmarshal_proto-encode m h0 =
      let w0 = nothing-Written w wire (switch w (fields w)) blank in
      let w1 =
        byte_strings-Written w wire (switch w (fields w)) blank 1 (omega arith) (omega arith)
          (λ v. record blank { signatures = v }) [] m.signatures _ (λ held c. refl) w0 in
      let m0 = record blank { signatures = m.signatures } in
      unmarshal_with-switch w (fields w) blank (encode w m) fields-IsCase
      ∙ unmarshal-Written w wire (switch w (fields w)) blank _ _ (
          optional-Written w wire (switch w (fields w)) blank 2 (omega arith) (omega arith) m0 _
            (λ v. Message.unmarshal_proto w v Message.blank) (Message.encode w)
            (λ v. record m0 { message = v }) m.message
            (λ c.
              nested-message_into w (λ v. Message.unmarshal_proto w v Message.blank)
                (λ s m. record m { message = some s }) m0 c)
            (λ s e.
              Message.unmarshal_proto-encode w wire s (present Message.IsSendable m.message e h0))
            refl w1)

  -- Decoding ends on all bytes.
  pub unmarshal_proto-ne-stuck : (b : List ℕ) (m : Transaction) → unmarshal_proto w b m ≢ err stuck
  unfolding unmarshal_proto
  unmarshal_proto-ne-stuck b m = unmarshal_with-ne-stuck w wire (fields w) m b fields-IsCase
