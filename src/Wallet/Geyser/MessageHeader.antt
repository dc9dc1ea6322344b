-- ===== src/Wallet/Geyser/MessageHeader.antt =====
-- `MessageHeader` of projects/02-wallet-scoring/internal/proto/geyser.pb.go.
use portfolio_itmo.Common.{
  ℕ, List, Result, refl, arith, ok, err, All, ◌≡◌, ◌≢◌, ◌∷◌, [], ◌%◌, ◌^◌, ◌<◌, ◌∙◌,
}
use portfolio_itmo.Common.Wire.{WireError, stuck, Protowire, IsWire}
use portfolio_itmo.Common.Wire.Written.{nothing-Written, unmarshal-Written}
use portfolio_itmo.Wallet.ProtoBuilder
use portfolio_itmo.Wallet.ProtoBuilder.Written.{uint32-Written}
use portfolio_itmo.Wallet.ProtoParser.{Field, varint_field, cases, unmarshal_with}
use portfolio_itmo.Wallet.ProtoParser.Fields.{
  switch, IsCase, unmarshal_with-switch, unmarshal_with-ne-stuck,
}

pub record MessageHeader : Type 0 where
  pub num_required_signatures : ℕ
  pub num_readonly_signed_accounts : ℕ
  pub num_readonly_unsigned_accounts : ℕ

-- `new(MessageHeader)`
abbrev pub blank : MessageHeader
blank = record {
  num_required_signatures = 0;
  num_readonly_signed_accounts = 0;
  num_readonly_unsigned_accounts = 0;
}

module _ (w : Protowire) where
  -- The fields as a sender writes them; the code only reads them.
  unfoldable pub encode : MessageHeader → List ℕ
  encode m =
      let b = ProtoBuilder.varint w [] 1 m.num_required_signatures in
      let b = ProtoBuilder.varint w b 2 m.num_readonly_signed_accounts in
      ProtoBuilder.varint w b 3 m.num_readonly_unsigned_accounts

  -- The cases of the `switch`.
  unfoldable pub fields : List (Field MessageHeader)
  fields =
      varint_field 1 (λ m v. record m { num_required_signatures = v % 2 ^ 32 })
      ∷ varint_field 2 (λ m v. record m { num_readonly_signed_accounts = v % 2 ^ 32 })
      ∷ varint_field 3 (λ m v. record m { num_readonly_unsigned_accounts = v % 2 ^ 32 })
      ∷ []

  unfoldable pub unmarshal_proto : List ℕ → MessageHeader → Result WireError MessageHeader
  unmarshal_proto b m = unmarshal_with w (cases w fields) m b

  pub unmarshal_proto-nil : (m : MessageHeader) → unmarshal_proto [] m ≡ ok m
  unfolding unmarshal_proto unmarshal_with
  unmarshal_proto-nil m = refl

-- The numbers are in the range of their type.
abbrev pub IsSendable : MessageHeader → Type 0
IsSendable m =
    m.num_required_signatures < 2 ^ 32
    × m.num_readonly_signed_accounts < 2 ^ 32
    × m.num_readonly_unsigned_accounts < 2 ^ 32

module _ (w : Protowire) (wire : IsWire w) where
  fields-IsCase : All (IsCase w) (fields w)
  unfolding fields
  fields-IsCase = (omega arith, (omega arith, (omega arith, tt)))

  -- A message whose numbers are in range is decoded from the fields that a sender writes for it.
  pub unmarshal_proto-encode :
      (m : MessageHeader) → IsSendable m → unmarshal_proto w (encode w m) blank ≡ ok m
  unfolding encode unmarshal_proto fields
  unmarshal_proto-encode m (h0, h1, h2) =
      let w0 = nothing-Written w wire (switch w (fields w)) blank in
      let w1 =
        uint32-Written w wire (switch w (fields w)) blank 1 (omega arith) (omega arith) blank _
          (λ v. record blank { num_required_signatures = v }) m.num_required_signatures h0
          (λ c. refl) w0 in
      let m0 = record blank { num_required_signatures = m.num_required_signatures } in
      let w2 =
        uint32-Written w wire (switch w (fields w)) blank 2 (omega arith) (omega arith) m0 _
          (λ v. record m0 { num_readonly_signed_accounts = v }) m.num_readonly_signed_accounts h1
          (λ c. refl) w1 in
      let m1 = record m0 { num_readonly_signed_accounts = m.num_readonly_signed_accounts } in
      unmarshal_with-switch w (fields w) blank (encode w m) fields-IsCase
      ∙ unmarshal-Written w wire (switch w (fields w)) blank _ _ (
          uint32-Written w wire (switch w (fields w)) blank 3 (omega arith) (omega arith) m1 _
            (λ v. record m1 { num_readonly_unsigned_accounts = v }) m.num_readonly_unsigned_accounts
            h2 (λ c. refl) w2)

  -- Decoding ends on all bytes.
  pub unmarshal_proto-ne-stuck :
      (b : List ℕ) (m : MessageHeader) → unmarshal_proto w b m ≢ err stuck
  unfolding unmarshal_proto
  unmarshal_proto-ne-stuck b m = unmarshal_with-ne-stuck w wire (fields w) m b fields-IsCase
