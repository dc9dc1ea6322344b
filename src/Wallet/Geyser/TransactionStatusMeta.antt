-- ===== src/Wallet/Geyser/TransactionStatusMeta.antt =====
-- `TransactionStatusMeta` of projects/02-wallet-scoring/internal/proto/geyser.pb.go.
use portfolio_itmo.Common.{
  ℕ, List, Result, refl, arith, ok, err, All, ◌≡◌, ◌≢◌, ◌∷◌, [], ◌^◌, ◌<◌, ◌∙◌,
}
use portfolio_itmo.Common.Wire.{WireError, stuck, Protowire, IsWire}
use portfolio_itmo.Common.Wire.Written.{nothing-Written, unmarshal-Written}
use portfolio_itmo.Wallet.Geyser.Repeated.{Packing, repeated, repeated-Written}
use portfolio_itmo.Wallet.ProtoBuilder
use portfolio_itmo.Wallet.ProtoBuilder.Written.{varint-Written, bytes-Written}
use portfolio_itmo.Wallet.ProtoParser.{
  Field, varint_field, bytes_field, packed_field, cases, unmarshal_with,
}
use portfolio_itmo.Wallet.ProtoParser.Fields.{
  switch, IsCase, unmarshal_with-switch, unmarshal_with-ne-stuck,
}

pub record TransactionStatusMeta : Type 0 where
  pub error : List ℕ
  pub fee : ℕ
  pub pre_balances : List ℕ
  pub post_balances : List ℕ

-- `new(TransactionStatusMeta)`
abbrev pub blank : TransactionStatusMeta
blank = record { error = []; fee = 0; pre_balances = []; post_balances = [] }

module _ (w : Protowire) where
  -- The fields as a sender writes them; the code only reads them.
  unfoldable pub encode : Packing → TransactionStatusMeta → List ℕ
  encode p m =
      let b = ProtoBuilder.bytes w [] 1 m.error in
      let b = ProtoBuilder.varint w b 2 m.fee in
      let b = repeated w p b 3 m.pre_balances in repeated w p b 4 m.post_balances

  -- The cases of the `switch`.
  unfoldable pub fields : List (Field TransactionStatusMeta)
  fields =
      bytes_field 1 (λ m v. record m { error = v })
      ∷ varint_field 2 (λ m v. record m { fee = v })
      ∷ packed_field 3 (λ m. m.pre_balances) (λ m v. record m { pre_balances = v })
      ∷ packed_field 4 (λ m. m.post_balances) (λ m v. record m { post_balances = v })
      ∷ []

  unfoldable pub unmarshal_proto :
      List ℕ → TransactionStatusMeta → Result WireError TransactionStatusMeta
  unmarshal_proto b m = unmarshal_with w (cases w fields) m b

  pub unmarshal_proto-nil : (m : TransactionStatusMeta) → unmarshal_proto [] m ≡ ok m
  unfolding unmarshal_proto unmarshal_with
  unmarshal_proto-nil m = refl

-- The numbers are in the range of their type.
abbrev pub IsSendable : TransactionStatusMeta → Type 0
IsSendable m =
    m.fee < 2 ^ 64 × All (λ v. v < 2 ^ 64) m.pre_balances × All (λ v. v < 2 ^ 64) m.post_balances

module _ (w : Protowire) (wire : IsWire w) where
  fields-IsCase : All (IsCase w) (fields w)
  unfolding fields
  fields-IsCase = (omega arith, (omega arith, (omega arith, (omega arith, tt))))

  -- A message whose numbers are in range is decoded from the fields that a sender writes for it,
  -- however repeated numbers are packed.
  pub unmarshal_proto-encode :
      (p : Packing) (m : TransactionStatusMeta)
      → IsSendable m
      → unmarshal_proto w (encode w p m) blank ≡ ok m
  unfolding encode unmarshal_proto fields
  unmarshal_proto-encode p m (h0, h1, h2) =
      let w0 = nothing-Written w wire (switch w (fields w)) blank in
      let w1 =
        bytes-Written w wire (switch w (fields w)) blank 1 (omega arith) (omega arith) blank _
          (λ v. record blank { error = v }) m.error (λ c. refl) w0 in
      let m0 = record blank { error = m.error } in
      let w2 =
        varint-Written w wire (switch w (fields w)) blank 2 (omega arith) (omega arith) m0 _
          (λ v. record m0 { fee = v }) m.fee h0 (λ c. refl) w1 in
      let m1 = record m0 { fee = m.fee } in
      let w3 =
        repeated-Written w wire (switch w (fields w)) blank 3 (omega arith) (omega arith)
          (λ v. record m1 { pre_balances = v }) (λ held typ c. refl) p m.pre_balances _ h1 w2 in
      let m2 = record m1 { pre_balances = m.pre_balances } in
      unmarshal_with-switch w (fields w) blank (encode w p m) fields-IsCase
      ∙ unmarshal-Written w wire (switch w (fields w)) blank _ _ (
          repeated-Written w wire (switch w (fields w)) blank 4 (omega arith) (omega arith)
            (λ v. record m2 { post_balances = v }) (λ held typ c. refl) p m.post_balances _ h2 w3)

  -- Decoding ends on all bytes.
  pub unmarshal_proto-ne-stuck :
      (b : List ℕ) (m : TransactionStatusMeta) → unmarshal_proto w b m ≢ err stuck
  unfolding unmarshal_proto
  unmarshal_proto-ne-stuck b m = unmarshal_with-ne-stuck w wire (fields w) m b fields-IsCase
