-- ===== src/Wallet/Geyser/CompiledInstruction.antt =====
-- `CompiledInstruction` of projects/02-wallet-scoring/internal/proto/geyser.pb.go.
use portfolio_itmo.Common.{
  ℕ, List, Result, refl, arith, ok, err, All, ◌≡◌, ◌≢◌, ◌∷◌, [], ◌%◌, ◌^◌, ◌<◌, ◌∙◌,
}
use portfolio_itmo.Common.Wire.{WireError, stuck, Protowire, IsWire}
use portfolio_itmo.Common.Wire.Written.{nothing-Written, unmarshal-Written}
use portfolio_itmo.Wallet.ProtoBuilder
use portfolio_itmo.Wallet.ProtoBuilder.Written.{uint32-Written, bytes-Written}
use portfolio_itmo.Wallet.ProtoParser.{Field, varint_field, bytes_field, cases, unmarshal_with}
use portfolio_itmo.Wallet.ProtoParser.Fields.{
  switch, IsCase, unmarshal_with-switch, unmarshal_with-ne-stuck,
}

pub record CompiledInstruction : Type 0 where
  pub program_id_index : ℕ
  pub accounts : List ℕ
  pub payload : List ℕ

-- `new(CompiledInstruction)`
abbrev pub blank : CompiledInstruction
blank = record { program_id_index = 0; accounts = []; payload = [] }

module _ (w : Protowire) where
  -- The fields as a sender writes them; the code only reads them.
  unfoldable pub encode : CompiledInstruction → List ℕ
  encode m =
      let b = ProtoBuilder.varint w [] 1 m.program_id_index in
      let b = ProtoBuilder.bytes w b 2 m.accounts in ProtoBuilder.bytes w b 3 m.payload

  -- The cases of the `switch`.
  unfoldable pub fields : List (Field CompiledInstruction)
  fields =
      varint_field 1 (λ m v. record m { program_id_index = v % 2 ^ 32 })
      ∷ bytes_field 2 (λ m v. record m { accounts = v })
      ∷ bytes_field 3 (λ m v. record m { payload = v })
      ∷ []

  unfoldable pub unmarshal_proto :
      List ℕ → CompiledInstruction → Result WireError CompiledInstruction
  unmarshal_proto b m = unmarshal_with w (cases w fields) m b

  pub unmarshal_proto-nil : (m : CompiledInstruction) → unmarshal_proto [] m ≡ ok m
  unfolding unmarshal_proto unmarshal_with
  unmarshal_proto-nil m = refl

-- The numbers are in the range of their type.
abbrev pub IsSendable : CompiledInstruction → Type 0
IsSendable m = m.program_id_index < 2 ^ 32

module _ (w : Protowire) (wire : IsWire w) where
  fields-IsCase : All (IsCase w) (fields w)
  unfolding fields
  fields-IsCase = (omega arith, (omega arith, (omega arith, tt)))

  -- A message whose numbers are in range is decoded from the fields that a sender writes for it.
  pub unmarshal_proto-encode :
      (m : CompiledInstruction) → IsSendable m → unmarshal_proto w (encode w m) blank ≡ ok m
  unfolding encode unmarshal_proto fields
  unmarshal_proto-encode m h0 =
      let w0 = nothing-Written w wire (switch w (fields w)) blank in
      let w1 =
        uint32-Written w wire (switch w (fields w)) blank 1 (omega arith) (omega arith) blank _
          (λ v. record blank { program_id_index = v }) m.program_id_index h0 (λ c. refl) w0 in
      let m0 = record blank { program_id_index = m.program_id_index } in
      let w2 =
        bytes-Written w wire (switch w (fields w)) blank 2 (omega arith) (omega arith) m0 _
          (λ v. record m0 { accounts = v }) m.accounts (λ c. refl) w1 in
      let m1 = record m0 { accounts = m.accounts } in
      unmarshal_with-switch w (fields w) blank (encode w m) fields-IsCase
      ∙ unmarshal-Written w wire (switch w (fields w)) blank _ _ (
          bytes-Written w wire (switch w (fields w)) blank 3 (omega arith) (omega arith) m1 _
            (λ v. record m1 { payload = v }) m.payload (λ c. refl) w2)

  -- Decoding ends on all bytes.
  pub unmarshal_proto-ne-stuck :
      (b : List ℕ) (m : CompiledInstruction) → unmarshal_proto w b m ≢ err stuck
  unfolding unmarshal_proto
  unmarshal_proto-ne-stuck b m = unmarshal_with-ne-stuck w wire (fields w) m b fields-IsCase
