-- ===== src/Wallet/Geyser/Message.antt =====
-- `Message` of projects/02-wallet-scoring/internal/proto/geyser.pb.go.
use portfolio_itmo.Common.{
  ℕ, Bool, false, not, List, Option, none, some, Result, refl, arith, ok, err, All, All-map, ◌≡◌,
  ◌≢◌, ◌++◌, ◌∷◌, ◌==◌, [], ◌>>=◌, ◌∙◌,
}
use portfolio_itmo.Common.Wire.{WireError, stuck, Protowire, IsWire}
use portfolio_itmo.Common.Wire.Written.{nothing-Written, unmarshal-Written}
use portfolio_itmo.Wallet.ProtoBuilder
use portfolio_itmo.Wallet.ProtoBuilder.Written.{
  byte_strings, messages, optional, bool-Written, bytes-Written, optional-Written,
  byte_strings-Written, messages-Written, Present, present,
}
use portfolio_itmo.Wallet.ProtoParser.{
  Field, varint_field, bytes_field, message_field, cases, unmarshal_with,
}
use portfolio_itmo.Wallet.ProtoParser.Fields.{
  switch, IsCase, nested-IsCase, nested-message_into, unmarshal_with-switch,
  unmarshal_with-ne-stuck,
}
use portfolio_itmo.Wallet.Geyser.MessageHeader.{MessageHeader}
use portfolio_itmo.Wallet.Geyser.MessageHeader
use portfolio_itmo.Wallet.Geyser.CompiledInstruction.{CompiledInstruction}
use portfolio_itmo.Wallet.Geyser.CompiledInstruction

pub record Message : Type 0 where
  pub header : Option MessageHeader
  pub account_keys : List (List ℕ)
  pub recent_blockhash : List ℕ
  pub instructions : List CompiledInstruction
  pub is_versioned : Bool

-- `new(Message)`
abbrev pub blank : Message
blank = record {
  header = none;
  account_keys = [];
  recent_blockhash = [];
  instructions = [];
  is_versioned = false;
}

module _ (w : Protowire) where
  -- The fields as a sender writes them; the code only reads them.
  unfoldable pub encode : Message → List ℕ
  encode m =
      let b = optional w (MessageHeader.encode w) [] 1 m.header in
      let b = byte_strings w b 2 m.account_keys in
      let b = ProtoBuilder.bytes w b 3 m.recent_blockhash in
      let b = messages w (CompiledInstruction.encode w) b 4 m.instructions in
      ProtoBuilder.bool w b 5 m.is_versioned

  -- The cases of the `switch`.
  unfoldable pub fields : List (Field Message)
  fields =
      message_field 1 (λ v. do
        s ← MessageHeader.unmarshal_proto w v MessageHeader.blank
        ok (λ m. record m { header = some s }))
      ∷ bytes_field 2 (λ m v. record m { account_keys = m.account_keys ++ (v ∷ []) })
      ∷ bytes_field 3 (λ m v. record m { recent_blockhash = v })
      ∷ message_field 4 (λ v. do
        s ← CompiledInstruction.unmarshal_proto w v CompiledInstruction.blank
        ok (λ m. record m { instructions = m.instructions ++ (s ∷ []) }))
      ∷ varint_field 5 (λ m v. record m { is_versioned = not (v == 0) })
      ∷ []

  unfoldable pub unmarshal_proto : List ℕ → Message → Result WireError Message
  unmarshal_proto b m = unmarshal_with w (cases w fields) m b

  pub unmarshal_proto-nil : (m : Message) → unmarshal_proto [] m ≡ ok m
  unfolding unmarshal_proto unmarshal_with
  unmarshal_proto-nil m = refl

-- The numbers are in the range of their type.
abbrev pub IsSendable : Message → Type 0
IsSendable m =
    Present MessageHeader.IsSendable m.header × All CompiledInstruction.IsSendable m.instructions

module _ (w : Protowire) (wire : IsWire w) where
  fields-IsCase : All (IsCase w) (fields w)
  unfolding fields
  fields-IsCase = (
    nested-IsCase w (λ v. MessageHeader.unmarshal_proto w v MessageHeader.blank) 1
        (λ s m. record m { header = some s }) MessageHeader.blank (omega arith)
        (MessageHeader.unmarshal_proto-nil w MessageHeader.blank)
        (λ v. MessageHeader.unmarshal_proto-ne-stuck w wire v MessageHeader.blank),
    (
      omega arith,
      (
        omega arith,
        (
          nested-IsCase w (λ v. CompiledInstruction.unmarshal_proto w v CompiledInstruction.blank) 4
              (λ s m. record m { instructions = m.instructions ++ (s ∷ []) })
              CompiledInstruction.blank (omega arith)
              (CompiledInstruction.unmarshal_proto-nil w CompiledInstruction.blank)
              (λ v.
                CompiledInstruction.unmarshal_proto-ne-stuck w wire v CompiledInstruction.blank),
          (omega arith, tt),
        ),
      ),
    ),
  )

  -- A message whose numbers are in range is decoded from the fields that a sender writes for it.
  pub unmarshal_proto-encode :
      (m : Message) → IsSendable m → unmarshal_proto w (encode w m) blank ≡ ok m
  unfolding encode unmarshal_proto fields
  unmarshal_proto-encode m (h0, h1) =
      let w0 = nothing-Written w wire (switch w (fields w)) blank in
      let w1 =
        optional-Written w wire (switch w (fields w)) blank 1 (omega arith) (omega arith) blank _
          (λ v. MessageHeader.unmarshal_proto w v MessageHeader.blank) (MessageHeader.encode w)
          (λ v. record blank { header = v }) m.header
          (λ c.
            nested-message_into w (λ v. MessageHeader.unmarshal_proto w v MessageHeader.blank)
              (λ s m. record m { header = some s }) blank c)
          (λ s e.
            MessageHeader.unmarshal_proto-encode w wire s
              (present MessageHeader.IsSendable m.header e h0))
          refl w0 in
      let m0 = record blank { header = m.header } in
      let w2 =
        byte_strings-Written w wire (switch w (fields w)) blank 2 (omega arith) (omega arith)
          (λ v. record m0 { account_keys = v }) [] m.account_keys _ (λ held c. refl) w1 in
      let m1 = record m0 { account_keys = m.account_keys } in
      let w3 =
        bytes-Written w wire (switch w (fields w)) blank 3 (omega arith) (omega arith) m1 _
          (λ v. record m1 { recent_blockhash = v }) m.recent_blockhash (λ c. refl) w2 in
      let m2 = record m1 { recent_blockhash = m.recent_blockhash } in
      let w4 =
        messages-Written w wire (switch w (fields w)) blank 4 (omega arith) (omega arith)
          (λ v. CompiledInstruction.unmarshal_proto w v CompiledInstruction.blank)
          (CompiledInstruction.encode w) (λ v. record m2 { instructions = v }) [] m.instructions _
          (λ held c.
            nested-message_into w
              (λ v. CompiledInstruction.unmarshal_proto w v CompiledInstruction.blank)
              (λ s m. record m { instructions = m.instructions ++ (s ∷ []) })
              (record m2 { instructions = held }) c)
          (All-map (λ s h. CompiledInstruction.unmarshal_proto-encode w wire s h) m.instructions h1)
          w3 in
      let m3 = record m2 { instructions = m.instructions } in
      unmarshal_with-switch w (fields w) blank (encode w m) fields-IsCase
      ∙ unmarshal-Written w wire (switch w (fields w)) blank _ _ (
          bool-Written w wire (switch w (fields w)) blank 5 (omega arith) (omega arith) m3 _
            (λ v. record m3 { is_versioned = v }) m.is_versioned (λ c. refl) w4)

  -- Decoding ends on all bytes.
  pub unmarshal_proto-ne-stuck : (b : List ℕ) (m : Message) → unmarshal_proto w b m ≢ err stuck
  unfolding unmarshal_proto
  unmarshal_proto-ne-stuck b m = unmarshal_with-ne-stuck w wire (fields w) m b fields-IsCase
