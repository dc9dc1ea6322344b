-- ===== src/Wallet/Grpcint/WalletStatsResponse.antt =====
-- `WalletStatsResponse` of projects/02-wallet-scoring/internal/grpcint/aggregator.pb.go.
use portfolio_itmo.Common.{
  ℕ, Bool, false, not, List, Result, refl, arith, ok, err, All, ◌≡◌, ◌≢◌, ◌∷◌, ◌==◌, [], ◌%◌, ◌^◌,
  ◌<◌, ◌∙◌,
}
use portfolio_itmo.Common.Int.{ℤ, pos}
use portfolio_itmo.Common.Wire.{WireError, stuck, Protowire, IsWire, int64, uint64, IsInt64}
use portfolio_itmo.Common.Wire.Written.{nothing-Written, unmarshal-Written}
use portfolio_itmo.Wallet.ProtoBuilder
use portfolio_itmo.Wallet.ProtoBuilder.Written.{
  varint-Written, uint32-Written, int64-Written, bool-Written, string-Written, fixed32-Written,
  fixed64-Written,
}
use portfolio_itmo.Wallet.ProtoParser.{
  Field, varint_field, fixed32_field, fixed64_field, bytes_field, cases, unmarshal_with,
}
use portfolio_itmo.Wallet.ProtoParser.Fields.{
  switch, IsCase, unmarshal_with-switch, unmarshal_with-ne-stuck,
}

pub record WalletStatsResponse : Type 0 where
  pub wallet : List ℕ
  pub tx_count : ℕ
  pub first_seen_unix : ℤ
  pub last_seen_unix : ℤ
  pub unique_counterparties : ℕ
  pub avg_tx_amount : ℕ
  pub median_tx_amount : ℕ
  pub herfindahl_index : ℕ
  pub smart_contract_ratio : ℕ
  pub velocity_per_hour : ℕ
  pub dormancy_days : ℕ
  pub score : ℕ
  pub category : List ℕ
  pub updated_at_unix : ℤ
  pub is_found : Bool

-- `new(WalletStatsResponse)`
abbrev pub blank : WalletStatsResponse
blank = record {
  wallet = [];
  tx_count = 0;
  first_seen_unix = pos 0;
  last_seen_unix = pos 0;
  unique_counterparties = 0;
  avg_tx_amount = 0;
  median_tx_amount = 0;
  herfindahl_index = 0;
  smart_contract_ratio = 0;
  velocity_per_hour = 0;
  dormancy_days = 0;
  score = 0;
  category = [];
  updated_at_unix = pos 0;
  is_found = false;
}

module _ (w : Protowire) where
  unfoldable pub marshal_proto : WalletStatsResponse → List ℕ
  marshal_proto m =
      let b = ProtoBuilder.string w [] 1 m.wallet in
      let b = ProtoBuilder.varint w b 2 m.tx_count in
      let b = ProtoBuilder.varint w b 3 (uint64 m.first_seen_unix) in
      let b = ProtoBuilder.varint w b 4 (uint64 m.last_seen_unix) in
      let b = ProtoBuilder.varint w b 5 m.unique_counterparties in
      let b = ProtoBuilder.fixed64 w b 6 m.avg_tx_amount in
      let b = ProtoBuilder.fixed64 w b 7 m.median_tx_amount in
      let b = ProtoBuilder.fixed64 w b 8 m.herfindahl_index in
      let b = ProtoBuilder.fixed32 w b 9 m.smart_contract_ratio in
      let b = ProtoBuilder.fixed64 w b 10 m.velocity_per_hour in
      let b = ProtoBuilder.fixed64 w b 11 m.dormancy_days in
      let b = ProtoBuilder.fixed32 w b 12 m.score in
      let b = ProtoBuilder.string w b 13 m.category in
      let b = ProtoBuilder.varint w b 14 (uint64 m.updated_at_unix) in
      ProtoBuilder.bool w b 15 m.is_found

  -- The cases of the `switch`.
  unfoldable pub fields : List (Field WalletStatsResponse)
  fields =
      bytes_field 1 (λ m v. record m { wallet = v })
      ∷ varint_field 2 (λ m v. record m { tx_count = v })
      ∷ varint_field 3 (λ m v. record m { first_seen_unix = int64 v })
      ∷ varint_field 4 (λ m v. record m { last_seen_unix = int64 v })
      ∷ varint_field 5 (λ m v. record m { unique_counterparties = v % 2 ^ 32 })
      ∷ fixed64_field 6 (λ m v. record m { avg_tx_amount = v })
      ∷ fixed64_field 7 (λ m v. record m { median_tx_amount = v })
      ∷ fixed64_field 8 (λ m v. record m { herfindahl_index = v })
      ∷ fixed32_field 9 (λ m v. record m { smart_contract_ratio = v })
      ∷ fixed64_field 10 (λ m v. record m { velocity_per_hour = v })
      ∷ fixed64_field 11 (λ m v. record m { dormancy_days = v })
      ∷ fixed32_field 12 (λ m v. record m { score = v })
      ∷ bytes_field 13 (λ m v. record m { category = v })
      ∷ varint_field 14 (λ m v. record m { updated_at_unix = int64 v })
      ∷ varint_field 15 (λ m v. record m { is_found = not (v == 0) })
      ∷ []

  unfoldable pub unmarshal_proto :
      List ℕ → WalletStatsResponse → Result WireError WalletStatsResponse
  unmarshal_proto b m = unmarshal_with w (cases w fields) m b

  pub unmarshal_proto-nil : (m : WalletStatsResponse) → unmarshal_proto [] m ≡ ok m
  unfolding unmarshal_proto unmarshal_with
  unmarshal_proto-nil m = refl

-- The numbers are in the range of their type.
abbrev pub IsSendable : WalletStatsResponse → Type 0
IsSendable m =
    m.tx_count < 2 ^ 64
    × IsInt64 m.first_seen_unix
    × IsInt64 m.last_seen_unix
    × m.unique_counterparties < 2 ^ 32
    × m.avg_tx_amount < 2 ^ 64
    × m.median_tx_amount < 2 ^ 64
    × m.herfindahl_index < 2 ^ 64
    × m.smart_contract_ratio < 2 ^ 32
    × m.velocity_per_hour < 2 ^ 64
    × m.dormancy_days < 2 ^ 64
    × m.score < 2 ^ 32
    × IsInt64 m.updated_at_unix

module _ (w : Protowire) (wire : IsWire w) where
  fields-IsCase : All (IsCase w) (fields w)
  unfolding fields
  fields-IsCase = (
    omega arith,
    (
      omega arith,
      (
        omega arith,
        (
          omega arith,
          (
            omega arith,
            (
              omega arith,
              (
                omega arith,
                (
                  omega arith,
                  (
                    omega arith,
                    (
                      omega arith,
                      (omega arith, (omega arith, (omega arith, (omega arith, (omega arith, tt))))),
                    ),
                  ),
                ),
              ),
            ),
          ),
        ),
      ),
    ),
  )

  -- A message whose numbers are in range is decoded from its bytes as it was.
  pub unmarshal_proto-marshal_proto :
      (m : WalletStatsResponse) → IsSendable m → unmarshal_proto w (marshal_proto w m) blank ≡ ok m
  unfolding marshal_proto unmarshal_proto fields
  unmarshal_proto-marshal_proto m (h0, h1, h2, h3, h4, h5, h6, h7, h8, h9, h10, h11) =
      let w0 = nothing-Written w wire (switch w (fields w)) blank in
      let w1 =
        string-Written w wire (switch w (fields w)) blank 1 (omega arith) (omega arith) blank _
          (λ v. record blank { wallet = v }) m.wallet (λ c. refl) refl w0 in
      let m0 = record blank { wallet = m.wallet } in
      let w2 =
        varint-Written w wire (switch w (fields w)) blank 2 (omega arith) (omega arith) m0 _
          (λ v. record m0 { tx_count = v }) m.tx_count h0 (λ c. refl) w1 in
      let m1 = record m0 { tx_count = m.tx_count } in
      let w3 =
        int64-Written w wire (switch w (fields w)) blank 3 (omega arith) (omega arith) m1 _
          (λ v. record m1 { first_seen_unix = v }) m.first_seen_unix h1 (λ c. refl) w2 in
      let m2 = record m1 { first_seen_unix = m.first_seen_unix } in
      let w4 =
        int64-Written w wire (switch w (fields w)) blank 4 (omega arith) (omega arith) m2 _
          (λ v. record m2 { last_seen_unix = v }) m.last_seen_unix h2 (λ c. refl) w3 in
      let m3 = record m2 { last_seen_unix = m.last_seen_unix } in
      let w5 =
        uint32-Written w wire (switch w (fields w)) blank 5 (omega arith) (omega arith) m3 _
          (λ v. record m3 { unique_counterparties = v }) m.unique_counterparties h3 (λ c. refl)
          w4 in
      let m4 = record m3 { unique_counterparties = m.unique_counterparties } in
      let w6 =
        fixed64-Written w wire (switch w (fields w)) blank 6 (omega arith) (omega arith) m4 _
          (λ v. record m4 { avg_tx_amount = v }) m.avg_tx_amount h4 (λ c. refl) w5 in
      let m5 = record m4 { avg_tx_amount = m.avg_tx_amount } in
      let w7 =
        fixed64-Written w wire (switch w (fields w)) blank 7 (omega arith) (omega arith) m5 _
          (λ v. record m5 { median_tx_amount = v }) m.median_tx_amount h5 (λ c. refl) w6 in
      let m6 = record m5 { median_tx_amount = m.median_tx_amount } in
      let w8 =
        fixed64-Written w wire (switch w (fields w)) blank 8 (omega arith) (omega arith) m6 _
          (λ v. record m6 { herfindahl_index = v }) m.herfindahl_index h6 (λ c. refl) w7 in
      let m7 = record m6 { herfindahl_index = m.herfindahl_index } in
      let w9 =
        fixed32-Written w wire (switch w (fields w)) blank 9 (omega arith) (omega arith) m7 _
          (λ v. record m7 { smart_contract_ratio = v }) m.smart_contract_ratio h7 (λ c. refl) w8 in
      let m8 = record m7 { smart_contract_ratio = m.smart_contract_ratio } in
      let w10 =
        fixed64-Written w wire (switch w (fields w)) blank 10 (omega arith) (omega arith) m8 _
          (λ v. record m8 { velocity_per_hour = v }) m.velocity_per_hour h8 (λ c. refl) w9 in
      let m9 = record m8 { velocity_per_hour = m.velocity_per_hour } in
      let w11 =
        fixed64-Written w wire (switch w (fields w)) blank 11 (omega arith) (omega arith) m9 _
          (λ v. record m9 { dormancy_days = v }) m.dormancy_days h9 (λ c. refl) w10 in
      let m10 = record m9 { dormancy_days = m.dormancy_days } in
      let w12 =
        fixed32-Written w wire (switch w (fields w)) blank 12 (omega arith) (omega arith) m10 _
          (λ v. record m10 { score = v }) m.score h10 (λ c. refl) w11 in
      let m11 = record m10 { score = m.score } in
      let w13 =
        string-Written w wire (switch w (fields w)) blank 13 (omega arith) (omega arith) m11 _
          (λ v. record m11 { category = v }) m.category (λ c. refl) refl w12 in
      let m12 = record m11 { category = m.category } in
      let w14 =
        int64-Written w wire (switch w (fields w)) blank 14 (omega arith) (omega arith) m12 _
          (λ v. record m12 { updated_at_unix = v }) m.updated_at_unix h11 (λ c. refl) w13 in
      let m13 = record m12 { updated_at_unix = m.updated_at_unix } in
      unmarshal_with-switch w (fields w) blank (marshal_proto w m) fields-IsCase
      ∙ unmarshal-Written w wire (switch w (fields w)) blank _ _ (
          bool-Written w wire (switch w (fields w)) blank 15 (omega arith) (omega arith) m13 _
            (λ v. record m13 { is_found = v }) m.is_found (λ c. refl) w14)

  -- Decoding ends on all bytes.
  pub unmarshal_proto-ne-stuck :
      (b : List ℕ) (m : WalletStatsResponse) → unmarshal_proto w b m ≢ err stuck
  unfolding unmarshal_proto
  unmarshal_proto-ne-stuck b m = unmarshal_with-ne-stuck w wire (fields w) m b fields-IsCase
