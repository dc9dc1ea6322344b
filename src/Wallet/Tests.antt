-- ===== src/Wallet/Tests.antt =====
-- Messages of projects/02-wallet-scoring over the wire format for tests.
use portfolio_itmo.Common.{false, none, some, [], ◌∷◌, err, ok, ◌≡◌, ◌≢◌, ◌>>=◌, arith}
use portfolio_itmo.Common.Wire.{stuck}
use portfolio_itmo.Common.Wire.Plain.{plain, plain-IsWire}
use portfolio_itmo.Wallet.Grpcint.Codec.{
  Value, top_wallets_response, wire_error, marshal, unmarshal, new, decode-encode, decode-ne-stuck,
}
use portfolio_itmo.Wallet.Grpcint.WalletStatsResponse
use portfolio_itmo.Common.{List}
use portfolio_itmo.Common.Wire.Loop.{unmarshal_fields}
use portfolio_itmo.Wallet.Geyser.MessageHeader
use portfolio_itmo.Wallet.Geyser.MessageHeader.{MessageHeader}
use portfolio_itmo.Wallet.ProtoParser.{Field, varint_field, cases, unmarshal_with}
use portfolio_itmo.Wallet.ProtoParser.Fields.{switch, unmarshal_with-switch}
use portfolio_itmo.Wallet.Geyser.Repeated.{packed}
use portfolio_itmo.Wallet.Geyser.SubscribeUpdate.{
  SubscribeUpdate, encode, blank, unmarshal_proto, unmarshal_proto-encode, unmarshal_proto-ne-stuck,
}

abbrev two_wallets : Value
two_wallets = top_wallets_response (record {
  items =
      record WalletStatsResponse.blank { wallet = 65 ∷ []; tx_count = 12; score = 1063675494 }
      ∷ WalletStatsResponse.blank
      ∷ [];
})

decode-encode_example :
    (marshal plain two_wallets >>= λ b. unmarshal plain b (new two_wallets)) ≡ ok two_wallets
decode-encode_example = decode-encode plain plain-IsWire two_wallets (omega arith)

decode-ne-stuck_example :
    unmarshal plain (10 ∷ 5 ∷ 1 ∷ []) (new two_wallets) ≢ err (wire_error stuck)
decode-ne-stuck_example = decode-ne-stuck plain plain-IsWire (10 ∷ 5 ∷ 1 ∷ []) (new two_wallets)

abbrev update : SubscribeUpdate
update = record {
  filters = (109 ∷ []) ∷ [];
  transaction = some (record {
    transaction = some (record {
      signature = 1 ∷ 2 ∷ [];
      is_vote = false;
      transaction = none;
      meta =
          some (record { error = []; fee = 5000; pre_balances = 9 ∷ 0 ∷ []; post_balances = [] });
      index = 3;
    });
    slot = 250000000;
  });
  is_ping = false;
}

unmarshal_proto-encode_example :
    unmarshal_proto plain (encode plain packed update) blank ≡ ok update
unmarshal_proto-encode_example =
    unmarshal_proto-encode plain plain-IsWire packed update (omega arith)

unmarshal_proto-ne-stuck_example : unmarshal_proto plain (34 ∷ 9 ∷ []) blank ≢ err stuck
unmarshal_proto-ne-stuck_example = unmarshal_proto-ne-stuck plain plain-IsWire (34 ∷ 9 ∷ []) blank

-- A header whose second field is cut short.
abbrev header_fields : List (Field MessageHeader)
header_fields = varint_field 1 (λ m v. record m { num_required_signatures = v }) ∷ []

unmarshal_with-switch_example :
    unmarshal_with plain (cases plain header_fields) MessageHeader.blank (8 ∷ 1 ∷ 16 ∷ [])
    ≡ unmarshal_fields plain (switch plain header_fields) MessageHeader.blank (8 ∷ 1 ∷ 16 ∷ [])
unmarshal_with-switch_example =
    unmarshal_with-switch plain header_fields MessageHeader.blank (8 ∷ 1 ∷ 16 ∷ []) (omega arith)
