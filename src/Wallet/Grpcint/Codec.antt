-- ===== src/Wallet/Grpcint/Codec.antt =====
-- `Codec` of projects/02-wallet-scoring/internal/common/grpccodec.go on the messages of
-- internal/grpcint, which gives and takes any value that has the methods of a message.
use portfolio_itmo.Common.{ℕ, List, [], Result, ok, err, refl, ap, ◌≡◌, ◌≢◌, ◌>>=◌}
use portfolio_itmo.Common
use portfolio_itmo.Common.Wire.{WireError, stuck, Protowire, IsWire}
use portfolio_itmo.Wallet.Grpcint.GetWalletStatsRequest.{GetWalletStatsRequest}
use portfolio_itmo.Wallet.Grpcint.GetWalletStatsRequest
use portfolio_itmo.Wallet.Grpcint.WalletStatsResponse.{WalletStatsResponse}
use portfolio_itmo.Wallet.Grpcint.WalletStatsResponse
use portfolio_itmo.Wallet.Grpcint.GetTopWalletsRequest.{GetTopWalletsRequest}
use portfolio_itmo.Wallet.Grpcint.GetTopWalletsRequest
use portfolio_itmo.Wallet.Grpcint.TopWalletsResponse.{TopWalletsResponse}
use portfolio_itmo.Wallet.Grpcint.TopWalletsResponse
use portfolio_itmo.Wallet.Grpcint.RefreshWalletRequest.{RefreshWalletRequest}
use portfolio_itmo.Wallet.Grpcint.RefreshWalletRequest

-- `Empty` has no fields. A value that is not a message has neither method.
pub data Value : Type 0 where
  empty : Value
  get_wallet_stats_request : GetWalletStatsRequest → Value
  wallet_stats_response : WalletStatsResponse → Value
  get_top_wallets_request : GetTopWalletsRequest → Value
  top_wallets_response : TopWalletsResponse → Value
  refresh_wallet_request : RefreshWalletRequest → Value
  other : Value

pub data CodecError : Type 0 where
  no_method : CodecError
  wire_error : WireError → CodecError

abbrev pub wrapped : {A : Type 0} → (A → Value) → Result WireError A → Result CodecError Value
wrapped f (Common.ok a) = ok (f a)
wrapped f (Common.err e) = err (wire_error e)

module _ (w : Protowire) where
  unfoldable pub marshal : Value → Result CodecError (List ℕ)
  marshal empty = ok []
  marshal (get_wallet_stats_request m) = ok (GetWalletStatsRequest.marshal_proto w m)
  marshal (wallet_stats_response m) = ok (WalletStatsResponse.marshal_proto w m)
  marshal (get_top_wallets_request m) = ok (GetTopWalletsRequest.marshal_proto w m)
  marshal (top_wallets_response m) = ok (TopWalletsResponse.marshal_proto w m)
  marshal (refresh_wallet_request m) = ok (RefreshWalletRequest.marshal_proto w m)
  marshal other = err no_method

  -- The value that is given is decoded into.
  unfoldable pub unmarshal : List ℕ → Value → Result CodecError Value
  unmarshal b empty = ok empty
  unmarshal b (get_wallet_stats_request m) =
      wrapped get_wallet_stats_request (GetWalletStatsRequest.unmarshal_proto w b m)
  unmarshal b (wallet_stats_response m) =
      wrapped wallet_stats_response (WalletStatsResponse.unmarshal_proto w b m)
  unmarshal b (get_top_wallets_request m) =
      wrapped get_top_wallets_request (GetTopWalletsRequest.unmarshal_proto w b m)
  unmarshal b (top_wallets_response m) =
      wrapped top_wallets_response (TopWalletsResponse.unmarshal_proto w b m)
  unmarshal b (refresh_wallet_request m) =
      wrapped refresh_wallet_request (RefreshWalletRequest.unmarshal_proto w b m)
  unmarshal b other = err no_method

-- A new value of the type that a value has.
abbrev pub new : Value → Value
new empty = empty
new (get_wallet_stats_request m) = get_wallet_stats_request GetWalletStatsRequest.blank
new (wallet_stats_response m) = wallet_stats_response WalletStatsResponse.blank
new (get_top_wallets_request m) = get_top_wallets_request GetTopWalletsRequest.blank
new (top_wallets_response m) = top_wallets_response TopWalletsResponse.blank
new (refresh_wallet_request m) = refresh_wallet_request RefreshWalletRequest.blank
new other = other

-- The numbers are in the range of their type.
abbrev pub IsSendable : Value → Type 0
IsSendable empty = Unit {0}
IsSendable (get_wallet_stats_request m) = Unit {0}
IsSendable (wallet_stats_response m) = WalletStatsResponse.IsSendable m
IsSendable (get_top_wallets_request m) = GetTopWalletsRequest.IsSendable m
IsSendable (top_wallets_response m) = TopWalletsResponse.IsSendable m
IsSendable (refresh_wallet_request m) = Unit {0}
IsSendable other = ⊥

wrapped-ne-stuck :
    {A : Type 0} (f : A → Value) (r : Result WireError A)
    → r ≢ err stuck
    → wrapped f r ≢ err (wire_error stuck)
wrapped-ne-stuck f (Common.ok a) h = λ e. cc
wrapped-ne-stuck f (Common.err x) h = λ e. h (cc)

module _ (w : Protowire) (wire : IsWire w) where
  -- A message whose numbers are in range is decoded from its bytes into a new value of its type as
  -- it was.
  pub decode-encode :
      (v : Value) → IsSendable v → (marshal w v >>= λ b. unmarshal w b (new v)) ≡ ok v
  unfolding marshal unmarshal
  decode-encode empty h = refl
  decode-encode (get_wallet_stats_request m) h =
      ap (wrapped get_wallet_stats_request)
        (GetWalletStatsRequest.unmarshal_proto-marshal_proto w wire m)
  decode-encode (wallet_stats_response m) h =
      ap (wrapped wallet_stats_response)
        (WalletStatsResponse.unmarshal_proto-marshal_proto w wire m h)
  decode-encode (get_top_wallets_request m) h =
      ap (wrapped get_top_wallets_request)
        (GetTopWalletsRequest.unmarshal_proto-marshal_proto w wire m h)
  decode-encode (top_wallets_response m) h =
      ap (wrapped top_wallets_response)
        (TopWalletsResponse.unmarshal_proto-marshal_proto w wire m h)
  decode-encode (refresh_wallet_request m) h =
      ap (wrapped refresh_wallet_request)
        (RefreshWalletRequest.unmarshal_proto-marshal_proto w wire m)
  decode-encode other h = absurd h

  -- Decoding ends on all bytes, into any value.
  pub decode-ne-stuck : (b : List ℕ) (v : Value) → unmarshal w b v ≢ err (wire_error stuck)
  unfolding unmarshal
  decode-ne-stuck b empty = λ e. cc
  decode-ne-stuck b (get_wallet_stats_request m) =
      wrapped-ne-stuck get_wallet_stats_request (GetWalletStatsRequest.unmarshal_proto w b m)
        (GetWalletStatsRequest.unmarshal_proto-ne-stuck w wire b m)
  decode-ne-stuck b (wallet_stats_response m) =
      wrapped-ne-stuck wallet_stats_response (WalletStatsResponse.unmarshal_proto w b m)
        (WalletStatsResponse.unmarshal_proto-ne-stuck w wire b m)
  decode-ne-stuck b (get_top_wallets_request m) =
      wrapped-ne-stuck get_top_wallets_request (GetTopWalletsRequest.unmarshal_proto w b m)
        (GetTopWalletsRequest.unmarshal_proto-ne-stuck w wire b m)
  decode-ne-stuck b (top_wallets_response m) =
      wrapped-ne-stuck top_wallets_response (TopWalletsResponse.unmarshal_proto w b m)
        (TopWalletsResponse.unmarshal_proto-ne-stuck w wire b m)
  decode-ne-stuck b (refresh_wallet_request m) =
      wrapped-ne-stuck refresh_wallet_request (RefreshWalletRequest.unmarshal_proto w b m)
        (RefreshWalletRequest.unmarshal_proto-ne-stuck w wire b m)
  decode-ne-stuck b other = λ e. cc
