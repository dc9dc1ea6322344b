-- ===== src/Kv/Grpc/Codec.antt =====
-- `dkvCodec` of projects/10-distributed-kv/internal/grpc/codec.go, which gives and takes any value that has
-- the methods of a message.
use portfolio_itmo.Common.{ℕ, List, Result, ok, err, ap, ◌≡◌, ◌≢◌, ◌>>=◌}
use portfolio_itmo.Common
use portfolio_itmo.Common.Wire.{WireError, stuck, Protowire, IsWire}
use portfolio_itmo.Kv.Grpc.ForwardRequest.{ForwardRequest}
use portfolio_itmo.Kv.Grpc.ForwardRequest
use portfolio_itmo.Kv.Grpc.ForwardResponse.{ForwardResponse}
use portfolio_itmo.Kv.Grpc.ForwardResponse

-- The messages, as the values of the interface `Message`, and a value that has not its methods.
pub data Value : Type 0 where
  forward_request : ForwardRequest → Value
  forward_response : ForwardResponse → Value
  other : Value

pub data CodecError : Type 0 where
  not_a_message : CodecError
  wire_error : WireError → CodecError

abbrev pub wrapped : {A : Type 0} → (A → Value) → Result WireError A → Result CodecError Value
wrapped f (Common.ok a) = ok (f a)
wrapped f (Common.err e) = err (wire_error e)

module _ (w : Protowire) where
  unfoldable pub marshal : Value → Result CodecError (List ℕ)
  marshal (forward_request m) = ok (ForwardRequest.marshal_msg w m)
  marshal (forward_response m) = ok (ForwardResponse.marshal_msg w m)
  marshal other = err not_a_message

  -- The value that is given is decoded into.
  unfoldable pub unmarshal : List ℕ → Value → Result CodecError Value
  unmarshal b (forward_request m) = wrapped forward_request (ForwardRequest.unmarshal_msg w b m)
  unmarshal b (forward_response m) = wrapped forward_response (ForwardResponse.unmarshal_msg w b m)
  unmarshal b other = err not_a_message

-- A new value of the type that a value has.
abbrev pub new : Value → Value
new (forward_request m) = forward_request ForwardRequest.blank
new (forward_response m) = forward_response ForwardResponse.blank
new other = other

-- The integers are in the range of their type.
abbrev pub IsSendable : Value → Type 0
IsSendable (forward_request m) = Unit {0}
IsSendable (forward_response m) = ForwardResponse.IsSendable m
IsSendable other = ⊥

wrapped-ne-stuck :
    {A : Type 0} (f : A → Value) (r : Result WireError A)
    → r ≢ err stuck
    → wrapped f r ≢ err (wire_error stuck)
wrapped-ne-stuck f (Common.ok a) h = λ e. cc
wrapped-ne-stuck f (Common.err x) h = λ e. h (cc)

module _ (w : Protowire) (wire : IsWire w) where
  -- A message whose integers are in range is decoded from its bytes into a new value of its type as
  -- it was.
  pub unmarshal-marshal_forward :
      (v : Value) → IsSendable v → (marshal w v >>= λ b. unmarshal w b (new v)) ≡ ok (v)
  unfolding marshal unmarshal
  unmarshal-marshal_forward (forward_request m) h =
      ap (wrapped forward_request) (ForwardRequest.unmarshal_msg-marshal_msg w wire m)
  unmarshal-marshal_forward (forward_response m) h =
      ap (wrapped forward_response) (ForwardResponse.unmarshal_msg-marshal_msg w wire m h)
  unmarshal-marshal_forward other h = absurd h

  -- Decoding ends on all bytes, into any value.
  pub forward-ne-stuck : (b : List ℕ) (v : Value) → unmarshal w b v ≢ err (wire_error stuck)
  unfolding unmarshal
  forward-ne-stuck b (forward_request m) =
      wrapped-ne-stuck forward_request (ForwardRequest.unmarshal_msg w b m)
        (ForwardRequest.unmarshal_msg-ne-stuck w wire b m)
  forward-ne-stuck b (forward_response m) =
      wrapped-ne-stuck forward_response (ForwardResponse.unmarshal_msg w b m)
        (ForwardResponse.unmarshal_msg-ne-stuck w wire b m)
  forward-ne-stuck b other = λ e. cc
