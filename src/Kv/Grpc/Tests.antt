-- ===== src/Kv/Grpc/Tests.antt =====
-- The messages of projects/10-distributed-kv/internal/grpc over the wire format for tests.
use portfolio_itmo.Common.{[], ◌∷◌, ok, ◌≡◌, ◌>>=◌, arith}
use portfolio_itmo.Common.Int.{pos}
use portfolio_itmo.Common.Wire.Plain.{plain, plain-IsWire}
use portfolio_itmo.Kv.Grpc.Codec.{
  Value, forward_response, marshal, unmarshal, new, unmarshal-marshal_forward,
}

abbrev not_found : Value
not_found = forward_response (record { status_code = pos 404; body = 123 ∷ 125 ∷ [] })

unmarshal-marshal_forward_example :
    (marshal plain not_found >>= λ b. unmarshal plain b (new not_found)) ≡ ok not_found
unmarshal-marshal_forward_example =
    unmarshal-marshal_forward plain plain-IsWire not_found (omega arith)
