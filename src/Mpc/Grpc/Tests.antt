-- ===== src/Mpc/Grpc/Tests.antt =====
-- The messages of projects/01-mpc-cluster/internal/grpc over the wire format for tests.
use portfolio_itmo.Common.{false, [], ◌∷◌, err, ok, ◌≡◌, ◌≢◌, ◌>>=◌, arith}
use portfolio_itmo.Common.Int.{pos, negsuc}
use portfolio_itmo.Common.Wire.{stuck}
use portfolio_itmo.Common.Wire.Plain.{plain, plain-IsWire}
use portfolio_itmo.Mpc.Grpc.Codec.{
  task, wire_error, marshal, unmarshal, new, received, unmarshal-marshal, unmarshal-ne-stuck,
}
use portfolio_itmo.Mpc.Grpc.Task.{Task}

-- The first share is 0, in slot 0, and so is written as no bytes.
abbrev sum_task : Task
sum_task = record {
  session_id = 7 ∷ 8 ∷ [];
  node_id = pos 2;
  op = 115 ∷ [];
  party_count = pos 3;
  bit_len = negsuc 0;
  is_ready = false;
  peers = record { node_id = pos 1; addr = 65 ∷ [] } ∷ [];
  shares = record { slot = pos 0; value = [] } ∷ record { slot = pos 1; value = 9 ∷ [] } ∷ [];
  triples = [];
}

unmarshal-marshal_example :
    (marshal plain (task sum_task) >>= λ b. unmarshal plain b (new (task sum_task)))
    ≡ ok (received plain (task sum_task))
unmarshal-marshal_example = unmarshal-marshal plain plain-IsWire (task sum_task) (omega arith)

unmarshal-ne-stuck_example :
    unmarshal plain (200 ∷ 3 ∷ []) (new (task sum_task)) ≢ err (wire_error stuck)
unmarshal-ne-stuck_example =
    unmarshal-ne-stuck plain plain-IsWire (200 ∷ 3 ∷ []) (new (task sum_task))
