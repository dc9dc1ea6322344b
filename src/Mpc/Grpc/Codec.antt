-- ===== src/Mpc/Grpc/Codec.antt =====
-- `mpcCodec` of projects/01-mpc-cluster/internal/grpc/codec.go, which gives and takes any value that has
-- the methods of a message.
use portfolio_itmo.Common.{ℕ, List, Result, ok, err, ap, ◌≡◌, ◌≢◌, ◌>>=◌}
use portfolio_itmo.Common
use portfolio_itmo.Common.Wire.{WireError, stuck, Protowire, IsWire}
use portfolio_itmo.Mpc.Grpc.NodeInfo.{NodeInfo}
use portfolio_itmo.Mpc.Grpc.NodeInfo
use portfolio_itmo.Mpc.Grpc.Ack.{Ack}
use portfolio_itmo.Mpc.Grpc.Ack
use portfolio_itmo.Mpc.Grpc.TaskRequest.{TaskRequest}
use portfolio_itmo.Mpc.Grpc.TaskRequest
use portfolio_itmo.Mpc.Grpc.PeerEntry.{PeerEntry}
use portfolio_itmo.Mpc.Grpc.PeerEntry
use portfolio_itmo.Mpc.Grpc.ShareData.{ShareData}
use portfolio_itmo.Mpc.Grpc.ShareData
use portfolio_itmo.Mpc.Grpc.TripleData.{TripleData}
use portfolio_itmo.Mpc.Grpc.TripleData
use portfolio_itmo.Mpc.Grpc.Task.{Task}
use portfolio_itmo.Mpc.Grpc.Task
use portfolio_itmo.Mpc.Grpc.ResultMsg.{ResultMsg}
use portfolio_itmo.Mpc.Grpc.ResultMsg
use portfolio_itmo.Mpc.Grpc.Msg.{Msg}
use portfolio_itmo.Mpc.Grpc.Msg
use portfolio_itmo.Mpc.Grpc.HeartbeatPing.{HeartbeatPing}
use portfolio_itmo.Mpc.Grpc.HeartbeatPing
use portfolio_itmo.Mpc.Grpc.HeartbeatPong.{HeartbeatPong}
use portfolio_itmo.Mpc.Grpc.HeartbeatPong

-- The messages, as the values of the interface `Message`, and a value that has not its methods.
pub data Value : Type 0 where
  node_info : NodeInfo → Value
  ack : Ack → Value
  task_request : TaskRequest → Value
  peer_entry : PeerEntry → Value
  share_data : ShareData → Value
  triple_data : TripleData → Value
  task : Task → Value
  result_msg : ResultMsg → Value
  msg : Msg → Value
  heartbeat_ping : HeartbeatPing → Value
  heartbeat_pong : HeartbeatPong → Value
  other : Value

pub data CodecError : Type 0 where
  not_a_message : CodecError
  wire_error : WireError → CodecError

abbrev pub wrapped : {A : Type 0} → (A → Value) → Result WireError A → Result CodecError Value
wrapped f (Common.ok a) = ok (f a)
wrapped f (Common.err e) = err (wire_error e)

module _ (w : Protowire) where
  unfoldable pub marshal : Value → Result CodecError (List ℕ)
  marshal (node_info m) = ok (NodeInfo.marshal_mpc w m)
  marshal (ack m) = ok (Ack.marshal_mpc w m)
  marshal (task_request m) = ok (TaskRequest.marshal_mpc w m)
  marshal (peer_entry m) = ok (PeerEntry.marshal_mpc w m)
  marshal (share_data m) = ok (ShareData.marshal_mpc w m)
  marshal (triple_data m) = ok (TripleData.marshal_mpc w m)
  marshal (task m) = ok (Task.marshal_mpc w m)
  marshal (result_msg m) = ok (ResultMsg.marshal_mpc w m)
  marshal (msg m) = ok (Msg.marshal_mpc w m)
  marshal (heartbeat_ping m) = ok (HeartbeatPing.marshal_mpc w m)
  marshal (heartbeat_pong m) = ok (HeartbeatPong.marshal_mpc w m)
  marshal other = err not_a_message

  -- The value that is given is decoded into.
  unfoldable pub unmarshal : List ℕ → Value → Result CodecError Value
  unmarshal b (node_info m) = wrapped node_info (NodeInfo.unmarshal_mpc w b m)
  unmarshal b (ack m) = wrapped ack (Ack.unmarshal_mpc w b m)
  unmarshal b (task_request m) = wrapped task_request (TaskRequest.unmarshal_mpc w b m)
  unmarshal b (peer_entry m) = wrapped peer_entry (PeerEntry.unmarshal_mpc w b m)
  unmarshal b (share_data m) = wrapped share_data (ShareData.unmarshal_mpc w b m)
  unmarshal b (triple_data m) = wrapped triple_data (TripleData.unmarshal_mpc w b m)
  unmarshal b (task m) = wrapped task (Task.unmarshal_mpc w b m)
  unmarshal b (result_msg m) = wrapped result_msg (ResultMsg.unmarshal_mpc w b m)
  unmarshal b (msg m) = wrapped msg (Msg.unmarshal_mpc w b m)
  unmarshal b (heartbeat_ping m) = wrapped heartbeat_ping (HeartbeatPing.unmarshal_mpc w b m)
  unmarshal b (heartbeat_pong m) = wrapped heartbeat_pong (HeartbeatPong.unmarshal_mpc w b m)
  unmarshal b other = err not_a_message

-- A new value of the type that a value has.
abbrev pub new : Value → Value
new (node_info m) = node_info NodeInfo.blank
new (ack m) = ack Ack.blank
new (task_request m) = task_request TaskRequest.blank
new (peer_entry m) = peer_entry PeerEntry.blank
new (share_data m) = share_data ShareData.blank
new (triple_data m) = triple_data TripleData.blank
new (task m) = task Task.blank
new (result_msg m) = result_msg ResultMsg.blank
new (msg m) = msg Msg.blank
new (heartbeat_ping m) = heartbeat_ping HeartbeatPing.blank
new (heartbeat_pong m) = heartbeat_pong HeartbeatPong.blank
new other = other

-- The integers are in the range of their type.
abbrev pub IsSendable : Value → Type 0
IsSendable (node_info m) = NodeInfo.IsSendable m
IsSendable (ack m) = Unit {0}
IsSendable (task_request m) = TaskRequest.IsSendable m
IsSendable (peer_entry m) = PeerEntry.IsSendable m
IsSendable (share_data m) = ShareData.IsSendable m
IsSendable (triple_data m) = Unit {0}
IsSendable (task m) = Task.IsSendable m
IsSendable (result_msg m) = ResultMsg.IsSendable m
IsSendable (msg m) = Msg.IsSendable m
IsSendable (heartbeat_ping m) = HeartbeatPing.IsSendable m
IsSendable (heartbeat_pong m) = Unit {0}
IsSendable other = ⊥

-- What arrives: a task without the entries that are written as no bytes, any other as it was.
abbrev pub received : Protowire → Value → Value
received w (node_info m) = node_info m
received w (ack m) = ack m
received w (task_request m) = task_request m
received w (peer_entry m) = peer_entry m
received w (share_data m) = share_data m
received w (triple_data m) = triple_data m
received w (task m) = task (Task.received w m)
received w (result_msg m) = result_msg m
received w (msg m) = msg m
received w (heartbeat_ping m) = heartbeat_ping m
received w (heartbeat_pong m) = heartbeat_pong m
received w other = other

wrapped-ne-stuck :
    {A : Type 0} (f : A → Value) (r : Result WireError A)
    → r ≢ err stuck
    → wrapped f r ≢ err (wire_error stuck)
wrapped-ne-stuck f (Common.ok a) h = λ e. cc
wrapped-ne-stuck f (Common.err x) h = λ e. h (cc)

module _ (w : Protowire) (wire : IsWire w) where
  -- A message whose integers are in range is decoded from its bytes into a new value of its type as
  -- it was, except that a task arrives without the peers, shares and triples that are written as no
  -- bytes.
  pub unmarshal-marshal :
      (v : Value) → IsSendable v → (marshal w v >>= λ b. unmarshal w b (new v)) ≡ ok (received w v)
  unfolding marshal unmarshal
  unmarshal-marshal (node_info m) h =
      ap (wrapped node_info) (NodeInfo.unmarshal_mpc-marshal_mpc w wire m h)
  unmarshal-marshal (ack m) h = ap (wrapped ack) (Ack.unmarshal_mpc-marshal_mpc w wire m)
  unmarshal-marshal (task_request m) h =
      ap (wrapped task_request) (TaskRequest.unmarshal_mpc-marshal_mpc w wire m h)
  unmarshal-marshal (peer_entry m) h =
      ap (wrapped peer_entry) (PeerEntry.unmarshal_mpc-marshal_mpc w wire m h)
  unmarshal-marshal (share_data m) h =
      ap (wrapped share_data) (ShareData.unmarshal_mpc-marshal_mpc w wire m h)
  unmarshal-marshal (triple_data m) h =
      ap (wrapped triple_data) (TripleData.unmarshal_mpc-marshal_mpc w wire m)
  unmarshal-marshal (task m) h = ap (wrapped task) (Task.unmarshal_mpc-marshal_mpc w wire m h)
  unmarshal-marshal (result_msg m) h =
      ap (wrapped result_msg) (ResultMsg.unmarshal_mpc-marshal_mpc w wire m h)
  unmarshal-marshal (msg m) h = ap (wrapped msg) (Msg.unmarshal_mpc-marshal_mpc w wire m h)
  unmarshal-marshal (heartbeat_ping m) h =
      ap (wrapped heartbeat_ping) (HeartbeatPing.unmarshal_mpc-marshal_mpc w wire m h)
  unmarshal-marshal (heartbeat_pong m) h =
      ap (wrapped heartbeat_pong) (HeartbeatPong.unmarshal_mpc-marshal_mpc w wire m)
  unmarshal-marshal other h = absurd h

  -- Decoding ends on all bytes, into any value.
  pub unmarshal-ne-stuck : (b : List ℕ) (v : Value) → unmarshal w b v ≢ err (wire_error stuck)
  unfolding unmarshal
  unmarshal-ne-stuck b (node_info m) =
      wrapped-ne-stuck node_info (NodeInfo.unmarshal_mpc w b m)
        (NodeInfo.unmarshal_mpc-ne-stuck w wire b m)
  unmarshal-ne-stuck b (ack m) =
      wrapped-ne-stuck ack (Ack.unmarshal_mpc w b m) (Ack.unmarshal_mpc-ne-stuck w wire b m)
  unmarshal-ne-stuck b (task_request m) =
      wrapped-ne-stuck task_request (TaskRequest.unmarshal_mpc w b m)
        (TaskRequest.unmarshal_mpc-ne-stuck w wire b m)
  unmarshal-ne-stuck b (peer_entry m) =
      wrapped-ne-stuck peer_entry (PeerEntry.unmarshal_mpc w b m)
        (PeerEntry.unmarshal_mpc-ne-stuck w wire b m)
  unmarshal-ne-stuck b (share_data m) =
      wrapped-ne-stuck share_data (ShareData.unmarshal_mpc w b m)
        (ShareData.unmarshal_mpc-ne-stuck w wire b m)
  unmarshal-ne-stuck b (triple_data m) =
      wrapped-ne-stuck triple_data (TripleData.unmarshal_mpc w b m)
        (TripleData.unmarshal_mpc-ne-stuck w wire b m)
  unmarshal-ne-stuck b (task m) =
      wrapped-ne-stuck task (Task.unmarshal_mpc w b m) (Task.unmarshal_mpc-ne-stuck w wire b m)
  unmarshal-ne-stuck b (result_msg m) =
      wrapped-ne-stuck result_msg (ResultMsg.unmarshal_mpc w b m)
        (ResultMsg.unmarshal_mpc-ne-stuck w wire b m)
  unmarshal-ne-stuck b (msg m) =
      wrapped-ne-stuck msg (Msg.unmarshal_mpc w b m) (Msg.unmarshal_mpc-ne-stuck w wire b m)
  unmarshal-ne-stuck b (heartbeat_ping m) =
      wrapped-ne-stuck heartbeat_ping (HeartbeatPing.unmarshal_mpc w b m)
        (HeartbeatPing.unmarshal_mpc-ne-stuck w wire b m)
  unmarshal-ne-stuck b (heartbeat_pong m) =
      wrapped-ne-stuck heartbeat_pong (HeartbeatPong.unmarshal_mpc w b m)
        (HeartbeatPong.unmarshal_mpc-ne-stuck w wire b m)
  unmarshal-ne-stuck b other = λ e. cc
