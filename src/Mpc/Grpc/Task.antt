-- ===== src/Mpc/Grpc/Task.antt =====
-- `Task` of projects/01-mpc-cluster/internal/grpc/proto.go.
use portfolio_itmo.Common.{
  ℕ, Bool, false, not, List, Result, refl, arith, ok, err, All, All-map, All-each, ◌≡◌, ◌≢◌, ◌++◌,
  ◌∷◌, ◌==◌, if◌then◌else◌, [],
}
use portfolio_itmo.Common.Int.{ℤ, pos}
use portfolio_itmo.Common.Wire.{WireError, stuck, Protowire, IsWire, int32, uint32, IsInt32}
use portfolio_itmo.Common.Wire.Append.{append_string, append_varint, append_bool, append_messages}
use portfolio_itmo.Common.Wire.Loop.{
  Switch, bytes_into, varint_into, message_into, skip_field, unmarshal_fields, unmarshal-ne-stuck,
  if-ne-stuck, bytes_into-ne-stuck, varint_into-ne-stuck, message_into-ne-stuck,
  skip_field-ne-stuck,
}
use portfolio_itmo.Common.Wire.Written.{
  nothing-Written, unmarshal-Written, string-Written, int32-Written, bool-Written, messages-Written,
  sent,
}
use portfolio_itmo.Mpc.Grpc.PeerEntry.{PeerEntry}
use portfolio_itmo.Mpc.Grpc.PeerEntry
use portfolio_itmo.Mpc.Grpc.ShareData.{ShareData}
use portfolio_itmo.Mpc.Grpc.ShareData
use portfolio_itmo.Mpc.Grpc.TripleData.{TripleData}
use portfolio_itmo.Mpc.Grpc.TripleData

pub record Task : Type 0 where
  pub session_id : List ℕ
  pub node_id : ℤ
  pub op : List ℕ
  pub party_count : ℤ
  pub bit_len : ℤ
  pub is_ready : Bool
  pub peers : List PeerEntry
  pub shares : List ShareData
  pub triples : List TripleData

-- `new(Task)`
abbrev pub blank : Task
blank = record {
  session_id = [];
  node_id = pos 0;
  op = [];
  party_count = pos 0;
  bit_len = pos 0;
  is_ready = false;
  peers = [];
  shares = [];
  triples = [];
}

module _ (w : Protowire) where
  unfoldable pub marshal_mpc : Task → List ℕ
  marshal_mpc m =
      let b = append_string w [] 1 m.session_id in
      let b = append_varint w b 2 (uint32 m.node_id) in
      let b = append_string w b 3 m.op in
      let b = append_varint w b 4 (uint32 m.party_count) in
      let b = append_varint w b 5 (uint32 m.bit_len) in
      let b = append_bool w b 6 m.is_ready in
      let b = append_messages w (PeerEntry.marshal_mpc w) b 7 m.peers in
      let b = append_messages w (ShareData.marshal_mpc w) b 8 m.shares in
      append_messages w (TripleData.marshal_mpc w) b 9 m.triples

  -- The cases of the `switch`.
  unfoldable pub switch : Switch Task
  switch m num typ b =
      if num == 1
      then bytes_into w (λ v. record m { session_id = v }) b
      else if num == 2
      then varint_into w (λ v. record m { node_id = int32 v }) b
      else if num == 3
      then bytes_into w (λ v. record m { op = v }) b
      else if num == 4
      then varint_into w (λ v. record m { party_count = int32 v }) b
      else if num == 5
      then varint_into w (λ v. record m { bit_len = int32 v }) b
      else if num == 6
      then varint_into w (λ v. record m { is_ready = not (v == 0) }) b
      else if num == 7
      then message_into w (λ v. PeerEntry.unmarshal_mpc w v PeerEntry.blank)
          (λ s. record m { peers = m.peers ++ (s ∷ []) }) b
      else if num == 8
      then message_into w (λ v. ShareData.unmarshal_mpc w v ShareData.blank)
          (λ s. record m { shares = m.shares ++ (s ∷ []) }) b
      else if num == 9
      then message_into w (λ v. TripleData.unmarshal_mpc w v TripleData.blank)
          (λ s. record m { triples = m.triples ++ (s ∷ []) }) b
      else skip_field w m num typ b

  unfoldable pub unmarshal_mpc : List ℕ → Task → Result WireError Task
  unmarshal_mpc b m = unmarshal_fields w switch m b

  pub unmarshal_mpc-ne-stuck : IsWire w → (b : List ℕ) (m : Task) → unmarshal_mpc b m ≢ err stuck
  unfolding unmarshal_mpc switch
  unmarshal_mpc-ne-stuck wire b m =
      unmarshal-ne-stuck w wire switch
        (λ m num typ b. if-ne-stuck (num == 1) _ _ (bytes_into-ne-stuck w _ b) (
          if-ne-stuck (num == 2) _ _ (varint_into-ne-stuck w _ b) (
            if-ne-stuck (num == 3) _ _ (bytes_into-ne-stuck w _ b) (
              if-ne-stuck (num == 4) _ _ (varint_into-ne-stuck w _ b) (
                if-ne-stuck (num == 5) _ _ (varint_into-ne-stuck w _ b) (
                  if-ne-stuck (num == 6) _ _ (varint_into-ne-stuck w _ b) (
                    if-ne-stuck (num == 7) _ _
                      (message_into-ne-stuck w _ _ b
                        (λ v. PeerEntry.unmarshal_mpc-ne-stuck w wire v PeerEntry.blank))
                      (if-ne-stuck (num == 8) _ _
                        (message_into-ne-stuck w _ _ b
                          (λ v. ShareData.unmarshal_mpc-ne-stuck w wire v ShareData.blank))
                        (if-ne-stuck (num == 9) _ _
                          (message_into-ne-stuck w _ _ b
                            (λ v. TripleData.unmarshal_mpc-ne-stuck w wire v TripleData.blank))
                          (skip_field-ne-stuck w m num typ b))))))))))
        m b

-- The integers are in the range of their type.
abbrev pub IsSendable : Task → Type 0
IsSendable m =
    IsInt32 m.node_id
    × IsInt32 m.party_count
    × IsInt32 m.bit_len
    × All PeerEntry.IsSendable m.peers
    × All ShareData.IsSendable m.shares

-- What arrives: an entry that is written as no bytes is missing.
abbrev pub received : Protowire → Task → Task
received w m = record m {
  peers = sent (PeerEntry.marshal_mpc w) m.peers;
  shares = sent (ShareData.marshal_mpc w) m.shares;
  triples = sent (TripleData.marshal_mpc w) m.triples;
}

module _ (w : Protowire) (wire : IsWire w) where
  pub unmarshal_mpc-marshal_mpc :
      (m : Task) → IsSendable m → unmarshal_mpc w (marshal_mpc w m) blank ≡ ok (received w m)
  unfolding marshal_mpc unmarshal_mpc switch
  unmarshal_mpc-marshal_mpc m (h0, h1, h2, h3, h4) =
      let w0 = nothing-Written w wire (switch w) blank in
      let w1 =
        string-Written w wire (switch w) blank blank 1 _ (λ v. record blank { session_id = v })
          m.session_id (omega arith) (omega arith) (λ c. refl) refl w0 in
      let m0 = record blank { session_id = m.session_id } in
      let w2 =
        int32-Written w wire (switch w) blank m0 2 _ (λ v. record m0 { node_id = v }) m.node_id h0
          (omega arith) (omega arith) (λ c. refl) refl w1 in
      let m1 = record m0 { node_id = m.node_id } in
      let w3 =
        string-Written w wire (switch w) blank m1 3 _ (λ v. record m1 { op = v }) m.op (omega arith)
          (omega arith) (λ c. refl) refl w2 in
      let m2 = record m1 { op = m.op } in
      let w4 =
        int32-Written w wire (switch w) blank m2 4 _ (λ v. record m2 { party_count = v })
          m.party_count h1 (omega arith) (omega arith) (λ c. refl) refl w3 in
      let m3 = record m2 { party_count = m.party_count } in
      let w5 =
        int32-Written w wire (switch w) blank m3 5 _ (λ v. record m3 { bit_len = v }) m.bit_len h2
          (omega arith) (omega arith) (λ c. refl) refl w4 in
      let m4 = record m3 { bit_len = m.bit_len } in
      let w6 =
        bool-Written w wire (switch w) blank m4 6 _ (λ v. record m4 { is_ready = v }) m.is_ready
          (omega arith) (omega arith) (λ c. refl) refl w5 in
      let m5 = record m4 { is_ready = m.is_ready } in
      let w7 =
        messages-Written w wire (switch w) blank (λ v. PeerEntry.unmarshal_mpc w v PeerEntry.blank)
          (λ ss. record m5 { peers = ss }) 7 (omega arith) (omega arith) (λ held c. refl)
          (PeerEntry.marshal_mpc w) [] m.peers _
          (All-map (λ s h. PeerEntry.unmarshal_mpc-marshal_mpc w wire s h) m.peers h3) w6 in
      let m6 = record m5 { peers = sent (PeerEntry.marshal_mpc w) m.peers } in
      let w8 =
        messages-Written w wire (switch w) blank (λ v. ShareData.unmarshal_mpc w v ShareData.blank)
          (λ ss. record m6 { shares = ss }) 8 (omega arith) (omega arith) (λ held c. refl)
          (ShareData.marshal_mpc w) [] m.shares _
          (All-map (λ s h. ShareData.unmarshal_mpc-marshal_mpc w wire s h) m.shares h4) w7 in
      let m7 = record m6 { shares = sent (ShareData.marshal_mpc w) m.shares } in
      unmarshal-Written w wire (switch w) blank _ _ (
        messages-Written w wire (switch w) blank
          (λ v. TripleData.unmarshal_mpc w v TripleData.blank) (λ ss. record m7 { triples = ss }) 9
          (omega arith) (omega arith) (λ held c. refl) (TripleData.marshal_mpc w) [] m.triples _
          (All-each (λ s. TripleData.unmarshal_mpc-marshal_mpc w wire s) m.triples) w8)
