-- ===== src/Mpc/Grpc/TaskRequest.antt =====
-- `TaskRequest` of projects/01-mpc-cluster/internal/grpc/proto.go.
use portfolio_itmo.Common.{ℕ, List, Result, refl, arith, ok, err, ◌≡◌, ◌≢◌, ◌==◌, if◌then◌else◌, []}
use portfolio_itmo.Common.Int.{ℤ, pos}
use portfolio_itmo.Common.Wire.{WireError, stuck, Protowire, IsWire, int32, uint32, IsInt32}
use portfolio_itmo.Common.Wire.Append.{append_string, append_varint}
use portfolio_itmo.Common.Wire.Loop.{
  Switch, bytes_into, varint_into, skip_field, unmarshal_fields, unmarshal-ne-stuck, if-ne-stuck,
  bytes_into-ne-stuck, varint_into-ne-stuck, skip_field-ne-stuck,
}
use portfolio_itmo.Common.Wire.Written.{
  nothing-Written, unmarshal-Written, string-Written, int32-Written,
}

pub record TaskRequest : Type 0 where
  pub session_id : List ℕ
  pub node_id : ℤ

-- `new(TaskRequest)`
abbrev pub blank : TaskRequest
blank = record { session_id = []; node_id = pos 0 }

module _ (w : Protowire) where
  unfoldable pub marshal_mpc : TaskRequest → List ℕ
  marshal_mpc m =
      let b = append_string w [] 1 m.session_id in append_varint w b 2 (uint32 m.node_id)

  -- The cases of the `switch`.
  unfoldable pub switch : Switch TaskRequest
  switch m num typ b =
      if num == 1
      then bytes_into w (λ v. record m { session_id = v }) b
      else if num == 2
      then varint_into w (λ v. record m { node_id = int32 v }) b
      else skip_field w m num typ b

  unfoldable pub unmarshal_mpc : List ℕ → TaskRequest → Result WireError TaskRequest
  unmarshal_mpc b m = unmarshal_fields w switch m b

  pub unmarshal_mpc-ne-stuck :
      IsWire w → (b : List ℕ) (m : TaskRequest) → unmarshal_mpc b m ≢ err stuck
  unfolding unmarshal_mpc switch
  unmarshal_mpc-ne-stuck wire b m =
      unmarshal-ne-stuck w wire switch
        (λ m num typ b. if-ne-stuck (num == 1) _ _ (bytes_into-ne-stuck w _ b) (
          if-ne-stuck (num == 2) _ _ (varint_into-ne-stuck w _ b)
            (skip_field-ne-stuck w m num typ b)))
        m b

-- The integers are in the range of their type.
abbrev pub IsSendable : TaskRequest → Type 0
IsSendable m = IsInt32 m.node_id

module _ (w : Protowire) (wire : IsWire w) where
  pub unmarshal_mpc-marshal_mpc :
      (m : TaskRequest) → IsSendable m → unmarshal_mpc w (marshal_mpc w m) blank ≡ ok (m)
  unfolding marshal_mpc unmarshal_mpc switch
  unmarshal_mpc-marshal_mpc m h0 =
      let w0 = nothing-Written w wire (switch w) blank in
      let w1 =
        string-Written w wire (switch w) blank blank 1 _ (λ v. record blank { session_id = v })
          m.session_id (omega arith) (omega arith) (λ c. refl) refl w0 in
      let m0 = record blank { session_id = m.session_id } in
      unmarshal-Written w wire (switch w) blank _ _ (
        int32-Written w wire (switch w) blank m0 2 _ (λ v. record m0 { node_id = v }) m.node_id h0
          (omega arith) (omega arith) (λ c. refl) refl w1)
