-- ===== src/Mpc/Grpc/ResultMsg.antt =====
-- `ResultMsg` of projects/01-mpc-cluster/internal/grpc/proto.go.
use portfolio_itmo.Common.{ℕ, List, Result, refl, arith, ok, err, ◌≡◌, ◌≢◌, ◌==◌, if◌then◌else◌, []}
use portfolio_itmo.Common.Int.{ℤ, pos}
use portfolio_itmo.Common.Wire.{WireError, stuck, Protowire, IsWire, int32, uint32, IsInt32}
use portfolio_itmo.Common.Wire.Append.{append_string, append_bytes, append_varint}
use portfolio_itmo.Common.Wire.Loop.{
  Switch, bytes_into, varint_into, skip_field, unmarshal_fields, unmarshal-ne-stuck, if-ne-stuck,
  bytes_into-ne-stuck, varint_into-ne-stuck, skip_field-ne-stuck,
}
use portfolio_itmo.Common.Wire.Written.{
  nothing-Written, unmarshal-Written, string-Written, bytes-Written, int32-Written,
}

pub record ResultMsg : Type 0 where
  pub session_id : List ℕ
  pub node_id : ℤ
  pub value : List ℕ
  pub error : List ℕ

-- `new(ResultMsg)`
abbrev pub blank : ResultMsg
blank = record { session_id = []; node_id = pos 0; value = []; error = [] }

module _ (w : Protowire) where
  unfoldable pub marshal_mpc : ResultMsg → List ℕ
  marshal_mpc m =
      let b = append_string w [] 1 m.session_id in
      let b = append_varint w b 2 (uint32 m.node_id) in
      let b = append_bytes w b 3 m.value in append_string w b 4 m.error

  -- The cases of the `switch`.
  unfoldable pub switch : Switch ResultMsg
  switch m num typ b =
      if num == 1
      then bytes_into w (λ v. record m { session_id = v }) b
      else if num == 2
      then varint_into w (λ v. record m { node_id = int32 v }) b
      else if num == 3
      then bytes_into w (λ v. record m { value = v }) b
      else if num == 4
      then bytes_into w (λ v. record m { error = v }) b
      else skip_field w m num typ b

  unfoldable pub unmarshal_mpc : List ℕ → ResultMsg → Result WireError ResultMsg
  unmarshal_mpc b m = unmarshal_fields w switch m b

  pub unmarshal_mpc-ne-stuck :
      IsWire w → (b : List ℕ) (m : ResultMsg) → unmarshal_mpc b m ≢ err stuck
  unfolding unmarshal_mpc switch
  unmarshal_mpc-ne-stuck wire b m =
      unmarshal-ne-stuck w wire switch
        (λ m num typ b. if-ne-stuck (num == 1) _ _ (bytes_into-ne-stuck w _ b) (
          if-ne-stuck (num == 2) _ _ (varint_into-ne-stuck w _ b) (
            if-ne-stuck (num == 3) _ _ (bytes_into-ne-stuck w _ b) (
              if-ne-stuck (num == 4) _ _ (bytes_into-ne-stuck w _ b)
                (skip_field-ne-stuck w m num typ b)))))
        m b

-- The integers are in the range of their type.
abbrev pub IsSendable : ResultMsg → Type 0
IsSendable m = IsInt32 m.node_id

module _ (w : Protowire) (wire : IsWire w) where
  pub unmarshal_mpc-marshal_mpc :
      (m : ResultMsg) → IsSendable m → unmarshal_mpc w (marshal_mpc w m) blank ≡ ok (m)
  unfolding marshal_mpc unmarshal_mpc switch
  unmarshal_mpc-marshal_mpc m h0 =
      let w0 = nothing-Written w wire (switch w) blank in
      let w1 =
        string-Written w wire (switch w) blank blank 1 _ (λ v. record blank { session_id = v })
          m.session_id (omega arith) (omega arith) (λ c. refl) refl w0 in
      let m0 = record blank { session_id = m.session_id } in
      let w2 =
        int32-Written w wire (switch w) blank m0 2 _ (λ v. record m0 { node_id = v }) m.node_id h0
          (omega arith) (omega arith) (λ c. refl) refl w1 in
      let m1 = record m0 { node_id = m.node_id } in
      let w3 =
        bytes-Written w wire (switch w) blank m1 3 _ (λ v. record m1 { value = v }) m.value
          (omega arith) (omega arith) (λ c. refl) refl w2 in
      let m2 = record m1 { value = m.value } in
      unmarshal-Written w wire (switch w) blank _ _ (
        string-Written w wire (switch w) blank m2 4 _ (λ v. record m2 { error = v }) m.error
          (omega arith) (omega arith) (λ c. refl) refl w3)
