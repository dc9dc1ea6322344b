-- ===== src/Mpc/Grpc/Ack.antt =====
-- `Ack` of projects/01-mpc-cluster/internal/grpc/proto.go.
use portfolio_itmo.Common.{
  ℕ, Bool, false, not, List, Result, refl, arith, ok, err, ◌≡◌, ◌≢◌, ◌==◌, if◌then◌else◌, [],
}
use portfolio_itmo.Common.Wire.{WireError, stuck, Protowire, IsWire}
use portfolio_itmo.Common.Wire.Append.{append_string, append_bool}
use portfolio_itmo.Common.Wire.Loop.{
  Switch, bytes_into, varint_into, skip_field, unmarshal_fields, unmarshal-ne-stuck, if-ne-stuck,
  bytes_into-ne-stuck, varint_into-ne-stuck, skip_field-ne-stuck,
}
use portfolio_itmo.Common.Wire.Written.{
  nothing-Written, unmarshal-Written, string-Written, bool-Written,
}

pub record Ack : Type 0 where
  pub is_ok : Bool
  pub message : List ℕ

-- `new(Ack)`
abbrev pub blank : Ack
blank = record { is_ok = false; message = [] }

module _ (w : Protowire) where
  unfoldable pub marshal_mpc : Ack → List ℕ
  marshal_mpc m = let b = append_bool w [] 1 m.is_ok in append_string w b 2 m.message

  -- The cases of the `switch`.
  unfoldable pub switch : Switch Ack
  switch m num typ b =
      if num == 1
      then varint_into w (λ v. record m { is_ok = not (v == 0) }) b
      else if num == 2
      then bytes_into w (λ v. record m { message = v }) b
      else skip_field w m num typ b

  unfoldable pub unmarshal_mpc : List ℕ → Ack → Result WireError Ack
  unmarshal_mpc b m = unmarshal_fields w switch m b

  pub unmarshal_mpc-ne-stuck : IsWire w → (b : List ℕ) (m : Ack) → unmarshal_mpc b m ≢ err stuck
  unfolding unmarshal_mpc switch
  unmarshal_mpc-ne-stuck wire b m =
      unmarshal-ne-stuck w wire switch
        (λ m num typ b. if-ne-stuck (num == 1) _ _ (varint_into-ne-stuck w _ b) (
          if-ne-stuck (num == 2) _ _ (bytes_into-ne-stuck w _ b)
            (skip_field-ne-stuck w m num typ b)))
        m b

module _ (w : Protowire) (wire : IsWire w) where
  pub unmarshal_mpc-marshal_mpc : (m : Ack) → unmarshal_mpc w (marshal_mpc w m) blank ≡ ok (m)
  unfolding marshal_mpc unmarshal_mpc switch
  unmarshal_mpc-marshal_mpc m =
      let w0 = nothing-Written w wire (switch w) blank in
      let w1 =
        bool-Written w wire (switch w) blank blank 1 _ (λ v. record blank { is_ok = v }) m.is_ok
          (omega arith) (omega arith) (λ c. refl) refl w0 in
      let m0 = record blank { is_ok = m.is_ok } in
      unmarshal-Written w wire (switch w) blank _ _ (
        string-Written w wire (switch w) blank m0 2 _ (λ v. record m0 { message = v }) m.message
          (omega arith) (omega arith) (λ c. refl) refl w1)
