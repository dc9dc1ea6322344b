-- ===== src/Mpc/Grpc/TripleData.antt =====
-- `TripleData` of projects/01-mpc-cluster/internal/grpc/proto.go.
use portfolio_itmo.Common.{ℕ, List, Result, refl, arith, ok, err, ◌≡◌, ◌≢◌, ◌==◌, if◌then◌else◌, []}
use portfolio_itmo.Common.Wire.{WireError, stuck, Protowire, IsWire}
use portfolio_itmo.Common.Wire.Append.{append_bytes}
use portfolio_itmo.Common.Wire.Loop.{
  Switch, bytes_into, skip_field, unmarshal_fields, unmarshal-ne-stuck, if-ne-stuck,
  bytes_into-ne-stuck, skip_field-ne-stuck,
}
use portfolio_itmo.Common.Wire.Written.{nothing-Written, unmarshal-Written, bytes-Written}

pub record TripleData : Type 0 where
  pub a : List ℕ
  pub b : List ℕ
  pub c : List ℕ

-- `new(TripleData)`
abbrev pub blank : TripleData
blank = record { a = []; b = []; c = [] }

module _ (w : Protowire) where
  unfoldable pub marshal_mpc : TripleData → List ℕ
  marshal_mpc m =
      let b = append_bytes w [] 1 m.a in let b = append_bytes w b 2 m.b in append_bytes w b 3 m.c

  -- The cases of the `switch`.
  unfoldable pub switch : Switch TripleData
  switch m num typ b =
      if num == 1
      then bytes_into w (λ v. record m { a = v }) b
      else if num == 2
      then bytes_into w (λ v. record m { b = v }) b
      else if num == 3
      then bytes_into w (λ v. record m { c = v }) b
      else skip_field w m num typ b

  unfoldable pub unmarshal_mpc : List ℕ → TripleData → Result WireError TripleData
  unmarshal_mpc b m = unmarshal_fields w switch m b

  pub unmarshal_mpc-ne-stuck :
      IsWire w → (b : List ℕ) (m : TripleData) → unmarshal_mpc b m ≢ err stuck
  unfolding unmarshal_mpc switch
  unmarshal_mpc-ne-stuck wire b m =
      unmarshal-ne-stuck w wire switch
        (λ m num typ b. if-ne-stuck (num == 1) _ _ (bytes_into-ne-stuck w _ b) (
          if-ne-stuck (num == 2) _ _ (bytes_into-ne-stuck w _ b) (
            if-ne-stuck (num == 3) _ _ (bytes_into-ne-stuck w _ b)
              (skip_field-ne-stuck w m num typ b))))
        m b

module _ (w : Protowire) (wire : IsWire w) where
  pub unmarshal_mpc-marshal_mpc :
      (m : TripleData) → unmarshal_mpc w (marshal_mpc w m) blank ≡ ok (m)
  unfolding marshal_mpc unmarshal_mpc switch
  unmarshal_mpc-marshal_mpc m =
      let w0 = nothing-Written w wire (switch w) blank in
      let w1 =
        bytes-Written w wire (switch w) blank blank 1 _ (λ v. record blank { a = v }) m.a
          (omega arith) (omega arith) (λ c. refl) refl w0 in
      let m0 = record blank { a = m.a } in
      let w2 =
        bytes-Written w wire (switch w) blank m0 2 _ (λ v. record m0 { b = v }) m.b (omega arith)
          (omega arith) (λ c. refl) refl w1 in
      let m1 = record m0 { b = m.b } in
      unmarshal-Written w wire (switch w) blank _ _ (
        bytes-Written w wire (switch w) blank m1 3 _ (λ v. record m1 { c = v }) m.c (omega arith)
          (omega arith) (λ c. refl) refl w2)
