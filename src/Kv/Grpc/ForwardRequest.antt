-- ===== src/Kv/Grpc/ForwardRequest.antt =====
-- `ForwardRequest` of projects/10-distributed-kv/internal/grpc/proto.go.
use portfolio_itmo.Common.{ℕ, List, Result, refl, arith, ok, err, ◌≡◌, ◌≢◌, ◌==◌, if◌then◌else◌, []}
use portfolio_itmo.Common.Wire.{WireError, stuck, Protowire, IsWire}
use portfolio_itmo.Common.Wire.Append.{append_string, append_bytes}
use portfolio_itmo.Common.Wire.Loop.{
  Switch, bytes_into, skip_field, unmarshal_fields, unmarshal-ne-stuck, if-ne-stuck,
  bytes_into-ne-stuck, skip_field-ne-stuck,
}
use portfolio_itmo.Common.Wire.Written.{
  nothing-Written, unmarshal-Written, string-Written, bytes-Written,
}

pub record ForwardRequest : Type 0 where
  pub method : List ℕ
  pub path : List ℕ
  pub body : List ℕ

-- `new(ForwardRequest)`
abbrev pub blank : ForwardRequest
blank = record { method = []; path = []; body = [] }

module _ (w : Protowire) where
  unfoldable pub marshal_msg : ForwardRequest → List ℕ
  marshal_msg m =
      let b = append_string w [] 1 m.method in
      let b = append_string w b 2 m.path in append_bytes w b 3 m.body

  -- The cases of the `switch`.
  unfoldable pub switch : Switch ForwardRequest
  switch m num typ b =
      if num == 1
      then bytes_into w (λ v. record m { method = v }) b
      else if num == 2
      then bytes_into w (λ v. record m { path = v }) b
      else if num == 3
      then bytes_into w (λ v. record m { body = v }) b
      else skip_field w m num typ b

  unfoldable pub unmarshal_msg : List ℕ → ForwardRequest → Result WireError ForwardRequest
  unmarshal_msg b m = unmarshal_fields w switch m b

  pub unmarshal_msg-ne-stuck :
      IsWire w → (b : List ℕ) (m : ForwardRequest) → unmarshal_msg b m ≢ err stuck
  unfolding unmarshal_msg switch
  unmarshal_msg-ne-stuck wire b m =
      unmarshal-ne-stuck w wire switch
        (λ m num typ b. if-ne-stuck (num == 1) _ _ (bytes_into-ne-stuck w _ b) (
          if-ne-stuck (num == 2) _ _ (bytes_into-ne-stuck w _ b) (
            if-ne-stuck (num == 3) _ _ (bytes_into-ne-stuck w _ b)
              (skip_field-ne-stuck w m num typ b))))
        m b

module _ (w : Protowire) (wire : IsWire w) where
  pub unmarshal_msg-marshal_msg :
      (m : ForwardRequest) → unmarshal_msg w (marshal_msg w m) blank ≡ ok (m)
  unfolding marshal_msg unmarshal_msg switch
  unmarshal_msg-marshal_msg m =
      let w0 = nothing-Written w wire (switch w) blank in
      let w1 =
        string-Written w wire (switch w) blank blank 1 _ (λ v. record blank { method = v }) m.method
          (omega arith) (omega arith) (λ c. refl) refl w0 in
      let m0 = record blank { method = m.method } in
      let w2 =
        string-Written w wire (switch w) blank m0 2 _ (λ v. record m0 { path = v }) m.path
          (omega arith) (omega arith) (λ c. refl) refl w1 in
      let m1 = record m0 { path = m.path } in
      unmarshal-Written w wire (switch w) blank _ _ (
        bytes-Written w wire (switch w) blank m1 3 _ (λ v. record m1 { body = v }) m.body
          (omega arith) (omega arith) (λ c. refl) refl w2)
