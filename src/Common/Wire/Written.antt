-- ===== src/Common/Wire/Written.antt =====
-- Bytes that the loop over the fields reads as a message, field by field as they are written.
use portfolio_itmo.Common.Tests.{◌==◌, Bool-cases, ==_iff}
use portfolio_itmo.Common.Lists.{length, All}
use portfolio_itmo.Common.Results.{Result, ◌>>=◌}
use portfolio_itmo.Common.Results
use portfolio_itmo.Common.Int.{ℤ, pos}
use portfolio_itmo.Common.Wire.{
  WireError, varint_type, bytes_type, Protowire, IsWire, int32, uint32, int64, uint64, IsInt32,
  IsInt64, int32-uint32, int64-uint64, uint32_bounds, uint64_bounds,
}
use portfolio_itmo.Common.Wire.Append.{
  append_bytes, append_string, append_varint, append_bool, append_messages,
}
use portfolio_itmo.Common.Wire.Loop.{
  Switch, bytes_into, varint_into, message_into, unmarshal_fields, unmarshal-field, unmarshal-nil,
}
use Prim.Native.Nat.{ℕ, ◌^◌, ◌<◌}
use mathlib.Core.Path.{◌≡◌, refl, sym, ap, ◌∙◌, subst}
use mathlib.Core.Logic.{inl, inr}
use mathlib.Core.Bool.{Bool, true, false, not}
use mathlib.Core.List.{List, [], ◌∷◌, ◌++◌, append_assoc, append-nil}
use native.Mathlib.Omega.{arith}

module _ {S : Type 0} where
  abbrev pub keep : List ℕ → S → List S → List S
  keep [] s rest = rest
  keep (x ∷ v) s rest = s ∷ rest

  -- The messages of a list that are written as some bytes.
  abbrev pub sent : (S → List ℕ) → List S → List S
  sent marshal [] = []
  sent marshal (s ∷ ss) = keep (marshal s) s (sent marshal ss)

  keep-append : (v : List ℕ) (s : S) (rest : List S) → keep v s [] ++ rest ≡ keep v s rest
  keep-append [] s rest = refl
  keep-append (x ∷ v) s rest = refl

module _ (w : Protowire) (wire : IsWire w) {M : Type 0} (switch : Switch M) (start : M) where
  -- From `start`, the bytes have been read as `m` wherever more bytes follow.
  pub record Written (m : M) (b : List ℕ) : Type 0 where
    pub reads :
        (rest : List ℕ)
        → unmarshal_fields w switch start (b ++ rest) ≡ unmarshal_fields w switch m rest

  pub nothing-Written : Written start []
  nothing-Written = record { reads = λ rest. refl }

  pub unmarshal-Written :
      (m : M) (b : List ℕ) → Written m b → unmarshal_fields w switch start b ≡ Results.ok m
  unmarshal-Written m b written =
      ap (unmarshal_fields w switch start) (sym (append-nil b))
      ∙ written.reads []
      ∙ unmarshal-nil w wire switch m

  module _ (m : M) (num : ℕ) (b : List ℕ) where
    pub value-Written :
        (typ : ℕ) (payload out : List ℕ) (m' : M)
        → 0 < num
        → num < 2 ^ 29
        → typ < 6
        → ((rest : List ℕ) → switch m num typ (payload ++ rest) ≡ Results.ok (m', length payload))
        → out ≡ w.append_tag b num typ ++ payload
        → Written m b
        → Written m' out
    value-Written typ payload out m' low high known taken written before = record {
      reads = λ rest.
          let tag = w.append_tag [] num typ in
          let split : out ++ rest ≡ b ++ (tag ++ (payload ++ rest)) =
            ap (λ o. o ++ rest)
              (written
                ∙ ap (λ t. t ++ payload) (wire.tag_appended b num typ)
                ∙ append_assoc b tag payload)
            ∙ append_assoc b (tag ++ payload) rest
            ∙ ap (λ r. b ++ r) (append_assoc tag payload rest) in
          ap (unmarshal_fields w switch start) split
          ∙ before.reads (tag ++ (payload ++ rest))
          ∙ unmarshal-field w wire switch m num typ payload rest low high known (taken rest);
    }

    -- A number that is not written leaves the message as it starts.
    pub varint-Written :
        (set : ℕ → M) (v : ℕ)
        → 0 < num
        → num < 2 ^ 29
        → v < 2 ^ 64
        → ((c : List ℕ) → switch m num varint_type c ≡ varint_into w set c)
        → set 0 ≡ m
        → Written m b
        → Written (set v) (append_varint w b num v)
    unfolding append_varint
    varint-Written set v low high fits at same before = elim (Bool-cases (v == 0)) [
      | inl none ↦ let zero : v ≡ 0 = (==_iff v 0).0 none in rw (none, zero, same) before
      | inr some ↦ rw some (
          value-Written varint_type (w.append_varint [] v) _ (set v) low high (omega arith)
            (λ rest. at (w.append_varint [] v ++ rest) ∙ rw (wire.varint_consumed v rest fits) refl)
            (wire.varint_appended (w.append_tag b num varint_type) v) before)
    ]

    pub int32-Written :
        (set : ℤ → M) (z : ℤ)
        → IsInt32 z
        → 0 < num
        → num < 2 ^ 29
        → ((c : List ℕ) → switch m num varint_type c ≡ varint_into w (λ v. set (int32 v)) c)
        → set (pos 0) ≡ m
        → Written m b
        → Written (set z) (append_varint w b num (uint32 z))
    int32-Written set z range low high at same before =
        subst (λ x. Written (set x) (append_varint w b num (uint32 z))) (int32-uint32 z range)
          (varint-Written (λ v. set (int32 v)) (uint32 z) low high (uint32_bounds z) at
            (unfold int32 in same) before)

    pub int64-Written :
        (set : ℤ → M) (z : ℤ)
        → IsInt64 z
        → 0 < num
        → num < 2 ^ 29
        → ((c : List ℕ) → switch m num varint_type c ≡ varint_into w (λ v. set (int64 v)) c)
        → set (pos 0) ≡ m
        → Written m b
        → Written (set z) (append_varint w b num (uint64 z))
    int64-Written set z range low high at same before =
        subst (λ x. Written (set x) (append_varint w b num (uint64 z))) (int64-uint64 z range)
          (varint-Written (λ v. set (int64 v)) (uint64 z) low high (uint64_bounds z) at
            (unfold int64 in same) before)

    pub bool-Written :
        (set : Bool → M) (v : Bool)
        → 0 < num
        → num < 2 ^ 29
        → ((c : List ℕ) → switch m num varint_type c ≡ varint_into w (λ n. set (not (n == 0))) c)
        → set false ≡ m
        → Written m b
        → Written (set v) (append_bool w b num v)
    unfolding append_bool
    bool-Written set false low high at same before = rw same before
    bool-Written set true low high at same before =
        value-Written varint_type (w.append_varint [] 1) _ (set true) low high (omega arith)
          (λ rest.
            at (w.append_varint [] 1 ++ rest) ∙ rw (wire.varint_consumed 1 rest (omega arith)) refl)
          (wire.varint_appended (w.append_tag b num varint_type) 1) before

    some_bytes-Written :
        (set : List ℕ → M) (v : List ℕ)
        → 0 < num
        → num < 2 ^ 29
        → ((c : List ℕ) → switch m num bytes_type c ≡ bytes_into w set c)
        → Written m b
        → Written (set v) (w.append_bytes (w.append_tag b num bytes_type) v)
    some_bytes-Written set v low high at before =
        value-Written bytes_type (w.append_bytes [] v) _ (set v) low high (omega arith)
          (λ rest. at (w.append_bytes [] v ++ rest) ∙ rw (wire.bytes_consumed v rest) refl)
          (wire.bytes_appended (w.append_tag b num bytes_type) v) before

    pub bytes-Written :
        (set : List ℕ → M) (v : List ℕ)
        → 0 < num
        → num < 2 ^ 29
        → ((c : List ℕ) → switch m num bytes_type c ≡ bytes_into w set c)
        → set [] ≡ m
        → Written m b
        → Written (set v) (append_bytes w b num v)
    unfolding append_bytes
    bytes-Written set [] low high at same before = rw same before
    bytes-Written set (x ∷ v) low high at same before =
        some_bytes-Written set (x ∷ v) low high at before

    pub string-Written :
        (set : List ℕ → M) (v : List ℕ)
        → 0 < num
        → num < 2 ^ 29
        → ((c : List ℕ) → switch m num bytes_type c ≡ bytes_into w set c)
        → set [] ≡ m
        → Written m b
        → Written (set v) (append_string w b num v)
    unfolding append_string
    string-Written set [] low high at same before = rw same before
    string-Written set (x ∷ v) low high at same before =
        some_bytes-Written set (x ∷ v) low high at before

    -- A message that is written as no bytes at all is lost, and so it is excluded.
    pub message-Written :
        {S : Type 0} (unmarshal : List ℕ → Result WireError S) (set : S → M) (s : S) (v : List ℕ)
        → 0 < num
        → num < 2 ^ 29
        → ((c : List ℕ) → switch m num bytes_type c ≡ message_into w unmarshal set c)
        → 0 < length v
        → unmarshal v ≡ Results.ok s
        → Written m b
        → Written (set s) (append_bytes w b num v)
    unfolding append_bytes
    message-Written unmarshal set s [] low high at some back before = absurd (omega arith)
    message-Written unmarshal set s (x ∷ v) low high at some back before =
        value-Written bytes_type (w.append_bytes [] (x ∷ v)) _ (set s) low high (omega arith)
          (λ rest.
            at (w.append_bytes [] (x ∷ v) ++ rest)
            ∙ rw (wire.bytes_consumed (x ∷ v) rest, back) refl)
          (wire.bytes_appended (w.append_tag b num bytes_type) (x ∷ v)) before

  module _ {S : Type 0} (unmarshal : List ℕ → Result WireError S) (set : List S → M) (num : ℕ)
      (low : 0 < num) (high : num < 2 ^ 29)
      (at : (held : List S) (c : List ℕ)
        → switch (set held) num bytes_type c
          ≡ message_into w unmarshal (λ s. set (held ++ (s ∷ []))) c) where
    kept-Written :
        (old : List S) (s : S) (v b : List ℕ)
        → unmarshal v ≡ Results.ok s
        → Written (set old) b
        → Written (set (old ++ keep v s [])) (append_bytes w b num v)
    unfolding append_bytes
    kept-Written old s [] b back before = rw (append-nil old) before
    kept-Written old s (x ∷ v) b back before =
        message-Written (set old) num b unmarshal (λ s. set (old ++ (s ∷ []))) s (x ∷ v) low high
          (at old) (omega arith) back before

    pub messages-Written :
        (marshal : S → List ℕ) (old ss : List S) (b : List ℕ)
        → All (λ s. unmarshal (marshal s) ≡ Results.ok s) ss
        → Written (set old) b
        → Written (set (old ++ sent marshal ss)) (append_messages w marshal b num ss)
    unfolding append_messages
    messages-Written marshal old [] b back before = rw (append-nil old) before
    messages-Written marshal old (s ∷ ss) b back before =
        let joined =
          append_assoc old (keep (marshal s) s []) (sent marshal ss)
          ∙ ap (λ r. old ++ r) (keep-append (marshal s) s (sent marshal ss)) in
        subst
          (λ r.
            Written (set r) (append_messages w marshal (append_bytes w b num (marshal s)) num ss))
          joined
          (messages-Written marshal (old ++ keep (marshal s) s []) ss
            (append_bytes w b num (marshal s)) back.1
            (kept-Written old s (marshal s) b back.0 before))
