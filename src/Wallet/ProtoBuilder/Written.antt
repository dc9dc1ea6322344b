-- ===== src/Wallet/ProtoBuilder/Written.antt =====
-- What a builder writes is read back, field by field.
use portfolio_itmo.Common.{
  ℕ, Bool, true, false, not, if◌then◌else◌, List, [], ◌∷◌, ◌++◌, Option, none, some, Result, ok,
  All, ◌==◌, ◌%◌, ◌^◌, ◌<◌, ◌≡◌, refl, ◌∙◌, arith, ◌>>=◌,
}
use portfolio_itmo.Common.Int.{ℤ}
use portfolio_itmo.Common.Wire.{
  WireError, checked, varint_type, bytes_type, fixed32_type, fixed64_type, Protowire, IsWire, int64,
  uint64, IsInt64, int64-uint64, uint64_bounds,
}
use portfolio_itmo.Common.Wire.Loop.{Switch, bytes_into, varint_into, message_into}
use portfolio_itmo.Common.Wire.Written.{Written, value-Written}
use portfolio_itmo.Wallet.ProtoBuilder.{varint, bool, bytes, string, fixed32, fixed64}
use mathlib.Core.List.{append_assoc, append-nil}
use mathlib.Core.Path.{subst}

module _ (w : Protowire) where
  -- The fields of a list, one by one, and of a value that may be missing.
  unfoldable pub byte_strings : List ℕ → ℕ → List (List ℕ) → List ℕ
  byte_strings b num [] = b
  byte_strings b num (v ∷ vs) = byte_strings (bytes w b num v) num vs

  unfoldable pub messages : {S : Type 0} → (S → List ℕ) → List ℕ → ℕ → List S → List ℕ
  messages marshal b num [] = b
  messages marshal b num (s ∷ ss) = messages marshal (bytes w b num (marshal s)) num ss

  unfoldable pub optional : {S : Type 0} → (S → List ℕ) → List ℕ → ℕ → Option S → List ℕ
  optional marshal b num none = b
  optional marshal b num (some s) = bytes w b num (marshal s)

abbrev pub Present : {S : Type 0} → (S → Type 0) → Option S → Type 0
Present P none = Unit {0}
Present P (some s) = P s

pub present : {S : Type 0} (P : S → Type 0) (o : Option S) {s : S} → o ≡ some s → Present P o → P s
present P none e h = absurd cc
present P (some x) {s} e h = let same : x ≡ s = cc in subst P same h

module _ (w : Protowire) (wire : IsWire w) {M : Type 0} (switch : Switch M) (start : M) (num : ℕ)
    (low : 0 < num) (high : num < 2 ^ 29) where
  module _ (m : M) (b : List ℕ) where
    pub varint-Written :
        (set : ℕ → M) (v : ℕ)
        → v < 2 ^ 64
        → ((c : List ℕ) → switch m num varint_type c ≡ varint_into w set c)
        → Written w wire switch start m b
        → Written w wire switch start (set v) (varint w b num v)
    unfolding varint
    varint-Written set v fits at before =
        value-Written w wire switch start m num b varint_type (w.append_varint [] v) _ (set v) low
          high (omega arith)
          (λ rest. at (w.append_varint [] v ++ rest) ∙ rw (wire.varint_consumed v rest fits) refl)
          (wire.varint_appended (w.append_tag b num varint_type) v) before

    pub uint32-Written :
        (set : ℕ → M) (v : ℕ)
        → v < 2 ^ 32
        → ((c : List ℕ) → switch m num varint_type c ≡ varint_into w (λ v. set (v % 2 ^ 32)) c)
        → Written w wire switch start m b
        → Written w wire switch start (set v) (varint w b num v)
    uint32-Written set v fits at before =
        let same : v % 2 ^ 32 ≡ v = omega arith in
        subst (λ x. Written w wire switch start (set x) (varint w b num v)) same
          (varint-Written (λ v. set (v % 2 ^ 32)) v (omega arith) at before)

    pub int64-Written :
        (set : ℤ → M) (z : ℤ)
        → IsInt64 z
        → ((c : List ℕ) → switch m num varint_type c ≡ varint_into w (λ v. set (int64 v)) c)
        → Written w wire switch start m b
        → Written w wire switch start (set z) (varint w b num (uint64 z))
    int64-Written set z range at before =
        subst (λ x. Written w wire switch start (set x) (varint w b num (uint64 z)))
          (int64-uint64 z range)
          (varint-Written (λ v. set (int64 v)) (uint64 z) (uint64_bounds z) at before)

    pub bool-Written :
        (set : Bool → M) (v : Bool)
        → ((c : List ℕ) → switch m num varint_type c ≡ varint_into w (λ n. set (not (n == 0))) c)
        → Written w wire switch start m b
        → Written w wire switch start (set v) (bool w b num v)
    unfolding bool
    bool-Written set true at before =
        varint-Written (λ n. set (not (n == 0))) 1 (omega arith) at before
    bool-Written set false at before =
        varint-Written (λ n. set (not (n == 0))) 0 (omega arith) at before

    pub bytes-Written :
        (set : List ℕ → M) (v : List ℕ)
        → ((c : List ℕ) → switch m num bytes_type c ≡ bytes_into w set c)
        → Written w wire switch start m b
        → Written w wire switch start (set v) (bytes w b num v)
    unfolding bytes
    bytes-Written set v at before =
        value-Written w wire switch start m num b bytes_type (w.append_bytes [] v) _ (set v) low
          high (omega arith)
          (λ rest. at (w.append_bytes [] v ++ rest) ∙ rw (wire.bytes_consumed v rest) refl)
          (wire.bytes_appended (w.append_tag b num bytes_type) v) before

    pub string-Written :
        (set : List ℕ → M) (v : List ℕ)
        → ((c : List ℕ) → switch m num bytes_type c ≡ bytes_into w set c)
        → set [] ≡ m
        → Written w wire switch start m b
        → Written w wire switch start (set v) (string w b num v)
    unfolding string bytes
    string-Written set [] at same before = rw same before
    string-Written set (x ∷ v) at same before = bytes-Written set (x ∷ v) at before

    pub fixed32-Written :
        (set : ℕ → M) (v : ℕ)
        → v < 2 ^ 32
        → ((c : List ℕ)
            → switch m num fixed32_type c
              ≡ (do (v, n) ← checked (w.consume_fixed32 c); ok (set v, n)))
        → Written w wire switch start m b
        → Written w wire switch start (set v) (fixed32 w b num v)
    unfolding fixed32
    fixed32-Written set v fits at before =
        value-Written w wire switch start m num b fixed32_type (w.append_fixed32 [] v) _ (set v) low
          high (omega arith)
          (λ rest. at (w.append_fixed32 [] v ++ rest) ∙ rw (wire.fixed32_consumed v rest fits) refl)
          (wire.fixed32_appended (w.append_tag b num fixed32_type) v) before

    pub fixed64-Written :
        (set : ℕ → M) (v : ℕ)
        → v < 2 ^ 64
        → ((c : List ℕ)
            → switch m num fixed64_type c
              ≡ (do (v, n) ← checked (w.consume_fixed64 c); ok (set v, n)))
        → Written w wire switch start m b
        → Written w wire switch start (set v) (fixed64 w b num v)
    unfolding fixed64
    fixed64-Written set v fits at before =
        value-Written w wire switch start m num b fixed64_type (w.append_fixed64 [] v) _ (set v) low
          high (omega arith)
          (λ rest. at (w.append_fixed64 [] v ++ rest) ∙ rw (wire.fixed64_consumed v rest fits) refl)
          (wire.fixed64_appended (w.append_tag b num fixed64_type) v) before

    -- A message with no fields of its own, which is there or not.
    pub flag-Written :
        (set : Bool → M) (v : Bool)
        → ((c : List ℕ) → switch m num bytes_type c ≡ bytes_into w (λ c. set true) c)
        → set false ≡ m
        → Written w wire switch start m b
        → Written w wire switch start (set v) (if v then bytes w b num [] else b)
    flag-Written set true at same before = bytes-Written (λ c. set true) [] at before
    flag-Written set false at same before = rw same before

    pub message-Written :
        {S : Type 0} (unmarshal : List ℕ → Result WireError S) (set : S → M) (s : S) (v : List ℕ)
        → ((c : List ℕ) → switch m num bytes_type c ≡ message_into w unmarshal set c)
        → unmarshal v ≡ ok s
        → Written w wire switch start m b
        → Written w wire switch start (set s) (bytes w b num v)
    unfolding bytes
    message-Written unmarshal set s v at back before =
        value-Written w wire switch start m num b bytes_type (w.append_bytes [] v) _ (set s) low
          high (omega arith)
          (λ rest. at (w.append_bytes [] v ++ rest) ∙ rw (wire.bytes_consumed v rest, back) refl)
          (wire.bytes_appended (w.append_tag b num bytes_type) v) before

    pub optional-Written :
        {S : Type 0} (unmarshal : List ℕ → Result WireError S) (marshal : S → List ℕ)
        (set : Option S → M) (o : Option S)
        → ((c : List ℕ)
            → switch m num bytes_type c ≡ message_into w unmarshal (λ s. set (some s)) c)
        → ((s : S) → o ≡ some s → unmarshal (marshal s) ≡ ok s)
        → set none ≡ m
        → Written w wire switch start m b
        → Written w wire switch start (set o) (optional w marshal b num o)
    unfolding optional
    optional-Written unmarshal marshal set none at back same before = rw same before
    optional-Written unmarshal marshal set (some s) at back same before =
        message-Written unmarshal (λ s. set (some s)) s (marshal s) at (back s refl) before

  pub byte_strings-Written :
      (set : List (List ℕ) → M) (old vs : List (List ℕ)) (b : List ℕ)
      → ((held : List (List ℕ)) (c : List ℕ)
          → switch (set held) num bytes_type c ≡ bytes_into w (λ v. set (held ++ (v ∷ []))) c)
      → Written w wire switch start (set old) b
      → Written w wire switch start (set (old ++ vs)) (byte_strings w b num vs)
  unfolding byte_strings
  byte_strings-Written set old [] b at before = rw (append-nil old) before
  byte_strings-Written set old (v ∷ vs) b at before =
      subst (λ r. Written w wire switch start (set r) (byte_strings w (bytes w b num v) num vs))
        (append_assoc old (v ∷ []) vs)
        (byte_strings-Written set (old ++ (v ∷ [])) vs (bytes w b num v) at
          (bytes-Written (set old) b (λ v. set (old ++ (v ∷ []))) v (at old) before))

  pub messages-Written :
      {S : Type 0} (unmarshal : List ℕ → Result WireError S) (marshal : S → List ℕ)
      (set : List S → M) (old ss : List S) (b : List ℕ)
      → ((held : List S) (c : List ℕ)
          → switch (set held) num bytes_type c
            ≡ message_into w unmarshal (λ s. set (held ++ (s ∷ []))) c)
      → All (λ s. unmarshal (marshal s) ≡ ok s) ss
      → Written w wire switch start (set old) b
      → Written w wire switch start (set (old ++ ss)) (messages w marshal b num ss)
  unfolding messages
  messages-Written unmarshal marshal set old [] b at back before = rw (append-nil old) before
  messages-Written unmarshal marshal set old (s ∷ ss) b at back before =
      subst
        (λ r.
          Written w wire switch start (set r)
            (messages w marshal (bytes w b num (marshal s)) num ss))
        (append_assoc old (s ∷ []) ss)
        (messages-Written unmarshal marshal set (old ++ (s ∷ [])) ss (bytes w b num (marshal s)) at
          back.1
          (message-Written (set old) b unmarshal (λ s. set (old ++ (s ∷ []))) s (marshal s) (at old)
            back.0 before))
