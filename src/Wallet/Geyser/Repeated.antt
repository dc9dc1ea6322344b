-- ===== src/Wallet/Geyser/Repeated.antt =====
-- A `repeated uint64` of projects/02-wallet-scoring/internal/proto/geyser.proto on the wire, for
-- `PackedVarints`. In proto3 a sender packs the numbers into one field, and a reader also takes a field
-- for each number.
use portfolio_itmo.Common.{
  ℕ, zero, suc, List, [], ◌∷◌, ◌++◌, Option, none, some, ok, All, length, length-append, drop,
  drop-append, ◌≤◌, ◌^◌, ◌<◌, ◌≡◌, ◌≢◌, refl, sym, ap, ◌∙◌, arith, ◌>>=◌,
}
use portfolio_itmo.Common
use portfolio_itmo.Common.Wire.{parse, varint_type, bytes_type, Protowire, IsWire}
use portfolio_itmo.Common.Wire.Loop.{Switch}
use portfolio_itmo.Common.Wire.Written.{Written, value-Written}
use portfolio_itmo.Wallet.ProtoBuilder.{varint, bytes}
use portfolio_itmo.Wallet.ProtoBuilder.Written.{varint-Written}
use portfolio_itmo.Wallet.ProtoParser.{unpack}
use portfolio_itmo.Wallet.ProtoParser.Follows.{packed_into}
use mathlib.Core.List.{append_assoc, append-nil}
use mathlib.Core.Path.{subst}

pub data Packing : Type 0 where
  packed one_by_one : Packing

module _ (w : Protowire) where
  unfoldable pub chunk : List ℕ → List ℕ
  chunk [] = []
  chunk (v ∷ vs) = w.append_varint [] v ++ chunk vs

  unfoldable pub varints : List ℕ → ℕ → List ℕ → List ℕ
  varints b num [] = b
  varints b num (v ∷ vs) = varints (varint w b num v) num vs

  -- No field at all where there are no numbers.
  unfoldable pub repeated : Packing → List ℕ → ℕ → List ℕ → List ℕ
  repeated packed b num [] = b
  repeated packed b num (v ∷ vs) = bytes w b num (chunk (v ∷ vs))
  repeated one_by_one b num vs = varints b num vs

module _ (w : Protowire) (wire : IsWire w) where
  unpack_step :
      (fuel : ℕ) (dst c : List ℕ) (v n : ℕ)
      → 0 < length c
      → w.consume_varint c ≡ ok (v, n)
      → unpack w (suc fuel) dst c ≡ unpack w fuel (dst ++ (v ∷ [])) (drop n c)
  unfolding unpack
  unpack_step fuel dst [] v n some_bytes e = absurd (omega arith)
  unpack_step fuel dst (x ∷ c) v n some_bytes e =
      ap
        (λ r. elim r [
          | Common.ok (v, n) ↦ unpack w fuel (dst ++ (v ∷ [])) (drop n (x ∷ c))
          | Common.err code ↦ (dst, some (parse code))
        ])
        e

  -- The numbers of a chunk come in its order, behind those that are held.
  unpack-chunk :
      (fuel : ℕ) (dst vs : List ℕ)
      → length (chunk w vs) ≤ fuel
      → All (λ v. v < 2 ^ 64) vs
      → unpack w fuel dst (chunk w vs) ≡ (dst ++ vs, none)
  unfolding chunk unpack
  unpack-chunk fuel dst [] size fits = ap (λ l. (l, none)) (sym (append-nil dst))
  unpack-chunk zero dst (v ∷ vs) size fits =
      let first = w.append_varint [] v in
      let some_bytes =
        wire.varint_has_bytes (first ++ chunk w vs) (wire.varint_consumed v (chunk w vs) fits.0) in
      absurd (omega (arith, size, length-append first (chunk w vs), some_bytes))
  unpack-chunk (suc fuel) dst (v ∷ vs) size fits =
      let first = w.append_varint [] v in
      let later = chunk w vs in
      let consumed = wire.varint_consumed v later fits.0 in
      let some_bytes = wire.varint_has_bytes (first ++ later) consumed in
      let total = length-append first later in
      unpack_step fuel dst (first ++ later) v (length first) (omega (arith, total, some_bytes))
        consumed
      ∙ (ap (λ c. unpack w fuel (dst ++ (v ∷ [])) c) (drop-append first later)
          ∙ (unpack-chunk fuel (dst ++ (v ∷ [])) vs (omega (arith, size, total, some_bytes)) fits.1
              ∙ ap (λ l. (l, none)) (append_assoc dst (v ∷ []) vs)))

  module _ {M : Type 0} (switch : Switch M) (start : M) (num : ℕ) (low : 0 < num)
      (high : num < 2 ^ 29) (set : List ℕ → M)
      (at : (held : List ℕ) (typ : ℕ) (c : List ℕ)
        → switch (set held) num typ c ≡ packed_into w held set typ c) where
    varints-Written :
        (old vs : List ℕ) (b : List ℕ)
        → All (λ v. v < 2 ^ 64) vs
        → Written w wire switch start (set old) b
        → Written w wire switch start (set (old ++ vs)) (varints w b num vs)
    unfolding varints
    varints-Written old [] b fits before = rw (append-nil old) before
    varints-Written old (v ∷ vs) b fits before =
        subst (λ r. Written w wire switch start (set r) (varints w (varint w b num v) num vs))
          (append_assoc old (v ∷ []) vs)
          (varints-Written (old ++ (v ∷ [])) vs (varint w b num v) fits.1 (
            varint-Written w wire switch start num low high (set old) b (λ v. set (old ++ (v ∷ [])))
              v fits.0 (at old varint_type) before))

    -- The numbers are read back however they are packed.
    pub repeated-Written :
        (p : Packing) (vs : List ℕ) (b : List ℕ)
        → All (λ v. v < 2 ^ 64) vs
        → Written w wire switch start (set []) b
        → Written w wire switch start (set vs) (repeated w p b num vs)
    unfolding repeated bytes
    repeated-Written one_by_one vs b fits before = varints-Written [] vs b fits before
    repeated-Written packed [] b fits before = before
    repeated-Written packed (v ∷ vs) b fits before =
        let c = chunk w (v ∷ vs) in
        value-Written w wire switch start (set []) num b bytes_type (w.append_bytes [] c) _
          (set (v ∷ vs)) low high (omega arith)
          (λ rest.
            at [] bytes_type (w.append_bytes [] c ++ rest)
            ∙ rw
                (wire.bytes_consumed c rest, unpack-chunk (length c) [] (v ∷ vs) (omega arith) fits)
                refl)
          (wire.bytes_appended (w.append_tag b num bytes_type) c) before
