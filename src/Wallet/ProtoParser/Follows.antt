-- ===== src/Wallet/ProtoParser/Follows.antt =====
-- A parser that keeps its first error agrees with one that returns it: the loop over the fields with
-- `ProtoParser` against the one of Common/Wire/Loop.antt.
use portfolio_itmo.Common.{
  ℕ, zero, suc, Bool, true, false, not, List, [], ◌∷◌, ◌++◌, Option, none, some, Result, ok, err,
  drop, length, ◌==◌, if◌then◌else◌, ◌≡◌, ◌≢◌, ◌≤◌, ◌<◌, ◌⊎◌, arith, length-drop, >>=-ne-err, refl,
  ap, ◌∙◌, ◌>>=◌, Bool-cases, inl, inr,
}
use portfolio_itmo.Common
use portfolio_itmo.Common.Wire.{
  WireError, parse, unexpected_type, stuck, Protowire, IsWire, Consumed, checked, checked-ne-stuck,
  varint_type, bytes_type,
}
use portfolio_itmo.Common.Wire.Loop.{
  Switch, bytes_into, varint_into, message_into, skip_field, unmarshal_fields, fields, if-ne-stuck,
  varint_into-ne-stuck,
}
use portfolio_itmo.Wallet.ProtoParser.{
  ProtoParser, new_proto_parser, Cases, advance, skip_value, varint, bytes, fixed32, fixed64, skip,
  packed_varints, unpack, unpack_chunk, unmarshal_with, parse_fields,
}

module _ {M : Type 0} where
  -- The error is returned, or it is kept.
  abbrev pub Fails : WireError → Result WireError M × ProtoParser → Type 0
  Fails e (Common.err c, p) = c ≡ e
  Fails e (Common.ok m, p) = p.error ≡ some e

  -- What is read from the bytes `b`, against the value and the number of its bytes.
  abbrev pub Follows : List ℕ → Result WireError M × ProtoParser → Result WireError (M × ℕ) → Type 0
  Follows b read (Common.ok (m, k)) = read ≡ (ok m, record { bytes_left = drop k b; error = none })
  Follows b read (Common.err e) = Fails e read

  pub if-Follows :
      (test : Bool) (b : List ℕ) (s s' : Result WireError M × ProtoParser)
      (r r' : Result WireError (M × ℕ))
      → Follows b s r
      → Follows b s' r'
      → Follows b (if test then s else s') (if test then r else r')
  if-Follows true b s s' r r' h k = h
  if-Follows false b s s' r r' h k = k

module _ {M : Type 0} (b : List ℕ) where
  advance-Follows :
      {A : Type 0} (nil : A) (f : A → M) (r : Consumed A)
      → Follows b
          (ok (f (advance nil b r).0), (advance nil b r).1)
          (do (v, n) ← checked r; ok (f v, n))
  advance-Follows nil f (Common.ok (v, n)) = refl
  advance-Follows nil f (Common.err code) = refl

  nested-Follows :
      {S : Type 0} (f : S → M) (n : ℕ) (r : Result WireError S)
      → Follows b
          (do s ← r; ok (f s), record { bytes_left = drop n b; error = none })
          (do s ← r; ok (f s, n))
  nested-Follows f n (Common.ok s) = refl
  nested-Follows f n (Common.err e) = refl

  advance_message-Follows :
      {S : Type 0} (unmarshal unmarshal' : List ℕ → Result WireError S) (f : S → M) {nil : S}
      → ((v : List ℕ) → unmarshal v ≡ unmarshal' v)
      → unmarshal [] ≡ ok nil
      → (r : Consumed (List ℕ))
      → Follows b
          (do s ← unmarshal (advance [] b r).0; ok (f s), (advance [] b r).1)
          (do (v, n) ← checked r; s ← unmarshal' v; ok (f s, n))
  advance_message-Follows unmarshal unmarshal' f same empty (Common.ok (v, n)) =
      rw (same v) (nested-Follows f n (unmarshal' v))
  advance_message-Follows unmarshal unmarshal' f same empty (Common.err code) = rw empty refl

  skip_value-Follows :
      (w : Protowire) (m : M) (r : Result ℕ ℕ)
      → Follows b (ok m, skip_value w b r) (do n ← checked r; ok (m, n))
  skip_value-Follows w m (Common.ok n) = refl
  skip_value-Follows w m (Common.err code) = refl

module _ (w : Protowire) {M : Type 0} where
  pub varint-Follows :
      (f : ℕ → M) (b : List ℕ)
      → Follows b (let (v, p) = varint w (new_proto_parser b) in (ok (f v), p)) (varint_into w f b)
  varint-Follows f b = advance-Follows b 0 f (w.consume_varint b)

  pub bytes-Follows :
      (f : List ℕ → M) (b : List ℕ)
      → Follows b (let (v, p) = bytes w (new_proto_parser b) in (ok (f v), p)) (bytes_into w f b)
  bytes-Follows f b = advance-Follows b [] f (w.consume_bytes b)

  pub fixed32-Follows :
      (f : ℕ → M) (b : List ℕ)
      → Follows b
          (let (v, p) = fixed32 w (new_proto_parser b) in (ok (f v), p))
          (do (v, n) ← checked (w.consume_fixed32 b); ok (f v, n))
  fixed32-Follows f b = advance-Follows b 0 f (w.consume_fixed32 b)

  pub fixed64-Follows :
      (f : ℕ → M) (b : List ℕ)
      → Follows b
          (let (v, p) = fixed64 w (new_proto_parser b) in (ok (f v), p))
          (do (v, n) ← checked (w.consume_fixed64 b); ok (f v, n))
  fixed64-Follows f b = advance-Follows b 0 f (w.consume_fixed64 b)

  pub message-Follows :
      {S : Type 0} (unmarshal unmarshal' : List ℕ → Result WireError S) (f : S → M) {nil : S}
      → ((v : List ℕ) → unmarshal v ≡ unmarshal' v)
      → unmarshal [] ≡ ok nil
      → (b : List ℕ)
      → Follows b
          (let (v, p) = bytes w (new_proto_parser b) in (do s ← unmarshal v; ok (f s), p))
          (message_into w unmarshal' f b)
  message-Follows unmarshal unmarshal' f same empty b =
      advance_message-Follows b unmarshal unmarshal' f same empty (w.consume_bytes b)

  pub skip-Follows :
      (m : M) (num typ : ℕ) (b : List ℕ)
      → Follows b (ok m, skip w num typ (new_proto_parser b)) (skip_field w m num typ b)
  skip-Follows m num typ b = skip_value-Follows b w m (w.consume_field_value num typ b)

-- `PackedVarints` that returns its first error.
abbrev pub unpacked : List ℕ × Option WireError → Result WireError (List ℕ)
unpacked (dst, none) = ok dst
unpacked (dst, some e) = err e

module _ (w : Protowire) {M : Type 0} where
  abbrev pub packed_into : List ℕ → (List ℕ → M) → ℕ → List ℕ → Result WireError (M × ℕ)
  packed_into dst f typ b =
      if typ == varint_type
      then varint_into w (λ v. f (dst ++ (v ∷ []))) b
      else if typ == bytes_type
      then (do
        (chunk, n) ← checked (w.consume_bytes b)
        dst' ← unpacked (unpack w (length chunk) dst chunk)
        ok (f dst', n))
      else err (unexpected_type typ)

  unpacked-Follows :
      (f : List ℕ → M) (b : List ℕ) (n : ℕ) (r : List ℕ × Option WireError)
      → Follows b
          (ok (f r.0), record { bytes_left = drop n b; error = r.1 })
          (do dst ← unpacked r; ok (f dst, n))
  unpacked-Follows f b n (dst, none) = refl
  unpacked-Follows f b n (dst, some e) = refl

  chunk-Follows :
      (dst : List ℕ) (f : List ℕ → M) (b : List ℕ) (r : Consumed (List ℕ))
      → Follows b (let (dst, p) = unpack_chunk w dst (advance [] b r) in (ok (f dst), p)) (do
        (chunk, n) ← checked r
        dst' ← unpacked (unpack w (length chunk) dst chunk)
        ok (f dst', n))
  chunk-Follows dst f b (Common.ok (chunk, n)) =
      unpacked-Follows f b n (unpack w (length chunk) dst chunk)
  chunk-Follows dst f b (Common.err code) = refl

  pub packed-Follows :
      (dst : List ℕ) (f : List ℕ → M) (typ : ℕ) (b : List ℕ)
      → Follows b
          (let (dst, p) = packed_varints w dst typ (new_proto_parser b) in (ok (f dst), p))
          (packed_into dst f typ b)
  unfolding packed_varints
  packed-Follows dst f typ b = elim (Bool-cases (typ == varint_type)) [
    | inl e ↦ rw e (varint-Follows w (λ v. f (dst ++ (v ∷ []))) b)
    | inr e ↦ elim (Bool-cases (typ == bytes_type)) [
      | inl e' ↦ rw (e, e') (chunk-Follows dst f b (w.consume_bytes b))
      | inr e' ↦ rw (e, e') refl
    ]
  ]

pub read-ne-stuck :
    {A M : Type 0} (f : A → M) (r : Consumed A)
    → ◌≢◌ {A = Result WireError (M × ℕ)} (do (v, n) ← checked r; ok (f v, n)) (err stuck)
read-ne-stuck f (Common.ok (v, n)) = λ e. cc
read-ne-stuck f (Common.err code) = λ e. cc

unpacked-ne-stuck : (r : List ℕ × Option WireError) → r.1 ≢ some stuck → unpacked r ≢ err stuck
unpacked-ne-stuck (dst, none) h = λ e. cc
unpacked-ne-stuck (dst, some x) h = λ e. h (cc)

Consumed-cases :
    {A : Type 0} (r : Consumed A) → ((x : A × ℕ) × (r ≡ ok x)) ⊎ ((code : ℕ) × (r ≡ err code))
Consumed-cases (Common.ok x) = inl (x, refl)
Consumed-cases (Common.err code) = inr (code, refl)

module _ (w : Protowire) (wire : IsWire w) where
  unpack-ne-stuck :
      (fuel : ℕ) (dst chunk : List ℕ)
      → length chunk ≤ fuel
      → (unpack w fuel dst chunk).1 ≢ some stuck
  unfolding unpack
  unpack-ne-stuck fuel dst [] h = λ e. cc
  unpack-ne-stuck zero dst (x ∷ chunk) h = absurd (omega arith)
  unpack-ne-stuck (suc fuel) dst (x ∷ chunk) h =
      elim (Consumed-cases (w.consume_varint (x ∷ chunk))) [
        | inl ((v, n), e) ↦
            let some = wire.varint_has_bytes (x ∷ chunk) e in
            rw (unpack, e)
              (unpack-ne-stuck fuel (dst ++ (v ∷ [])) (drop n (x ∷ chunk))
                (omega (arith, length-drop n (x ∷ chunk))))
        | inr (code, e) ↦ rw (unpack, e) (λ f. cc)
      ]

  pub packed_into-ne-stuck :
      {M : Type 0} (dst : List ℕ) (f : List ℕ → M) (typ : ℕ) (b : List ℕ)
      → packed_into w dst f typ b ≢ err stuck
  packed_into-ne-stuck dst f typ b =
      if-ne-stuck (typ == varint_type) _ _ (varint_into-ne-stuck w _ b) (
        if-ne-stuck (typ == bytes_type) _ _
          (>>=-ne-err (checked (w.consume_bytes b)) _ (checked-ne-stuck (w.consume_bytes b))
            λ (chunk, n) e.
              >>=-ne-err (unpacked (unpack w (length chunk) dst chunk)) _
                (unpacked-ne-stuck _ (unpack-ne-stuck (length chunk) dst chunk (omega arith)))
                λ dst k. λ h. cc)
          (λ e. cc))

module _ (w : Protowire) {M : Type 0} (cases : Cases M) (switch : Switch M)
    (follows : (m : M) (num typ : ℕ) (b : List ℕ)
      → Follows b (cases m num typ (new_proto_parser b)) (switch m num typ b))
    (idle : (m : M) (b : List ℕ) (e : WireError)
      → cases m 0 0 (record { bytes_left = b; error = some e })
        ≡ (ok m, record { bytes_left = b; error = some e })) where
  after_error :
      (fuel : ℕ) (m : M) (b : List ℕ) (e : WireError)
      → parse_fields w cases fuel m b (some e) ≡ err e
  unfolding parse_fields
  after_error fuel m b e = refl

  after_value :
      (fuel : ℕ) (b : List ℕ) (s : Result WireError M × ProtoParser) (r : Result WireError (M × ℕ))
      → ((m : M) (c : List ℕ) → parse_fields w cases fuel m c none ≡ fields w switch fuel m c)
      → Follows b s r
      → (s.0 >>= λ m. parse_fields w cases fuel m s.1.bytes_left s.1.error)
        ≡ (r >>= λ (x : M × ℕ). fields w switch fuel x.0 (drop x.1 b))
  after_value fuel b s (Common.ok (m, k)) later h =
      ap
        (λ (q : Result WireError M × ProtoParser).
          q.0 >>= λ m. parse_fields w cases fuel m q.1.bytes_left q.1.error)
        h
      ∙ later m (drop k b)
  after_value fuel b (Common.ok m, p) (Common.err e) later h =
      rw h (after_error fuel m p.bytes_left e)
  after_value fuel b (Common.err c, p) (Common.err e) later h = ap err h

  after_tag :
      (fuel : ℕ) (m : M) (b : List ℕ) (t : Consumed (ℕ × ℕ))
      → ((m : M) (c : List ℕ) → parse_fields w cases fuel m c none ≡ fields w switch fuel m c)
      → (let ((num, typ), p) = advance (0, 0) b t in
          let (r, p) = cases m num typ p in
          r >>= λ m. parse_fields w cases fuel m p.bytes_left p.error)
        ≡ (do
          ((num, typ), n) ← checked t
          (m', k) ← switch m num typ (drop n b)
          fields w switch fuel m' (drop k (drop n b)))
  after_tag fuel m b (Common.ok ((num, typ), n)) later =
      after_value fuel (drop n b) _ (switch m num typ (drop n b)) later
        (follows m num typ (drop n b))
  after_tag fuel m b (Common.err code) later =
      rw (idle m b (parse code)) (after_error fuel m b (parse code))

  parse_fields-fields :
      (fuel : ℕ) (m : M) (b : List ℕ)
      → parse_fields w cases fuel m b none ≡ fields w switch fuel m b
  unfolding parse_fields fields
  parse_fields-fields fuel m [] = refl
  parse_fields-fields zero m (x ∷ b) = refl
  parse_fields-fields (suc fuel) m (x ∷ b) =
      after_tag fuel m (x ∷ b) (w.consume_tag (x ∷ b)) (parse_fields-fields fuel)

  pub unmarshal_with-fields :
      (m : M) (b : List ℕ) → unmarshal_with w cases m b ≡ unmarshal_fields w switch m b
  unfolding unmarshal_with unmarshal_fields
  unmarshal_with-fields m b = parse_fields-fields (length b) m b
