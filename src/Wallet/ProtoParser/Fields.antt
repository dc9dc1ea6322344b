-- ===== src/Wallet/ProtoParser/Fields.antt =====
-- The cases of a `switch`, each read with its error: a decoder that returns its first error, against
-- which the loop with a `ProtoParser` is proved equal.
use portfolio_itmo.Common.{
  ℕ, List, [], ◌∷◌, some, Result, ok, err, All, ◌==◌, if◌then◌else◌, ◌≡◌, ◌≢◌, ◌<◌, refl, sym, ◌∙◌,
  arith, ◌>>=◌, >>=-Cong, >>=-ne-err,
}
use portfolio_itmo.Common
use portfolio_itmo.Common.Wire.{WireError, stuck, Protowire, IsWire, checked}
use portfolio_itmo.Common.Wire.Loop.{
  Switch, bytes_into, varint_into, message_into, skip_field, unmarshal_fields, if-ne-stuck,
  varint_into-ne-stuck, bytes_into-ne-stuck, message_into-ne-stuck, skip_field-ne-stuck,
  unmarshal-ne-stuck,
}
use portfolio_itmo.Wallet.ProtoParser.{
  Field, varint_field, fixed32_field, fixed64_field, bytes_field, packed_field, message_field,
  number, read_field, cases, new_proto_parser, unmarshal_with,
}
use portfolio_itmo.Wallet.ProtoParser.Follows.{
  Follows, if-Follows, varint-Follows, fixed32-Follows, fixed64-Follows, bytes-Follows,
  packed-Follows, message-Follows, skip-Follows, packed_into, unmarshal_with-fields, read-ne-stuck,
  packed_into-ne-stuck,
}

module _ (w : Protowire) {M : Type 0} where
  abbrev pub take_field : Field M → M → ℕ → List ℕ → Result WireError (M × ℕ)
  take_field (varint_field n f) m typ b = varint_into w (f m) b
  take_field (fixed32_field n f) m typ b = do (v, n) ← checked (w.consume_fixed32 b); ok (f m v, n)
  take_field (fixed64_field n f) m typ b = do (v, n) ← checked (w.consume_fixed64 b); ok (f m v, n)
  take_field (bytes_field n f) m typ b = bytes_into w (f m) b
  take_field (packed_field n held f) m typ b = packed_into w (held m) (f m) typ b
  take_field (message_field n f) m typ b = message_into w f (λ change. change m) b

  abbrev pub switch : List (Field M) → Switch M
  switch [] m num typ b = skip_field w m num typ b
  switch (f ∷ fs) m num typ b =
      let rest = switch fs m num typ b in if num == number f then take_field f m typ b else rest

  -- No field has the number 0, and a nested message is decoded to an end, and without an error from
  -- no bytes.
  abbrev pub IsCase : Field M → Type 0
  IsCase (message_field n f) =
      (0 < n) × (change : M → M) × (f [] ≡ ok change) × ((v : List ℕ) → f v ≢ err stuck)
  IsCase f = 0 < number f

  number_positive : (f : Field M) → IsCase f → 0 < number f
  number_positive (message_field n f) h = h.0
  number_positive (varint_field n f) h = h
  number_positive (fixed32_field n f) h = h
  number_positive (fixed64_field n f) h = h
  number_positive (bytes_field n f) h = h
  number_positive (packed_field n held f) h = h

  field-Follows :
      (f : Field M) (m : M) (typ : ℕ) (b : List ℕ)
      → IsCase f
      → Follows b (read_field w f m typ (new_proto_parser b)) (take_field f m typ b)
  field-Follows (varint_field n f) m typ b h = varint-Follows w (f m) b
  field-Follows (fixed32_field n f) m typ b h = fixed32-Follows w (f m) b
  field-Follows (fixed64_field n f) m typ b h = fixed64-Follows w (f m) b
  field-Follows (bytes_field n f) m typ b h = bytes-Follows w (f m) b
  field-Follows (packed_field n held f) m typ b h = packed-Follows w (held m) (f m) typ b
  field-Follows (message_field n f) m typ b h =
      message-Follows w f f (λ change. change m) (λ v. refl) h.2 b

  cases-Follows :
      (fs : List (Field M)) (m : M) (num typ : ℕ) (b : List ℕ)
      → All IsCase fs
      → Follows b (cases w fs m num typ (new_proto_parser b)) (switch fs m num typ b)
  cases-Follows [] m num typ b h = skip-Follows w m num typ b
  cases-Follows (f ∷ fs) m num typ b h =
      if-Follows (num == number f) b _ _ _ _ (field-Follows f m typ b h.0)
        (cases-Follows fs m num typ b h.1)

  cases_idle :
      (fs : List (Field M)) (m : M) (b : List ℕ) (e : WireError)
      → All IsCase fs
      → cases w fs m 0 0 (record { bytes_left = b; error = some e })
        ≡ (ok m, record { bytes_left = b; error = some e })
  cases_idle [] m b e h = refl
  cases_idle (f ∷ fs) m b e h = ground (arith, number_positive f h.0, cases_idle fs m b e)

  -- The loop with a `ProtoParser` agrees with the decoder that returns the first error, where no case
  -- has the number 0, and nested messages are decoded to an end, and from no bytes without an error.
  pub unmarshal_with-switch :
      (fs : List (Field M)) (m : M) (b : List ℕ)
      → All IsCase fs
      → unmarshal_with w (cases w fs) m b ≡ unmarshal_fields w (switch fs) m b
  unmarshal_with-switch fs m b h =
      unmarshal_with-fields w (cases w fs) (switch fs)
        (λ m num typ b. cases-Follows fs m num typ b h) (λ m b e. cases_idle fs m b e h) m b

  field-ne-stuck :
      IsWire w
      → (f : Field M) (m : M) (typ : ℕ) (b : List ℕ) → IsCase f
      → take_field f m typ b ≢ err stuck
  field-ne-stuck wire (varint_field n f) m typ b h = varint_into-ne-stuck w (f m) b
  field-ne-stuck wire (fixed32_field n f) m typ b h = read-ne-stuck (f m) (w.consume_fixed32 b)
  field-ne-stuck wire (fixed64_field n f) m typ b h = read-ne-stuck (f m) (w.consume_fixed64 b)
  field-ne-stuck wire (bytes_field n f) m typ b h = bytes_into-ne-stuck w (f m) b
  field-ne-stuck wire (packed_field n held f) m typ b h =
      packed_into-ne-stuck w wire (held m) (f m) typ b
  field-ne-stuck wire (message_field n f) m typ b h =
      message_into-ne-stuck w f (λ change. change m) b h.3

  switch-ne-stuck :
      IsWire w
      → (fs : List (Field M)) (m : M) (num typ : ℕ) (b : List ℕ) → All IsCase fs
      → switch fs m num typ b ≢ err stuck
  switch-ne-stuck wire [] m num typ b h = skip_field-ne-stuck w m num typ b
  switch-ne-stuck wire (f ∷ fs) m num typ b h =
      if-ne-stuck (num == number f) _ _ (field-ne-stuck wire f m typ b h.0)
        (switch-ne-stuck wire fs m num typ b h.1)

  pub unmarshal_with-ne-stuck :
      IsWire w
      → (fs : List (Field M)) (m : M) (b : List ℕ) → All IsCase fs
      → unmarshal_with w (cases w fs) m b ≢ err stuck
  unmarshal_with-ne-stuck wire fs m b h = λ e.
      unmarshal-ne-stuck w wire (switch fs) (λ m num typ b. switch-ne-stuck wire fs m num typ b h) m
        b (sym (unmarshal_with-switch fs m b h) ∙ e)

module _ (w : Protowire) {M S : Type 0} (unmarshal : List ℕ → Result WireError S) where
  decoded :
      (r : Result WireError S) (set : S → M → M) (m : M) (n : ℕ)
      → ◌≡◌ {A = Result WireError (M × ℕ)}
          (do change ← (do s ← r; ok (set s)); ok (change m, n))
          (do s ← r; ok (set s m, n))
  decoded (Common.ok s) set m n = refl
  decoded (Common.err e) set m n = refl

  -- A nested message is decoded, and then set.
  pub nested-message_into :
      (set : S → M → M) (m : M) (b : List ℕ)
      → message_into w (λ v. do s ← unmarshal v; ok (set s)) (λ change. change m) b
        ≡ message_into w unmarshal (λ s. set s m) b
  nested-message_into set m b =
      >>=-Cong (checked (w.consume_bytes b)) _ _ λ (v, n) e. decoded (unmarshal v) set m n

  pub nested-IsCase :
      (n : ℕ) (set : S → M → M) (nil : S)
      → 0 < n
      → unmarshal [] ≡ ok nil
      → ((v : List ℕ) → unmarshal v ≢ err stuck)
      → IsCase w (message_field n (λ v. do s ← unmarshal v; ok (set s)))
  nested-IsCase n set nil positive empty total =
      (positive, set nil, rw empty refl, λ v. >>=-ne-err (unmarshal v) _ (total v) λ s e. λ h. cc)
