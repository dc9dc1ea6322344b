-- ===== src/Common/Wire/Loop.antt =====
-- The loop over the fields of a message that every `UnmarshalMPC` and `UnmarshalMsg` repeats.
use portfolio_itmo.Common.Tests.{if◌then◌else◌}
use portfolio_itmo.Common.Lists.{length, drop, drop-append, length-append, length-drop}
use portfolio_itmo.Common.Results.{Result, ◌>>=◌, >>=-Cong, >>=-ne-err}
use portfolio_itmo.Common.Results
use portfolio_itmo.Common.Wire.{
  WireError, stuck, checked, checked-ok, checked-ne-stuck, Protowire, IsWire,
}
use Prim.Native.Nat.{ℕ, zero, suc, ◌^◌, ◌≤◌, ◌<◌}
use mathlib.Core.Path.{◌≡◌, refl, ◌∙◌}
use mathlib.Core.Logic.{◌≢◌}
use mathlib.Core.Bool.{Bool, true, false}
use mathlib.Core.List.{List, [], ◌∷◌, ◌++◌}
use native.Mathlib.Omega.{arith}

-- What the `switch` does with a field of this number and type: the message after it, and the number
-- of bytes that the value took.
abbrev pub Switch : Type 0 → Type 0
Switch M = M → ℕ → ℕ → List ℕ → Result WireError (M × ℕ)

module _ (w : Protowire) {M : Type 0} where
  abbrev pub bytes_into : (List ℕ → M) → List ℕ → Result WireError (M × ℕ)
  bytes_into f b = do (v, n) ← checked (w.consume_bytes b); Results.ok (f v, n)

  abbrev pub varint_into : (ℕ → M) → List ℕ → Result WireError (M × ℕ)
  varint_into f b = do (v, n) ← checked (w.consume_varint b); Results.ok (f v, n)

  -- A value that holds a message.
  abbrev pub message_into :
      {S : Type 0} → (List ℕ → Result WireError S) → (S → M) → List ℕ → Result WireError (M × ℕ)
  message_into unmarshal f b = do
    (v, n) ← checked (w.consume_bytes b)
    s ← unmarshal v
    Results.ok (f s, n)

  abbrev pub skip_field : M → ℕ → ℕ → List ℕ → Result WireError (M × ℕ)
  skip_field m num typ b = do n ← checked (w.consume_field_value num typ b); Results.ok (m, n)

  unfoldable pub fields : Switch M → ℕ → M → List ℕ → Result WireError M
  fields switch fuel m [] = Results.ok m
  fields switch zero m (x ∷ b) = Results.err stuck
  fields switch (suc fuel) m (x ∷ b) = do
    ((num, typ), n) ← checked (w.consume_tag (x ∷ b))
    (m', k) ← switch m num typ (drop n (x ∷ b))
    fields switch fuel m' (drop k (drop n (x ∷ b)))

  -- A round takes a byte at least.
  unfoldable pub unmarshal_fields : Switch M → M → List ℕ → Result WireError M
  unfolding fields
  unmarshal_fields switch m b = fields switch (length b) m b

pub if-ne-stuck :
    {A : Type 0} (test : Bool) (a b : Result WireError A)
    → a ≢ Results.err stuck
    → b ≢ Results.err stuck
    → (if test then a else b) ≢ Results.err stuck
if-ne-stuck true a b h k = h
if-ne-stuck false a b h k = k

module _ (w : Protowire) {M : Type 0} where
  pub bytes_into-ne-stuck : (f : List ℕ → M) (b : List ℕ) → bytes_into w f b ≢ Results.err stuck
  bytes_into-ne-stuck f b =
      >>=-ne-err (checked (w.consume_bytes b)) _ (checked-ne-stuck (w.consume_bytes b))
        λ a e. λ h. cc

  pub varint_into-ne-stuck : (f : ℕ → M) (b : List ℕ) → varint_into w f b ≢ Results.err stuck
  varint_into-ne-stuck f b =
      >>=-ne-err (checked (w.consume_varint b)) _ (checked-ne-stuck (w.consume_varint b))
        λ a e. λ h. cc

  pub message_into-ne-stuck :
      {S : Type 0} (unmarshal : List ℕ → Result WireError S) (f : S → M) (b : List ℕ)
      → ((v : List ℕ) → unmarshal v ≢ Results.err stuck)
      → message_into w unmarshal f b ≢ Results.err stuck
  message_into-ne-stuck unmarshal f b total =
      >>=-ne-err (checked (w.consume_bytes b)) _ (checked-ne-stuck (w.consume_bytes b))
        λ (v, n) e. >>=-ne-err (unmarshal v) _ (total v) λ s k. λ h. cc

  pub skip_field-ne-stuck :
      (m : M) (num typ : ℕ) (b : List ℕ) → skip_field w m num typ b ≢ Results.err stuck
  skip_field-ne-stuck m num typ b =
      >>=-ne-err (checked (w.consume_field_value num typ b)) _
        (checked-ne-stuck (w.consume_field_value num typ b)) λ a e. λ h. cc

module _ (w : Protowire) (wire : IsWire w) {M : Type 0} (switch : Switch M) where
  shorter : (n k : ℕ) (x : ℕ) (b : List ℕ) → 0 < n → length (drop k (drop n (x ∷ b))) ≤ length b
  shorter n k x b h = omega (arith, length-drop k (drop n (x ∷ b)), length-drop n (x ∷ b))

  -- More fuel than bytes changes nothing.
  fields-fuel :
      (f g : ℕ) (m : M) (b : List ℕ)
      → length b ≤ f
      → length b ≤ g
      → fields w switch f m b ≡ fields w switch g m b
  unfolding fields
  fields-fuel f g m [] hf hg = refl
  fields-fuel zero g m (x ∷ b) hf hg = absurd (omega arith)
  fields-fuel (suc f) zero m (x ∷ b) hf hg = absurd (omega arith)
  fields-fuel (suc f) (suc g) m (x ∷ b) hf hg =
      >>=-Cong (checked (w.consume_tag (x ∷ b))) _ _ λ ((num, typ), n) e.
        let some = wire.tag_has_bytes (x ∷ b) (checked-ok (w.consume_tag (x ∷ b)) e) in
        let less = λ (k : ℕ). shorter n k x b some in
        >>=-Cong (switch m num typ (drop n (x ∷ b))) _ _ λ (m', k) e'.
          fields-fuel f g m' (drop k (drop n (x ∷ b))) (omega (arith, less k))
            (omega (arith, less k))

  fields-step :
      (fuel num typ n k : ℕ) (m : M) (b : List ℕ) {m' : M}
      → length b ≤ fuel
      → 0 < length b
      → w.consume_tag b ≡ Results.ok ((num, typ), n)
      → switch m num typ (drop n b) ≡ Results.ok (m', k)
      → fields w switch fuel m b ≡ unmarshal_fields w switch m' (drop k (drop n b))
  unfolding unmarshal_fields fields
  fields-step fuel num typ n k m [] h some tag value = absurd (omega arith)
  fields-step zero num typ n k m (x ∷ b) h some tag value = absurd (omega arith)
  fields-step (suc fuel) num typ n k m (x ∷ b) {m'} h some tag value =
      let less = shorter n k x b (wire.tag_has_bytes (x ∷ b) tag) in
      rw (tag, value)
        (fields-fuel fuel (length (drop k (drop n (x ∷ b)))) m' (drop k (drop n (x ∷ b)))
          (omega (arith, less)) (omega arith))

  -- A field at the front of the bytes.
  pub unmarshal-field :
      (m : M) (num typ : ℕ) (payload rest : List ℕ) {m' : M}
      → 0 < num
      → num < 2 ^ 29
      → typ < 6
      → switch m num typ (payload ++ rest) ≡ Results.ok (m', length payload)
      → unmarshal_fields w switch m (w.append_tag [] num typ ++ (payload ++ rest))
        ≡ unmarshal_fields w switch m' rest
  unfolding unmarshal_fields fields
  unmarshal-field m num typ payload rest {m'} low high known taken =
      let tag = w.append_tag [] num typ in
      let found = wire.tag_consumed num typ (payload ++ rest) low high known in
      let cut : drop (length tag) (tag ++ (payload ++ rest)) ≡ payload ++ rest =
        drop-append tag (payload ++ rest) in
      fields-step _ num typ (length tag) (length payload) m (tag ++ (payload ++ rest)) {m' = m'}
        (omega arith)
        (omega (arith, wire.tag_has_bytes _ found, length-append tag (payload ++ rest))) found
        (rw cut taken)
      ∙ rw (cut, drop-append payload rest)

  fields-ne-stuck :
      ((m : M) (num typ : ℕ) (b : List ℕ) → switch m num typ b ≢ Results.err stuck)
      → (fuel : ℕ) (m : M) (b : List ℕ) → length b ≤ fuel
      → fields w switch fuel m b ≢ Results.err stuck
  unfolding fields
  fields-ne-stuck total fuel m [] h = λ e. cc
  fields-ne-stuck total zero m (x ∷ b) h = absurd (omega arith)
  fields-ne-stuck total (suc fuel) m (x ∷ b) h =
      >>=-ne-err (checked (w.consume_tag (x ∷ b))) _ (checked-ne-stuck (w.consume_tag (x ∷ b)))
        λ ((num, typ), n) e.
          let some = wire.tag_has_bytes (x ∷ b) (checked-ok (w.consume_tag (x ∷ b)) e) in
          >>=-ne-err (switch m num typ (drop n (x ∷ b))) _ (total m num typ (drop n (x ∷ b)))
            λ (m', k) e'.
              fields-ne-stuck total fuel m' (drop k (drop n (x ∷ b)))
                (omega (arith, shorter n k x b some))

  pub unmarshal-nil : (m : M) → unmarshal_fields w switch m [] ≡ Results.ok m
  unfolding unmarshal_fields
  unmarshal-nil m = refl

  -- The loop ends on all bytes where the values of the fields do.
  pub unmarshal-ne-stuck :
      ((m : M) (num typ : ℕ) (b : List ℕ) → switch m num typ b ≢ Results.err stuck)
      → (m : M) (b : List ℕ) → unmarshal_fields w switch m b ≢ Results.err stuck
  unfolding unmarshal_fields
  unmarshal-ne-stuck total m b = fields-ne-stuck total (length b) m b (omega arith)
