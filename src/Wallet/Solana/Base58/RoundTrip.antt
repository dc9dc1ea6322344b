-- ===== src/Wallet/Solana/Base58/RoundTrip.antt =====
-- The decoding of what base58.go encodes.
use portfolio_itmo.Common.{
  ℕ, zero, suc, ◌+◌, ◌*◌, ◌/◌, ◌^◌, ◌<◌, ◌≤◌, Bool, true, false, List, [], ◌∷◌, ◌++◌, Option, none,
  some, map, length, length-map, All, All-append, Result, ok, err, ◌==◌, ==_iff, Bool-cases, ◌≡◌,
  refl, sym, ap, ◌∙◌, arith, if◌then◌else◌, ◌⊎◌, inl, inr,
}
use portfolio_itmo.Common
use mathlib.Core.List.{reverse, reverse-reverse, map-append}
use portfolio_itmo.Wallet.Solana.{Address}
use portfolio_itmo.Wallet.Solana.Base58.{
  letter, leading, replicate, without_leading, written, carry_loop, digits_loop, chars_loop,
  base58_encode, base58_decode, invalid_char, index_below_zero,
}
use portfolio_itmo.Wallet.Solana.Base58.Carry.{
  value, number, value-zeros, digits_loop-number, IsBuffer-All,
}
use portfolio_itmo.Wallet.Solana.Base58.Digits.{
  number-reverse, number-without_leading, number-zeros, without_leading-value, replicate-leading,
  leading-replicate, All-reverse, All-written,
}
use portfolio_itmo.Wallet.Solana.Base58.Sizes.{size-fits, encode-fits, decode-fits, number-lt}
use portfolio_itmo.Wallet.Solana.Base58.Alphabet.{index_of-letter, letter-ne-zero}

zeros : (n : ℕ) → All (λ d. d ≡ 0) (replicate n 0)
unfolding replicate
zeros zero = tt
zeros (suc n) = (refl, zeros n)

length-replicate : (n x : ℕ) → length (replicate n x) ≡ n
unfolding replicate
length-replicate zero x = refl
length-replicate (suc n) x = ap suc (length-replicate n x)

map-replicate : (n d : ℕ) → map letter (replicate n d) ≡ replicate n (letter d)
unfolding replicate
map-replicate zero d = refl
map-replicate (suc n) d = ap (λ l. letter d ∷ l) (map-replicate n d)

-- The digits in base `n` of a number in base `k`, in a buffer of the size that is given.
abbrev IsConverted : ℕ → ℕ → List ℕ → ℕ → List ℕ → Type 0
IsConverted k n xs size out =
    (digits_loop k n xs (replicate size 0, 0) ≡ some out)
    × (value n out ≡ number k 0 xs)
    × All (λ d. d < n) out

converted :
    (k n p q : ℕ) (xs : List ℕ)
    → 1 < n
    → 0 < k
    → 0 < q
    → k ^ q ≤ n ^ p
    → All (λ d. d < k) xs
    → (out : List ℕ) × IsConverted k n xs (length xs * p / q + 1) out
converted k n p q xs base pos some_digits fits h =
    let size = length xs * p / q + 1 in
    let buf = replicate size 0 in
    let nothing : value n buf ≡ 0 = value-zeros n buf (zeros size) in
    let small = number-lt k 0 xs h in
    let room : k ^ length xs ≤ n ^ size =
      size-fits k n p q (length xs) (omega arith) some_digits fits in
    let (out, e, v, l, set, b) =
      digits_loop-number k n base xs buf 0 pos (zeros size)
        (rw (nothing, length-replicate size 0) (omega arith)) in
    (out, (e, v ∙ ap (λ a. number k a xs) nothing, IsBuffer-All n set out base b))

letter-test : (d : ℕ) → d < 58 → (letter d == letter 0) ≡ (d == 0)
letter-test d small = elim (Bool-cases (d == 0)) [
  | inl is_zero ↦
      (==_iff (letter d) (letter 0)).1 (ap letter ((==_iff d 0).0 is_zero)) ∙ sym is_zero
  | inr is_more ↦ elim (Bool-cases (letter d == letter 0)) [
    | inl is_same ↦
        let z = letter-ne-zero d small ((==_iff (letter d) (letter 0)).0 is_same) in
        is_same ∙ sym ((==_iff d 0).1 z)
    | inr is_other ↦ is_other ∙ sym is_more
  ]
]

leading-map :
    (ds : List ℕ) → All (λ d. d < 58) ds → leading (letter 0) (map letter ds) ≡ leading 0 ds
unfolding leading
leading-map [] h = refl
leading-map (d ∷ ds) h =
    ap (λ t. if t then suc (leading (letter 0) (map letter ds)) else 0) (letter-test d h.0)
    ∙ ap (λ n. if (d == 0) then suc n else 0) (leading-map ds h.1)

chars_loop-map :
    (ds : List ℕ) (next : List ℕ × ℕ) (out : List ℕ)
    → All (λ d. d < 58) ds
    → digits_loop 58 256 ds next ≡ some out
    → chars_loop (map letter ds) next ≡ ok out
unfolding chars_loop digits_loop
chars_loop-map [] (buf, used) out h e = let same_buf : buf ≡ out = cc in ap (λ b. ok b) same_buf
chars_loop-map (d ∷ ds) (buf, used) out h e =
    ap
      (λ o. elim o [
        | none ↦ err (invalid_char (letter d))
        | some x ↦ elim (carry_loop 58 256 used x buf) [
          | none ↦ err index_below_zero
          | some next ↦ chars_loop (map letter ds) next
        ]
      ])
      (index_of-letter d h.0)
    ∙ after (carry_loop 58 256 used d buf) (λ next. chars_loop-map ds next out h.1) e
  where
    after :
        (o : Option (List ℕ × ℕ))
        → ((next : List ℕ × ℕ)
            → digits_loop 58 256 ds next ≡ some out
            → chars_loop (map letter ds) next ≡ ok out)
        → elim o [ none ↦ none | some next ↦ digits_loop 58 256 ds next ] ≡ some out
        → elim o [ none ↦ err index_below_zero | some next ↦ chars_loop (map letter ds) next ]
          ≡ ok out
    after none later e = absurd cc
    after (some next) later e = later next e

-- The text of digits below 58 is decoded to their number.
decode-map :
    (ds : List ℕ)
    → All (λ d. d < 58) ds
    → (buf : List ℕ) × (base58_decode (map letter ds)
        ≡ ok (replicate (leading 0 ds) 0 ++ written buf))
      × (value 256 buf ≡ number 58 0 ds)
      × All (λ d. d < 256) buf
unfolding base58_decode value number leading replicate
decode-map [] h = ([], refl, refl, tt)
decode-map (d ∷ ds) h =
    let (buf, (e, v, b)) =
      converted 58 256 733 1000 (d ∷ ds) (omega arith) (omega arith) (omega arith) decode-fits h in
    let s = map letter (d ∷ ds) in
    let size : ℕ → ℕ = λ n. n * 733 / 1000 + 1 in
    let same_size = ap (λ n. chars_loop s (replicate (size n) 0, 0)) (length-map (d ∷ ds) letter) in
    let read =
      same_size ∙ chars_loop-map (d ∷ ds) (replicate (size (length (d ∷ ds))) 0, 0) buf h e in
    (
      buf,
      finish s buf read ∙ ap (λ z. ok (replicate z 0 ++ written buf)) (leading-map (d ∷ ds) h),
      v,
      b,
    )
  where
    finish :
        (s buf : List ℕ)
        → chars_loop s (replicate (length s * 733 / 1000 + 1) 0, 0) ≡ ok buf
        → elim (chars_loop s (replicate (length s * 733 / 1000 + 1) 0, 0)) [
          | Common.err e ↦ err e
          | Common.ok buf ↦ ok (replicate (leading (letter 0) s) 0 ++ written buf)
        ]
          ≡ ok (replicate (leading (letter 0) s) 0 ++ written buf)
    finish s buf h = rw h refl

-- The digits that `Base58Encode` writes for `b`, for the buffer that it fills.
abbrev digits_of : List ℕ → List ℕ → List ℕ
digits_of b out = replicate (leading 0 b) 0 ++ written out

encode-digits_of :
    (b : List ℕ)
    → All (λ x. x < 256) b
    → (out : List ℕ) × (base58_encode b ≡ some (map letter (digits_of b out)))
      × (value 58 out ≡ number 256 0 b)
      × All (λ d. d < 58) out
unfolding base58_encode leading replicate without_leading value number
encode-digits_of [] h = ([], refl, refl, tt)
encode-digits_of (x ∷ xs) h =
    let b = x ∷ xs in
    let (out, (e, v, d)) =
      converted 256 58 138 100 b (omega arith) (omega arith) (omega arith) encode-fits h in
    let text =
      map-append letter (replicate (leading 0 b) 0) (written out)
      ∙ ap (λ l. l ++ map letter (written out)) (map-replicate (leading 0 b) 0) in
    (
      out,
      ap
            (λ o. elim o [
              | none ↦ none
              | some buf ↦ some (replicate (leading 0 b) (letter 0) ++ map letter (written buf))
            ])
            e
          ∙ ap some (sym text),
      v,
      d,
    )

written-eq :
    (b out buf : List ℕ)
    → All (λ x. x < 256) b
    → All (λ x. x < 256) buf
    → value 58 out ≡ number 256 0 b
    → value 256 buf ≡ number 58 0 (digits_of b out)
    → written buf ≡ without_leading 0 b
written-eq b out buf hb hbuf v w =
    let digits : number 58 0 (digits_of b out) ≡ number 256 0 b =
      number-zeros 58 (leading 0 b) (written out)
      ∙ (number-without_leading 58 (reverse out) ∙ (number-reverse 58 out ∙ v)) in
    let bytes : value 256 (reverse b) ≡ number 256 0 b =
      sym (number-reverse 256 (reverse b)) ∙ ap (λ l. number 256 0 l) (reverse-reverse b) in
    without_leading-value 256 buf (reverse b) hbuf (All-reverse 256 b hb) (w ∙ (digits ∙ sym bytes))
    ∙ ap (λ l. without_leading 0 l) (reverse-reverse b)

-- Bytes are encoded to a text, since the buffer has room for their digits, and the text is decoded to
-- the bytes.
pub base58_decode-base58_encode :
    (b : List ℕ)
    → All (λ x. x < 256) b
    → (s : Address) × (base58_encode b ≡ some s) × (base58_decode s ≡ ok b)
base58_decode-base58_encode b h =
    let (out, e, v, d) = encode-digits_of b h in
    let ds = digits_of b out in
    let (buf, e', w, d') = decode-map ds (All-written 58 (leading 0 b) out (omega arith) d) in
    let same_zeros : leading 0 ds ≡ leading 0 b = leading-replicate (leading 0 b) (reverse out) in
    (
      map letter ds,
      e,
      e'
          ∙ ap (λ l. ok l)
              (ap (λ z. replicate z 0 ++ written buf) same_zeros
                ∙ (ap (λ l. replicate (leading 0 b) 0 ++ l) (written-eq b out buf h d' v w)
                    ∙ replicate-leading b)),
    )
