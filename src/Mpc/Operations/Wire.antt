-- ===== src/Mpc/Operations/Wire.antt =====
-- The byte pairs that parties exchange: what `encode_pair` writes `decode_pair` reads back, and it
-- accepts nothing else.
use portfolio_itmo.Common.{
  ℕ, ◌+◌, ◌^◌, ◌<◌, ◌≤◌, ◌≡◌, refl, sym, ap, ◌∙◌, arith, List, [], ◌∷◌, ◌++◌, length, drop, slice,
  All, All-slice, length-slice, length-append, slice-middle, slice-append-drop, ok,
}
use portfolio_itmo.Mpc.Operations.{put_uint32, uint32, encode_pair, decode_pair}
use mathlib.Core.List.{append_assoc}
use mathlib.Core.Path.{ap₂}

length-put_uint32 : (n : ℕ) → length (put_uint32 n) ≡ 4
unfolding put_uint32
length-put_uint32 n = refl

pub uint32-put_uint32 : (n : ℕ) → n < 2 ^ 32 → uint32 (put_uint32 n) ≡ n
unfolding put_uint32 uint32
uint32-put_uint32 n h = omega arith

abbrev payload : List ℕ → List ℕ → List ℕ → List ℕ
payload a b rest = put_uint32 (length a) ++ (a ++ (put_uint32 (length b) ++ (b ++ rest)))

payload-lem : (a b rest : List ℕ) → encode_pair a b ++ rest ≡ payload a b rest
unfolding encode_pair
payload-lem a b rest = simp append_assoc

-- The parts of a payload.
module _ (a b rest : List ℕ) where
  first_header : slice (payload a b rest) 0 4 ≡ put_uint32 (length a)
  first_header =
      slice-middle [] (put_uint32 (length a)) _ 0 4 refl
        (ap (λ k. 0 + k) (length-put_uint32 (length a)))

  first_field : slice (payload a b rest) 4 (4 + length a) ≡ a
  first_field = slice-middle (put_uint32 (length a)) a _ 4 _ (length-put_uint32 (length a)) refl

  regrouped :
      payload a b rest ≡ (put_uint32 (length a) ++ a) ++ (put_uint32 (length b) ++ (b ++ rest))
  regrouped = sym (append_assoc (put_uint32 (length a)) a (put_uint32 (length b) ++ (b ++ rest)))

  up_to_second : length (put_uint32 (length a) ++ a) ≡ 4 + length a
  up_to_second = omega (arith, length-append {0}, length-put_uint32)

  second_header : slice (payload a b rest) (4 + length a) (4 + length a + 4) ≡ put_uint32 (length b)
  second_header = rw regrouped (
      slice-middle (put_uint32 (length a) ++ a) (put_uint32 (length b)) (b ++ rest) _ _ up_to_second
        (omega (arith, length-put_uint32)))

  second_field : slice (payload a b rest) (4 + length a + 4) (4 + length a + 4 + length b) ≡ b
  second_field =
      rw
        (regrouped, ← append_assoc (put_uint32 (length a) ++ a) (put_uint32 (length b)) (b ++ rest))
        (slice-middle ((put_uint32 (length a) ++ a) ++ put_uint32 (length b)) b rest _ _
          (omega (arith, length-append {0}, length-put_uint32)) refl)

  length-payload : length (payload a b rest) ≡ 4 + length a + 4 + length b + length rest
  length-payload = omega (arith, length-append {0}, length-put_uint32)

-- What `decode_pair` returns where no test of it fails, for the two lengths that it reads.
decode_pair-eq_ok :
    (raw : List ℕ) (la lb : ℕ)
    → uint32 (slice raw 0 4) ≡ la
    → uint32 (slice raw (4 + la) (4 + la + 4)) ≡ lb
    → 4 + la + 4 + lb ≤ length raw
    → decode_pair raw ≡ ok (slice raw 4 (4 + la), slice raw (4 + la + 4) (4 + la + 4 + lb))
unfolding decode_pair
decode_pair-eq_ok raw la lb e1 e2 h = ground arith

-- Two byte strings shorter than 2^32 are read back from what `encode_pair` makes of them,
-- whatever follows it.
pub decode_pair-encode_pair :
    (a b rest : List ℕ)
    → length a < 2 ^ 32
    → length b < 2 ^ 32
    → decode_pair (encode_pair a b ++ rest) ≡ ok (a, b)
decode_pair-encode_pair a b rest ha hb = rw (payload-lem a b rest) (
    decode_pair-eq_ok (payload a b rest) (length a) (length b)
      (rw (first_header a b rest) (uint32-put_uint32 (length a) ha))
      (rw (second_header a b rest) (uint32-put_uint32 (length b) hb))
      (omega (arith, length-payload a b rest))
    ∙ rw (first_field a b rest, second_field a b rest))

decode_pair_inversion :
    (raw : List ℕ) {a b : List ℕ}
    → decode_pair raw ≡ ok (a, b)
    → let la = uint32 (slice raw 0 4) in
      let lb = uint32 (slice raw (4 + la) (4 + la + 4)) in
      (4 + la + 4 + lb ≤ length raw)
      × (slice raw 4 (4 + la) ≡ a)
      × (slice raw (4 + la + 4) (4 + la + 4 + lb) ≡ b)
unfolding decode_pair
decode_pair_inversion raw h = ground arith

put_uint32-uint32 :
    (bs : List ℕ) → All (λ b. b < 256) bs → length bs ≡ 4 → put_uint32 (uint32 bs) ≡ bs
unfolding put_uint32 uint32
put_uint32-uint32 [] h e = absurd (omega arith)
put_uint32-uint32 (a ∷ []) h e = absurd (omega arith)
put_uint32-uint32 (a ∷ b ∷ []) h e = absurd (omega arith)
put_uint32-uint32 (a ∷ b ∷ c ∷ []) h e = absurd (omega arith)
put_uint32-uint32 (a ∷ b ∷ c ∷ d ∷ []) h e = ground arith
put_uint32-uint32 (a ∷ b ∷ c ∷ d ∷ x ∷ bs) h e = absurd (omega arith)

-- Any string of bytes that `decode_pair` accepts begins with the encoding of what it returns.
pub encode_pair-decode_pair :
    (raw : List ℕ) {a b : List ℕ}
    → All (λ b. b < 256) raw
    → decode_pair raw ≡ ok (a, b)
    → (rest : List ℕ) × (encode_pair a b ++ rest ≡ raw)
encode_pair-decode_pair raw {a} {b} bytes h =
    (drop (4 + la + 4 + lb) raw, payload-lem a b _ ∙ rw (← read.1, ← read.2) whole)
  where
    la : ℕ
    la = uint32 (slice raw 0 4)

    lb : ℕ
    lb = uint32 (slice raw (4 + la) (4 + la + 4))

    read :
        (4 + la + 4 + lb ≤ length raw)
        × (slice raw 4 (4 + la) ≡ a)
        × (slice raw (4 + la + 4) (4 + la + 4 + lb) ≡ b)
    read = decode_pair_inversion raw h

    header :
        (i : ℕ)
        → i + 4 ≤ length raw
        → put_uint32 (uint32 (slice raw i (i + 4))) ≡ slice raw i (i + 4)
    header i fits =
        put_uint32-uint32 _ (All-slice _ raw i (i + 4) bytes)
          (length-slice raw i (i + 4) fits (omega arith) ∙ omega arith)

    length_a : length (slice raw 4 (4 + la)) ≡ la
    length_a = length-slice raw 4 (4 + la) (omega (arith, read.0)) (omega arith) ∙ omega arith

    length_b : length (slice raw (4 + la + 4) (4 + la + 4 + lb)) ≡ lb
    length_b = length-slice raw (4 + la + 4) (4 + la + 4 + lb) read.0 (omega arith) ∙ omega arith

    behind : (i j : ℕ) → i ≤ j → drop i raw ≡ slice raw i j ++ drop j raw
    behind i j le = sym (slice-append-drop raw i j le)

    cut :
        raw
        ≡ slice raw 0 4
          ++ (slice raw 4 (4 + la)
              ++ (slice raw (4 + la) (4 + la + 4)
                  ++ (slice raw (4 + la + 4) (4 + la + 4 + lb) ++ drop (4 + la + 4 + lb) raw)))
    cut =
        behind 0 4 (omega arith)
        ∙ ap (λ t. slice raw 0 4 ++ t)
            (behind 4 (4 + la) (omega arith)
              ∙ ap (λ t. slice raw 4 (4 + la) ++ t)
                  (behind (4 + la) (4 + la + 4) (omega arith)
                    ∙ ap (λ t. slice raw (4 + la) (4 + la + 4) ++ t)
                        (behind (4 + la + 4) (4 + la + 4 + lb) (omega arith))))

    whole :
        payload
          (slice raw 4 (4 + la))
          (slice raw (4 + la + 4) (4 + la + 4 + lb))
          (drop (4 + la + 4 + lb) raw)
        ≡ raw
    whole =
        ap₂
          (λ k l.
            put_uint32 k
            ++ (slice raw 4 (4 + la)
                ++ (put_uint32 l
                    ++ (slice raw (4 + la + 4) (4 + la + 4 + lb) ++ drop (4 + la + 4 + lb) raw))))
          length_a length_b
        ∙ ap₂
            (λ u w.
              u
              ++ (slice raw 4 (4 + la)
                  ++ (w
                      ++ (slice raw (4 + la + 4) (4 + la + 4 + lb) ++ drop (4 + la + 4 + lb) raw))))
            (header 0 (omega (arith, read.0))) (header (4 + la) (omega (arith, read.0)))
        ∙ sym cut
