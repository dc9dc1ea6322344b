-- ===== src/Wallet/Solana/Reader/Compact.antt =====
-- The numbers of up to three bytes that the reader takes, as a sender writes them.
use portfolio_itmo.Common.{
  ℕ, zero, suc, ◌+◌, ◌*◌, ◌/◌, ◌%◌, ◌^◌, ◌<◌, ◌≤◌, false, List, [], ◌∷◌, ◌++◌, some, length,
  get_elem?, drop, ltb, ◌≡◌, refl, ap, ◌∙◌, arith, if◌then◌else◌,
}
use native.Mathlib.Decide.{dec_lt}
use portfolio_itmo.Wallet.Solana.Reader.{Reader, uint8, compact_loop, compact_u16}

-- Seven bits to a byte, the lowest first, with the high bit where more follow.
unfoldable pub write_compact_u16 : ℕ → List ℕ
write_compact_u16 n =
    if ltb n 128
    then (n ∷ [])
    else if ltb n 16384
    then ((n % 128 + 128) ∷ (n / 128) ∷ [])
    else ((n % 128 + 128) ∷ (n / 128 % 128 + 128) ∷ (n / 16384) ∷ [])

-- The reader has met no error, and these are the bytes before it.
abbrev pub IsBefore : List ℕ → Reader → Type 0
IsBefore rest r = (r.failed ≡ false) × (drop r.pos r.buf ≡ rest)

abbrev pub advance : ℕ → Reader → Reader
advance n r = record r { pos = r.pos + n }

drop-cons :
    (i : ℕ) (xs rest : List ℕ) (x : ℕ)
    → drop i xs ≡ x ∷ rest
    → (get_elem? xs i ≡ some x) × (i < length xs) × (drop (i + 1) xs ≡ rest)
drop-cons zero [] rest x h = absurd cc
drop-cons (suc i) [] rest x h = absurd cc
drop-cons zero (y ∷ xs) rest x h = (cc, omega arith, cc)
drop-cons (suc i) (y ∷ xs) rest x h =
    let (at, small, d) = drop-cons i xs rest x h in
    let next : suc i + 1 ≡ suc (i + 1) = omega arith in
    (at, omega arith, ap (λ n. drop n (y ∷ xs)) next ∙ d)

uint8-IsBefore :
    (x : ℕ) (rest : List ℕ) (r : Reader)
    → IsBefore (x ∷ rest) r
    → (uint8 r ≡ (x, advance 1 r)) × IsBefore rest (advance 1 r)
unfolding uint8
uint8-IsBefore x rest r (f, d) =
    let (at, small, d') = drop-cons r.pos r.buf rest x d in (ground arith, (f, d'))

-- A byte with the high bit, and one without.
more_byte :
    (rounds shift v b : ℕ) (rest : List ℕ) (r : Reader)
    → 128 ≤ b
    → IsBefore (b ∷ rest) r
    → compact_loop (suc rounds) shift v r
      ≡ compact_loop rounds (shift + 7) (v + b % 128 * 2 ^ shift) (advance 1 r)
unfolding compact_loop
more_byte rounds shift v b rest r big h =
    let (e, (f, d)) = uint8-IsBefore b rest r h in rw (e, f) (ground arith)

last_byte :
    (rounds shift v b : ℕ) (rest : List ℕ) (r : Reader)
    → b < 128
    → IsBefore (b ∷ rest) r
    → compact_loop (suc rounds) shift v r ≡ (v + b % 128 * 2 ^ shift, advance 1 r)
unfolding compact_loop
last_byte rounds shift v b rest r small h =
    let (e, (f, d)) = uint8-IsBefore b rest r h in rw (e, f) (ground arith)

advance-add : (i j k : ℕ) (r : Reader) → i + j ≡ k → advance j (advance i r) ≡ advance k r
advance-add i j k r e =
    let position : r.pos + i + j ≡ r.pos + k = omega arith in
    ap (λ p. record r { pos = p }) position

module _ (n : ℕ) (rest : List ℕ) (r : Reader) where
  read_one : n < 128 → IsBefore (n ∷ rest) r → compact_u16 r ≡ (n, advance 1 r)
  unfolding compact_u16
  read_one small h =
      let same_value : 0 + n % 128 * 1 ≡ n = omega arith in
      last_byte 2 0 0 n rest r small h ∙ ap (λ v. (v, advance 1 r)) same_value

  read_two :
      n < 16384 → IsBefore ((n % 128 + 128) ∷ n / 128 ∷ rest) r → compact_u16 r ≡ (n, advance 2 r)
  unfolding compact_u16
  read_two small h =
      let b = n % 128 + 128 in
      let c = n / 128 in
      let (e, h1) = uint8-IsBefore b (c ∷ rest) r h in
      let same_value : 0 + b % 128 * 1 + c % 128 * 128 ≡ n = omega arith in
      more_byte 2 0 0 b (c ∷ rest) r (omega arith) h
      ∙ (last_byte 1 7 (0 + b % 128 * 1) c rest (advance 1 r) (omega arith) h1
          ∙ (ap (λ v. (v, advance 1 (advance 1 r))) same_value
              ∙ ap (λ x. (n, x)) (advance-add 1 1 2 r refl)))

  read_three :
      n < 2 ^ 16
      → IsBefore ((n % 128 + 128) ∷ (n / 128 % 128 + 128) ∷ n / 16384 ∷ rest) r
      → compact_u16 r ≡ (n, advance 3 r)
  unfolding compact_u16
  read_three small h =
      let b = n % 128 + 128 in
      let c = n / 128 % 128 + 128 in
      let d = n / 16384 in
      let (e, h1) = uint8-IsBefore b (c ∷ d ∷ rest) r h in
      let (e', h2) = uint8-IsBefore c (d ∷ rest) (advance 1 r) h1 in
      let same_value : 0 + b % 128 * 1 + c % 128 * 128 + d % 128 * 16384 ≡ n = omega arith in
      let same_reader = advance-add 1 1 2 (advance 1 r) refl ∙ advance-add 1 2 3 r refl in
      more_byte 2 0 0 b (c ∷ d ∷ rest) r (omega arith) h
      ∙ (more_byte 1 7 (0 + b % 128 * 1) c (d ∷ rest) (advance 1 r) (omega arith) h1
          ∙ (last_byte 0 14 (0 + b % 128 * 1 + c % 128 * 128) d rest (advance 1 (advance 1 r))
                (omega arith) h2
              ∙ (ap (λ v. (v, advance 1 (advance 1 (advance 1 r)))) same_value
                  ∙ ap (λ x. (n, x)) same_reader)))

  written_as :
      (bytes : List ℕ)
      → write_compact_u16 n ≡ bytes
      → IsBefore (write_compact_u16 n ++ rest) r
      → (IsBefore (bytes ++ rest) r → compact_u16 r ≡ (n, advance (length bytes) r))
      → compact_u16 r ≡ (n, advance (length (write_compact_u16 n)) r)
  written_as bytes e h read = rw e (read (rw (← e) h))

  -- A number of 16 bits that a sender writes in this form is read as it was, and the reader stands
  -- behind its bytes.
  pub compact_u16-write_compact_u16 :
      n < 2 ^ 16
      → IsBefore (write_compact_u16 n ++ rest) r
      → compact_u16 r ≡ (n, advance (length (write_compact_u16 n)) r)
  unfolding write_compact_u16
  compact_u16-write_compact_u16 fits h = elim (dec_lt n 128) [
    | yes one ↦ written_as (n ∷ []) (ground arith) h (read_one one)
    | no more ↦ elim (dec_lt n 16384) [
      | yes two ↦ written_as ((n % 128 + 128) ∷ n / 128 ∷ []) (ground arith) h (read_two two)
      | no three ↦
          written_as ((n % 128 + 128) ∷ (n / 128 % 128 + 128) ∷ n / 16384 ∷ []) (ground arith) h
            (read_three fits)
    ]
  ]
