-- ===== src/Wallet/Solana/Swap/Bytes.antt =====
-- Numbers in little-endian bytes, as the data of a swap hold them.
use portfolio_itmo.Common.{
  ℕ, zero, suc, ◌+◌, ◌-◌, ◌*◌, ◌/◌, ◌%◌, ◌^◌, ◌<◌, ◌≤◌, List, [], ◌∷◌, ◌++◌, length, length-append,
  slice, slice-middle, ◌≡◌, refl, sym, ap, ◌∙◌, arith,
}
use mathlib.Core.List.{append_assoc}
use native.Mathlib.Nat.{pow-zero, pow-succ'}
use portfolio_itmo.Common.Equality.{nat_eq}
use portfolio_itmo.Wallet.Solana.{le_uint, byte_at}

-- `n` bytes, the lowest first.
unfoldable pub le_bytes : ℕ → ℕ → List ℕ
le_bytes zero v = []
le_bytes (suc n) v = v % 256 ∷ le_bytes n (v / 256)

le_uint-le_bytes : (n v : ℕ) → v < 256 ^ n → le_uint (le_bytes n v) ≡ v
unfolding le_bytes
le_uint-le_bytes zero v fits = omega (arith, pow-zero 256)
le_uint-le_bytes (suc n) v fits =
    let room : v < 256 * 256 ^ n = rw (← pow-succ' 256 n) fits in
    omega (arith, le_uint-le_bytes n (v / 256) (omega arith))

length-le_bytes : (n v : ℕ) → length (le_bytes n v) ≡ n
unfolding le_bytes
length-le_bytes zero v = refl
length-le_bytes (suc n) v = ap suc (length-le_bytes n (v / 256))

-- Two numbers of eight bytes that follow `k` bytes.
abbrev pub Holds : List ℕ → ℕ → ℕ → ℕ → Type 0
Holds b k a m =
    (le_uint (slice b k (k + 8)) ≡ a)
    × (le_uint (slice b (k + 8) (k + 16)) ≡ m)
    × (k + 16 ≤ length b)

number_at :
    (before rest : List ℕ) (n k j v : ℕ)
    → length before ≡ k
    → k + n ≡ j
    → v < 256 ^ n
    → le_uint (slice (before ++ (le_bytes n v ++ rest)) k j) ≡ v
number_at before rest n k j v size e fits =
    ap le_uint
      (slice-middle before (le_bytes n v) rest k j size (ap (λ l. k + l) (length-le_bytes n v) ∙ e))
    ∙ le_uint-le_bytes n v fits

pub numbers-Holds :
    (before rest : List ℕ) (k a m : ℕ)
    → length before ≡ k
    → a < 2 ^ 64
    → m < 2 ^ 64
    → Holds (before ++ (le_bytes 8 a ++ (le_bytes 8 m ++ rest))) k a m
numbers-Holds before rest k a m size fa fm =
    let first = le_bytes 8 a in
    let second = le_bytes 8 m in
    let regroup = append_assoc before first (second ++ rest) in
    let longer =
      length-append before first
      ∙ (ap (λ n. n + length first) size ∙ ap (λ n. k + n) (length-le_bytes 8 a)) in
    (
      number_at before (second ++ rest) 8 k (k + 8) a size refl fa,
      ap (λ b. le_uint (slice b (k + 8) (k + 16))) (sym regroup)
          ∙ number_at (before ++ first) rest 8 (k + 8) (k + 16) m longer (omega arith) fm,
      omega (
        arith,
        size,
        length-append before (first ++ (second ++ rest)),
        length-append first (second ++ rest),
        length-append second rest,
        length-le_bytes 8 a,
        length-le_bytes 8 m,
      ),
    )

-- A number of two bytes behind two of eight.
pub third-Holds :
    (before rest : List ℕ) (k a m c : ℕ)
    → length before ≡ k
    → c < 2 ^ 16
    → (le_uint (
          slice
            (before ++ (le_bytes 8 a ++ (le_bytes 8 m ++ (le_bytes 2 c ++ rest))))
            (k + 16)
            (k + 18))
        ≡ c)
      × (k + 18 ≤ length (before ++ (le_bytes 8 a ++ (le_bytes 8 m ++ (le_bytes 2 c ++ rest)))))
third-Holds before rest k a m c size fits =
    let first = le_bytes 8 a in
    let second = le_bytes 8 m in
    let tail = le_bytes 2 c ++ rest in
    let regroup = append_assoc before first (second ++ tail) in
    let regroup2 = append_assoc (before ++ first) second tail in
    let longer : length ((before ++ first) ++ second) ≡ k + 16 = omega (
      arith,
      size,
      length-append before first,
      length-append (before ++ first) second,
      length-le_bytes 8 a,
      length-le_bytes 8 m,
    ) in
    (
      ap (λ b. le_uint (slice b (k + 16) (k + 18))) (sym regroup ∙ sym regroup2)
          ∙ number_at ((before ++ first) ++ second) rest 2 (k + 16) (k + 18) c longer (omega arith)
              fits,
      omega (
        arith,
        size,
        length-append before (first ++ (second ++ tail)),
        length-append first (second ++ tail),
        length-append second tail,
        length-append (le_bytes 2 c) rest,
        length-le_bytes 8 a,
        length-le_bytes 8 m,
        length-le_bytes 2 c,
      ),
    )

byte_at-append :
    (xs ys : List ℕ) (k j : ℕ) → length xs + k ≡ j → byte_at (xs ++ ys) j ≡ byte_at ys k
byte_at-append [] ys k j e = ap (λ n. byte_at ys n) (omega (arith, e))
byte_at-append (x ∷ xs) ys k zero e = absurd (omega arith)
byte_at-append (x ∷ xs) ys k (suc j) e = byte_at-append xs ys k j (omega arith)

-- The direction is the last byte.
pub direction-Holds :
    (before price : List ℕ) (a m p d : ℕ)
    → length before ≡ 8
    → length price ≡ 16
    → (42 ≤ length (before ++ (le_bytes 8 a ++ (le_bytes 8 m ++ (price ++ (p ∷ d ∷ []))))))
      × (byte_at
            (before ++ (le_bytes 8 a ++ (le_bytes 8 m ++ (price ++ (p ∷ d ∷ [])))))
            (length (before ++ (le_bytes 8 a ++ (le_bytes 8 m ++ (price ++ (p ∷ d ∷ []))))) - 1)
          ≡ d)
direction-Holds before price a m p d e8 e16 =
    let flags = p ∷ d ∷ [] in
    let first = le_bytes 8 a in
    let second = le_bytes 8 m in
    let size : length (before ++ (first ++ (second ++ (price ++ flags)))) ≡ 42 = omega (
      arith,
      e8,
      e16,
      length-append before (first ++ (second ++ (price ++ flags))),
      length-append first (second ++ (price ++ flags)),
      length-append second (price ++ flags),
      length-append price flags,
      length-le_bytes 8 a,
      length-le_bytes 8 m,
    ) in
    let at : byte_at (before ++ (first ++ (second ++ (price ++ flags)))) 41 ≡ d =
      byte_at-append before (first ++ (second ++ (price ++ flags))) 33 41 (omega (arith, e8))
      ∙ (byte_at-append first (second ++ (price ++ flags)) 25 33
            (omega (arith, length-le_bytes 8 a))
          ∙ (byte_at-append second (price ++ flags) 17 25 (omega (arith, length-le_bytes 8 m))
              ∙ byte_at-append price flags 1 17 (omega (arith, e16)))) in
    (
      omega arith,
      ap (λ n. byte_at (before ++ (first ++ (second ++ (price ++ flags)))) n) (omega (arith, size))
          ∙ at,
    )
