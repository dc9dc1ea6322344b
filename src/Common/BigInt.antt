-- ===== src/Common/BigInt.antt =====
-- What the programs use of Go's math/big beside the arithmetic of `Int`: the byte forms, decimal
-- strings and modular inverses. Bytes and characters are numbers below 256.
use portfolio_itmo.Common.Tests.{leb, ◌==◌, if◌then◌else◌}
use portfolio_itmo.Common.Int.{ℤ, pos, negate}
use portfolio_itmo.Common.Lists.{All, length}
use Prim.Native.Nat.{ℕ, zero, suc, ◌+◌, ◌-◌, ◌*◌, ◌/◌, ◌%◌, ◌^◌, ◌≤◌, ◌<◌}
use mathlib.Core.Path.{◌≡◌}
use mathlib.Core.Bool.{◌&&◌, true, false}
use mathlib.Core.Logic.{◌≢◌}
use mathlib.Core.List.{List, [], ◌∷◌}
use mathlib.Core.Option.{Option, none, some}
use mathlib.Core.Option
use native.Mathlib.Nat.{pow-suc}
use native.Mathlib.Omega.{arith}

-- `SetBytes`: the bytes are a number, highest first.
pub set_bytes_from : ℕ → List ℕ → ℕ
set_bytes_from acc [] = acc
set_bytes_from acc (b ∷ bs) = set_bytes_from (acc * 256 + b) bs

unfoldable pub set_bytes : List ℕ → ℕ
unfolding set_bytes_from
set_bytes bs = set_bytes_from 0 bs

-- `Bytes`: the shortest such form. The fuel bounds the number.
bytes_onto : ℕ → ℕ → List ℕ → List ℕ
bytes_onto zero n tail = tail
bytes_onto (suc fuel) n tail = elim (n == 0) [
  | true ↦ tail
  | false ↦ bytes_onto fuel (n / 256) ((n % 256) ∷ tail)
]

unfoldable pub bytes : ℕ → List ℕ
unfolding bytes_onto
bytes n = bytes_onto n n []

set_bytes-bytes_onto :
    (fuel n : ℕ) (tail : List ℕ)
    → n ≤ fuel
    → set_bytes_from 0 (bytes_onto fuel n tail) ≡ set_bytes_from n tail
unfolding set_bytes_from bytes_onto
set_bytes-bytes_onto zero n tail h = ground arith
set_bytes-bytes_onto (suc fuel) n tail h =
    ground (arith, set_bytes-bytes_onto fuel (n / 256) ((n % 256) ∷ tail))

pub set_bytes-bytes : (n : ℕ) → set_bytes (bytes n) ≡ n
unfolding set_bytes bytes set_bytes_from
set_bytes-bytes n = set_bytes-bytes_onto n n [] (omega arith)

bytes_onto-IsByte :
    (fuel n : ℕ) (tail : List ℕ)
    → All (λ b. b < 256) tail
    → All (λ b. b < 256) (bytes_onto fuel n tail)
unfolding bytes_onto
bytes_onto-IsByte zero n tail h = h
bytes_onto-IsByte (suc fuel) n tail h =
    ground (arith, bytes_onto-IsByte fuel (n / 256) ((n % 256) ∷ tail) (omega arith, h))

pub bytes-IsByte : (n : ℕ) → All (λ b. b < 256) (bytes n)
unfolding bytes
bytes-IsByte n = bytes_onto-IsByte n n [] tt

length-bytes_onto :
    (k fuel n : ℕ) (tail : List ℕ) → n < 256 ^ k → length (bytes_onto fuel n tail) ≤ k + length tail
unfolding bytes_onto
length-bytes_onto k zero n tail h = omega arith
length-bytes_onto zero (suc fuel) n tail h = ground arith
length-bytes_onto (suc k) (suc fuel) n tail h =
    let power : n < 256 ^ k * 256 = rw (← pow-suc 256 k) h in
    let smaller : n / 256 < 256 ^ k = omega arith in
    ground (arith, length-bytes_onto k fuel (n / 256) ((n % 256) ∷ tail) smaller)

-- A number below 256 ^ k takes at most k bytes.
pub length-bytes : (k n : ℕ) → n < 256 ^ k → length (bytes n) ≤ k
unfolding bytes
length-bytes k n h = omega (arith, length-bytes_onto k n n [] h)

-- `SetString(s, 10)`: an optional sign and at least one digit, with nothing behind.
digits_from : ℕ → List ℕ → Option ℕ
digits_from acc [] = some acc
digits_from acc (c ∷ cs) =
    let rest = digits_from (acc * 10 + (c - b'0')) cs in
    if leb b'0' c && leb c b'9' then rest else none

digits : List ℕ → Option ℕ
digits [] = none
digits (c ∷ cs) = digits_from 0 (c ∷ cs)

unfoldable pub set_string : List ℕ → Option ℤ
unfolding digits digits_from
set_string [] = none
set_string (c ∷ cs) =
    if c == b'-'
    then Option.map (λ n. negate (pos n)) (digits cs)
    else Option.map pos (digits (if c == b'+' then cs else c ∷ cs))

-- `String`, of a number that is not negative: decimal digits, highest first.
decimal_onto : ℕ → ℕ → List ℕ → List ℕ
decimal_onto zero n tail = tail
decimal_onto (suc fuel) n tail = elim (n == 0) [
  | true ↦ tail
  | false ↦ decimal_onto fuel (n / 10) ((b'0' + n % 10) ∷ tail)
]

unfoldable pub decimal : ℕ → List ℕ
unfolding decimal_onto
decimal n = if n == 0 then b'0' ∷ [] else decimal_onto n n []

-- `ModInverse(g, n)`: the inverse of g below n, or nil where there is none.
inverse_below : ℕ → ℕ → ℕ → Option ℕ
inverse_below zero g n = none
inverse_below (suc x) g n =
    let lower = inverse_below x g n in if g * x % n == 1 % n then some x else lower

unfoldable pub mod_inverse : ℕ → ℕ → Option ℕ
unfolding inverse_below
mod_inverse g n = inverse_below n g n

inverse_below_sound :
    (k g n : ℕ) {x : ℕ} → inverse_below k g n ≡ some x → (x < k) × (g * x % n ≡ 1 % n)
unfolding inverse_below
inverse_below_sound zero g n e = cc
inverse_below_sound (suc k) g n {x} e = ground (arith, inverse_below_sound k g n {x = x})

pub mod_inverse_sound : (g n : ℕ) {x : ℕ} → mod_inverse g n ≡ some x → (x < n) × (g * x % n ≡ 1 % n)
unfolding mod_inverse
mod_inverse_sound g n e = inverse_below_sound n g n e

inverse_below_complete : (k g n x : ℕ) → x < k → g * x % n ≡ 1 % n → inverse_below k g n ≢ none
unfolding inverse_below
inverse_below_complete zero g n x h e = elim h [ ]
inverse_below_complete (suc k) g n x h e = grind (arith, inverse_below_complete k g n x)

pub mod_inverse_complete : (g n x : ℕ) → x < n → g * x % n ≡ 1 % n → mod_inverse g n ≢ none
unfolding mod_inverse
mod_inverse_complete g n x h e = inverse_below_complete n g n x h e
