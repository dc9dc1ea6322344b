-- ===== src/Wallet/Solana/Base58.antt =====
-- projects/02-wallet-scoring/internal/solana/base58.go. The buffer of digits, which the code fills from
-- its end, is a list with the lowest digit first. A carry stays below the base that is left, so that
-- `uint32` does not wrap.
pub mod Carry
pub mod Digits
pub mod Sizes
pub mod Alphabet
pub mod RoundTrip
use portfolio_itmo.Common.{
  ℕ, zero, suc, ◌+◌, ◌-◌, ◌*◌, ◌/◌, ◌%◌, List, [], ◌∷◌, ◌++◌, Option, none, some, map, length,
  get_elem?, ltb, ◌==◌, if◌then◌else◌, Result, ok, err, ◌≡◌, refl,
}
use portfolio_itmo.Common
use portfolio_itmo.Wallet.Solana.{Address, codes}
use mathlib.Core.List.{reverse}

unfoldable pub alphabet : List ℕ
alphabet = codes "123456789ABCDEFGHJKLMNPQRSTUVWXYZabcdefghijkmnopqrstuvwxyz"

-- A digit that the code looks up in a table of 128 entries, -1 where there is none.
pub index_of : ℕ → List ℕ → Option ℕ
index_of c [] = none
index_of c (a ∷ as') =
    let rest = index_of c as' in
    if a == c then some 0 else elim rest [ none ↦ none | some i ↦ some (suc i) ]

pub leading : ℕ → List ℕ → ℕ
leading c [] = 0
leading c (x ∷ xs) = let rest = leading c xs in if x == c then suc rest else 0

pub replicate : ℕ → ℕ → List ℕ
replicate zero x = []
replicate (suc n) x = x ∷ replicate n x

pub without_leading : ℕ → List ℕ → List ℕ
without_leading c [] = []
without_leading c (x ∷ xs) = let rest = without_leading c xs in if x == c then rest else x ∷ xs

-- The loop over the buffer for one more digit in base `k`: the buffer holds a number in base `n`, with
-- `used` digits set, and the number of digits that are set after it comes with it. `none` is an index
-- below 0.
module _ (k n : ℕ) where
  unfoldable pub carry_loop : ℕ → ℕ → List ℕ → Option (List ℕ × ℕ)
  carry_loop zero carry [] = if carry == 0 then some ([], 0) else none
  carry_loop (suc used) carry [] = none
  carry_loop zero carry (d ∷ buf) =
      let c = carry + d * k in
      let more = carry_loop zero (c / n) buf in
      if carry == 0
      then some (d ∷ buf, 0)
      else elim more [ none ↦ none | some (out, set) ↦ some (c % n ∷ out, suc set) ]
  carry_loop (suc used) carry (d ∷ buf) =
      let c = carry + d * k in
      elim (carry_loop used (c / n) buf) [
        | none ↦ none
        | some (out, set) ↦ some (c % n ∷ out, suc set)
      ]

  -- The loop over the digits that are read.
  unfoldable pub digits_loop : List ℕ → List ℕ × ℕ → Option (List ℕ)
  digits_loop [] (buf, used) = some buf
  digits_loop (x ∷ xs) (buf, used) = elim (carry_loop used x buf) [
    | none ↦ none
    | some next ↦ digits_loop xs next
  ]

-- The highest digit comes first, and zeros before it are left out.
abbrev pub written : List ℕ → List ℕ
written buf = without_leading 0 (reverse buf)

abbrev pub letter : ℕ → ℕ
letter d = elim (get_elem? alphabet d) [ some c ↦ c | none ↦ 0 ]

unfoldable pub base58_encode : List ℕ → Option Address
unfolding alphabet index_of leading replicate without_leading
base58_encode [] = some []
base58_encode (x ∷ xs) =
    let b = x ∷ xs in
    let size = length b * 138 / 100 + 1 in
    elim (digits_loop 256 58 b (replicate size 0, 0)) [
      | none ↦ none
      | some buf ↦ some (replicate (leading 0 b) (letter 0) ++ map letter (written buf))
    ]

pub data DecodeError : Type 0 where
  invalid_char : ℕ → DecodeError
  index_below_zero : DecodeError

-- The loop over the characters.
pub chars_loop : List ℕ → List ℕ × ℕ → Result DecodeError (List ℕ)
chars_loop [] (buf, used) = ok buf
chars_loop (c ∷ cs) (buf, used) = elim (index_of c alphabet) [
  | none ↦ err (invalid_char c)
  | some d ↦ elim (carry_loop 58 256 used d buf) [
    | none ↦ err index_below_zero
    | some next ↦ chars_loop cs next
  ]
]

unfoldable pub base58_decode : Address → Result DecodeError (List ℕ)
unfolding alphabet index_of leading replicate without_leading chars_loop
base58_decode [] = ok []
base58_decode (c ∷ cs) =
    let s = c ∷ cs in
    let size = length s * 733 / 1000 + 1 in
    elim (chars_loop s (replicate size 0, 0)) [
      | Common.err e ↦ err e
      | Common.ok buf ↦ ok (replicate (leading (letter 0) s) 0 ++ written buf)
    ]
