-- ===== src/Wallet/Solana/Base58/Sizes.antt =====
-- The sizes of the buffers of base58.go are enough.
use portfolio_itmo.Common.{
  ℕ, zero, suc, ◌+◌, ◌*◌, ◌/◌, ◌%◌, ◌^◌, ◌<◌, ◌≤◌, List, [], ◌∷◌, length, All, ◌≡◌, refl, sym, ap,
  ◌∙◌, arith,
}
use native.Mathlib.Decide.{dec_lt}
use native.Mathlib.Nat.{
  pow-suc, pow-zero, pow-le-pow_left, pow-le-pow_right, pow-lt-pow_left, mod-add-div, mod-lt,
  mul-le-mul_right,
}
use portfolio_itmo.Wallet.Solana.Base58.Carry.{number}

pow-add : (a x y : ℕ) → a ^ (x + y) ≡ a ^ x * a ^ y
pow-add a x zero = let z : x + 0 ≡ x = omega arith in rw (z, pow-zero a) (omega arith)
pow-add a x (suc y) =
    let s : x + suc y ≡ suc (x + y) = omega arith in
    rw (s, pow-suc a (x + y), pow-suc a y, pow-add a x y) (omega arith)

pow-mul : (a x y : ℕ) → a ^ (x * y) ≡ (a ^ x) ^ y
pow-mul a x zero = let z : x * 0 ≡ 0 = omega arith in rw (z, pow-zero a, pow-zero (a ^ x)) refl
pow-mul a x (suc y) =
    let s : x * suc y ≡ x * y + x = omega arith in
    rw (s, pow-add a (x * y) x, pow-suc (a ^ x) y, pow-mul a x y) refl

-- `len` digits in base `a` fit into the buffer, as `q` digits in base `a` fit into `p` in base `b`.
pub size-fits : (a b p q len : ℕ) → 0 < b → 0 < q → a ^ q ≤ b ^ p → a ^ len ≤ b ^ (len * p / q + 1)
size-fits a b p q len pos some_digits fits = elim (dec_lt (b ^ size) (a ^ len)) [
  | yes h ↦ absurd (too_much (pow-lt-pow_left h (λ z. absurd (omega arith))))
  | no h ↦ omega arith
]
  where
    size : ℕ
    size = len * p / q + 1

    enough : p * len ≤ size * q
    enough =
        let whole : (len * p) % q + q * (len * p / q) ≡ len * p = mod-add-div (len * p) q in
        let part : (len * p) % q < q = mod-lt (len * p) some_digits in omega arith

    too_much : (b ^ size) ^ q < (a ^ len) ^ q → ⊥
    too_much h =
        let left : (a ^ len) ^ q ≡ (a ^ q) ^ len =
          sym (pow-mul a len q) ∙ (ap (λ e. a ^ e) (omega arith) ∙ pow-mul a q len) in
        let middle : (a ^ q) ^ len ≤ (b ^ p) ^ len = pow-le-pow_left fits len in
        let right : b ^ (p * len) ≤ b ^ (size * q) = pow-le-pow_right pos enough in
        omega (arith, pow-mul b p len, pow-mul b size q)

pub encode-fits : 256 ^ 100 ≤ 58 ^ 138
encode-fits = omega arith

pub decode-fits : 58 ^ 1000 ≤ 256 ^ 733
decode-fits = omega arith

pub number-lt :
    (k acc : ℕ) (xs : List ℕ) → All (λ d. d < k) xs → number k acc xs < (acc + 1) * k ^ length xs
unfolding number
number-lt k acc [] h = rw (pow-zero k) (omega arith)
number-lt k acc (x ∷ xs) h =
    let later = number-lt k (acc * k + x) xs h.1 in
    let digit = h.0 in
    let power = k ^ length xs in
    let room : (acc * k + x + 1) * power ≤ ((acc + 1) * k) * power =
      mul-le-mul_right power (omega arith) in
    rw (pow-suc k (length xs)) (omega arith)
