-- ===== src/Wallet/Solana/Base58/Carry.antt =====
-- The loops of base58.go over the buffer, which multiply the number that it holds.
use portfolio_itmo.Common.{
  ℕ, zero, suc, ◌+◌, ◌*◌, ◌/◌, ◌%◌, ◌^◌, ◌<◌, ◌≤◌, List, [], ◌∷◌, none, some, length, All, ◌==◌,
  ==_iff, Bool-cases, ◌≡◌, refl, ap, ◌∙◌, arith, inl, inr,
}
use native.Mathlib.Nat.{
  mul-div-le, lt_of_mul-lt-mul_left, mod-add-div, mod-lt, pow-succ', pow-zero, mul-le-mul_left,
}
use portfolio_itmo.Wallet.Solana.Base58.{carry_loop, digits_loop}

-- The number of a list of digits in base `n`, the lowest first.
unfoldable pub value : ℕ → List ℕ → ℕ
value n [] = 0
value n (d ∷ buf) = d + n * value n buf

-- The number of digits in base `k`, the highest first, after the digits of another number.
unfoldable pub number : ℕ → ℕ → List ℕ → ℕ
number k acc [] = acc
number k acc (x ∷ xs) = number k (acc * k + x) xs

-- Digits in base `n`, of which no more than `used` are set.
abbrev pub IsBuffer : ℕ → ℕ → List ℕ → Type 0
IsBuffer n zero buf = All (λ d. d ≡ 0) buf
IsBuffer n (suc used) [] = ⊥
IsBuffer n (suc used) (d ∷ buf) = (d < n) × IsBuffer n used buf

pub value-zeros : (n : ℕ) (buf : List ℕ) → All (λ d. d ≡ 0) buf → value n buf ≡ 0
unfolding value
value-zeros n [] h = refl
value-zeros n (d ∷ buf) (z, h) = rw (z, value-zeros n buf h) (omega arith)

module _ (k n : ℕ) (base : 1 < n) where
  -- What one round of the loop over the digits makes of the buffer.
  abbrev pub IsRound : ℕ → List ℕ → List ℕ × ℕ → Type 0
  IsRound carry buf next =
      (value n next.0 ≡ value n buf * k + carry)
      × (length next.0 ≡ length buf)
      × IsBuffer n next.1 next.0

  -- The rest of the number after the lowest digit.
  rest-fits :
      (carry d v room : ℕ) → (d + n * v) * k + carry < n * room → v * k + (carry + d * k) / n < room
  rest-fits carry d v room h =
      let split : (d + n * v) * k + carry ≡ n * (v * k) + (carry + d * k) = omega arith in
      let quotient : n * ((carry + d * k) / n) ≤ carry + d * k = mul-div-le (carry + d * k) n in
      let join : n * (v * k + (carry + d * k) / n) ≡ n * (v * k) + n * ((carry + d * k) / n) =
        omega arith in
      lt_of_mul-lt-mul_left n (omega arith)

  -- The lowest digit of the new number and the rest of it.
  lowest-digit :
      (carry d v : ℕ)
      → (carry + d * k) % n + n * (v * k + (carry + d * k) / n) ≡ (d + n * v) * k + carry
  lowest-digit carry d v =
      let c = carry + d * k in let whole : c % n + n * (c / n) ≡ c = mod-add-div c n in omega arith

  set-IsRound :
      (carry d : ℕ) (buf : List ℕ) (next : List ℕ × ℕ)
      → IsRound ((carry + d * k) / n) buf next
      → IsRound carry (d ∷ buf) ((carry + d * k) % n ∷ next.0, suc next.1)
  unfolding value
  set-IsRound carry d buf next (v, l, b) = (
    rw v (lowest-digit carry d (value n buf)),
    ap suc l,
    (mod-lt (carry + d * k) (omega arith), b),
  )

  room :
      (carry d : ℕ) (buf : List ℕ)
      → value n (d ∷ buf) * k + carry < n ^ length (d ∷ buf)
      → value n buf * k + (carry + d * k) / n < n ^ length buf
  unfolding value
  room carry d buf fits =
      rest-fits carry d (value n buf) (n ^ length buf) (rw (← pow-succ' n (length buf)) fits)

  -- The number in the buffer is multiplied by `k` and the digit is added, if there is room for it.
  pub carry_loop-IsRound :
      (used carry : ℕ) (buf : List ℕ)
      → IsBuffer n used buf
      → value n buf * k + carry < n ^ length buf
      → (next : List ℕ × ℕ) × (carry_loop k n used carry buf ≡ some next) × IsRound carry buf next
  unfolding carry_loop value
  carry_loop-IsRound zero carry [] h fits =
      let small : 0 * k + carry < n ^ 0 = fits in
      let nothing : carry ≡ 0 = omega (arith, pow-zero n) in
      rw nothing (([], 0), refl, (omega arith, refl, tt))
  carry_loop-IsRound (suc used) carry [] h fits = absurd h
  carry_loop-IsRound zero carry (d ∷ buf) h fits = elim (Bool-cases (carry == 0)) [
    | inl is_zero ↦
        let none_left : carry ≡ 0 = (==_iff carry 0).0 is_zero in
        (
          (d ∷ buf, 0),
          rw is_zero refl,
          (rw (h.0, value-zeros n buf h.1, none_left) (omega arith), refl, h),
        )
    | inr is_more ↦
        let (next, e, r) =
          carry_loop-IsRound zero ((carry + d * k) / n) buf h.1 (room carry d buf fits) in
        (
          ((carry + d * k) % n ∷ next.0, suc next.1),
          rw (is_more, e) refl,
          set-IsRound carry d buf next r,
        )
  ]
  carry_loop-IsRound (suc used) carry (d ∷ buf) h fits =
      let (next, e, r) =
        carry_loop-IsRound used ((carry + d * k) / n) buf h.1 (room carry d buf fits) in
      (((carry + d * k) % n ∷ next.0, suc next.1), rw e refl, set-IsRound carry d buf next r)

  number-le : (acc : ℕ) (xs : List ℕ) → 0 < k → acc ≤ number k acc xs
  unfolding number
  number-le acc [] h = omega arith
  number-le acc (x ∷ xs) h =
      let later = number-le (acc * k + x) xs h in
      let product : acc * 1 ≤ acc * k = mul-le-mul_left acc h in omega arith

  -- All the digits, if there is room for their number.
  pub digits_loop-number :
      (xs buf : List ℕ) (used : ℕ)
      → 0 < k
      → IsBuffer n used buf
      → number k (value n buf) xs < n ^ length buf
      → (out : List ℕ) × (digits_loop k n xs (buf, used) ≡ some out)
        × (value n out ≡ number k (value n buf) xs)
        × (length out ≡ length buf)
        × (set : ℕ) × IsBuffer n set out
  unfolding digits_loop number
  digits_loop-number [] buf used pos h fits = (buf, refl, refl, refl, used, h)
  digits_loop-number (x ∷ xs) buf used pos h fits =
      let smaller = number-le (value n buf * k + x) xs pos in
      let (next, e, (v, l, b)) = carry_loop-IsRound used x buf h (omega arith) in
      let (out, e', v', l', set, b') = digits_loop-number xs next.0 next.1 pos b (rw (v, l) fits) in
      (
        out,
        ap (λ o. elim o [ none ↦ none | some next ↦ digits_loop k n xs next ]) e ∙ e',
        v' ∙ ap (λ a. number k a xs) v,
        l' ∙ l,
        set,
        b',
      )

pub IsBuffer-All : (n used : ℕ) (buf : List ℕ) → 1 < n → IsBuffer n used buf → All (λ d. d < n) buf
IsBuffer-All n zero [] base h = tt
IsBuffer-All n zero (d ∷ buf) base h = (omega (arith, h.0), IsBuffer-All n zero buf base h.1)
IsBuffer-All n (suc used) [] base h = absurd h
IsBuffer-All n (suc used) (d ∷ buf) base h = (h.0, IsBuffer-All n used buf base h.1)
