-- ===== src/Wallet/Solana/Base58/Digits.antt =====
-- Digits without zeros before them, which their number determines.
use portfolio_itmo.Common.{
  ℕ, zero, suc, ◌+◌, ◌*◌, ◌/◌, ◌<◌, List, [], ◌∷◌, ◌++◌, All, All-append, ◌==◌, ==_iff, Bool-cases,
  ◌≡◌, refl, sym, ap, ◌∙◌, arith, if◌then◌else◌, inl, inr,
}
use native.Mathlib.Nat.{add-mul-div_left, div-eq_of_lt, zero-add}
use mathlib.Core.List.{reverse, reverse_aux, reverse-cons}
use portfolio_itmo.Wallet.Solana.Base58.{leading, replicate, without_leading}
use portfolio_itmo.Wallet.Solana.Base58.Carry.{value, number}

number-append :
    (k acc : ℕ) (xs ys : List ℕ) → number k acc (xs ++ ys) ≡ number k (number k acc xs) ys
unfolding number
number-append k acc [] ys = refl
number-append k acc (x ∷ xs) ys = number-append k (acc * k + x) xs ys

pub number-reverse : (k : ℕ) (buf : List ℕ) → number k 0 (reverse buf) ≡ value k buf
unfolding number value
number-reverse k [] = refl
number-reverse k (d ∷ buf) =
    ap (λ l. number k 0 l) (reverse-cons d buf)
    ∙ (number-append k 0 (reverse buf) (d ∷ []) ∙ rw (number-reverse k buf) (omega arith))

pub number-without_leading :
    (k : ℕ) (xs : List ℕ) → number k 0 (without_leading 0 xs) ≡ number k 0 xs
unfolding number without_leading
number-without_leading k [] = refl
number-without_leading k (x ∷ xs) = elim (Bool-cases (x == 0)) [
  | inl is_zero ↦
      let nothing : 0 ≡ 0 * k + x = let z : x ≡ 0 = (==_iff x 0).0 is_zero in omega arith in
      rw is_zero (number-without_leading k xs ∙ ap (λ a. number k a xs) nothing)
  | inr is_more ↦ rw is_more refl
]

pub number-zeros : (k n : ℕ) (xs : List ℕ) → number k 0 (replicate n 0 ++ xs) ≡ number k 0 xs
unfolding number replicate
number-zeros k zero xs = refl
number-zeros k (suc n) xs =
    let nothing : 0 * k + 0 ≡ 0 = omega arith in
    ap (λ a. number k a (replicate n 0 ++ xs)) nothing ∙ number-zeros k n xs

push : ℕ → List ℕ → List ℕ
push d [] = if d == 0 then [] else d ∷ []
push d (e ∷ rest) = d ∷ e ∷ rest

-- The digits, lowest first, up to the highest that is not zero.
trim : List ℕ → List ℕ
trim [] = []
trim (d ∷ buf) = push d (trim buf)

lowest : (n x y v w : ℕ) → x < n → y < n → x + n * v ≡ y + n * w → (x ≡ y) × (v ≡ w)
lowest n x y v w hx hy e =
    let left : (x + n * v) / n ≡ v =
      add-mul-div_left x v (omega arith) ∙ ap (λ q. q + v) (div-eq_of_lt hx) ∙ zero-add v in
    let right : (y + n * w) / n ≡ w =
      add-mul-div_left y w (omega arith) ∙ ap (λ q. q + w) (div-eq_of_lt hy) ∙ zero-add w in
    let same_rest : v ≡ w = sym left ∙ (ap (λ t. t / n) e ∙ right) in
    (rest_equal same_rest, same_rest)
  where
    rest_equal : v ≡ w → x ≡ y
    rest_equal same_rest = let f : n * v ≡ n * w = ap (λ t. n * t) same_rest in omega arith

trim-value :
    (n : ℕ) (xs ys : List ℕ)
    → All (λ d. d < n) xs
    → All (λ d. d < n) ys
    → value n xs ≡ value n ys
    → trim xs ≡ trim ys
unfolding trim value push
trim-value n [] [] hx hy e = refl
trim-value n [] (y ∷ ys) hx hy e =
    let (z, v) = lowest n 0 y 0 (value n ys) (omega (arith, hy.0)) hy.0 (omega (arith, e)) in
    rw (← z, ← trim-value n [] ys tt hy.1 v) refl
trim-value n (x ∷ xs) [] hx hy e =
    let (z, v) = lowest n x 0 (value n xs) 0 hx.0 (omega (arith, hx.0)) (omega (arith, e)) in
    rw (z, trim-value n xs [] hx.1 tt v) refl
trim-value n (x ∷ xs) (y ∷ ys) hx hy e =
    let (z, v) = lowest n x y (value n xs) (value n ys) hx.0 hy.0 e in
    rw (z, trim-value n xs ys hx.1 hy.1 v) refl

-- A last digit, unless it would be a zero before all others.
snoc : List ℕ → ℕ → List ℕ
snoc [] d = if d == 0 then [] else d ∷ []
snoc (x ∷ xs) d = x ∷ xs ++ (d ∷ [])

without_leading-append :
    (xs : List ℕ) (d : ℕ) → without_leading 0 (xs ++ (d ∷ [])) ≡ snoc (without_leading 0 xs) d
unfolding without_leading snoc
without_leading-append [] d = refl
without_leading-append (x ∷ xs) d = elim (Bool-cases (x == 0)) [
  | inl is_zero ↦ rw is_zero (without_leading-append xs d)
  | inr is_more ↦ rw is_more refl
]

snoc-append : (xs : List ℕ) (x d : ℕ) → snoc (xs ++ (x ∷ [])) d ≡ (xs ++ (x ∷ [])) ++ (d ∷ [])
unfolding snoc
snoc-append [] x d = refl
snoc-append (y ∷ xs) x d = refl

snoc-reverse : (t : List ℕ) (d : ℕ) → snoc (reverse t) d ≡ reverse (push d t)
unfolding snoc push
snoc-reverse [] d = elim (Bool-cases (d == 0)) [
  | inl is_zero ↦ rw is_zero refl
  | inr is_more ↦ rw is_more refl
]
snoc-reverse (e ∷ rest) d =
    ap (λ l. snoc l d) (reverse-cons e rest)
    ∙ (snoc-append (reverse rest) e d
        ∙ sym (reverse-cons d (e ∷ rest) ∙ ap (λ l. l ++ (d ∷ [])) (reverse-cons e rest)))

without_leading-reverse : (buf : List ℕ) → without_leading 0 (reverse buf) ≡ reverse (trim buf)
unfolding without_leading trim
without_leading-reverse [] = refl
without_leading-reverse (d ∷ buf) =
    ap (λ l. without_leading 0 l) (reverse-cons d buf)
    ∙ (without_leading-append (reverse buf) d
        ∙ (ap (λ l. snoc l d) (without_leading-reverse buf) ∙ snoc-reverse (trim buf) d))

-- Two lists of digits with the same number are the same after the zeros before them.
pub without_leading-value :
    (n : ℕ) (xs ys : List ℕ)
    → All (λ d. d < n) xs
    → All (λ d. d < n) ys
    → value n xs ≡ value n ys
    → without_leading 0 (reverse xs) ≡ without_leading 0 (reverse ys)
without_leading-value n xs ys hx hy e =
    without_leading-reverse xs
    ∙ (ap (λ l. reverse l) (trim-value n xs ys hx hy e) ∙ sym (without_leading-reverse ys))

-- The zeros before a list and what follows them.
pub replicate-leading : (xs : List ℕ) → replicate (leading 0 xs) 0 ++ without_leading 0 xs ≡ xs
unfolding leading replicate without_leading
replicate-leading [] = refl
replicate-leading (x ∷ xs) = elim (Bool-cases (x == 0)) [
  | inl is_zero ↦
      let z : x ≡ 0 = (==_iff x 0).0 is_zero in
      rw is_zero (ap (λ l. 0 ∷ l) (replicate-leading xs) ∙ ap (λ y. y ∷ xs) (sym z))
  | inr is_more ↦ rw is_more refl
]

leading-without_leading : (xs : List ℕ) → leading 0 (without_leading 0 xs) ≡ 0
unfolding leading without_leading
leading-without_leading [] = refl
leading-without_leading (x ∷ xs) = elim (Bool-cases (x == 0)) [
  | inl is_zero ↦ rw is_zero (leading-without_leading xs)
  | inr is_more ↦ rw (is_more, is_more) refl
]

-- No other zeros come before digits that have none.
pub leading-replicate :
    (n : ℕ) (xs : List ℕ) → leading 0 (replicate n 0 ++ without_leading 0 xs) ≡ n
unfolding leading replicate
leading-replicate zero xs = leading-without_leading xs
leading-replicate (suc n) xs = ap suc (leading-replicate n xs)

All-replicate : {k : ℕ} (n : ℕ) → 0 < k → All (λ d. d < k) (replicate n 0)
unfolding replicate
All-replicate zero h = tt
All-replicate (suc n) h = (h, All-replicate n h)

All-without_leading :
    (n : ℕ) (xs : List ℕ) → All (λ d. d < n) xs → All (λ d. d < n) (without_leading 0 xs)
unfolding without_leading
All-without_leading n [] h = tt
All-without_leading n (x ∷ xs) h = elim (Bool-cases (x == 0)) [
  | inl is_zero ↦ rw is_zero (All-without_leading n xs h.1)
  | inr is_more ↦ rw is_more h
]

All-reverse_aux :
    (n : ℕ) (xs ys : List ℕ)
    → All (λ d. d < n) xs
    → All (λ d. d < n) ys
    → All (λ d. d < n) (reverse_aux xs ys)
All-reverse_aux n [] ys hx hy = hy
All-reverse_aux n (x ∷ xs) ys hx hy = All-reverse_aux n xs (x ∷ ys) hx.1 (hx.0, hy)

pub All-reverse : (n : ℕ) (xs : List ℕ) → All (λ d. d < n) xs → All (λ d. d < n) (reverse xs)
All-reverse n xs h = All-reverse_aux n xs [] h tt

-- What `Base58Encode` writes is digits.
pub All-written :
    (n z : ℕ) (buf : List ℕ)
    → 0 < n
    → All (λ d. d < n) buf
    → All (λ d. d < n) (replicate z 0 ++ without_leading 0 (reverse buf))
All-written n z buf pos h =
    All-append (λ d. d < n) (replicate z 0) (without_leading 0 (reverse buf)) (All-replicate z pos)
      (All-without_leading n (reverse buf) (All-reverse n buf h))
