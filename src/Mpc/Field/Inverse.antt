-- ===== src/Mpc/Field/Inverse.antt =====
-- `Inv` of field.go in a field whose `p` is a prime.
use portfolio_itmo.Common.{
  ℕ, zero, suc, ◌+◌, ◌-◌, ◌*◌, ◌/◌, ◌%◌, ◌<◌, ◌≤◌, Option, none, some, ◌≡◌, ◌≢◌, ◌⊎◌, inl, inr,
  refl, ap, ◌∙◌, arith, ok, err,
}
use portfolio_itmo.Common.BigInt.{mod_inverse, mod_inverse_sound, mod_inverse_complete}
use portfolio_itmo.Common.Congruence.{
  Cong, Cong-mod, Cong-of_eq, Cong-refl, Cong-symm, Cong-trans, Cong-mul, Cong-cancel,
}
use portfolio_itmo.Mpc.Error
use portfolio_itmo.Mpc.Field.{Field, FieldElement, mul, inv}
use portfolio_itmo.Mpc.Field.Laws.{mul-v}
use native.Mathlib.Decide.{dec_lt}
use native.Mathlib.Nat.{mod-lt, mod-add-div, mod-eq_of_lt, add-mul-mod_self_left}

-- No number between 1 and `p` divides `p`.
abbrev pub IsPrime : ℕ → Type 0
IsPrime p = (1 < p) × ((d : ℕ) → 1 < d → d < p → p % d ≢ 0)

Inverse : ℕ → ℕ → Type 0
Inverse p a = (x : ℕ) × (x < p) × Cong p (a * x) 1

module _ (p : ℕ) (prime : IsPrime p) where
  multiple : (k : ℕ) → Cong p (0 + p * k) 0
  multiple k = record { same = add-mul-mod_self_left 0 p k }

  -- From an inverse of the remainder of `p` by `a` to one of `a`.
  step : (a : ℕ) → 0 < a → Inverse p (p % a) → Inverse p a
  unfolding Inverse
  step a pos (y, small, h) =
      let q = p / a in
      let t = q * y % p in
      let whole : p % a + a * q ≡ p = mod-add-div p a in
      let below : t < p = mod-lt (q * y) (omega (arith, prime.0)) in
      let x = p - t in
      let parts : x + t ≡ p = omega arith in
      let left : a * x + a * t ≡ 0 + p * a =
        let product : a * (x + t) ≡ a * p = ap (λ k. a * k) parts in omega arith in
      let right : p % a * y + a * (q * y) ≡ 0 + p * y =
        let product : (p % a + a * q) * y ≡ p * y = ap (λ k. k * y) whole in omega arith in
      let both : Cong p (a * x + a * t) (p % a * y + a * (q * y)) =
        Cong-trans (Cong-of_eq p left)
          (Cong-trans (multiple a) (Cong-symm (Cong-trans (Cong-of_eq p right) (multiple y)))) in
      let same_part : Cong p (a * t) (a * (q * y)) = Cong-mul (Cong-refl a) (Cong-mod p (q * y)) in
      let product : Cong p (a * x) 1 =
        Cong-trans
          (Cong-cancel {c = a * t} {d = a * (q * y)} (omega (arith, prime.0)) both same_part) h in
      (
        x % p,
        mod-lt x (omega (arith, prime.0)),
        Cong-trans (Cong-mul (Cong-refl a) (Cong-mod p x)) product,
      )

  inverse : (fuel a : ℕ) → a ≤ fuel → 0 < a → a < p → Inverse p a
  unfolding Inverse
  inverse zero a low pos high = absurd (omega arith)
  inverse (suc fuel) a low pos high = elim (dec_lt 1 a) [
    | yes big ↦
        let rest = mod-lt p pos in
        step a pos
          (inverse fuel (p % a) (omega arith) (omega (arith, prime.1 a big high)) (omega arith))
    | no unit ↦ (1, prime.0, Cong-of_eq p (omega arith))
  ]

module _ (f : Field) (prime : IsPrime f.p) where
  found :
      (a : FieldElement)
      → a.v ≢ 0
      → a.v < f.p
      → (b : FieldElement) × (inv f a ≡ ok b) × (b.v < f.p) × ((mul f a b).v ≡ 1)
  unfolding Inverse inv
  found a nonzero small =
      let (x, below, c) = inverse f.p prime a.v a.v (omega arith) (omega (arith, nonzero)) small in
      returned (mod_inverse a.v f.p) refl (mod_inverse_complete a.v f.p x below c.same)
    where
      returned :
          (o : Option ℕ)
          → mod_inverse a.v f.p ≡ o
          → mod_inverse a.v f.p ≢ none
          → (b : FieldElement) × (inv f a ≡ ok b) × (b.v < f.p) × ((mul f a b).v ≡ 1)
      returned none e some_value = absurd (some_value e)
      returned (some x) e some_value =
          let (below, one) = mod_inverse_sound a.v f.p e in
          (
            record { v = x },
            ground (arith, e, nonzero),
            below,
            mul-v f a (record { v = x }) ∙ (one ∙ mod-eq_of_lt prime.0),
          )

  -- In a field with a prime `p` the inverse of 0 is refused, and every other element below `p` has one
  -- below `p`, whose product with it is 1.
  pub inv_prime :
      (a : FieldElement)
      → a.v < f.p
      → ((a.v ≡ 0) × (inv f a ≡ err Error.inverse_of_zero))
        ⊎ ((b : FieldElement) × (inv f a ≡ ok b) × (b.v < f.p) × ((mul f a b).v ≡ 1))
  unfolding inv
  inv_prime a small = elim (dec_lt 0 a.v) [
    | yes positive ↦ inr (found a (λ e. absurd (omega arith)) small)
    | no nothing ↦ inl (omega arith, ground arith)
  ]
