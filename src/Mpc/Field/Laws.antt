-- ===== src/Mpc/Field/Laws.antt =====
-- The operations of field.go are the ring operations on residues.
use portfolio_itmo.Common.{ℕ, suc, ◌+◌, ◌-◌, ◌*◌, ◌/◌, ◌%◌, ◌<◌, ◌≡◌, ap, ◌∙◌, arith}
use portfolio_itmo.Common.Int.{
  ℤ, pos, negsuc, pos_part, neg_part, ◌+ℤ◌, ◌-ℤ◌, ◌*ℤ◌, negate, mod_ℤ, -ℤ_parts, negate_parts,
}
use portfolio_itmo.Common.BigInt.{set_bytes-bytes}
use portfolio_itmo.Common.Congruence.{
  Cong, Cong-mod, Cong-of_eq, Cong-refl, Cong-trans, Cong-add, Cong-cancel,
}
use portfolio_itmo.Mpc.Field.{
  Field, FieldElement, reduce, add, sub, mul, neg, from_int, from_bytes, to_bytes,
}
use native.Mathlib.Nat.{mod-lt, add-mul-mod_self_left, mod-add-div, mod-eq_of_lt}

pub reduce-lt : (f : Field) (x : ℤ) → 0 < f.p → reduce f x < f.p
unfolding reduce mod_ℤ
reduce-lt f (pos n) h = ground (arith, mod-lt n h)
reduce-lt f (negsuc n) h = ground (arith, mod-lt n h)

reduce-pos : (f : Field) (n : ℕ) → reduce f (pos n) ≡ n % f.p
unfolding reduce mod_ℤ
reduce-pos f n = ground arith

reduce-negsuc : (f : Field) (n : ℕ) → reduce f (negsuc n) ≡ f.p - 1 - n % f.p
unfolding reduce mod_ℤ
reduce-negsuc f n = ground arith

-- `reduce` is the residue of the integer: they differ by a multiple of `p`.
pub reduce-Cong : (f : Field) (x : ℤ) → 0 < f.p → Cong f.p (reduce f x + neg_part x) (pos_part x)
reduce-Cong f (pos n) h =
    Cong-trans (Cong-of_eq f.p (omega (arith, reduce-pos f n))) (Cong-mod f.p n)
reduce-Cong f (negsuc n) h = record {
  same = ap (λ t. t % f.p) whole ∙ add-mul-mod_self_left 0 f.p (1 + n / f.p);
}
  where
    whole : reduce f (negsuc n) + suc n ≡ 0 + f.p * (1 + n / f.p)
    whole = omega (arith, reduce-negsuc f n, mod-add-div n f.p, mod-lt n h)

pub from_int-pos : (f : Field) (n : ℕ) → n < f.p → from_int f (pos n) ≡ record { v = n }
unfolding from_int
from_int-pos f n h = ground (arith, reduce-pos f n, mod-eq_of_lt h)

pub add-v : (f : Field) (a b : FieldElement) → (add f a b).v ≡ (a.v + b.v) % f.p
unfolding add ◌+ℤ◌ reduce mod_ℤ
add-v f a b = ground arith

pub mul-v : (f : Field) (a b : FieldElement) → (mul f a b).v ≡ a.v * b.v % f.p
unfolding mul ◌*ℤ◌ reduce mod_ℤ
mul-v f a b = ground arith

module _ (f : Field) (positive : 0 < f.p) where
  -- A residue `x` of the integer a - b is what is added to b to reach a.
  integer_parts :
      (a b : FieldElement) (x : ℤ)
      → pos_part x + b.v ≡ neg_part x + a.v
      → Cong f.p (reduce f x + b.v) a.v
  integer_parts a b x e =
      Cong-cancel {c = neg_part x} {d = neg_part x} positive
        (Cong-trans (Cong-of_eq f.p (omega arith)) (
          Cong-trans (Cong-add (reduce-Cong f x positive) (Cong-refl b.v))
            (Cong-of_eq f.p (omega (arith, e)))))
        (Cong-refl (neg_part x))

  pub add-Cong : (a b : FieldElement) → Cong f.p (add f a b).v (a.v + b.v)
  add-Cong a b = rw (add-v f a b) (Cong-mod f.p (a.v + b.v))

  pub sub-Cong : (a b : FieldElement) → Cong f.p ((sub f a b).v + b.v) a.v
  unfolding sub
  sub-Cong a b =
      integer_parts a b (pos a.v -ℤ pos b.v) (omega (arith, -ℤ_parts (pos a.v) (pos b.v)))

  pub sub-lt : (a b : FieldElement) → (sub f a b).v < f.p
  unfolding sub
  sub-lt a b = reduce-lt f _ positive

  pub neg-Cong : (a : FieldElement) → Cong f.p ((neg f a).v + a.v) 0
  unfolding neg
  neg-Cong a =
      integer_parts (record { v = 0 }) a (negate (pos a.v)) (omega (arith, negate_parts (pos a.v)))

  pub mul-Cong : (a b : FieldElement) → Cong f.p (mul f a b).v (a.v * b.v)
  mul-Cong a b = rw (mul-v f a b) (Cong-mod f.p (a.v * b.v))

  -- Bytes that are read back are the number they were written from, up to a multiple of `p`.
  pub from_bytes-Cong : (a : FieldElement) → Cong f.p (from_bytes f (to_bytes a)).v a.v
  unfolding from_bytes to_bytes
  from_bytes-Cong a = rw (set_bytes-bytes a.v, reduce-pos f a.v) (Cong-mod f.p a.v)

  pub from_bytes-to_bytes : (a : FieldElement) → a.v < f.p → from_bytes f (to_bytes a) ≡ a
  unfolding from_bytes to_bytes
  from_bytes-to_bytes a h = ground (arith, set_bytes-bytes a.v, reduce-pos f a.v, mod-eq_of_lt h)
