-- ===== src/Common/Congruence.antt =====
-- Congruence of native numbers to a modulus: kept by sums and products, and a summand cancels.
use Prim.Native.Nat.{ℕ, ◌+◌, ◌-◌, ◌*◌, ◌/◌, ◌%◌, ◌<◌}
use mathlib.Core.Path.{◌≡◌, refl, sym, ◌∙◌, ap, ap₂}
use native.Mathlib.Omega.{arith}
use native.Mathlib.Nat.{
  add-mod, mod-eq_of_lt, add-mul-mod_self_left, mod-add-div, mod-mod, mul_comm, mul-le-mul_right,
}

pub record Cong (p a b : ℕ) : Type 0 where
  pub same : a % p ≡ b % p

pub Cong-of_eq : {a b : ℕ} (p : ℕ) → a ≡ b → Cong p a b
Cong-of_eq p e = record { same = ap (λ x. x % p) e }

module _ {p : ℕ} where
  pub Cong-symm : {a b : ℕ} → Cong p a b → Cong p b a
  Cong-symm h = record { same = sym h.same }

  pub Cong-trans : {a b c : ℕ} → Cong p a b → Cong p b c → Cong p a c
  Cong-trans h k = record { same = h.same ∙ k.same }

  pub Cong-add : {a b c d : ℕ} → Cong p a b → Cong p c d → Cong p (a + c) (b + d)
  Cong-add {a} {b} {c} {d} h k = record {
    same = add-mod a c p ∙ ap₂ (λ x y. (x + y) % p) h.same k.same ∙ sym (add-mod b d p);
  }

  mul_right : {a b : ℕ} (c : ℕ) → Cong p a b → Cong p (a * c) (b * c)
  mul_right {a} {b} c h = record {
    same = drop_multiple a ∙ ap (λ x. x * c % p) h.same ∙ sym (drop_multiple b);
  }
    where
      expand : (x : ℕ) → x * c ≡ x % p * c + p * (x / p * c)
      expand x = omega (arith, ap (λ (t : ℕ). t * c) (mod-add-div x p))

      drop_multiple : (x : ℕ) → x * c % p ≡ x % p * c % p
      drop_multiple x = ap (λ t. t % p) (expand x) ∙ add-mul-mod_self_left (x % p * c) p (x / p * c)

  pub Cong-mul : {a b c d : ℕ} → Cong p a b → Cong p c d → Cong p (a * c) (b * d)
  Cong-mul {a} {b} {c} {d} h k =
      Cong-trans (mul_right c h) (rw (mul_comm b c, mul_comm b d) (mul_right b k))

  multiple_drops : (x c : ℕ) → 0 < p → Cong p (x + c + (p * c - c)) x
  multiple_drops x c h = record {
    same = ap (λ t. t % p) (omega (arith, mul-le-mul_right c h)) ∙ add-mul-mod_self_left x p c;
  }

  -- Congruent summands cancel.
  pub Cong-cancel : {a b c d : ℕ} → 0 < p → Cong p (a + c) (b + d) → Cong p c d → Cong p a b
  Cong-cancel {a} {b} {c} {d} pos h k = Cong-trans (Cong-symm (multiple_drops a c pos)) (
      Cong-trans
        (Cong-add (Cong-trans h (Cong-add (record { same = refl }) (Cong-symm k)))
          (record { same = refl }))
        (multiple_drops b c pos))

pub Cong-refl : {p : ℕ} (a : ℕ) → Cong p a a
Cong-refl a = record { same = refl }

pub Cong-mod : (p a : ℕ) → Cong p (a % p) a
Cong-mod p a = record { same = mod-mod a p }

pub Cong-eq : {p a b : ℕ} → Cong p a b → a < p → b < p → a ≡ b
Cong-eq h ha hb = sym (mod-eq_of_lt ha) ∙ h.same ∙ mod-eq_of_lt hb
