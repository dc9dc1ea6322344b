-- ===== src/Mpc/Field.antt =====
-- projects/01-mpc-cluster/internal/protocol/field.go: the field of residues modulo `p`.
-- A field element's `*big.Int` is kept by its value, which `reduce` makes a natural number; the nil
-- of an element that comes with an error is not modelled. `rand.Reader` is the list of the numbers
-- that it will still yield, and an empty list is a failing reader.
pub mod Laws
pub mod Inverse
use portfolio_itmo.Common.{
  ℕ, ◌+◌, ◌/◌, ◌-◌, ◌≡◌, Bool, List, [], ◌∷◌, Option, none, some, ◌==◌, if◌then◌else◌, ok, err,
}
use portfolio_itmo.Common.Int.{ℤ, pos, pos_part, ltb_ℤ, ◌+ℤ◌, ◌-ℤ◌, ◌*ℤ◌, negate, mod_ℤ}
use portfolio_itmo.Common.BigInt.{bytes, set_bytes, set_string, mod_inverse}
use portfolio_itmo.Mpc.Error.{Result}
use portfolio_itmo.Mpc.Error

pub record Field : Type 0 where
  pub p : ℕ

pub record FieldElement : Type 0 where
  pub v : ℕ

abbrev pub default_prime : ℕ
default_prime = 170141183460469231731687303715884105727

abbrev pub new_field : Field
new_field = record { p = default_prime }

-- `Mod` is Euclidean, so the second branch is never taken.
unfoldable pub reduce : Field → ℤ → ℕ
reduce f x = let r = mod_ℤ x f.p in pos_part (if ltb_ℤ r (pos 0) then r +ℤ pos f.p else r)

unfoldable pub element : Field → ℤ → FieldElement
element f x = record { v = reduce f x }

unfoldable pub from_int : Field → ℤ → FieldElement
from_int f n = record { v = reduce f n }

unfoldable pub from_string : Field → List ℕ → Result FieldElement
from_string f s = elim (set_string s) [
  | none ↦ err (Error.parse_element s)
  | some n ↦ ok (record { v = reduce f n })
]

unfoldable pub from_bytes : Field → List ℕ → FieldElement
from_bytes f b = record { v = reduce f (pos (set_bytes b)) }

abbrev pub zero_element : FieldElement
zero_element = record { v = 0 }

abbrev pub one_element : FieldElement
one_element = record { v = 1 }

unfoldable pub add : Field → FieldElement → FieldElement → FieldElement
add f a b = record { v = reduce f (pos a.v +ℤ pos b.v) }

unfoldable pub sub : Field → FieldElement → FieldElement → FieldElement
sub f a b = record { v = reduce f (pos a.v -ℤ pos b.v) }

unfoldable pub mul : Field → FieldElement → FieldElement → FieldElement
mul f a b = record { v = reduce f (pos a.v *ℤ pos b.v) }

unfoldable pub neg : Field → FieldElement → FieldElement
neg f a = record { v = reduce f (negate (pos a.v)) }

unfoldable pub inv : Field → FieldElement → Result FieldElement
inv f a = if a.v == 0 then err Error.inverse_of_zero else elim (mod_inverse a.v f.p) [
  | none ↦ err (Error.no_inverse a.v)
  | some x ↦ ok (record { v = x })
]

unfoldable pub scalar_mul : Field → FieldElement → ℤ → FieldElement
scalar_mul f a k = record { v = reduce f (pos a.v *ℤ k) }

unfoldable pub rand : Field → List ℕ → Result (FieldElement × List ℕ)
rand f [] = err Error.sample_element
rand f (n ∷ reader) = ok (record { v = n }, reader)

-- `Bytes`
unfoldable pub to_bytes : FieldElement → List ℕ
to_bytes e = bytes e.v

unfoldable pub equal : FieldElement → FieldElement → Bool
equal e other = e.v == other.v

unfoldable pub is_zero : FieldElement → Bool
is_zero e = e.v == 0
