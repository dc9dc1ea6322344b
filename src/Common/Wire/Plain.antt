-- ===== src/Common/Wire/Plain.antt =====
-- A wire format for tests, which keeps each number as one element of the list.
use portfolio_itmo.Common.Tests.{leb, if◌then◌else◌}
use portfolio_itmo.Common.Lists.{length, take, length-append, take-append}
use portfolio_itmo.Common.Results.{Result}
use portfolio_itmo.Common.Results
use portfolio_itmo.Common.Wire.{Protowire, IsWire, Consumed}
use Prim.Native.Nat.{ℕ, ◌+◌, ◌*◌, ◌/◌, ◌%◌, ◌<◌}
use mathlib.Core.Path.{◌≡◌, refl}
use mathlib.Core.List.{List, [], ◌∷◌, ◌++◌}
use native.Mathlib.Omega.{arith}

abbrev first : {A : Type 0} → (ℕ → A) → List ℕ → Consumed A
first f [] = Results.err 1
first f (x ∷ b) = Results.ok (f x, 1)

abbrev counted : List ℕ → Consumed (List ℕ)
counted [] = Results.err 1
counted (n ∷ b) = if leb n (length b) then Results.ok (take n b, n + 1) else Results.err 1

abbrev skipped : ℕ → List ℕ → Result ℕ ℕ
skipped typ [] = Results.err 1
skipped typ (n ∷ b) = if leb typ 1 then Results.ok 1 else Results.ok (n + 1)

abbrev pub plain : Protowire
plain = record {
  append_tag = λ b num typ. b ++ ((num * 8 + typ) ∷ []);
  append_varint = λ b v. b ++ (v ∷ []);
  append_fixed32 = λ b v. b ++ (v ∷ []);
  append_fixed64 = λ b v. b ++ (v ∷ []);
  append_bytes = λ b v. b ++ (length v ∷ v);
  consume_tag = first (λ x. (x / 8, x % 8));
  consume_varint = first (λ x. x);
  consume_bytes = counted;
  consume_fixed32 = first (λ x. x);
  consume_fixed64 = first (λ x. x);
  consume_field_value = λ num typ b. skipped typ b;
}

take_all : (v rest : List ℕ) → counted (length v ∷ (v ++ rest)) ≡ Results.ok (v, length v + 1)
take_all v rest = ground (arith, length-append v rest, take-append v rest)

tag_first : (b : List ℕ) {num typ n : ℕ} → plain.consume_tag b ≡ Results.ok ((num, typ), n) → 0 < n
tag_first [] h = absurd cc
tag_first (x ∷ b) h = ground arith

number_first : (b : List ℕ) {v n : ℕ} → plain.consume_varint b ≡ Results.ok (v, n) → 0 < n
number_first [] h = absurd cc
number_first (x ∷ b) h = ground arith

pub plain-IsWire : IsWire plain
plain-IsWire = record {
  tag_appended = λ b num typ. refl;
  varint_appended = λ b v. refl;
  bytes_appended = λ b v. refl;
  fixed32_appended = λ b v. refl;
  fixed64_appended = λ b v. refl;
  fixed32_consumed = λ v rest fits. refl;
  fixed64_consumed = λ v rest fits. refl;
  varint_has_bytes = λ b {v} {n} h. number_first b h;
  tag_consumed = λ num typ rest low high known. ground arith;
  varint_consumed = λ v rest fits. refl;
  bytes_consumed = λ v rest. ground (arith, take_all v rest);
  tag_has_bytes = λ b {num} {typ} {n} h. tag_first b h;
}
