-- ===== src/Mpc/Session/Inputs/Shares.antt =====
-- The slots that `shareInputs` returns add up to the inputs, slot by slot.
use portfolio_itmo.Common.{
  ℕ, suc, ◌+◌, ◌-◌, ◌*◌, ◌≤◌, ◌<◌, ◌≡◌, ◌∙◌, refl, ap, arith, List, [], ◌∷◌, some, All, length,
  drop, drop-add, length-drop, ok,
}
use portfolio_itmo.Common.Congruence.{Cong, Cong-refl, Cong-add}
use portfolio_itmo.Common.Dict.{Dict, lookup}
use portfolio_itmo.Common.Equality.{nat_eq}
use native.Mathlib.Nat.{add_comm, zero-mul, suc-mul}
use portfolio_itmo.Mpc.Field.{Field, FieldElement, from_string}
use portfolio_itmo.Mpc.Sharing.Laws.{
  sum_v, shares_of, additive_share_total, length-shares_of, sum-shares_of,
}
use portfolio_itmo.Mpc.Session.Inputs.{share_slots}

-- The inputs from slot `i` on are decimal strings of these numbers.
abbrev pub Reads : Field → Dict ℕ (List ℕ) → ℕ → List FieldElement → Type 0
Reads f inputs i [] = Unit {0}
Reads f inputs i (x ∷ xs) =
    ((raw : List ℕ) × (lookup i inputs ≡ some raw) × (from_string f raw ≡ ok x))
    × Reads f inputs (i + 1) xs

-- The sum of all the shares of all slots.
abbrev pub slot_sum : List (List FieldElement) → ℕ
slot_sum [] = 0
slot_sum (s ∷ slots) = sum_v s + slot_sum slots

module _ (f : Field) (positive : 0 < f.p) (parties : ℕ) (two : 2 ≤ parties) where
  pub slots_of : List FieldElement → List ℕ → List (List FieldElement)
  slots_of [] reader = []
  slots_of (x ∷ xs) reader =
      shares_of f positive x parties reader ∷ slots_of xs (drop (parties - 1) reader)

  pub share_slots_total :
      (inputs : Dict ℕ (List ℕ)) (i : ℕ) (secrets : List FieldElement) (reader : List ℕ)
      → Reads f inputs i secrets
      → length secrets * (parties - 1) ≤ length reader
      → share_slots f inputs parties i (length secrets) reader
        ≡ (ok (slots_of secrets reader), drop (length secrets * (parties - 1)) reader)
  unfolding share_slots slots_of
  share_slots_total inputs i [] reader h enough = rw zero-mul refl
  share_slots_total inputs i (x ∷ xs) reader ((raw, found, parsed), later) enough =
      let k = length xs in
      let split : suc k * (parties - 1) ≡ (parties - 1) + k * (parties - 1) =
        suc-mul k (parties - 1) ∙ add_comm (k * (parties - 1)) (parties - 1) in
      ground (
        arith,
        found,
        parsed,
        additive_share_total f positive x parties reader two (omega (arith, split)),
        share_slots_total inputs (i + 1) xs (drop (parties - 1) reader) later
            (omega (arith, split, length-drop (parties - 1) reader)),
        ap (λ n. drop n reader) split,
        drop-add (parties - 1) (k * (parties - 1)) reader,
      )

  -- Every slot has a share for each party.
  pub slots_of-length :
      (secrets : List FieldElement) (reader : List ℕ)
      → length secrets * (parties - 1) ≤ length reader
      → All (λ (s : List FieldElement). length s ≡ parties) (slots_of secrets reader)
  unfolding slots_of
  slots_of-length [] reader enough = tt
  slots_of-length (x ∷ xs) reader enough =
      let split : suc (length xs) * (parties - 1) ≡ length xs * (parties - 1) + (parties - 1) =
        suc-mul (length xs) (parties - 1) in
      (
        length-shares_of f positive x parties reader two (omega (arith, split)),
        slots_of-length xs (drop (parties - 1) reader)
            (omega (arith, split, length-drop (parties - 1) reader)),
      )

  pub slots_of-sum :
      (secrets : List FieldElement) (reader : List ℕ)
      → Cong f.p (slot_sum (slots_of secrets reader)) (sum_v secrets)
  unfolding slots_of
  slots_of-sum [] reader = Cong-refl 0
  slots_of-sum (x ∷ xs) reader =
      Cong-add (sum-shares_of f positive x parties reader)
        (slots_of-sum xs (drop (parties - 1) reader))
