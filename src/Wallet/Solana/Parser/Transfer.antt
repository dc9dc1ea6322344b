-- ===== src/Wallet/Solana/Parser/Transfer.antt =====
-- `decodeTransferAmount` and the second loop of `fillSummary`.
use portfolio_itmo.Common.{
  ℕ, suc, List, [], ◌∷◌, none, some, length, get_elem?, slice, err, >>=-eq-err, ◌≡◌, refl, ◌↔◌, inl,
  inr, arith,
}
use portfolio_itmo.Common.Equality.{nat_eq, list_eq, list_beq_iff}
use portfolio_itmo.Wallet.Solana.{
  Instruction, Transaction, Error, panicked, system_program, le_uint,
}
use portfolio_itmo.Wallet.Solana.Parser.{decode_transfer_amount, summarise_transfer, fill_summary}

-- A transfer of the system program whose number is cut short.
abbrev pub IsCutShort : Instruction → Type 0
IsCutShort ix =
    (ix.program_id ≡ system_program)
    × (length ix.payload ≡ 9)
    × (le_uint (slice ix.payload 0 4) ≡ 2)

decode_transfer_amount-panicked :
    (ix : Instruction) (e : Error)
    → decode_transfer_amount ix ≡ err e
    → (e ≡ panicked) × IsCutShort ix
unfolding decode_transfer_amount
decode_transfer_amount-panicked ix e h = ground (arith, list_beq_iff ix.program_id system_program)

-- The amount of an instruction is out of reach exactly if it is a transfer of the system program whose
-- data have nine bytes: the slice of the number then goes past the capacity, and the code panics.
pub decode_transfer_amount_iff :
    (ix : Instruction) → (decode_transfer_amount ix ≡ err panicked) ↔ IsCutShort ix
unfolding decode_transfer_amount
decode_transfer_amount_iff ix = (
  λ h. (decode_transfer_amount-panicked ix panicked h).1,
  λ h. ground (arith, list_beq_iff ix.program_id system_program),
)

-- An instruction that is cut short is among those of the list.
abbrev pub HasCutShort : List Instruction → Type 0
HasCutShort ixs = (i : ℕ) × (ix : Instruction) × (get_elem? ixs i ≡ some ix) × IsCutShort ix

HasCutShort-later :
    (ix : Instruction) (ixs : List Instruction) → HasCutShort ixs → HasCutShort (ix ∷ ixs)
HasCutShort-later ix ixs (i, x, at, h) = (suc i, x, at, h)

summarise_transfer-IsCutShort :
    (ixs : List Instruction) (tx : Transaction) (e : Error)
    → summarise_transfer ixs tx ≡ err e
    → (e ≡ panicked) × HasCutShort ixs
unfolding summarise_transfer
summarise_transfer-IsCutShort [] tx e h = absurd cc
summarise_transfer-IsCutShort (ix ∷ ixs) tx e h =
    elim (>>=-eq-err (decode_transfer_amount ix) _ h) [
      | inl first ↦
          let (p, short) = decode_transfer_amount-panicked ix e first in (p, (0, ix, refl, short))
      | inr (none, d, later) ↦
          let (p, short) = summarise_transfer-IsCutShort ixs tx e later in
          (p, HasCutShort-later ix ixs short)
      | inr (some n, d, later) ↦ absurd cc
    ]

-- `fillSummary` fails in no other way than by the panic, and on a transfer that is cut short only.
pub fill_summary-HasCutShort :
    (tx : Transaction) (e : Error)
    → fill_summary tx ≡ err e
    → (e ≡ panicked) × HasCutShort tx.instructions
unfolding fill_summary
fill_summary-HasCutShort tx e h = summarise_transfer-IsCutShort tx.instructions _ e h
