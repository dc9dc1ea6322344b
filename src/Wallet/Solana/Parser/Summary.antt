-- ===== src/Wallet/Solana/Parser/Summary.antt =====
-- What the decoding of a transaction fills in comes from its account keys.
use portfolio_itmo.Common.{
  ℕ, zero, suc, Bool, true, false, List, [], ◌∷◌, Option, none, some, get_elem?, ok, err, ◌>>=◌,
  Returns, >>=-Returns, if-Returns, after-Returns, Returns-map, of_Returns, or_err-Returns, ◌≡◌,
  refl, All, ◌⊎◌, inl, inr, ◌||◌, ◌==◌, ltb, if◌then◌else◌,
}
use portfolio_itmo.Common.Equality.{nat_eq, list_eq}
use portfolio_itmo.Wallet.Solana.{
  Address, Instruction, Transaction, classify_instruction, read_past_end, bad_signature_count,
  bad_account_key_count,
}
use portfolio_itmo.Wallet.Solana.Reader.{Reader, new_reader, bytes, compact_u16}
use portfolio_itmo.Wallet.Solana.Parser.{
  resolve, resolve_instruction, read_parts, read_instruction, read_instructions, read_keys,
  set_parties, summarise_first, summarise_transfer, fill_summary, parse_body, parse_message,
  parse_transaction, decode_transfer_amount, bare_transaction, first_of, skip_tables, encoded,
  read_signatures,
}

-- One of the account keys.
abbrev pub IsKey : List Address → Address → Type 0
IsKey keys a = (i : ℕ) × (get_elem? keys i ≡ some a)

-- The program and the accounts are account keys, and the kind is that of the program and the data.
abbrev pub IsResolved : List Address → Instruction → Type 0
IsResolved keys ix =
    IsKey keys ix.program_id
    × All (IsKey keys) ix.accounts
    × (ix.kind ≡ classify_instruction ix.program_id ix.payload)

-- A field that is empty until it is filled from an account key.
abbrev pub IsKeyOrEmpty : List Address → Address → Type 0
IsKeyOrEmpty keys a = (a ≡ []) ⊎ IsKey keys a

abbrev pub IsWellFormed : Transaction → Type 0
IsWellFormed tx =
    All (IsResolved tx.accounts) tx.instructions
    × IsKeyOrEmpty tx.accounts tx.sender
    × IsKeyOrEmpty tx.accounts tx.receiver
    × IsKeyOrEmpty tx.accounts tx.program_id

resolve-IsKey : (keys : List Address) (is : List ℕ) → Returns (All (IsKey keys)) (resolve keys is)
unfolding resolve
resolve-IsKey keys [] = tt
resolve-IsKey keys (i ∷ is) =
    >>=-Returns (λ a. get_elem? keys i ≡ some a) (All (IsKey keys)) _ _
      (or_err-Returns (get_elem? keys i) _)
      (λ a e.
        >>=-Returns (All (IsKey keys)) (All (IsKey keys)) (resolve keys is) _
          (resolve-IsKey keys is) (λ as' h. ((i, e), h)))

pub resolve_instruction-IsResolved :
    (keys : List Address) (program_idx : ℕ) (acc_idx payload : List ℕ)
    → Returns (IsResolved keys) (resolve_instruction keys program_idx acc_idx payload)
unfolding resolve_instruction
resolve_instruction-IsResolved keys program_idx acc_idx payload =
    >>=-Returns (λ a. get_elem? keys program_idx ≡ some a) (IsResolved keys) _ _
      (or_err-Returns (get_elem? keys program_idx) _)
      (λ program e.
        >>=-Returns (All (IsKey keys)) (IsResolved keys) (resolve keys acc_idx) _
          (resolve-IsKey keys acc_idx) (λ as' h. ((program_idx, e), h, refl)))

read_instruction-IsResolved :
    (keys : List Address) (r : Reader)
    → Returns (λ (p : Instruction × Reader). IsResolved keys p.0) (read_instruction keys r)
unfolding read_instruction
read_instruction-IsResolved keys r =
    let ((program_idx, acc_idx, payload), r') = read_parts r in
    if-Returns (λ (p : Instruction × Reader). IsResolved keys p.0) r'.failed (err read_past_end) _
      tt
      (>>=-Returns (IsResolved keys) (λ (p : Instruction × Reader). IsResolved keys p.0)
        (resolve_instruction keys program_idx acc_idx payload) (λ ix. ok (ix, r'))
        (resolve_instruction-IsResolved keys program_idx acc_idx payload) (λ ix h. h))

abbrev AreResolved : List Address → List Instruction × Reader → Type 0
AreResolved keys p = All (IsResolved keys) p.0

read_instructions-IsResolved :
    (keys : List Address) (n : ℕ) (r : Reader)
    → Returns (AreResolved keys) (read_instructions keys n r)
unfolding read_instructions
read_instructions-IsResolved keys zero r = tt
read_instructions-IsResolved keys (suc n) r =
    >>=-Returns (λ (p : Instruction × Reader). IsResolved keys p.0) (AreResolved keys)
      (read_instruction keys r) (λ p. read_instructions keys n p.1 >>= λ q. ok (p.0 ∷ q.0, q.1))
      (read_instruction-IsResolved keys r)
      (λ p hp.
        >>=-Returns (AreResolved keys) (AreResolved keys) (read_instructions keys n p.1)
          (λ q. ok (p.0 ∷ q.0, q.1)) (read_instructions-IsResolved keys n p.1) (λ q hq. (hp, hq)))

-- The fields that `fillSummary` fills, for the account keys and the instructions.
abbrev IsSummary : List Address → List Instruction → Transaction → Type 0
IsSummary keys ixs tx =
    (tx.accounts ≡ keys)
    × (tx.instructions ≡ ixs)
    × IsKeyOrEmpty keys tx.sender
    × IsKeyOrEmpty keys tx.receiver
    × IsKeyOrEmpty keys tx.program_id

set_parties-IsSummary :
    (keys : List Address) (ixs : List Instruction) (as' : List Address) (tx : Transaction)
    → All (IsKey keys) as'
    → IsSummary keys ixs tx
    → IsSummary keys ixs (set_parties as' tx)
unfolding set_parties
set_parties-IsSummary keys ixs [] tx h (a, i, s, r, p) = (a, i, s, r, p)
set_parties-IsSummary keys ixs (x ∷ []) tx h (a, i, s, r, p) = (a, i, inr h.0, r, p)
set_parties-IsSummary keys ixs (x ∷ y ∷ rest) tx h (a, i, s, r, p) = (a, i, inr h.0, inr h.1.0, p)

summarise_first-IsSummary :
    (keys : List Address) (all ixs : List Instruction) (tx : Transaction)
    → All (IsResolved keys) ixs
    → IsSummary keys all tx
    → IsSummary keys all (summarise_first ixs tx)
unfolding summarise_first
summarise_first-IsSummary keys all [] tx h s = s
summarise_first-IsSummary keys all (ix ∷ ixs) tx h (a, i, s, r, p) =
    if-IsSummary keys all _ _ _ (summarise_first-IsSummary keys all ixs tx h.1 (a, i, s, r, p)) (
      set_parties-IsSummary keys all ix.accounts (record tx { program_id = ix.program_id }) h.0.1
        (a, i, s, r, inr h.0.0))
  where
    if-IsSummary :
        (keys : List Address) (all : List Instruction) (b : Bool) (x y : Transaction)
        → IsSummary keys all x
        → IsSummary keys all y
        → IsSummary keys all (if b then x else y)
    if-IsSummary keys all true x y hx hy = hx
    if-IsSummary keys all false x y hx hy = hy

summarise_transfer-IsSummary :
    (keys : List Address) (all ixs : List Instruction) (tx : Transaction)
    → All (IsResolved keys) ixs
    → IsSummary keys all tx
    → Returns (IsSummary keys all) (summarise_transfer ixs tx)
unfolding summarise_transfer
summarise_transfer-IsSummary keys all [] tx h s = s
summarise_transfer-IsSummary keys all (ix ∷ ixs) tx h s =
    after-Returns (IsSummary keys all) (decode_transfer_amount ix) _
      (λ o. after_amount (summarise_transfer-IsSummary keys all ixs tx h.1 s) o)
  where
    filled : ℕ → Transaction
    filled n = set_parties ix.accounts (record tx { amount = n; program_id = ix.program_id })

    after_amount :
        Returns (IsSummary keys all) (summarise_transfer ixs tx)
        → (o : Option ℕ)
        → Returns
            (IsSummary keys all)
            (elim o [ none ↦ summarise_transfer ixs tx | some n ↦ ok (filled n) ])
    after_amount rest none = rest
    after_amount rest (some n) =
        set_parties-IsSummary keys all ix.accounts
          (record tx { amount = n; program_id = ix.program_id }) h.0.1
          (s.0, s.1, s.2, s.3, inr h.0.0)

-- A transaction with no summary yet.
abbrev pub IsBare : Transaction → Type 0
IsBare tx = (tx.sender ≡ []) × (tx.receiver ≡ []) × (tx.program_id ≡ [])

pub fill_summary-IsWellFormed :
    (tx : Transaction)
    → All (IsResolved tx.accounts) tx.instructions
    → IsBare tx
    → Returns IsWellFormed (fill_summary tx)
unfolding fill_summary
fill_summary-IsWellFormed tx h (s, r, p) =
    let bare : IsSummary tx.accounts tx.instructions tx = (refl, refl, inl s, inl r, inl p) in
    let first = summarise_first-IsSummary tx.accounts tx.instructions tx.instructions tx h bare in
    let last = summarise_transfer-IsSummary tx.accounts tx.instructions tx.instructions _ h first in
    Returns-map (IsSummary tx.accounts tx.instructions) IsWellFormed _ last finish
  where
    finish : (t : Transaction) → IsSummary tx.accounts tx.instructions t → IsWellFormed t
    finish t (a, i, s, r, p) = (rw (i, a) h, rw a s, rw a r, rw a p)

parse_body-IsWellFormed :
    (versioned : Bool) (sigs : List (List ℕ)) (keys : List Address) (r : Reader)
    → Returns IsWellFormed (parse_body versioned sigs keys r)
unfolding parse_body
parse_body-IsWellFormed versioned sigs keys r =
    let (blockhash, r') = bytes 32 r in
    let (instr_count, r') = compact_u16 r' in
    let signed = λ (p : List Instruction × Reader) (x : Reader). do
      signature ← encoded (first_of sigs)
      fill_summary (bare_transaction signature keys p.0)
    in let tables = λ (p : List Instruction × Reader).
      if versioned then skip_tables (compact_u16 p.1).0 (compact_u16 p.1).1 else ok p.1 in
      if-Returns IsWellFormed r'.failed (err read_past_end) _ tt (
        >>=-Returns (AreResolved keys) IsWellFormed (read_instructions keys instr_count r')
          (λ p. tables p >>= signed p) (read_instructions-IsResolved keys instr_count r')
          (λ p h. after-Returns IsWellFormed (tables p) (signed p) (λ x.
            after-Returns IsWellFormed (encoded (first_of sigs))
              (λ signature. fill_summary (bare_transaction signature keys p.0))
              (λ signature.
                fill_summary-IsWellFormed (bare_transaction signature keys p.0) h
                  (refl, refl, refl)))))

parse_message-IsWellFormed :
    (sigs : List (List ℕ)) (r : Reader) → Returns IsWellFormed (parse_message sigs r)
unfolding parse_message
parse_message-IsWellFormed sigs r =
    if-Returns IsWellFormed _ (err (bad_account_key_count _))
      (read_keys _ _ >>= λ p. parse_body _ sigs p.0 p.1) tt
      (after-Returns IsWellFormed (read_keys _ _) (λ p. parse_body _ sigs p.0 p.1)
        (λ p. parse_body-IsWellFormed _ sigs p.0 p.1))

parse_transaction-Returns : (raw : List ℕ) → Returns IsWellFormed (parse_transaction raw)
unfolding parse_transaction
parse_transaction-Returns raw =
    let (sig_count, r) = compact_u16 (new_reader raw) in
    let (sigs, r') = read_signatures sig_count r in
    if-Returns IsWellFormed (r.failed || sig_count == 0 || ltb 64 sig_count)
      (err (bad_signature_count sig_count)) _ tt
      (if-Returns IsWellFormed r'.failed (err read_past_end) (parse_message sigs r') tt
        (parse_message-IsWellFormed sigs r'))

-- What `ParseTransaction` returns without an error is made of the account keys of the transaction: every
-- program, account, sender and receiver is one of them, sender, receiver and program may be empty, and
-- every instruction has the kind of its program and data.
pub parse_transaction-IsWellFormed :
    (raw : List ℕ) (tx : Transaction) → parse_transaction raw ≡ ok tx → IsWellFormed tx
parse_transaction-IsWellFormed raw tx h =
    of_Returns IsWellFormed (parse_transaction raw) tx (parse_transaction-Returns raw) h
