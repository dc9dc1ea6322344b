-- ===== src/Wallet/Solana/Parser.antt =====
-- `ParseTransaction` of projects/02-wallet-scoring/internal/solana/parser.go.
pub mod Summary
pub mod Transfer
use portfolio_itmo.Common.{
  ℕ, zero, suc, ◌+◌, ◌*◌, ◌/◌, Bool, true, false, ◌||◌, List, [], ◌∷◌, ◌++◌, Option, none, some,
  length, get_elem?, drop, slice, ltb, leb, ◌==◌, if◌then◌else◌, Result, ok, err, or_err, ◌>>=◌,
}
use portfolio_itmo.Common
use portfolio_itmo.Common.Equality.{same, nat_eq, list_eq}
use portfolio_itmo.Wallet.Solana.{
  Address, Instruction, Transaction, Error, bad_signature_count, bad_account_key_count,
  read_past_end, program_index_out_of_range, account_index_out_of_range, panicked, system_program,
  token_program, token_program_2022, compute_budget_program, memo_program, le_uint, byte_at,
  classify_instruction,
}
use portfolio_itmo.Wallet.Solana.Base58.{base58_encode}
use portfolio_itmo.Wallet.Solana.Reader.{Reader, new_reader, peek, uint8, bytes, compact_u16}

abbrev pub encoded : List ℕ → Result Error Address
encoded b = elim (base58_encode b) [ none ↦ err panicked | some s ↦ ok s ]

-- The loop over the signatures.
unfoldable pub read_signatures : ℕ → Reader → List (List ℕ) × Reader
read_signatures zero r = ([], r)
read_signatures (suc n) r =
    let (s, r) = bytes 64 r in let (ss, r) = read_signatures n r in (s ∷ ss, r)

-- The loop over the account keys.
unfoldable pub read_keys : ℕ → Reader → Result Error (List Address × Reader)
read_keys zero r = ok ([], r)
read_keys (suc n) r = do
  let (b, r) = bytes 32 r
  key ← encoded b
  (keys, r) ← read_keys n r
  ok (key ∷ keys, r)

-- The loop over the indices of an instruction's accounts.
unfoldable pub resolve : List Address → List ℕ → Result Error (List Address)
resolve keys [] = ok []
resolve keys (i ∷ is) = do
  a ← or_err (get_elem? keys i) (account_index_out_of_range i)
  as' ← resolve keys is
  ok (a ∷ as')

-- The program is known before the accounts are looked up.
unfoldable pub resolve_instruction : List Address → ℕ → List ℕ → List ℕ → Result Error Instruction
resolve_instruction keys program_idx acc_idx payload = do
  program ← or_err (get_elem? keys program_idx) (program_index_out_of_range program_idx)
  accounts ← resolve keys acc_idx
  ok (record {
    program_id = program;
    accounts = accounts;
    payload = payload;
    kind = classify_instruction program payload;
  })

-- What an instruction holds: the index of its program, those of its accounts, and its data.
unfoldable pub read_parts : Reader → (ℕ × List ℕ × List ℕ) × Reader
read_parts r =
    let (program_idx, r) = uint8 r in
    let (acc_count, r) = compact_u16 r in
    let (acc_idx, r) = bytes acc_count r in
    let (data_len, r) = compact_u16 r in
    let (payload, r) = bytes data_len r in ((program_idx, acc_idx, payload), r)

-- One round of the loop over the instructions.
unfoldable pub read_instruction : List Address → Reader → Result Error (Instruction × Reader)
read_instruction keys r =
    let ((program_idx, acc_idx, payload), r) = read_parts r in
    if r.failed
    then err read_past_end
    else (do ix ← resolve_instruction keys program_idx acc_idx payload; ok (ix, r))

-- The loop over the instructions.
unfoldable pub read_instructions :
    List Address → ℕ → Reader → Result Error (List Instruction × Reader)
read_instructions keys zero r = ok ([], r)
read_instructions keys (suc n) r = do
  (ix, r) ← read_instruction keys r
  (ixs, r) ← read_instructions keys n r
  ok (ix ∷ ixs, r)

-- The loop over the address tables of a versioned transaction.
unfoldable pub skip_tables : ℕ → Reader → Result Error Reader
skip_tables zero r = ok r
skip_tables (suc n) r =
    let (key, r) = bytes 32 r in
    let (write_count, r) = compact_u16 r in
    let (writes, r) = bytes write_count r in
    let (read_count, r) = compact_u16 r in
    let (reads, r) = bytes read_count r in
    let more = skip_tables n r in if r.failed then err read_past_end else more

-- `data[4:12]` on what `base64.DecodeString` returns, whose capacity is a multiple of 3. The bytes
-- past its length are 0.
abbrev pub capacity : List ℕ → ℕ
capacity b = (length b + 2) / 3 * 3

unfoldable pub decode_transfer_amount : Instruction → Result Error (Option ℕ)
decode_transfer_amount ix =
    let b = ix.payload in
    if ltb (length b) 9
    then ok none
    else if same ix.program_id system_program
    then (if le_uint (slice b 0 4) == 2
        then (if ltb (capacity b) 12 then err panicked else ok (some (le_uint (slice b 4 12))))
        else ok none)
    else if same ix.program_id token_program || same ix.program_id token_program_2022
    then (if byte_at b 0 == 3 then ok (some (le_uint (slice b 1 9))) else ok none)
    else ok none

-- The accounts of an instruction as sender and receiver, as far as there are any.
unfoldable pub set_parties : List Address → Transaction → Transaction
set_parties [] tx = tx
set_parties (a ∷ []) tx = record tx { sender = a }
set_parties (a ∷ b ∷ rest) tx = record tx { sender = a; receiver = b }

-- The first loop of `fillSummary`.
unfoldable pub summarise_first : List Instruction → Transaction → Transaction
summarise_first [] tx = tx
summarise_first (ix ∷ ixs) tx =
    let rest = summarise_first ixs tx in
    if same ix.program_id compute_budget_program || same ix.program_id memo_program
    then rest
    else record (set_parties ix.accounts (record tx { program_id = ix.program_id })) {
      raw_data = ix.payload;
    }

-- The second loop.
unfoldable pub summarise_transfer : List Instruction → Transaction → Result Error Transaction
summarise_transfer [] tx = ok tx
summarise_transfer (ix ∷ ixs) tx = do
  amount ← decode_transfer_amount ix
  elim amount [
    | none ↦ summarise_transfer ixs tx
    | some n ↦ ok (set_parties ix.accounts (record tx { amount = n; program_id = ix.program_id }))
  ]

unfoldable pub fill_summary : Transaction → Result Error Transaction
fill_summary tx = summarise_transfer tx.instructions (summarise_first tx.instructions tx)

abbrev pub bare_transaction : Address → List Address → List Instruction → Transaction
bare_transaction signature keys instrs = record {
  signature = signature;
  slot = 0;
  fee = 0;
  is_success = true;
  accounts = keys;
  instructions = instrs;
  sender = [];
  receiver = [];
  amount = 0;
  program_id = [];
  swap_kind = [];
  raw_data = [];
}

abbrev pub first_of : List (List ℕ) → List ℕ
first_of [] = []
first_of (s ∷ ss) = s

-- What follows the account keys.
unfoldable pub parse_body : Bool → List (List ℕ) → List Address → Reader → Result Error Transaction
parse_body versioned sigs keys r =
    let (blockhash, r) = bytes 32 r in
    let (instr_count, r) = compact_u16 r in
    if r.failed then err read_past_end else (do
      (instrs, r) ← read_instructions keys instr_count r
      r ←
          if versioned
          then (let (table_count, r) = compact_u16 r in skip_tables table_count r)
          else ok r
      signature ← encoded (first_of sigs)
      fill_summary (bare_transaction signature keys instrs))

-- What follows the signatures.
unfoldable pub parse_message : List (List ℕ) → Reader → Result Error Transaction
parse_message sigs r =
    let versioned = leb 128 (peek r) in
    let r = if versioned then (uint8 r).1 else r in
    let (required_sigs, r) = uint8 r in
    let (readonly_signed, r) = uint8 r in
    let (readonly_unsigned, r) = uint8 r in
    let (key_count, r) = compact_u16 r in
    if r.failed || key_count == 0 || ltb 256 key_count
    then err (bad_account_key_count key_count)
    else (do (keys, r) ← read_keys key_count r; parse_body versioned sigs keys r)

unfoldable pub parse_transaction : List ℕ → Result Error Transaction
parse_transaction raw =
    let (sig_count, r) = compact_u16 (new_reader raw) in
    if r.failed || sig_count == 0 || ltb 64 sig_count
    then err (bad_signature_count sig_count)
    else (let (sigs, r) = read_signatures sig_count r in
        if r.failed then err read_past_end else parse_message sigs r)
