-- ===== src/Wallet/Solana/Tests.antt =====
-- Transactions of projects/02-wallet-scoring/internal/solana on concrete bytes.
use portfolio_itmo.Common.{
  ℕ, zero, suc, ◌+◌, ◌<◌, List, [], ◌∷◌, ◌++◌, Option, none, some, length, get_elem?, All, Result,
  ok, err, ◌≡◌, refl, ◌↔◌, arith, true, false,
}
use portfolio_itmo.Common
use portfolio_itmo.Wallet.Solana.{
  codes, Address, Instruction, Transaction, panicked, transfer, swap, system_program,
  raydium_amm_v4, raydium_cpmm, meteora_dlmm, orca_whirlpool, is_dex, classify_instruction,
  classify_system, compute_budget_program, memo_program, jupiter_v6,
}
use portfolio_itmo.Wallet.Solana.Base58.{base58_encode, base58_decode, digits_loop, carry_loop}
use portfolio_itmo.Wallet.Solana.Base58.RoundTrip.{base58_decode-base58_encode}
use portfolio_itmo.Wallet.Solana.Reader.Compact.{
  write_compact_u16, IsBefore, advance, compact_u16-write_compact_u16,
}
use portfolio_itmo.Wallet.Solana.Reader.{new_reader, peek, uint8, bytes, compact_u16}
use portfolio_itmo.Wallet.Solana.Parser.{
  parse_transaction, parse_message, parse_body, read_signatures, read_keys, read_instructions,
  read_instruction, read_parts, resolve, resolve_instruction, set_parties, summarise_first,
  summarise_transfer, fill_summary, decode_transfer_amount, bare_transaction,
}
use portfolio_itmo.Wallet.Solana.Parser.Summary.{IsWellFormed, parse_transaction-IsWellFormed}
use portfolio_itmo.Wallet.Solana.Parser.Transfer.{
  IsCutShort, HasCutShort, decode_transfer_amount_iff, fill_summary-HasCutShort,
}
use portfolio_itmo.Wallet.Solana.Swap.{
  SwapEvent, decode_raydium_v4, raydium_v4_swap_base_in, decode_swap, swaps_loop, decode_all_swaps,
}
use portfolio_itmo.Wallet.Solana.Swap.Events.{IsDecoded, decode_all_swaps_iff}
use portfolio_itmo.Wallet.Solana.Swap.Layout.{
  Layout, route, event_on, laid_out, decode_swap-laid_out,
}
use portfolio_itmo.Wallet.Solana.Swap.Roles.{Roles}
use portfolio_itmo.Wallet.Solana.Update.{
  encode_keys, convert_instructions, convert, transaction_from_update,
  transaction_from_update-IsWellFormed,
}
use portfolio_itmo.Wallet.Geyser.SubscribeUpdateTransaction.{SubscribeUpdateTransaction}

abbrev copies : ℕ → ℕ → List ℕ
copies zero x = []
copies (suc n) x = x ∷ copies n x

abbrev accounts : ℕ → List Address
accounts zero = []
accounts (suc n) = (97 ∷ []) ∷ accounts n

-- A transfer of the system program with nine bytes of data.
abbrev cut_short : Instruction
cut_short = record {
  program_id = system_program;
  accounts = [];
  payload = 2 ∷ copies 8 0;
  kind = transfer;
}

abbrev no_event : SwapEvent
no_event = record {
  dex = [];
  pool = [];
  user = [];
  token_in = [];
  token_out = [];
  amount_in = 0;
  min_out = 0;
  amount_out = 0;
  slippage = 0;
  is_buy = false;
  signature = [];
  slot = 0;
  ix_index = 0;
}

-- A transfer of 5 lamports from the second key, whose bytes are 31 zeros and a 7.
abbrev raw : List ℕ
raw =
    1 ∷ copies 64 3
    ++ (1 ∷ 0 ∷ 1 ∷ 2 ∷ copies 32 0)
    ++ (copies 31 0 ++ (7 ∷ copies 32 9))
    ++ (1 ∷ 0 ∷ 1 ∷ 1 ∷ 12 ∷ 2 ∷ 0 ∷ 0 ∷ 0 ∷ 5 ∷ copies 7 0)

abbrev parsed : Transaction
parsed = elim (parse_transaction raw) [
  | Common.ok tx ↦ tx
  | Common.err e ↦ bare_transaction [] [] []
]

raw_amount : parsed.amount ≡ 5
unfolding parse_transaction parse_message parse_body read_signatures read_keys read_instructions
    read_instruction read_parts resolve resolve_instruction set_parties summarise_first
    summarise_transfer fill_summary decode_transfer_amount peek uint8 bytes compact_u16
    base58_encode digits_loop carry_loop system_program compute_budget_program memo_program
    classify_instruction classify_system portfolio_itmo.Common.Equality.list_beq
raw_amount = refl

raw-parsed : parse_transaction raw ≡ ok parsed
unfolding parse_transaction parse_message parse_body read_signatures read_keys read_instructions
    read_instruction read_parts resolve resolve_instruction set_parties summarise_first
    summarise_transfer fill_summary decode_transfer_amount peek uint8 bytes compact_u16
    base58_encode digits_loop carry_loop system_program compute_budget_program memo_program
    classify_instruction classify_system portfolio_itmo.Common.Equality.list_beq
raw-parsed = refl

parse_transaction-IsWellFormed_example : IsWellFormed parsed
parse_transaction-IsWellFormed_example = parse_transaction-IsWellFormed raw parsed raw-parsed

-- The same transaction as an update of the stream.
abbrev update : SubscribeUpdateTransaction
update = record {
  transaction = some (record {
    signature = copies 64 3;
    is_vote = false;
    transaction = some (record {
      signatures = copies 64 3 ∷ [];
      message = some (record {
        header = none;
        account_keys = copies 32 0 ∷ (copies 31 0 ++ (7 ∷ [])) ∷ [];
        recent_blockhash = [];
        instructions =
            record {
              program_id_index = 0;
              accounts = 1 ∷ [];
              payload = 2 ∷ 0 ∷ 0 ∷ 0 ∷ 5 ∷ copies 7 0;
            }
            ∷ [];
        is_versioned = false;
      });
    });
    meta = none;
    index = 0;
  });
  slot = 9;
}

abbrev converted : Transaction
converted = elim (transaction_from_update update) [
  | Common.ok tx ↦ tx
  | Common.err e ↦ bare_transaction [] [] []
]

update-converted : transaction_from_update update ≡ ok converted
unfolding transaction_from_update convert encode_keys convert_instructions decode_all_swaps
    swaps_loop is_dex raydium_amm_v4 raydium_cpmm orca_whirlpool jupiter_v6 meteora_dlmm resolve
    resolve_instruction set_parties summarise_first summarise_transfer fill_summary
    decode_transfer_amount base58_encode digits_loop carry_loop system_program
    compute_budget_program memo_program classify_instruction classify_system
    portfolio_itmo.Common.Equality.list_beq
update-converted = refl

transaction_from_update-IsWellFormed_example : IsWellFormed converted
transaction_from_update-IsWellFormed_example =
    transaction_from_update-IsWellFormed update converted update-converted

-- A swap that pays 3 for at least 2.
abbrev swapping : Instruction
swapping = record {
  program_id = raydium_amm_v4;
  accounts = accounts 17;
  payload = 9 ∷ 3 ∷ copies 7 0 ++ (2 ∷ copies 7 0);
  kind = swap;
}

abbrev swaps : Transaction
swaps = bare_transaction (65 ∷ []) [] (cut_short ∷ swapping ∷ [])

abbrev event : SwapEvent
event = elim (decode_swap swapping (65 ∷ []) 0 1) [ some ev ↦ ev | none ↦ no_event ]

swapping-event : decode_swap swapping (65 ∷ []) 0 1 ≡ some event
unfolding decode_swap decode_raydium_v4 raydium_v4_swap_base_in raydium_amm_v4
    portfolio_itmo.Common.Equality.list_beq
swapping-event = refl

swaps-event : (decode_all_swaps swaps).0 ≡ event ∷ []
unfolding decode_all_swaps swaps_loop is_dex decode_swap decode_raydium_v4 raydium_v4_swap_base_in
    raydium_amm_v4 raydium_cpmm orca_whirlpool jupiter_v6 meteora_dlmm system_program
    portfolio_itmo.Common.Equality.list_beq
swaps-event = refl

decode_all_swaps_iff_example :
    ((k : ℕ) × (get_elem? (decode_all_swaps swaps).0 k ≡ some event)) ↔ IsDecoded swaps event
decode_all_swaps_iff_example = decode_all_swaps_iff swaps event

-- A route of one step that pays 1000 for at least 990, with half a percent of slippage.
abbrev one_step : Layout
one_step = route 1 (copies 40 8) 1000 990 50 (1 ∷ [])

abbrev traders : Roles
traders = record { pool = []; user = 98 ∷ []; token_in = 100 ∷ []; token_out = 103 ∷ [] }

-- Thirteen accounts, each named by a letter.
abbrev letters : ℕ → ℕ → List Address
letters zero c = []
letters (suc n) c = (c ∷ []) ∷ letters n (c + 1)

decode_swap-laid_out_example :
    decode_swap (laid_out one_step (letters 13 97) swap) (65 ∷ []) 7 2
    ≡ some (event_on (65 ∷ []) 7 2 traders one_step)
decode_swap-laid_out_example =
    decode_swap-laid_out (65 ∷ []) 7 2 traders one_step (letters 13 97) swap (omega arith)
      (omega arith, (refl, refl, refl, refl))

decode_transfer_amount_iff_example :
    (decode_transfer_amount cut_short ≡ err panicked) ↔ IsCutShort cut_short
decode_transfer_amount_iff_example = decode_transfer_amount_iff cut_short

swaps-panicked : fill_summary swaps ≡ err panicked
unfolding fill_summary summarise_first summarise_transfer decode_transfer_amount system_program
    compute_budget_program memo_program raydium_amm_v4 portfolio_itmo.Common.Equality.list_beq
swaps-panicked = refl

fill_summary-HasCutShort_example : (panicked ≡ panicked) × HasCutShort swaps.instructions
fill_summary-HasCutShort_example = fill_summary-HasCutShort swaps panicked swaps-panicked

base58_decode-base58_encode_example :
    (s : Address) × (base58_encode (0 ∷ 255 ∷ 17 ∷ []) ≡ some s)
    × (base58_decode s ≡ ok (0 ∷ 255 ∷ 17 ∷ []))
base58_decode-base58_encode_example = base58_decode-base58_encode (0 ∷ 255 ∷ 17 ∷ []) (omega arith)

encode_small : base58_encode (0 ∷ 0 ∷ 40 ∷ 127 ∷ 180 ∷ 205 ∷ []) ≡ some (codes "11233QC4")
unfolding base58_encode digits_loop carry_loop
encode_small = refl

decode_small : base58_decode (codes "11233QC4") ≡ ok (0 ∷ 0 ∷ 40 ∷ 127 ∷ 180 ∷ 205 ∷ [])
unfolding base58_decode carry_loop
decode_small = refl

three_bytes : write_compact_u16 40000 ≡ 192 ∷ 184 ∷ 2 ∷ []
unfolding write_compact_u16
three_bytes = refl

IsBefore-bytes :
    IsBefore (write_compact_u16 40000 ++ (7 ∷ [])) (new_reader (192 ∷ 184 ∷ 2 ∷ 7 ∷ []))
unfolding write_compact_u16
IsBefore-bytes = (refl, refl)

compact_u16-write_compact_u16_example :
    compact_u16 (new_reader (192 ∷ 184 ∷ 2 ∷ 7 ∷ []))
    ≡ (40000, advance (length (write_compact_u16 40000)) (new_reader (192 ∷ 184 ∷ 2 ∷ 7 ∷ [])))
compact_u16-write_compact_u16_example =
    compact_u16-write_compact_u16 40000 (7 ∷ []) (new_reader (192 ∷ 184 ∷ 2 ∷ 7 ∷ [])) (omega arith)
      IsBefore-bytes
