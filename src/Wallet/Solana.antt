-- ===== src/Wallet/Solana.antt =====
-- projects/02-wallet-scoring/internal/solana/programs.go and the records of internal/models that the
-- decoding of transactions fills. Addresses and signatures are texts in base 58, as lists of codes.
-- The data of an instruction, which the code keeps in base 64, are the bytes that the text stands for.
pub mod Base58
pub mod Reader
pub mod Parser
pub mod Swap
pub mod Update
mod Tests
use portfolio_itmo.Common.{
  ℕ, ◌+◌, ◌*◌, Bool, true, false, not, ◌||◌, List, [], ◌∷◌, Option, none, some, get_elem?, take,
  length, ltb, ◌==◌, if◌then◌else◌,
}
use portfolio_itmo.Common.Equality.{same, nat_eq, list_eq}
use Prim.Native.String.{String}
use Prim.Native.String
use Prim.Native.Char.{code}

abbrev pub Address : Type 0
Address = List ℕ

abbrev pub codes : String → List ℕ
codes String.[] = []
codes (String.◌∷◌ c s) = code c ∷ codes s

unfoldable pub system_program : Address
system_program = codes "11111111111111111111111111111111"

unfoldable pub token_program : Address
token_program = codes "TokenkegQfeZyiNwAJbNbGKPFXCWuBvf9Ss623VQ5DA"

unfoldable pub token_program_2022 : Address
token_program_2022 = codes "TokenzQdBNbLqP5VEhdkAS6EPFLC1PHnBqCXEpPxuEb"

unfoldable pub associated_token_program : Address
associated_token_program = codes "ATokenGPvbdGVxr1b2hvZbsiqW5xWH25efTNsLJA8knL"

unfoldable pub raydium_amm_v4 : Address
raydium_amm_v4 = codes "675kPX9MHTjS2zt1qfr1NYHuzeLXfQM9H24wFSUt1Mp8"

unfoldable pub raydium_cpmm : Address
raydium_cpmm = codes "CPMMoo8L3F4NbTegBCKVNunggL7H1ZpdTHKxQB5qKP1C"

unfoldable pub orca_whirlpool : Address
orca_whirlpool = codes "whirLbMiicVdio4qvUfM5KAg6Ct8VwpYzGff3uctyCc"

unfoldable pub jupiter_v6 : Address
jupiter_v6 = codes "JUP6LkbZbjS1jKKwapdHNy74zcZ3tLUZoi5QNyVTaV4"

unfoldable pub meteora_dlmm : Address
meteora_dlmm = codes "LBUZKhRxPF3XUpBCjp4YzTKgLccjZhTSDM9YuVaPwxo"

unfoldable pub compute_budget_program : Address
compute_budget_program = codes "ComputeBudget111111111111111111111111111111"

unfoldable pub memo_program : Address
memo_program = codes "MemoSq4gqABAXKb96qnH8TysNcWxMyWCqXgDLGmfcHr"

pub data InstructionKind : Type 0 where
  unknown transfer swap create_account close_account mint burn memo compute : InstructionKind

-- A little-endian number.
abbrev pub le_uint : List ℕ → ℕ
le_uint [] = 0
le_uint (b ∷ bs) = b + 256 * le_uint bs

abbrev pub byte_at : List ℕ → ℕ → ℕ
byte_at b i = elim (get_elem? b i) [ some x ↦ x | none ↦ 0 ]

unfoldable pub is_smart_contract : Address → Bool
is_smart_contract p = not (
    same p system_program
    || same p token_program
    || same p token_program_2022
    || same p associated_token_program
    || same p memo_program
    || same p compute_budget_program)

unfoldable pub is_dex : Address → Bool
is_dex p =
    same p raydium_amm_v4
    || same p raydium_cpmm
    || same p orca_whirlpool
    || same p jupiter_v6
    || same p meteora_dlmm

unfoldable pub classify_system : List ℕ → InstructionKind
classify_system b =
    let n = le_uint (take 4 b) in
    if ltb (length b) 4
    then unknown
    else if n == 0
    then create_account
    else if n == 2
    then transfer
    else if n == 8
    then close_account
    else unknown

unfoldable pub classify_token : List ℕ → InstructionKind
classify_token [] = unknown
classify_token (b ∷ bs) =
    if b == 3 || b == 12
    then transfer
    else if b == 7
    then mint
    else if b == 8
    then burn
    else if b == 9
    then close_account
    else if b == 1
    then create_account
    else unknown

unfoldable pub classify_instruction : Address → List ℕ → InstructionKind
classify_instruction p b =
    if same p compute_budget_program
    then compute
    else if same p memo_program
    then memo
    else if same p system_program
    then classify_system b
    else if same p token_program || same p token_program_2022
    then classify_token b
    else if is_dex p
    then swap
    else unknown

pub record Instruction : Type 0 where
  pub program_id : Address
  pub accounts : List Address
  pub payload : List ℕ
  pub kind : InstructionKind

-- The time of the block, which is that of the call, is left out.
pub record Transaction : Type 0 where
  pub signature : Address
  pub slot : ℕ
  pub fee : ℕ
  pub is_success : Bool
  pub accounts : List Address
  pub instructions : List Instruction
  pub sender : Address
  pub receiver : Address
  pub amount : ℕ
  pub program_id : Address
  pub swap_kind : List ℕ
  pub raw_data : List ℕ

-- `panicked` is no error value of Go: a slice went past its capacity.
pub data Error : Type 0 where
  bad_signature_count bad_account_key_count : ℕ → Error
  read_past_end : Error
  program_index_out_of_range account_index_out_of_range : ℕ → Error
  no_transaction_message : Error
  panicked : Error
