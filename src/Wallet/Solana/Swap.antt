-- ===== src/Wallet/Solana/Swap.antt =====
-- projects/02-wallet-scoring/internal/solana/swap_decoder.go and `SwapEvent` of internal/models. The
-- data of an instruction are bytes here, so that the error of `DecodeBase64Data` does not arise. The
-- names of exchanges are lists of codes.
pub mod Events
pub mod Bytes
pub mod Roles
pub mod Layout
use portfolio_itmo.Common.{
  ℕ, zero, suc, ◌+◌, ◌-◌, ◌*◌, Bool, true, false, not, ◌&&◌, ◌||◌, List, [], ◌∷◌, Option, none,
  some, length, get_elem?, drop, slice, ltb, ◌==◌, if◌then◌else◌,
}
use portfolio_itmo.Common.Equality.{same, nat_eq, list_eq}
use portfolio_itmo.Wallet.Solana.{
  Address, Instruction, Transaction, codes, raydium_amm_v4, orca_whirlpool, jupiter_v6, is_dex,
  le_uint, byte_at,
}

pub record SwapEvent : Type 0 where
  pub dex : List ℕ
  pub pool : Address
  pub user : Address
  pub token_in : Address
  pub token_out : Address
  pub amount_in : ℕ
  pub min_out : ℕ
  pub amount_out : ℕ
  pub slippage : ℕ
  pub is_buy : Bool
  pub signature : Address
  pub slot : ℕ
  pub ix_index : ℕ

unfoldable pub raydium_v4_swap_base_in : List ℕ
raydium_v4_swap_base_in = 9 ∷ []

unfoldable pub raydium_v4_swap_base_out : List ℕ
raydium_v4_swap_base_out = 11 ∷ []

unfoldable pub orca_whirlpool_swap : List ℕ
orca_whirlpool_swap = 248 ∷ 198 ∷ 158 ∷ 145 ∷ 225 ∷ 117 ∷ 135 ∷ 200 ∷ []

unfoldable pub orca_whirlpool_swap_v2 : List ℕ
orca_whirlpool_swap_v2 = 43 ∷ 4 ∷ 237 ∷ 11 ∷ 26 ∷ 201 ∷ 30 ∷ 98 ∷ []

unfoldable pub jupiter_route_v6 : List ℕ
jupiter_route_v6 = 229 ∷ 23 ∷ 203 ∷ 151 ∷ 122 ∷ 227 ∷ 173 ∷ 42 ∷ []

unfoldable pub jupiter_shared_accounts : List ℕ
jupiter_shared_accounts = 193 ∷ 32 ∷ 155 ∷ 51 ∷ 65 ∷ 214 ∷ 156 ∷ 129 ∷ []

-- `bytes.HasPrefix`
abbrev pub has_prefix : List ℕ → List ℕ → Bool
has_prefix b [] = true
has_prefix [] (p ∷ ps) = false
has_prefix (x ∷ b) (p ∷ ps) = x == p && has_prefix b ps

-- An account below the number that the code has compared with.
abbrev account_at : List Address → ℕ → Address
account_at accounts i = elim (get_elem? accounts i) [ some a ↦ a | none ↦ [] ]

-- The event of the fields that every exchange sets.
abbrev new_event : Address → ℕ → ℕ → SwapEvent
new_event sig slot ix_index = record {
  dex = [];
  pool = [];
  user = [];
  token_in = [];
  token_out = [];
  amount_in = 0;
  min_out = 0;
  amount_out = 0;
  slippage = 0;
  is_buy = false;
  signature = sig;
  slot = slot;
  ix_index = ix_index;
}

module _ (b : List ℕ) (accounts : List Address) (sig : Address) (slot ix_index : ℕ) where
  abbrev raydium_event : ℕ → ℕ → SwapEvent
  raydium_event amount_in min_out = record (new_event sig slot ix_index) {
    dex = codes "raydium-v4";
    pool = account_at accounts 1;
    user = account_at accounts 16;
    token_in = account_at accounts 14;
    token_out = account_at accounts 15;
    amount_in = amount_in;
    min_out = min_out;
  }

  unfoldable pub decode_raydium_v4 : Option SwapEvent
  decode_raydium_v4 =
      let first = le_uint (slice b 1 9) in
      let second = le_uint (slice b 9 17) in
      if ltb (length b) 17 || ltb (length accounts) 17
      then none
      else if has_prefix b raydium_v4_swap_base_in
      then some (raydium_event first second)
      else if has_prefix b raydium_v4_swap_base_out
      then some (raydium_event second first)
      else none

  abbrev orca_event : Bool → SwapEvent
  orca_event a_to_b = record (new_event sig slot ix_index) {
    dex = codes "orca-whirlpool";
    pool = account_at accounts 1;
    user = account_at accounts 0;
    token_in = if a_to_b then account_at accounts 2 else account_at accounts 4;
    token_out = if a_to_b then account_at accounts 4 else account_at accounts 2;
    amount_in = le_uint (slice b 8 16);
    min_out = le_uint (slice b 16 24);
    is_buy = a_to_b;
  }

  unfoldable pub decode_orca : Option SwapEvent
  decode_orca =
      if ltb (length accounts) 11
      then none
      else if has_prefix b orca_whirlpool_swap
      then (if ltb (length b) 42
          then none
          else some (orca_event (not (byte_at b (length b - 1) == 0))))
      else if has_prefix b orca_whirlpool_swap_v2
      then (if ltb (length b) 24 then none else some (orca_event false))
      else none

  -- The event of the bytes after the route, which start at the cursor.
  abbrev jupiter_event : List ℕ → ℕ → SwapEvent
  jupiter_event body cursor = record (new_event sig slot ix_index) {
    dex = codes "jupiter-v6";
    user = account_at accounts 1;
    token_in = account_at accounts 3;
    token_out = account_at accounts 6;
    amount_in = le_uint (slice body cursor (cursor + 8));
    min_out = le_uint (slice body (cursor + 8) (cursor + 16));
    slippage = le_uint (slice body (cursor + 16) (cursor + 18));
  }

  unfoldable pub decode_jupiter : Option SwapEvent
  decode_jupiter =
      let body = drop 8 b in
      let route_len = byte_at body 0 in
      let cursor = 1 + route_len * 40 in
      if not (has_prefix b jupiter_route_v6 || has_prefix b jupiter_shared_accounts)
      then none
      else if ltb (length accounts) 13 || ltb (length b) 27
      then none
      else if ltb (length body) (cursor + 18)
      then none
      else some (jupiter_event body cursor)

unfoldable pub decode_swap : Instruction → Address → ℕ → ℕ → Option SwapEvent
decode_swap ix sig slot ix_index =
    let b = ix.payload in
    if same ix.program_id raydium_amm_v4
    then decode_raydium_v4 b ix.accounts sig slot ix_index
    else if same ix.program_id orca_whirlpool
    then decode_orca b ix.accounts sig slot ix_index
    else if same ix.program_id jupiter_v6
    then decode_jupiter b ix.accounts sig slot ix_index
    else none

-- `continue` on a program that is no exchange, and on data that are no swap.
abbrev pub find_swap : Instruction → Transaction → ℕ → Option SwapEvent
find_swap ix tx i = if is_dex ix.program_id then decode_swap ix tx.signature tx.slot i else none

abbrev pub name_swap : Option SwapEvent → ℕ → Transaction → Transaction
name_swap none i tx = tx
name_swap (some ev) i tx = if i == 0 then record tx { swap_kind = ev.dex } else tx

-- `append`, for the list that is built from its end.
abbrev pub found_first : Option SwapEvent → List SwapEvent → List SwapEvent
found_first none evs = evs
found_first (some ev) evs = ev ∷ evs

-- The loop over the instructions from index `i` on.
unfoldable pub swaps_loop : List Instruction → ℕ → Transaction → List SwapEvent × Transaction
swaps_loop [] i tx = ([], tx)
swaps_loop (ix ∷ ixs) i tx =
    let found = find_swap ix tx i in
    let (evs, tx) = swaps_loop ixs (suc i) (name_swap found i tx) in (found_first found evs, tx)

unfoldable pub decode_all_swaps : Transaction → List SwapEvent × Transaction
decode_all_swaps tx = swaps_loop tx.instructions 0 tx
