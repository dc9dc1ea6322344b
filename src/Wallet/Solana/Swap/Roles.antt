-- ===== src/Wallet/Solana/Swap/Roles.antt =====
-- What the decoders of swap_decoder.go read from data and accounts that hold the parts of a swap.
use portfolio_itmo.Common.{
  ℕ, ◌+◌, ◌-◌, ◌*◌, ◌≤◌, Bool, true, false, ◌||◌, List, [], some, length, get_elem?, drop, slice,
  if◌then◌else◌, ◌≡◌, arith,
}
use portfolio_itmo.Common.Equality.{nat_eq}
use portfolio_itmo.Wallet.Solana.{Address, codes, le_uint, byte_at}
use portfolio_itmo.Wallet.Solana.Swap.{
  SwapEvent, has_prefix, raydium_v4_swap_base_in, raydium_v4_swap_base_out, orca_whirlpool_swap,
  orca_whirlpool_swap_v2, jupiter_route_v6, jupiter_shared_accounts, decode_raydium_v4, decode_orca,
  decode_jupiter,
}
use portfolio_itmo.Wallet.Solana.Swap.Bytes.{Holds}

abbrev pub bit : Bool → ℕ
bit true = 1
bit false = 0

pub record Roles : Type 0 where
  pub pool : Address
  pub user : Address
  pub token_in : Address
  pub token_out : Address

-- Where the accounts stand that have a role: pool, user, what is paid and what is received.
abbrev pub StandAt : List Address → ℕ → ℕ → ℕ → ℕ → Roles → Type 0
StandAt accounts pool user token_in token_out r =
    (get_elem? accounts pool ≡ some r.pool)
    × (get_elem? accounts user ≡ some r.user)
    × (get_elem? accounts token_in ≡ some r.token_in)
    × (get_elem? accounts token_out ≡ some r.token_out)

-- The accounts of Jupiter name no pool.
abbrev pub StandAtRoute : List Address → Roles → Type 0
StandAtRoute accounts r =
    (r.pool ≡ [])
    × (get_elem? accounts 1 ≡ some r.user)
    × (get_elem? accounts 3 ≡ some r.token_in)
    × (get_elem? accounts 6 ≡ some r.token_out)

module _ (sig : Address) (slot i : ℕ) (r : Roles) where
  unfoldable pub event_of : List ℕ → ℕ → ℕ → ℕ → Bool → SwapEvent
  event_of name amount_in min_out slippage is_buy = record {
    dex = name;
    pool = r.pool;
    user = r.user;
    token_in = r.token_in;
    token_out = r.token_out;
    amount_in = amount_in;
    min_out = min_out;
    amount_out = 0;
    slippage = slippage;
    is_buy = is_buy;
    signature = sig;
    slot = slot;
    ix_index = i;
  }

module _ (b : List ℕ) (accounts : List Address) (sig : Address) (slot i : ℕ) (r : Roles)
    (a m : ℕ) where
  pub raydium_in :
      Holds b 1 a m
      → 17 ≤ length accounts
      → StandAt accounts 1 16 14 15 r
      → has_prefix b raydium_v4_swap_base_in ≡ true
      → decode_raydium_v4 b accounts sig slot i
        ≡ some (event_of sig slot i r (codes "raydium-v4") a m 0 false)
  unfolding decode_raydium_v4 event_of
  raydium_in (first, second, size) enough (p, u, x, y) prefix = ground arith

  pub raydium_out :
      Holds b 1 a m
      → 17 ≤ length accounts
      → StandAt accounts 1 16 14 15 r
      → has_prefix b raydium_v4_swap_base_in ≡ false
      → has_prefix b raydium_v4_swap_base_out ≡ true
      → decode_raydium_v4 b accounts sig slot i
        ≡ some (event_of sig slot i r (codes "raydium-v4") m a 0 false)
  unfolding decode_raydium_v4 event_of
  raydium_out (first, second, size) enough (p, u, x, y) other prefix = ground arith

  pub orca_swap :
      (a_to_b : Bool)
      → Holds b 8 a m
      → 42 ≤ length b
      → byte_at b (length b - 1) ≡ bit a_to_b
      → 11 ≤ length accounts
      → StandAt accounts 1 0 (if a_to_b then 2 else 4) (if a_to_b then 4 else 2) r
      → has_prefix b orca_whirlpool_swap ≡ true
      → decode_orca b accounts sig slot i
        ≡ some (event_of sig slot i r (codes "orca-whirlpool") a m 0 a_to_b)
  unfolding decode_orca event_of
  orca_swap true (first, second, size) long flag enough (p, u, x, y) prefix = ground arith
  orca_swap false (first, second, size) long flag enough (p, u, x, y) prefix = ground arith

  pub orca_swap_v2 :
      Holds b 8 a m
      → 11 ≤ length accounts
      → StandAt accounts 1 0 4 2 r
      → has_prefix b orca_whirlpool_swap ≡ false
      → has_prefix b orca_whirlpool_swap_v2 ≡ true
      → decode_orca b accounts sig slot i
        ≡ some (event_of sig slot i r (codes "orca-whirlpool") a m 0 false)
  unfolding decode_orca event_of
  orca_swap_v2 (first, second, size) enough (p, u, x, y) other prefix = ground arith

  pub jupiter_route :
      (slippage cursor : ℕ)
      → 1 + byte_at (drop 8 b) 0 * 40 ≡ cursor
      → Holds (drop 8 b) cursor a m
      → le_uint (slice (drop 8 b) (cursor + 16) (cursor + 18)) ≡ slippage
      → cursor + 18 ≤ length (drop 8 b)
      → 27 ≤ length b
      → 13 ≤ length accounts
      → StandAtRoute accounts r
      → (has_prefix b jupiter_route_v6 || has_prefix b jupiter_shared_accounts) ≡ true
      → decode_jupiter b accounts sig slot i
        ≡ some (event_of sig slot i r (codes "jupiter-v6") a m slippage false)
  unfolding decode_jupiter event_of
  jupiter_route slippage cursor at (first, second, size) third long longer enough (p, u, x, y)
        prefix =
      rw at (ground arith)
