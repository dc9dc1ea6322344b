-- ===== src/Wallet/Solana/Swap/Layout.antt =====
-- The layouts of data that swap_decoder.go takes the swaps of three programs to have, written out with
-- the numbers in little-endian bytes, and the events that they stand for.
use portfolio_itmo.Common.{
  ℕ, ◌+◌, ◌*◌, ◌^◌, ◌<◌, ◌≤◌, Bool, false, List, [], ◌∷◌, ◌++◌, some, length, if◌then◌else◌, ◌≡◌,
  refl, arith,
}
use portfolio_itmo.Common.Equality.{nat_eq, list_beq}
use portfolio_itmo.Wallet.Solana.{
  Address, Instruction, InstructionKind, codes, raydium_amm_v4, orca_whirlpool, jupiter_v6,
}
use portfolio_itmo.Wallet.Solana.Swap.{
  SwapEvent, raydium_v4_swap_base_in, raydium_v4_swap_base_out, orca_whirlpool_swap,
  orca_whirlpool_swap_v2, jupiter_route_v6, jupiter_shared_accounts, decode_swap,
}
use portfolio_itmo.Wallet.Solana.Swap.Bytes.{le_bytes, numbers-Holds, third-Holds, direction-Holds}
use portfolio_itmo.Wallet.Solana.Swap.Roles.{
  Roles, StandAt, StandAtRoute, bit, event_of, raydium_in, raydium_out, orca_swap, orca_swap_v2,
  jupiter_route,
}

-- The instructions of the three programs. Of Raydium's two, the first holds what is paid and the least
-- that is received, and the second holds them the other way round. Behind the amounts of Orca's first
-- swap stand a price of 16 bytes and two flags, of which the last is the direction. A route of Jupiter
-- has 40 bytes to a step.
pub data Layout : Type 0 where
  base_in base_out : (first second : ℕ) (rest : List ℕ) → Layout
  whirlpool : (first second : ℕ) (price : List ℕ) (is_input a_to_b : Bool) → Layout
  whirlpool_v2 : (first second : ℕ) (rest : List ℕ) → Layout
  route shared : (steps : ℕ) (legs : List ℕ) (first second slippage : ℕ) (rest : List ℕ) → Layout

unfoldable pub write : Layout → List ℕ
write (base_in a m rest) = raydium_v4_swap_base_in ++ (le_bytes 8 a ++ (le_bytes 8 m ++ rest))
write (base_out a m rest) = raydium_v4_swap_base_out ++ (le_bytes 8 a ++ (le_bytes 8 m ++ rest))
write (whirlpool a m price is_input a_to_b) =
    orca_whirlpool_swap
    ++ (le_bytes 8 a ++ (le_bytes 8 m ++ (price ++ (bit is_input ∷ bit a_to_b ∷ []))))
write (whirlpool_v2 a m rest) = orca_whirlpool_swap_v2 ++ (le_bytes 8 a ++ (le_bytes 8 m ++ rest))
write (route steps legs a m slippage rest) =
    jupiter_route_v6
    ++ (steps ∷ legs ++ (le_bytes 8 a ++ (le_bytes 8 m ++ (le_bytes 2 slippage ++ rest))))
write (shared steps legs a m slippage rest) =
    jupiter_shared_accounts
    ++ (steps ∷ legs ++ (le_bytes 8 a ++ (le_bytes 8 m ++ (le_bytes 2 slippage ++ rest))))

-- The numbers fit into their bytes, and the parts of a fixed size have it.
abbrev pub IsSendable : Layout → Type 0
IsSendable (base_in a m rest) = (a < 2 ^ 64) × (m < 2 ^ 64)
IsSendable (base_out a m rest) = (a < 2 ^ 64) × (m < 2 ^ 64)
IsSendable (whirlpool a m price is_input a_to_b) = (a < 2 ^ 64) × (m < 2 ^ 64) × (length price ≡ 16)
IsSendable (whirlpool_v2 a m rest) = (a < 2 ^ 64) × (m < 2 ^ 64)
IsSendable (route steps legs a m slippage rest) =
    (a < 2 ^ 64) × (m < 2 ^ 64) × (slippage < 2 ^ 16) × (length legs ≡ steps * 40)
IsSendable (shared steps legs a m slippage rest) =
    (a < 2 ^ 64) × (m < 2 ^ 64) × (slippage < 2 ^ 16) × (length legs ≡ steps * 40)

abbrev pub program : Layout → Address
program (base_in a m rest) = raydium_amm_v4
program (base_out a m rest) = raydium_amm_v4
program (whirlpool a m price is_input a_to_b) = orca_whirlpool
program (whirlpool_v2 a m rest) = orca_whirlpool
program (route steps legs a m slippage rest) = jupiter_v6
program (shared steps legs a m slippage rest) = jupiter_v6

abbrev pub StandsAt : Layout → List Address → Roles → Type 0
StandsAt (base_in a m rest) accounts r = (17 ≤ length accounts) × StandAt accounts 1 16 14 15 r
StandsAt (base_out a m rest) accounts r = (17 ≤ length accounts) × StandAt accounts 1 16 14 15 r
StandsAt (whirlpool a m price is_input a_to_b) accounts r =
    (11 ≤ length accounts)
    × StandAt accounts 1 0 (if a_to_b then 2 else 4) (if a_to_b then 4 else 2) r
StandsAt (whirlpool_v2 a m rest) accounts r = (11 ≤ length accounts) × StandAt accounts 1 0 4 2 r
StandsAt (route steps legs a m slippage rest) accounts r =
    (13 ≤ length accounts) × StandAtRoute accounts r
StandsAt (shared steps legs a m slippage rest) accounts r =
    (13 ≤ length accounts) × StandAtRoute accounts r

abbrev pub laid_out : Layout → List Address → InstructionKind → Instruction
laid_out l accounts kind = record {
  program_id = program l;
  accounts = accounts;
  payload = write l;
  kind = kind;
}

module _ (sig : Address) (slot i : ℕ) (r : Roles) where
  unfoldable pub event_on : Layout → SwapEvent
  unfolding event_of
  event_on (base_in a m rest) = event_of sig slot i r (codes "raydium-v4") a m 0 false
  event_on (base_out a m rest) = event_of sig slot i r (codes "raydium-v4") m a 0 false
  event_on (whirlpool a m price is_input a_to_b) =
      event_of sig slot i r (codes "orca-whirlpool") a m 0 a_to_b
  event_on (whirlpool_v2 a m rest) = event_of sig slot i r (codes "orca-whirlpool") a m 0 false
  event_on (route steps legs a m slippage rest) =
      event_of sig slot i r (codes "jupiter-v6") a m slippage false
  event_on (shared steps legs a m slippage rest) =
      event_of sig slot i r (codes "jupiter-v6") a m slippage false

  -- A swap of one of the layouts, with numbers in the range of their types and enough accounts, is
  -- decoded to its event: the amounts, the slippage, the direction and the parties are those that
  -- stand in its data and accounts.
  pub decode_swap-laid_out :
      (l : Layout) (accounts : List Address) (kind : InstructionKind)
      → IsSendable l
      → StandsAt l accounts r
      → decode_swap (laid_out l accounts kind) sig slot i ≡ some (event_on l)
  unfolding decode_swap event_on event_of write raydium_amm_v4 orca_whirlpool jupiter_v6 list_beq
      raydium_v4_swap_base_in raydium_v4_swap_base_out orca_whirlpool_swap orca_whirlpool_swap_v2
      jupiter_route_v6 jupiter_shared_accounts
  decode_swap-laid_out (base_in a m rest) accounts kind (fa, fm) (n, at) =
      raydium_in _ accounts sig slot i r a m (numbers-Holds (9 ∷ []) rest 1 a m refl fa fm) n at
        refl
  decode_swap-laid_out (base_out a m rest) accounts kind (fa, fm) (n, at) =
      raydium_out _ accounts sig slot i r a m (numbers-Holds (11 ∷ []) rest 1 a m refl fa fm) n at
        refl refl
  decode_swap-laid_out (whirlpool a m price is_input a_to_b) accounts kind (fa, fm, size) (n, at) =
      let b =
        numbers-Holds orca_whirlpool_swap (price ++ (bit is_input ∷ bit a_to_b ∷ [])) 8 a m refl fa
          fm in
      let (long, last) =
        direction-Holds orca_whirlpool_swap price a m (bit is_input) (bit a_to_b) refl size in
      orca_swap _ accounts sig slot i r a m a_to_b b long last n at refl
  decode_swap-laid_out (whirlpool_v2 a m rest) accounts kind (fa, fm) (n, at) =
      orca_swap_v2 _ accounts sig slot i r a m
        (numbers-Holds orca_whirlpool_swap_v2 rest 8 a m refl fa fm) n at refl refl
  decode_swap-laid_out (route steps legs a m slippage rest) accounts kind (fa, fm, fs, size)
        (n, at) =
      let before : length (steps ∷ legs) ≡ 1 + steps * 40 = omega (arith, size) in
      let (third, long) = third-Holds (steps ∷ legs) rest (1 + steps * 40) a m slippage before fs in
      jupiter_route _ accounts sig slot i r a m slippage (1 + steps * 40) refl
        (numbers-Holds (steps ∷ legs) (le_bytes 2 slippage ++ rest) (1 + steps * 40) a m before fa
          fm)
        third long (omega arith) n at refl
  decode_swap-laid_out (shared steps legs a m slippage rest) accounts kind (fa, fm, fs, size)
        (n, at) =
      let before : length (steps ∷ legs) ≡ 1 + steps * 40 = omega (arith, size) in
      let (third, long) = third-Holds (steps ∷ legs) rest (1 + steps * 40) a m slippage before fs in
      jupiter_route _ accounts sig slot i r a m slippage (1 + steps * 40) refl
        (numbers-Holds (steps ∷ legs) (le_bytes 2 slippage ++ rest) (1 + steps * 40) a m before fa
          fm)
        third long (omega arith) n at refl
