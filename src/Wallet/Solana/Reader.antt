-- ===== src/Wallet/Solana/Reader.antt =====
-- The `reader` of projects/02-wallet-scoring/internal/solana/parser.go, which keeps its first error and
-- reads zeros after it.
pub mod Compact
use portfolio_itmo.Common.{
  ℕ, zero, suc, ◌+◌, ◌*◌, ◌%◌, ◌^◌, ◌≤◌, Bool, true, false, List, [], length, slice, ltb, leb, ◌≡◌,
  arith, if◌then◌else◌,
}
use portfolio_itmo.Wallet.Solana.{byte_at}

pub record Reader : Type 0 where
  pub buf : List ℕ
  pub pos : ℕ
  pub failed : Bool

abbrev pub new_reader : List ℕ → Reader
new_reader raw = record { buf = raw; pos = 0; failed = false }

unfoldable pub peek : Reader → ℕ
peek r = if r.failed then 0 else if leb (length r.buf) r.pos then 0 else byte_at r.buf r.pos

unfoldable pub uint8 : Reader → ℕ × Reader
uint8 r =
    if r.failed
    then (0, r)
    else if leb (length r.buf) r.pos
    then (0, record r { failed = true })
    else (byte_at r.buf r.pos, record r { pos = r.pos + 1 })

unfoldable pub bytes : ℕ → Reader → List ℕ × Reader
bytes n r =
    if r.failed
    then ([], r)
    else if ltb (length r.buf) (r.pos + n)
    then ([], record r { failed = true })
    else (slice r.buf r.pos (r.pos + n), record r { pos = r.pos + n })

-- The rounds that are left, the shift of the next seven bits, and the number so far, whose bits lie
-- below the shift, so that `|` adds.
pub compact_loop : ℕ → ℕ → ℕ → Reader → ℕ × Reader
compact_loop zero shift v r = (v, r)
compact_loop (suc rounds) shift v r =
    let (b, r) = uint8 r in
    let v = v + b % 128 * 2 ^ shift in
    let more = compact_loop rounds (shift + 7) v r in
    if r.failed then (0, r) else if ltb b 128 then (v, r) else more

unfoldable pub compact_u16 : Reader → ℕ × Reader
unfolding compact_loop
compact_u16 r = compact_loop 3 0 0 r
