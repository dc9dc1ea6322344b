-- ===== src/Mpc/Operations.antt =====
-- projects/01-mpc-cluster/internal/protocol/operations.go: what one party runs on its shares, and
-- the pair of byte strings that it sends to its peers. Bytes are numbers below 256; `int` is 64 bits
-- wide, so a length read from four bytes does not wrap.
pub mod Wire
pub mod Rounds
pub mod Multiply
pub mod Compare
use portfolio_itmo.Common.{
  ℕ, ◌+◌, ◌-◌, ◌*◌, ◌/◌, ◌%◌, ◌^◌, ◌&&◌, ◌||◌, not, List, [], ◌∷◌, ◌++◌, ltb, ◌==◌, if◌then◌else◌,
  length, slice, ok, err, ◌>>=◌,
}
use portfolio_itmo.Common.Int.{ℤ, pos}
use portfolio_itmo.Mpc.Error.{Error, Result, wrap}
use portfolio_itmo.Mpc.Error
use portfolio_itmo.Mpc.Field.{
  Field, FieldElement, add, sub, from_bytes, from_int, to_bytes, scalar_mul, zero_element,
}
use portfolio_itmo.Mpc.Beaver.{SharedTriple, mul_open, mul_finalize}

-- The interface `PeerNetwork`, over the state of its implementation. A gathered map is the list of
-- its entries in the order in which `range` meets them.
pub record PeerNetwork (S : Type 0) : Type 0 where
  pub next_round : S → ℕ × S
  pub broadcast : S → ℕ → List ℕ → Result S
  pub gather : S → ℕ → Result (List (ℕ × List ℕ) × S)

-- `binary.BigEndian.PutUint32`, of `uint32(n)`
unfoldable pub put_uint32 : ℕ → List ℕ
put_uint32 n = (n / 2 ^ 24 % 256) ∷ (n / 2 ^ 16 % 256) ∷ (n / 2 ^ 8 % 256) ∷ (n % 256) ∷ []

-- `binary.BigEndian.Uint32`, of a slice of four bytes
unfoldable pub uint32 : List ℕ → ℕ
uint32 (a ∷ b ∷ c ∷ d ∷ _) = a * 2 ^ 24 + b * 2 ^ 16 + c * 2 ^ 8 + d
uint32 _ = 0

unfoldable pub encode_pair : List ℕ → List ℕ → List ℕ
unfolding put_uint32
encode_pair a b = put_uint32 (length a) ++ (a ++ (put_uint32 (length b) ++ b))

unfoldable pub decode_pair : List ℕ → Result (List ℕ × List ℕ)
decode_pair raw =
    if ltb (length raw) 4
    then err (Error.payload_too_short (length raw))
    else (let la = uint32 (slice raw 0 4) in
        let off = 4 + la in
        if ltb (length raw) (off + 4)
        then err (Error.truncated_payload (off + 4) (length raw))
        else (let a = slice raw 4 off in
            let lb = uint32 (slice raw off (off + 4)) in
            if ltb (length raw) (off + 4 + lb)
            then err Error.truncated_second
            else ok (a, slice raw (off + 4) (off + 4 + lb))))

-- The loop of `SecureAdd`, over slices of one length.
add_pairs : Field → List FieldElement → List FieldElement → List FieldElement
add_pairs f (a ∷ as') (b ∷ bs) = add f a b ∷ add_pairs f as' bs
add_pairs f _ _ = []

unfoldable pub secure_add :
    Field → List FieldElement → List FieldElement → Result (List FieldElement)
unfolding add_pairs
secure_add f a_shares b_shares =
    if length a_shares == length b_shares
    then ok (add_pairs f a_shares b_shares)
    else err (Error.share_count_mismatch (length a_shares) (length b_shares))

-- The package's `ScalarMul`
unfoldable pub scale_share : Field → FieldElement → ℤ → FieldElement
scale_share f share scalar = scalar_mul f share scalar

-- The loop of `SecureMul` over what the others sent.
unfoldable pub open_pairs :
    Field → List (ℕ × List ℕ) → FieldElement → FieldElement → Result (FieldElement × FieldElement)
open_pairs f [] d e = ok (d, e)
open_pairs f ((sender, raw) ∷ others) d e = do
  (db, eb) ← wrap (Error.decode_share sender) (decode_pair raw)
  open_pairs f others (add f d (from_bytes f db)) (add f e (from_bytes f eb))

-- The loop of `SecureCompare`.
unfoldable pub open_differences : Field → List (ℕ × List ℕ) → FieldElement → FieldElement
open_differences f [] opened = opened
open_differences f ((_, raw) ∷ others) opened =
    open_differences f others (add f opened (from_bytes f raw))

-- Whether the opened difference counts as positive.
unfoldable pub greater : Field → FieldElement → ℕ
greater f opened = if not (opened.v == 0) && ltb opened.v (f.p / 2 ^ 1) then 1 else 0

module _ {S : Type 0} (net : PeerNetwork S) where
  unfoldable pub secure_mul :
      Field → FieldElement → FieldElement → ℕ → SharedTriple → S → Result (FieldElement × S)
  secure_mul f x_share y_share my_index triple s = do
    let (d_share, e_share) = mul_open f x_share y_share triple
    let (round, s) = net.next_round s
    s ←
        wrap (Error.broadcast round)
          (net.broadcast s round (encode_pair (to_bytes d_share) (to_bytes e_share)))
    (others, s) ← wrap (Error.gather round) (net.gather s round)
    (d, e) ← open_pairs f others d_share e_share
    ok (mul_finalize f d e triple my_index, s)

  -- The triples are an argument of the code that it does not read.
  unfoldable pub secure_compare :
      Field
      → FieldElement
      → FieldElement
      → ℕ
      → List SharedTriple
      → ℕ
      → S
      → Result (FieldElement × S)
  secure_compare f x_share y_share my_index triples bit_len s =
      if bit_len == 0 || ltb 126 bit_len then err (Error.bit_length bit_len) else (do
        let diff = sub f x_share y_share
        let (round, s) = net.next_round s
        s ← wrap (Error.broadcast round) (net.broadcast s round (to_bytes diff))
        (others, s) ← wrap (Error.gather round) (net.gather s round)
        let gt = greater f (open_differences f others diff)
        ok (if my_index == 0 then from_int f (pos gt) else zero_element, s))
