-- ===== src/Wallet/Solana/Base58/Alphabet.antt =====
-- The letters of the digits.
use portfolio_itmo.Common.{
  below, below-test, ℕ, ◌<◌, Bool, true, false, Option, none, some, ◌==◌, ==_iff, ◌≡◌, refl, sym,
  ap, ◌∙◌, arith,
}
use portfolio_itmo.Wallet.Solana.Base58.{alphabet, letter, index_of}

names : ℕ → Option ℕ → Bool
names d o = elim o [ none ↦ false | some i ↦ i == d ]

names-eq : (d : ℕ) (o : Option ℕ) → names d o ≡ true → o ≡ some d
unfolding names
names-eq d none h = absurd cc
names-eq d (some i) h = ap some ((==_iff i d).0 h)

is_found : ℕ → Bool
is_found d = names d (index_of (letter d) alphabet)

all_found : below is_found 58 ≡ true
unfolding below is_found names index_of alphabet
all_found = refl

-- Every digit has a letter, and every letter its digit.
pub index_of-letter : (d : ℕ) → d < 58 → index_of (letter d) alphabet ≡ some d
unfolding is_found
index_of-letter d small = names-eq d _ (below-test is_found 58 d all_found small)

-- No other digit has the letter of the zero.
pub letter-ne-zero : (d : ℕ) → d < 58 → letter d ≡ letter 0 → d ≡ 0
letter-ne-zero d small h =
    let first = index_of-letter d small in
    let zeroth = index_of-letter 0 (omega arith) in
    let both : some d ≡ some 0 = sym first ∙ (ap (λ c. index_of c alphabet) h ∙ zeroth) in cc
