-- ===== src/Mpc/Tests.antt =====
-- Runs of the protocols of projects/01-mpc-cluster/internal/protocol at concrete inputs.
use portfolio_itmo.Common.{
  below, below-test, ℕ, ◌+◌, ◌<◌, ◌≡◌, refl, ap, arith, List, [], ◌∷◌, ◌++◌, length, take, drop,
  map, ok, err, ltb, leb, not, ◌||◌, ◌==◌, ◌%◌, ◌⊎◌, true, if◌then◌else◌,
}
use portfolio_itmo.Mpc.Error
use portfolio_itmo.Mpc.Field.{Field, FieldElement, add, mul, inv, reduce}
use portfolio_itmo.Common.Int.{mod_ℤ, ◌+ℤ◌}
use portfolio_itmo.Common.BigInt.{mod_inverse}
use portfolio_itmo.Mpc.Field.Inverse.{IsPrime, inv_prime}
use portfolio_itmo.Mpc.Sharing.{additive_share, additive_recombine}
use portfolio_itmo.Mpc.Sharing.Laws.{drawn, recombine-additive_share}
use portfolio_itmo.Mpc.Beaver.{BeaverTriple, SharedTriple, generate_triple, share_triple}
use portfolio_itmo.Mpc.Beaver.Product.{Party, xs, ys}
use portfolio_itmo.Mpc.Beaver.Triples.{IsProductTriple, share_triple-generate_triple}
use portfolio_itmo.Mpc.Operations.{PeerNetwork, encode_pair, decode_pair, uint32}
use portfolio_itmo.Mpc.Operations.Wire.{decode_pair-encode_pair, encode_pair-decode_pair}
use portfolio_itmo.Mpc.Operations.Rounds.{Seat, Delivers}
use portfolio_itmo.Mpc.Operations.Multiply.{opening, messages, run_mul, secure_mul-product}
use portfolio_itmo.Mpc.Operations.Multiply
use portfolio_itmo.Mpc.Operations.Compare.{
  difference, difference_messages, run_compare, secure_compare-greater, secure_compare_far,
}
use portfolio_itmo.Mpc.Operations.Compare
use mathlib.Core.List.Perm

abbrev small : Field
small = record { p = 101 }

abbrev draws : List ℕ
draws = 7 ∷ 55 ∷ 100 ∷ 3 ∷ 64 ∷ 20 ∷ 9 ∷ 81 ∷ []

recombine-additive_share_example :
    (shares : List FieldElement) × (additive_share small (drawn 42) 3 draws
      ≡ ok (shares, drop 2 draws))
    × (length shares ≡ 3)
    × (additive_recombine small shares ≡ drawn 42)
    × (take 2 shares ≡ map drawn (take 2 draws))
recombine-additive_share_example =
    recombine-additive_share small (omega arith) (drawn 42) 3 draws (omega arith) (omega arith)
      (omega arith)

share_triple-generate_triple_example :
    (t : BeaverTriple) × (rest : List ℕ) × (shared : List SharedTriple) × (left : List ℕ)
    × (generate_triple small draws ≡ ok (t, rest))
    × (share_triple small t 3 rest ≡ ok (shared, left))
    × (length shared ≡ 3)
    × IsProductTriple small shared
share_triple-generate_triple_example =
    share_triple-generate_triple small (omega arith) 3 draws (omega arith) (omega arith)

decode_pair-encode_pair_example :
    decode_pair (encode_pair (1 ∷ 2 ∷ []) (3 ∷ []) ++ (9 ∷ [])) ≡ ok (1 ∷ 2 ∷ [], 3 ∷ [])
decode_pair-encode_pair_example =
    decode_pair-encode_pair (1 ∷ 2 ∷ []) (3 ∷ []) (9 ∷ []) (omega arith) (omega arith)

abbrev payload : List ℕ
payload = 0 ∷ 0 ∷ 0 ∷ 1 ∷ 200 ∷ 0 ∷ 0 ∷ 0 ∷ 0 ∷ 5 ∷ []

decode_payload : decode_pair payload ≡ ok (200 ∷ [], [])
unfolding decode_pair uint32
decode_payload = refl

encode_pair-decode_pair_example : (rest : List ℕ) × (encode_pair (200 ∷ []) [] ++ rest ≡ payload)
encode_pair-decode_pair_example = encode_pair-decode_pair payload (omega arith) decode_payload

-- A network of one round that accepts every message and has the inbox at hand.
record Mailbox : Type 0 where
  round : ℕ
  inbox : List (ℕ × List ℕ)

abbrev mail : PeerNetwork Mailbox
mail = record {
  next_round = λ s. (s.round + 1, record s { round = s.round + 1 });
  broadcast = λ s n data_sent. ok s;
  gather = λ s n. ok (s.inbox, s);
}

abbrev party : ℕ → ℕ → ℕ → ℕ → ℕ → Party
party x y a b c = record {
  x = drawn x;
  y = drawn y;
  triple = record { a = drawn a; b = drawn b; c = drawn c };
}

-- Shares of 6 and 7, and of the triple (5, 9, 45).
abbrev alice : Party
alice = party 100 3 4 60 40

abbrev bob : Party
bob = party 7 4 1 50 5

abbrev mul_seat : Party → List (ℕ × Party) → Seat Mailbox
mul_seat q peers = record {
  party = q;
  state = record { round = 0; inbox = messages small peers };
  peers = peers;
}

abbrev mul_seats : List (Seat Mailbox)
mul_seats = mul_seat bob ((0, alice) ∷ []) ∷ []

mul-Delivers :
    (q : Party) (peers : List (ℕ × Party))
    → Delivers mail (mul_seat q peers).state (opening small q) (messages small peers)
mul-Delivers q peers = record { sent_state = _; final_state = _; sends = refl; receives = refl }

alice-IsServed : Multiply.IsServed small mail (alice ∷ bob ∷ []) (mul_seat alice ((1, bob) ∷ []))
alice-IsServed = record {
  delivers = mul-Delivers alice ((1, bob) ∷ []);
  complete = Perm.refl (alice ∷ bob ∷ []);
}

bob-IsServed : Multiply.IsServed small mail (alice ∷ bob ∷ []) (mul_seat bob ((0, alice) ∷ []))
bob-IsServed = record {
  delivers = mul-Delivers bob ((0, alice) ∷ []);
  complete = Perm.swap alice bob [];
}

secure_mul-product_example :
    (shares : List FieldElement) × (run_mul small mail 0
        (mul_seat alice ((1, bob) ∷ []) ∷ mul_seats)
      ≡ ok shares)
    × (additive_recombine small shares
        ≡ mul small
            (additive_recombine small (map xs (alice ∷ bob ∷ [])))
            (additive_recombine small (map ys (alice ∷ bob ∷ []))))
secure_mul-product_example =
    secure_mul-product small (omega arith) (omega arith) mail (mul_seat alice ((1, bob) ∷ []))
      mul_seats (alice-IsServed, (bob-IsServed, tt)) (record { same = refl })

abbrev compare_seat : Party → List (ℕ × Party) → Seat Mailbox
compare_seat q peers = record {
  party = q;
  state = record { round = 0; inbox = difference_messages small peers };
  peers = peers;
}

compare-IsServed :
    (p q : Party) → Compare.IsServed small mail (p ∷ q ∷ []) (compare_seat p ((1, q) ∷ []))
compare-IsServed p q = record {
  delivers = record { sent_state = _; final_state = _; sends = refl; receives = refl };
  complete = Perm.refl (p ∷ q ∷ []);
}

compare-IsServed_second :
    (p q : Party) → Compare.IsServed small mail (p ∷ q ∷ []) (compare_seat q ((0, p) ∷ []))
compare-IsServed_second p q = record {
  delivers = record { sent_state = _; final_state = _; sends = refl; receives = refl };
  complete = Perm.swap p q [];
}

first_number : additive_recombine small (map xs (alice ∷ bob ∷ [])) ≡ drawn 6
unfolding additive_recombine add reduce mod_ℤ ◌+ℤ◌
first_number = refl

second_number : additive_recombine small (map ys (alice ∷ bob ∷ [])) ≡ drawn 7
unfolding additive_recombine add reduce mod_ℤ ◌+ℤ◌
second_number = refl

inverse_of_three : inv small (drawn 3) ≡ ok (drawn 34)
unfolding inv mod_inverse
inverse_of_three = refl

-- 6 and 7: the first is not the greater one.
secure_compare-greater_example :
    (shares : List FieldElement) × (run_compare small mail [] 64 0
        (compare_seat alice ((1, bob) ∷ []) ∷ compare_seat bob ((0, alice) ∷ []) ∷ [])
      ≡ ok shares)
    × ((additive_recombine small shares).v ≡ (
        if ltb
          (additive_recombine small (map ys (alice ∷ bob ∷ []))).v
          (additive_recombine small (map xs (alice ∷ bob ∷ []))).v
        then 1
        else 0))
secure_compare-greater_example =
    secure_compare-greater small (omega arith) mail [] 64 (compare_seat alice ((1, bob) ∷ []))
      (compare_seat bob ((0, alice) ∷ []) ∷ []) (omega arith) (omega arith)
      (compare-IsServed alice bob, (compare-IsServed_second alice bob, tt))
      (omega (arith, ap (λ (a : FieldElement). a.v) first_number))
      (omega (arith, ap (λ (a : FieldElement). a.v) second_number))

-- Shares of 60 and 5: the difference is more than the half of 101.
abbrev carol : Party
carol = party 50 2 0 0 0

abbrev dave : Party
dave = party 10 3 0 0 0

sixty : additive_recombine small (map xs (carol ∷ dave ∷ [])) ≡ drawn 60
unfolding additive_recombine add reduce mod_ℤ ◌+ℤ◌
sixty = refl

five : additive_recombine small (map ys (carol ∷ dave ∷ [])) ≡ drawn 5
unfolding additive_recombine add reduce mod_ℤ ◌+ℤ◌
five = refl

secure_compare_far_example :
    (shares : List FieldElement) × (run_compare small mail [] 64 0
        (compare_seat carol ((1, dave) ∷ []) ∷ compare_seat dave ((0, carol) ∷ []) ∷ [])
      ≡ ok shares)
    × ((additive_recombine small shares).v ≡ 0)
secure_compare_far_example =
    secure_compare_far small (omega arith) mail [] 64 (compare_seat carol ((1, dave) ∷ []))
      (compare_seat dave ((0, carol) ∷ []) ∷ []) (omega arith) (omega arith) (omega arith)
      (compare-IsServed carol dave, (compare-IsServed_second carol dave, tt))
      (omega (arith, ap (λ (a : FieldElement). a.v) sixty, ap (λ (a : FieldElement). a.v) five))

no_divisor : below (λ d. leb d 1 || not (101 % d == 0)) 101 ≡ true
unfolding below
no_divisor = refl

small-IsPrime : IsPrime small.p
small-IsPrime = (
  omega arith,
  λ d low high.
      let passed = below-test (λ d. leb d 1 || not (101 % d == 0)) 101 d no_divisor high in
      λ e. ground (arith, passed, e),
)

inv_prime_example :
    (((drawn 3).v ≡ 0) × (inv small (drawn 3) ≡ err Error.inverse_of_zero))
    ⊎ ((b : FieldElement) × (inv small (drawn 3) ≡ ok b)
        × (b.v < 101)
        × ((mul small (drawn 3) b).v ≡ 1))
inv_prime_example = inv_prime small small-IsPrime (drawn 3) (omega arith)
