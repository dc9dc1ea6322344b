-- ===== src/Wallet/Solana/Swap/Events.antt =====
-- The events of `DecodeAllSwaps`.
use portfolio_itmo.Common.{
  ℕ, zero, suc, ◌+◌, false, List, [], ◌∷◌, Option, none, some, get_elem?, ◌≡◌, refl, arith, ◌↔◌,
  ◌∙◌, ap, sym, All, All-map,
}
use portfolio_itmo.Common.Equality.{nat_eq, list_eq}
use portfolio_itmo.Wallet.Solana.{Address, Instruction, Transaction, is_dex}
use portfolio_itmo.Wallet.Solana.Swap.{
  SwapEvent, decode_raydium_v4, decode_orca, decode_jupiter, decode_swap, find_swap, swaps_loop,
  decode_all_swaps, name_swap, found_first,
}

-- An event tells where its swap stands.
abbrev pub IsFrom : Address → ℕ → ℕ → SwapEvent → Type 0
IsFrom sig slot i ev = (ev.signature ≡ sig) × (ev.slot ≡ slot) × (ev.ix_index ≡ i)

raydium-IsFrom :
    (b : List ℕ) (accounts : List Address) (sig : Address) (slot i : ℕ) (ev : SwapEvent)
    → decode_raydium_v4 b accounts sig slot i ≡ some ev
    → IsFrom sig slot i ev
unfolding decode_raydium_v4
raydium-IsFrom b accounts sig slot i ev h = ground arith

orca-IsFrom :
    (b : List ℕ) (accounts : List Address) (sig : Address) (slot i : ℕ) (ev : SwapEvent)
    → decode_orca b accounts sig slot i ≡ some ev
    → IsFrom sig slot i ev
unfolding decode_orca
orca-IsFrom b accounts sig slot i ev h = ground arith

jupiter-IsFrom :
    (b : List ℕ) (accounts : List Address) (sig : Address) (slot i : ℕ) (ev : SwapEvent)
    → decode_jupiter b accounts sig slot i ≡ some ev
    → IsFrom sig slot i ev
unfolding decode_jupiter
jupiter-IsFrom b accounts sig slot i ev h = ground arith

decode_swap-IsFrom :
    (ix : Instruction) (sig : Address) (slot i : ℕ) (ev : SwapEvent)
    → decode_swap ix sig slot i ≡ some ev
    → IsFrom sig slot i ev
unfolding decode_swap
decode_swap-IsFrom ix sig slot i ev h = ground (
  arith,
  raydium-IsFrom ix.payload ix.accounts sig slot i ev,
  orca-IsFrom ix.payload ix.accounts sig slot i ev,
  jupiter-IsFrom ix.payload ix.accounts sig slot i ev,
)

-- The test for an exchange drops no swap.
decode_swap-not-dex :
    (ix : Instruction) (sig : Address) (slot i : ℕ)
    → is_dex ix.program_id ≡ false
    → decode_swap ix sig slot i ≡ none
unfolding decode_swap is_dex
decode_swap-not-dex ix sig slot i h = ground arith

find_swap-eq :
    (ix : Instruction) (tx : Transaction) (i : ℕ)
    → find_swap ix tx i ≡ decode_swap ix tx.signature tx.slot i
find_swap-eq ix tx i = ground (arith, decode_swap-not-dex ix tx.signature tx.slot i)

-- The event of one of the instructions, which are counted from `i` on.
abbrev IsSwapOf : List Instruction → Address → ℕ → ℕ → SwapEvent → Type 0
IsSwapOf ixs sig slot i ev =
    (j : ℕ) × (ix : Instruction) × (get_elem? ixs j ≡ some ix)
    × (decode_swap ix sig slot (i + j) ≡ some ev)

IsSwapOf-later :
    (ix : Instruction) (ixs : List Instruction) (sig : Address) (slot i : ℕ) (ev : SwapEvent)
    → IsSwapOf ixs sig slot (suc i) ev
    → IsSwapOf (ix ∷ ixs) sig slot i ev
IsSwapOf-later ix ixs sig slot i ev (j, x, at, h) =
    let next : i + suc j ≡ suc i + j = omega arith in
    (suc j, x, at, ap (λ n. decode_swap x sig slot n) next ∙ h)

found_first-All :
    {P : SwapEvent → Type 0} (found : Option SwapEvent) (evs : List SwapEvent)
    → ((ev : SwapEvent) → found ≡ some ev → P ev)
    → All P evs
    → All P (found_first found evs)
found_first-All none evs first later = later
found_first-All (some ev) evs first later = (first ev refl, later)

name_swap-keeps :
    (found : Option SwapEvent) (i : ℕ) (tx : Transaction)
    → ((name_swap found i tx).signature ≡ tx.signature) × ((name_swap found i tx).slot ≡ tx.slot)
name_swap-keeps none i tx = (refl, refl)
name_swap-keeps (some ev) i tx = ground arith

-- What the loop does not change in a transaction, as it decodes with it.
abbrev IsIn : Address → ℕ → Transaction → Type 0
IsIn sig slot tx = (tx.signature ≡ sig) × (tx.slot ≡ slot)

name_swap-IsIn :
    (found : Option SwapEvent) (i : ℕ) (sig : Address) (slot : ℕ) (tx : Transaction)
    → IsIn sig slot tx
    → IsIn sig slot (name_swap found i tx)
name_swap-IsIn found i sig slot tx h =
    ((name_swap-keeps found i tx).0 ∙ h.0, (name_swap-keeps found i tx).1 ∙ h.1)

find_swap-at :
    (ix : Instruction) (i : ℕ) (sig : Address) (slot : ℕ) (tx : Transaction)
    → IsIn sig slot tx
    → find_swap ix tx i ≡ decode_swap ix sig slot (i + 0)
find_swap-at ix i sig slot tx h =
    let start : i ≡ i + 0 = omega arith in
    find_swap-eq ix tx i
    ∙ (ap (λ s. decode_swap ix s tx.slot i) h.0
        ∙ (ap (λ n. decode_swap ix sig n i) h.1 ∙ ap (λ n. decode_swap ix sig slot n) start))

swaps_loop-IsSwapOf :
    (sig : Address) (slot : ℕ) (ixs : List Instruction) (i : ℕ) (tx : Transaction)
    → IsIn sig slot tx
    → All (IsSwapOf ixs sig slot i) (swaps_loop ixs i tx).0
unfolding swaps_loop
swaps_loop-IsSwapOf sig slot [] i tx h = tt
swaps_loop-IsSwapOf sig slot (ix ∷ ixs) i tx h =
    let found = find_swap ix tx i in
    let tx' = name_swap found i tx in
    found_first-All found (swaps_loop ixs (suc i) tx').0
      (λ ev e. (0, ix, refl, sym (find_swap-at ix i sig slot tx h) ∙ e))
      (All-map (λ ev later. IsSwapOf-later ix ixs sig slot i ev later)
        (swaps_loop ixs (suc i) tx').0
        (swaps_loop-IsSwapOf sig slot ixs (suc i) tx' (name_swap-IsIn found i sig slot tx h)))

found_first-get_elem? :
    (found : Option SwapEvent) (evs : List SwapEvent) (ev : SwapEvent) (k : ℕ)
    → get_elem? evs k ≡ some ev
    → (k : ℕ) × (get_elem? (found_first found evs) k ≡ some ev)
found_first-get_elem? none evs ev k h = (k, h)
found_first-get_elem? (some x) evs ev k h = (suc k, h)

found_first-first :
    (found : Option SwapEvent) (evs : List SwapEvent) (ev : SwapEvent)
    → found ≡ some ev
    → (k : ℕ) × (get_elem? (found_first found evs) k ≡ some ev)
found_first-first none evs ev h = absurd cc
found_first-first (some x) evs ev h = (0, h)

swaps_loop_complete :
    (sig : Address) (slot : ℕ) (ixs : List Instruction) (i : ℕ) (tx : Transaction) (j : ℕ)
    (ix : Instruction) (ev : SwapEvent)
    → IsIn sig slot tx
    → get_elem? ixs j ≡ some ix
    → decode_swap ix sig slot (i + j) ≡ some ev
    → (k : ℕ) × (get_elem? (swaps_loop ixs i tx).0 k ≡ some ev)
unfolding swaps_loop
swaps_loop_complete sig slot [] i tx j ix ev p at h = absurd cc
swaps_loop_complete sig slot (x ∷ ixs) i tx zero ix ev p at h =
    let same_ix : x ≡ ix = cc in
    found_first-first (find_swap x tx i) _ ev
      (find_swap-at x i sig slot tx p ∙ (ap (λ y. decode_swap y sig slot (i + 0)) same_ix ∙ h))
swaps_loop_complete sig slot (x ∷ ixs) i tx (suc j) ix ev p at h =
    let found = find_swap x tx i in
    let next : suc i + j ≡ i + suc j = omega arith in
    let (k, e) =
      swaps_loop_complete sig slot ixs (suc i) (name_swap found i tx) j ix ev
        (name_swap-IsIn found i sig slot tx p) at (ap (λ n. decode_swap ix sig slot n) next ∙ h) in
    found_first-get_elem? found _ ev k e

-- The instruction of an event stands at its index.
abbrev pub IsDecoded : Transaction → SwapEvent → Type 0
IsDecoded tx ev =
    (ix : Instruction) × (get_elem? tx.instructions ev.ix_index ≡ some ix)
    × (decode_swap ix tx.signature tx.slot ev.ix_index ≡ some ev)

IsDecoded-of :
    (tx : Transaction) (ev : SwapEvent)
    → IsSwapOf tx.instructions tx.signature tx.slot 0 ev
    → IsDecoded tx ev
IsDecoded-of tx ev (j, ix, at, h) =
    let h : decode_swap ix tx.signature tx.slot j ≡ some ev =
      ap (λ n. decode_swap ix tx.signature tx.slot n) (omega arith) ∙ h in
    let index : j ≡ ev.ix_index = sym ((decode_swap-IsFrom ix tx.signature tx.slot j ev h).2) in
    (
      ix,
      ap (λ n. get_elem? tx.instructions n) (sym index) ∙ at,
      ap (λ n. decode_swap ix tx.signature tx.slot n) (sym index) ∙ h,
    )

All-get_elem? :
    (P : SwapEvent → Type 0) (evs : List SwapEvent) (k : ℕ) (ev : SwapEvent)
    → All P evs
    → get_elem? evs k ≡ some ev
    → P ev
All-get_elem? P [] k ev h e = absurd cc
All-get_elem? P (x ∷ evs) zero ev h e = let same_event : x ≡ ev = cc in rw (← same_event) h.0
All-get_elem? P (x ∷ evs) (suc k) ev h e = All-get_elem? P evs k ev h.1 e

-- The events of a transaction are those that the instruction at the index of the event decodes to: no
-- event names another instruction, and no instruction with a swap is left out.
pub decode_all_swaps_iff :
    (tx : Transaction) (ev : SwapEvent)
    → ((k : ℕ) × (get_elem? (decode_all_swaps tx).0 k ≡ some ev)) ↔ IsDecoded tx ev
unfolding decode_all_swaps
decode_all_swaps_iff tx ev =
    let found = swaps_loop-IsSwapOf tx.signature tx.slot tx.instructions 0 tx (refl, refl) in
    (
      λ (k, e).
          IsDecoded-of tx ev (All-get_elem? _ (swaps_loop tx.instructions 0 tx).0 k ev found e),
      λ (ix, at, h).
          swaps_loop_complete tx.signature tx.slot tx.instructions 0 tx ev.ix_index ix ev
            (refl, refl) at (ap (λ n. decode_swap ix tx.signature tx.slot n) (omega arith) ∙ h),
    )
