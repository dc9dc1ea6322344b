-- ===== src/Wallet/Solana/Update.antt =====
-- `transactionFromUpdate` of projects/02-wallet-scoring/internal/solana/geyser.go.
use portfolio_itmo.Common.{
  ℕ, Bool, true, false, List, [], ◌∷◌, Option, none, some, length, ◌==◌, Result, ok, err, ◌>>=◌,
  Returns, >>=-Returns, after-Returns, of_Returns, ◌≡◌, refl, suc, if◌then◌else◌, All,
}
use portfolio_itmo.Wallet.Geyser.CompiledInstruction.{CompiledInstruction}
use portfolio_itmo.Wallet.Geyser.Message.{Message}
use portfolio_itmo.Wallet.Geyser.TransactionInfo.{TransactionInfo}
use portfolio_itmo.Wallet.Geyser.TransactionStatusMeta.{TransactionStatusMeta}
use portfolio_itmo.Wallet.Geyser.SubscribeUpdateTransaction.{SubscribeUpdateTransaction}
use portfolio_itmo.Wallet.Solana.{Address, Instruction, Transaction, Error, no_transaction_message}
use portfolio_itmo.Wallet.Solana.Parser.{
  encoded, resolve_instruction, bare_transaction, fill_summary,
}
use portfolio_itmo.Wallet.Solana.Parser.Summary.{
  IsResolved, IsWellFormed, resolve_instruction-IsResolved, fill_summary-IsWellFormed,
}
use portfolio_itmo.Wallet.Solana.Swap.{
  SwapEvent, find_swap, name_swap, swaps_loop, decode_all_swaps,
}

-- The loop over the account keys.
unfoldable pub encode_keys : List (List ℕ) → Result Error (List Address)
encode_keys [] = ok []
encode_keys (k ∷ ks) = do key ← encoded k; keys ← encode_keys ks; ok (key ∷ keys)

-- The loop over the instructions.
unfoldable pub convert_instructions :
    List Address → List CompiledInstruction → Result Error (List Instruction)
convert_instructions keys [] = ok []
convert_instructions keys (c ∷ cs) = do
  ix ← resolve_instruction keys c.program_id_index c.accounts c.payload
  ixs ← convert_instructions keys cs
  ok (ix ∷ ixs)

-- `info.Meta == nil || len(info.Meta.Err) == 0`
abbrev pub succeeded : Option TransactionStatusMeta → Bool
succeeded none = true
succeeded (some meta) = length meta.error == 0

abbrev pub fee_of : Option TransactionStatusMeta → ℕ
fee_of none = 0
fee_of (some meta) = meta.fee

-- What follows the test for pointers that are nil.
unfoldable pub convert : TransactionInfo → Message → ℕ → Result Error Transaction
convert info msg slot = do
  keys ← encode_keys msg.account_keys
  instrs ← convert_instructions keys msg.instructions
  signature ← encoded info.signature
  tx ← fill_summary (record (bare_transaction signature keys instrs) {
    slot = slot;
    is_success = succeeded info.meta;
    fee = fee_of info.meta;
  })
  ok (decode_all_swaps tx).1

-- The message of an update, behind three pointers.
abbrev pub message_of : SubscribeUpdateTransaction → Option (TransactionInfo × Message)
message_of upd = elim upd.transaction [
  | none ↦ none
  | some info ↦ elim info.transaction [
    | none ↦ none
    | some t ↦ elim t.message [ none ↦ none | some msg ↦ some (info, msg) ]
  ]
]

unfoldable pub transaction_from_update : SubscribeUpdateTransaction → Result Error Transaction
transaction_from_update upd = elim (message_of upd) [
  | none ↦ err no_transaction_message
  | some (info, msg) ↦ convert info msg upd.slot
]

convert_instructions-IsResolved :
    (keys : List Address) (cs : List CompiledInstruction)
    → Returns (All (IsResolved keys)) (convert_instructions keys cs)
unfolding convert_instructions
convert_instructions-IsResolved keys [] = tt
convert_instructions-IsResolved keys (c ∷ cs) =
    >>=-Returns (IsResolved keys) (All (IsResolved keys)) _ _
      (resolve_instruction-IsResolved keys c.program_id_index c.accounts c.payload)
      (λ ix h.
        >>=-Returns (All (IsResolved keys)) (All (IsResolved keys)) (convert_instructions keys cs)
          (λ ixs. ok (ix ∷ ixs)) (convert_instructions-IsResolved keys cs) (λ ixs hs. (h, hs)))

name_swap-IsWellFormed :
    (found : Option SwapEvent) (i : ℕ) (tx : Transaction)
    → IsWellFormed tx
    → IsWellFormed (name_swap found i tx)
name_swap-IsWellFormed none i tx h = h
name_swap-IsWellFormed (some ev) i tx h = either (i == 0)
  where
    either : (b : Bool) → IsWellFormed (if b then record tx { swap_kind = ev.dex } else tx)
    either true = h
    either false = h

swaps_loop-IsWellFormed :
    (ixs : List Instruction) (i : ℕ) (tx : Transaction)
    → IsWellFormed tx
    → IsWellFormed (swaps_loop ixs i tx).1
unfolding swaps_loop
swaps_loop-IsWellFormed [] i tx h = h
swaps_loop-IsWellFormed (ix ∷ ixs) i tx h =
    let found = find_swap ix tx i in
    swaps_loop-IsWellFormed ixs (suc i) (name_swap found i tx) (name_swap-IsWellFormed found i tx h)

convert-IsWellFormed :
    (info : TransactionInfo) (msg : Message) (slot : ℕ)
    → Returns IsWellFormed (convert info msg slot)
unfolding convert decode_all_swaps
convert-IsWellFormed info msg slot =
    let bare = λ (keys : List Address) (instrs : List Instruction) (signature : Address).
      record (bare_transaction signature keys instrs) {
        slot = slot;
        is_success = succeeded info.meta;
        fee = fee_of info.meta;
      } in
    after-Returns IsWellFormed (encode_keys msg.account_keys) _ (λ keys.
      >>=-Returns (All (IsResolved keys)) IsWellFormed (convert_instructions keys msg.instructions)
        _ (convert_instructions-IsResolved keys msg.instructions)
        (λ instrs h. after-Returns IsWellFormed (encoded info.signature) _ (λ signature.
          >>=-Returns IsWellFormed IsWellFormed (fill_summary (bare keys instrs signature)) _
            (fill_summary-IsWellFormed (bare keys instrs signature) h (refl, refl, refl))
            (λ tx hx. swaps_loop-IsWellFormed tx.instructions 0 tx hx))))

-- What the stream's client makes of an update without an error is made of the account keys of the
-- transaction, as what `ParseTransaction` returns.
pub transaction_from_update-IsWellFormed :
    (upd : SubscribeUpdateTransaction) (tx : Transaction)
    → transaction_from_update upd ≡ ok tx
    → IsWellFormed tx
unfolding transaction_from_update
transaction_from_update-IsWellFormed upd tx h =
    of_Returns IsWellFormed (transaction_from_update upd) tx (of_message (message_of upd)) h
  where
    of_message :
        (m : Option (TransactionInfo × Message))
        → Returns IsWellFormed (elim m [
          | none ↦ err no_transaction_message
          | some (info, msg) ↦ convert info msg upd.slot
        ])
    of_message none = tt
    of_message (some (info, msg)) = convert-IsWellFormed info msg upd.slot
