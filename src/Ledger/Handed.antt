-- ===== src/Ledger/Handed.antt =====
-- Transactions of crates/payment-rollup/src/lib.rs as they were handed to the ledger, and what is
-- hashed when the replay checks one.
use payment_rollup.Prelude.{◌≡◌, [], ◌∷◌, ◌++◌, Result, ok}
use payment_rollup.Bytes.{Bytes}
use payment_rollup.Crypto.{Primitives}
use payment_rollup.Account.{managed}
use payment_rollup.Txn.{
  Transaction, SignedTransaction, Signature, TxnSidecar, payment_bytes_to_sign,
  withdrawal_bytes_to_sign,
}
use payment_rollup.Replay.{Progress}
use payment_rollup.Ledger
use payment_rollup.Ledger.{
  Ledger, Building, Panic, push, get, witness_of, insert_account, state_root, build_payment,
  build_deposit, build_withdrawal, build_forced_withdrawal, build_txn, build_loop, get_block,
}
use payment_rollup.Ledger.Convinced.{WitnessHashes, FeeHashes}
use payment_rollup.Ledger.Placed.{progress}
use payment_rollup.Ledger.Steps.{After}

-- The signature that an entry carries, if its transaction has one.
unfoldable pub signature_of : TxnSidecar → Signature
signature_of (TxnSidecar.payment e) = e.sig
signature_of (TxnSidecar.withdrawal e) = e.sig
signature_of _ = record { scheme = managed; pub_key = []; sig = [] }

-- The transaction as it was handed to the ledger.
unfoldable pub signed : Transaction → Signature → SignedTransaction
signed (Transaction.payment t) sig = SignedTransaction.payment t sig
signed (Transaction.deposit t) sig = SignedTransaction.deposit t
signed (Transaction.withdrawal t) sig = SignedTransaction.withdrawal t sig
signed (Transaction.forced_withdrawal t) sig = SignedTransaction.forced_withdrawal t

module _ ⦃p : Primitives⦄ where
  -- The ledger can place the transaction as well, and the replay stands where it then does.
  abbrev pub Places : Building → Transaction → Result Panic Building → Progress → Type 0
  Places b t run s' =
      (b' : Building) × (run ≡ ok b')
      × (s' ≡ progress b')
      × (b'.ledger.domain ≡ b.ledger.domain)
      × (b'.txns ≡ b.txns ++ t ∷ [])

module _ ⦃p : Primitives⦄ (H : Bytes → Type 0) where
  -- `H` holds of the messages hashed to check a transaction and to carry it out.
  abbrev pub TxnHashes : Ledger → Transaction → TxnSidecar → Type 0
  TxnHashes l (Transaction.payment t) (TxnSidecar.payment e) =
      WitnessHashes H t.header.sender e.sender_witness
      × After H
          (Ledger.debit l t.header.sender t.amount t.header.fee e.sig
            (payment_bytes_to_sign t l.domain))
          (λ l₁.
            WitnessHashes H t.receiver e.receiver_witness
            × After H (Ledger.credit l₁ t.receiver t.amount) (λ l₂. FeeHashes H e.fee_sink_witness))
  TxnHashes l (Transaction.deposit t) (TxnSidecar.deposit e) =
      WitnessHashes H t.receiver e.receiver_witness
  TxnHashes l (Transaction.withdrawal t) (TxnSidecar.withdrawal e) =
      WitnessHashes H t.header.sender e.sender_witness
      × After H
          (Ledger.debit l t.header.sender t.amount t.header.fee e.sig
            (withdrawal_bytes_to_sign t l.domain))
          (λ l₁. FeeHashes H e.fee_sink_witness)
  TxnHashes l (Transaction.forced_withdrawal t) (TxnSidecar.forced_withdrawal e) =
      WitnessHashes H t.header.sender e.sender_witness
  TxnHashes l _ _ = Unit
