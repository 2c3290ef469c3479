-- ===== src/Replay.antt =====
-- The replay of a batch against its sidecar: `debit`, `credit`, `verify_batch`, `verify_block` and
-- `withdrawal_payouts` of crates/payment-rollup/src/lib.rs.
pub mod Reasons
pub mod Refusals
pub mod Errors
use payment_rollup.Prelude.{
  ℕ, ◌+◌, ◌-◌, ◌^◌, ◌&&◌, not, Option, none, some, List, [], ◌∷◌, ◌++◌, ltb, leb, ◌==◌,
  if◌then◌else◌, Result, ok, err, ok_or, guard, ◌>>=◌, ◌>>◌, length,
}
use payment_rollup.Bytes.{Bytes, bytes_eq}
use payment_rollup.Crypto.{Primitives}
use payment_rollup.Account
use payment_rollup.Account.{
  Address, DeploymentDomain, Digest, Account, bump_nonce, fee_sink, min_withdrawal,
  VerificationError, unknown_sender, insufficient_funds, amount_overflow, withdrawal_too_small,
  malformed_proof, stale_witness, root_mismatch, sidecar_length_mismatch, sidecar_kind_mismatch,
}
use payment_rollup.Merkle.Tree.{MerkleProof}
use payment_rollup.Merkle.Witness.{root_from_proof}
use payment_rollup.Txn.{
  Payment, Withdrawal, Deposit, ForcedWithdrawal, Transaction, Signature, LeafWitness,
  PaymentSidecar, DepositSidecar, WithdrawalSidecar, ForcedWithdrawalSidecar, TxnSidecar, Batch,
  Sidecar, Block, payment_bytes_to_sign, withdrawal_bytes_to_sign,
}
use payment_rollup.Signing.{verify}
use payment_rollup.Chains.{Payout, accumulate_deposit, accumulate_request, withdrawal_chain}

-- `u64::checked_sub` and `u64::checked_add`.
unfoldable pub checked_sub : ℕ → ℕ → Option ℕ
checked_sub a b = if leb b a then some (a - b) else none

unfoldable pub checked_add : ℕ → ℕ → Option ℕ
checked_add a b = if ltb (a + b) (2 ^ 64) then some (a + b) else none

-- `balance.checked_sub(amount).and_then(|b| b.checked_sub(fee))`
unfoldable pub spend : ℕ → ℕ → ℕ → Option ℕ
unfolding checked_sub
spend balance amount fee = elim (checked_sub balance amount) [
  | none ↦ none
  | some rest ↦ checked_sub rest fee
]

-- `map_or(0, |account| account.amount)`
unfoldable pub balance_of : Option Account → ℕ
balance_of none = 0
balance_of (some account) = account.amount

-- `unwrap_or_else(|| Account::empty(address))`
unfoldable pub account_or_empty : Address → Option Account → Account
unfolding Account.empty
account_or_empty address none = Account.empty address
account_or_empty address (some account) = account

-- What the loop of `verify_batch` carries.
pub record Progress : Type 0 where
  pub root : Digest
  pub inbox_chain : Digest
  pub payouts : List Payout

module _ ⦃p : Primitives⦄ where
  unfoldable pub root_with :
      Address → Option Account → MerkleProof → Result VerificationError Digest
  root_with address account proof = ok_or (root_from_proof address account proof) malformed_proof

  unfoldable pub expect_pre_state :
      Address → LeafWitness → Digest → Result VerificationError (Unit {0})
  unfolding root_with
  expect_pre_state address witness root = do
    found ← root_with address witness.old_account witness.proof
    guard (bytes_eq found root) stale_witness

  unfoldable pub debit :
      Address
      → LeafWitness
      → Signature
      → ℕ
      → ℕ
      → Digest
      → (ℕ → Bytes)
      → Result VerificationError Digest
  debit sender_addr witness sig amount fee root bytes_to_sign = do
    expect_pre_state sender_addr witness root
    held ← ok_or witness.old_account unknown_sender
    sender ← bump_nonce held
    verify sig sender (bytes_to_sign sender.nonce)
    balance ← ok_or (spend sender.amount amount fee) insufficient_funds
    root_with sender_addr (some (record sender { amount = balance })) witness.proof

  unfoldable pub credit : Address → LeafWitness → ℕ → Digest → Result VerificationError Digest
  credit receiver_addr witness amount root = do
    expect_pre_state receiver_addr witness root
    let receiver = account_or_empty receiver_addr witness.old_account
    balance ← ok_or (checked_add receiver.amount amount) amount_overflow
    root_with receiver_addr (some (record receiver { amount = balance })) witness.proof

  -- The `match` on the fee and the fee sink's witness.
  unfoldable pub credit_fee : ℕ → Option LeafWitness → Digest → Result VerificationError Digest
  credit_fee fee none root = if fee == 0 then ok root else err sidecar_kind_mismatch
  credit_fee fee (some witness) root =
      if not (fee == 0) then credit fee_sink witness fee root else err sidecar_kind_mismatch

  unfoldable pub verify_payment :
      DeploymentDomain → Payment → PaymentSidecar → Progress → Result VerificationError Progress
  verify_payment domain payment entry s = do
    root ←
        debit payment.header.sender entry.sender_witness entry.sig payment.amount payment.header.fee
          s.root (payment_bytes_to_sign payment domain)
    root' ← credit payment.receiver entry.receiver_witness payment.amount root
    root'' ← credit_fee payment.header.fee entry.fee_sink_witness root'
    ok (record s { root = root'' })

  unfoldable pub verify_deposit :
      Deposit → DepositSidecar → Progress → Result VerificationError Progress
  verify_deposit deposit entry s = do
    root ← credit deposit.receiver entry.receiver_witness deposit.amount s.root
    ok (record s {
      root = root;
      inbox_chain = accumulate_deposit s.inbox_chain deposit.receiver deposit.amount;
    })

  unfoldable pub verify_withdrawal :
      DeploymentDomain
      → Withdrawal
      → WithdrawalSidecar
      → Progress
      → Result VerificationError Progress
  verify_withdrawal domain withdrawal entry s = do
    guard (not (ltb withdrawal.amount min_withdrawal)) withdrawal_too_small
    root ←
        debit withdrawal.header.sender entry.sender_witness entry.sig withdrawal.amount
          withdrawal.header.fee s.root (withdrawal_bytes_to_sign withdrawal domain)
    root' ← credit_fee withdrawal.header.fee entry.fee_sink_witness root
    ok (record s {
      root = root';
      payouts = s.payouts ++ (withdrawal.recipient, withdrawal.amount) ∷ [];
    })

  -- The payout of a forced withdrawal whose balance is worth one.
  unfoldable pub empty_account :
      ForcedWithdrawal → LeafWitness → ℕ → Progress → Result VerificationError Progress
  empty_account forced witness balance s = do
    held ← ok_or witness.old_account unknown_sender
    account ← bump_nonce (record held { amount = 0 })
    root ← root_with forced.header.sender (some account) witness.proof
    ok (record s { root = root; payouts = s.payouts ++ (forced.recipient, balance) ∷ [] })

  unfoldable pub verify_forced_withdrawal :
      ForcedWithdrawal → ForcedWithdrawalSidecar → Progress → Result VerificationError Progress
  verify_forced_withdrawal forced entry s = do
    expect_pre_state forced.header.sender entry.sender_witness s.root
    let balance = balance_of entry.sender_witness.old_account
    s' ←
        (if leb min_withdrawal balance
          then empty_account forced entry.sender_witness balance s
          else ok s)
    ok (record s' {
      inbox_chain = accumulate_request s'.inbox_chain forced.header.sender forced.recipient;
    })

  unfoldable pub verify_txn :
      DeploymentDomain → Transaction → TxnSidecar → Progress → Result VerificationError Progress
  verify_txn domain (Transaction.payment t) (TxnSidecar.payment e) s = verify_payment domain t e s
  verify_txn domain (Transaction.deposit t) (TxnSidecar.deposit e) s = verify_deposit t e s
  verify_txn domain (Transaction.withdrawal t) (TxnSidecar.withdrawal e) s =
      verify_withdrawal domain t e s
  verify_txn domain (Transaction.forced_withdrawal t) (TxnSidecar.forced_withdrawal e) s =
      verify_forced_withdrawal t e s
  verify_txn domain _ _ s = err sidecar_kind_mismatch

  -- The loop over the zipped transactions and entries.
  unfoldable pub verify_loop :
      DeploymentDomain
      → List Transaction
      → List TxnSidecar
      → Progress
      → Result VerificationError Progress
  verify_loop domain [] entries s = ok s
  verify_loop domain (t ∷ ts) [] s = ok s
  verify_loop domain (t ∷ ts) (e ∷ es) s = do
    s' ← verify_txn domain t e s
    verify_loop domain ts es s'

  unfoldable pub verify_batch :
      DeploymentDomain
      → Digest
      → Digest
      → Batch
      → Sidecar
      → Result VerificationError (Digest × Digest × Digest)
  verify_batch domain old_root inbox_anchor batch sidecar = do
    guard (length batch.txns == length sidecar.entries) sidecar_length_mismatch
    s ←
        verify_loop domain batch.txns sidecar.entries
          (record { root = old_root; inbox_chain = inbox_anchor; payouts = [] })
    ok (s.root, s.inbox_chain, withdrawal_chain domain s.payouts)

  unfoldable pub verify_block : Block → Result VerificationError (Unit {0})
  verify_block block = do
    (root, inbox_chain, chain) ←
        verify_batch block.domain block.old_root block.old_inbox_chain block.batch block.sidecar
    guard
        (bytes_eq root block.new_root
          && (bytes_eq inbox_chain block.new_inbox_chain && bytes_eq chain block.withdrawal_chain))
        root_mismatch

-- The payout that one transaction and its entry queue, if any.
unfoldable pub payout_of : Transaction → TxnSidecar → Option Payout
payout_of (Transaction.withdrawal t) entry = some (t.recipient, t.amount)
payout_of (Transaction.forced_withdrawal t) (TxnSidecar.forced_withdrawal e) =
    let balance = balance_of e.sender_witness.old_account in
    if leb min_withdrawal balance then some (t.recipient, balance) else none
payout_of _ _ = none

-- `filter_map` over the zipped transactions and entries.
unfoldable pub payouts_loop : List Transaction → List TxnSidecar → List Payout
payouts_loop [] entries = []
payouts_loop (t ∷ ts) [] = []
payouts_loop (t ∷ ts) (e ∷ es) = elim (payout_of t e) [
  | none ↦ payouts_loop ts es
  | some payout ↦ payout ∷ payouts_loop ts es
]

unfoldable pub withdrawal_payouts : Batch → Sidecar → List Payout
withdrawal_payouts batch sidecar = payouts_loop batch.txns sidecar.entries
