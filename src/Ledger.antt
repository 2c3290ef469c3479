-- ===== src/Ledger.antt =====
-- `Ledger` of crates/payment-rollup/src/lib.rs: the sequencer's accounts, and the blocks it builds.
-- A panic (`unwrap`, `assert!`) is an error value, since it ends the call.
pub mod Sync
pub mod Mirror
pub mod Placed
pub mod Forced
pub mod Verifies
pub mod Typed
pub mod Formed
pub mod Sizes
pub mod Total
pub mod Convinced
pub mod Accepted
pub mod Steps
pub mod Handed
pub mod Repeats
pub mod Accepts
use payment_rollup.Prelude.{
  ℕ, Bool, true, false, not, Option, none, some, List, [], ◌∷◌, ◌++◌, ltb, leb, ◌==◌, if◌then◌else◌,
  Result, ok, err, ok_or, guard, ◌>>=◌, ◌>>◌,
}
use payment_rollup.Bytes.{Bytes, bytes_eq}
use payment_rollup.Crypto.{Primitives}
use payment_rollup.Account.{
  Address, DeploymentDomain, Digest, Account, Scheme, from_public_key, bump_nonce, fee_sink,
  min_withdrawal, zeros32, VerificationError,
}
use payment_rollup.Merkle.Tree
use payment_rollup.Merkle.Tree.{Node, MerkleProof, update, proof, root}
use payment_rollup.Txn.{
  Payment, Withdrawal, Deposit, ForcedWithdrawal, Transaction, SignedTransaction, Signature,
  LeafWitness, PaymentSidecar, DepositSidecar, WithdrawalSidecar, ForcedWithdrawalSidecar,
  TxnSidecar, Block, payment_bytes_to_sign, withdrawal_bytes_to_sign,
}
use payment_rollup.Signing.{verify}
use payment_rollup.Chains.{
  Payout, inbox_chain_genesis, accumulate_deposit, accumulate_request, withdrawal_chain,
}
use payment_rollup.Replay.{checked_add, spend, balance_of, account_or_empty}

-- `HashMap<Address, Account>` as an association list with one entry to a key.
abbrev pub Accounts : Type 0
Accounts = List (Address × Account)

unfoldable pub get : Accounts → Address → Option Account
get [] address = none
get ((a, x) ∷ rest) address = if bytes_eq a address then some x else get rest address

unfoldable pub put : Accounts → Address → Account → Accounts
put [] address account = (address, account) ∷ []
put ((a, x) ∷ rest) address account =
    if bytes_eq a address then (a, account) ∷ rest else (a, x) ∷ put rest address account

pub data Panic : Type 0 where
  missing_account overdrawn amount_overflow withdrawal_too_small : Panic
  refused : VerificationError → Panic

-- `Result::unwrap`
abbrev pub unwrap {ℓ} : {A : Type ℓ} → Result VerificationError A → Result Panic A
unwrap (ok a) = ok a
unwrap (err e) = err (refused e)

pub record Ledger : Type 0 where
  pub domain : DeploymentDomain
  pub accounts : Accounts
  pub tree : Node
  pub inbox_chain : Digest

unfoldable pub with_domain : DeploymentDomain → Ledger
unfolding inbox_chain_genesis
with_domain domain = record {
  domain = domain;
  accounts = [];
  tree = Node.empty;
  inbox_chain = inbox_chain_genesis;
}

unfoldable pub new : Ledger
unfolding with_domain
new = with_domain zeros32

-- The state of `get_block` between two transactions.
pub record Building : Type 0 where
  pub ledger : Ledger
  pub payouts : List Payout
  pub txns : List Transaction
  pub entries : List TxnSidecar

-- The transaction and its sidecar entry are pushed, over the ledger and the payouts so far.
abbrev pub push : Building → Ledger → List Payout → Transaction → TxnSidecar → Building
push b l payouts txn entry = record {
  ledger = l;
  payouts = payouts;
  txns = b.txns ++ txn ∷ [];
  entries = b.entries ++ entry ∷ [];
}

module _ ⦃p : Primitives⦄ where
  -- Also the write that `debit`, `credit` and the forced withdrawal make through `get_mut` or
  -- `entry`, with the update of the tree that follows it.
  unfoldable pub insert_account : Ledger → Address → Account → Ledger
  insert_account l address account = record l {
    accounts = put l.accounts address account;
    tree = update l.tree address (some account);
  }

  unfoldable pub create_account : Ledger → Scheme → Bytes → Address × Ledger
  create_account l scheme pub_key =
      let (address, account) = from_public_key scheme pub_key in
      elim (get l.accounts address) [
        | none ↦ (address, insert_account l address account)
        | some _ ↦ (address, l)
      ]

  unfoldable pub state_root : Ledger → Digest
  state_root l = root l.tree

  -- The witness of a slot as it stands.
  unfoldable pub witness_of : Ledger → Address → LeafWitness
  witness_of l address = record {
    old_account = get l.accounts address;
    proof = proof l.tree address;
  }

  unfoldable pub debit :
      Ledger → Address → ℕ → ℕ → Signature → (ℕ → Bytes) → Result Panic (LeafWitness × Ledger)
  debit l sender amount fee sig bytes_to_sign = do
    held ← ok_or (get l.accounts sender) missing_account
    account ← unwrap (bump_nonce held)
    unwrap (verify sig account (bytes_to_sign account.nonce))
    balance ← ok_or (spend account.amount amount fee) overdrawn
    ok (witness_of l sender, insert_account l sender (record account { amount = balance }))

  unfoldable pub credit : Ledger → Address → ℕ → Result Panic (LeafWitness × Ledger)
  credit l receiver amount = do
    let account = account_or_empty receiver (get l.accounts receiver)
    balance ← ok_or (checked_add account.amount amount) amount_overflow
    ok (witness_of l receiver, insert_account l receiver (record account { amount = balance }))

  -- `(fee != 0).then(|| self.credit(FEE_SINK, fee))`
  unfoldable pub credit_fee : Ledger → ℕ → Result Panic (Option LeafWitness × Ledger)
  credit_fee l fee =
      if not (fee == 0)
      then (do (witness, l') ← credit l fee_sink fee; ok (some witness, l'))
      else ok (none, l)

  -- The arms of the `match` in `get_block`.
  unfoldable pub build_payment : Payment → Signature → Building → Result Panic Building
  build_payment payment sig b = do
    (sender_witness, l₁) ←
        debit b.ledger payment.header.sender payment.amount payment.header.fee sig
          (payment_bytes_to_sign payment b.ledger.domain)
    (receiver_witness, l₂) ← credit l₁ payment.receiver payment.amount
    (fee_sink_witness, l₃) ← credit_fee l₂ payment.header.fee
    let entry : PaymentSidecar = record {
      sig = sig;
      sender_witness = sender_witness;
      receiver_witness = receiver_witness;
      fee_sink_witness = fee_sink_witness;
    }
    ok (push b l₃ b.payouts (Transaction.payment payment) (TxnSidecar.payment entry))

  unfoldable pub build_deposit : Deposit → Building → Result Panic Building
  build_deposit deposit b = do
    (receiver_witness, l) ← credit b.ledger deposit.receiver deposit.amount
    let l' : Ledger = record l {
      inbox_chain = accumulate_deposit l.inbox_chain deposit.receiver deposit.amount;
    }
    let entry : DepositSidecar = record { receiver_witness = receiver_witness }
    ok (push b l' b.payouts (Transaction.deposit deposit) (TxnSidecar.deposit entry))

  unfoldable pub build_withdrawal : Withdrawal → Signature → Building → Result Panic Building
  build_withdrawal withdrawal sig b = do
    guard (leb min_withdrawal withdrawal.amount) withdrawal_too_small
    (sender_witness, l₁) ←
        debit b.ledger withdrawal.header.sender withdrawal.amount withdrawal.header.fee sig
          (withdrawal_bytes_to_sign withdrawal b.ledger.domain)
    (fee_sink_witness, l₂) ← credit_fee l₁ withdrawal.header.fee
    let entry : WithdrawalSidecar = record {
      sig = sig;
      sender_witness = sender_witness;
      fee_sink_witness = fee_sink_witness;
    }
    ok (
        push b l₂ (b.payouts ++ (withdrawal.recipient, withdrawal.amount) ∷ [])
          (Transaction.withdrawal withdrawal) (TxnSidecar.withdrawal entry))

  -- The account is emptied if its balance is worth a payout.
  unfoldable pub empty_account :
      ForcedWithdrawal → ℕ → Ledger → List Payout → Result Panic (Ledger × List Payout)
  empty_account forced balance l payouts = do
    held ← ok_or (get l.accounts forced.header.sender) missing_account
    account ← unwrap (bump_nonce (record held { amount = 0 }))
    ok (insert_account l forced.header.sender account, payouts ++ (forced.recipient, balance) ∷ [])

  unfoldable pub build_forced_withdrawal : ForcedWithdrawal → Building → Result Panic Building
  build_forced_withdrawal forced b = do
    let l = b.ledger
    let balance = balance_of (get l.accounts forced.header.sender)
    (l', payouts) ←
        (if leb min_withdrawal balance
          then empty_account forced balance l b.payouts
          else ok (l, b.payouts))
    let l'' : Ledger = record l' {
      inbox_chain = accumulate_request l'.inbox_chain forced.header.sender forced.recipient;
    }
    let entry : ForcedWithdrawalSidecar = record {
      sender_witness = witness_of l forced.header.sender;
    }
    ok (
        push b l'' payouts (Transaction.forced_withdrawal forced)
          (TxnSidecar.forced_withdrawal entry))

  unfoldable pub build_txn : SignedTransaction → Building → Result Panic Building
  build_txn (SignedTransaction.payment t sig) b = build_payment t sig b
  build_txn (SignedTransaction.deposit t) b = build_deposit t b
  build_txn (SignedTransaction.withdrawal t sig) b = build_withdrawal t sig b
  build_txn (SignedTransaction.forced_withdrawal t) b = build_forced_withdrawal t b

  unfoldable pub build_loop : List SignedTransaction → Building → Result Panic Building
  build_loop [] b = ok b
  build_loop (t ∷ ts) b = do b' ← build_txn t b; build_loop ts b'

  unfoldable pub get_block : Ledger → List SignedTransaction → Result Panic (Block × Ledger)
  get_block l stxns = do
    b ← build_loop stxns (record { ledger = l; payouts = []; txns = []; entries = [] })
    ok (
      record {
        domain = b.ledger.domain;
        old_root = state_root l;
        new_root = state_root b.ledger;
        old_inbox_chain = l.inbox_chain;
        new_inbox_chain = b.ledger.inbox_chain;
        withdrawal_chain = withdrawal_chain b.ledger.domain b.payouts;
        batch = record { txns = b.txns };
        sidecar = record { entries = b.entries };
      },
      b.ledger,
    )
