-- ===== src/Txn.antt =====
-- The transactions, witnesses and blocks of crates/payment-rollup/src/lib.rs, and the bytes that a
-- sender signs.
pub mod Messages
use payment_rollup.Prelude.{ℕ, Option, none, some, List, ◌++◌}
use payment_rollup.Bytes.{Bytes, ascii, u64_bytes}
use payment_rollup.Account.{
  Address, L1Address, DeploymentDomain, Digest, Scheme, Account, zero_address,
}
use payment_rollup.Merkle.Tree.{MerkleProof}

pub record TransactionHeader : Type 0 where
  pub sender : Address
  pub fee : ℕ

pub record Payment : Type 0 where
  pub header : TransactionHeader
  pub receiver : Address
  pub amount : ℕ

pub record Withdrawal : Type 0 where
  pub header : TransactionHeader
  pub recipient : L1Address
  pub amount : ℕ

pub record Deposit : Type 0 where
  pub header : TransactionHeader
  pub receiver : Address
  pub amount : ℕ

pub record ForcedWithdrawal : Type 0 where
  pub header : TransactionHeader
  pub recipient : L1Address

unfoldable pub new_payment : Address → Address → ℕ → ℕ → Payment
new_payment sender receiver amount fee = record {
  header = record { sender = sender; fee = fee };
  receiver = receiver;
  amount = amount;
}

unfoldable pub new_withdrawal : Address → L1Address → ℕ → ℕ → Withdrawal
new_withdrawal sender recipient amount fee = record {
  header = record { sender = sender; fee = fee };
  recipient = recipient;
  amount = amount;
}

-- `Deposit::new`, the only constructor.
unfoldable pub new_deposit : Address → ℕ → Deposit
unfolding zero_address
new_deposit receiver amount = record {
  header = record { sender = zero_address; fee = 0 };
  receiver = receiver;
  amount = amount;
}

unfoldable pub new_forced_withdrawal : Address → L1Address → ForcedWithdrawal
new_forced_withdrawal address recipient = record {
  header = record { sender = address; fee = 0 };
  recipient = recipient;
}

pub data Transaction : Type 0 where
  payment : Payment → Transaction
  deposit : Deposit → Transaction
  withdrawal : Withdrawal → Transaction
  forced_withdrawal : ForcedWithdrawal → Transaction

unfoldable pub sender : Transaction → Address
sender (Transaction.payment t) = t.header.sender
sender (Transaction.deposit t) = t.header.sender
sender (Transaction.withdrawal t) = t.header.sender
sender (Transaction.forced_withdrawal t) = t.header.sender

unfoldable pub receiver : Transaction → Option Address
receiver (Transaction.payment t) = some t.receiver
receiver (Transaction.deposit t) = some t.receiver
receiver (Transaction.withdrawal t) = none
receiver (Transaction.forced_withdrawal t) = none

unfoldable pub amount : Transaction → Option ℕ
amount (Transaction.payment t) = some t.amount
amount (Transaction.deposit t) = some t.amount
amount (Transaction.withdrawal t) = some t.amount
amount (Transaction.forced_withdrawal t) = none

unfoldable pub fee : Transaction → ℕ
fee (Transaction.payment t) = t.header.fee
fee (Transaction.withdrawal t) = t.header.fee
fee (Transaction.deposit t) = 0
fee (Transaction.forced_withdrawal t) = 0

abbrev pub sign_tag_payment : Bytes
sign_tag_payment = ascii "PAY"

abbrev pub sign_tag_withdrawal : Bytes
sign_tag_withdrawal = ascii "WDR"

-- The seven fields that fill the 123 bytes of the buffer, in order.
unfoldable pub bytes_to_sign : DeploymentDomain → Bytes → Address → ℕ → ℕ → Bytes → ℕ → Bytes
bytes_to_sign domain tag sender nonce fee destination amount =
    tag
    ++ (domain
        ++ (sender ++ (u64_bytes nonce ++ (u64_bytes fee ++ (destination ++ u64_bytes amount)))))

unfoldable pub payment_bytes_to_sign : Payment → DeploymentDomain → ℕ → Bytes
unfolding bytes_to_sign
payment_bytes_to_sign t domain nonce =
    bytes_to_sign domain sign_tag_payment t.header.sender nonce t.header.fee t.receiver t.amount

unfoldable pub withdrawal_bytes_to_sign : Withdrawal → DeploymentDomain → ℕ → Bytes
unfolding bytes_to_sign
withdrawal_bytes_to_sign t domain nonce =
    bytes_to_sign domain sign_tag_withdrawal t.header.sender nonce t.header.fee t.recipient t.amount

pub record Signature : Type 0 where
  pub scheme : Scheme
  pub pub_key : Bytes
  pub sig : Bytes

pub data SignedTransaction : Type 0 where
  payment : Payment → Signature → SignedTransaction
  deposit : Deposit → SignedTransaction
  withdrawal : Withdrawal → Signature → SignedTransaction
  forced_withdrawal : ForcedWithdrawal → SignedTransaction

pub record LeafWitness : Type 0 where
  pub old_account : Option Account
  pub proof : MerkleProof

pub record PaymentSidecar : Type 0 where
  pub sig : Signature
  pub sender_witness : LeafWitness
  pub receiver_witness : LeafWitness
  pub fee_sink_witness : Option LeafWitness

pub record DepositSidecar : Type 0 where
  pub receiver_witness : LeafWitness

pub record WithdrawalSidecar : Type 0 where
  pub sig : Signature
  pub sender_witness : LeafWitness
  pub fee_sink_witness : Option LeafWitness

pub record ForcedWithdrawalSidecar : Type 0 where
  pub sender_witness : LeafWitness

pub data TxnSidecar : Type 0 where
  payment : PaymentSidecar → TxnSidecar
  deposit : DepositSidecar → TxnSidecar
  withdrawal : WithdrawalSidecar → TxnSidecar
  forced_withdrawal : ForcedWithdrawalSidecar → TxnSidecar

pub record Batch : Type 0 where
  pub txns : List Transaction

pub record Sidecar : Type 0 where
  pub entries : List TxnSidecar

pub record Block : Type 0 where
  pub domain : DeploymentDomain
  pub old_root : Digest
  pub new_root : Digest
  pub old_inbox_chain : Digest
  pub new_inbox_chain : Digest
  pub withdrawal_chain : Digest
  pub batch : Batch
  pub sidecar : Sidecar
