-- ===== src/Settlement.antt =====
-- `Settlement::for_block` of crates/sp1-host/src/lib.rs: what settling one block hands to the
-- contract.
pub mod Roots
pub mod Queued
pub mod Queues
pub mod Words
pub mod Parts
pub mod Executes
pub mod Conserves
pub mod Fits
pub mod Includes
pub mod Settles
pub mod Genesis
pub mod Hex
use payment_rollup.Prelude.{
  ℕ, ◌*◌, ◌+◌, ◌/◌, ◌%◌, ltb, if◌then◌else◌, Bool, Option, none, some, List, [], ◌∷◌, ◌++◌, ◌&&◌,
  Result, ok, err, guard, ◌>>=◌, ◌>>◌, length, take, drop,
}
use payment_rollup.Bytes.{Bytes, bytes_eq}
use payment_rollup.Crypto.{Primitives}
use payment_rollup.Account.{Address, L1Address, DeploymentDomain, Digest, zeros32, root_mismatch}
use payment_rollup.Txn.{Transaction, Block}
use payment_rollup.Chains.{Payout, WithdrawalLink, withdrawal_links, inbox_chain_genesis}
use payment_rollup.Replay.{withdrawal_payouts}
use payment_rollup.Codec.Batch
use payment_rollup.Codec.Sidecar
use payment_rollup.Commit.{chunk_count, chunks}
use payment_rollup.Execute.{ExecutionError, from_decode_error, execute}

pub data InboxItem : Type 0 where
  deposit : Address → ℕ → InboxItem
  forced_withdrawal : Address → L1Address → InboxItem

pub record Settlement : Type 0 where
  pub domain : DeploymentDomain
  pub old_root : Digest
  pub new_root : Digest
  pub old_inbox_chain : Digest
  pub new_inbox_chain : Digest
  pub withdrawal_chain : Digest
  pub deposits : List (Address × ℕ)
  pub withdrawals : List Payout
  pub requests : List (Address × L1Address)
  pub inbox : List InboxItem
  pub txn_count : ℕ
  pub batch_bytes : Bytes
  pub sidecar_bytes : Bytes
  pub public_values : Bytes

-- The three `filter_map`s over the transactions.
unfoldable pub deposits_of : List Transaction → List (Address × ℕ)
deposits_of [] = []
deposits_of (Transaction.deposit t ∷ ts) = (t.receiver, t.amount) ∷ deposits_of ts
deposits_of (Transaction.payment t ∷ ts) = deposits_of ts
deposits_of (Transaction.withdrawal t ∷ ts) = deposits_of ts
deposits_of (Transaction.forced_withdrawal t ∷ ts) = deposits_of ts

unfoldable pub requests_of : List Transaction → List (Address × L1Address)
requests_of [] = []
requests_of (Transaction.forced_withdrawal t ∷ ts) = (t.header.sender, t.recipient) ∷ requests_of ts
requests_of (Transaction.payment t ∷ ts) = requests_of ts
requests_of (Transaction.deposit t ∷ ts) = requests_of ts
requests_of (Transaction.withdrawal t ∷ ts) = requests_of ts

unfoldable pub inbox_of : List Transaction → List InboxItem
inbox_of [] = []
inbox_of (Transaction.deposit t ∷ ts) = InboxItem.deposit t.receiver t.amount ∷ inbox_of ts
inbox_of (Transaction.forced_withdrawal t ∷ ts) =
    InboxItem.forced_withdrawal t.header.sender t.recipient ∷ inbox_of ts
inbox_of (Transaction.payment t ∷ ts) = inbox_of ts
inbox_of (Transaction.withdrawal t ∷ ts) = inbox_of ts

-- `public_values[from..from + 32]`
unfoldable pub word : ℕ → Bytes → Bytes
word from values = take 32 (drop from values)

-- `GENESIS_ROOT`
unfoldable pub genesis_root : Digest
genesis_root = zeros32

-- `Settlement::batch_commitment`, `batch_length`, `chunks` and `chunk_count`.
unfoldable pub settled_commitment : Settlement → Digest
settled_commitment s = word 64 s.public_values

unfoldable pub batch_length : Settlement → ℕ
batch_length s = length s.batch_bytes

unfoldable pub settled_chunks : Settlement → List Bytes
settled_chunks s = chunks s.batch_bytes

unfoldable pub settled_chunk_count : Settlement → ℕ
settled_chunk_count s = chunk_count (length s.batch_bytes)

unfoldable pub settles_from_genesis : Settlement → Bool
settles_from_genesis s =
    bytes_eq s.old_root genesis_root && bytes_eq s.old_inbox_chain inbox_chain_genesis

-- The character of a digit, and the two of a byte, as `{:02x}` prints them.
unfoldable pub hex_digit : ℕ → ℕ
hex_digit n = if ltb n 10 then 48 + n else 87 + n

unfoldable pub hex : Bytes → Bytes
hex [] = []
hex (b ∷ bs) = hex_digit (b / 16) ∷ hex_digit (b % 16) ∷ hex bs

module _ ⦃p : Primitives⦄ where
  unfoldable pub for_block : Block → Result ExecutionError Settlement
  unfolding word
  for_block block = do
    let batch_bytes = Batch.encode block.batch
    let sidecar_bytes = Sidecar.encode block.sidecar
    values ← execute block.domain block.old_root block.old_inbox_chain batch_bytes sidecar_bytes
    guard
        (bytes_eq (word 32 values) block.new_root
          && (bytes_eq (word 128 values) block.new_inbox_chain
              && bytes_eq (word 160 values) block.withdrawal_chain))
        (ExecutionError.verification root_mismatch)
    txns ← from_decode_error (Batch.decode batch_bytes)
    sidecar ← from_decode_error (Sidecar.decode sidecar_bytes txns)
    ok (record {
      domain = block.domain;
      old_root = block.old_root;
      new_root = block.new_root;
      old_inbox_chain = block.old_inbox_chain;
      new_inbox_chain = block.new_inbox_chain;
      withdrawal_chain = block.withdrawal_chain;
      deposits = deposits_of txns.txns;
      withdrawals = withdrawal_payouts txns sidecar;
      requests = requests_of txns.txns;
      inbox = inbox_of txns.txns;
      txn_count = length block.batch.txns;
      batch_bytes = batch_bytes;
      sidecar_bytes = sidecar_bytes;
      public_values = values;
    })

  -- `Settlement::withdrawal_links`
  unfoldable pub links : Settlement → List WithdrawalLink
  links s = withdrawal_links s.domain s.withdrawals
