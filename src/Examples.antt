-- ===== src/Examples.antt =====
-- A deployment with a small hash in place of SHA-256, and a few transactions of it, to run the
-- models of crates/payment-rollup and crates/sp1-host on.
mod Runs
mod Hashed
mod Keys
mod Deposited
mod Settings
mod Host
mod Blocks
mod Trees
mod Encodings
mod Inbox
mod Refused
use payment_rollup.Prelude.{
  ℕ, zero, suc, ◌+◌, ◌*◌, ◌%◌, ◌^◌, ◌≡◌, refl, Bool, true, false, List, [], ◌∷◌, ◌++◌, Option, none,
  some, Result, ok, err, length, map, if◌then◌else◌,
}
use mathlib.Core.List.{reverse}
use payment_rollup.Bytes.{
  ascii, Bytes, IsArray, bytes_eq, to_be_bytes, from_be_bytes, to_be_bytes-IsArray, from_be_loop,
}
use payment_rollup.Crypto.{Primitives}
use payment_rollup.Account
use payment_rollup.Account.{
  Address, Account, DeploymentDomain, zeros32, managed, zero_address, fee_sink, min_withdrawal,
  address_from_public_key, identifier, find_scheme, from_identifier, bump_nonce, empty,
  from_public_key,
}
use payment_rollup.Merkle.Path.{byte_bit, bit_at, leading_zeros, prefix_loop, common_prefix_len}
use payment_rollup.Merkle.Tree.{
  empty_subtree, leaf_hash, node_hash, hash, join, rehash, lift, lift_loop, split, insert, prove,
  root, update, proof,
}
use payment_rollup.Txn.{
  SignedTransaction, new_payment, new_deposit, new_forced_withdrawal, new_withdrawal, bytes_to_sign,
  payment_bytes_to_sign, withdrawal_bytes_to_sign, Signature, Block,
}
use payment_rollup.Signing.{verify_scheme, signer_address, verify_auth, verify}
use payment_rollup.Chains.{
  inbox_chain_genesis, accumulate_deposit, accumulate_request, accumulate_withdrawal,
  withdrawal_chain_terminal, fold_payouts, withdrawal_chain, links_loop, withdrawal_links,
}
use payment_rollup.Replay.{
  checked_sub, checked_add, spend, balance_of, account_or_empty, verify_block,
}
use payment_rollup.Ledger
use payment_rollup.Ledger.{
  Ledger, get, put, with_domain, insert_account, state_root, witness_of, build_payment,
  build_deposit, build_withdrawal, build_forced_withdrawal, build_txn, build_loop, get_block,
}
use payment_rollup.Ledger.Sync.{IsSynced, with_domain-IsSynced}
use payment_rollup.Ledger.Verifies.{verify_block-get_block}

-- A polynomial in the message's bytes, cut to 32 bytes.
abbrev pub weigh : ℕ → Bytes → ℕ
weigh acc [] = acc
weigh acc (b ∷ bs) = weigh ((acc * 257 + b + 1) % 2 ^ 256) bs

instance abbrev pub toy : Primitives
toy = record {
  sha256 = λ m. to_be_bytes 32 (weigh 7 m);
  digest_shape = λ m. to_be_bytes-IsArray 32 (weigh 7 m);
  ed25519_key = λ key. true;
  ed25519_strict = λ key sig m. false;
  falcon_compressed = λ sig key m. 1;
}

-- A result that a run is known to give, with its equation.
abbrev pub is_ok : {E A : Type 0} → Result E A → Bool
is_ok (ok a) = true
is_ok (err e) = false

abbrev pub outcome : {E A : Type 0} (m : Result E A) → is_ok m ≡ true → (a : A) × (m ≡ ok a)
outcome (ok a) h = (a, refl)
outcome (err e) h = absurd (cc h)

abbrev pub alice_key : Bytes
alice_key = 5 ∷ []

abbrev pub alice : Address
alice = address_from_public_key managed alice_key

abbrev pub bob : Address
bob = to_be_bytes 32 (2 ^ 250 + 77)

-- An address on the other chain.
abbrev pub carol : Address
carol = to_be_bytes 32 1_000_003

abbrev pub genesis : Ledger
genesis = with_domain zeros32

pub alice-IsArray : IsArray 32 alice
unfolding address_from_public_key
alice-IsArray = toy.digest_shape (ascii "ADDR" ++ (identifier managed ++ alice_key))

pub bob-IsArray : IsArray 32 bob
bob-IsArray = to_be_bytes-IsArray 32 (2 ^ 250 + 77)

abbrev pub unsigned : Signature
unsigned = record { scheme = managed; pub_key = alice_key; sig = [] }

-- Both are credited, alice pays bob with a fee, withdraws, and bob is forced out of too little.
abbrev pub txns : List SignedTransaction
txns =
    SignedTransaction.deposit (new_deposit alice 500_000)
    ∷ SignedTransaction.deposit (new_deposit bob 7)
    ∷ SignedTransaction.payment (new_payment alice bob 1_000 3) unsigned
    ∷ SignedTransaction.withdrawal (new_withdrawal alice carol 100_000 0) unsigned
    ∷ SignedTransaction.forced_withdrawal (new_forced_withdrawal bob carol)
    ∷ []
