-- ===== src/Examples/Runs.antt =====
-- The ledger of crates/payment-rollup/src/lib.rs run on the examples.
use payment_rollup.Prelude.{ℕ, ◌≡◌, refl, true, [], ◌∷◌, ok}
use payment_rollup.Bytes.{Bytes, bytes_eq, to_be_bytes}
use payment_rollup.Account
use payment_rollup.Account.{
  Address, Account, DeploymentDomain, zeros32, managed, zero_address, fee_sink, min_withdrawal,
  address_from_public_key, identifier, find_scheme, from_identifier, bump_nonce, empty,
  from_public_key,
}
use payment_rollup.Merkle.Path.{byte_bit, bit_at, leading_zeros, prefix_loop, common_prefix_len}
use payment_rollup.Merkle.Tree.{
  empty_subtree, leaf_hash, node_hash, hash, join, rehash, lift, lift_loop, split, insert, prove,
  root, update, proof,
}
use payment_rollup.Txn.{
  new_payment, new_deposit, new_forced_withdrawal, new_withdrawal, bytes_to_sign,
  payment_bytes_to_sign, withdrawal_bytes_to_sign,
}
use payment_rollup.Signing.{verify_scheme, signer_address, verify_auth, verify}
use payment_rollup.Chains.{
  inbox_chain_genesis, accumulate_deposit, accumulate_request, accumulate_withdrawal,
  withdrawal_chain_terminal, fold_payouts, withdrawal_chain,
}
use payment_rollup.Replay.{checked_sub, checked_add, spend, balance_of, account_or_empty}
use payment_rollup.Ledger
use payment_rollup.Ledger.{
  Ledger, get, put, with_domain, insert_account, state_root, witness_of, build_payment,
  build_deposit, build_withdrawal, build_forced_withdrawal, build_txn, build_loop, get_block,
}
use payment_rollup.Txn.{LeafWitness, Block}
use payment_rollup.Replay.{payout_of, payouts_loop, withdrawal_payouts}
use payment_rollup.Examples.{is_ok, outcome, toy, alice, bob, carol, genesis, unsigned, txns}

abbrev pub rich : Account
rich = record { nonce = 0; amount = 1_000_000; auth_address = alice }

abbrev pub poor : Account
poor = record { nonce = 3; amount = 5; auth_address = bob }

abbrev pub held : Ledger
held = insert_account genesis alice rich

-- Two accounts in one tree.
abbrev pub both : Ledger
both = insert_account held bob poor

abbrev pub message : ℕ → Bytes
message nonce = payment_bytes_to_sign (new_payment alice bob 30 2) zeros32 nonce

-- What each run of the ledger gives, found by running it.
pub runs :
    (is_ok (get_block genesis txns) ≡ true)
    × (is_ok (Ledger.debit held alice 30 2 unsigned message) ≡ true)
    × (is_ok (Ledger.credit both bob 12) ≡ true)
unfolding build_payment build_deposit build_withdrawal build_forced_withdrawal build_txn build_loop
    get_block Ledger.debit Ledger.credit Ledger.credit_fee Ledger.empty_account get put with_domain
    insert_account state_root witness_of checked_add checked_sub spend balance_of account_or_empty
    Account.empty bump_nonce verify verify_auth verify_scheme signer_address from_identifier
    find_scheme accumulate_deposit accumulate_request accumulate_withdrawal inbox_chain_genesis
    withdrawal_chain withdrawal_chain_terminal fold_payouts new_payment new_deposit new_withdrawal
    new_forced_withdrawal update insert split lift lift_loop rehash join hash node_hash leaf_hash
    empty_subtree Account.encode to_be_bytes bytes_eq address_from_public_key identifier bit_at
    byte_bit common_prefix_len prefix_loop leading_zeros root proof prove zero_address fee_sink
    min_withdrawal payment_bytes_to_sign withdrawal_bytes_to_sign bytes_to_sign
runs = (refl, refl, refl)

abbrev pub built : (r : Block × Ledger) × (get_block genesis txns ≡ ok r)
built = outcome (get_block genesis txns) runs.0

abbrev pub debited :
    (r : LeafWitness × Ledger) × (Ledger.debit held alice 30 2 unsigned message ≡ ok r)
debited = outcome (Ledger.debit held alice 30 2 unsigned message) runs.1

abbrev pub credited : (r : LeafWitness × Ledger) × (Ledger.credit both bob 12 ≡ ok r)
credited = outcome (Ledger.credit both bob 12) runs.2

carol_is_paid : withdrawal_payouts built.0.0.batch built.0.0.sidecar ≡ (carol, 100_000) ∷ []
unfolding build_payment build_deposit build_withdrawal build_forced_withdrawal build_txn build_loop
    get_block Ledger.debit Ledger.credit Ledger.credit_fee Ledger.empty_account get put with_domain
    insert_account state_root witness_of checked_add checked_sub spend balance_of account_or_empty
    Account.empty bump_nonce verify verify_auth verify_scheme signer_address from_identifier
    find_scheme accumulate_deposit accumulate_request accumulate_withdrawal inbox_chain_genesis
    withdrawal_chain withdrawal_chain_terminal fold_payouts new_payment new_deposit new_withdrawal
    new_forced_withdrawal update insert split lift lift_loop rehash join hash node_hash leaf_hash
    empty_subtree Account.encode to_be_bytes bytes_eq address_from_public_key identifier bit_at
    byte_bit common_prefix_len prefix_loop leading_zeros root proof prove zero_address fee_sink
    min_withdrawal payment_bytes_to_sign withdrawal_bytes_to_sign bytes_to_sign withdrawal_payouts
    payouts_loop payout_of
carol_is_paid = refl
