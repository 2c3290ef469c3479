-- ===== src/Examples/Deposited.antt =====
-- The block of the scenario `deposits-only` of crates/sp1-host/src/scenarios.rs, built over small
-- signature schemes.
use payment_rollup.Prelude.{◌≡◌, refl, true, ok, length}
use payment_rollup.Bytes.{bytes_eq, to_be_bytes}
use payment_rollup.Account
use payment_rollup.Account.{
  Address, Account, DeploymentDomain, deployment_domain, zeros32, managed, zero_address, fee_sink,
  min_withdrawal, address_from_public_key, identifier, find_scheme, from_identifier, bump_nonce,
  empty, from_public_key,
}
use payment_rollup.Merkle.Path.{byte_bit, bit_at, leading_zeros, prefix_loop, common_prefix_len}
use payment_rollup.Merkle.Tree.{
  empty_subtree, leaf_hash, node_hash, hash, join, rehash, lift, lift_loop, split, insert, prove,
  root, update, proof,
}
use payment_rollup.Txn.{
  new_payment, new_deposit, new_forced_withdrawal, new_withdrawal, bytes_to_sign,
  payment_bytes_to_sign, withdrawal_bytes_to_sign,
}
use payment_rollup.Signing.{verify_scheme, signer_address, verify_auth, verify}
use payment_rollup.Chains.{
  inbox_chain_genesis, accumulate_deposit, accumulate_request, accumulate_withdrawal,
  withdrawal_chain_terminal, fold_payouts, withdrawal_chain,
}
use payment_rollup.Replay.{checked_sub, checked_add, spend, balance_of, account_or_empty}
use payment_rollup.Ledger
use payment_rollup.Ledger.{
  Ledger, get, put, with_domain, insert_account, state_root, witness_of, build_payment,
  build_deposit, build_withdrawal, build_forced_withdrawal, build_txn, build_loop, get_block,
}
use payment_rollup.Txn.{Block}
use payment_rollup.Scenarios
use payment_rollup.Scenarios.{Scenario, transactions, build, round_trip, pay, withdraw, l1_account}
use payment_rollup.Scenarios.{deposits_only}
use payment_rollup.Scenarios.Listing.{fixed, build_entry, submitted, from_failure, from_panic}
use payment_rollup.Examples.{is_ok, outcome}
use payment_rollup.Examples.Keys.{dalek, falcon, strict}

pub made_ok :
    is_ok
      (build_entry dalek falcon (fixed Scenario.deposits_only_entry) (deployment_domain zeros32 0))
    ≡ true
unfolding deployment_domain build_entry submitted from_failure from_panic build transactions
    deposits_only Scenarios.address_of Scenarios.deposit pay withdraw l1_account build_payment
    build_deposit build_withdrawal build_forced_withdrawal build_txn build_loop get_block
    Ledger.debit Ledger.credit Ledger.credit_fee Ledger.empty_account get put with_domain
    insert_account state_root witness_of checked_add checked_sub spend balance_of account_or_empty
    Account.empty bump_nonce verify verify_auth verify_scheme signer_address from_identifier
    find_scheme accumulate_deposit accumulate_request accumulate_withdrawal inbox_chain_genesis
    withdrawal_chain withdrawal_chain_terminal fold_payouts new_payment new_deposit new_withdrawal
    new_forced_withdrawal update insert split lift lift_loop rehash join hash node_hash leaf_hash
    empty_subtree Account.encode to_be_bytes bytes_eq address_from_public_key identifier bit_at
    byte_bit common_prefix_len prefix_loop leading_zeros root proof prove zero_address fee_sink
    min_withdrawal payment_bytes_to_sign withdrawal_bytes_to_sign bytes_to_sign
made_ok = refl

abbrev pub made :
    (r : Block × Ledger) × (build_entry dalek falcon
        (fixed Scenario.deposits_only_entry)
        (deployment_domain zeros32 0)
      ≡ ok r)
made =
    outcome
      (build_entry dalek falcon (fixed Scenario.deposits_only_entry) (deployment_domain zeros32 0))
      made_ok

abbrev pub block : Block
block = made.0.0

pub block_starts :
    (length block.domain ≡ 32) × (length block.old_root ≡ 32) × (length block.old_inbox_chain ≡ 32)
unfolding deployment_domain build_entry submitted from_failure from_panic build transactions
    deposits_only Scenarios.address_of Scenarios.deposit pay withdraw l1_account build_payment
    build_deposit build_withdrawal build_forced_withdrawal build_txn build_loop get_block
    Ledger.debit Ledger.credit Ledger.credit_fee Ledger.empty_account get put with_domain
    insert_account state_root witness_of checked_add checked_sub spend balance_of account_or_empty
    Account.empty bump_nonce verify verify_auth verify_scheme signer_address from_identifier
    find_scheme accumulate_deposit accumulate_request accumulate_withdrawal inbox_chain_genesis
    withdrawal_chain withdrawal_chain_terminal fold_payouts new_payment new_deposit new_withdrawal
    new_forced_withdrawal update insert split lift lift_loop rehash join hash node_hash leaf_hash
    empty_subtree Account.encode to_be_bytes bytes_eq address_from_public_key identifier bit_at
    byte_bit common_prefix_len prefix_loop leading_zeros root proof prove zero_address fee_sink
    min_withdrawal payment_bytes_to_sign withdrawal_bytes_to_sign bytes_to_sign
block_starts = (refl, refl, refl)
