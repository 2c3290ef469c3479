-- ===== src/Scenarios/Settle.antt =====
-- What the scenarios of crates/sp1-host/src/scenarios.rs submit is within its types and sizes.
use payment_rollup.Prelude.{◌+◌, ◌*◌, ◌≤◌, refl, List, arith, length, All}
use payment_rollup.Bytes.{ascii}
use payment_rollup.Crypto.{Primitives}
use payment_rollup.Account.{ed25519, min_withdrawal, address_from_public_key}
use payment_rollup.Txn.{SignedTransaction, new_deposit}
use payment_rollup.Codec.Reader.{usize_max}
use payment_rollup.Ledger.Formed.{IsSubmitted}
use payment_rollup.Scenarios.{
  scenario_fee, l1_account, exit_key_one, exit_key_two, address_of, genesis_empty_batch,
  deposits_only, payments, withdrawals, duplicate_withdrawals, round_trip, forced_exit,
  forced_inclusion, inbox_ordering, multi_chunk, Scenario, transactions,
}
use payment_rollup.Scenarios.Submitted.{
  l1_account-IsArray, address-IsArray, address_of-IsArray, deposit-IsSubmitted, pay-IsSubmitted,
  withdraw-IsSubmitted, exit_deposit-IsSubmitted, forced-IsSubmitted, spread-IsSubmitted,
  length-spread,
}

module _ ⦃p : Primitives⦄ where
  -- Transactions that the ledger and the wire formats can carry.
  abbrev pub Fine : List SignedTransaction → Type 0
  Fine ts = All IsSubmitted ts × (length ts * 3 ≤ usize_max)

  pub transactions-Fine : (s : Scenario) → Fine (transactions s)
  unfolding transactions genesis_empty_batch deposits_only payments withdrawals
      duplicate_withdrawals round_trip forced_exit forced_inclusion inbox_ordering multi_chunk
  transactions-Fine Scenario.genesis_empty_batch_entry = (tt, omega arith)
  transactions-Fine Scenario.deposits_only_entry = (
    (
      deposit-IsSubmitted (ascii "a key") 1_000 (omega arith),
      (
        deposit-IsSubmitted (ascii "a key") 1_000 (omega arith),
        (deposit-IsSubmitted (ascii "b key") 500 (omega arith), tt),
      ),
    ),
    omega arith,
  )
  transactions-Fine Scenario.payments_entry =
      let a = address_of (ascii "a key") in
      (
        (
          deposit-IsSubmitted (ascii "a key") 1_000 (omega arith),
          (
            deposit-IsSubmitted (ascii "b key") 500 (omega arith),
            (
              pay-IsSubmitted (ascii "a key") _ 100 (omega arith)
                  (address_of-IsArray (ascii "b key")) (omega arith),
              (
                pay-IsSubmitted (ascii "b key") _ 50 (omega arith)
                    (address_of-IsArray (ascii "fresh key")) (omega arith),
                (
                  pay-IsSubmitted (ascii "a key") _ 25 (omega arith)
                      (address_of-IsArray (ascii "a key")) (omega arith),
                  tt,
                ),
              ),
            ),
          ),
        ),
        omega arith,
      )
  transactions-Fine Scenario.withdrawals_entry = (
    (
      deposit-IsSubmitted (ascii "a key") 1_000_000 (omega arith),
      (
        withdraw-IsSubmitted (ascii "a key") _ _ (omega arith) (l1_account-IsArray 1 (omega arith))
            (unfold min_withdrawal in omega arith),
        (
          withdraw-IsSubmitted (ascii "a key") _ _ (omega arith)
              (l1_account-IsArray 2 (omega arith)) (omega arith),
          (
            withdraw-IsSubmitted (ascii "a key") _ _ (omega arith)
                (l1_account-IsArray 3 (omega arith)) (omega arith),
            tt,
          ),
        ),
      ),
    ),
    omega arith,
  )
  transactions-Fine Scenario.duplicate_withdrawals_entry =
      let one =
        withdraw-IsSubmitted (ascii "a key") (l1_account 6) min_withdrawal (omega arith)
          (l1_account-IsArray 6 (omega arith)) (unfold min_withdrawal in omega arith) in
      ((deposit-IsSubmitted (ascii "a key") 500_000 (omega arith), (one, (one, tt))), omega arith)
  transactions-Fine Scenario.round_trip_entry = (
    (
      deposit-IsSubmitted (ascii "a key") 1_000_000 (omega arith),
      (
        pay-IsSubmitted (ascii "a key") _ 400_000 (omega arith) (address_of-IsArray (ascii "b key"))
            (omega arith),
        (
          withdraw-IsSubmitted (ascii "b key") _ _ (omega arith)
              (l1_account-IsArray 4 (omega arith)) (omega arith),
          (
            withdraw-IsSubmitted (ascii "a key") _ _ (omega arith)
                (l1_account-IsArray 5 (omega arith)) (omega arith),
            tt,
          ),
        ),
      ),
    ),
    omega arith,
  )
  transactions-Fine Scenario.forced_exit_entry = (
    (
      exit_deposit-IsSubmitted exit_key_one 5_000_000 (omega arith),
      (exit_deposit-IsSubmitted exit_key_two 3_000_000 (omega arith), tt),
    ),
    omega arith,
  )
  transactions-Fine Scenario.forced_inclusion_entry = (
    (
      exit_deposit-IsSubmitted exit_key_one 5_000_000 (omega arith),
      (
        exit_deposit-IsSubmitted exit_key_two 3_000_000 (omega arith),
        (
          forced-IsSubmitted _ _ (address-IsArray ed25519 exit_key_one)
              (l1_account-IsArray 9 (omega arith)),
          tt,
        ),
      ),
    ),
    omega arith,
  )
  transactions-Fine Scenario.inbox_ordering_entry =
      let a = address_from_public_key ed25519 exit_key_one in
      let ha = address-IsArray ed25519 exit_key_one in
      (
        (
          (unfold new_deposit in (ha, omega arith, refl, refl)),
          (
            forced-IsSubmitted a _ ha (l1_account-IsArray 10 (omega arith)),
            ((unfold new_deposit in (ha, omega arith, refl, refl)), tt),
          ),
        ),
        omega arith,
      )
  transactions-Fine Scenario.multi_chunk_entry = (
    (
      deposit-IsSubmitted (ascii "spender") (300 * (1_000_000 + scenario_fee)) (omega arith),
      spread-IsSubmitted 0 300,
    ),
    omega (arith, length-spread 0 300),
  )
