-- ===== src/Scenarios.antt =====
-- The blocks of crates/sp1-host/src/scenarios.rs, as the transactions that each hands to the ledger.
pub mod Exits
pub mod Keys
pub mod Listing
pub mod Load
pub mod Submitted
pub mod Signed
pub mod Loads
pub mod Settle
use payment_rollup.Prelude.{
  ℕ, suc, zero, ◌+◌, ◌*◌, List, [], ◌∷◌, ◌++◌, map, Result, ok, err, ◌>>=◌,
}
use payment_rollup.Bytes.{Bytes, ascii, to_be_bytes}
use payment_rollup.Crypto.{Primitives}
use payment_rollup.Account.{
  Address, L1Address, DeploymentDomain, Scheme, managed, ed25519, min_withdrawal,
  address_from_public_key,
}
use payment_rollup.Txn.{
  SignedTransaction, Signature, Block, new_payment, new_withdrawal, new_deposit,
  new_forced_withdrawal,
}
use payment_rollup.Ledger.{Ledger, Panic, with_domain, get_block}

-- `SCHEME` and `SCENARIO_FEE`
abbrev pub scenario_scheme : Scheme
scenario_scheme = managed

abbrev pub scenario_fee : ℕ
scenario_fee = 10

-- `l1_account`: 32 bytes, the first `index` and the last 0xff.
unfoldable pub l1_account : ℕ → L1Address
l1_account index = index ∷ (to_be_bytes 30 0 ++ 255 ∷ [])

-- `0..n`
unfoldable pub range_from : ℕ → ℕ → List ℕ
range_from start zero = []
range_from start (suc n) = start ∷ range_from (start + 1) n

-- `EXIT_KEYS` and `EXIT_AMOUNTS`
abbrev pub exit_key_one : Bytes
exit_key_one = to_be_bytes 32 0xa0ffaa0dde9dca429e71607d0b61c2c71e7abdfeed45fa1d65448835f6364df2

abbrev pub exit_key_two : Bytes
exit_key_two = to_be_bytes 32 0xe1fdcf39a335b2edfb3f5c1e91ecc414c6df2a54f3fcc7514cc1137418d2ce50

-- The entries of `all` but the last, `every-scheme`, whose keys are real.
pub data Scenario : Type 0 where
  genesis_empty_batch_entry deposits_only_entry payments_entry multi_chunk_entry : Scenario
  withdrawals_entry duplicate_withdrawals_entry forced_exit_entry : Scenario
  forced_inclusion_entry inbox_ordering_entry round_trip_entry : Scenario

module _ ⦃p : Primitives⦄ where
  unfoldable pub address_of : Bytes → Address
  address_of key = address_from_public_key scenario_scheme key

  unfoldable pub deposit : Bytes → ℕ → SignedTransaction
  unfolding address_of
  deposit key amount = SignedTransaction.deposit (new_deposit (address_of key) amount)

  unfoldable pub pay : Bytes → Address → ℕ → SignedTransaction
  unfolding address_of
  pay key receiver amount =
      SignedTransaction.payment (new_payment (address_of key) receiver amount scenario_fee)
        (record { scheme = scenario_scheme; pub_key = key; sig = [] })

  unfoldable pub withdraw : Bytes → L1Address → ℕ → SignedTransaction
  unfolding address_of
  withdraw key recipient amount =
      SignedTransaction.withdrawal (new_withdrawal (address_of key) recipient amount scenario_fee)
        (record { scheme = scenario_scheme; pub_key = key; sig = [] })

  -- The transactions of each scenario.
  unfoldable pub genesis_empty_batch : List SignedTransaction
  genesis_empty_batch = []

  unfoldable pub deposits_only : List SignedTransaction
  deposits_only =
      deposit (ascii "a key") 1_000
      ∷ deposit (ascii "a key") 1_000
      ∷ deposit (ascii "b key") 500
      ∷ []

  unfoldable pub payments : List SignedTransaction
  payments =
      let a = address_of (ascii "a key") in
      let b = address_of (ascii "b key") in
      let fresh = address_of (ascii "fresh key") in
      deposit (ascii "a key") 1_000
      ∷ deposit (ascii "b key") 500
      ∷ pay (ascii "a key") b 100
      ∷ pay (ascii "b key") fresh 50
      ∷ pay (ascii "a key") a 25
      ∷ []

  unfoldable pub withdrawals : List SignedTransaction
  withdrawals =
      deposit (ascii "a key") 1_000_000
      ∷ withdraw (ascii "a key") (l1_account 1) min_withdrawal
      ∷ withdraw (ascii "a key") (l1_account 2) 250_000
      ∷ withdraw (ascii "a key") (l1_account 3) 300_000
      ∷ []

  unfoldable pub duplicate_withdrawals : List SignedTransaction
  duplicate_withdrawals =
      deposit (ascii "a key") 500_000
      ∷ withdraw (ascii "a key") (l1_account 6) min_withdrawal
      ∷ withdraw (ascii "a key") (l1_account 6) min_withdrawal
      ∷ []

  unfoldable pub round_trip : List SignedTransaction
  round_trip =
      let b = address_of (ascii "b key") in
      deposit (ascii "a key") 1_000_000
      ∷ pay (ascii "a key") b 400_000
      ∷ withdraw (ascii "b key") (l1_account 4) 250_000
      ∷ withdraw (ascii "a key") (l1_account 5) 100_000
      ∷ []

  -- The account of one of the exit keys.
  unfoldable pub exit_deposit : Bytes → ℕ → SignedTransaction
  exit_deposit key amount =
      SignedTransaction.deposit (new_deposit (address_from_public_key ed25519 key) amount)

  unfoldable pub forced_exit : List SignedTransaction
  unfolding exit_deposit
  forced_exit = exit_deposit exit_key_one 5_000_000 ∷ exit_deposit exit_key_two 3_000_000 ∷ []

  unfoldable pub forced_inclusion : List SignedTransaction
  unfolding exit_deposit
  forced_inclusion =
      (exit_deposit exit_key_one 5_000_000 ∷ exit_deposit exit_key_two 3_000_000 ∷ [])
      ++ SignedTransaction.forced_withdrawal
          (new_forced_withdrawal (address_from_public_key ed25519 exit_key_one) (l1_account 9))
        ∷ []

  unfoldable pub inbox_ordering : List SignedTransaction
  inbox_ordering =
      let address = address_from_public_key ed25519 exit_key_one in
      SignedTransaction.deposit (new_deposit address 1_000_000)
      ∷ SignedTransaction.forced_withdrawal (new_forced_withdrawal address (l1_account 10))
      ∷ SignedTransaction.deposit (new_deposit address 500_000)
      ∷ []

  -- `PAYMENTS` and `AMOUNT` are 300 and 1,000,000.
  unfoldable pub multi_chunk : List SignedTransaction
  multi_chunk =
      deposit (ascii "spender") (300 * (1_000_000 + scenario_fee))
      ∷ map (λ index. pay (ascii "spender") (address_of (to_be_bytes 4 index)) 1_000_000)
          (range_from 0 300)

  -- The function that each entry of `all` names.
  unfoldable pub transactions : Scenario → List SignedTransaction
  unfolding genesis_empty_batch deposits_only payments withdrawals duplicate_withdrawals round_trip
      forced_exit forced_inclusion inbox_ordering multi_chunk
  transactions Scenario.genesis_empty_batch_entry = genesis_empty_batch
  transactions Scenario.deposits_only_entry = deposits_only
  transactions Scenario.payments_entry = payments
  transactions Scenario.multi_chunk_entry = multi_chunk
  transactions Scenario.withdrawals_entry = withdrawals
  transactions Scenario.duplicate_withdrawals_entry = duplicate_withdrawals
  transactions Scenario.forced_exit_entry = forced_exit
  transactions Scenario.forced_inclusion_entry = forced_inclusion
  transactions Scenario.inbox_ordering_entry = inbox_ordering
  transactions Scenario.round_trip_entry = round_trip

  -- A scenario is built from the empty ledger of a deployment.
  unfoldable pub build : DeploymentDomain → List SignedTransaction → Result Panic (Block × Ledger)
  build domain stxns = get_block (with_domain domain) stxns
