-- ===== src/Examples/Refused.antt =====
-- A batch that the replay of crates/payment-rollup/src/lib.rs refuses.
use payment_rollup.Prelude.{none, [], ◌∷◌}
use payment_rollup.Account
use payment_rollup.Account.{Account}
use payment_rollup.Merkle.Tree.{own}
use payment_rollup.Txn.{Transaction, TxnSidecar, Batch, Sidecar, new_deposit}
use payment_rollup.Examples.{toy, alice}

-- Two deposits to one address, the second with the witness of the first.
abbrev twice : Batch
twice = record {
  txns = Transaction.deposit (new_deposit alice 9) ∷ Transaction.deposit (new_deposit alice 9) ∷ [];
}

abbrev entry : TxnSidecar
entry = TxnSidecar.deposit (record {
  receiver_witness = record { old_account = none; proof = record { siblings = []; slot = own } };
})

abbrev repeated : Sidecar
repeated = record { entries = entry ∷ entry ∷ [] }
