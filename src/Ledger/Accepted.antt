-- ===== src/Ledger/Accepted.antt =====
-- What the replay has checked of a transaction that it accepts, arm by arm of `verify_batch`
-- (crates/payment-rollup/src/lib.rs).
use payment_rollup.Prelude.{leb, ◌≡◌, ◌⊎◌, true, false, some, arith, [], ◌∷◌, ◌++◌, ok}
use payment_rollup.Crypto.{Primitives}
use payment_rollup.Account.{Account, Digest, DeploymentDomain, min_withdrawal, bump_nonce}
use payment_rollup.Txn.{
  Payment, Withdrawal, Deposit, ForcedWithdrawal, PaymentSidecar, DepositSidecar, WithdrawalSidecar,
  ForcedWithdrawalSidecar, payment_bytes_to_sign, withdrawal_bytes_to_sign,
}
use payment_rollup.Chains.{accumulate_deposit, accumulate_request}
use payment_rollup.Replay
use payment_rollup.Replay.{
  root_with, expect_pre_state, balance_of, Progress, verify_payment, verify_deposit,
  verify_withdrawal, verify_forced_withdrawal, verify_txn, verify_loop, verify_batch,
}

module _ ⦃p : Primitives⦄ where
  pub payment_accepted :
      (domain : DeploymentDomain) (t : Payment) (e : PaymentSidecar) (s : Progress) {s' : Progress}
      → verify_payment domain t e s ≡ ok s'
      → (r₁ r₂ r₃ : Digest) × (Replay.debit t.header.sender e.sender_witness e.sig t.amount
            t.header.fee s.root
            (payment_bytes_to_sign t domain)
          ≡ ok r₁)
        × (Replay.credit t.receiver e.receiver_witness t.amount r₁ ≡ ok r₂)
        × (Replay.credit_fee t.header.fee e.fee_sink_witness r₂ ≡ ok r₃)
        × (s' ≡ record s { root = r₃ })
  unfolding verify_payment
  payment_accepted domain t e s h = ground arith

  pub deposit_accepted :
      (t : Deposit) (e : DepositSidecar) (s : Progress) {s' : Progress}
      → verify_deposit t e s ≡ ok s'
      → (r : Digest) × (Replay.credit t.receiver e.receiver_witness t.amount s.root ≡ ok r)
        × (s' ≡ record s {
          root = r;
          inbox_chain = accumulate_deposit s.inbox_chain t.receiver t.amount;
        })
  unfolding verify_deposit
  deposit_accepted t e s h = ground arith

  pub withdrawal_accepted :
      (domain : DeploymentDomain) (t : Withdrawal) (e : WithdrawalSidecar) (s : Progress)
      {s' : Progress}
      → verify_withdrawal domain t e s ≡ ok s'
      → (r₁ r₂ : Digest) × (leb min_withdrawal t.amount ≡ true)
        × (Replay.debit t.header.sender e.sender_witness e.sig t.amount t.header.fee s.root
              (withdrawal_bytes_to_sign t domain)
            ≡ ok r₁)
        × (Replay.credit_fee t.header.fee e.fee_sink_witness r₁ ≡ ok r₂)
        × (s' ≡ record s { root = r₂; payouts = s.payouts ++ (t.recipient, t.amount) ∷ [] })
  unfolding verify_withdrawal
  withdrawal_accepted domain t e s h = ground arith

  pub forced_accepted :
      (t : ForcedWithdrawal) (e : ForcedWithdrawalSidecar) (s : Progress) {s' : Progress}
      → verify_forced_withdrawal t e s ≡ ok s'
      → let w = e.sender_witness in
        let balance = balance_of w.old_account in
        let chain = accumulate_request s.inbox_chain t.header.sender t.recipient in
        (expect_pre_state t.header.sender w s.root ≡ ok tt)
        × (((leb min_withdrawal balance ≡ false) × (s' ≡ record s { inbox_chain = chain }))
            ⊎ ((held account : Account) × (root : Digest) × (leb min_withdrawal balance ≡ true)
                × (w.old_account ≡ some held)
                × (bump_nonce (record held { amount = 0 }) ≡ ok account)
                × (root_with t.header.sender (some account) w.proof ≡ ok root)
                × (s' ≡ record {
                  root = root;
                  inbox_chain = chain;
                  payouts = s.payouts ++ (t.recipient, balance) ∷ [];
                })))
  unfolding verify_forced_withdrawal Replay.empty_account
  forced_accepted t e s h = ground arith
