-- ===== src/Replay/Refusals.antt =====
-- A transaction that the replay refuses has something wrong with it, at the step of its arm that
-- says so (crates/payment-rollup/src/lib.rs, the arms of `verify_batch`).
use payment_rollup.Prelude.{◌≤◌, ◌≡◌, inl, inr, arith, err, >>=-eq-err, Bool-cases, ltb}
use payment_rollup.Crypto.{Primitives}
use payment_rollup.Account.{DeploymentDomain, VerificationError, bump_nonce, min_withdrawal}
use payment_rollup.Txn.{
  Transaction, TxnSidecar, Payment, PaymentSidecar, Deposit, DepositSidecar, Withdrawal,
  WithdrawalSidecar, ForcedWithdrawal, ForcedWithdrawalSidecar, payment_bytes_to_sign,
  withdrawal_bytes_to_sign,
}
use payment_rollup.Replay.{
  Progress, balance_of, root_with, expect_pre_state, debit, credit, credit_fee, empty_account,
  verify_payment, verify_deposit, verify_withdrawal, verify_forced_withdrawal, verify_txn,
}
use payment_rollup.Replay.Reasons.{Refused, credit-NoCredit, debit-NoDebit, credit_fee-NoFee}

module _ ⦃p : Primitives⦄ where
  verify_payment-Refused :
      (domain : DeploymentDomain) (t : Payment) (x : PaymentSidecar) (s : Progress)
      {e : VerificationError}
      → verify_payment domain t x s ≡ err e
      → Refused domain (Transaction.payment t) (TxnSidecar.payment x) s e
  unfolding verify_payment
  verify_payment-Refused domain t x s h =
      let message = payment_bytes_to_sign t domain in
      elim (>>=-eq-err
        (debit t.header.sender x.sender_witness x.sig t.amount t.header.fee s.root message) _ h) [
          | inl e₁ ↦
              inl (debit-NoDebit _ x.sender_witness x.sig t.amount t.header.fee s.root message e₁)
          | inr (r₁, debited, h₁) ↦
              elim (>>=-eq-err (credit t.receiver x.receiver_witness t.amount r₁) _ h₁) [
                | inl e₂ ↦
                    inr (r₁, debited, inl (credit-NoCredit _ x.receiver_witness t.amount r₁ e₂))
                | inr (r₂, credited, h₂) ↦
                    elim (>>=-eq-err (credit_fee t.header.fee x.fee_sink_witness r₂) _ h₂) [
                      | inl e₃ ↦ inr (
                        r₁,
                        debited,
                        inr (r₂, credited, credit_fee-NoFee t.header.fee x.fee_sink_witness r₂ e₃),
                      )
                      | inr (r₃, _, done) ↦ absurd (cc done)
                    ]
              ]
        ]

  verify_deposit-Refused :
      (domain : DeploymentDomain) (t : Deposit) (x : DepositSidecar) (s : Progress)
      {e : VerificationError}
      → verify_deposit t x s ≡ err e
      → Refused domain (Transaction.deposit t) (TxnSidecar.deposit x) s e
  unfolding verify_deposit
  verify_deposit-Refused domain t x s h =
      elim (>>=-eq-err (credit t.receiver x.receiver_witness t.amount s.root) _ h) [
        | inl e₁ ↦ credit-NoCredit _ x.receiver_witness t.amount s.root e₁
        | inr (r₁, _, done) ↦ absurd (cc done)
      ]

  verify_withdrawal-Refused :
      (domain : DeploymentDomain) (t : Withdrawal) (x : WithdrawalSidecar) (s : Progress)
      {e : VerificationError}
      → verify_withdrawal domain t x s ≡ err e
      → Refused domain (Transaction.withdrawal t) (TxnSidecar.withdrawal x) s e
  unfolding verify_withdrawal
  verify_withdrawal-Refused domain t x s h =
      let message = withdrawal_bytes_to_sign t domain in
      elim (Bool-cases (ltb t.amount min_withdrawal)) [
        | inl small ↦ let h₁ = rw small at h in inl (ground (arith, small), ground (arith, h₁))
        | inr large ↦
            let enough : min_withdrawal ≤ t.amount = ground (arith, large) in
            let h₁ = rw large at h in
            elim (>>=-eq-err
              (debit t.header.sender x.sender_witness x.sig t.amount t.header.fee s.root message) _
              h₁) [
                | inl e₁ ↦ inr (
                  enough,
                  inl (
                      debit-NoDebit _ x.sender_witness x.sig t.amount t.header.fee s.root message
                        e₁),
                )
                | inr (r₁, debited, h₂) ↦
                    elim (>>=-eq-err (credit_fee t.header.fee x.fee_sink_witness r₁) _ h₂) [
                      | inl e₂ ↦ inr (
                        enough,
                        inr (r₁, debited, credit_fee-NoFee t.header.fee x.fee_sink_witness r₁ e₂),
                      )
                      | inr (r₂, _, done) ↦ absurd (cc done)
                    ]
              ]
      ]

  verify_forced_withdrawal-Refused :
      (domain : DeploymentDomain) (t : ForcedWithdrawal) (x : ForcedWithdrawalSidecar)
      (s : Progress) {e : VerificationError}
      → verify_forced_withdrawal t x s ≡ err e
      → Refused domain (Transaction.forced_withdrawal t) (TxnSidecar.forced_withdrawal x) s e
  unfolding verify_forced_withdrawal empty_account expect_pre_state root_with bump_nonce balance_of
      min_withdrawal
  verify_forced_withdrawal-Refused domain t x s h = ground arith

  pub verify_txn-Refused :
      (domain : DeploymentDomain) (t : Transaction) (x : TxnSidecar) (s : Progress)
      {e : VerificationError}
      → verify_txn domain t x s ≡ err e
      → Refused domain t x s e
  unfolding verify_txn
  verify_txn-Refused domain (Transaction.payment t) (TxnSidecar.payment x) s h =
      verify_payment-Refused domain t x s h
  verify_txn-Refused domain (Transaction.deposit t) (TxnSidecar.deposit x) s h =
      verify_deposit-Refused domain t x s h
  verify_txn-Refused domain (Transaction.withdrawal t) (TxnSidecar.withdrawal x) s h =
      verify_withdrawal-Refused domain t x s h
  verify_txn-Refused domain (Transaction.forced_withdrawal t) (TxnSidecar.forced_withdrawal x) s h =
      verify_forced_withdrawal-Refused domain t x s h
  verify_txn-Refused domain _ _ s h = cc
