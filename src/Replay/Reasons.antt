-- ===== src/Replay/Reasons.antt =====
-- What is wrong with a transaction that the replay refuses (crates/payment-rollup/src/lib.rs,
-- `debit`, `credit` and the arms of `verify_batch`).
use payment_rollup.Prelude.{
  ℕ, ◌+◌, ◌-◌, ◌^◌, ◌≤◌, ◌<◌, ◌≡◌, ◌≢◌, ◌⊎◌, inl, inr, Option, none, some, arith, ok, err, false,
  ==_cases,
}
use payment_rollup.Bytes.{Bytes, bytes_eq}
use payment_rollup.Crypto.{Primitives}
use payment_rollup.Account.{
  Account, Address, Digest, DeploymentDomain, VerificationError, bump_nonce, fee_sink,
  min_withdrawal, malformed_proof, stale_witness, unknown_sender, invalid_nonce, insufficient_funds,
  amount_overflow, withdrawal_too_small, sidecar_kind_mismatch,
}
use payment_rollup.Merkle.Witness.{root_from_proof}
use payment_rollup.Txn.{
  Transaction, TxnSidecar, LeafWitness, Signature, payment_bytes_to_sign, withdrawal_bytes_to_sign,
}
use payment_rollup.Signing.{verify}
use payment_rollup.Replay.{
  Progress, checked_sub, checked_add, spend, account_or_empty, root_with, expect_pre_state, debit,
  credit, credit_fee,
}

module _ ⦃p : Primitives⦄ where
  -- The proof of a witness implies no root, or another than the current one.
  abbrev pub WrongWitness : Address → LeafWitness → Digest → VerificationError → Type 0
  WrongWitness a w root e =
      ((root_from_proof a w.old_account w.proof ≡ none) × (e ≡ malformed_proof))
      ⊎ ((found : Digest) × (root_from_proof a w.old_account w.proof ≡ some found)
          × (bytes_eq found root ≡ false)
          × (e ≡ stale_witness))

  -- The account written has no place in the proof.
  abbrev pub NoPlace : Address → Account → LeafWitness → VerificationError → Type 0
  NoPlace a x w e = (root_from_proof a (some x) w.proof ≡ none) × (e ≡ malformed_proof)

  -- What is wrong with a credit, in the order in which it is looked at.
  abbrev pub NoCredit : Address → LeafWitness → ℕ → Digest → VerificationError → Type 0
  NoCredit a w amount root e =
      let receiver = account_or_empty a w.old_account in
      WrongWitness a w root e
      ⊎ (expect_pre_state a w root ≡ ok tt)
        × (((2 ^ 64 ≤ receiver.amount + amount) × (e ≡ amount_overflow))
            ⊎ (receiver.amount + amount < 2 ^ 64)
              × NoPlace a (record receiver { amount = receiver.amount + amount }) w e)

  -- What is wrong with a debit, in the order in which it is looked at.
  abbrev pub NoDebit :
      Address → LeafWitness → Signature → ℕ → ℕ → Digest → (ℕ → Bytes) → VerificationError → Type 0
  NoDebit a w sig amount fee root message e =
      WrongWitness a w root e
      ⊎ (expect_pre_state a w root ≡ ok tt)
        × (((w.old_account ≡ none) × (e ≡ unknown_sender))
            ⊎ ((held : Account) × (w.old_account ≡ some held)
                × (((2 ^ 64 ≤ held.nonce + 1) × (e ≡ invalid_nonce))
                    ⊎ (held.nonce + 1 < 2 ^ 64)
                      × (let sender = record held { nonce = held.nonce + 1 } in
                          (verify sig sender (message sender.nonce) ≡ err e)
                          ⊎ (verify sig sender (message sender.nonce) ≡ ok tt)
                            × (((held.amount < amount + fee) × (e ≡ insufficient_funds))
                                ⊎ (amount + fee ≤ held.amount)
                                  × NoPlace a
                                      (record sender { amount = held.amount - amount - fee }) w
                                      e)))))

  pub credit-NoCredit :
      (a : Address) (w : LeafWitness) (amount : ℕ) (root : Digest) {e : VerificationError}
      → credit a w amount root ≡ err e
      → NoCredit a w amount root e
  unfolding credit expect_pre_state root_with checked_add
  credit-NoCredit a w amount root h = ground arith

  pub debit-NoDebit :
      (a : Address) (w : LeafWitness) (sig : Signature) (amount fee : ℕ) (root : Digest)
      (message : ℕ → Bytes) {e : VerificationError}
      → debit a w sig amount fee root message ≡ err e
      → NoDebit a w sig amount fee root message e
  unfolding debit expect_pre_state root_with bump_nonce spend checked_sub
  debit-NoDebit a w sig amount fee root message h = ground arith

  -- What is wrong with paying a fee: a witness that is there without need, or missing, or a credit
  -- that fails.
  abbrev pub NoFee : ℕ → Option LeafWitness → Digest → VerificationError → Type 0
  NoFee fee none root e = (fee ≢ 0) × (e ≡ sidecar_kind_mismatch)
  NoFee fee (some w) root e =
      ((fee ≡ 0) × (e ≡ sidecar_kind_mismatch)) ⊎ (fee ≢ 0) × NoCredit fee_sink w fee root e

  -- What is wrong with a transaction and its entry, at the first step of its arm that fails.
  abbrev pub Refused :
      DeploymentDomain → Transaction → TxnSidecar → Progress → VerificationError → Type 0
  Refused domain (Transaction.payment t) (TxnSidecar.payment x) s e =
      let message = payment_bytes_to_sign t domain in
      NoDebit t.header.sender x.sender_witness x.sig t.amount t.header.fee s.root message e
      ⊎ ((r₁ : Digest) × (debit t.header.sender x.sender_witness x.sig t.amount t.header.fee s.root
              message
            ≡ ok r₁)
          × (NoCredit t.receiver x.receiver_witness t.amount r₁ e
              ⊎ ((r₂ : Digest) × (credit t.receiver x.receiver_witness t.amount r₁ ≡ ok r₂)
                  × NoFee t.header.fee x.fee_sink_witness r₂ e)))
  Refused domain (Transaction.deposit t) (TxnSidecar.deposit x) s e =
      NoCredit t.receiver x.receiver_witness t.amount s.root e
  Refused domain (Transaction.withdrawal t) (TxnSidecar.withdrawal x) s e =
      let message = withdrawal_bytes_to_sign t domain in
      ((t.amount < min_withdrawal) × (e ≡ withdrawal_too_small))
      ⊎ (min_withdrawal ≤ t.amount)
        × (NoDebit t.header.sender x.sender_witness x.sig t.amount t.header.fee s.root message e
            ⊎ ((r₁ : Digest) × (debit t.header.sender x.sender_witness x.sig t.amount t.header.fee
                    s.root message
                  ≡ ok r₁)
                × NoFee t.header.fee x.fee_sink_witness r₁ e))
  Refused domain (Transaction.forced_withdrawal t) (TxnSidecar.forced_withdrawal x) s e =
      let a = t.header.sender in
      let w = x.sender_witness in
      WrongWitness a w s.root e
      ⊎ (expect_pre_state a w s.root ≡ ok tt)
        × ((held : Account) × (w.old_account ≡ some held)
            × (min_withdrawal ≤ held.amount)
            × (((2 ^ 64 ≤ held.nonce + 1) × (e ≡ invalid_nonce))
                ⊎ (held.nonce + 1 < 2 ^ 64)
                  × NoPlace a (record held { nonce = held.nonce + 1; amount = 0 }) w e))
  Refused domain _ _ s e = e ≡ sidecar_kind_mismatch

  pub credit_fee-NoFee :
      (fee : ℕ) (w : Option LeafWitness) (root : Digest) {e : VerificationError}
      → credit_fee fee w root ≡ err e
      → NoFee fee w root e
  unfolding credit_fee
  credit_fee-NoFee fee none root h = ground arith
  credit_fee-NoFee fee (some w) root h = elim (==_cases fee 0) [
    | inl (free, test) ↦ let h₁ = rw test at h in inl (free, ground (arith, h₁))
    | inr (owed, test) ↦ inr (owed, credit-NoCredit fee_sink w fee root (rw test at h))
  ]
