-- ===== src/Ledger/Repeats.antt =====
-- A transaction that the replay accepts is one that the ledger of that root places, whatever
-- witnesses the entry brings (crates/payment-rollup/src/lib.rs).
use payment_rollup.Prelude.{◌≡◌, refl, sym, ◌∙◌, subst, inl, inr, ◌⊎◌, [], ◌∷◌, ◌++◌, ok}
use payment_rollup.Bytes.{Bytes}
use payment_rollup.Crypto.{Primitives}
use payment_rollup.Merkle.Binding.{Broken, Hashes}
use payment_rollup.Txn.{
  Payment, Withdrawal, Deposit, ForcedWithdrawal, Transaction, PaymentSidecar, DepositSidecar,
  WithdrawalSidecar, ForcedWithdrawalSidecar, TxnSidecar, payment_bytes_to_sign,
  withdrawal_bytes_to_sign,
}
use payment_rollup.Chains.{accumulate_deposit, accumulate_request}
use payment_rollup.Codec.Batch.RoundTrip.{IsTransaction}
use payment_rollup.Codec.Sidecar.RoundTrip.{Fits}
use payment_rollup.Replay
use payment_rollup.Replay.{
  root_with, expect_pre_state, balance_of, Progress, verify_payment, verify_deposit,
  verify_withdrawal, verify_forced_withdrawal, verify_txn, verify_loop, verify_batch,
}
use payment_rollup.Ledger
use payment_rollup.Ledger.{
  Ledger, Building, Panic, push, get, witness_of, insert_account, state_root, build_payment,
  build_deposit, build_withdrawal, build_forced_withdrawal, build_txn, build_loop, get_block,
}
use payment_rollup.Ledger.Typed.{IsTyped}
use payment_rollup.Ledger.Mirror.{credit-mirror}
use payment_rollup.Ledger.Convinced.{witness_convinces, credit_convinces}
use payment_rollup.Ledger.Placed.{progress}
use payment_rollup.Ledger.Accepted.{
  payment_accepted, deposit_accepted, withdrawal_accepted, forced_accepted,
}
use payment_rollup.Ledger.Steps.{debit-Steps, credit-Steps, credit_fee-Pays}
use payment_rollup.Ledger.Handed.{signature_of, signed, Places, TxnHashes}

module _ ⦃p : Primitives⦄ (H : Bytes → Type 0) where
  module _ (b : Building) (typed : IsTyped b.ledger) (hashes : Hashes H b.ledger.tree) where
    verify_payment-Places :
        (t : Payment) (e : PaymentSidecar) {s' : Progress}
        → IsTransaction (Transaction.payment t)
        → Fits (Transaction.payment t) (TxnSidecar.payment e)
        → TxnHashes H b.ledger (Transaction.payment t) (TxnSidecar.payment e)
        → verify_payment b.ledger.domain t e (progress b) ≡ ok s'
        → Broken H ⊎ Places b (Transaction.payment t) (build_payment t e.sig b) s'
    verify_payment-Places t e shape fits (on_sender, on_rest) h =
        let l = b.ledger in
        let message = payment_bytes_to_sign t l.domain in
        let (r₁, r₂, r₃, debited, credited, paid, end) =
          payment_accepted l.domain t e (progress b) h in
        elim (debit-Steps H l typed hashes _ t.header.sender e.sender_witness e.sig t.amount
          t.header.fee message shape.0 fits.1 on_sender on_rest debited) [
            | inl broken ↦ inl broken
            | inr x ↦
                elim (credit-Steps H x.next x.typed_next x.hashed_next _ t.receiver
                  e.receiver_witness t.amount shape.1 fits.2 x.asked_next.0 x.asked_next.1
                  (subst (λ r. Replay.credit t.receiver e.receiver_witness t.amount r ≡ ok r₂)
                    x.ends credited)) [
                      | inl broken ↦ inl broken
                      | inr y ↦
                          elim (credit_fee-Pays H y.next t.header.fee e.fee_sink_witness
                            y.typed_next y.hashed_next fits.3 y.asked_next
                            (subst
                              (λ r. Replay.credit_fee t.header.fee e.fee_sink_witness r ≡ ok r₃)
                              y.ends paid)) [
                                | inl broken ↦ inl broken
                                | inr z ↦ inr (
                                  push b z.next b.payouts (Transaction.payment t) (
                                      TxnSidecar.payment (record {
                                        sig = e.sig;
                                        sender_witness = x.witness;
                                        receiver_witness = y.witness;
                                        fee_sink_witness = z.witness;
                                      })),
                                  unfold build_payment in rw x.ran (rw y.ran (rw z.ran)),
                                  end ∙ (λ i. record {
                                    root = z.ends i;
                                    inbox_chain =
                                        sym (z.inbox_kept ∙ y.inbox_kept ∙ x.inbox_kept) i;
                                    payouts = b.payouts;
                                  }),
                                  z.domain_kept ∙ y.domain_kept ∙ x.domain_kept,
                                  refl,
                                )
                              ]
                    ]
          ]

    verify_deposit-Places :
        (t : Deposit) (e : DepositSidecar) {s' : Progress}
        → IsTransaction (Transaction.deposit t)
        → Fits (Transaction.deposit t) (TxnSidecar.deposit e)
        → TxnHashes H b.ledger (Transaction.deposit t) (TxnSidecar.deposit e)
        → verify_deposit t e (progress b) ≡ ok s'
        → Broken H ⊎ Places b (Transaction.deposit t) (build_deposit t b) s'
    unfolding state_root
    verify_deposit-Places t e shape fits on h =
        let l = b.ledger in
        let (r, credited, end) = deposit_accepted t e (progress b) h in
        elim (credit_convinces H l typed hashes t.receiver e.receiver_witness t.amount shape.0 fits
          on credited) [
            | inl broken ↦ inl broken
            | inr (w, l', run, e₁) ↦
                let (_, follows) = credit-mirror l t.receiver t.amount shape.0 typed.synced run in
                let chain = accumulate_deposit l'.inbox_chain t.receiver t.amount in
                inr (
                  push b (record l' { inbox_chain = chain }) b.payouts (Transaction.deposit t)
                      (TxnSidecar.deposit (record { receiver_witness = w })),
                  unfold build_deposit in rw run,
                  end ∙ (λ i. record {
                    root = e₁ i;
                    inbox_chain = accumulate_deposit (sym follows.inbox_kept i) t.receiver t.amount;
                    payouts = b.payouts;
                  }),
                  follows.domain_kept,
                  refl,
                )
          ]

    verify_withdrawal-Places :
        (t : Withdrawal) (e : WithdrawalSidecar) {s' : Progress}
        → IsTransaction (Transaction.withdrawal t)
        → Fits (Transaction.withdrawal t) (TxnSidecar.withdrawal e)
        → TxnHashes H b.ledger (Transaction.withdrawal t) (TxnSidecar.withdrawal e)
        → verify_withdrawal b.ledger.domain t e (progress b) ≡ ok s'
        → Broken H ⊎ Places b (Transaction.withdrawal t) (build_withdrawal t e.sig b) s'
    verify_withdrawal-Places t e shape fits (on_sender, on_rest) h =
        let l = b.ledger in
        let message = withdrawal_bytes_to_sign t l.domain in
        let (r₁, r₂, large, debited, paid, end) = withdrawal_accepted l.domain t e (progress b) h in
        elim (debit-Steps H l typed hashes _ t.header.sender e.sender_witness e.sig t.amount
          t.header.fee message shape.0 fits.1 on_sender on_rest debited) [
            | inl broken ↦ inl broken
            | inr x ↦
                elim (credit_fee-Pays H x.next t.header.fee e.fee_sink_witness x.typed_next
                  x.hashed_next fits.2 x.asked_next
                  (subst (λ r. Replay.credit_fee t.header.fee e.fee_sink_witness r ≡ ok r₂) x.ends
                    paid)) [
                      | inl broken ↦ inl broken
                      | inr z ↦ inr (
                        push b z.next (b.payouts ++ (t.recipient, t.amount) ∷ [])
                            (Transaction.withdrawal t)
                            (TxnSidecar.withdrawal (record {
                              sig = e.sig;
                              sender_witness = x.witness;
                              fee_sink_witness = z.witness;
                            })),
                        unfold build_withdrawal in rw large (rw x.ran (rw z.ran)),
                        end ∙ (λ i. record {
                          root = z.ends i;
                          inbox_chain = sym (z.inbox_kept ∙ x.inbox_kept) i;
                          payouts = b.payouts ++ (t.recipient, t.amount) ∷ [];
                        }),
                        z.domain_kept ∙ x.domain_kept,
                        refl,
                      )
                    ]
          ]

    verify_forced_withdrawal-Places :
        (t : ForcedWithdrawal) (e : ForcedWithdrawalSidecar) {s' : Progress}
        → IsTransaction (Transaction.forced_withdrawal t)
        → Fits (Transaction.forced_withdrawal t) (TxnSidecar.forced_withdrawal e)
        → TxnHashes H b.ledger (Transaction.forced_withdrawal t) (TxnSidecar.forced_withdrawal e)
        → verify_forced_withdrawal t e (progress b) ≡ ok s'
        → Broken H ⊎ Places b (Transaction.forced_withdrawal t) (build_forced_withdrawal t b) s'
    unfolding state_root insert_account
    verify_forced_withdrawal-Places t e shape fits on h =
        let l = b.ledger in
        let a = t.header.sender in
        let w = e.sender_witness in
        let chain = accumulate_request l.inbox_chain a t.recipient in
        let entry = TxnSidecar.forced_withdrawal (record { sender_witness = witness_of l a }) in
        let (passed, outcome) = forced_accepted t e (progress b) h in
        elim (witness_convinces H l typed hashes a w shape.0 fits on passed) [
          | inl broken ↦ inl broken
          | inr (here, writes) ↦ elim outcome [
            | inl (little, end) ↦ inr (
              push b (record l { inbox_chain = chain }) b.payouts (Transaction.forced_withdrawal t)
                  entry,
              unfold build_forced_withdrawal in rw here (rw little),
              end,
              refl,
              refl,
            )
            | inr (held, account, r, large, shown, bumped, led, end) ↦
                let l' = insert_account l a account in
                let payouts = b.payouts ++ (t.recipient, balance_of w.old_account) ∷ [] in
                inr (
                  push b (record l' { inbox_chain = chain }) payouts
                      (Transaction.forced_withdrawal t) entry,
                  unfold build_forced_withdrawal in
                      rw here
                        (rw large (unfold Ledger.empty_account in rw (here, shown) (rw bumped))),
                  end ∙ (λ i. record {
                    root = writes account r led i;
                    inbox_chain = chain;
                    payouts = payouts;
                  }),
                  refl,
                  refl,
                )
          ]
        ]

    pub verify_txn-Places :
        (t : Transaction) (e : TxnSidecar) {s' : Progress}
        → IsTransaction t
        → Fits t e
        → TxnHashes H b.ledger t e
        → verify_txn b.ledger.domain t e (progress b) ≡ ok s'
        → Broken H ⊎ Places b t (build_txn (signed t (signature_of e)) b) s'
    unfolding verify_txn build_txn signed signature_of
    verify_txn-Places (Transaction.payment t) (TxnSidecar.payment e) shape fits on h =
        verify_payment-Places t e shape fits on h
    verify_txn-Places (Transaction.deposit t) (TxnSidecar.deposit e) shape fits on h =
        verify_deposit-Places t e shape fits on h
    verify_txn-Places (Transaction.withdrawal t) (TxnSidecar.withdrawal e) shape fits on h =
        verify_withdrawal-Places t e shape fits on h
    verify_txn-Places (Transaction.forced_withdrawal t) (TxnSidecar.forced_withdrawal e) shape fits
          on h =
        verify_forced_withdrawal-Places t e shape fits on h
    verify_txn-Places _ _ shape fits on h = absurd fits
