-- ===== src/Settlement/Queued.antt =====
-- What replaying one transaction adds to the queues (crates/payment-rollup/src/lib.rs).
use payment_rollup.Prelude.{
  ℕ, ◌≡◌, refl, sym, ap, ◌∙◌, subst, Option, none, some, List, [], ◌∷◌, ◌++◌, append-nil, leb,
  guard, Bool, true, false, not, ltb, ok_or, if◌then◌else◌, ok, Result, >>=-eq-ok, ok-injective,
}
use payment_rollup.Crypto.{Primitives}
use payment_rollup.Account.{
  DeploymentDomain, Digest, VerificationError, unknown_sender, withdrawal_too_small, bump_nonce,
  min_withdrawal,
}
use payment_rollup.Txn.{
  payment_bytes_to_sign, withdrawal_bytes_to_sign, Transaction, TxnSidecar, ForcedWithdrawal,
  ForcedWithdrawalSidecar, LeafWitness,
}
use payment_rollup.Chains.{Payout, accumulate_deposit, accumulate_request}
use payment_rollup.Replay.{
  Progress, balance_of, root_with, debit, credit, credit_fee, expect_pre_state, verify_payment,
  verify_deposit, verify_withdrawal, empty_account, verify_forced_withdrawal, verify_txn, payout_of,
}
use payment_rollup.Merkle.Digests.{IsDigest}
use payment_rollup.Settlement.{InboxItem, inbox_of}
use payment_rollup.Settlement.Roots.{
  root_with-IsDigest, debit-IsDigest, credit-IsDigest, credit_fee-IsDigest,
}

abbrev pub from_option : {A : Type 0} → Option A → List A
from_option none = []
from_option (some a) = a ∷ []

module _ ⦃p : Primitives⦄ where
  -- The L1 inbox after one item was submitted.
  unfoldable pub accumulate_item : Digest → InboxItem → Digest
  accumulate_item chain (InboxItem.deposit receiver amount) =
      accumulate_deposit chain receiver amount
  accumulate_item chain (InboxItem.forced_withdrawal address recipient) =
      accumulate_request chain address recipient

  unfoldable pub fold_inbox : Digest → List InboxItem → Digest
  fold_inbox chain [] = chain
  fold_inbox chain (item ∷ rest) = fold_inbox (accumulate_item chain item) rest

  -- What one transaction adds to the two queues; a root of 32 bytes stays one.
  abbrev pub Queued : Transaction → TxnSidecar → Progress → Progress → Type 0
  Queued t e s s' =
      (s'.payouts ≡ s.payouts ++ from_option (payout_of t e))
      × (s'.inbox_chain ≡ fold_inbox s.inbox_chain (inbox_of (t ∷ [])))
      × (IsDigest s.root → IsDigest s'.root)

  -- A step that leaves both queues alone.
  of_ok :
      {s' : Progress} {root : Digest} {payouts : List Payout} {chain : Digest}
      → ◌≡◌ {A = Result VerificationError Progress}
          (ok (record { root = root; inbox_chain = chain; payouts = payouts }))
          (ok s')
      → (s'.payouts ≡ payouts) × (s'.inbox_chain ≡ chain) × (root ≡ s'.root)
  of_ok h =
      let e = ok-injective h in
      (
        sym (ap (λ (x : Progress). x.payouts) e),
        sym (ap (λ (x : Progress). x.inbox_chain) e),
        ap (λ (x : Progress). x.root) e,
      )

  emptied :
      (t : ForcedWithdrawal) (w : LeafWitness) (balance : ℕ) (s : Progress) {s' : Progress}
      → empty_account t w balance s ≡ ok s'
      → (s'.payouts ≡ s.payouts ++ (t.recipient, balance) ∷ [])
        × (s'.inbox_chain ≡ s.inbox_chain)
        × IsDigest s'.root
  unfolding empty_account
  emptied t w balance s h =
      let (held, _, h₁) = >>=-eq-ok (ok_or w.old_account unknown_sender) _ h in
      let (account, _, h₂) = >>=-eq-ok (bump_nonce (record held { amount = 0 })) _ h₁ in
      let (root, led, h₃) = >>=-eq-ok (root_with t.header.sender (some account) w.proof) _ h₂ in
      let (q, c, r) = of_ok h₃ in (q, c, subst IsDigest r (root_with-IsDigest _ _ _ led))

  -- Whether or not the balance is worth a payout.
  forced_queued :
      (t : ForcedWithdrawal) (e : ForcedWithdrawalSidecar) (s : Progress) (b : Bool) {s₁ : Progress}
      → leb min_withdrawal (balance_of e.sender_witness.old_account) ≡ b
      → (if b
          then empty_account t e.sender_witness (balance_of e.sender_witness.old_account) s
          else ok s)
        ≡ ok s₁
      → (s₁.payouts
          ≡ s.payouts
            ++ from_option
                (payout_of (Transaction.forced_withdrawal t) (TxnSidecar.forced_withdrawal e)))
        × (s₁.inbox_chain ≡ s.inbox_chain)
        × (IsDigest s.root → IsDigest s₁.root)
  unfolding payout_of
  forced_queued t e s true worth h =
      let (q, c, r) = emptied t e.sender_witness (balance_of e.sender_witness.old_account) s h in
      rw worth (q, c, λ _. r)
  forced_queued t e s false worth h =
      let (q, c, r) = of_ok h in
      rw worth (q ∙ sym (append-nil s.payouts), c, λ d. subst IsDigest r d)

  pub verify_txn-Queued :
      (d : DeploymentDomain) (t : Transaction) (e : TxnSidecar) (s : Progress) {s' : Progress}
      → verify_txn d t e s ≡ ok s'
      → Queued t e s s'
  unfolding verify_txn verify_payment verify_deposit verify_withdrawal verify_forced_withdrawal
      inbox_of fold_inbox accumulate_item payout_of
  verify_txn-Queued d (Transaction.payment t) (TxnSidecar.payment e) s h =
      let (r, _, h₁) =
        >>=-eq-ok
          (debit t.header.sender e.sender_witness e.sig t.amount t.header.fee s.root
            (payment_bytes_to_sign t d))
          _ h in
      let (r', p₂, h₂) = >>=-eq-ok (credit t.receiver e.receiver_witness t.amount r) _ h₁ in
      let (r'', p₃, h₃) = >>=-eq-ok (credit_fee t.header.fee e.fee_sink_witness r') _ h₂ in
      let (q, c, last) = of_ok h₃ in
      (
        q ∙ sym (append-nil s.payouts),
        c,
        λ _. subst IsDigest last (
            credit_fee-IsDigest _ _ _ (credit-IsDigest t.receiver e.receiver_witness t.amount r p₂)
              p₃),
      )
  verify_txn-Queued d (Transaction.deposit t) (TxnSidecar.deposit e) s h =
      let (r, p₁, h₁) = >>=-eq-ok (credit t.receiver e.receiver_witness t.amount s.root) _ h in
      let (q, c, last) = of_ok h₁ in
      (
        q ∙ sym (append-nil s.payouts),
        c,
        λ _. subst IsDigest last (credit-IsDigest t.receiver e.receiver_witness t.amount s.root p₁),
      )
  verify_txn-Queued d (Transaction.withdrawal t) (TxnSidecar.withdrawal e) s h =
      let (_, _, h₁) =
        >>=-eq-ok (guard (not (ltb t.amount min_withdrawal)) withdrawal_too_small) _ h in
      let (r, p₂, h₂) =
        >>=-eq-ok
          (debit t.header.sender e.sender_witness e.sig t.amount t.header.fee s.root
            (withdrawal_bytes_to_sign t d))
          _ h₁ in
      let (r', p₃, h₃) = >>=-eq-ok (credit_fee t.header.fee e.fee_sink_witness r) _ h₂ in
      let (q, c, last) = of_ok h₃ in
      (
        q,
        c,
        λ _. subst IsDigest last (
            credit_fee-IsDigest _ _ _ (debit-IsDigest _ _ _ _ _ _ (withdrawal_bytes_to_sign t d) p₂)
              p₃),
      )
  verify_txn-Queued d (Transaction.forced_withdrawal t) (TxnSidecar.forced_withdrawal e) s h =
      let (_, _, h₁) = >>=-eq-ok (expect_pre_state t.header.sender e.sender_witness s.root) _ h in
      let balance = balance_of e.sender_witness.old_account in
      let (s₁, branch, h₂) =
        >>=-eq-ok
          (if leb min_withdrawal balance then empty_account t e.sender_witness balance s else ok s)
          _ h₁ in
      let (q₁, c₁, r₁) = forced_queued t e s (leb min_withdrawal balance) refl branch in
      let (q, c, last) = of_ok h₂ in
      (
        q ∙ q₁,
        c ∙ ap (λ z. accumulate_request z t.header.sender t.recipient) c₁,
        λ r. subst IsDigest last (r₁ r),
      )
  verify_txn-Queued d _ _ s h = cc
