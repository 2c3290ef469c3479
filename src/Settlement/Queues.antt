-- ===== src/Settlement/Queues.antt =====
-- The queues that settling a block hands to the contract fold to the chains that the replay
-- reports (crates/payment-rollup/src/lib.rs, crates/sp1-host/src/lib.rs).
use payment_rollup.Prelude.{
  ◌≡◌, refl, sym, ap, ◌∙◌, subst, none, some, List, [], ◌∷◌, ◌++◌, append-nil, append_assoc, ◌==◌,
  arith, guard, guard-ok, ==_iff, ok, >>=-eq-ok, ok-injective, length,
}
use payment_rollup.Crypto.{Primitives}
use payment_rollup.Account.{DeploymentDomain, Digest, sidecar_length_mismatch}
use payment_rollup.Txn.{Transaction, TxnSidecar, Batch, Sidecar}
use payment_rollup.Chains.{withdrawal_chain}
use payment_rollup.Replay.{
  Progress, verify_txn, verify_loop, verify_batch, payout_of, payouts_loop, withdrawal_payouts,
}
use payment_rollup.Merkle.Digests.{IsDigest}
use payment_rollup.Settlement.{inbox_of}
use payment_rollup.Settlement.Queued.{from_option, fold_inbox, verify_txn-Queued}

module _ ⦃p : Primitives⦄ where
  payouts_loop-cons :
      (t : Transaction) (ts : List Transaction) (e : TxnSidecar) (es : List TxnSidecar)
      → payouts_loop (t ∷ ts) (e ∷ es) ≡ from_option (payout_of t e) ++ payouts_loop ts es
  unfolding payouts_loop
  payouts_loop-cons t ts e es =
      let rest = payouts_loop ts es in
      elim (payout_of t e)
        as (λ q. (elim q [ none ↦ rest | some payout ↦ payout ∷ rest ]) ≡ from_option q ++ rest) [
          | none ↦ refl
          | some payout ↦ refl
        ]

  fold_inbox-cons :
      (chain : Digest) (t : Transaction) (ts : List Transaction)
      → fold_inbox chain (inbox_of (t ∷ ts))
        ≡ fold_inbox (fold_inbox chain (inbox_of (t ∷ []))) (inbox_of ts)
  unfolding fold_inbox inbox_of
  fold_inbox-cons chain (Transaction.payment t) ts = refl
  fold_inbox-cons chain (Transaction.deposit t) ts = refl
  fold_inbox-cons chain (Transaction.withdrawal t) ts = refl
  fold_inbox-cons chain (Transaction.forced_withdrawal t) ts = refl

  pub verify_loop-queues :
      (d : DeploymentDomain) (ts : List Transaction) (es : List TxnSidecar) (s : Progress)
      {s' : Progress}
      → length ts ≡ length es
      → verify_loop d ts es s ≡ ok s'
      → (s'.payouts ≡ s.payouts ++ payouts_loop ts es)
        × (s'.inbox_chain ≡ fold_inbox s.inbox_chain (inbox_of ts))
        × (IsDigest s.root → IsDigest s'.root)
  unfolding verify_loop
  verify_loop-queues d [] es s len h =
      let e = ok-injective h in
      unfold payouts_loop fold_inbox inbox_of in
      (
        ap (λ (x : Progress). x.payouts) (sym e) ∙ sym (append-nil s.payouts),
        ap (λ (x : Progress). x.inbox_chain) (sym e),
        λ r. subst (λ (x : Progress). IsDigest x.root) e r,
      )
  verify_loop-queues d (t ∷ ts) [] s len h = absurd (omega (arith, len))
  verify_loop-queues d (t ∷ ts) (e ∷ es) s len h =
      let (s₁, first, rest) = >>=-eq-ok (verify_txn d t e s) _ h in
      let (q₁, c₁, r₁) = verify_txn-Queued d t e s first in
      let (q, c, r) = verify_loop-queues d ts es s₁ (omega (arith, len)) rest in
      (
        q
            ∙ ap (λ z. z ++ payouts_loop ts es) q₁
            ∙ append_assoc s.payouts (from_option (payout_of t e)) (payouts_loop ts es)
            ∙ ap (λ z. s.payouts ++ z) (sym (payouts_loop-cons t ts e es)),
        c ∙ ap (λ z. fold_inbox z (inbox_of ts)) c₁ ∙ sym (fold_inbox-cons s.inbox_chain t ts),
        λ z. r (r₁ z),
      )

  -- What `verify_batch` returns, read off the batch.
  pub batch_queues :
      (d : DeploymentDomain) (old_root anchor : Digest) (batch : Batch) (sidecar : Sidecar)
      {new_root inbox_chain payout_chain : Digest}
      → verify_batch d old_root anchor batch sidecar ≡ ok (new_root, inbox_chain, payout_chain)
      → (payout_chain ≡ withdrawal_chain d (withdrawal_payouts batch sidecar))
        × (inbox_chain ≡ fold_inbox anchor (inbox_of batch.txns))
        × (IsDigest old_root → IsDigest new_root)
  unfolding verify_batch withdrawal_payouts
  batch_queues d old_root anchor batch sidecar h =
      let start : Progress = record { root = old_root; inbox_chain = anchor; payouts = [] } in
      let (_, paired, h₁) =
        >>=-eq-ok (guard (length batch.txns == length sidecar.entries) sidecar_length_mismatch) _
          h in
      let (s, replayed, done) = >>=-eq-ok (verify_loop d batch.txns sidecar.entries start) _ h₁ in
      let (q, c, r) =
        verify_loop-queues d batch.txns sidecar.entries start ((==_iff _ _).0 (guard-ok _ _ paired))
          replayed in
      let e = ok-injective done in
      (
        sym (ap (λ (x : Digest × Digest × Digest). x.2) e) ∙ ap (withdrawal_chain d) q,
        sym (ap (λ (x : Digest × Digest × Digest). x.1) e) ∙ c,
        λ z. subst IsDigest (ap (λ (x : Digest × Digest × Digest). x.0) e) (r z),
      )

  -- When a batch replays, the chains it reports are those of its two queues: the payout chain that
  -- of `withdrawal_payouts`, and the inbox chain the old one with the items of the batch, deposits
  -- and forced withdrawals in their order, accumulated onto it.
  pub verify_batch-queues :
      (d : DeploymentDomain) (old_root anchor : Digest) (batch : Batch) (sidecar : Sidecar)
      {new_root inbox_chain payout_chain : Digest}
      → verify_batch d old_root anchor batch sidecar ≡ ok (new_root, inbox_chain, payout_chain)
      → (payout_chain ≡ withdrawal_chain d (withdrawal_payouts batch sidecar))
        × (inbox_chain ≡ fold_inbox anchor (inbox_of batch.txns))
  verify_batch-queues d old_root anchor batch sidecar h =
      let (q, c, _) = batch_queues d old_root anchor batch sidecar h in (q, c)
