-- ===== src/Settlement/Roots.antt =====
-- The roots that `debit` and `credit` of crates/payment-rollup/src/lib.rs lead to are 32 bytes
-- long.
use payment_rollup.Prelude.{
  ℕ, ◌≡◌, subst, Option, none, some, ◌==◌, Bool-cases, inl, inr, ok_or, ok_or-ok, ok, >>=-eq-ok,
  ok-injective,
}
use payment_rollup.Bytes.{Bytes}
use payment_rollup.Crypto.{Primitives}
use payment_rollup.Account.{
  Address, Account, Digest, unknown_sender, insufficient_funds, amount_overflow, bump_nonce,
  fee_sink,
}
use payment_rollup.Merkle.Tree.{MerkleProof}
use payment_rollup.Merkle.Digests.{IsDigest, root_from_proof-IsDigest}
use payment_rollup.Txn.{Signature, LeafWitness}
use payment_rollup.Signing.{verify}
use payment_rollup.Replay.{
  spend, checked_add, account_or_empty, root_with, expect_pre_state, debit, credit, credit_fee,
}

module _ ⦃p : Primitives⦄ where
  pub root_with-IsDigest :
      (a : Address) (held : Option Account) (proof : MerkleProof) {r : Digest}
      → root_with a held proof ≡ ok r
      → IsDigest r
  unfolding root_with
  root_with-IsDigest a held proof h = root_from_proof-IsDigest a held proof (ok_or-ok _ _ h)

  pub debit-IsDigest :
      (a : Address) (w : LeafWitness) (sig : Signature) (amount fee : ℕ) (root : Digest)
      (message : ℕ → Bytes) {r : Digest}
      → debit a w sig amount fee root message ≡ ok r
      → IsDigest r
  unfolding debit
  debit-IsDigest a w sig amount fee root message h =
      let (_, _, h₁) = >>=-eq-ok (expect_pre_state a w root) _ h in
      let (held, _, h₂) = >>=-eq-ok (ok_or w.old_account unknown_sender) _ h₁ in
      let (sender, _, h₃) = >>=-eq-ok (bump_nonce held) _ h₂ in
      let (_, _, h₄) = >>=-eq-ok (verify sig sender (message sender.nonce)) _ h₃ in
      let (balance, _, h₅) =
        >>=-eq-ok (ok_or (spend sender.amount amount fee) insufficient_funds) _ h₄ in
      root_with-IsDigest _ _ _ h₅

  pub credit-IsDigest :
      (a : Address) (w : LeafWitness) (amount : ℕ) (root : Digest) {r : Digest}
      → credit a w amount root ≡ ok r
      → IsDigest r
  unfolding credit
  credit-IsDigest a w amount root h =
      let (_, _, h₁) = >>=-eq-ok (expect_pre_state a w root) _ h in
      let receiver = account_or_empty a w.old_account in
      let (balance, _, h₂) =
        >>=-eq-ok (ok_or (checked_add receiver.amount amount) amount_overflow) _ h₁ in
      root_with-IsDigest _ _ _ h₂

  pub credit_fee-IsDigest :
      (fee : ℕ) (w : Option LeafWitness) (root : Digest) {r : Digest}
      → IsDigest root
      → credit_fee fee w root ≡ ok r
      → IsDigest r
  unfolding credit_fee
  credit_fee-IsDigest fee none root s h = elim (Bool-cases (fee == 0)) [
    | inl e ↦ subst IsDigest (ok-injective (rw e at h)) s
    | inr e ↦ absurd (cc (rw e at h))
  ]
  credit_fee-IsDigest fee (some w) root s h = elim (Bool-cases (fee == 0)) [
    | inl e ↦ absurd (cc (rw e at h))
    | inr e ↦ credit-IsDigest fee_sink w fee root (rw e at h)
  ]
