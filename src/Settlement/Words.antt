-- ===== src/Settlement/Words.antt =====
-- The 192 bytes that `execute` commits hold six words of 32 bytes
-- (crates/payment-rollup/src/lib.rs).
use mathlib.Core.List.{reverse}
use payment_rollup.Prelude.{
  ℕ, ◌+◌, ◌≡◌, refl, sym, ap, ◌∙◌, subst, List, [], ◌∷◌, ◌++◌, arith, ok, length, length-append,
  take, drop, take-append, append-nil, zero, suc,
}
use payment_rollup.Bytes.{Bytes}
use payment_rollup.Crypto.{Primitives}
use payment_rollup.Account.{DeploymentDomain, Digest}
use payment_rollup.Merkle.Digests.{IsDigest}
use payment_rollup.Txn.{Batch, Sidecar}
use payment_rollup.Chains.{
  Payout, withdrawal_chain, withdrawal_chain_terminal, fold_payouts, accumulate_withdrawal,
  accumulate_deposit, accumulate_request,
}
use payment_rollup.Replay.{verify_batch, withdrawal_payouts}
use payment_rollup.Commit.{
  chunks, chunk_digest, accumulate_chunk, chunk_accumulator_seed, fold_chunks, batch_commitment,
}
use payment_rollup.Settlement.{InboxItem, inbox_of, word}
use payment_rollup.Settlement.Queued.{fold_inbox, accumulate_item}
use payment_rollup.Settlement.Queues.{batch_queues}

module _ ⦃p : Primitives⦄ where
  fold_inbox-IsDigest :
      (chain : Digest) (items : List InboxItem) → IsDigest chain → IsDigest (fold_inbox chain items)
  unfolding fold_inbox accumulate_item accumulate_deposit accumulate_request
  fold_inbox-IsDigest chain [] h = h
  fold_inbox-IsDigest chain (InboxItem.deposit a n ∷ items) h =
      fold_inbox-IsDigest (accumulate_item chain (InboxItem.deposit a n)) items (p.digest_shape _).0
  fold_inbox-IsDigest chain (InboxItem.forced_withdrawal a b ∷ items) h =
      fold_inbox-IsDigest (accumulate_item chain (InboxItem.forced_withdrawal a b)) items
        (p.digest_shape _).0

  fold_payouts-IsDigest :
      (tail : Digest) (payouts : List Payout) → IsDigest tail → IsDigest (fold_payouts tail payouts)
  unfolding fold_payouts accumulate_withdrawal
  fold_payouts-IsDigest tail [] h = h
  fold_payouts-IsDigest tail ((a, n) ∷ rest) h =
      fold_payouts-IsDigest (accumulate_withdrawal tail a n) rest (p.digest_shape _).0

  withdrawal_chain-IsDigest :
      (d : DeploymentDomain) (payouts : List Payout) → IsDigest (withdrawal_chain d payouts)
  unfolding withdrawal_chain withdrawal_chain_terminal
  withdrawal_chain-IsDigest d payouts =
      fold_payouts-IsDigest _ (reverse payouts) (p.digest_shape _).0

  -- From an old root and an anchor of 32 bytes, a replay that succeeds returns three digests of 32
  -- bytes, whatever the lengths of the siblings that the sidecar brings.
  pub verify_batch-IsDigest :
      (d : DeploymentDomain) (old_root anchor : Digest) (batch : Batch) (sidecar : Sidecar)
      {new_root inbox_chain payout_chain : Digest}
      → IsDigest old_root
      → IsDigest anchor
      → verify_batch d old_root anchor batch sidecar ≡ ok (new_root, inbox_chain, payout_chain)
      → IsDigest new_root × IsDigest inbox_chain × IsDigest payout_chain
  verify_batch-IsDigest d old_root anchor batch sidecar r a h =
      let (q, c, kept) = batch_queues d old_root anchor batch sidecar h in
      (
        kept r,
        subst IsDigest (sym c) (fold_inbox-IsDigest anchor (inbox_of batch.txns) a),
        subst IsDigest (sym q) (withdrawal_chain-IsDigest d (withdrawal_payouts batch sidecar)),
      )

  fold_chunks-IsDigest :
      (acc : Digest) (cs : List Bytes) → IsDigest acc → IsDigest (fold_chunks acc cs)
  unfolding fold_chunks accumulate_chunk
  fold_chunks-IsDigest acc [] h = h
  fold_chunks-IsDigest acc (c ∷ cs) h =
      fold_chunks-IsDigest (accumulate_chunk acc (chunk_digest c)) cs (p.digest_shape _).0

  pub batch_commitment-IsDigest :
      (d : DeploymentDomain) (bytes : Bytes) → IsDigest (batch_commitment d bytes)
  unfolding batch_commitment chunk_accumulator_seed
  batch_commitment-IsDigest d bytes = fold_chunks-IsDigest _ (chunks bytes) (p.digest_shape _).0

drop_past : (xs ys : Bytes) (k n : ℕ) → k ≡ length xs + n → drop k (xs ++ ys) ≡ drop n ys
drop_past [] ys k n e = ap (λ z. drop z ys) (omega (arith, e))
drop_past (x ∷ xs) ys zero n e = absurd (omega (arith, e))
drop_past (x ∷ xs) ys (suc k) n e = drop_past xs ys k n (omega (arith, e))

-- The first word, and the words after it.
word_first : (x rest : Bytes) → IsDigest x → word 0 (x ++ rest) ≡ x
unfolding word
word_first x rest h = subst (λ n. take n (x ++ rest) ≡ x) h (take-append x rest)

word_next : (x rest : Bytes) (k n : ℕ) → IsDigest x → k ≡ 32 + n → word k (x ++ rest) ≡ word n rest
unfolding word
word_next x rest k n h e = ap (take 32) (drop_past x rest k n (omega (arith, h, e)))

word_last : (x : Bytes) → IsDigest x → word 0 x ≡ x
word_last x h = ap (word 0) (sym (append-nil x)) ∙ word_first x [] h

-- Six words of 32 bytes, read back from their concatenation.
pub record Words (v a b c d e f : Bytes) : Type 0 where
  pub size : length v ≡ 192
  pub first : word 0 v ≡ a
  pub second : word 32 v ≡ b
  pub third : word 64 v ≡ c
  pub fourth : word 96 v ≡ d
  pub fifth : word 128 v ≡ e
  pub sixth : word 160 v ≡ f

pub six-Words :
    (a b c d e f : Bytes)
    → IsDigest a
    → IsDigest b
    → IsDigest c
    → IsDigest d
    → IsDigest e
    → IsDigest f
    → Words (a ++ (b ++ (c ++ (d ++ (e ++ f))))) a b c d e f
six-Words a b c d e f ha hb hc hd he hf =
    let r₄ = e ++ f in
    let r₃ = d ++ r₄ in
    let r₂ = c ++ r₃ in
    let r₁ = b ++ r₂ in
    record {
      size = omega (
        arith,
        ha,
        hb,
        hc,
        hd,
        he,
        hf,
        length-append a r₁,
        length-append b r₂,
        length-append c r₃,
        length-append d r₄,
        length-append e f,
      );
      first = word_first a r₁ ha;
      second = word_next a r₁ 32 0 ha refl ∙ word_first b r₂ hb;
      third = word_next a r₁ 64 32 ha refl ∙ word_next b r₂ 32 0 hb refl ∙ word_first c r₃ hc;
      fourth =
          word_next a r₁ 96 64 ha refl
          ∙ word_next b r₂ 64 32 hb refl
          ∙ word_next c r₃ 32 0 hc refl
          ∙ word_first d r₄ hd;
      fifth =
          word_next a r₁ 128 96 ha refl
          ∙ word_next b r₂ 96 64 hb refl
          ∙ word_next c r₃ 64 32 hc refl
          ∙ word_next d r₄ 32 0 hd refl
          ∙ word_first e f he;
      sixth =
          word_next a r₁ 160 128 ha refl
          ∙ word_next b r₂ 128 96 hb refl
          ∙ word_next c r₃ 96 64 hc refl
          ∙ word_next d r₄ 64 32 hd refl
          ∙ word_next e f 32 0 he refl
          ∙ word_last f hf;
    }
