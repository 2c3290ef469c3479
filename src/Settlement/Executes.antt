-- ===== src/Settlement/Executes.antt =====
-- What `execute` commits (crates/payment-rollup/src/lib.rs) and what `Settlement::for_block`
-- (crates/sp1-host/src/lib.rs) makes of a block.
use payment_rollup.Prelude.{◌≡◌, sym, ap, ◌∙◌, subst, Result, ok, err, >>=-eq-ok, ok-injective}
use payment_rollup.Bytes.{Bytes}
use payment_rollup.Crypto.{Primitives}
use payment_rollup.Account.{DeploymentDomain, Digest, VerificationError}
use payment_rollup.Merkle.Digests.{IsDigest}
use payment_rollup.Txn.{Batch, Sidecar, Block}
use payment_rollup.Chains.{withdrawal_chain}
use payment_rollup.Replay.{verify_batch, withdrawal_payouts}
use payment_rollup.Codec.Batch as BatchCodec
use payment_rollup.Codec.Sidecar as SidecarCodec
use payment_rollup.Commit.{public_values, batch_commitment}
use payment_rollup.Execute.{from_decode_error, from_verification_error, execute}
use payment_rollup.Settlement.{Settlement, inbox_of, word, for_block}
use payment_rollup.Settlement.Parts.{for_block-Settled, decoded}
use payment_rollup.Settlement.Queued.{fold_inbox}
use payment_rollup.Settlement.Queues.{batch_queues}
use payment_rollup.Settlement.Words.{
  Words, six-Words, verify_batch-IsDigest, batch_commitment-IsDigest,
}

replayed :
    {A : Type 0} (m : Result VerificationError A) {a : A}
    → from_verification_error m ≡ ok a
    → m ≡ ok a
unfolding from_verification_error
replayed (ok a) h = ap ok (ok-injective h)
replayed (err e) h = cc

module _ ⦃p : Primitives⦄ where
  -- A successful run: what the bytes decode to, where the replay of that ends, and the six words.
  pub record Execution (d : DeploymentDomain) (old_root anchor : Digest)
      (batch_bytes sidecar_bytes values : Bytes) : Type 0 where
    pub batch : Batch
    pub sidecar : Sidecar
    pub new_root : Digest
    pub new_inbox_chain : Digest
    pub payout_chain : Digest
    pub batch_decoded : BatchCodec.decode batch_bytes ≡ ok batch
    pub sidecar_decoded : SidecarCodec.decode sidecar_bytes batch ≡ ok sidecar
    pub verified :
        verify_batch d old_root anchor batch sidecar ≡ ok (new_root, new_inbox_chain, payout_chain)
    pub whole :
        public_values d old_root new_root batch_bytes anchor new_inbox_chain payout_chain ≡ values
    pub words :
        Words values old_root new_root
          (batch_commitment d batch_bytes)
          anchor
          new_inbox_chain
          payout_chain

  -- When `execute` succeeds, on an old root and an anchor of 32 bytes, both byte strings decode,
  -- the decoded batch replays against the decoded sidecar, and the result is 192 bytes: the old
  -- root, the root the replay ends in, the commitment to the batch bytes, the anchor, and the
  -- inbox and payout chains of the replay.
  pub execute-Execution :
      (d : DeploymentDomain) (old_root anchor : Digest) (batch_bytes sidecar_bytes : Bytes)
      {values : Bytes}
      → IsDigest old_root
      → IsDigest anchor
      → execute d old_root anchor batch_bytes sidecar_bytes ≡ ok values
      → Execution d old_root anchor batch_bytes sidecar_bytes values
  unfolding execute public_values
  execute-Execution d old_root anchor batch_bytes sidecar_bytes r a h =
      let (batch, b, h₁) = >>=-eq-ok (from_decode_error (BatchCodec.decode batch_bytes)) _ h in
      let (sidecar, c, h₂) =
        >>=-eq-ok (from_decode_error (SidecarCodec.decode sidecar_bytes batch)) _ h₁ in
      let ((new_root, new_inbox_chain, payout_chain), v, h₃) =
        >>=-eq-ok (from_verification_error (verify_batch d old_root anchor batch sidecar)) _ h₂ in
      let verified = replayed _ v in
      let (nr, ni, np) = verify_batch-IsDigest d old_root anchor batch sidecar r a verified in
      record {
        batch = batch;
        sidecar = sidecar;
        new_root = new_root;
        new_inbox_chain = new_inbox_chain;
        payout_chain = payout_chain;
        batch_decoded = decoded _ b;
        sidecar_decoded = decoded _ c;
        verified = verified;
        whole = ok-injective h₃;
        words =
            subst
              (λ z.
                Words z old_root new_root (batch_commitment d batch_bytes) anchor new_inbox_chain
                  payout_chain)
              (ok-injective h₃)
              (six-Words old_root new_root (batch_commitment d batch_bytes) anchor new_inbox_chain
                payout_chain r nr (batch_commitment-IsDigest d batch_bytes) a ni np);
      }

  -- A block that settles, with an old root and an old inbox chain of 32 bytes: the withdrawals
  -- handed out fold to its payout chain, the inbox items, in their order, take its old inbox chain
  -- to the new one, and the third word of its public values commits to its batch bytes.
  pub for_block-queues :
      (block : Block) {s : Settlement}
      → IsDigest block.old_root
      → IsDigest block.old_inbox_chain
      → for_block block ≡ ok s
      → (withdrawal_chain s.domain s.withdrawals ≡ s.withdrawal_chain)
        × (fold_inbox s.old_inbox_chain s.inbox ≡ s.new_inbox_chain)
        × (word 64 s.public_values ≡ batch_commitment s.domain s.batch_bytes)
  for_block-queues block {s} r a h =
      let b = for_block-Settled block h in
      let x =
        execute-Execution block.domain block.old_root block.old_inbox_chain
          (BatchCodec.encode block.batch) (SidecarCodec.encode block.sidecar) r a b.ran in
      let w = x.words in
      let same : b.batch ≡ x.batch = ok-injective (sym b.batch_decoded ∙ x.batch_decoded) in
      let same_sidecar : b.sidecar ≡ x.sidecar = ok-injective (
        sym b.sidecar_decoded
        ∙ ap (SidecarCodec.decode (SidecarCodec.encode block.sidecar)) same
        ∙ x.sidecar_decoded) in
      let (q, i, _) =
        batch_queues block.domain block.old_root block.old_inbox_chain x.batch x.sidecar
          x.verified in
      subst
        (λ (z : Settlement).
          (withdrawal_chain z.domain z.withdrawals ≡ z.withdrawal_chain)
          × (fold_inbox z.old_inbox_chain z.inbox ≡ z.new_inbox_chain)
          × (word 64 z.public_values ≡ batch_commitment z.domain z.batch_bytes))
        b.told
        (
          (λ j. withdrawal_chain block.domain (withdrawal_payouts (same j) (same_sidecar j)))
              ∙ sym q
              ∙ sym w.sixth
              ∙ b.payouts_told,
          (λ j.
                let batch : Batch = same j in
                fold_inbox block.old_inbox_chain (inbox_of batch.txns))
              ∙ sym i
              ∙ sym w.fifth
              ∙ b.inbox_told,
          w.third,
        )

  -- The public values of a block that settles, with an old root and an old inbox chain of 32 bytes,
  -- are those of the settlement's own fields.
  pub for_block-public_values :
      (block : Block) {s : Settlement}
      → IsDigest block.old_root
      → IsDigest block.old_inbox_chain
      → for_block block ≡ ok s
      → (s.public_values
          ≡ public_values s.domain s.old_root s.new_root s.batch_bytes s.old_inbox_chain
              s.new_inbox_chain s.withdrawal_chain)
        × Words s.public_values s.old_root s.new_root
            (batch_commitment s.domain s.batch_bytes)
            s.old_inbox_chain
            s.new_inbox_chain
            s.withdrawal_chain
  for_block-public_values block {s} r a h =
      let b = for_block-Settled block h in
      let bytes = BatchCodec.encode block.batch in
      let x =
        execute-Execution block.domain block.old_root block.old_inbox_chain bytes
          (SidecarCodec.encode block.sidecar) r a b.ran in
      let w = x.words in
      let root : x.new_root ≡ block.new_root = sym w.second ∙ b.root_told in
      let inbox : x.new_inbox_chain ≡ block.new_inbox_chain = sym w.fifth ∙ b.inbox_told in
      let payouts : x.payout_chain ≡ block.withdrawal_chain = sym w.sixth ∙ b.payouts_told in
      subst
        (λ (z : Settlement).
          (z.public_values
            ≡ public_values z.domain z.old_root z.new_root z.batch_bytes z.old_inbox_chain
                z.new_inbox_chain z.withdrawal_chain)
          × Words z.public_values z.old_root z.new_root (batch_commitment z.domain z.batch_bytes)
              z.old_inbox_chain z.new_inbox_chain z.withdrawal_chain)
        b.told
        (
          sym x.whole ∙ (λ j.
              public_values block.domain block.old_root (root j) bytes block.old_inbox_chain
                (inbox j) (payouts j)),
          subst
              (λ (t : Digest × Digest × Digest).
                Words b.values block.old_root t.0 (batch_commitment block.domain bytes)
                  block.old_inbox_chain t.1 t.2)
              (λ j. (root j, inbox j, payouts j)) w,
        )
