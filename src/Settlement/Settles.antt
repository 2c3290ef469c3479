-- ===== src/Settlement/Settles.antt =====
-- A block that verifies settles, and so does every block that the ledger builds
-- (crates/payment-rollup/src/lib.rs, crates/sp1-host/src/lib.rs).
use payment_rollup.Prelude.{
  ◌*◌, ◌≤◌, ◌≡◌, ◌∙◌, subst, ◌&&◌, true, List, [], ◌∷◌, arith, ok, guard-ok, >>=-eq-ok,
  ok-injective, length, All,
}
use payment_rollup.Bytes.{Bytes, bytes_eq, bytes_eq_refl, bytes_eq→eq}
use payment_rollup.Crypto.{Primitives}
use payment_rollup.Account.{root_mismatch}
use payment_rollup.Merkle.Digests.{IsDigest, hash-IsDigest}
use payment_rollup.Txn.{SignedTransaction, Block}
use payment_rollup.Replay.{verify_batch, verify_block, withdrawal_payouts}
use payment_rollup.Ledger.{Ledger, state_root, build_loop, get_block}
use payment_rollup.Ledger.Sizes.{length-get_block}
use payment_rollup.Ledger.Verifies.{start, verify_block-get_block}
use payment_rollup.Ledger.Sync.{IsSynced}
use payment_rollup.Ledger.Placed.{NamesAddresses}
use payment_rollup.Merkle.Tree.{root}
use payment_rollup.Ledger.Typed.{IsTyped}
use payment_rollup.Ledger.Formed.{IsSubmitted, IsSubmitted→NamesAddresses, build_loop-IsFormed}
use payment_rollup.Codec.Reader.{usize_max}
use payment_rollup.Codec.Batch as BatchCodec
use payment_rollup.Codec.Batch.RoundTrip.{IsTransaction, decode-encode_batch}
use payment_rollup.Codec.Sidecar as SidecarCodec
use payment_rollup.Codec.Sidecar.RoundTrip.{FitAll, length-FitAll, decode-encode_sidecar}
use payment_rollup.Commit.{public_values, batch_commitment}
use payment_rollup.Execute.{from_decode_error, from_verification_error, execute}
use payment_rollup.Settlement.{Settlement, word, for_block, deposits_of, requests_of, inbox_of}
use payment_rollup.Settlement.Words.{six-Words, verify_batch-IsDigest, batch_commitment-IsDigest}
use payment_rollup.Settlement.Parts.{and-true}

same_bytes : {xs ys : Bytes} → xs ≡ ys → bytes_eq xs ys ≡ true
same_bytes {xs} {ys} e = subst (λ z. bytes_eq xs z ≡ true) e (bytes_eq_refl xs)

-- A block that the wire formats can carry.
pub record IsCarried (block : Block) : Type 0 where
  pub fits : FitAll block.batch.txns block.sidecar.entries
  pub carried : All IsTransaction block.batch.txns
  pub small : length block.batch.txns * 3 ≤ usize_max

module _ ⦃p : Primitives⦄ where
  -- What a verified block claims is what its replay ends in.
  pub verified_claims :
      (block : Block)
      → verify_block block ≡ ok tt
      → verify_batch block.domain block.old_root block.old_inbox_chain block.batch block.sidecar
        ≡ ok (block.new_root, block.new_inbox_chain, block.withdrawal_chain)
  unfolding verify_block
  verified_claims block h =
      let ((root, inbox, chain), replayed, claims) =
        >>=-eq-ok
          (verify_batch block.domain block.old_root block.old_inbox_chain block.batch block.sidecar)
          _ h in
      let (r, rest) = and-true _ _ (guard-ok _ root_mismatch claims) in
      let (i, c) = and-true _ _ rest in
      replayed ∙ (λ j. ok (
        bytes_eq→eq root block.new_root r j,
        bytes_eq→eq inbox block.new_inbox_chain i j,
        bytes_eq→eq chain block.withdrawal_chain c j,
      ))

  abbrev pub values_of : Block → Bytes
  values_of block =
      public_values block.domain block.old_root block.new_root (BatchCodec.encode block.batch)
        block.old_inbox_chain block.new_inbox_chain block.withdrawal_chain

  -- Executing the two encoded halves of a block that verifies gives the block's own public values.
  pub execute-encode :
      (block : Block)
      → IsCarried block
      → verify_block block ≡ ok tt
      → execute block.domain block.old_root block.old_inbox_chain
          (BatchCodec.encode block.batch)
          (SidecarCodec.encode block.sidecar)
        ≡ ok (values_of block)
  unfolding execute from_decode_error from_verification_error
  execute-encode block c v =
      let entries : length block.sidecar.entries * 3 ≤ usize_max =
        omega (arith, length-FitAll block.batch.txns block.sidecar.entries c.fits, c.small) in
      rw (decode-encode_batch block.batch c.carried c.small) (
        rw (decode-encode_sidecar block.batch block.sidecar c.fits entries)
          (rw (verified_claims block v)))

  -- What settling a block should hand over, read off the block itself.
  abbrev pub settlement_of : Block → Settlement
  settlement_of block = record {
    domain = block.domain;
    old_root = block.old_root;
    new_root = block.new_root;
    old_inbox_chain = block.old_inbox_chain;
    new_inbox_chain = block.new_inbox_chain;
    withdrawal_chain = block.withdrawal_chain;
    deposits = deposits_of block.batch.txns;
    withdrawals = withdrawal_payouts block.batch block.sidecar;
    requests = requests_of block.batch.txns;
    inbox = inbox_of block.batch.txns;
    txn_count = length block.batch.txns;
    batch_bytes = BatchCodec.encode block.batch;
    sidecar_bytes = SidecarCodec.encode block.sidecar;
    public_values = values_of block;
  }

  -- The three words that `for_block` compares are the block's.
  claims_hold :
      (block : Block)
      → IsDigest block.old_root
      → IsDigest block.old_inbox_chain
      → verify_block block ≡ ok tt
      → let values = values_of block in
        (bytes_eq (word 32 values) block.new_root
          && (bytes_eq (word 128 values) block.new_inbox_chain
              && bytes_eq (word 160 values) block.withdrawal_chain))
        ≡ true
  unfolding public_values
  claims_hold block r a v =
      let (nr, ni, np) =
        verify_batch-IsDigest block.domain block.old_root block.old_inbox_chain block.batch
          block.sidecar r a (verified_claims block v) in
      let w =
        six-Words block.old_root block.new_root
          (batch_commitment block.domain (BatchCodec.encode block.batch)) block.old_inbox_chain
          block.new_inbox_chain block.withdrawal_chain r nr
          (batch_commitment-IsDigest block.domain (BatchCodec.encode block.batch)) a ni np in
      rw (same_bytes w.second, same_bytes w.fifth, same_bytes w.sixth)

  -- A block that verifies, that the wire formats can carry and whose old root and inbox chain are
  -- 32 bytes settles, and what it hands over is what the block says: its deposits, its withdrawals,
  -- its requests, its inbox, its encoded halves and its public values.
  pub for_block-verify_block :
      (block : Block)
      → IsCarried block
      → IsDigest block.old_root
      → IsDigest block.old_inbox_chain
      → verify_block block ≡ ok tt
      → for_block block ≡ ok (settlement_of block)
  unfolding for_block
  for_block-verify_block block c r a v =
      let entries : length block.sidecar.entries * 3 ≤ usize_max =
        omega (arith, length-FitAll block.batch.txns block.sidecar.entries c.fits, c.small) in
      rw (execute-encode block c v) (
        rw (claims_hold block r a v) (
          unfold from_decode_error in
          rw (decode-encode_batch block.batch c.carried c.small)
            (rw (decode-encode_sidecar block.batch block.sidecar c.fits entries))))

  pub names : (ts : List SignedTransaction) → All IsSubmitted ts → All NamesAddresses ts
  names [] n = tt
  names (t ∷ ts) n = (IsSubmitted→NamesAddresses t n.0, names ts n.1)

  -- A block of the ledger is one that the wire formats carry, between two digests.
  pub record IsBuilt (l' : Ledger) (block : Block) : Type 0 where
    pub carried : IsCarried block
    pub root_fits : IsDigest block.old_root
    pub inbox_fits : IsDigest block.old_inbox_chain
    pub typed_after : IsTyped l'

  pub get_block-IsBuilt :
      (l : Ledger) (ts : List SignedTransaction) {block : Block} {l' : Ledger}
      → IsTyped l
      → All IsSubmitted ts
      → IsDigest l.inbox_chain
      → length ts * 3 ≤ usize_max
      → get_block l ts ≡ ok (block, l')
      → IsBuilt l' block
  unfolding get_block state_root root
  get_block-IsBuilt l ts {block} {l'} typed n a small h =
      let (b, built, done) = >>=-eq-ok (build_loop ts (start l)) _ h in
      let f =
        build_loop-IsFormed ts (start l) n (record { typed = typed; fits = tt; carried = tt })
          built in
      let s : IsSynced l = typed.synced in
      subst (λ (q : Block × Ledger). length q.0.batch.txns * 3 ≤ usize_max → IsBuilt q.1 q.0)
        (ok-injective done)
        (λ size. record {
          carried = record { fits = f.fits; carried = f.carried; small = size };
          root_fits = hash-IsDigest l.tree 0 s.canonical;
          inbox_fits = a;
          typed_after = f.typed;
        })
        (omega (arith, small, length-get_block l ts h))

  -- Every block that the ledger hands out settles as the block says, when it is built from a synced
  -- ledger of accounts within their types, on transactions within theirs, with an inbox chain of 32
  -- bytes and no more transactions than a size can count the bytes of; the ledger left behind is
  -- again synced, of accounts within their types.
  pub for_block-get_block :
      (l : Ledger) (ts : List SignedTransaction) {block : Block} {l' : Ledger}
      → IsTyped l
      → All IsSubmitted ts
      → IsDigest l.inbox_chain
      → length ts * 3 ≤ usize_max
      → get_block l ts ≡ ok (block, l')
      → (for_block block ≡ ok (settlement_of block)) × IsTyped l'
  for_block-get_block l ts {block} typed n a small h =
      let b = get_block-IsBuilt l ts typed n a small h in
      let (verified, _) = verify_block-get_block l ts typed.synced (names ts n) h in
      (for_block-verify_block block b.carried b.root_fits b.inbox_fits verified, b.typed_after)
