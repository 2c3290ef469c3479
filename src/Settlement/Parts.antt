-- ===== src/Settlement/Parts.antt =====
-- What a block that settles went through (crates/sp1-host/src/lib.rs, `Settlement::for_block`).
use payment_rollup.Prelude.{
  ◌≡◌, ap, ◌&&◌, length, Bool, true, arith, Result, ok, err, guard, guard-ok, >>=-eq-ok,
  ok-injective,
}
use payment_rollup.Bytes.{Bytes, bytes_eq, bytes_eq→eq}
use payment_rollup.Crypto.{Primitives}
use payment_rollup.Account.{root_mismatch}
use payment_rollup.Txn.{Batch, Sidecar, Block}
use payment_rollup.Replay.{withdrawal_payouts}
use payment_rollup.Codec.Reader.{DecodeError}
use payment_rollup.Codec.Batch as BatchCodec
use payment_rollup.Codec.Sidecar as SidecarCodec
use payment_rollup.Execute.{ExecutionError, from_decode_error, execute}
use payment_rollup.Settlement.{Settlement, inbox_of, deposits_of, requests_of, word, for_block}

pub decoded :
    {A : Type 0} (m : Result DecodeError A) {a : A} → from_decode_error m ≡ ok a → m ≡ ok a
unfolding from_decode_error
decoded (ok a) h = ap ok (ok-injective h)
decoded (err e) h = cc

module _ ⦃p : Primitives⦄ where
  -- What is handed out for a block, its public values and what its halves decode to.
  abbrev handed : Block → Bytes → Batch → Sidecar → Settlement
  handed block values batch sidecar = record {
    domain = block.domain;
    old_root = block.old_root;
    new_root = block.new_root;
    old_inbox_chain = block.old_inbox_chain;
    new_inbox_chain = block.new_inbox_chain;
    withdrawal_chain = block.withdrawal_chain;
    deposits = deposits_of batch.txns;
    withdrawals = withdrawal_payouts batch sidecar;
    requests = requests_of batch.txns;
    inbox = inbox_of batch.txns;
    txn_count = length block.batch.txns;
    batch_bytes = BatchCodec.encode block.batch;
    sidecar_bytes = SidecarCodec.encode block.sidecar;
    public_values = values;
  }

  pub record Settled (block : Block) (s : Settlement) : Type 0 where
    pub values : Bytes
    pub batch : Batch
    pub sidecar : Sidecar
    pub ran :
        execute block.domain block.old_root block.old_inbox_chain
          (BatchCodec.encode block.batch)
          (SidecarCodec.encode block.sidecar)
        ≡ ok values
    pub root_told : word 32 values ≡ block.new_root
    pub inbox_told : word 128 values ≡ block.new_inbox_chain
    pub payouts_told : word 160 values ≡ block.withdrawal_chain
    pub batch_decoded : BatchCodec.decode (BatchCodec.encode block.batch) ≡ ok batch
    pub sidecar_decoded : SidecarCodec.decode (SidecarCodec.encode block.sidecar) batch ≡ ok sidecar
    pub told : handed block values batch sidecar ≡ s

  pub and-true : (x y : Bool) → (x && y) ≡ true → (x ≡ true) × (y ≡ true)
  and-true x y h = ground arith

  pub for_block-Settled :
      (block : Block) {s : Settlement} → for_block block ≡ ok s → Settled block s
  unfolding for_block
  for_block-Settled block {s} h =
      let batch_bytes = BatchCodec.encode block.batch in
      let sidecar_bytes = SidecarCodec.encode block.sidecar in
      let (values, run, h₁) =
        >>=-eq-ok
          (execute block.domain block.old_root block.old_inbox_chain batch_bytes sidecar_bytes) _
          h in
      let (_, claims, h₂) =
        >>=-eq-ok
          (guard
            (bytes_eq (word 32 values) block.new_root
              && (bytes_eq (word 128 values) block.new_inbox_chain
                  && bytes_eq (word 160 values) block.withdrawal_chain))
            (ExecutionError.verification root_mismatch))
          _ h₁ in
      let (root_claim, both) = and-true _ _ (guard-ok _ _ claims) in
      let (inbox_claim, chain_claim) = and-true _ _ both in
      let (batch, b, h₃) = >>=-eq-ok (from_decode_error (BatchCodec.decode batch_bytes)) _ h₂ in
      let (sidecar, c, h₄) =
        >>=-eq-ok (from_decode_error (SidecarCodec.decode sidecar_bytes batch)) _ h₃ in
      record {
        values = values;
        batch = batch;
        sidecar = sidecar;
        ran = run;
        root_told = bytes_eq→eq _ _ root_claim;
        inbox_told = bytes_eq→eq _ _ inbox_claim;
        payouts_told = bytes_eq→eq _ _ chain_claim;
        batch_decoded = decoded _ b;
        sidecar_decoded = decoded _ c;
        told = ok-injective h₄;
      }
