-- ===== src/Host/Agrees.antt =====
-- The guest, run on what the host writes for it, commits to what the host computed natively
-- (crates/sp1-host/src/prove.rs and report.rs, crates/sp1-guest/src/main.rs).
use payment_rollup.Prelude.{
  ◌≡◌, refl, sym, ap, ◌∙◌, subst, ok, ==_iff, length, ◌>>=◌, true, ok_or, ok-injective,
}
use payment_rollup.Bytes.{Bytes, bytes_eq, bytes_eq_refl}
use payment_rollup.Crypto.{Primitives}
use payment_rollup.Txn.{Block}
use payment_rollup.Execute.{guest, block_proves, execute}
use payment_rollup.Merkle.Digests.{IsDigest}
use payment_rollup.Settlement.{Settlement, for_block}
use payment_rollup.Settlement.Parts.{for_block-Settled}
use payment_rollup.Host.Proving.{
  IsSdk, stdin_for, Groth16Prover, prove, report, not_groth16, NetworkProof, ExecutionReport,
  map_err, proof_fixture, report_of,
}

module _ ⦃p : Primitives⦄ where
  -- What a settlement repeats of its block, and whose replay its public values are.
  pub record Replays (block : Block) (s : Settlement) : Type 0 where
    pub domain : s.domain ≡ block.domain
    pub root : s.old_root ≡ block.old_root
    pub anchor : s.old_inbox_chain ≡ block.old_inbox_chain
    pub values :
        execute s.domain s.old_root s.old_inbox_chain s.batch_bytes s.sidecar_bytes
        ≡ ok s.public_values

  pub for_block-Replays :
      (block : Block) {s : Settlement} → for_block block ≡ ok s → Replays block s
  for_block-Replays block {s} h =
      let b = for_block-Settled block h in
      subst (Replays block) b.told
        (record { domain = refl; root = refl; anchor = refl; values = b.ran })

  module _ (block : Block) (s : Settlement) (domain_fits : IsDigest block.domain)
      (root_fits : IsDigest block.old_root) (anchor_fits : IsDigest block.old_inbox_chain)
      (settled : for_block block ≡ ok s) where
    -- The guest's program, on the five slices that the host writes, commits to the public values.
    pub guest-for_block :
        guest s.domain s.old_root s.old_inbox_chain s.batch_bytes s.sidecar_bytes
        ≡ ok s.public_values
    unfolding guest block_proves
    guest-for_block =
        let r = for_block-Replays block settled in
        rw (
          (==_iff (length s.domain) 32).1 (ap length r.domain ∙ domain_fits),
          (==_iff (length s.old_root) 32).1 (ap length r.root ∙ root_fits),
          (==_iff (length s.old_inbox_chain) 32).1 (ap length r.anchor ∙ anchor_fits),
          r.values,
        )

    pub agreed :
        {values : Bytes}
        → guest s.domain s.old_root s.old_inbox_chain s.batch_bytes s.sidecar_bytes ≡ ok values
        → bytes_eq values s.public_values ≡ true
    agreed {values} h =
        let same : values ≡ s.public_values = ok-injective (sym h ∙ guest-for_block) in
        rw same (bytes_eq_refl s.public_values)

    -- The block's domain, old root and old inbox chain are 32 bytes and the block settles. Over an SDK
    -- that runs the guest on the slices that are written for it, a proof or a run of the settlement
    -- never disagrees with the public values of the native replay: the proof is returned if it is a
    -- Groth16 proof, and the run is reported.
    pub prove_agrees :
        (prover : Groth16Prover) (proof : NetworkProof) (values : Bytes) (costs : ExecutionReport)
        → IsSdk prover.sdk
        → prover.sdk.request (stdin_for s) ≡ ok proof
        → prover.sdk.execute (stdin_for s) ≡ ok (values, costs)
        → (prove prover s ≡ (do
          groth16 ← ok_or proof.groth16 not_groth16
          ok (proof_fixture prover.vkey proof.bytes groth16)))
          × (report prover.sdk s ≡ ok (report_of s costs))
    unfolding prove report stdin_for map_err
    prove_agrees prover proof values costs i requested executed = (
      rw (
        requested,
        agreed (
            i.requested s.domain s.old_root s.old_inbox_chain s.batch_bytes s.sidecar_bytes
              requested),
      ),
      rw (
        executed,
        agreed (
            i.executed s.domain s.old_root s.old_inbox_chain s.batch_bytes s.sidecar_bytes
              executed),
      ),
    )
