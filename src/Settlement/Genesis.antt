-- ===== src/Settlement/Genesis.antt =====
-- A block built from the empty ledger settles against a freshly deployed contract
-- (crates/sp1-host/src/lib.rs, `Settlement::settles_from_genesis` and `Settlement::chunks`).
use payment_rollup.Prelude.{◌*◌, ◌≤◌, ◌≡◌, refl, true, List, ok, length, All}
use payment_rollup.Bytes.{bytes_eq_refl}
use payment_rollup.Crypto.{Primitives}
use payment_rollup.Account.{DeploymentDomain}
use payment_rollup.Chains.{inbox_chain_genesis}
use payment_rollup.Merkle.Tree.{root, hash, empty_subtree}
use payment_rollup.Txn.{SignedTransaction, Block}
use payment_rollup.Codec.Reader.{usize_max}
use payment_rollup.Commit.Chunks.{join, IsCut, chunks_unique, length-chunks}
use payment_rollup.Ledger.{Ledger, with_domain, state_root, get_block}
use payment_rollup.Ledger.Sync.{with_domain-IsSynced}
use payment_rollup.Ledger.Typed.{with_domain-IsTyped}
use payment_rollup.Ledger.Formed.{IsSubmitted}
use payment_rollup.Ledger.Verifies.{get_block-starts}
use payment_rollup.Settlement.{
  Settlement, for_block, genesis_root, settled_chunks, settled_chunk_count, settles_from_genesis,
}
use payment_rollup.Settlement.Settles.{settlement_of, names, for_block-get_block}

module _ ⦃p : Primitives⦄ where
  genesis_starts : (domain : DeploymentDomain) → state_root (with_domain domain) ≡ genesis_root
  unfolding state_root with_domain root hash empty_subtree genesis_root
  genesis_starts domain = refl

  -- A settlement that a fresh contract accepts, whose chunks are full but for a last one that is
  -- not empty, make up the batch and are as many as it says.
  pub record IsFresh (s : Settlement) : Type 0 where
    pub from_genesis : settles_from_genesis s ≡ true
    pub cut : IsCut (settled_chunks s)
    pub whole : join (settled_chunks s) ≡ s.batch_bytes
    pub counted : length (settled_chunks s) ≡ settled_chunk_count s

  -- Every block that the ledger builds from the empty ledger of a deployment, on transactions within
  -- their types and no more than a size can count the bytes of, settles, and a fresh contract
  -- accepts the settlement: it starts at the genesis root and the genesis inbox chain, and its
  -- chunks cut its batch bytes into full ones and a last one that is not empty, as many as it says.
  pub for_block-IsFresh :
      (domain : DeploymentDomain) (ts : List SignedTransaction) {block : Block} {l' : Ledger}
      → All IsSubmitted ts
      → length ts * 3 ≤ usize_max
      → get_block (with_domain domain) ts ≡ ok (block, l')
      → (for_block block ≡ ok (settlement_of block)) × IsFresh (settlement_of block)
  unfolding settles_from_genesis settled_chunks settled_chunk_count
  for_block-IsFresh domain ts {block} n small h =
      let l = with_domain domain in
      let (_, root_at, inbox_at) =
        get_block-starts l ts (names ts n) (with_domain-IsSynced domain) h in
      let inbox_genesis : l.inbox_chain ≡ inbox_chain_genesis = unfold with_domain in refl in
      let (settles, _) =
        for_block-get_block l ts (with_domain-IsTyped domain) n
          (unfold with_domain inbox_chain_genesis in refl) small h in
      let bytes = (settlement_of block).batch_bytes in
      let (cut, whole) = (chunks_unique bytes _).1 refl in
      (
        settles,
        record {
          from_genesis =
              rw (root_at, genesis_starts domain, inbox_at, inbox_genesis)
                (rw (bytes_eq_refl genesis_root, bytes_eq_refl inbox_chain_genesis));
          cut = cut;
          whole = whole;
          counted = length-chunks bytes;
        },
      )
