-- ===== src/Merkle/Witness.antt =====
-- The verifying side of crates/payment-rollup/src/merkle.rs: the root that a proof implies.
use payment_rollup.Prelude.{
  ℕ, zero, suc, ◌+◌, ◌-◌, Bool, false, not, ◌&&◌, Option, none, some, List, ltb, leb, ◌==◌,
  if◌then◌else◌, length, get_or,
}
use payment_rollup.Bytes.{bytes_eq}
use payment_rollup.Crypto.{Primitives}
use payment_rollup.Account.{Address, Account, Digest}
use payment_rollup.Merkle.Path.{depth_limit, bit_at, common_prefix_len}
use payment_rollup.Merkle.Tree.{
  Slot, own, neighbor, MerkleProof, empty_subtree, leaf_hash, node_hash,
}

unfoldable pub check_neighbor : Address → Address → ℕ → Option (Unit {0})
check_neighbor address other depth =
    if not (bytes_eq other address) && leb depth (common_prefix_len address other)
    then some tt
    else none

module _ ⦃p : Primitives⦄ where
  -- The hash one level up, `current` on the side that `address` takes.
  unfoldable pub ascend : Address → ℕ → Digest → Digest → Digest
  ascend address level sibling current =
      if bit_at address level == 0 then node_hash current sibling else node_hash sibling current

  -- `for level in (depth..depth + count).rev()` over empty siblings.
  unfoldable pub lift_hash : Address → ℕ → ℕ → Digest → Digest
  lift_hash address depth zero current = current
  lift_hash address depth (suc count) current =
      lift_hash address depth count (ascend address (depth + count) empty_subtree current)

  unfoldable pub subtree_with_both : ℕ → Address → Account → Address → Account → Digest
  subtree_with_both depth address account other held =
      let split_depth = common_prefix_len address other in
      let own_hash = leaf_hash address account in
      let other_hash = leaf_hash other held in
      let current =
        if bit_at address split_depth == 0
        then node_hash own_hash other_hash
        else node_hash other_hash own_hash in
      lift_hash address depth (split_depth - depth) current

  -- `for level in (0..level).rev()` over the siblings.
  unfoldable pub climb : Address → List Digest → ℕ → Digest → Digest
  climb address siblings zero current = current
  climb address siblings (suc level) current =
      climb address siblings level
        (ascend address level (get_or siblings level empty_subtree) current)

  -- The `match` on the slot and the account, at the end of the path.
  unfoldable pub slot_hash : Address → Option Account → Slot → ℕ → Option Digest
  slot_hash address none own depth = some empty_subtree
  slot_hash address (some account) own depth = some (leaf_hash address account)
  slot_hash address none (neighbor other held) depth = elim (check_neighbor address other depth) [
    | none ↦ none
    | some _ ↦ some (leaf_hash other held)
  ]
  slot_hash address (some account) (neighbor other held) depth =
      elim (check_neighbor address other depth) [
        | none ↦ none
        | some _ ↦ some (subtree_with_both depth address account other held)
      ]

  unfoldable pub root_from_proof : Address → Option Account → MerkleProof → Option Digest
  root_from_proof address account proof =
      let depth = length proof.siblings in
      if ltb depth_limit depth then none else elim (slot_hash address account proof.slot depth) [
        | none ↦ none
        | some current ↦ some (climb address proof.siblings depth current)
      ]

  unfoldable pub verify_proof : Digest → Address → Option Account → MerkleProof → Bool
  verify_proof root address account proof = elim (root_from_proof address account proof) [
    | none ↦ false
    | some found ↦ bytes_eq found root
  ]
