-- ===== src/Merkle/Digests.antt =====
-- The roots of crates/payment-rollup/src/merkle.rs are 32 bytes long.
use payment_rollup.Prelude.{
  sym, ℕ, zero, suc, ◌+◌, ◌≡◌, refl, subst, ◌==◌, Bool, true, false, Option, none, some,
  Option-cases, Bool-cases, inl, inr, ltb, List, length, get_or, if◌then◌else◌,
}
use mathlib.Core.Option.{some-injective}
use payment_rollup.Crypto.{Primitives}
use payment_rollup.Account.{Address, Account, Digest}
use payment_rollup.Merkle.Path.{depth_limit, bit_at, common_prefix_len}
use payment_rollup.Merkle.Tree.{
  Node, empty, leaf, branch, hash, Slot, own, neighbor, MerkleProof, empty_subtree, leaf_hash,
  node_hash,
}
use payment_rollup.Merkle.Shape.{IsCanonical}
use payment_rollup.Merkle.Witness.{
  check_neighbor, ascend, lift_hash, subtree_with_both, climb, slot_hash, root_from_proof,
}

abbrev pub IsDigest : Digest → Type 0
IsDigest d = length d ≡ 32

module _ ⦃p : Primitives⦄ where
  pub node_hash-IsDigest : (l r : Digest) → IsDigest (node_hash l r)
  unfolding node_hash
  node_hash-IsDigest l r = (p.digest_shape _).0

  pub leaf_hash-IsDigest : (a : Address) (held : Account) → IsDigest (leaf_hash a held)
  unfolding leaf_hash
  leaf_hash-IsDigest a held = (p.digest_shape _).0

  either-IsDigest :
      (b : Bool) (x y : Digest) → IsDigest x → IsDigest y → IsDigest (if b then x else y)
  either-IsDigest true x y hx hy = hx
  either-IsDigest false x y hx hy = hy

  pub ascend-IsDigest :
      (a : Address) (level : ℕ) (sibling current : Digest)
      → IsDigest (ascend a level sibling current)
  unfolding ascend
  ascend-IsDigest a level sibling current =
      either-IsDigest (bit_at a level == 0) _ _ (node_hash-IsDigest current sibling)
        (node_hash-IsDigest sibling current)

  lift_hash-IsDigest :
      (a : Address) (depth count : ℕ) (current : Digest)
      → IsDigest current
      → IsDigest (lift_hash a depth count current)
  unfolding lift_hash
  lift_hash-IsDigest a depth zero current h = h
  lift_hash-IsDigest a depth (suc count) current h =
      lift_hash-IsDigest a depth count _ (ascend-IsDigest a (depth + count) empty_subtree current)

  subtree_with_both-IsDigest :
      (depth : ℕ) (a : Address) (x : Account) (b : Address) (y : Account)
      → IsDigest (subtree_with_both depth a x b y)
  unfolding subtree_with_both
  subtree_with_both-IsDigest depth a x b y = lift_hash-IsDigest a depth _ _ (
      either-IsDigest (bit_at a (common_prefix_len a b) == 0) _ _
        (node_hash-IsDigest (leaf_hash a x) (leaf_hash b y))
        (node_hash-IsDigest (leaf_hash b y) (leaf_hash a x)))

  climb-IsDigest :
      (a : Address) (siblings : List Digest) (level : ℕ) (current : Digest)
      → IsDigest current
      → IsDigest (climb a siblings level current)
  unfolding climb
  climb-IsDigest a siblings zero current h = h
  climb-IsDigest a siblings (suc level) current h =
      climb-IsDigest a siblings level _
        (ascend-IsDigest a level (get_or siblings level empty_subtree) current)

  pub slot_hash-IsDigest :
      (a : Address) (held : Option Account) (slot : Slot) (depth : ℕ) {d : Digest}
      → slot_hash a held slot depth ≡ some d
      → IsDigest d
  unfolding slot_hash empty_subtree
  slot_hash-IsDigest a none own depth h = subst IsDigest (some-injective _ _ h) refl
  slot_hash-IsDigest a (some x) own depth h =
      subst IsDigest (some-injective _ _ h) (leaf_hash-IsDigest a x)
  slot_hash-IsDigest a none (neighbor b y) depth h =
      elim (Option-cases (check_neighbor a b depth)) [
        | inl e ↦ absurd (cc (rw (slot_hash, e) at h))
        | inr (_, e) ↦
            subst IsDigest (some-injective _ _ (rw (slot_hash, e) at h)) (leaf_hash-IsDigest b y)
      ]
  slot_hash-IsDigest a (some x) (neighbor b y) depth h =
      elim (Option-cases (check_neighbor a b depth)) [
        | inl e ↦ absurd (cc (rw (slot_hash, e) at h))
        | inr (_, e) ↦
            subst IsDigest (some-injective _ _ (rw (slot_hash, e) at h))
              (subtree_with_both-IsDigest depth a x b y)
      ]

  -- Whatever a proof implies is 32 bytes long, also when the proof's siblings are not.
  pub root_from_proof-IsDigest :
      (a : Address) (held : Option Account) (proof : MerkleProof) {root : Digest}
      → root_from_proof a held proof ≡ some root
      → IsDigest root
  unfolding root_from_proof
  root_from_proof-IsDigest a held proof h =
      elim (Bool-cases (ltb depth_limit (length proof.siblings))) [
        | inl deep ↦ absurd (cc (rw deep at h))
        | inr fits ↦
            let h₁ = rw fits at h in
            elim (Option-cases (slot_hash a held proof.slot (length proof.siblings))) [
              | inl e ↦ absurd (cc (rw e at h₁))
              | inr (current, e) ↦ subst IsDigest (some-injective _ _ (rw e at h₁)) (
                  climb-IsDigest a proof.siblings _ current
                    (slot_hash-IsDigest a held proof.slot _ e))
            ]
      ]

  -- The hash of a canonical tree.
  pub hash-IsDigest : (t : Node) (d : ℕ) → IsCanonical d t → IsDigest (hash t)
  unfolding hash empty_subtree
  hash-IsDigest empty d c = refl
  hash-IsDigest (leaf a x) d c = leaf_hash-IsDigest a x
  hash-IsDigest (branch g l r) d c = subst IsDigest (sym c.1) (node_hash-IsDigest (hash l) (hash r))
