-- ===== src/Merkle/Sound.antt =====
-- What a proof convinces of: the verifying side of crates/payment-rollup/src/merkle.rs accepts no
-- proof of an account that the tree does not hold, and derives no root but the tree's.
mod Level
use payment_rollup.Prelude.{
  ℕ, ◌+◌, ◌≡◌, ◌⊎◌, inl, inr, sym, ap, ◌∙◌, subst, Bool-cases, true, false, ◌==◌, Option, none,
  some, Option-cases, List, [], ◌∷◌, All, arith, length, ltb,
}
use mathlib.Core.Option.{some-injective}
use payment_rollup.Bytes.{Bytes, IsArray, bytes_eq_refl}
use payment_rollup.Crypto.{Primitives}
use payment_rollup.Account.{Address, Account, Digest}
use payment_rollup.Codec.Sidecar.Fields.{IsOptionalAccount, IsSlot}
use payment_rollup.Merkle.Path.{depth_limit, bit_at}
use payment_rollup.Merkle.Tree.{
  Node, empty, leaf, branch, MerkleProof, Slot, hash, node_hash, insert, root, update,
}
use payment_rollup.Merkle.Witness.{ascend, slot_hash, root_from_proof}
use payment_rollup.Merkle.Shape.{IsCanonical, lookup, bit_cases}
use payment_rollup.Merkle.Insert.{insert-IsCanonical, lookup-insert}
use payment_rollup.Merkle.Climb.{fold_path}
use payment_rollup.Merkle.Complete.{
  Reaches, Reaches-left, Reaches-right, climb_from_top, root_from_proof-Reaches,
}
use payment_rollup.Merkle.Digests.{IsDigest, hash-IsDigest, ascend-IsDigest, slot_hash-IsDigest}
use payment_rollup.Merkle.Binding.{
  Broken, Hashes, node_message, leaf_message, hash-injective, node_hash-injective,
  leaf_hash-ne-node_hash, node_hash-ne-empty,
}
use payment_rollup.Merkle.Claims.{
  IsTypedTree, rest_of, claimed, hash-claimed, ascend_message, PathHashes, ProofHashes, slot-Claim,
  IsTypedTree-insert, insert-insert, Near-insert,
}
use payment_rollup.Merkle.Sound.Level.{
  Agrees, end-Agrees, fold_path-IsDigest, left-Agrees, right-Agrees, ascend_cases, ascend-ne-empty,
  ascend-ne-leaf,
}

module _ ⦃p : Primitives⦄ (H : Bytes → Type 0) where
  module _ (a : Address) (ha : IsArray 32 a) where
    module _ (held : Option Account) (slot : Slot) (hh : IsOptionalAccount held)
        (hs : IsSlot slot) where
      path-Agrees :
          (ss : List Digest) (t : Node) (d : ℕ) {current : Digest}
          → All IsDigest ss
          → IsCanonical d t
          → IsTypedTree t
          → Hashes H t
          → Hashes H (claimed a held slot (d + length ss))
          → PathHashes H a d ss current
          → slot_hash a held slot (d + length ss) ≡ some current
          → fold_path a d ss current ≡ hash t
          → Broken H ⊎ Agrees H a ha held ss slot t d
      unfolding fold_path hash
      path-Agrees [] t d digests k f ht hc hp found e =
          end-Agrees H a ha held slot t d hh hs k f ht
            (subst (λ n. Hashes H (claimed a held slot n)) (omega arith) hc)
            (ap (slot_hash a held slot) (omega arith) ∙ found) e
      path-Agrees (s ∷ ss) empty d digests k f ht hc hp found e =
          inl (ascend-ne-empty H a ha d s _ hp.0 e)
      path-Agrees (s ∷ ss) (leaf b y) d digests k f ht hc hp found e =
          inl (ascend-ne-leaf H a ha d s _ b y hp.0 ht e)
      path-Agrees (s ∷ ss) (branch h l r) d {current = current} digests k f ht hc hp found e =
          let found' : slot_hash a held slot (d + 1 + length ss) ≡ some current =
            ap (slot_hash a held slot) (omega arith) ∙ found in
          let deeper : d + length (s ∷ ss) ≡ d + 1 + length ss = omega arith in
          let hc' = subst (λ n. Hashes H (claimed a held slot n)) deeper hc in
          let below = fold_path a (d + 1) ss current in
          let digest =
            fold_path-IsDigest H a ha (d + 1) ss current
              (slot_hash-IsDigest a held slot (d + 1 + length ss) found') in
          elim (ascend_cases H a ha d s below) [
            | inl (test, up, on) ↦
                elim (node_hash-injective below s (hash l) (hash r) (on hp.0) ht.0 digest
                  (hash-IsDigest l (d + 1) k.5) (sym up ∙ e ∙ k.1)) [
                    | inl broken ↦ inl broken
                    | inr (el, er) ↦
                        elim (path-Agrees ss l (d + 1) digests.1 k.5 f.0 ht.1 hc' hp.1 found' el) [
                          | inl broken ↦ inl broken
                          | inr below_agrees ↦
                              inr (left-Agrees H a ha held s ss slot h l r d test er below_agrees)
                        ]
                  ]
            | inr (test, up, on) ↦
                elim (node_hash-injective s below (hash l) (hash r) (on hp.0) ht.0 digests.0
                  (hash-IsDigest l (d + 1) k.5) (sym up ∙ e ∙ k.1)) [
                    | inl broken ↦ inl broken
                    | inr (el, er) ↦
                        elim (path-Agrees ss r (d + 1) digests.1 k.6 f.1 ht.2 hc' hp.1 found' er) [
                          | inl broken ↦ inl broken
                          | inr below_agrees ↦
                              inr (right-Agrees H a ha held s ss slot h l r d test el below_agrees)
                        ]
                  ]
          ]

    -- An address of 32 bytes, a canonical tree whose accounts are within their types, and a proof
    -- whose siblings are digests and whose neighbor, as the account claimed, is within its type: when
    -- the account claimed and the proof imply the root of the tree, then the tree holds just that
    -- account at the address, and with any other account put there the proof implies the root of the
    -- tree so updated; or else, among the messages hashed to build the tree and to check the proof
    -- (`H` is any property that these have), there are two messages of one digest, or one whose
    -- digest is all zeros.
    pub root_from_proof_sound :
        (t : Node) (held : Option Account) (proof : MerkleProof)
        → IsCanonical 0 t
        → IsTypedTree t
        → IsOptionalAccount held
        → IsSlot proof.slot
        → All IsDigest proof.siblings
        → Hashes H t
        → ProofHashes H a held proof
        → root_from_proof a held proof ≡ some (root t)
        → Broken H
          ⊎ ((lookup t 0 a ≡ held)
              × ((x : Account)
                  → root_from_proof a (some x) proof ≡ some (root (update t a (some x)))))
    unfolding root_from_proof root update
    root_from_proof_sound t held proof k f hh hs digests ht hp accepted =
        let ss = proof.siblings in
        let zero_add : length ss ≡ 0 + length ss = omega arith in
        elim (Bool-cases (ltb depth_limit (length ss))) [
          | inl deep ↦ absurd (cc (rw deep at accepted))
          | inr fits ↦
              let accepted₁ = rw fits at accepted in
              elim (Option-cases (slot_hash a held proof.slot (length ss))) [
                | inl e ↦ absurd (cc (rw e at accepted₁))
                | inr (current, found) ↦
                    elim (path-Agrees held proof.slot hh hs ss t 0 digests k f ht
                      (subst (λ n. Hashes H (claimed a held proof.slot n)) zero_add hp.0)
                      (subst (PathHashes H a 0 ss)
                        (hash-claimed a held proof.slot (length ss) ha hs found) hp.1)
                      (ap (slot_hash a held proof.slot) (omega arith) ∙ found)
                      (sym (climb_from_top a ss current)
                        ∙ some-injective _ _ (rw found at accepted₁))) [
                          | inl broken ↦ inl broken
                          | inr (here, writes) ↦ inr (
                            here,
                            λ x.
                                root_from_proof-Reaches a (some x) ss proof.slot _
                                  (ground (arith, fits)) (writes x),
                          )
                        ]
              ]
        ]
