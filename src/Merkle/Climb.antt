-- ===== src/Merkle/Climb.antt =====
-- Hashing up a path, and the subtree that a written account shares with its neighbor
-- (crates/payment-rollup/src/merkle.rs, `root_from_proof` and `subtree_with_both`).
use payment_rollup.Prelude.{
  ℕ, zero, suc, ◌+◌, ◌-◌, ◌<◌, ◌≡◌, ◌≢◌, inl, inr, refl, sym, ◌∙◌, List, [], ◌∷◌, ◌++◌,
  append_assoc, ap, some, arith, ◌==◌, if◌then◌else◌, length, length-append, get_or-append, le→leb,
}
use payment_rollup.Bytes.{IsArray, bytes_ne}
use payment_rollup.Crypto.{Primitives}
use payment_rollup.Account.{Address, Account, Digest}
use payment_rollup.Merkle.Path.{
  bit_at, common_prefix_len, common_prefix_len_diverges, common_prefix_len_comm, Diverge-le,
}
use payment_rollup.Merkle.Tree.{
  Node, leaf, hash, leaf_hash, node_hash, join, lift, lift_loop, split, empty_subtree,
}
use payment_rollup.Merkle.Witness.{check_neighbor, ascend, lift_hash, subtree_with_both, climb}
use payment_rollup.Merkle.Shape.{bit_cases}

module _ ⦃p : Primitives⦄ where
  -- The hash at depth `d` of a path that ends in `current`, from the top down.
  unfoldable pub fold_path : Address → ℕ → List Digest → Digest → Digest
  fold_path a d [] current = current
  fold_path a d (s ∷ ss) current = ascend a d s (fold_path a (d + 1) ss current)

  climb_step :
      (a : Address) (pre ss : List Digest) (s current : Digest)
      → climb a (pre ++ s ∷ ss) (suc (length pre)) current
        ≡ climb a (pre ++ s ∷ ss) (length pre) (ascend a (length pre) s current)
  unfolding climb
  climb_step a pre ss s current =
      ap (λ z. climb a (pre ++ s ∷ ss) (length pre) (ascend a (length pre) z current))
        (get_or-append pre ss s empty_subtree)

  pub climb-fold_path :
      (a : Address) (pre ss : List Digest) (current : Digest)
      → climb a (pre ++ ss) (length pre + length ss) current
        ≡ climb a (pre ++ ss) (length pre) (fold_path a (length pre) ss current)
  unfolding fold_path
  climb-fold_path a pre [] current = ap (λ k. climb a (pre ++ []) k current) (omega arith)
  climb-fold_path a pre (s ∷ ss) current =
      let grow : (pre ++ s ∷ []) ++ ss ≡ pre ++ s ∷ ss = append_assoc pre (s ∷ []) ss in
      let len : length (pre ++ s ∷ []) ≡ suc (length pre) =
        omega (arith, length-append pre (s ∷ [])) in
      let ih = rw (grow, len) at (climb-fold_path a (pre ++ s ∷ []) ss current) in
      ap (λ k. climb a (pre ++ s ∷ ss) k current) (omega arith)
      ∙ ih
      ∙ climb_step a pre ss s (fold_path a (suc (length pre)) ss current)
      ∙ ap
          (λ k.
            climb a (pre ++ s ∷ ss) (length pre)
              (ascend a (length pre) s (fold_path a k ss current)))
          (omega arith)

  ascend-lift :
      (a b : Address) (k : ℕ) (t : Node)
      → bit_at a k ≡ bit_at b k
      → ascend a k empty_subtree (hash t) ≡ hash (lift b k t)
  unfolding ascend lift hash
  ascend-lift a b k t e = elim (bit_cases b k) [
    | inl (_, test) ↦ rw (e, test)
    | inr (_, test) ↦ rw (e, test)
  ]

  hash-lift_loop :
      (a b : Address) (d count : ℕ) (t : Node)
      → ((i : ℕ) → i < d + count → bit_at a i ≡ bit_at b i)
      → lift_hash a d count (hash t) ≡ hash (lift_loop b d count t)
  unfolding lift_hash lift_loop
  hash-lift_loop a b d zero t same = refl
  hash-lift_loop a b d (suc count) t same =
      ap (lift_hash a d count) (ascend-lift a b (d + count) t (same (d + count) (omega arith)))
      ∙ hash-lift_loop a b d count (lift b (d + count) t) (λ i h. same i (omega arith))

  module _ (a : Address) (x : Account) (b : Address) (y : Account) where
    pair_hash : ℕ → Digest
    pair_hash s =
        if bit_at a s == 0
        then node_hash (leaf_hash a x) (leaf_hash b y)
        else node_hash (leaf_hash b y) (leaf_hash a x)

    pair_node : ℕ → Node
    pair_node s = if bit_at b s == 0 then join (leaf b y) (leaf a x) else join (leaf a x) (leaf b y)

    pair_hash-pair_node : (s : ℕ) → bit_at a s ≢ bit_at b s → pair_hash s ≡ hash (pair_node s)
    unfolding pair_hash pair_node hash join
    pair_hash-pair_node s ne = elim (bit_cases a s) [
      | inl (e, test) ↦ elim (bit_cases b s) [
        | inl (f, _) ↦ absurd (ne (e ∙ sym f))
        | inr (f, test') ↦ rw (test, test')
      ]
      | inr (e, test) ↦ elim (bit_cases b s) [
        | inl (f, test') ↦ rw (test, test')
        | inr (f, _) ↦ absurd (ne (e ∙ sym f))
      ]
    ]

    -- Both sides push the neighbor down to the same subtree.
    pub subtree_with_both-split :
        (d : ℕ)
        → IsArray 32 a
        → IsArray 32 b
        → a ≢ b
        → ((i : ℕ) → i < d → bit_at a i ≡ bit_at b i)
        → subtree_with_both d a x b y ≡ hash (split d b y a x)
    unfolding subtree_with_both split pair_hash pair_node
    subtree_with_both-split d ha hb ne same =
        let s = common_prefix_len a b in
        let v = common_prefix_len_diverges a b ha hb ne in
        let climbs : d + (s - d) ≡ s = omega (arith, Diverge-le a b s d v same) in
        ap (lift_hash a d (s - d)) (pair_hash-pair_node s v.differ)
        ∙ hash-lift_loop a b d (s - d) (pair_node s) (λ i h. v.agree i (omega (arith, climbs)))
        ∙ ap (λ k. hash (lift_loop b d (k - d) (pair_node k))) (common_prefix_len_comm a b ha hb ne)

    pub check_neighbor-near :
        (d : ℕ)
        → IsArray 32 a
        → IsArray 32 b
        → a ≢ b
        → ((i : ℕ) → i < d → bit_at a i ≡ bit_at b i)
        → check_neighbor a b d ≡ some tt
    unfolding check_neighbor
    check_neighbor-near d ha hb ne same =
        let v = common_prefix_len_diverges a b ha hb ne in
        rw (
          bytes_ne b a (λ e. ne (sym e)),
          le→leb d (common_prefix_len a b) (Diverge-le a b _ d v same),
        )
