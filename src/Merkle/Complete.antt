-- ===== src/Merkle/Complete.antt =====
-- A proof that the tree of crates/payment-rollup/src/merkle.rs hands out reproduces its root, and
-- the root that a write leads to.
use payment_rollup.Prelude.{
  ℕ, ◌+◌, ◌≤◌, ◌<◌, ◌≡◌, inl, inr, refl, sym, ◌∙◌, true, false, List, [], ◌∷◌, ◌++◌, append-nil,
  append_assoc, ap, Option, some, arith, ◌==◌, if◌then◌else◌, length, le→ltb,
}
use payment_rollup.Bytes.{IsArray, bytes_eq, bytes_eq_cases}
use payment_rollup.Crypto.{Primitives}
use payment_rollup.Account.{Address, Account, Digest}
use payment_rollup.Merkle.Path.{depth_limit, bit_at}
use payment_rollup.Merkle.Tree.{
  Node, empty, leaf, branch, MerkleProof, Slot, own, neighbor, hash, leaf_hash, node_hash, insert,
  prove, proof, root, update, empty_subtree,
}
use payment_rollup.Merkle.Witness.{ascend, subtree_with_both, climb, slot_hash, root_from_proof}
use payment_rollup.Merkle.Shape.{Near, IsCanonical, lookup, Near-side, bit_cases}
use payment_rollup.Merkle.Climb.{
  fold_path, climb-fold_path, subtree_with_both-split, check_neighbor-near,
}

pub Near-zero : (a : Address) (t : Node) → Near a 0 t
Near-zero a empty = tt
Near-zero a (leaf b y) = λ i h. absurd (omega arith)
Near-zero a (branch h l r) = (Near-zero a l, Near-zero a r)

module _ ⦃p : Primitives⦄ where
  unfoldable pub siblings_of : Node → ℕ → Address → List Digest
  siblings_of empty d a = []
  siblings_of (leaf b y) d a = []
  siblings_of (branch h l r) d a =
      if bit_at a d == 0 then hash r ∷ siblings_of l (d + 1) a else hash l ∷ siblings_of r (d + 1) a

  unfoldable pub slot_of : Node → ℕ → Address → Slot
  slot_of empty d a = own
  slot_of (leaf b y) d a = if bytes_eq b a then own else neighbor b y
  slot_of (branch h l r) d a = if bit_at a d == 0 then slot_of l (d + 1) a else slot_of r (d + 1) a

  prove_parts :
      (t : Node) (d : ℕ) (a : Address) (pre : List Digest)
      → prove t d a pre ≡ (pre ++ siblings_of t d a, slot_of t d a)
  unfolding prove siblings_of slot_of
  prove_parts empty d a pre = rw append-nil
  prove_parts (leaf b y) d a pre = rw append-nil
  prove_parts (branch h l r) d a pre = elim (bit_cases a d) [
    | inl (e, test) ↦ rw test (prove_parts l (d + 1) a (pre ++ hash r ∷ []) ∙ rw append_assoc)
    | inr (e, test) ↦ rw test (prove_parts r (d + 1) a (pre ++ hash l ∷ []) ∙ rw append_assoc)
  ]

  -- What the end of the path holds, before and after a write, hashes up to the subtree.
  abbrev pub Reaches : Address → Option Account → List Digest → Slot → ℕ → Digest → Type 0
  Reaches a account siblings slot d target =
      (current : Digest) × (slot_hash a account slot (d + length siblings) ≡ some current)
      × (fold_path a d siblings current ≡ target)

  module _ (a : Address) (account : Option Account) (ss : List Digest) (slot : Slot) (d : ℕ) where
    pub Reaches-left :
        (s target : Digest)
        → (bit_at a d == 0) ≡ true
        → Reaches a account ss slot (d + 1) target
        → Reaches a account (s ∷ ss) slot d (node_hash target s)
    unfolding fold_path ascend
    Reaches-left s target test (current, found, up) = (
      current,
      ap (slot_hash a account slot) (omega arith) ∙ found,
      rw test (ap (λ z. node_hash z s) up),
    )

    pub Reaches-right :
        (s target : Digest)
        → (bit_at a d == 0) ≡ false
        → Reaches a account ss slot (d + 1) target
        → Reaches a account (s ∷ ss) slot d (node_hash s target)
    unfolding fold_path ascend
    Reaches-right s target test (current, found, up) = (
      current,
      ap (slot_hash a account slot) (omega arith) ∙ found,
      rw test (ap (λ z. node_hash s z) up),
    )

  path_holds :
      (t : Node) (d : ℕ) (a : Address)
      → IsArray 32 a
      → IsCanonical d t
      → Near a d t
      → Reaches a (lookup t d a) (siblings_of t d a) (slot_of t d a) d (hash t)
  unfolding siblings_of slot_of hash lookup
  path_holds empty d a ha c n = (empty_subtree, unfold slot_hash in refl, unfold fold_path in refl)
  path_holds (leaf b y) d a ha c n = elim (bytes_eq_cases b a) [
    | inl (e, test) ↦ rw test (
      leaf_hash b y,
      unfold slot_hash in ap (λ z. some (leaf_hash z y)) (sym e),
      unfold fold_path in refl,
    )
    | inr (e, test) ↦
        let near =
          check_neighbor-near a y b y (d + 0) ha c (λ q. e (sym q))
            (λ i h. sym (n i (omega arith))) in
        rw test (leaf_hash b y, unfold slot_hash in rw (near, slot_hash), unfold fold_path in refl)
  ]
  path_holds (branch h l r) d a ha c n = elim (bit_cases a d) [
    | inl (e, test) ↦
        rw (test, c.1)
          (Reaches-left a (lookup l (d + 1) a) (siblings_of l (d + 1) a) (slot_of l (d + 1) a) d
            (hash r) (hash l) test (path_holds l (d + 1) a ha c.5 (Near-side a d 0 l n.0 c.2 e)))
    | inr (e, test) ↦
        rw (test, c.1)
          (Reaches-right a (lookup r (d + 1) a) (siblings_of r (d + 1) a) (slot_of r (d + 1) a) d
            (hash l) (hash r) test (path_holds r (d + 1) a ha c.6 (Near-side a d 1 r n.1 c.3 e)))
  ]

  path_writes :
      (t : Node) (d : ℕ) (a : Address) (x : Account)
      → IsArray 32 a
      → IsCanonical d t
      → Near a d t
      → Reaches a (some x) (siblings_of t d a) (slot_of t d a) d (hash (insert t d a x))
  unfolding siblings_of slot_of hash insert
  path_writes empty d a x ha c n =
      (leaf_hash a x, unfold slot_hash in refl, unfold fold_path in refl)
  path_writes (leaf b y) d a x ha c n = elim (bytes_eq_cases b a) [
    | inl (e, test) ↦ rw test (
      leaf_hash b x,
      unfold slot_hash in ap (λ z. some (leaf_hash z x)) (sym e),
      unfold fold_path in refl,
    )
    | inr (e, test) ↦
        let same : (i : ℕ) → i < d → bit_at a i ≡ bit_at b i = λ i h. sym (n i h) in
        let near =
          check_neighbor-near a x b y (d + 0) ha c (λ q. e (sym q)) (λ i h. same i (omega arith)) in
        rw test (
          subtree_with_both (d + 0) a x b y,
          unfold slot_hash in rw (near, slot_hash),
          unfold fold_path in
              ap (λ k. subtree_with_both k a x b y) (omega arith)
              ∙ subtree_with_both-split a x b y d ha c (λ q. e (sym q)) same,
        )
  ]
  path_writes (branch h l r) d a x ha c n = elim (bit_cases a d) [
    | inl (e, test) ↦ rw test (
        Reaches-left a (some x) (siblings_of l (d + 1) a) (slot_of l (d + 1) a) d (hash r) _ test
          (path_writes l (d + 1) a x ha c.5 (Near-side a d 0 l n.0 c.2 e)))
    | inr (e, test) ↦ rw test (
        Reaches-right a (some x) (siblings_of r (d + 1) a) (slot_of r (d + 1) a) d (hash l) _ test
          (path_writes r (d + 1) a x ha c.6 (Near-side a d 1 r n.1 c.3 e)))
  ]

  pub length-siblings_of :
      (t : Node) (d : ℕ) (a : Address)
      → IsCanonical d t
      → d ≤ depth_limit
      → d + length (siblings_of t d a) ≤ depth_limit
  unfolding siblings_of
  length-siblings_of empty d a c h = omega arith
  length-siblings_of (leaf b y) d a c h = omega arith
  length-siblings_of (branch g l r) d a c h = elim (bit_cases a d) [
    | inl (e, test) ↦
        rw test (omega (arith, length-siblings_of l (d + 1) a c.5 (omega (arith, c.0))))
    | inr (e, test) ↦
        rw test (omega (arith, length-siblings_of r (d + 1) a c.6 (omega (arith, c.0))))
  ]

  pub proof_parts :
      (t : Node) (a : Address)
      → proof t a ≡ record { siblings = siblings_of t 0 a; slot = slot_of t 0 a }
  unfolding proof
  proof_parts t a =
      ap {B = MerkleProof} (λ (r : List Digest × Slot). record { siblings = r.0; slot = r.1 })
        (prove_parts t 0 a [])

  root_from_parts :
      (a : Address) (account : Option Account) (ss : List Digest) (slot : Slot) (current : Digest)
      → length ss ≤ depth_limit
      → slot_hash a account slot (length ss) ≡ some current
      → root_from_proof a account (record { siblings = ss; slot = slot })
        ≡ some (climb a ss (length ss) current)
  unfolding root_from_proof
  root_from_parts a account ss slot current h e =
      rw (le→ltb depth_limit (length ss) h) (rw (e, root_from_proof))

  pub climb_from_top :
      (a : Address) (ss : List Digest) (current : Digest)
      → climb a ss (length ss) current ≡ fold_path a 0 ss current
  unfolding climb
  climb_from_top a ss current =
      let zero_add : length ss ≡ 0 + length ss = omega arith in
      ap (λ k. climb a ss k current) zero_add ∙ climb-fold_path a [] ss current

  pub root_from_proof-Reaches :
      (a : Address) (account : Option Account) (ss : List Digest) (slot : Slot) (target : Digest)
      → length ss ≤ depth_limit
      → Reaches a account ss slot 0 target
      → root_from_proof a account (record { siblings = ss; slot = slot }) ≡ some target
  root_from_proof-Reaches a account ss slot target shallow (current, found, up) =
      root_from_parts a account ss slot current shallow
        (ap (slot_hash a account slot) (omega arith) ∙ found)
      ∙ ap some (climb_from_top a ss current ∙ up)

  module _ (t : Node) (a : Address) (ha : IsArray 32 a) (c : IsCanonical 0 t) where
    Reaches-root :
        (account : Option Account) (target : Digest)
        → Reaches a account (siblings_of t 0 a) (slot_of t 0 a) 0 target
        → root_from_proof a account (proof t a) ≡ some target
    Reaches-root account target reaches =
        ap (root_from_proof a account) (proof_parts t a)
        ∙ root_from_proof-Reaches a account (siblings_of t 0 a) (slot_of t 0 a) target
            (omega (arith, length-siblings_of t 0 a c (omega arith))) reaches

    -- For a canonical tree and an address of 32 bytes, the proof of the address, with whatever
    -- account the tree holds there, implies the root of the tree.
    pub root_from_proof-proof : root_from_proof a (lookup t 0 a) (proof t a) ≡ some (root t)
    unfolding root
    root_from_proof-proof = Reaches-root _ _ (path_holds t 0 a ha c (Near-zero a t))

    -- For a canonical tree and an address of 32 bytes, the proof of the address, with another
    -- account put there, implies the root of the tree updated with that account.
    pub root_from_proof-update :
        (x : Account) → root_from_proof a (some x) (proof t a) ≡ some (root (update t a (some x)))
    unfolding root update
    root_from_proof-update x = Reaches-root _ _ (path_writes t 0 a x ha c (Near-zero a t))
