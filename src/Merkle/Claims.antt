-- ===== src/Merkle/Claims.antt =====
-- The subtree that the end of a proof describes (crates/payment-rollup/src/merkle.rs,
-- `root_from_proof`).
use payment_rollup.Prelude.{
  ℕ, ◌+◌, ◌≤◌, ◌<◌, ◌≡◌, ◌≢◌, inl, inr, refl, sym, ap, ◌∙◌, Bool-cases, ◌==◌, Option, none, some,
  Option-cases, List, [], ◌∷◌, arith, length, leb, leb→le, if◌then◌else◌,
}
use mathlib.Core.Option.{some-injective}
use payment_rollup.Bytes.{Bytes, IsArray, bytes_eq_cases, bytes_ne}
use payment_rollup.Crypto.{Primitives}
use payment_rollup.Account.{Address, Account, IsAccount, Digest}
use payment_rollup.Codec.Sidecar.Fields.{IsSlot}
use payment_rollup.Merkle.Path.{bit_at, common_prefix_len, common_prefix_len_diverges}
use payment_rollup.Merkle.Tree.{Node, empty, leaf, MerkleProof, Slot, own, neighbor, hash, insert}
use payment_rollup.Merkle.Witness.{check_neighbor, slot_hash}
use payment_rollup.Merkle.Shape.{AllLeaves, Near, IsCanonical, lookup}
use payment_rollup.Merkle.Insert.{AllLeaves-insert, insert-IsCanonical, lookup-insert}
use payment_rollup.Merkle.Climb.{fold_path, subtree_with_both-split}
use payment_rollup.Merkle.Unique.{lookup_unique}
use payment_rollup.Merkle.Binding.{Hashes, node_message}

-- A tree whose accounts are within their types.
abbrev pub IsTypedTree : Node → Type 0
IsTypedTree t = AllLeaves (λ a x. IsAccount x) t

-- A neighbor that passes the check is another address that shares the path.
check_neighbor_lem :
    (a b : Address) (d : ℕ) → check_neighbor a b d ≡ some tt → (b ≢ a) × (d ≤ common_prefix_len a b)
unfolding check_neighbor
check_neighbor_lem a b d h = elim (bytes_eq_cases b a) [
  | inl (e, test) ↦ absurd (cc (h, test))
  | inr (e, test) ↦ elim (Bool-cases (leb d (common_prefix_len a b))) [
    | inl le ↦ (e, leb→le _ _ le)
    | inr gt ↦ absurd (cc (h, test, gt))
  ]
]

-- What the slot stands for without the account of the address: nothing, or the neighbor.
unfoldable pub rest_of : Slot → Node
rest_of own = empty
rest_of (neighbor b y) = leaf b y

module _ ⦃p : Primitives⦄ where
  -- A slot of an honest end of path: what it stands for beside the address.
  pub record Claim (a : Address) (slot : Slot) (d : ℕ) : Type 0 where
    pub shape : IsCanonical d (rest_of slot)
    pub near : Near a d (rest_of slot)
    pub typed : IsTypedTree (rest_of slot)
    pub vacant : lookup (rest_of slot) d a ≡ none
    pub keeps : slot_hash a none slot d ≡ some (hash (rest_of slot))
    pub writes :
        (x : Account) → slot_hash a (some x) slot d ≡ some (hash (insert (rest_of slot) d a x))

  own-Claim : (a : Address) (d : ℕ) → Claim a own d
  unfolding rest_of slot_hash hash insert lookup
  own-Claim a d = record {
    shape = tt;
    near = tt;
    typed = tt;
    vacant = refl;
    keeps = refl;
    writes = λ x. refl;
  }

  neighbor-Claim :
      (a b : Address) (y : Account) (d : ℕ)
      → IsArray 32 a
      → IsArray 32 b
      → IsAccount y
      → check_neighbor a b d ≡ some tt
      → Claim a (neighbor b y) d
  unfolding rest_of slot_hash insert lookup hash
  neighbor-Claim a b y d ha hb hy ok =
      let (other, near) = check_neighbor_lem a b d ok in
      let v = common_prefix_len_diverges a b ha hb (λ e. other (sym e)) in
      let same : (i : ℕ) → i < d → bit_at a i ≡ bit_at b i =
        λ i h. v.agree i (omega (arith, near)) in
      let apart = bytes_ne b a other in
      record {
        shape = hb;
        near = λ i h. sym (same i h);
        typed = hy;
        vacant = rw apart;
        keeps = rw (ok, slot_hash);
        writes = λ x.
            rw (ok, slot_hash)
              (rw apart
                (ap some (subtree_with_both-split a x b y d ha hb (λ e. other (sym e)) same)));
      }

  -- A slot that hashes at all passed its check.
  pub slot-Claim :
      (a : Address) (held : Option Account) (slot : Slot) (d : ℕ) {current : Digest}
      → IsArray 32 a
      → IsSlot slot
      → slot_hash a held slot d ≡ some current
      → Claim a slot d
  unfolding slot_hash
  slot-Claim a held own d ha hs h = own-Claim a d
  slot-Claim a none (neighbor b y) d ha hs h = elim (Option-cases (check_neighbor a b d)) [
    | inl e ↦ absurd (cc (rw (slot_hash, e) at h))
    | inr (_, e) ↦ neighbor-Claim a b y d ha hs.0 hs.1 e
  ]
  slot-Claim a (some x) (neighbor b y) d ha hs h = elim (Option-cases (check_neighbor a b d)) [
    | inl e ↦ absurd (cc (rw (slot_hash, e) at h))
    | inr (_, e) ↦ neighbor-Claim a b y d ha hs.0 hs.1 e
  ]

  module _ (a : Address) (ha : IsArray 32 a) where
    pub IsTypedTree-insert :
        (x : Account) (t : Node) (d : ℕ)
        → IsCanonical d t
        → IsAccount x
        → IsTypedTree t
        → IsTypedTree (insert t d a x)
    IsTypedTree-insert x t d k hx h = AllLeaves-insert a x ha (λ _ y. IsAccount y) t d k hx h

    -- The last of two writes to one account stands.
    pub insert-insert :
        (t : Node) (d : ℕ) (x y : Account)
        → IsCanonical d t
        → Near a d t
        → Near a d (insert t d a y)
        → insert (insert t d a y) d a x ≡ insert t d a x
    insert-insert t d x y k n m =
        let ky = insert-IsCanonical a y ha t d k n in
        lookup_unique (insert (insert t d a y) d a x) (insert t d a x) d
          (insert-IsCanonical a x ha (insert t d a y) d ky m) (insert-IsCanonical a x ha t d k n)
          (λ c.
            rw
              (
                lookup-insert a x ha (insert t d a y) d c ky m,
                lookup-insert a x ha t d c k n,
                lookup-insert a y ha t d c k n,
              )
              (elim (bytes_eq_cases a c) [ inl (e, test) ↦ rw test | inr (e, test) ↦ rw test ]))

    pub Near-insert :
        (t : Node) (d : ℕ) (x : Account) → IsCanonical d t → Near a d t → Near a d (insert t d a x)
    Near-insert t d x k n =
        AllLeaves-insert a x ha (λ b y. (i : ℕ) → i < d → bit_at b i ≡ bit_at a i) t d k
          (λ i h. refl) n

  -- The subtree that the slot and the account claimed for the address describe.
  unfoldable pub claimed : Address → Option Account → Slot → ℕ → Node
  claimed a none slot d = rest_of slot
  claimed a (some x) slot d = insert (rest_of slot) d a x

  unfoldable pub ascend_message : Address → ℕ → Digest → Digest → Bytes
  ascend_message a level sibling current =
      if bit_at a level == 0 then node_message current sibling else node_message sibling current

  -- `H` holds of every message that is hashed on the way up from `current`.
  abbrev pub PathHashes : (Bytes → Type 0) → Address → ℕ → List Digest → Digest → Type 0
  PathHashes H a d [] current = Unit
  PathHashes H a d (s ∷ ss) current =
      H (ascend_message a d s (fold_path a (d + 1) ss current)) × PathHashes H a (d + 1) ss current

  -- `H` holds of every message that is hashed to check a proof.
  abbrev pub ProofHashes : (Bytes → Type 0) → Address → Option Account → MerkleProof → Type 0
  ProofHashes H a held proof =
      let end = claimed a held proof.slot (length proof.siblings) in
      Hashes H end × PathHashes H a 0 proof.siblings (hash end)

  pub hash-claimed :
      (a : Address) (held : Option Account) (slot : Slot) (d : ℕ) {current : Digest}
      → IsArray 32 a
      → IsSlot slot
      → slot_hash a held slot d ≡ some current
      → hash (claimed a held slot d) ≡ current
  unfolding claimed
  hash-claimed a none slot d ha hs h =
      some-injective _ _ (sym (slot-Claim a none slot d ha hs h).keeps ∙ h)
  hash-claimed a (some x) slot d ha hs h =
      some-injective _ _ (sym ((slot-Claim a (some x) slot d ha hs h).writes x) ∙ h)
