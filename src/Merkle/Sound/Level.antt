-- ===== src/Merkle/Sound/Level.antt =====
-- What one level of a proof that crates/payment-rollup/src/merkle.rs accepts says of a subtree.
use payment_rollup.Prelude.{
  ℕ, ◌+◌, ◌≡◌, ◌⊎◌, inl, inr, sym, ap, ◌∙◌, subst, true, false, ◌==◌, Option, none, some, List, [],
  ◌∷◌, arith,
}
use mathlib.Core.Option.{some-injective}
use payment_rollup.Bytes.{Bytes, IsArray, bytes_eq_refl}
use payment_rollup.Crypto.{Primitives}
use payment_rollup.Account.{Address, Account, Digest}
use payment_rollup.Codec.Sidecar.Fields.{IsOptionalAccount, IsSlot}
use payment_rollup.Merkle.Path.{bit_at}
use payment_rollup.Merkle.Tree.{Node, empty, leaf, branch, Slot, hash, node_hash, insert}
use payment_rollup.Merkle.Witness.{ascend, slot_hash}
use payment_rollup.Merkle.Shape.{IsCanonical, lookup, bit_cases}
use payment_rollup.Merkle.Insert.{insert-IsCanonical, lookup-insert}
use payment_rollup.Merkle.Climb.{fold_path}
use payment_rollup.Merkle.Complete.{Reaches, Reaches-left, Reaches-right}
use payment_rollup.Merkle.Digests.{IsDigest, ascend-IsDigest}
use payment_rollup.Merkle.Binding.{
  Broken, Hashes, node_message, leaf_message, hash-injective, leaf_hash-ne-node_hash,
  node_hash-ne-empty,
}
use payment_rollup.Merkle.Claims.{
  IsTypedTree, rest_of, claimed, ascend_message, slot-Claim, IsTypedTree-insert, insert-insert,
  Near-insert,
}

module _ ⦃p : Primitives⦄ (H : Bytes → Type 0) where
  module _ (a : Address) (ha : IsArray 32 a) where
    -- What a proof says of a subtree: it holds what was claimed, and a write reaches its new hash.
    abbrev pub Agrees : Option Account → List Digest → Slot → Node → ℕ → Type 0
    Agrees held ss slot t d =
        (lookup t d a ≡ held)
        × ((x : Account) → Reaches a (some x) ss slot d (hash (insert t d a x)))

    -- The end of the path describes a subtree, and its hash has no other.
    pub end-Agrees :
        (held : Option Account) (slot : Slot) (t : Node) (d : ℕ) {current : Digest}
        → IsOptionalAccount held
        → IsSlot slot
        → IsCanonical d t
        → IsTypedTree t
        → Hashes H t
        → Hashes H (claimed a held slot d)
        → slot_hash a held slot d ≡ some current
        → current ≡ hash t
        → Broken H ⊎ Agrees held [] slot t d
    unfolding fold_path claimed
    end-Agrees none slot t d hh hs k f ht hc found e =
        let c = slot-Claim a none slot d ha hs found in
        let same : hash (rest_of slot) ≡ hash t = some-injective _ _ (sym c.keeps ∙ found) ∙ e in
        elim (hash-injective (rest_of slot) t d c.shape k c.typed f hc ht same) [
          | inl broken ↦ inl broken
          | inr here ↦ inr (
            subst (λ u. lookup u d a ≡ none) here c.vacant,
            λ x. (
              _,
              ap (slot_hash a (some x) slot) (omega arith) ∙ c.writes x,
              ap (λ u. hash (insert u d a x)) here,
            ),
          )
        ]
    end-Agrees (some y) slot t d hh hs k f ht hc found e =
        let c = slot-Claim a (some y) slot d ha hs found in
        let v = insert (rest_of slot) d a y in
        let kv = insert-IsCanonical a y ha (rest_of slot) d c.shape c.near in
        let same : hash v ≡ hash t = some-injective _ _ (sym (c.writes y) ∙ found) ∙ e in
        elim (hash-injective v t d kv k
          (IsTypedTree-insert a ha y (rest_of slot) d c.shape hh c.typed) f hc ht same) [
            | inl broken ↦ inl broken
            | inr here ↦ inr (
              subst (λ u. lookup u d a ≡ some y) here
                  (lookup-insert a y ha (rest_of slot) d a c.shape c.near ∙ rw (bytes_eq_refl a)),
              λ x. (
                _,
                ap (slot_hash a (some x) slot) (omega arith) ∙ c.writes x,
                ap hash (
                    sym (
                      insert-insert a ha (rest_of slot) d x y c.shape c.near
                        (Near-insert a ha (rest_of slot) d y c.shape c.near))
                    ∙ ap (λ u. insert u d a x) here),
              ),
            )
          ]

    pub fold_path-IsDigest :
        (d : ℕ) (ss : List Digest) (current : Digest)
        → IsDigest current
        → IsDigest (fold_path a d ss current)
    unfolding fold_path
    fold_path-IsDigest d [] current h = h
    fold_path-IsDigest d (s ∷ ss) current h = ascend-IsDigest a d s (fold_path a (d + 1) ss current)

    -- One step up the path: a branch hashes to what a sibling and the path below it hash to, and to
    -- nothing else.
    pub left-Agrees :
        (held : Option Account) (s : Digest) (ss : List Digest) (slot : Slot) (h : Digest)
        (l r : Node) (d : ℕ)
        → (bit_at a d == 0) ≡ true
        → s ≡ hash r
        → Agrees held ss slot l (d + 1)
        → Agrees held (s ∷ ss) slot (branch h l r) d
    unfolding lookup insert hash
    left-Agrees held s ss slot h l r d test es (found, writes) = rw test (
      found,
      λ x.
          let up =
            Reaches-left a (some x) ss slot d s (hash (insert l (d + 1) a x)) test (writes x) in
          subst
            (λ z. Reaches a (some x) (s ∷ ss) slot d (node_hash (hash (insert l (d + 1) a x)) z)) es
            up,
    )

    pub right-Agrees :
        (held : Option Account) (s : Digest) (ss : List Digest) (slot : Slot) (h : Digest)
        (l r : Node) (d : ℕ)
        → (bit_at a d == 0) ≡ false
        → s ≡ hash l
        → Agrees held ss slot r (d + 1)
        → Agrees held (s ∷ ss) slot (branch h l r) d
    unfolding lookup insert hash
    right-Agrees held s ss slot h l r d test es (found, writes) = rw test (
      found,
      λ x.
          let up =
            Reaches-right a (some x) ss slot d s (hash (insert r (d + 1) a x)) test (writes x) in
          subst
            (λ z. Reaches a (some x) (s ∷ ss) slot d (node_hash z (hash (insert r (d + 1) a x)))) es
            up,
    )

    pub ascend_cases :
        (d : ℕ) (s below : Digest)
        → ((bit_at a d == 0) ≡ true)
            × (ascend a d s below ≡ node_hash below s)
            × (H (ascend_message a d s below) → H (node_message below s))
          ⊎ ((bit_at a d == 0) ≡ false)
            × (ascend a d s below ≡ node_hash s below)
            × (H (ascend_message a d s below) → H (node_message s below))
    unfolding ascend ascend_message
    ascend_cases d s below = elim (bit_cases a d) [
      | inl (_, test) ↦ inl (test, rw test, λ q. rw test at q)
      | inr (_, test) ↦ inr (test, rw test, λ q. rw test at q)
    ]

    pub ascend-ne-empty :
        (d : ℕ) (s below : Digest)
        → H (ascend_message a d s below)
        → ascend a d s below ≡ hash empty
        → Broken H
    unfolding hash
    ascend-ne-empty d s below hm e = elim (ascend_cases d s below) [
      | inl (_, up, on) ↦ node_hash-ne-empty below s (on hm) (sym up ∙ e)
      | inr (_, up, on) ↦ node_hash-ne-empty s below (on hm) (sym up ∙ e)
    ]

    pub ascend-ne-leaf :
        (d : ℕ) (s below : Digest) (b : Address) (y : Account)
        → H (ascend_message a d s below)
        → H (leaf_message b y)
        → ascend a d s below ≡ hash (leaf b y)
        → Broken H
    unfolding hash
    ascend-ne-leaf d s below b y hm hn e = elim (ascend_cases d s below) [
      | inl (_, up, on) ↦ leaf_hash-ne-node_hash b y below s hn (on hm) (sym e ∙ up)
      | inr (_, up, on) ↦ leaf_hash-ne-node_hash b y s below hn (on hm) (sym e ∙ up)
    ]
