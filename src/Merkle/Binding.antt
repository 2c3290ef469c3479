-- ===== src/Merkle/Binding.antt =====
-- What a root commits to: two trees of one root are the same tree, unless SHA-256 is broken
-- (crates/payment-rollup/src/merkle.rs, `leaf_hash` and `node_hash`).
use payment_rollup.Prelude.{
  ℕ, ◌+◌, ◌≡◌, ◌≢◌, refl, sym, ap, ◌∙◌, inl, inr, ◌⊎◌, ◌++◌, arith, drop, get_or,
}
use payment_rollup.Bytes.{append-injective, Bytes, ascii, IsArray, bytes_eq_cases}
use payment_rollup.Crypto.{Primitives, sha256}
use payment_rollup.Account
use payment_rollup.Account.{Address, Account, IsAccount, Digest, zeros32}
use payment_rollup.Codec.Fields.{decode-encode_account}
use payment_rollup.Merkle.Tree.{
  Node, empty, leaf, branch, hash, empty_subtree, leaf_hash, node_hash,
}
use payment_rollup.Merkle.Shape.{AllLeaves, IsCanonical}
use payment_rollup.Merkle.Digests.{IsDigest, hash-IsDigest}

unfoldable pub leaf_message : Address → Account → Bytes
leaf_message a x = ascii "LEAF" ++ (a ++ Account.encode x)

unfoldable pub node_message : Digest → Digest → Bytes
node_message l r = ascii "NODE" ++ (l ++ r)

-- What nobody is to find: among the messages that `H` holds of, two of one digest, or one whose
-- digest is all zeros.
pub data Broken ⦃p : Primitives⦄ (H : Bytes → Type 0) : Type 0 where
  collision : (m n : Bytes) → H m → H n → m ≢ n → sha256 m ≡ sha256 n → Broken H
  zero_preimage : (m : Bytes) → H m → sha256 m ≡ zeros32 → Broken H

leaf_message-ne-node_message :
    (a : Address) (x : Account) (l r : Digest) → leaf_message a x ≢ node_message l r
unfolding leaf_message node_message
leaf_message-ne-node_message a x l r q =
    let first : 76 ≡ 78 = ap (λ z. get_or z 0 0) q in omega (arith, first)

module _ ⦃p : Primitives⦄ where
  -- `H` holds of every message that is hashed to build the tree.
  abbrev pub Hashes : (Bytes → Type 0) → Node → Type 0
  Hashes H empty = Unit
  Hashes H (leaf a x) = H (leaf_message a x)
  Hashes H (branch h l r) = H (node_message (hash l) (hash r)) × Hashes H l × Hashes H r

module _ ⦃p : Primitives⦄ {H : Bytes → Type 0} where
  sha256-injective : (m n : Bytes) → H m → H n → sha256 m ≡ sha256 n → Broken H ⊎ (m ≡ n)
  sha256-injective m n hm hn e = elim (bytes_eq_cases m n) [
    | inl (same, _) ↦ inr same
    | inr (other, _) ↦ inl (Broken.collision m n hm hn other e)
  ]

  pub node_hash-injective :
      (l r l' r' : Digest)
      → H (node_message l r)
      → H (node_message l' r')
      → IsDigest l
      → IsDigest l'
      → node_hash l r ≡ node_hash l' r'
      → Broken H ⊎ ((l ≡ l') × (r ≡ r'))
  unfolding node_hash node_message
  node_hash-injective l r l' r' hm hn dl dl' e =
      elim (sha256-injective (node_message l r) (node_message l' r') hm hn e) [
        | inl b ↦ inl b
        | inr same ↦ inr (append-injective l l' r r' (dl ∙ sym dl') (ap (drop 4) same))
      ]

  pub leaf_hash-injective :
      (a b : Address) (x y : Account)
      → H (leaf_message a x)
      → H (leaf_message b y)
      → IsArray 32 a
      → IsArray 32 b
      → IsAccount x
      → IsAccount y
      → leaf_hash a x ≡ leaf_hash b y
      → Broken H ⊎ ((a ≡ b) × (x ≡ y))
  unfolding leaf_hash leaf_message
  leaf_hash-injective a b x y hm hn ha hb hx hy e =
      elim (sha256-injective (leaf_message a x) (leaf_message b y) hm hn e) [
        | inl broken ↦ inl broken
        | inr same ↦
            let (address, account) =
              append-injective a b (Account.encode x) (Account.encode y) (ha.0 ∙ sym hb.0)
                (ap (drop 4) same) in
            inr (
              address,
              sym (decode-encode_account x hx)
                  ∙ ap Account.decode account
                  ∙ decode-encode_account y hy,
            )
      ]

  pub leaf_hash-ne-node_hash :
      (a : Address) (x : Account) (l r : Digest)
      → H (leaf_message a x)
      → H (node_message l r)
      → leaf_hash a x ≡ node_hash l r
      → Broken H
  unfolding leaf_hash node_hash leaf_message node_message
  leaf_hash-ne-node_hash a x l r hm hn e =
      Broken.collision (leaf_message a x) (node_message l r) hm hn
        (leaf_message-ne-node_message a x l r) e

  pub leaf_hash-ne-empty :
      (a : Address) (x : Account) → H (leaf_message a x) → leaf_hash a x ≡ empty_subtree → Broken H
  unfolding leaf_hash empty_subtree leaf_message
  leaf_hash-ne-empty a x hm e = Broken.zero_preimage (leaf_message a x) hm e

  pub node_hash-ne-empty :
      (l r : Digest) → H (node_message l r) → node_hash l r ≡ empty_subtree → Broken H
  unfolding node_hash empty_subtree node_message
  node_hash-ne-empty l r hm e = Broken.zero_preimage (node_message l r) hm e

  -- Two canonical subtrees at one depth, of accounts within their types, that have one hash are the
  -- same tree; or else, among the messages hashed to build the two (`H` is any property that these
  -- have), there are two messages of one digest, or one whose digest is all zeros.
  pub hash-injective :
      (t u : Node) (d : ℕ)
      → IsCanonical d t
      → IsCanonical d u
      → AllLeaves (λ a x. IsAccount x) t
      → AllLeaves (λ a x. IsAccount x) u
      → Hashes H t
      → Hashes H u
      → hash t ≡ hash u
      → Broken H ⊎ (t ≡ u)
  unfolding hash
  hash-injective empty empty d k m f g hm hn e = inr refl
  hash-injective empty (leaf b y) d k m f g hm hn e = inl (leaf_hash-ne-empty b y hn (sym e))
  hash-injective empty (branch h l r) d k m f g hm hn e =
      inl (node_hash-ne-empty (hash l) (hash r) hn.0 (sym m.1 ∙ sym e))
  hash-injective (leaf a x) empty d k m f g hm hn e = inl (leaf_hash-ne-empty a x hm e)
  hash-injective (leaf a x) (leaf b y) d k m f g hm hn e =
      elim (leaf_hash-injective a b x y hm hn k m f g e) [
        | inl broken ↦ inl broken
        | inr (address, account) ↦ inr (λ i. leaf (address i) (account i))
      ]
  hash-injective (leaf a x) (branch h l r) d k m f g hm hn e =
      inl (leaf_hash-ne-node_hash a x (hash l) (hash r) hm hn.0 (e ∙ m.1))
  hash-injective (branch h l r) empty d k m f g hm hn e =
      inl (node_hash-ne-empty (hash l) (hash r) hm.0 (sym k.1 ∙ e))
  hash-injective (branch h l r) (leaf b y) d k m f g hm hn e =
      inl (leaf_hash-ne-node_hash b y (hash l) (hash r) hn hm.0 (sym e ∙ k.1))
  hash-injective (branch h l r) (branch h' l' r') d k m f g hm hn e =
      elim (node_hash-injective (hash l) (hash r) (hash l') (hash r') hm.0 hn.0
        (hash-IsDigest l (d + 1) k.5) (hash-IsDigest l' (d + 1) m.5) (sym k.1 ∙ e ∙ m.1)) [
          | inl broken ↦ inl broken
          | inr (el, er) ↦ elim (hash-injective l l' (d + 1) k.5 m.5 f.0 g.0 hm.1 hn.1 el) [
            | inl broken ↦ inl broken
            | inr left ↦ elim (hash-injective r r' (d + 1) k.6 m.6 f.1 g.1 hm.2 hn.2 er) [
              | inl broken ↦ inl broken
              | inr right ↦ inr (λ i. branch (e i) (left i) (right i))
            ]
          ]
        ]
