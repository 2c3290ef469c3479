-- ===== src/Merkle/Remove.antt =====
-- What `Node::remove` and `Node::collapse` of crates/payment-rollup/src/merkle.rs do to a canonical
-- tree.
use payment_rollup.Prelude.{
  ℕ, ◌+◌, ◌<◌, ◌≡◌, refl, sym, ap, ◌∙◌, inl, inr, none, some, arith, if◌then◌else◌,
}
use payment_rollup.Bytes.{IsArray, bytes_eq, bytes_eq_cases, bytes_eq→eq}
use payment_rollup.Crypto.{Primitives}
use payment_rollup.Account.{Address, Account, Digest}
use payment_rollup.Merkle.Path.{depth_limit}
use payment_rollup.Merkle.Tree.{
  Node, empty, leaf, branch, hash, node_hash, rehash, collapse, insert, remove, update,
}
use payment_rollup.Merkle.Shape.{AllLeaves, OnSide, IsCanonical, lookup, lookup-OnSide, bit_cases}
use payment_rollup.Merkle.Insert.{insert-IsCanonical, lookup-insert}
use payment_rollup.Merkle.Complete.{Near-zero}
use payment_rollup.Merkle.Unique.{lookup_unique}

module _ ⦃p : Primitives⦄ where
  AllLeaves-collapse :
      (P : Address → Account → Type 0) (g : Digest) (l r : Node)
      → AllLeaves P l
      → AllLeaves P r
      → AllLeaves P (collapse (branch g l r))
  unfolding collapse
  AllLeaves-collapse P g empty empty h k = tt
  AllLeaves-collapse P g (leaf a x) empty h k = h
  AllLeaves-collapse P g empty (leaf b y) h k = k
  AllLeaves-collapse P g empty (branch g' l' r') h k = (h, k)
  AllLeaves-collapse P g (leaf a x) (leaf b y) h k = (h, k)
  AllLeaves-collapse P g (leaf a x) (branch g' l' r') h k = (h, k)
  AllLeaves-collapse P g (branch g' l' r') r h k = (h, k)

  AllLeaves-remove :
      (P : Address → Account → Type 0) (t : Node) (d : ℕ) (a : Address)
      → AllLeaves P t
      → AllLeaves P (remove t d a)
  unfolding remove rehash
  AllLeaves-remove P empty d a h = tt
  AllLeaves-remove P (leaf b y) d a h = elim (bytes_eq_cases b a) [
    | inl (e, test) ↦ rw test tt
    | inr (e, test) ↦ rw test h
  ]
  AllLeaves-remove P (branch g l r) d a h = elim (bit_cases a d) [
    | inl (e, test) ↦ rw test (AllLeaves-collapse P _ _ r (AllLeaves-remove P l (d + 1) a h.0) h.1)
    | inr (e, test) ↦ rw test (AllLeaves-collapse P _ l _ h.0 (AllLeaves-remove P r (d + 1) a h.1))
  ]

  -- A branch of canonical children is canonical once it is collapsed.
  collapse-IsCanonical :
      (d : ℕ) (l r : Node)
      → d < depth_limit
      → OnSide d 0 l
      → OnSide d 1 r
      → IsCanonical (d + 1) l
      → IsCanonical (d + 1) r
      → IsCanonical d (collapse (branch (node_hash (hash l) (hash r)) l r))
  unfolding collapse
  collapse-IsCanonical d empty empty h s t k m = tt
  collapse-IsCanonical d (leaf a x) empty h s t k m = k
  collapse-IsCanonical d empty (leaf b y) h s t k m = m
  collapse-IsCanonical d empty (branch g l r) h s t k m = (h, refl, s, t, omega (arith, m.4), k, m)
  collapse-IsCanonical d (leaf a x) (leaf b y) h s t k m = (h, refl, s, t, omega arith, k, m)
  collapse-IsCanonical d (leaf a x) (branch g l r) h s t k m =
      (h, refl, s, t, omega (arith, m.4), k, m)
  collapse-IsCanonical d (branch g l r) u h s t k m = (h, refl, s, t, omega (arith, k.4), k, m)

  remove-IsCanonical :
      (t : Node) (d : ℕ) (a : Address) → IsCanonical d t → IsCanonical d (remove t d a)
  unfolding remove rehash
  remove-IsCanonical empty d a k = tt
  remove-IsCanonical (leaf b y) d a k = elim (bytes_eq_cases b a) [
    | inl (e, test) ↦ rw test tt
    | inr (e, test) ↦ rw test k
  ]
  remove-IsCanonical (branch g l r) d a k = elim (bit_cases a d) [
    | inl (e, test) ↦ rw test (
        collapse-IsCanonical d (remove l (d + 1) a) r k.0 (AllLeaves-remove _ l (d + 1) a k.2) k.3
          (remove-IsCanonical l (d + 1) a k.5) k.6)
    | inr (e, test) ↦ rw test (
        collapse-IsCanonical d l (remove r (d + 1) a) k.0 k.2 (AllLeaves-remove _ r (d + 1) a k.3)
          k.5 (remove-IsCanonical r (d + 1) a k.6))
  ]

  -- Collapsing changes nothing that is held.
  lookup-collapse :
      (d : ℕ) (g : Digest) (l r : Node) (c : Address)
      → OnSide d 0 l
      → OnSide d 1 r
      → lookup (collapse (branch g l r)) d c ≡ lookup (branch g l r) d c
  unfolding collapse lookup
  lookup-collapse d g empty empty c s t = ground arith
  lookup-collapse d g (leaf a x) empty c s t = elim (bit_cases c d) [
    | inl (e, test) ↦ rw test refl
    | inr (e, test) ↦ rw test (lookup-OnSide (leaf a x) d d 0 c s (λ q. omega (arith, e, q)))
  ]
  lookup-collapse d g empty (leaf b y) c s t = elim (bit_cases c d) [
    | inl (e, test) ↦ rw test (lookup-OnSide (leaf b y) d d 1 c t (λ q. omega (arith, e, q)))
    | inr (e, test) ↦ rw test refl
  ]
  lookup-collapse d g empty (branch g' l' r') c s t = refl
  lookup-collapse d g (leaf a x) (leaf b y) c s t = refl
  lookup-collapse d g (leaf a x) (branch g' l' r') c s t = refl
  lookup-collapse d g (branch g' l' r') r c s t = refl

  lookup-remove :
      (t : Node) (d : ℕ) (a c : Address)
      → IsCanonical d t
      → lookup (remove t d a) d c ≡ (if bytes_eq a c then none else lookup t d c)
  unfolding remove rehash lookup
  lookup-remove empty d a c k = ground arith
  lookup-remove (leaf b y) d a c k = elim (bytes_eq_cases b a) [
    | inl (e, test) ↦ rw test (rw e (ground arith))
    | inr (e, test) ↦ rw test (ground (arith, bytes_eq→eq a c, bytes_eq→eq b c))
  ]
  lookup-remove (branch g l r) d a c k = elim (bit_cases a d) [
    | inl (e, test) ↦ rw test (
        lookup-collapse d _ (remove l (d + 1) a) r c (AllLeaves-remove _ l (d + 1) a k.2) k.3
        ∙ ground (arith, bytes_eq→eq a c, lookup-remove l (d + 1) a c k.5))
    | inr (e, test) ↦ rw test (
        lookup-collapse d _ l (remove r (d + 1) a) c k.2 (AllLeaves-remove _ r (d + 1) a k.3)
        ∙ ground (arith, bytes_eq→eq a c, lookup-remove r (d + 1) a c k.6))
  ]

  -- Clearing a slot of a canonical tree leaves a canonical tree, that holds nothing at that address
  -- and at every other address what was there before; and where nothing was held at an address of 32
  -- bytes, to write an account and clear the slot again gives back the very same tree.
  pub update_clears :
      (t : Node) (a : Address)
      → IsArray 32 a
      → IsCanonical 0 t
      → IsCanonical 0 (update t a none)
        × ((c : Address)
            → lookup (update t a none) 0 c ≡ (if bytes_eq a c then none else lookup t 0 c))
        × ((x : Account) → lookup t 0 a ≡ none → update (update t a (some x)) a none ≡ t)
  unfolding update
  update_clears t a ha k = (
    remove-IsCanonical t 0 a k,
    λ c. lookup-remove t 0 a c k,
    λ x vacant.
        let near = Near-zero a t in
        let k' = insert-IsCanonical a x ha t 0 k near in
        lookup_unique (remove (insert t 0 a x) 0 a) t 0 (remove-IsCanonical (insert t 0 a x) 0 a k')
          k
          (λ c. lookup-remove (insert t 0 a x) 0 a c k' ∙ elim (bytes_eq_cases a c) [
            | inl (e, test) ↦ rw test (sym vacant ∙ ap (lookup t 0) e)
            | inr (e, test) ↦ rw test (lookup-insert a x ha t 0 c k near ∙ rw test refl)
          ]),
  )
