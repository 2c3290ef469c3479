-- ===== src/Merkle/Unique.antt =====
-- A canonical tree of crates/payment-rollup/src/merkle.rs is determined by what it holds.
use payment_rollup.Prelude.{
  ℕ, ◌+◌, ◌≤◌, ◌<◌, ◌≡◌, ◌≢◌, refl, sym, ap, ◌∙◌, inl, inr, some, arith, dec_lt, if◌then◌else◌,
}
use payment_rollup.Bytes.{IsArray, bytes_eq, bytes_eq_refl, bytes_eq_cases, bytes_ne}
use payment_rollup.Crypto.{Primitives}
use payment_rollup.Account.{Address, Account, Digest}
use payment_rollup.Merkle.Path.{bit_at}
use payment_rollup.Merkle.Tree.{Node, empty, leaf, branch, hash, node_hash, insert, update}
use payment_rollup.Merkle.Insert.{insert-IsCanonical, lookup-insert}
use payment_rollup.Merkle.Complete.{Near-zero}
use payment_rollup.Merkle.Shape.{OnSide, size, IsCanonical, lookup, lookup-OnSide, bit_cases}

-- What is found in a subtree on one side takes that side.
found_side :
    (t : Node) (d k b : ℕ) (c : Address) {y : Account}
    → OnSide k b t
    → b < 2
    → lookup t d c ≡ some y
    → bit_at c k ≡ b
found_side t d k b c s h found = elim (bit_cases c k) [
  | inl (e, _) ↦ elim (dec_lt b 1) [
    | yes q ↦ omega (arith, e)
    | no q ↦ absurd (cc (found, lookup-OnSide t d k b c s (λ q'. omega (arith, e, q'))))
  ]
  | inr (e, _) ↦ elim (dec_lt b 1) [
    | yes q ↦ absurd (cc (found, lookup-OnSide t d k b c s (λ q'. omega (arith, e, q'))))
    | no q ↦ omega (arith, e)
  ]
]

-- Something held in a tree, at an address other than `a`.
abbrev Held : Node → ℕ → Type 0
Held t d = (c : Address) × (y : Account) × (lookup t d c ≡ some y)

abbrev HeldBeside : Address → Node → ℕ → Type 0
HeldBeside a t d = (c : Address) × (y : Account) × (lookup t d c ≡ some y) × (c ≢ a)

lookup-left :
    (h : Digest) (l r : Node) (d : ℕ) (c : Address) {y : Account}
    → OnSide d 0 l
    → lookup l (d + 1) c ≡ some y
    → (lookup (branch h l r) d c ≡ some y) × (bit_at c d ≡ 0)
unfolding lookup
lookup-left h l r d c s found =
    let e = found_side l (d + 1) d 0 c s (omega arith) found in (rw e found, e)

lookup-right :
    (h : Digest) (l r : Node) (d : ℕ) (c : Address) {y : Account}
    → OnSide d 1 r
    → lookup r (d + 1) c ≡ some y
    → (lookup (branch h l r) d c ≡ some y) × (bit_at c d ≡ 1)
unfolding lookup
lookup-right h l r d c s found =
    let e = found_side r (d + 1) d 1 c s (omega arith) found in (rw e found, e)

module _ ⦃p : Primitives⦄ where
  held : (t : Node) (d : ℕ) → IsCanonical d t → 1 ≤ size t → Held t d
  held empty d k n = absurd (omega arith)
  held (leaf a x) d k n = (a, x, unfold lookup in rw (bytes_eq_refl a))
  held (branch h l r) d k n = elim (dec_lt 0 (size l)) [
    | yes some_left ↦
        let (c, y, found) = held l (d + 1) k.5 some_left in
        (c, y, (lookup-left h l r d c k.2 found).0)
    | no none_left ↦
        let (c, y, found) = held r (d + 1) k.6 (omega (arith, k.4)) in
        (c, y, (lookup-right h l r d c k.3 found).0)
  ]

  held_beside : (a : Address) (t : Node) (d : ℕ) → IsCanonical d t → 2 ≤ size t → HeldBeside a t d
  held_beside a empty d k n = absurd (omega arith)
  held_beside a (leaf b y) d k n = absurd (omega arith)
  held_beside a (branch h l r) d k n = elim (dec_lt 0 (size l)) [
    | no none_left ↦
        let (c, y, found, other) = held_beside a r (d + 1) k.6 (omega (arith, k.4)) in
        (c, y, (lookup-right h l r d c k.3 found).0, other)
    | yes some_left ↦ elim (dec_lt 0 (size r)) [
      | no none_right ↦
          let (c, y, found, other) = held_beside a l (d + 1) k.5 (omega (arith, k.4)) in
          (c, y, (lookup-left h l r d c k.2 found).0, other)
      | yes some_right ↦ elim (bit_cases a d) [
        | inl (zero_bit, _) ↦
            let (c, y, found) = held r (d + 1) k.6 some_right in
            let (up, one_bit) = lookup-right h l r d c k.3 found in
            (c, y, up, λ e. omega (arith, zero_bit, one_bit, ap (λ z. bit_at z d) e))
        | inr (one_bit, _) ↦
            let (c, y, found) = held l (d + 1) k.5 some_left in
            let (up, zero_bit) = lookup-left h l r d c k.2 found in
            (c, y, up, λ e. omega (arith, zero_bit, one_bit, ap (λ z. bit_at z d) e))
      ]
    ]
  ]

  -- A tree whose lookups are a leaf's or an empty tree's.
  leaf_like :
      (a : Address) (x : Account) (t : Node) (d : ℕ)
      → IsCanonical d t
      → ((c : Address) → lookup (leaf a x) d c ≡ lookup t d c)
      → leaf a x ≡ t
  unfolding lookup
  leaf_like a x empty d k h = absurd (cc (h a, bytes_eq_refl a))
  leaf_like a x (leaf b y) d k h = elim (bytes_eq_cases b a) [
    | inl (e, test) ↦
        let same : x ≡ y = cc (h a, bytes_eq_refl a, test) in λ i. leaf (sym e i) (same i)
    | inr (e, test) ↦ absurd (cc (h a, bytes_eq_refl a, test))
  ]
  leaf_like a x (branch g l r) d k h =
      let (c, y, found, other) = held_beside a (branch g l r) d k k.4 in
      absurd (cc (h c, found, bytes_ne a c (λ e. other (sym e))))

  empty_like :
      (t : Node) (d : ℕ)
      → IsCanonical d t
      → ((c : Address) → lookup empty d c ≡ lookup t d c)
      → empty ≡ t
  empty_like empty d k h = refl
  empty_like (leaf a x) d k h =
      let (c, y, found) = held (leaf a x) d k (omega arith) in
      absurd (unfold lookup in cc (h c, found))
  empty_like (branch g l r) d k h =
      let (c, y, found) = held (branch g l r) d k (omega (arith, k.4)) in
      absurd (unfold lookup in cc (h c, found))

  -- Children on the same side hold the same when the branches do.
  same_children :
      (g h : Digest) (l r l' r' : Node) (d : ℕ)
      → OnSide d 0 l
      → OnSide d 1 r
      → OnSide d 0 l'
      → OnSide d 1 r'
      → ((c : Address) → lookup (branch g l r) d c ≡ lookup (branch h l' r') d c)
      → ((c : Address) → lookup l (d + 1) c ≡ lookup l' (d + 1) c)
        × ((c : Address) → lookup r (d + 1) c ≡ lookup r' (d + 1) c)
  unfolding lookup
  same_children g h l r l' r' d sl sr sl' sr' e = (left, right)
    where
      left : (c : Address) → lookup l (d + 1) c ≡ lookup l' (d + 1) c
      left c = elim (bit_cases c d) [
        | inl (zero_bit, test) ↦ rw test at (e c)
        | inr (one_bit, _) ↦
            lookup-OnSide l (d + 1) d 0 c sl (λ q. omega (arith, one_bit, q))
            ∙ sym (lookup-OnSide l' (d + 1) d 0 c sl' (λ q. omega (arith, one_bit, q)))
      ]

      right : (c : Address) → lookup r (d + 1) c ≡ lookup r' (d + 1) c
      right c = elim (bit_cases c d) [
        | inl (zero_bit, _) ↦
            lookup-OnSide r (d + 1) d 1 c sr (λ q. omega (arith, zero_bit, q))
            ∙ sym (lookup-OnSide r' (d + 1) d 1 c sr' (λ q. omega (arith, zero_bit, q)))
        | inr (one_bit, test) ↦ rw test at (e c)
      ]

  -- Two canonical subtrees at one depth that hold the same accounts are the same tree.
  pub lookup_unique :
      (t u : Node) (d : ℕ)
      → IsCanonical d t
      → IsCanonical d u
      → ((c : Address) → lookup t d c ≡ lookup u d c)
      → t ≡ u
  lookup_unique empty u d k m e = empty_like u d m e
  lookup_unique (leaf a x) u d k m e = leaf_like a x u d m e
  lookup_unique (branch g l r) empty d k m e = sym (empty_like (branch g l r) d k (λ c. sym (e c)))
  lookup_unique (branch g l r) (leaf b y) d k m e =
      sym (leaf_like b y (branch g l r) d k (λ c. sym (e c)))
  lookup_unique (branch g l r) (branch h l' r') d k m e =
      let (el, er) = same_children g h l r l' r' d k.2 k.3 m.2 m.3 e in
      let left = lookup_unique l l' (d + 1) k.5 m.5 el in
      let right = lookup_unique r r' (d + 1) k.6 m.6 er in
      let hashes : g ≡ h = k.1 ∙ (λ i. node_hash (hash (left i)) (hash (right i))) ∙ sym m.1 in
      λ i. branch (hashes i) (left i) (right i)

  -- Writes to two different addresses of 32 bytes can be made in either order: the tree is the
  -- same.
  pub update_comm :
      (t : Node) (a b : Address) (x y : Account)
      → IsArray 32 a
      → IsArray 32 b
      → a ≢ b
      → IsCanonical 0 t
      → update (update t a (some x)) b (some y) ≡ update (update t b (some y)) a (some x)
  unfolding update
  update_comm t a b x y ha hb ne k =
      let ka = insert-IsCanonical a x ha t 0 k (Near-zero a t) in
      let kb = insert-IsCanonical b y hb t 0 k (Near-zero b t) in
      let ta = insert t 0 a x in
      let tb = insert t 0 b y in
      lookup_unique (insert ta 0 b y) (insert tb 0 a x) 0
        (insert-IsCanonical b y hb ta 0 ka (Near-zero b ta))
        (insert-IsCanonical a x ha tb 0 kb (Near-zero a tb))
        (λ c.
          rw
            (
              lookup-insert b y hb ta 0 c ka (Near-zero b ta),
              lookup-insert a x ha tb 0 c kb (Near-zero a tb),
              lookup-insert a x ha t 0 c k (Near-zero a t),
              lookup-insert b y hb t 0 c k (Near-zero b t),
            )
            (either c))
    where
      either :
          (c : Address)
          → (if bytes_eq b c then some y else if bytes_eq a c then some x else lookup t 0 c)
            ≡ (if bytes_eq a c then some x else if bytes_eq b c then some y else lookup t 0 c)
      either c = elim (bytes_eq_cases a c) [
        | inl (e, test) ↦ rw (test, bytes_ne b c (λ q. ne (e ∙ sym q)))
        | inr (e, test) ↦ rw test
      ]
