-- ===== src/Merkle/Insert.antt =====
-- `Node::insert` of crates/payment-rollup/src/merkle.rs keeps the canonical shape and writes one
-- account.
use payment_rollup.Prelude.{
  ℕ, ◌+◌, ◌≤◌, ◌≡◌, inl, inr, refl, sym, ◌∙◌, subst, some, arith, if◌then◌else◌,
}
use payment_rollup.Bytes.{IsArray, bytes_eq, bytes_eq→eq, bytes_eq_cases}
use payment_rollup.Crypto.{Primitives}
use payment_rollup.Account.{Address, Account}
use payment_rollup.Merkle.Path.{bit_at}
use payment_rollup.Merkle.Tree.{Node, empty, leaf, branch, insert}
use payment_rollup.Merkle.Shape.{AllLeaves, Near, size, IsCanonical, lookup, Near-side, bit_cases}
use payment_rollup.Merkle.Split.{split-IsCanonical, lookup-split, AllLeaves-split, size-split}

module _ ⦃p : Primitives⦄ (a : Address) (x : Account) (ha : IsArray 32 a) where
  pub AllLeaves-insert :
      (P : Address → Account → Type 0) (t : Node) (d : ℕ)
      → IsCanonical d t
      → P a x
      → AllLeaves P t
      → AllLeaves P (insert t d a x)
  unfolding insert
  AllLeaves-insert P empty d c h q = h
  AllLeaves-insert P (leaf b y) d c h q = elim (bytes_eq_cases b a) [
    | inl (e, test) ↦ rw test (subst (λ z. P z x) (sym e) h)
    | inr (e, test) ↦ rw test (AllLeaves-split b y a x c ha e P d q h)
  ]
  AllLeaves-insert P (branch g l r) d c h q = elim (bit_cases a d) [
    | inl (e, test) ↦ rw test (AllLeaves-insert P l (d + 1) c.5 h q.0, q.1)
    | inr (e, test) ↦ rw test (q.0, AllLeaves-insert P r (d + 1) c.6 h q.1)
  ]

  pub size-insert :
      (t : Node) (d : ℕ)
      → IsCanonical d t
      → (size t ≤ size (insert t d a x)) × (1 ≤ size (insert t d a x))
  unfolding insert
  size-insert empty d c = omega arith
  size-insert (leaf b y) d c = elim (bytes_eq_cases b a) [
    | inl (e, test) ↦ rw test (omega arith)
    | inr (e, test) ↦ rw test (omega (arith, size-split b y a x c ha e d))
  ]
  size-insert (branch g l r) d c = elim (bit_cases a d) [
    | inl (e, test) ↦ rw test (omega (arith, size-insert l (d + 1) c.5, c.4))
    | inr (e, test) ↦ rw test (omega (arith, size-insert r (d + 1) c.6, c.4))
  ]

  -- A write to an address of 32 bytes keeps a subtree on its path canonical: two accounts or more
  -- under every branch, each leaf on the side of its bits, hashes up to date.
  pub insert-IsCanonical :
      (t : Node) (d : ℕ) → IsCanonical d t → Near a d t → IsCanonical d (insert t d a x)
  unfolding insert
  insert-IsCanonical empty d c n = ha
  insert-IsCanonical (leaf b y) d c n = elim (bytes_eq_cases b a) [
    | inl (e, test) ↦ rw test c
    | inr (e, test) ↦ rw test (split-IsCanonical b y a x c ha e d n)
  ]
  insert-IsCanonical (branch g l r) d c n = elim (bit_cases a d) [
    | inl (e, test) ↦ rw test (
      c.0,
      refl,
      AllLeaves-insert (λ b _. bit_at b d ≡ 0) l (d + 1) c.5 e c.2,
      c.3,
      omega (arith, size-insert l (d + 1) c.5, c.4),
      insert-IsCanonical l (d + 1) c.5 (Near-side a d 0 l n.0 c.2 e),
      c.6,
    )
    | inr (e, test) ↦ rw test (
      c.0,
      refl,
      c.2,
      AllLeaves-insert (λ b _. bit_at b d ≡ 1) r (d + 1) c.6 e c.3,
      omega (arith, size-insert r (d + 1) c.6, c.4),
      c.5,
      insert-IsCanonical r (d + 1) c.6 (Near-side a d 1 r n.1 c.3 e),
    )
  ]

  -- After a write to an address of 32 bytes into a canonical subtree on its path, the written
  -- account is read at that address, and at every other address what was there before.
  pub lookup-insert :
      (t : Node) (d : ℕ) (c : Address)
      → IsCanonical d t
      → Near a d t
      → lookup (insert t d a x) d c ≡ (if bytes_eq a c then some x else lookup t d c)
  unfolding insert lookup
  lookup-insert empty d c k n = refl
  lookup-insert (leaf b y) d c k n = elim (bytes_eq_cases b a) [
    | inl (e, test) ↦ rw test (ground (arith, e))
    | inr (e, test) ↦
        rw test
          (lookup-split b y a x k ha e d n c ∙ ground (arith, bytes_eq→eq a c, bytes_eq→eq b c))
  ]
  lookup-insert (branch g l r) d c k n = elim (bit_cases a d) [
    | inl (e, test) ↦ rw test (
        ground
          (arith, bytes_eq→eq a c, lookup-insert l (d + 1) c k.5 (Near-side a d 0 l n.0 k.2 e)))
    | inr (e, test) ↦ rw test (
        ground
          (arith, bytes_eq→eq a c, lookup-insert r (d + 1) c k.6 (Near-side a d 1 r n.1 k.3 e)))
  ]
