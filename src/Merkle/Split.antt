-- ===== src/Merkle/Split.antt =====
-- `Node::split` of crates/payment-rollup/src/merkle.rs: the subtree that holds exactly two accounts.
use payment_rollup.Prelude.{
  ℕ, zero, suc, ◌+◌, ◌-◌, ◌≤◌, ◌<◌, ◌≡◌, ◌≢◌, inl, inr, refl, sym, ◌∙◌, subst, ap, none, some,
  arith, ◌==◌, if◌then◌else◌,
}
use payment_rollup.Bytes.{IsArray, bytes_eq, bytes_eq→eq}
use payment_rollup.Crypto.{Primitives}
use payment_rollup.Account.{Address, Account}
use payment_rollup.Merkle.Path.{
  depth_limit, bit_at, bit_at-lt, common_prefix_len, Diverge, Diverge-le,
  common_prefix_len_diverges, common_prefix_len-lt,
}
use payment_rollup.Merkle.Tree.{Node, empty, leaf, join, lift, lift_loop, split}
use payment_rollup.Merkle.Shape.{
  AllLeaves, AllLeaves-imp, OnSide, Near, size, IsCanonical, lookup, lookup-OnSide, bit_cases,
}

module _ ⦃p : Primitives⦄ where
  -- A branch with one child, on either side: any predicate with a proof for both sides.
  lift_rule :
      (Q : Node → Type 0) (a : Address) (k : ℕ) (t : Node)
      → (bit_at a k ≡ 0 → Q (join t empty))
      → (bit_at a k ≡ 1 → Q (join empty t))
      → Q (lift a k t)
  unfolding lift
  lift_rule Q a k t left right = elim (bit_cases a k) [
    | inl (e, test) ↦ rw test (left e)
    | inr (e, test) ↦ rw test (right e)
  ]

  AllLeaves-lift_loop :
      (P : Address → Account → Type 0) (a : Address) (d count : ℕ) (t : Node)
      → AllLeaves P t
      → AllLeaves P (lift_loop a d count t)
  unfolding lift_loop join
  AllLeaves-lift_loop P a d zero t h = h
  AllLeaves-lift_loop P a d (suc count) t h =
      AllLeaves-lift_loop P a d count (lift a (d + count) t)
        (lift_rule (AllLeaves P) a (d + count) t (λ _. (h, tt)) (λ _. (tt, h)))

  size-lift_loop : (a : Address) (d count : ℕ) (t : Node) → size (lift_loop a d count t) ≡ size t
  unfolding lift_loop join
  size-lift_loop a d zero t = refl
  size-lift_loop a d (suc count) t =
      size-lift_loop a d count _
      ∙ lift_rule (λ u. size u ≡ size t) a (d + count) t (λ _. omega arith) (λ _. omega arith)

  -- A branch with one child reads like that child.
  lookup-lift :
      (a c : Address) (k : ℕ) (t : Node)
      → OnSide k (bit_at a k) t
      → lookup (lift a k t) k c ≡ lookup t (k + 1) c
  unfolding join lookup
  lookup-lift a c k t s =
      lift_rule (λ u. lookup u k c ≡ lookup t (k + 1) c) a k t
        (λ e. elim (bit_cases c k) [
          | inl (q, test) ↦ rw test
          | inr (q, test) ↦
              rw test
                (sym (lookup-OnSide t (k + 1) k (bit_at a k) c s (λ z. ground (arith, z, e, q))))
        ])
        (λ e. elim (bit_cases c k) [
          | inl (q, test) ↦
              rw test
                (sym (lookup-OnSide t (k + 1) k (bit_at a k) c s (λ z. ground (arith, z, e, q))))
          | inr (q, test) ↦ rw test
        ])

  Near-OnSide : (a : Address) (d k : ℕ) (t : Node) → k < d → Near a d t → OnSide k (bit_at a k) t
  Near-OnSide a d k t h = AllLeaves-imp (λ b x near. near k h) t

  Near-le : (a : Address) (d k : ℕ) (t : Node) → k ≤ d → Near a d t → Near a k t
  Near-le a d k t h = AllLeaves-imp (λ b x near i q. near i (omega arith)) t

  lookup-lift_loop :
      (a c : Address) (d count : ℕ) (t : Node)
      → Near a (d + count) t
      → lookup (lift_loop a d count t) d c ≡ lookup t (d + count) c
  unfolding lift_loop join
  lookup-lift_loop a c d zero t n = ap (λ k. lookup t k c) (omega arith)
  lookup-lift_loop a c d (suc count) t n =
      lookup-lift_loop a c d count (lift a (d + count) t)
        (lift_rule (Near a (d + count)) a (d + count) t (λ _. (near, tt)) (λ _. (tt, near)))
      ∙ lookup-lift a c (d + count) t (Near-OnSide a _ (d + count) t (omega arith) n)
      ∙ ap (λ k. lookup t k c) (omega arith)
    where
      near : Near a (d + count) t
      near = Near-le a _ (d + count) t (omega arith) n

  lift-IsCanonical :
      (a : Address) (k : ℕ) (t : Node)
      → k < depth_limit
      → 2 ≤ size t
      → Near a (k + 1) t
      → IsCanonical (k + 1) t
      → IsCanonical k (lift a k t)
  unfolding join
  lift-IsCanonical a k t h two n c =
      let side : OnSide k (bit_at a k) t = Near-OnSide a (k + 1) k t (omega arith) n in
      lift_rule (IsCanonical k) a k t
        (λ e. (h, refl, subst (λ b. OnSide k b t) e side, tt, omega arith, c, tt))
        (λ e. (h, refl, tt, subst (λ b. OnSide k b t) e side, omega arith, tt, c))

  lift_loop-IsCanonical :
      (a : Address) (d count : ℕ) (t : Node)
      → d + count ≤ depth_limit
      → 2 ≤ size t
      → Near a (d + count) t
      → IsCanonical (d + count) t
      → IsCanonical d (lift_loop a d count t)
  unfolding lift_loop join
  lift_loop-IsCanonical a d zero t h two n c = subst (λ k. IsCanonical k t) (omega arith) c
  lift_loop-IsCanonical a d (suc count) t h two n c =
      lift_loop-IsCanonical a d count (lift a (d + count) t) (omega arith)
        (lift_rule (λ u. 2 ≤ size u) a (d + count) t (λ _. omega arith) (λ _. omega arith))
        (lift_rule (Near a (d + count)) a (d + count) t (λ _. (near, tt)) (λ _. (tt, near)))
        (lift-IsCanonical a (d + count) t (omega arith) two (subst (λ k. Near a k t) deeper n)
          (subst (λ k. IsCanonical k t) deeper c))
    where
      deeper : d + suc count ≡ d + count + 1
      deeper = omega arith

      near : Near a (d + count) t
      near = Near-le a _ (d + count) t (omega arith) n

  module _ (a : Address) (x : Account) (b : Address) (y : Account) (ha : IsArray 32 a)
      (hb : IsArray 32 b) (ne : a ≢ b) where
    fork : ℕ
    fork = common_prefix_len a b

    -- The branch that separates the two, on either side.
    pair : Node
    unfolding fork
    pair = if bit_at a fork == 0 then join (leaf a x) (leaf b y) else join (leaf b y) (leaf a x)

    diverges : Diverge a b fork
    unfolding fork
    diverges = common_prefix_len_diverges a b ha hb ne

    pair_rule :
        (Q : Node → Type 0)
        → (bit_at a fork ≡ 0 → bit_at b fork ≡ 1 → Q (join (leaf a x) (leaf b y)))
        → (bit_at a fork ≡ 1 → bit_at b fork ≡ 0 → Q (join (leaf b y) (leaf a x)))
        → Q pair
    unfolding pair
    pair_rule Q left right = elim (bit_cases a fork) [
      | inl (e, test) ↦ rw test (left e (omega (arith, bit_at-lt b fork, e, diverges.differ)))
      | inr (e, test) ↦ rw test (right e (omega (arith, bit_at-lt b fork, e, diverges.differ)))
    ]

    pair-Near : Near a fork pair
    unfolding join
    pair-Near =
        pair_rule (Near a fork) (λ _ _. (λ i h. refl, λ i h. sym (diverges.agree i h)))
          (λ _ _. (λ i h. sym (diverges.agree i h), λ i h. refl))

    pair-IsCanonical : IsCanonical fork pair
    unfolding join fork
    pair-IsCanonical =
        let h = common_prefix_len-lt a b ha hb ne in
        pair_rule (IsCanonical fork) (λ e f. (h, refl, e, f, omega arith, ha, hb))
          (λ e f. (h, refl, f, e, omega arith, hb, ha))

    lookup-pair :
        (c : Address)
        → lookup pair fork c
          ≡ (if bytes_eq a c then some x else if bytes_eq b c then some y else none)
    unfolding join lookup
    lookup-pair c =
        pair_rule
          (λ u.
            lookup u fork c
            ≡ (if bytes_eq a c then some x else if bytes_eq b c then some y else none))
          (λ e f. ground (arith, e, f, bytes_eq→eq a c, bytes_eq→eq b c, bit_at-lt c fork))
          (λ e f. ground (arith, e, f, bytes_eq→eq a c, bytes_eq→eq b c, bit_at-lt c fork))

    module _ (d : ℕ) (same : (i : ℕ) → i < d → bit_at a i ≡ bit_at b i) where
      climbs : d + (fork - d) ≡ fork
      climbs = omega (arith, Diverge-le a b fork d diverges same)

      -- The new subtree is canonical.
      pub split-IsCanonical : IsCanonical d (split d a x b y)
      unfolding split pair fork
      split-IsCanonical =
          lift_loop-IsCanonical a d (fork - d) pair
            (omega (arith, climbs, common_prefix_len-lt a b ha hb ne))
            (pair_rule (λ u. 2 ≤ size u) (λ _ _. unfold join in omega arith)
              (λ _ _. unfold join in omega arith))
            (subst (λ k. Near a k pair) (sym climbs) pair-Near)
            (subst (λ k. IsCanonical k pair) (sym climbs) pair-IsCanonical)

      -- It holds the two accounts and no other.
      pub lookup-split :
          (c : Address)
          → lookup (split d a x b y) d c
            ≡ (if bytes_eq a c then some x else if bytes_eq b c then some y else none)
      unfolding split pair fork
      lookup-split c =
          lookup-lift_loop a c d (fork - d) pair (subst (λ k. Near a k pair) (sym climbs) pair-Near)
          ∙ ap (λ k. lookup pair k c) climbs
          ∙ lookup-pair c

    pub AllLeaves-split :
        (P : Address → Account → Type 0) (d : ℕ) → P a x → P b y → AllLeaves P (split d a x b y)
    unfolding split pair fork join
    AllLeaves-split P d h k =
        AllLeaves-lift_loop P a d (fork - d) pair
          (pair_rule (AllLeaves P) (λ _ _. (h, k)) (λ _ _. (k, h)))

    pub size-split : (d : ℕ) → size (split d a x b y) ≡ 2
    unfolding split pair fork join
    size-split d =
        size-lift_loop a d (fork - d) pair ∙ pair_rule (λ u. size u ≡ 2) (λ _ _. refl) (λ _ _. refl)
