-- ===== src/Merkle/Shape.antt =====
-- The shape of a Merkle tree: where its leaves may stand, and what `lookup` finds in it.
use payment_rollup.Prelude.{
  ℕ, ◌+◌, ◌≤◌, ◌<◌, ◌≡◌, ◌≢◌, ◌⊎◌, inl, inr, refl, sym, ◌∙◌, subst, dec_lt, Bool-cases, true, false,
  Option, none, some, arith, ◌==◌, ==_cases, if◌then◌else◌,
}
use payment_rollup.Bytes.{IsArray, bytes_eq, bytes_eq_cases}
use payment_rollup.Crypto.{Primitives}
use payment_rollup.Account.{Address, Account}
use payment_rollup.Merkle.Path.{depth_limit, bit_at, bit_at-lt}
use payment_rollup.Merkle.Tree.{Node, empty, leaf, branch, hash, node_hash}

-- Every leaf satisfies `P`.
abbrev pub AllLeaves : (Address → Account → Type 0) → Node → Type 0
AllLeaves P empty = Unit
AllLeaves P (leaf a x) = P a x
AllLeaves P (branch h l r) = AllLeaves P l × AllLeaves P r

pub AllLeaves-imp :
    {P Q : Address → Account → Type 0}
    → ((a : Address) (x : Account) → P a x → Q a x)
    → (t : Node) → AllLeaves P t
    → AllLeaves Q t
AllLeaves-imp f empty h = tt
AllLeaves-imp f (leaf a x) h = f a x h
AllLeaves-imp f (branch h l r) p = (AllLeaves-imp f l p.0, AllLeaves-imp f r p.1)

-- Every leaf takes the side `b` at depth `d`.
abbrev pub OnSide : ℕ → ℕ → Node → Type 0
OnSide d b t = AllLeaves (λ a x. bit_at a d ≡ b) t

-- Every leaf shares its first `d` bits with `address`.
abbrev pub Near : Address → ℕ → Node → Type 0
Near address d t = AllLeaves (λ a x. (i : ℕ) → i < d → bit_at a i ≡ bit_at address i) t

-- The number of leaves.
abbrev pub size : Node → ℕ
size empty = 0
size (leaf a x) = 1
size (branch h l r) = size l + size r

module _ ⦃p : Primitives⦄ where
  -- The canonical shape of a subtree at depth `d`, its cached hashes included.
  abbrev pub IsCanonical : ℕ → Node → Type 0
  IsCanonical d empty = Unit
  IsCanonical d (leaf a x) = IsArray 32 a
  IsCanonical d (branch h l r) =
      (d < depth_limit)
      × (h ≡ node_hash (hash l) (hash r))
      × OnSide d 0 l
      × OnSide d 1 r
      × (2 ≤ size l + size r)
      × IsCanonical (d + 1) l
      × IsCanonical (d + 1) r

-- What the subtree at depth `d` holds for an address.
unfoldable pub lookup : Node → ℕ → Address → Option Account
lookup empty d address = none
lookup (leaf a x) d address = if bytes_eq a address then some x else none
lookup (branch h l r) d address =
    if bit_at address d == 0 then lookup l (d + 1) address else lookup r (d + 1) address

-- An address that takes the other side at some depth is not in the subtree.
pub lookup-OnSide :
    (t : Node) (d k b : ℕ) (address : Address)
    → OnSide k b t
    → bit_at address k ≢ b
    → lookup t d address ≡ none
unfolding lookup
lookup-OnSide empty d k b address s n = refl
lookup-OnSide (leaf a x) d k b address s n = elim (bytes_eq_cases a address) [
  | inl (e, t) ↦ absurd (n (subst (λ z. bit_at z k ≡ b) e s))
  | inr (e, t) ↦ rw t
]
lookup-OnSide (branch h l r) d k b address s n = elim (Bool-cases (bit_at address d == 0)) [
  | inl e ↦ rw e (lookup-OnSide l (d + 1) k b address s.0 n)
  | inr e ↦ rw e (lookup-OnSide r (d + 1) k b address s.1 n)
]

pub Near-side :
    (address : Address) (d b : ℕ) (t : Node)
    → Near address d t
    → OnSide d b t
    → bit_at address d ≡ b
    → Near address (d + 1) t
Near-side address d b empty n s e = tt
Near-side address d b (leaf a x) n s e = λ i h. elim (dec_lt i d) [
  | yes q ↦ n i q
  | no q ↦ let k : i ≡ d = omega arith in rw k (s ∙ sym e)
]
Near-side address d b (branch h l r) n s e =
    (Near-side address d b l n.0 s.0 e, Near-side address d b r n.1 s.1 e)

-- The bit of an address is one of two.
pub bit_cases :
    (address : Address) (d : ℕ)
    → (bit_at address d ≡ 0) × ((bit_at address d == 0) ≡ true)
      ⊎ (bit_at address d ≡ 1) × ((bit_at address d == 0) ≡ false)
bit_cases address d = elim (==_cases (bit_at address d) 0) [
  | inl (e, t) ↦ inl (e, t)
  | inr (e, t) ↦ inr (omega (arith, bit_at-lt address d), t)
]
