-- ===== src/Merkle/Path.antt =====
-- The path bits of an address and the common prefix of two addresses
-- (crates/payment-rollup/src/merkle.rs, `bit_at` and `common_prefix_len`).
use Prim.Native.Nat.{bit_xor}
use mathlib.Core.Path.{ap₂}
use payment_rollup.Prelude.{
  tabulated, tabulated-true, ℕ, zero, suc, ◌+◌, ◌-◌, ◌*◌, ◌/◌, ◌%◌, ◌^◌, ◌≤◌, ◌<◌, ◌≡◌, ◌≢◌, inl,
  inr, refl, sym, subst, dec_lt, Bool, true, false, ◌&&◌, ◌||◌, not, ==_iff, [], ◌∷◌, arith, ltb,
  ◌==◌, ==_cases, if◌then◌else◌, length, get_or, All,
}
use payment_rollup.Bytes.{Bytes, IsByte, IsArray}

-- The depth of the address space.
abbrev pub depth_limit : ℕ
depth_limit = 256

-- `x >> k` and `x & 1`; the shift is `/ 2 ^ k` and the mask `% 2`.
unfoldable pub byte_bit : ℕ → ℕ → ℕ
byte_bit x k = x / 2 ^ (7 - k) % 2

-- An index past the end panics in the source; below `depth_limit` an address of 32 bytes has none.
unfoldable pub bit_at : Bytes → ℕ → ℕ
unfolding byte_bit
bit_at address depth = byte_bit (get_or address (depth / 8) 0) (depth % 8)

-- `u8::leading_zeros`, counted down from the given width.
unfoldable pub leading_zeros : ℕ → ℕ → ℕ
leading_zeros zero x = 0
leading_zeros (suc w) x = if ltb x (2 ^ w) then suc (leading_zeros w x) else 0

-- The loop over the zipped bytes, from byte `index` on.
unfoldable pub prefix_loop : ℕ → Bytes → Bytes → ℕ
unfolding leading_zeros
prefix_loop index [] ys = depth_limit
prefix_loop index (x ∷ xs) [] = depth_limit
prefix_loop index (x ∷ xs) (y ∷ ys) =
    let rest = prefix_loop (index + 1) xs ys in
    if x == y then rest else index * 8 + leading_zeros 8 (bit_xor x y)

unfoldable pub common_prefix_len : Bytes → Bytes → ℕ
unfolding prefix_loop
common_prefix_len a b = prefix_loop 0 a b

-- Two different bytes agree above the first bit of their difference, and not at that bit.
splits : ℕ → ℕ → Bool
splits x y =
    let k = leading_zeros 8 (bit_xor x y) in
    ltb k 8
    && (tabulated k (λ i. byte_bit x i == byte_bit y i) && not (byte_bit x k == byte_bit y k))

splits_table : tabulated 256 (λ x. tabulated 256 (λ y. (x == y) || splits x y)) ≡ true
unfolding tabulated splits leading_zeros byte_bit
splits_table = refl

-- Bit `m` is the first at which two strings differ.
pub record Diverge (xs ys : Bytes) (m : ℕ) : Type 0 where
  pub within : m < 8 * length xs
  pub agree : (i : ℕ) → i < m → bit_at xs i ≡ bit_at ys i
  pub differ : bit_at xs m ≢ bit_at ys m

byte_diverge :
    (x y : ℕ)
    → IsByte x
    → IsByte y
    → x ≢ y
    → let k = leading_zeros 8 (bit_xor x y) in
      (k < 8) × ((i : ℕ) → i < k → byte_bit x i ≡ byte_bit y i) × (byte_bit x k ≢ byte_bit y k)
unfolding splits
byte_diverge x y hx hy n =
    let k : ℕ = leading_zeros 8 (bit_xor x y) in
    let row =
      tabulated-true (λ z. (x == z) || splits x z) 256 y hy
        (tabulated-true (λ w. tabulated 256 (λ z. (w == z) || splits w z)) 256 x hx splits_table) in
    let (lt, agree, differ) = taken row in
    (lt, λ i h. (==_iff _ _).0 (tabulated-true _ _ i h agree), λ e. ground (arith, e, differ))
  where
    k : ℕ
    k = leading_zeros 8 (bit_xor x y)

    taken :
        ((x == y) || splits x y) ≡ true
        → (k < 8)
          × (tabulated k (λ i. byte_bit x i == byte_bit y i) ≡ true)
          × ((byte_bit x k == byte_bit y k) ≡ false)
    taken h = ground arith

bit_at_head : (x : ℕ) (xs : Bytes) (i : ℕ) → i < 8 → bit_at (x ∷ xs) i ≡ byte_bit x i
unfolding bit_at
bit_at_head x xs i h =
    let q : i / 8 ≡ 0 = omega arith in let r : i % 8 ≡ i = omega arith in rw (q, r)

bit_at_tail : (x : ℕ) (xs : Bytes) (i : ℕ) → bit_at (x ∷ xs) (8 + i) ≡ bit_at xs i
unfolding bit_at
bit_at_tail x xs i =
    let q : (8 + i) / 8 ≡ suc (i / 8) = omega arith in
    let r : (8 + i) % 8 ≡ i % 8 = omega arith in rw (q, r)

Diverge-head :
    (x y : ℕ) (xs ys : Bytes)
    → IsByte x
    → IsByte y
    → x ≢ y
    → Diverge (x ∷ xs) (y ∷ ys) (leading_zeros 8 (bit_xor x y))
Diverge-head x y xs ys hx hy n =
    let (lt, agree, differ) = byte_diverge x y hx hy n in
    record {
      within = omega (arith, lt);
      agree = λ i h.
          rw (bit_at_head x xs i (omega (arith, lt)), bit_at_head y ys i (omega (arith, lt)))
            (agree i h);
      differ = rw (bit_at_head x xs _ lt, bit_at_head y ys _ lt) differ;
    }

Diverge-tail : (x : ℕ) (xs ys : Bytes) (m : ℕ) → Diverge xs ys m → Diverge (x ∷ xs) (x ∷ ys) (8 + m)
Diverge-tail x xs ys m d = record {
  within = omega (arith, d.within);
  agree = λ i h. elim (dec_lt i 8) [
    | yes p ↦ rw (bit_at_head x xs i p, bit_at_head x ys i p)
    | no p ↦
        let e : i ≡ 8 + (i - 8) = omega arith in
        rw (e, bit_at_tail x xs (i - 8), bit_at_tail x ys (i - 8)) (d.agree (i - 8) (omega arith))
  ];
  differ = rw (bit_at_tail x xs m, bit_at_tail x ys m) d.differ;
}

prefix_loop_lem :
    (index : ℕ) (xs ys : Bytes)
    → length xs ≡ length ys
    → All IsByte xs
    → All IsByte ys
    → xs ≢ ys
    → (m : ℕ) × (prefix_loop index xs ys ≡ index * 8 + m) × Diverge xs ys m
unfolding prefix_loop
prefix_loop_lem index [] [] l a b n = absurd (n refl)
prefix_loop_lem index [] (y ∷ ys) l a b n = absurd (omega arith)
prefix_loop_lem index (x ∷ xs) [] l a b n = absurd (omega arith)
prefix_loop_lem index (x ∷ xs) (y ∷ ys) l a b n = elim (==_cases x y) [
  | inl (e, t) ↦
      let (m, q, d) =
        prefix_loop_lem (index + 1) xs ys (omega arith) a.1 b.1 (λ p. n (ap₂ ◌∷◌ e p)) in
      (
        8 + m,
        rw t (omega (arith, q)),
        subst (λ z. Diverge (x ∷ xs) (z ∷ ys) (8 + m)) e (Diverge-tail x xs ys m d),
      )
  | inr (e, t) ↦ (leading_zeros 8 (bit_xor x y), rw t, Diverge-head x y xs ys a.0 b.0 e)
]

-- Two different addresses of 32 bytes agree on the bits before `common_prefix_len` and differ at
-- it, and it is inside the address.
pub common_prefix_len_diverges :
    (a b : Bytes) → IsArray 32 a → IsArray 32 b → a ≢ b → Diverge a b (common_prefix_len a b)
unfolding common_prefix_len
common_prefix_len_diverges a b ha hb n =
    let (m, q, d) = prefix_loop_lem 0 a b (omega (arith, ha.0, hb.0)) ha.1 hb.1 n in
    subst (λ k. Diverge a b k) (omega (arith, q)) d

pub common_prefix_len-lt :
    (a b : Bytes) → IsArray 32 a → IsArray 32 b → a ≢ b → common_prefix_len a b < depth_limit
common_prefix_len-lt a b ha hb n =
    omega (arith, (common_prefix_len_diverges a b ha hb n).within, ha.0)

pub Diverge-le :
    (a b : Bytes) (m d : ℕ) → Diverge a b m → ((i : ℕ) → i < d → bit_at a i ≡ bit_at b i) → d ≤ m
Diverge-le a b m d v same = elim (dec_lt m d) [
  | yes p ↦ absurd (v.differ (same m p))
  | no p ↦ omega arith
]

-- The common prefix does not depend on the order of the two addresses.
pub common_prefix_len_comm :
    (a b : Bytes)
    → IsArray 32 a
    → IsArray 32 b
    → a ≢ b
    → common_prefix_len a b ≡ common_prefix_len b a
common_prefix_len_comm a b ha hb n =
    let v = common_prefix_len_diverges a b ha hb n in
    let w = common_prefix_len_diverges b a hb ha (λ e. n (sym e)) in
    let p = Diverge-le a b _ _ v (λ i h. sym (w.agree i h)) in
    let q = Diverge-le b a _ _ w (λ i h. sym (v.agree i h)) in omega (arith, p, q)

pub bit_at-lt : (a : Bytes) (i : ℕ) → bit_at a i < 2
unfolding bit_at
bit_at-lt a i = omega arith
