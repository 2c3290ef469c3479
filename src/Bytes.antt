-- ===== src/Bytes.antt =====
-- Byte strings as lists of numbers: comparison, fixed widths, and the big-endian integers of
-- `u64::to_be_bytes` and `u64::from_be_bytes`.
use Prim.Native.Char.{code}
use Prim.Native.String.{String}
use native.Mathlib.Nat.{pow-suc}
use payment_rollup.Prelude.{
  ℕ, zero, suc, ◌+◌, ◌*◌, ◌/◌, ◌%◌, ◌^◌, ◌<◌, ◌≡◌, ◌≢◌, ◌⊎◌, ◌∙◌, inl, inr, refl, ap, Bool, true,
  false, ◌&&◌, List, [], ◌∷◌, ◌++◌, arith, ◌==◌, length, length-append, All, All-append, take, drop,
  take-append, drop-append, sym,
}

-- `Vec<u8>`, `&[u8]` and `[u8; N]`.
abbrev pub Bytes : Type 0
Bytes = List ℕ

-- The bytes of a literal such as `b"LEAF"`.
abbrev pub ascii : String → Bytes
ascii String.[] = []
ascii (String.◌∷◌ c s) = code c ∷ ascii s

abbrev pub IsByte : ℕ → Type 0
IsByte b = b < 256

abbrev pub IsU64 : ℕ → Type 0
IsU64 v = v < 2 ^ 64

-- A value of the type `[u8; N]`.
abbrev pub IsArray : ℕ → Bytes → Type 0
IsArray n bs = (length bs ≡ n) × All IsByte bs

unfoldable pub bytes_eq : Bytes → Bytes → Bool
bytes_eq [] [] = true
bytes_eq [] (y ∷ ys) = false
bytes_eq (x ∷ xs) [] = false
bytes_eq (x ∷ xs) (y ∷ ys) = (x == y) && bytes_eq xs ys

pub bytes_eq_refl : (xs : Bytes) → bytes_eq xs xs ≡ true
unfolding bytes_eq
bytes_eq_refl [] = refl
bytes_eq_refl (x ∷ xs) = ground (arith, bytes_eq_refl xs)

pub bytes_eq→eq : (xs ys : Bytes) → bytes_eq xs ys ≡ true → xs ≡ ys
unfolding bytes_eq
bytes_eq→eq [] [] h = refl
bytes_eq→eq [] (y ∷ ys) h = cc
bytes_eq→eq (x ∷ xs) [] h = cc
bytes_eq→eq (x ∷ xs) (y ∷ ys) h = ground (arith, bytes_eq→eq xs ys)

-- Both outcomes of a comparison, with the equation of each.
pub bytes_eq_cases :
    (xs ys : Bytes) → (xs ≡ ys) × (bytes_eq xs ys ≡ true) ⊎ (xs ≢ ys) × (bytes_eq xs ys ≡ false)
bytes_eq_cases xs ys = go (bytes_eq xs ys) refl
  where
    go :
        (b : Bool)
        → bytes_eq xs ys ≡ b
        → (xs ≡ ys) × (bytes_eq xs ys ≡ true) ⊎ (xs ≢ ys) × (bytes_eq xs ys ≡ false)
    go true e = inl (bytes_eq→eq xs ys e, e)
    go false e = inr (λ p. cc (e, bytes_eq_refl xs, ap (bytes_eq xs) p), e)

pub bytes_ne : (xs ys : Bytes) → xs ≢ ys → bytes_eq xs ys ≡ false
bytes_ne xs ys n = elim (bytes_eq_cases xs ys) [ inl p ↦ absurd (n p.0) | inr p ↦ p.1 ]

-- The `n` big-endian bytes of `v`.
unfoldable pub to_be_bytes : ℕ → ℕ → Bytes
to_be_bytes zero v = []
to_be_bytes (suc n) v = to_be_bytes n (v / 256) ++ (v % 256) ∷ []

unfoldable pub from_be_loop : ℕ → Bytes → ℕ
from_be_loop acc [] = acc
from_be_loop acc (b ∷ bs) = from_be_loop (acc * 256 + b) bs

unfoldable pub from_be_bytes : Bytes → ℕ
unfolding from_be_loop
from_be_bytes bs = from_be_loop 0 bs

-- `u64::to_be_bytes`
abbrev pub u64_bytes : ℕ → Bytes
u64_bytes v = to_be_bytes 8 v

pub to_be_bytes-IsArray : (n v : ℕ) → IsArray n (to_be_bytes n v)
unfolding to_be_bytes
to_be_bytes-IsArray zero v = (refl, tt)
to_be_bytes-IsArray (suc n) v =
    let (l, a) = to_be_bytes-IsArray n (v / 256) in
    (
      omega (arith, l, length-append (to_be_bytes n (v / 256)) ((v % 256) ∷ [])),
      All-append IsByte _ _ a (omega arith),
    )

from_be_loop-append :
    (acc : ℕ) (xs ys : Bytes) → from_be_loop acc (xs ++ ys) ≡ from_be_loop (from_be_loop acc xs) ys
unfolding from_be_loop
from_be_loop-append acc [] ys = refl
from_be_loop-append acc (x ∷ xs) ys = from_be_loop-append (acc * 256 + x) xs ys

-- `from_be_bytes` reads back what `to_be_bytes` wrote.
pub from_be_bytes-to : (n v : ℕ) → v < 256 ^ n → from_be_bytes (to_be_bytes n v) ≡ v
unfolding from_be_bytes to_be_bytes
from_be_bytes-to zero v h = omega arith
from_be_bytes-to (suc n) v h =
    from_be_loop-append 0 (to_be_bytes n (v / 256)) ((v % 256) ∷ [])
    ∙ omega (arith, from_be_bytes-to n (v / 256) (omega (arith, pow-suc 256 n)))

-- A concatenation whose first part has a known length determines its parts.
pub append-injective :
    (xs ys us vs : Bytes) → length xs ≡ length ys → xs ++ us ≡ ys ++ vs → (xs ≡ ys) × (us ≡ vs)
append-injective xs ys us vs l e = (
  sym (take-append xs us)
      ∙ ap (take (length xs)) e
      ∙ ap (λ n. take n (ys ++ vs)) l
      ∙ take-append ys vs,
  sym (drop-append xs us)
      ∙ ap (drop (length xs)) e
      ∙ ap (λ n. drop n (ys ++ vs)) l
      ∙ drop-append ys vs,
)

pub to_be_bytes-injective :
    (n v w : ℕ) → v < 256 ^ n → w < 256 ^ n → to_be_bytes n v ≡ to_be_bytes n w → v ≡ w
to_be_bytes-injective n v w hv hw e =
    sym (from_be_bytes-to n v hv) ∙ ap from_be_bytes e ∙ from_be_bytes-to n w hw
