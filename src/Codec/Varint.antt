-- ===== src/Codec/Varint.antt =====
-- The integers of crates/payment-rollup/src/codec.rs: `Reader::varint` reads what `put_varint`
-- wrote.
use Prim.Native.Nat.{bit_and, bit_or, max, digits, bit_or-bitwise}
use mathlib.Core.WellFounded.{Acc}
use native.Mathlib.Nat.{pow-suc, le-div_iff_mul-le}
use native.Mathlib.Numerals.{towards_suc}
use payment_rollup.Prelude.{
  tabulated, tabulated-true, ℕ, zero, suc, ◌+◌, ◌*◌, ◌/◌, ◌%◌, ◌^◌, ◌≤◌, ◌<◌, ◌≡◌, refl, ap, ◌∙◌,
  false, [], ◌∷◌, ◌++◌, arith, ltb, ◌==◌, ==_iff, if◌then◌else◌, ok, length, All, le→ltb, lt→leb,
  ltb→lt, Bool-cases, inl, inr,
}
use payment_rollup.Bytes.{Bytes, IsByte, IsU64}
use payment_rollup.Codec.Reader.{lt_wf, u64_max, varint_loop, put_varint, read_varint, varint}

-- The law of `|` for the lowest digit, from the definition that the native operation stands for.
abbrev or_digits : ℕ → ℕ → ℕ → ℕ
or_digits n a b = digits (λ b. b) max n a b

or_digits_fuel : (n m a b : ℕ) → a ≤ n → a ≤ m → or_digits n a b ≡ or_digits m a b
or_digits_fuel zero zero a b p q = refl
or_digits_fuel zero (suc m) zero b p q = refl
or_digits_fuel zero (suc m) (suc a) b p q = absurd (omega arith)
or_digits_fuel (suc n) zero zero b p q = refl
or_digits_fuel (suc n) zero (suc a) b p q = absurd (omega arith)
or_digits_fuel (suc n) (suc m) zero b p q = refl
or_digits_fuel (suc n) (suc m) (suc a) b p q =
    omega (arith, or_digits_fuel n m (suc a / 2) (b / 2) (omega arith) (omega arith))

zero-bit_or : (b : ℕ) → bit_or 0 b ≡ b
zero-bit_or b = bit_or-bitwise 0 b

bit_or_step : (a b : ℕ) → bit_or a b ≡ bit_or (a / 2) (b / 2) * 2 + max (a % 2) (b % 2)
bit_or_step zero b = omega (arith, zero-bit_or b, zero-bit_or (b / 2))
bit_or_step (suc a) b = omega (
  arith,
  bit_or-bitwise (suc a) b,
  bit_or-bitwise (suc a / 2) (b / 2),
  or_digits_fuel a (suc a / 2) (suc a / 2) (b / 2) (omega arith) (omega arith),
)

-- Bits above those of `v` are added by `|`.
bit_or-shifted : (s v p : ℕ) → v < 2 ^ s → bit_or v (p * 2 ^ s) ≡ v + p * 2 ^ s
bit_or-shifted zero v p h =
    let none : v ≡ 0 = omega arith in rw none (zero-bit_or (p * 1) ∙ omega arith)
bit_or-shifted (suc s) v p h =
    let double : p * 2 ^ suc s ≡ p * 2 ^ s * 2 =
      omega (arith, ap (λ (t : ℕ). p * t) (pow-suc 2 s)) in
    let half : p * 2 ^ suc s / 2 ≡ p * 2 ^ s = omega (arith, double) in
    bit_or_step v (p * 2 ^ suc s)
    ∙ omega (
      arith,
      double,
      ap (bit_or (v / 2)) half,
      bit_or-shifted s (v / 2) p (omega (arith, pow-suc 2 s)),
    )

-- The continuation bit, set and tested.
set_top_bit : (b : ℕ) → b < 128 → bit_or b 0x80 ≡ b + 128
unfolding tabulated
set_top_bit b h = (==_iff _ _).0 (tabulated-true (λ x. bit_or x 0x80 == x + 128) 128 b h refl)

low_byte : (b : ℕ) → b < 128 → bit_and b 0x80 ≡ 0
unfolding tabulated
low_byte b h = (==_iff _ _).0 (tabulated-true (λ x. bit_and x 0x80 == 0) 128 b h refl)

high_byte : (b : ℕ) → b < 128 → bit_and (b + 128) 0x80 ≡ 128
unfolding tabulated
high_byte b h = (==_iff _ _).0 (tabulated-true (λ x. bit_and (x + 128) 0x80 == 128) 128 b h refl)

-- The groups of seven bits of `v`, lowest first, where `k` more may follow the first.
unfoldable pub groups : ℕ → ℕ → Bytes
groups zero v = v ∷ []
groups (suc k) v =
    let rest = groups k (v / 128) in if ltb v 128 then v ∷ [] else (v % 128 + 128) ∷ rest

varint_loop-groups : (k v : ℕ) (w : Acc ◌<◌ v) → v < 128 ^ suc k → varint_loop v w ≡ groups k v
unfolding varint_loop groups
varint_loop-groups zero v (Acc.intro _ smaller) h = ground arith
varint_loop-groups (suc k) v (Acc.intro _ smaller) h = grind (
  arith,
  set_top_bit (v % 128),
  λ (w : Acc ◌<◌ (v / 128)). varint_loop-groups k (v / 128) w (omega (arith, pow-suc 128 (suc k))),
)

put_varint-groups : (v : ℕ) → IsU64 v → put_varint v ≡ groups 9 v
unfolding put_varint
put_varint-groups v h = varint_loop-groups 9 v (lt_wf.apply v) (omega arith)

pow_pos : (s : ℕ) → 0 < 2 ^ s
pow_pos zero = omega arith
pow_pos (suc s) = omega (arith, pow_pos s, pow-suc 2 s)

-- A payload that fits is not refused, and joins the value.
module _ (g value shift : ℕ) (hg : g < 128) (low : value < 2 ^ shift) (hs : shift ≤ 63)
    (fits : value + g * 2 ^ shift < 2 ^ 64) where
  payload_fits : ltb (u64_max / 2 ^ shift) g ≡ false
  payload_fits = le→ltb _ _ ((le-div_iff_mul-le (pow_pos shift)).1 (omega arith))

  joined : bit_or value (g * 2 ^ shift % 2 ^ 64) ≡ value + g * 2 ^ shift
  joined = ap (bit_or value) (omega arith) ∙ bit_or-shifted shift value g low

  last_byte : (rest : Bytes) → read_varint (g ∷ rest) value shift ≡ ok (value + g * 2 ^ shift, rest)
  unfolding read_varint
  last_byte rest =
      let e : g % 128 ≡ g = omega arith in
      rw (e, payload_fits, joined, low_byte g hg, lt→leb 64 shift (omega arith))

  inner_byte :
      (rest : Bytes)
      → read_varint ((g + 128) ∷ rest) value shift
        ≡ read_varint rest (value + g * 2 ^ shift) (shift + 7)
  unfolding read_varint
  inner_byte rest =
      let e : (g + 128) % 128 ≡ g = omega arith in
      rw (e, payload_fits, joined, high_byte g hg, lt→leb 64 shift (omega arith))

pow_add_seven : (shift : ℕ) → 2 ^ (shift + 7) ≡ 2 ^ shift * 128
pow_add_seven shift = simp towards_suc (omega arith)

-- The group at `shift`, and the groups that stay for the next one.
group_and_rest :
    (value shift : ℕ) → value % 128 * 2 ^ shift + value / 128 * 2 ^ (shift + 7) ≡ value * 2 ^ shift
group_and_rest value shift =
    let next : value / 128 * 2 ^ (shift + 7) ≡ value / 128 * (2 ^ shift * 128) =
      ap (λ p. value / 128 * p) (pow_add_seven shift) in
    let whole : (value / 128 * 128 + value % 128) * 2 ^ shift ≡ value * 2 ^ shift =
      ap (λ v. v * 2 ^ shift) (omega arith) in
    omega (arith, next, whole)

group-lt : (g value s : ℕ) → g < 128 → value < 2 ^ s → value + g * 2 ^ s < 2 ^ (s + 7)
group-lt g value s hg low = grind (arith, pow_add_seven s)

read_varint-groups :
    (k w value shift : ℕ) (rest : Bytes)
    → w < 128 ^ suc k
    → shift + 7 * k ≤ 63
    → value < 2 ^ shift
    → value + w * 2 ^ shift < 2 ^ 64
    → read_varint (groups k w ++ rest) value shift ≡ ok (value + w * 2 ^ shift, rest)
unfolding groups
read_varint-groups zero w value shift rest hw hs low fits =
    last_byte w value shift (omega arith) low (omega arith) fits rest
read_varint-groups (suc k) w value shift rest hw hs low fits = elim (Bool-cases (ltb w 128)) [
  | inl small ↦ rw small (last_byte w value shift (ltb→lt w 128 small) low (omega arith) fits rest)
  | inr large ↦
      let split = group_and_rest w shift in
      rw large (
        inner_byte (w % 128) value shift (omega arith) low (omega arith) (omega (arith, split))
          (groups k (w / 128) ++ rest)
        ∙ read_varint-groups k (w / 128) (value + w % 128 * 2 ^ shift) (shift + 7) rest
            (omega (arith, pow-suc 128 (suc k))) (omega arith)
            (group-lt (w % 128) value shift (omega arith) low) (omega (arith, split))
        ∙ ap (λ z. ok (z, rest)) (omega (arith, split)))
]

-- `varint` reads back the 64-bit number that `put_varint` wrote, and leaves what follows.
pub varint-put_varint :
    (v : ℕ) (rest : Bytes) → IsU64 v → varint (put_varint v ++ rest) ≡ ok (v, rest)
unfolding varint
varint-put_varint v rest h = rw (put_varint-groups v h) (
    read_varint-groups 9 v 0 0 rest (omega arith) (omega arith) (omega arith) (omega arith)
    ∙ ap (λ z. ok (z, rest)) (omega arith))

groups-IsByte : (k v : ℕ) → v < 128 ^ suc k → All IsByte (groups k v)
unfolding groups
groups-IsByte zero v h = omega arith
groups-IsByte (suc k) v h =
    ground (arith, groups-IsByte k (v / 128) (omega (arith, pow-suc 128 (suc k))))

length-groups : (k v : ℕ) → (1 ≤ length (groups k v)) × (length (groups k v) ≤ k + 1)
unfolding groups
length-groups zero v = omega arith
length-groups (suc k) v = ground (arith, length-groups k (v / 128))

-- For a 64-bit number, `put_varint` pushes 1 to 10 numbers, each a byte.
pub put_varint_shape :
    (v : ℕ)
    → IsU64 v
    → (1 ≤ length (put_varint v)) × (length (put_varint v) ≤ 10) × All IsByte (put_varint v)
put_varint_shape v h =
    let (lo, hi) = length-groups 9 v in
    rw (put_varint-groups v h) (lo, hi, groups-IsByte 9 v (omega arith))

length-varint_loop : (v : ℕ) (w : Acc ◌<◌ v) → 1 ≤ length (varint_loop v w)
unfolding varint_loop
length-varint_loop v (Acc.intro _ smaller) = ground arith

-- Every number takes a byte.
pub length-put_varint : (v : ℕ) → 1 ≤ length (put_varint v)
unfolding put_varint
length-put_varint v = length-varint_loop v (lt_wf.apply v)
