-- ===== src/Host/Hash.antt =====
-- What `--genesis-hash` accepts (crates/sp1-host/src/main.rs, `parse_hash`).
use payment_rollup.Prelude.{
  ℕ, ◌+◌, ◌*◌, ◌/◌, ◌%◌, ◌<◌, ◌≡◌, refl, [], ◌∷◌, arith, length, All, ltb, leb, ◌==◌, not, true,
  false, ◌&&◌, ok, some,
}
use payment_rollup.Bytes.{Bytes, IsByte, IsArray}
use payment_rollup.Settlement.{hex_digit, hex}
use payment_rollup.Settlement.Hex.{from_hex-hex}
use payment_rollup.Host.{to_digit, from_str_radix, is_char_boundary, hash_bytes, parse_hash}

to_digit-hex_digit : (n : ℕ) → n < 16 → to_digit (hex_digit n) ≡ some n
unfolding to_digit hex_digit
to_digit-hex_digit n h = ground arith

-- A digit is no sign, and no part of a longer character.
hex_digit_plain :
    (n : ℕ)
    → n < 16
    → ((hex_digit n == 43) ≡ false) × (not (leb 128 (hex_digit n) && ltb (hex_digit n) 192) ≡ true)
unfolding hex_digit
hex_digit_plain n h = ground arith

from_str_radix-hex :
    (b : ℕ) → b < 256 → from_str_radix (hex_digit (b / 16)) (hex_digit (b % 16)) ≡ some b
unfolding from_str_radix
from_str_radix-hex b h =
    let high : b / 16 < 16 = omega arith in
    let low : b % 16 < 16 = omega arith in
    let whole : b / 16 * 16 + b % 16 ≡ b = omega arith in
    rw
      (
        from_str_radix,
        to_digit-hex_digit (b % 16) low,
        (hex_digit_plain (b / 16) high).0,
        to_digit-hex_digit (b / 16) high,
      )
      (rw whole)

from_str_radix-signed : (n : ℕ) → n < 16 → from_str_radix 43 (hex_digit n) ≡ some n
unfolding from_str_radix
from_str_radix-signed n h = rw (from_str_radix, to_digit-hex_digit n h)

hex-starts : (bytes : Bytes) → All IsByte bytes → is_char_boundary (hex bytes) ≡ true
unfolding hex is_char_boundary
hex-starts [] h = refl
hex-starts (b ∷ bs) h = (hex_digit_plain (b / 16) (omega (arith, h.0))).1

hash_bytes-hex : (bytes : Bytes) → All IsByte bytes → hash_bytes (hex bytes) ≡ ok bytes
unfolding hash_bytes hex is_char_boundary
hash_bytes-hex [] h = refl
hash_bytes-hex (b ∷ bs) h = rw (
  (hex_digit_plain (b / 16) (omega (arith, h.0))).1,
  hex-starts bs h.1,
  from_str_radix-hex b h.0,
  hash_bytes-hex bs h.1,
)

-- Each digit behind a sign.
abbrev pub signed : Bytes → Bytes
signed [] = []
signed (n ∷ ns) = 43 ∷ hex_digit n ∷ signed ns

signed-starts : (ns : Bytes) → is_char_boundary (signed ns) ≡ true
unfolding is_char_boundary
signed-starts [] = refl
signed-starts (n ∷ ns) = refl

hash_bytes-signed :
    (ns : Bytes)
    → All (λ n. n < 16) ns
    → (hash_bytes (signed ns) ≡ ok ns) × (length (signed ns) ≡ 2 * length ns)
unfolding hash_bytes is_char_boundary
hash_bytes-signed [] h = (refl, omega arith)
hash_bytes-signed (n ∷ ns) h =
    let (ih, long) = hash_bytes-signed ns h.1 in
    (rw (signed-starts ns, from_str_radix-signed n h.0, ih), omega (arith, long))

-- `--genesis-hash` reads back the text that `hex` prints for any 32 bytes; but it also accepts, as
-- 32 bytes below 16, any text of 32 digits with a sign before each, though the half of its
-- characters are no hexadecimal digits.
pub parse_hash-hex :
    (hash ns : Bytes)
    → IsArray 32 hash
    → length ns ≡ 32
    → All (λ n. n < 16) ns
    → (parse_hash (hex hash) ≡ ok hash) × (parse_hash (signed ns) ≡ ok ns)
unfolding parse_hash
parse_hash-hex hash ns h n d =
    let (read, long) = hash_bytes-signed ns d in
    (
      rw (hash_bytes-hex hash h.1) (ground (arith, (from_hex-hex hash h.1).1, h.0)),
      rw read (ground (arith, long, n)),
    )
