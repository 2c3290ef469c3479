-- ===== src/Settlement/Hex.antt =====
-- The text that crates/sp1-host/src/lib.rs prints for byte strings, `hex`, loses nothing.
use payment_rollup.Prelude.{
  ℕ, ◌+◌, ◌*◌, ◌/◌, ◌%◌, ◌<◌, ◌≡◌, refl, ◌-◌, [], ◌∷◌, arith, length, All, ltb, if◌then◌else◌,
}
use payment_rollup.Bytes.{Bytes, IsByte}
use payment_rollup.Settlement.{hex_digit, hex}

-- The digit that a character stands for.
unfoldable pub digit_value : ℕ → ℕ
unfolding hex_digit
digit_value c = if ltb c 58 then c - 48 else c - 87

-- The bytes that pairs of characters stand for.
unfoldable pub from_hex : Bytes → Bytes
from_hex [] = []
from_hex (c ∷ []) = []
from_hex (c ∷ d ∷ rest) = (digit_value c * 16 + digit_value d) ∷ from_hex rest

digit_value-hex_digit : (n : ℕ) → n < 16 → digit_value (hex_digit n) ≡ n
unfolding digit_value hex_digit
digit_value-hex_digit n h = ground arith

-- The text of a byte string has two characters for each byte, and reading them back in pairs gives
-- the byte string.
pub from_hex-hex :
    (bytes : Bytes)
    → All IsByte bytes
    → (from_hex (hex bytes) ≡ bytes) × (length (hex bytes) ≡ 2 * length bytes)
unfolding from_hex hex
from_hex-hex [] h = (refl, omega arith)
from_hex-hex (b ∷ bs) h =
    let (ih, len) = from_hex-hex bs h.1 in
    let head : digit_value (hex_digit (b / 16)) * 16 + digit_value (hex_digit (b % 16)) ≡ b =
      omega (
        arith,
        digit_value-hex_digit (b / 16) (omega (arith, h.0)),
        digit_value-hex_digit (b % 16) (omega arith),
      ) in
    (λ i. head i ∷ ih i, omega (arith, len))
