-- ===== src/Codec/Reader.antt =====
-- `Reader` and the integers of crates/payment-rollup/src/codec.rs. A method of the cursor takes the
-- bytes that remain and returns what it read with the bytes that then remain; a function that
-- pushes to a buffer returns what it pushes. Sizes are those of the guest, a 32-bit machine.
use Prim.Native.Nat.{bit_and, bit_or}
use mathlib.Core.Logic.{dite}
use mathlib.Core.WellFounded.{Acc, WellFounded}
use payment_rollup.Prelude.{
  ℕ, zero, suc, ◌+◌, ◌-◌, ◌*◌, ◌/◌, ◌%◌, ◌^◌, ◌<◌, ◌||◌, ◌&&◌, [], ◌∷◌, ◌++◌, arith, ltb, leb, ◌==◌,
  if◌then◌else◌, dec_lt, Result, ok, err, guard, ◌>>=◌, ◌>>◌, length, take, drop,
}
use payment_rollup.Bytes.{Bytes}
use payment_rollup.Account
use payment_rollup.Account.{Account, encoded_account_size}

pub data DecodeError : Type 0 where
  unsupported_version : ℕ → DecodeError
  unexpected_end trailing_bytes malformed_varint implausible_length : DecodeError
  unknown_transaction_kind : ℕ → DecodeError
  unknown_scheme : Bytes → DecodeError
  unknown_slot_kind unknown_presence_tag unknown_address_ref proof_too_deep : ℕ → DecodeError
  sidecar_length_mismatch : ℕ → ℕ → DecodeError

abbrev pub Read : Type 0 → Type 0
Read A = Result DecodeError (A × Bytes)

abbrev pub usize_max : ℕ
usize_max = 2 ^ 32 - 1

abbrev pub u64_max : ℕ
u64_max = 2 ^ 64 - 1

Acc-below : (k n : ℕ) → n < k → Acc ◌<◌ n
Acc-below zero n h = elim h [ ]
Acc-below (suc k) n h = Acc.intro n (λ m hm. Acc-below k m (omega arith))

unfoldable pub lt_wf : WellFounded ◌<◌
unfolding Acc-below
lt_wf = record { apply = λ n. Acc-below (suc n) n (omega arith) }

shift_falls : (v : ℕ) → 0 < v / 128 → v / 128 < v
shift_falls v h = omega arith

-- `value & 0x7f` is `value % 128` and `value >>= 7` is `value / 128`.
unfoldable pub varint_loop : (v : ℕ) → Acc ◌<◌ v → Bytes
unfolding shift_falls
varint_loop v (Acc.intro _ smaller) =
    let byte = v % 128 in
    dite (dec_lt 0 (v / 128))
      (λ more. bit_or byte 0x80 ∷ varint_loop (v / 128) (smaller (v / 128) (shift_falls v more)))
      (λ _. byte ∷ [])

unfoldable pub put_varint : ℕ → Bytes
unfolding varint_loop lt_wf dec_lt
put_varint value = varint_loop value (lt_wf.apply value)

unfoldable pub put_bytes : Bytes → Bytes
put_bytes bytes = put_varint (length bytes) ++ bytes

unfoldable pub take_bytes : ℕ → Bytes → Read Bytes
take_bytes len bytes =
    if ltb (length bytes) len then err unexpected_end else ok (take len bytes, drop len bytes)

-- `take(1)?[0]`
unfoldable pub byte : Bytes → Read ℕ
byte [] = err unexpected_end
byte (b ∷ rest) = ok (b, rest)

-- The loop of `varint`. `u64::MAX >> shift` is read only below 64.
unfoldable pub read_varint : Bytes → ℕ → ℕ → Read ℕ
read_varint [] value shift = err unexpected_end
read_varint (b ∷ rest) value shift =
    let payload = b % 128 in
    let value' = bit_or value (payload * 2 ^ shift % 2 ^ 64) in
    let more = read_varint rest value' (shift + 7) in
    if leb 64 shift || ltb (u64_max / 2 ^ shift) payload
    then err malformed_varint
    else if bit_and b 0x80 == 0
    then ok (value', rest)
    else more

unfoldable pub varint : Bytes → Read ℕ
unfolding read_varint
varint bytes = read_varint bytes 0 0

unfoldable pub expect_version : ℕ → Bytes → Result DecodeError Bytes
expect_version expected bytes = do
  (version, rest) ← byte bytes
  if version == expected then ok rest else err (unsupported_version version)

-- `usize::try_from`, then `checked_mul` and the comparison with what remains.
unfoldable pub count : ℕ → Bytes → Read ℕ
unfolding varint
count stride bytes = do
  (n, rest) ← varint bytes
  guard (leb n usize_max) implausible_length
  guard (leb (n * stride) usize_max && leb (n * stride) (length rest)) implausible_length
  ok (n, rest)

-- `Reader::bytes`
unfoldable pub read_bytes : Bytes → Read Bytes
unfolding count take_bytes
read_bytes bytes = do (len, rest) ← count 1 bytes; take_bytes len rest

unfoldable pub account : Bytes → Read Account
unfolding take_bytes
account bytes = do
  (encoded, rest) ← take_bytes encoded_account_size bytes
  ok (Account.decode encoded, rest)

unfoldable pub finish : Bytes → Result DecodeError (Unit {0})
finish [] = ok tt
finish (b ∷ rest) = err trailing_bytes
