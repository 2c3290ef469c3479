-- ===== src/Codec/Fields.antt =====
-- The fixed-width fields of crates/payment-rollup/src/codec.rs read back what was pushed.
use payment_rollup.Prelude.{
  ℕ, ◌*◌, ◌≤◌, ◌≡◌, refl, sym, ap, ◌∙◌, subst, false, ◌++◌, arith, append_assoc, ltb, le→ltb,
  le→leb, ok, length, length-append, take, drop, take-append, drop-append, some,
}
use payment_rollup.Bytes.{Bytes, u64_bytes, to_be_bytes-IsArray, from_be_bytes, from_be_bytes-to}
use payment_rollup.Account
use payment_rollup.Account.{
  Account, IsAccount, encoded_account_size, Scheme, managed, ed25519, falcon1024_hybrid_ed25519,
  identifier, from_identifier,
}
use payment_rollup.Codec.Reader.{
  Read, usize_max, put_varint, put_bytes, take_bytes, read_bytes, account, count,
}
use payment_rollup.Codec.Varint.{varint-put_varint}

-- `take` of a whole field leaves what follows it.
pub take_bytes-append :
    (n : ℕ) (field rest : Bytes)
    → length field ≡ n
    → take_bytes n (field ++ rest) ≡ ok (field, rest)
unfolding take_bytes
take_bytes-append n field rest l =
    let long : ltb (length (field ++ rest)) n ≡ false =
      le→ltb _ _ (omega (arith, l, length-append field rest)) in
    rw long (
      subst
        (λ k.
          ◌≡◌ {A = Read Bytes} (ok (take k (field ++ rest), drop k (field ++ rest)))
            (ok (field, rest)))
        l (λ i. ok (take-append field rest i, drop-append field rest i)))

length-u64_bytes : (v : ℕ) → length (u64_bytes v) ≡ 8
length-u64_bytes v = (to_be_bytes-IsArray 8 v).0

pub length-encode_account :
    (a : Account) → IsAccount a → length (Account.encode a) ≡ encoded_account_size
unfolding Account.encode
length-encode_account a h = omega (
  arith,
  length-append (u64_bytes a.nonce) (u64_bytes a.amount ++ a.auth_address),
  length-append (u64_bytes a.amount) a.auth_address,
  length-u64_bytes a.nonce,
  length-u64_bytes a.amount,
  h.auth_fits.0,
)

pub take_n-append :
    (n : ℕ) (xs ys : Bytes) → length xs ≡ n → (take n (xs ++ ys) ≡ xs) × (drop n (xs ++ ys) ≡ ys)
take_n-append n xs ys l =
    subst (λ k. (take k (xs ++ ys) ≡ xs) × (drop k (xs ++ ys) ≡ ys)) l
      (take-append xs ys, drop-append xs ys)

-- `Account::decode` is the inverse of `Account::encode`.
pub decode-encode_account : (a : Account) → IsAccount a → Account.decode (Account.encode a) ≡ a
unfolding Account.decode Account.encode
decode-encode_account a h =
    let (t₁, d₁) =
      take_n-append 8 (u64_bytes a.nonce) (u64_bytes a.amount ++ a.auth_address)
        (length-u64_bytes a.nonce) in
    let (t₂, d₂) =
      take_n-append 8 (u64_bytes a.amount) a.auth_address (length-u64_bytes a.amount) in
    let d₃ =
      (take_n-append 16 (u64_bytes a.nonce ++ u64_bytes a.amount) a.auth_address (
        omega (
          arith,
          length-append (u64_bytes a.nonce) (u64_bytes a.amount),
          length-u64_bytes a.nonce,
          length-u64_bytes a.amount,
        ))).1 in
    let nonce = ap from_be_bytes t₁ ∙ from_be_bytes-to 8 a.nonce h.nonce_fits in
    let amount =
      ap from_be_bytes (ap (take 8) d₁ ∙ t₂) ∙ from_be_bytes-to 8 a.amount h.amount_fits in
    let auth =
      ap (drop 16) (sym (append_assoc (u64_bytes a.nonce) (u64_bytes a.amount) a.auth_address))
      ∙ d₃ in
    λ i. record { nonce = nonce i; amount = amount i; auth_address = auth i }

-- `Reader::account` reads back an encoded account, whose nonce and amount are 64-bit numbers and
-- whose authority is 32 bytes, and leaves what follows.
pub account-encode :
    (a : Account) (rest : Bytes) → IsAccount a → account (Account.encode a ++ rest) ≡ ok (a, rest)
unfolding account
account-encode a rest h =
    rw (take_bytes-append encoded_account_size (Account.encode a) rest (length-encode_account a h))
      (rw (decode-encode_account a h))

-- `Scheme::from_identifier` recovers every scheme.
pub from_identifier-identifier : (s : Scheme) → from_identifier (identifier s) ≡ some s
unfolding from_identifier
from_identifier-identifier managed = refl
from_identifier-identifier ed25519 = refl
from_identifier-identifier falcon1024_hybrid_ed25519 = refl

-- A count is read back when it and the `stride` bytes it claims for each item fit a size, and what
-- follows is at least as long as those bytes.
pub count-put_varint :
    (n stride : ℕ) (rest : Bytes)
    → n * stride ≤ usize_max
    → n ≤ usize_max
    → n * stride ≤ length rest
    → count stride (put_varint n ++ rest) ≡ ok (n, rest)
unfolding count
count-put_varint n stride rest small size backed =
    rw (varint-put_varint n rest (omega arith))
      (rw (le→leb n usize_max size, le→leb _ _ small, le→leb _ _ backed))

-- A length-prefixed byte string, no longer than a size can be, is read back, and what follows is
-- left.
pub read_bytes-put_bytes :
    (bytes rest : Bytes)
    → length bytes ≤ usize_max
    → read_bytes (put_bytes bytes ++ rest) ≡ ok (bytes, rest)
unfolding read_bytes put_bytes
read_bytes-put_bytes bytes rest h = rw (append_assoc (put_varint (length bytes)) bytes rest) (
    rw
      (count-put_varint (length bytes) 1 (bytes ++ rest) (omega arith) h
        (omega (arith, length-append bytes rest)))
      (take_bytes-append (length bytes) bytes rest refl))
