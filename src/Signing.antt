-- ===== src/Signing.antt =====
-- Signature checks: crates/payment-rollup/src/crypto.rs, `Signature::verify` of
-- crates/payment-rollup/src/lib.rs and `verify_compressed` of crates/falcon-det1024/src/lib.rs.
use payment_rollup.Prelude.{
  ℕ, ◌+◌, Bool, ◌&&◌, leb, ◌==◌, if◌then◌else◌, Result, ok, err, guard, ◌>>=◌, ◌>>◌, length, take,
  drop,
}
use payment_rollup.Bytes.{Bytes, bytes_eq}
use payment_rollup.Crypto.{Primitives}
use payment_rollup.Account.{
  Address, Scheme, managed, ed25519, falcon1024_hybrid_ed25519, address_from_public_key, Account,
  VerificationError, invalid_auth_address, invalid_signature, malformed_key, malformed_signature,
}
use payment_rollup.Txn.{Signature}

abbrev pub ed25519_public_key_size : ℕ
ed25519_public_key_size = 32

abbrev pub ed25519_signature_size : ℕ
ed25519_signature_size = 64

abbrev pub falcon_public_key_size : ℕ
falcon_public_key_size = 1793

abbrev pub falcon_max_signature_size : ℕ
falcon_max_signature_size = 1423

abbrev pub falcon_min_signature_size : ℕ
falcon_min_signature_size = 2

abbrev pub hybrid_public_key_size : ℕ
hybrid_public_key_size = ed25519_public_key_size + falcon_public_key_size

abbrev pub min_hybrid_signature_size : ℕ
min_hybrid_signature_size = ed25519_signature_size + falcon_min_signature_size

abbrev pub max_hybrid_signature_size : ℕ
max_hybrid_signature_size = ed25519_signature_size + falcon_max_signature_size

-- `try_into` a fixed-size array.
unfoldable pub as_key : ℕ → Bytes → Result VerificationError Bytes
as_key size pub_key = if length pub_key == size then ok pub_key else err malformed_key

module _ ⦃p : Primitives⦄ where
  unfoldable pub verify_ed25519 : Bytes → Bytes → Bytes → Result VerificationError (Unit {0})
  verify_ed25519 pub_key sig message = do
    guard (length sig == ed25519_signature_size) malformed_signature
    guard (p.ed25519_key pub_key) malformed_key
    guard (p.ed25519_strict pub_key sig message) invalid_signature

  -- `falcon_det1024::verify_compressed`: the C function returned 0.
  unfoldable pub verify_compressed : Bytes → Bytes → Bytes → Bool
  verify_compressed signature public_key message =
      p.falcon_compressed signature public_key message == 0

  -- The two halves of a hybrid key and signature, both of which must sign.
  unfoldable pub verify_hybrid : Bytes → Bytes → Bytes → Result VerificationError (Unit {0})
  unfolding as_key verify_ed25519 verify_compressed
  verify_hybrid pub_key sig message = do
    guard (length pub_key == hybrid_public_key_size) malformed_key
    guard (leb min_hybrid_signature_size (length sig) && leb (length sig) max_hybrid_signature_size)
        malformed_signature
    ed25519_key ← as_key ed25519_public_key_size (take ed25519_public_key_size pub_key)
    verify_ed25519 ed25519_key (take ed25519_signature_size sig) message
    falcon_key ← as_key falcon_public_key_size (drop ed25519_public_key_size pub_key)
    guard (verify_compressed (drop ed25519_signature_size sig) falcon_key message) invalid_signature

  -- `crypto::verify`
  unfoldable pub verify_scheme :
      Scheme → Bytes → Bytes → Bytes → Result VerificationError (Unit {0})
  unfolding verify_hybrid
  verify_scheme managed pub_key sig message = ok tt
  verify_scheme ed25519 pub_key sig message = do
    key ← as_key ed25519_public_key_size pub_key
    verify_ed25519 key sig message
  verify_scheme falcon1024_hybrid_ed25519 pub_key sig message = verify_hybrid pub_key sig message

  -- `Signature::address`
  unfoldable pub signer_address : Signature → Address
  signer_address s = address_from_public_key s.scheme s.pub_key

  unfoldable pub verify_auth : Signature → Account → Result VerificationError (Unit {0})
  unfolding signer_address
  verify_auth s account =
      if bytes_eq (signer_address s) account.auth_address then ok tt else err invalid_auth_address

  -- `Signature::verify`
  unfoldable pub verify : Signature → Account → Bytes → Result VerificationError (Unit {0})
  unfolding verify_auth verify_scheme
  verify s account message = do
    verify_auth s account
    verify_scheme s.scheme s.pub_key s.sig message
