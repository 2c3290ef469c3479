-- ===== src/Crypto.antt =====
-- The third-party cryptography that crates/payment-rollup calls, as an interface.
use payment_rollup.Prelude.{ℕ, Bool}
use payment_rollup.Bytes.{Bytes, IsArray}

-- `sha256` is `Sha256::digest` of the `sha2` crate: updates of one hasher digest the concatenation.
-- `ed25519_key` says that `VerifyingKey::from_bytes` accepts the key, and `ed25519_strict` that
-- `verify_strict key sig message` does. `falcon_compressed` is the C library's
-- `falcon_det1024_verify_compressed` on the signature, the key and the message, its `c_int` read as
-- a bit pattern.
pub record Primitives : Type 0 where
  pub sha256 : Bytes → Bytes
  pub digest_shape : (message : Bytes) → IsArray 32 (sha256 message)
  pub ed25519_key : Bytes → Bool
  pub ed25519_strict : Bytes → Bytes → Bytes → Bool
  pub falcon_compressed : Bytes → Bytes → Bytes → ℕ

-- SHA-256 of a byte string.
abbrev pub sha256 : ⦃p : Primitives⦄ → Bytes → Bytes
sha256 ⦃p⦄ = p.sha256
