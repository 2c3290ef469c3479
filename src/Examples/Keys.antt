-- ===== src/Examples/Keys.antt =====
-- Keys of crates/sp1-host/src/scenarios.rs over small signature schemes.
use payment_rollup.Prelude.{◌≡◌, refl, [], ◌∷◌, ◌++◌, arith, ok, length, if◌then◌else◌}
use payment_rollup.Bytes.{Bytes, ascii, bytes_eq, bytes_eq_refl, to_be_bytes, to_be_bytes-IsArray}
use payment_rollup.Crypto.{Primitives}
use payment_rollup.Account.{Account}
use payment_rollup.Txn.{Signature}
use payment_rollup.Signing.{verify}
use payment_rollup.Falcon.{CLibrary, IsFalcon, SigningKey, from_seed, generate, prng_from_seed}
use payment_rollup.Scenarios.Keys.{Dalek, IsDalek, Key, hybrid_key, address, sign, verify-sign}
use payment_rollup.Examples.{weigh}

abbrev pub dalek : Dalek
dalek = record {
  verifying_key = λ seed. to_be_bytes 32 (weigh 3 seed);
  sign = λ seed m. to_be_bytes 64 (weigh 5 (to_be_bytes 32 (weigh 3 seed) ++ m));
}

abbrev pub falcon : CLibrary
falcon = record {
  Context = Bytes;
  zeroed = [];
  shake256_init_prng_from_seed = λ x seed. seed;
  shake256_extract = λ x n. (to_be_bytes n (weigh 9 x), 1 ∷ x);
  keygen = λ x. (0, to_be_bytes 1793 (weigh 11 x), to_be_bytes 1793 (weigh 11 x), 1 ∷ x);
  sign = λ private m. (0, to_be_bytes 100 (weigh 13 (private ++ m)));
}

instance abbrev pub strict : Primitives
strict = record {
  sha256 = λ m. to_be_bytes 32 (weigh 7 m);
  digest_shape = λ m. to_be_bytes-IsArray 32 (weigh 7 m);
  ed25519_key = λ key. bytes_eq key key;
  ed25519_strict = λ key sig m. bytes_eq sig (to_be_bytes 64 (weigh 5 (key ++ m)));
  falcon_compressed =
      λ sig key m. if bytes_eq sig (to_be_bytes 100 (weigh 13 (key ++ m))) then 0 else 1;
}

pub dalek-IsDalek : IsDalek ⦃p = strict⦄ dalek
dalek-IsDalek = record {
  key_size = λ seed. (to_be_bytes-IsArray 32 (weigh 3 seed)).0;
  signature_size =
      λ seed m. (to_be_bytes-IsArray 64 (weigh 5 (to_be_bytes 32 (weigh 3 seed) ++ m))).0;
  key_accepted = λ seed. bytes_eq_refl (to_be_bytes 32 (weigh 3 seed));
  verifies =
      λ seed m. bytes_eq_refl (to_be_bytes 64 (weigh 5 (to_be_bytes 32 (weigh 3 seed) ++ m)));
}

signature_size :
    (x m : Bytes) → length (to_be_bytes 100 (weigh 13 (to_be_bytes 1793 (weigh 11 x) ++ m))) ≡ 100
signature_size x m = (to_be_bytes-IsArray 100 _).0

pub falcon-IsFalcon : IsFalcon ⦃p = strict⦄ falcon
falcon-IsFalcon = record {
  keygen_succeeds = λ x. refl;
  public_size = λ x. (to_be_bytes-IsArray 1793 (weigh 11 x)).0;
  sign_succeeds = λ x m. refl;
  sign_long = λ x m. omega (arith, signature_size x m);
  sign_short = λ x m. omega (arith, signature_size x m);
  verifies = λ x m.
      rw (bytes_eq_refl (to_be_bytes 100 (weigh 13 (to_be_bytes 1793 (weigh 11 x) ++ m)))) refl;
}

abbrev seed : Bytes
seed = ascii "payment-rollup hybrid key!!!!!!!"

abbrev half : SigningKey
half = record {
  private = to_be_bytes 1793 (weigh 11 seed);
  public = to_be_bytes 1793 (weigh 11 seed);
}

half_grown : from_seed falcon seed ≡ ok half
unfolding from_seed generate prng_from_seed
half_grown = refl

abbrev hybrid : Key
hybrid = hybrid_key seed half

abbrev owner : Account
owner = record { nonce = 1; amount = 5; auth_address = address dalek falcon ⦃p = strict⦄ hybrid }

verify-sign_example :
    (s : Signature) × (sign dalek falcon hybrid (1 ∷ 2 ∷ 3 ∷ []) ≡ ok s)
    × (verify ⦃p = strict⦄ s owner (1 ∷ 2 ∷ 3 ∷ []) ≡ ok tt)
verify-sign_example =
    verify-sign dalek falcon ⦃p = strict⦄ dalek-IsDalek falcon-IsFalcon hybrid owner
      (1 ∷ 2 ∷ 3 ∷ []) half_grown refl
