-- ===== src/Falcon.antt =====
-- Key generation and signing of crates/falcon-det1024/src/lib.rs, around the C library.
use payment_rollup.Prelude.{ℕ, ◌≤◌, ◌≡◌, ◌==◌, true, if◌then◌else◌, Result, ok, err, ◌>>=◌, length}
use payment_rollup.Bytes.{Bytes}
use payment_rollup.Crypto.{Primitives}
use payment_rollup.Signing.{
  verify_compressed, falcon_public_key_size, falcon_max_signature_size, falcon_min_signature_size,
}

-- The C functions, which return a code and what they write. `Context` is `Shake256Context`.
pub record CLibrary : Type 1 where
  pub Context : Type 0
  pub zeroed : Context
  pub shake256_init_prng_from_seed : Context → Bytes → Context
  pub shake256_extract : Context → ℕ → Bytes × Context
  -- the code, the private key, the public key, and the context after
  pub keygen : Context → ℕ × Bytes × Bytes × Context
  -- the code and the signature, from a private key and a message
  pub sign : Bytes → Bytes → ℕ × Bytes

-- What the library documents: neither function fails, the keys and signatures have their sizes, and
-- a signature verifies under the key that goes with the one that made it.
pub record IsFalcon ⦃p : Primitives⦄ (c : CLibrary) : Type 0 where
  pub keygen_succeeds : (x : c.Context) → (c.keygen x).0 ≡ 0
  pub public_size : (x : c.Context) → length (c.keygen x).2 ≡ falcon_public_key_size
  pub sign_succeeds : (x : c.Context) (m : Bytes) → (c.sign (c.keygen x).1 m).0 ≡ 0
  pub sign_long :
      (x : c.Context) (m : Bytes) → falcon_min_signature_size ≤ length (c.sign (c.keygen x).1 m).1
  pub sign_short :
      (x : c.Context) (m : Bytes) → length (c.sign (c.keygen x).1 m).1 ≤ falcon_max_signature_size
  pub verifies :
      (x : c.Context) (m : Bytes)
      → p.falcon_compressed (c.sign (c.keygen x).1 m).1 (c.keygen x).2 m ≡ 0

-- A failed `assert_eq!` on the code of a C function.
pub data Halt : Type 0 where
  keygen_failed sign_failed : ℕ → Halt

pub record SigningKey : Type 0 where
  pub private : Bytes
  pub public : Bytes

module _ (c : CLibrary) where
  -- `Prng::from_seed` and `Prng::fill`
  unfoldable pub prng_from_seed : Bytes → c.Context
  prng_from_seed seed = c.shake256_init_prng_from_seed c.zeroed seed

  unfoldable pub fill : c.Context → ℕ → Bytes × c.Context
  fill rng size = c.shake256_extract rng size

  -- `SigningKey::generate`, with the stream that it leaves.
  unfoldable pub generate : c.Context → Result Halt (SigningKey × c.Context)
  generate rng =
      let (result, private, public, rng') = c.keygen rng in
      if result == 0
      then ok (record { private = private; public = public }, rng')
      else err (keygen_failed result)

  unfoldable pub from_seed : Bytes → Result Halt SigningKey
  unfolding prng_from_seed
  from_seed seed = do (key, rng) ← generate (prng_from_seed seed); ok key

  unfoldable pub public_key : SigningKey → Bytes
  public_key key = key.public

  unfoldable pub sign_compressed : SigningKey → Bytes → Result Halt Bytes
  sign_compressed key message =
      let (result, signature) = c.sign key.private message in
      if result == 0 then ok signature else err (sign_failed result)

  -- A key grown from a seed, what it signs a message with, and that the signature verifies.
  pub record Signs ⦃p : Primitives⦄ (seed message : Bytes) : Type 0 where
    pub key : SigningKey
    pub signature : Bytes
    pub grown : from_seed seed ≡ ok key
    pub signed : sign_compressed key message ≡ ok signature
    pub key_size : length (public_key key) ≡ falcon_public_key_size
    pub long : falcon_min_signature_size ≤ length signature
    pub short : length signature ≤ falcon_max_signature_size
    pub verified : verify_compressed signature (public_key key) message ≡ true

  -- Over a C library that does what it documents, every seed grows a key, without a panic, and the
  -- key signs every message, without a panic, with a signature that verifies.
  pub seed-Signs : ⦃p : Primitives⦄ → IsFalcon c → (seed message : Bytes) → Signs seed message
  unfolding from_seed generate sign_compressed public_key verify_compressed prng_from_seed
  seed-Signs f seed message =
      let rng = prng_from_seed seed in
      record {
        key = record { private = (c.keygen rng).1; public = (c.keygen rng).2 };
        signature = (c.sign (c.keygen rng).1 message).1;
        grown = rw (f.keygen_succeeds rng);
        signed = rw (f.sign_succeeds rng message);
        key_size = f.public_size rng;
        long = f.sign_long rng message;
        short = f.sign_short rng message;
        verified = rw (f.verifies rng message);
      }
