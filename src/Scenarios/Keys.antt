-- ===== src/Scenarios/Keys.antt =====
-- The keys of crates/sp1-host/src/scenarios.rs, and that what they sign is accepted.
use payment_rollup.Prelude.{
  ◌≡◌, refl, sym, ◌∙◌, true, ==_iff, le→leb, [], ◌++◌, arith, Result, ok, ok-injective, ◌>>=◌,
  length, length-append, subst,
}
use payment_rollup.Bytes.{Bytes, bytes_eq_refl}
use payment_rollup.Crypto.{Primitives}
use payment_rollup.Account.{
  Address, Account, Scheme, managed, ed25519, falcon1024_hybrid_ed25519, address_from_public_key,
}
use payment_rollup.Txn.{Signature}
use payment_rollup.Signing.{
  as_key, verify_ed25519, verify_hybrid, verify_scheme, signer_address, verify_auth, verify,
}
use payment_rollup.Falcon.{
  CLibrary, IsFalcon, Halt, SigningKey, from_seed, public_key, sign_compressed, Signs, seed-Signs,
}
use payment_rollup.Codec.Fields.{take_n-append}

-- `SigningKey` of the `ed25519_dalek` crate, whose bytes are its seed: the bytes of its verifying
-- key, and of its signature over a message.
pub record Dalek : Type 0 where
  pub verifying_key : Bytes → Bytes
  pub sign : Bytes → Bytes → Bytes

-- What the crate documents.
pub record IsDalek ⦃p : Primitives⦄ (d : Dalek) : Type 0 where
  pub key_size : (seed : Bytes) → length (d.verifying_key seed) ≡ 32
  pub signature_size : (seed m : Bytes) → length (d.sign seed m) ≡ 64
  pub key_accepted : (seed : Bytes) → p.ed25519_key (d.verifying_key seed) ≡ true
  pub verifies : (seed m : Bytes) → p.ed25519_strict (d.verifying_key seed) (d.sign seed m) m ≡ true

pub data Key : Type 0 where
  managed_key : Bytes → Key
  ed25519_key : Bytes → Key
  hybrid_key : Bytes → SigningKey → Key

unfoldable pub scheme : Key → Scheme
scheme (managed_key seed) = managed
scheme (ed25519_key key) = ed25519
scheme (hybrid_key key falcon) = falcon1024_hybrid_ed25519

module _ (d : Dalek) (c : CLibrary) where
  -- `Key::hybrid`
  unfoldable pub hybrid : Bytes → Result Halt Key
  hybrid seed = do falcon ← from_seed c seed; ok (hybrid_key seed falcon)

  -- `Key::pub_key`
  unfoldable pub pub_key : Key → Bytes
  pub_key (managed_key seed) = seed
  pub_key (ed25519_key key) = d.verifying_key key
  pub_key (hybrid_key key falcon) = d.verifying_key key ++ public_key c falcon

  -- The bytes of a signature.
  unfoldable pub sign_bytes : Key → Bytes → Result Halt Bytes
  sign_bytes (managed_key seed) message = ok []
  sign_bytes (ed25519_key key) message = ok (d.sign key message)
  sign_bytes (hybrid_key key falcon) message = do
    half ← sign_compressed c falcon message
    ok (d.sign key message ++ half)

  -- `Key::sign`
  unfoldable pub sign : Key → Bytes → Result Halt Signature
  sign key message = do
    sig ← sign_bytes key message
    ok (record { scheme = scheme key; pub_key = pub_key key; sig = sig })

  module _ ⦃p : Primitives⦄ where
    -- `Key::address`
    unfoldable pub address : Key → Address
    address key = address_from_public_key (scheme key) (pub_key key)

    -- The keys that the three constructors make.
    abbrev pub Grown : Key → Type 0
    Grown (managed_key seed) = Unit
    Grown (ed25519_key seed) = Unit
    Grown (hybrid_key seed falcon) = from_seed c seed ≡ ok falcon

    ed25519_verifies :
        (f : IsDalek d) (seed message : Bytes)
        → verify_ed25519 (d.verifying_key seed) (d.sign seed message) message ≡ ok tt
    unfolding verify_ed25519
    ed25519_verifies f seed message =
        rw ((==_iff _ _).1 (f.signature_size seed message))
          (rw (f.key_accepted seed, f.verifies seed message))

    hybrid_verifies :
        (f : IsDalek d) (seed message : Bytes) (s : Signs c seed message)
        → verify_hybrid
            (d.verifying_key seed ++ public_key c s.key)
            (d.sign seed message ++ s.signature)
            message
          ≡ ok tt
    unfolding verify_hybrid as_key
    hybrid_verifies f seed message s =
        let key = d.verifying_key seed in
        let half = d.sign seed message in
        let (k₁, k₂) = take_n-append 32 key (public_key c s.key) (f.key_size seed) in
        let (s₁, s₂) = take_n-append 64 half s.signature (f.signature_size seed message) in
        let key_long = length-append key (public_key c s.key) in
        let sig_long = length-append half s.signature in
        rw
          ((==_iff (length (key ++ public_key c s.key)) 1825).1
            (omega (arith, key_long, f.key_size seed, s.key_size)))
          (rw
            (
              le→leb 66 (length (half ++ s.signature))
                  (omega (arith, sig_long, f.signature_size seed message, s.long)),
              le→leb (length (half ++ s.signature)) 1487
                  (omega (arith, sig_long, f.signature_size seed message, s.short)),
            )
            (rw (k₁, k₂, s₁, s₂)
              (rw ((==_iff _ _).1 (f.key_size seed)) (
                rw (ed25519_verifies f seed message)
                  (rw ((==_iff _ _).1 s.key_size) (rw s.verified))))))

    -- What a key has signed is accepted for an account whose authority is its address.
    abbrev Accepted : Key → Account → Bytes → Type 0
    Accepted key account message =
        (s : Signature) × (sign key message ≡ ok s) × (verify s account message ≡ ok tt)

    sign-Accepted :
        (key : Key) (account : Account) (message sig : Bytes)
        → account.auth_address ≡ address key
        → sign_bytes key message ≡ ok sig
        → verify_scheme (scheme key) (pub_key key) sig message ≡ ok tt
        → Accepted key account message
    unfolding sign verify verify_auth signer_address address
    sign-Accepted key account message sig auth signed verified = (
      record { scheme = scheme key; pub_key = pub_key key; sig = sig },
      rw signed,
      rw (auth, bytes_eq_refl (address_from_public_key (scheme key) (pub_key key))) (rw verified),
    )

    -- Over an Ed25519 crate and a C library that do what they document, a key grown from a seed
    -- signs every message without a panic, under each of the three schemes, and the signature is
    -- accepted for an account whose authority is the key's address.
    pub verify-sign :
        IsDalek d
        → IsFalcon c
        → (key : Key) (account : Account) (message : Bytes) → Grown key
        → account.auth_address ≡ address key
        → (s : Signature) × (sign key message ≡ ok s) × (verify s account message ≡ ok tt)
    unfolding sign_bytes scheme pub_key verify_scheme
    verify-sign f g (managed_key seed) account message grown auth =
        sign-Accepted (managed_key seed) account message [] auth refl refl
    verify-sign f g (ed25519_key seed) account message grown auth =
        sign-Accepted (ed25519_key seed) account message (d.sign seed message) auth refl
          (unfold as_key in rw ((==_iff _ _).1 (f.key_size seed)) (ed25519_verifies f seed message))
    verify-sign f g (hybrid_key seed falcon) account message grown auth =
        let s = seed-Signs c g seed message in
        let same : s.key ≡ falcon = ok-injective (sym s.grown ∙ grown) in
        subst
          (λ k.
            account.auth_address ≡ address (hybrid_key seed k)
            → Accepted (hybrid_key seed k) account message)
          same
          (λ a.
            sign-Accepted (hybrid_key seed s.key) account message
              (d.sign seed message ++ s.signature) a (rw s.signed)
              (hybrid_verifies f seed message s))
          auth
