-- ===== src/Scenarios/Signed.antt =====
-- The transactions that the keys of crates/sp1-host/src/scenarios.rs sign can be submitted.
use payment_rollup.Prelude.{
  ℕ, suc, ◌+◌, ◌<◌, ◌≤◌, ◌≡◌, refl, sym, ap, ◌∙◌, subst, List, [], ◌∷◌, arith, ok, >>=-eq-ok,
  ok-injective, length, length-append, All,
}
use payment_rollup.Bytes.{Bytes, IsU64, IsArray}
use payment_rollup.Crypto.{Primitives}
use payment_rollup.Account.{DeploymentDomain}
use payment_rollup.Txn.{SignedTransaction, Signature, new_payment, new_withdrawal, new_deposit}
use payment_rollup.Codec.Reader.{usize_max}
use payment_rollup.Codec.Sidecar.Fields.{IsSignature}
use payment_rollup.Ledger.Formed.{IsSubmitted}
use payment_rollup.Falcon.{
  CLibrary, IsFalcon, SigningKey, from_seed, sign_compressed, public_key, seed-Signs,
}
use payment_rollup.Scenarios.Keys.{
  Dalek, IsDalek, Key, managed_key, ed25519_key, hybrid_key, address, pub_key, sign_bytes, sign,
}
use payment_rollup.Scenarios.Load.{fund, cycle_payments, cycle_withdrawals}
use payment_rollup.Scenarios.Submitted.{l1_account-IsArray, address-IsArray}

-- A key of the scenarios: its seed is of a size, and a hybrid one was grown from its seed.
abbrev pub IsKey : CLibrary → Key → Type 0
IsKey c (managed_key seed) = length seed ≤ 64
IsKey c (ed25519_key seed) = Unit
IsKey c (hybrid_key seed falcon) = from_seed c seed ≡ ok falcon

-- Transactions that can be submitted, no more than some number.
abbrev pub Signed : ℕ → List SignedTransaction → Type 0
Signed most ts = All IsSubmitted ts × (length ts ≤ most)

module _ ⦃p : Primitives⦄ (d : Dalek) (c : CLibrary) (e : IsDalek d) (f : IsFalcon c) where
  half_fits :
      (seed message : Bytes) {falcon : SigningKey} {half : Bytes}
      → from_seed c seed ≡ ok falcon
      → sign_compressed c falcon message ≡ ok half
      → (length (public_key c falcon) ≡ 1793) × (length half ≤ 1423)
  half_fits seed message grown signed =
      let s = seed-Signs c f seed message in
      let key = ok-injective (sym s.grown ∙ grown) in
      let bytes =
        ok-injective (sym s.signed ∙ ap (λ k. sign_compressed c k message) key ∙ signed) in
      (
        sym (ap (λ k. length (public_key c k)) key) ∙ s.key_size,
        subst (λ b. length b ≤ 1423) bytes s.short,
      )

  pub sign-IsSignature :
      (key : Key) (message : Bytes) {s : Signature}
      → IsKey c key
      → sign d c key message ≡ ok s
      → IsSignature s
  unfolding sign sign_bytes pub_key
  sign-IsSignature (managed_key seed) message k h =
      subst IsSignature (ok-injective h) (record { key_fits = omega arith; sig_fits = omega arith })
  sign-IsSignature (ed25519_key seed) message k h = subst IsSignature (ok-injective h) (record {
    key_fits = omega (arith, e.key_size seed);
    sig_fits = omega (arith, e.signature_size seed message);
  })
  sign-IsSignature (hybrid_key seed falcon) message k h =
      let (bytes, made, done) = >>=-eq-ok (sign_bytes d c (hybrid_key seed falcon) message) _ h in
      let (half, signed, joined) = >>=-eq-ok (sign_compressed c falcon message) _ made in
      let (long, short) = half_fits seed message k signed in
      let whole : length bytes ≤ usize_max =
        subst (λ b. length b ≤ usize_max) (ok-injective joined)
          (omega (
            arith,
            length-append (d.sign seed message) half,
            e.signature_size seed message,
            short,
          )) in
      subst IsSignature (ok-injective done) (record {
        key_fits = omega (
          arith,
          length-append (d.verifying_key seed) (public_key c falcon),
          e.key_size seed,
          long,
        );
        sig_fits = whole;
      })

  pub key-IsArray : (key : Key) → IsArray 32 (address d c key)
  unfolding address
  key-IsArray key = address-IsArray _ _

  pub fund-IsSubmitted :
      (amount : ℕ) (keys : List Key)
      → IsU64 amount
      → All IsSubmitted (fund d c amount keys) × (length (fund d c amount keys) ≡ length keys)
  unfolding fund new_deposit
  fund-IsSubmitted amount [] h = (tt, refl)
  fund-IsSubmitted amount (key ∷ keys) h =
      let (ih, long) = fund-IsSubmitted amount keys h in
      (((key-IsArray key, h, refl, refl), ih), ap suc long)

  pub cycle_payments-Signed :
      (domain : DeploymentDomain) (keys : List Key) (index : ℕ) (rest : List Key)
      {ts : List SignedTransaction}
      → All (IsKey c) rest
      → cycle_payments d c domain keys index rest ≡ ok ts
      → Signed (length rest) ts
  unfolding cycle_payments new_payment
  cycle_payments-Signed domain keys index [] k h =
      subst (Signed 0) (ok-injective h) (tt, omega arith)
  cycle_payments-Signed domain keys index (key ∷ rest) k h =
      let (sig, signed, h₁) = >>=-eq-ok (sign d c key _) _ h in
      let (others, made, h₂) = >>=-eq-ok (cycle_payments d c domain keys (index + 1) rest) _ h₁ in
      let (ih, long) = cycle_payments-Signed domain keys (index + 1) rest k.1 made in
      subst (Signed (length (key ∷ rest))) (ok-injective h₂) (
        (
          (
            (key-IsArray key, key-IsArray _, omega arith, omega arith),
            sign-IsSignature key _ k.0 signed,
          ),
          ih,
        ),
        omega (arith, long),
      )

  pub cycle_withdrawals-Signed :
      (domain : DeploymentDomain) (index : ℕ) (amounts : List ℕ) (rest : List Key)
      {ts : List SignedTransaction}
      → All (IsKey c) rest
      → All IsU64 amounts
      → index + length rest < 200
      → cycle_withdrawals d c domain index amounts rest ≡ ok ts
      → Signed (length rest) ts
  unfolding cycle_withdrawals new_withdrawal
  cycle_withdrawals-Signed domain index amounts [] k a i h =
      subst (Signed 0) (ok-injective h) (tt, omega arith)
  cycle_withdrawals-Signed domain index [] (key ∷ rest) k a i h =
      subst (Signed (length (key ∷ rest))) (ok-injective h) (tt, omega arith)
  cycle_withdrawals-Signed domain index (amount ∷ amounts) (key ∷ rest) k a i h =
      let (sig, signed, h₁) = >>=-eq-ok (sign d c key _) _ h in
      let (others, made, h₂) =
        >>=-eq-ok (cycle_withdrawals d c domain (index + 1) amounts rest) _ h₁ in
      let (ih, long) =
        cycle_withdrawals-Signed domain (index + 1) amounts rest k.1 a.1 (omega (arith, i)) made in
      subst (Signed (length (key ∷ rest))) (ok-injective h₂) (
        (
          (
            (key-IsArray key, l1_account-IsArray (11 + index) (omega (arith, i)), omega arith, a.0),
            sign-IsSignature key _ k.0 signed,
          ),
          ih,
        ),
        omega (arith, long),
      )
