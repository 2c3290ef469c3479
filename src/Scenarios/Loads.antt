-- ===== src/Scenarios/Loads.antt =====
-- Every scenario of crates/sp1-host/src/scenarios.rs, the load series included, submits what the
-- ledger and the wire formats can carry.
use payment_rollup.Prelude.{
  ℕ, zero, suc, ◌+◌, ◌*◌, ◌/◌, ◌%◌, ◌-◌, ◌≤◌, ◌≡◌, refl, ap, ◌∙◌, subst, List, [], ◌∷◌, ◌++◌, map,
  arith, Result, ok, err, >>=-eq-ok, ok-injective, guard, length, length-append, All, All-append,
  if◌then◌else◌, ◌==◌, leb, not, get_or, Bool, true, false,
}
use payment_rollup.Bytes.{Bytes, ascii, IsU64, IsArray, to_be_bytes}
use payment_rollup.Crypto.{Primitives}
use payment_rollup.Account.{DeploymentDomain}
use payment_rollup.Txn.{SignedTransaction, new_payment}
use payment_rollup.Ledger.Formed.{IsSubmitted}
use payment_rollup.Falcon.{CLibrary, IsFalcon, Halt, from_seed}
use payment_rollup.Scenarios.{scenario_fee, range_from, address_of}
use payment_rollup.Scenarios.Keys.{
  Dalek, IsDalek, Key, managed_key, ed25519_key, hybrid, address, sign,
}
use payment_rollup.Scenarios.Load.{
  lift_halt, no_keys, too_many_payments, load_deposit, load_amount, load_new_account_stride,
  load_accounts, load_seed, bump_at, key_at, fund, cycle_payments, cycle_withdrawals,
  every_scheme_keys, every_scheme_deposit, every_scheme, load_keys, falcon_load_keys,
  ed25519_load_keys, load_payments, signed_load, falcon_hybrid_load, ed25519_load,
}
use payment_rollup.Scenarios.Submitted.{address_of-IsArray}
use payment_rollup.Scenarios.Signed.{
  IsKey, sign-IsSignature, key-IsArray, fund-IsSubmitted, Signed, cycle_payments-Signed,
  cycle_withdrawals-Signed,
}
use payment_rollup.Scenarios.Settle.{Fine, transactions-Fine}
use payment_rollup.Scenarios.Listing.{
  Size, hundred, thousand, ten_thousand, load_count, Entry, fixed, every_scheme_entry,
  falcon_load_entry, ed25519_load_entry, submitted,
}

length-range_from : (start n : ℕ) → length (range_from start n) ≡ n
unfolding range_from
length-range_from start zero = refl
length-range_from start (suc n) = ap suc (length-range_from (start + 1) n)

load_count_bound : (size : Size) → load_count size ≤ 10_000
unfolding load_count
load_count_bound hundred = omega arith
load_count_bound thousand = omega arith
load_count_bound ten_thousand = omega arith

lifted : {A : Type 0} (r : Result Halt A) {a : A} → lift_halt r ≡ ok a → r ≡ ok a
lifted (ok a) h = ap ok (ok-injective h)
lifted (err e) h = cc

module _ ⦃p : Primitives⦄ (d : Dalek) (c : CLibrary) (e : IsDalek d) (f : IsFalcon c) where
  hybrid-IsKey : (seed : Bytes) {key : Key} → hybrid d c seed ≡ ok key → IsKey c key
  unfolding hybrid
  hybrid-IsKey seed h =
      let (falcon, grown, done) = >>=-eq-ok (from_seed c seed) _ h in
      subst (IsKey c) (ok-injective done) grown

  load_keys-IsKey :
      (base : Bytes) (make : Bytes → Result Halt Key)
      → ((seed : Bytes) (key : Key) → make seed ≡ ok key → IsKey c key)
      → (indices : List ℕ) {keys : List Key} → load_keys d c base make indices ≡ ok keys
      → All (IsKey c) keys × (length keys ≡ length indices)
  unfolding load_keys
  load_keys-IsKey base make made [] h =
      subst (λ ks. All (IsKey c) ks × (length ks ≡ 0)) (ok-injective h) (tt, refl)
  load_keys-IsKey base make made (index ∷ rest) h =
      let (key, grown, h₁) = >>=-eq-ok (make (load_seed base index)) _ h in
      let (keys, more, h₂) = >>=-eq-ok (load_keys d c base make rest) _ h₁ in
      let (ih, long) = load_keys-IsKey base make made rest more in
      subst (λ ks. All (IsKey c) ks × (length ks ≡ length (index ∷ rest))) (ok-injective h₂)
        ((made _ key grown, ih), ap suc long)

  get_or-IsKey :
      (keys : List Key) (at : ℕ) → All (IsKey c) keys → IsKey c (get_or keys at (managed_key []))
  get_or-IsKey [] at k = omega arith
  get_or-IsKey (key ∷ keys) zero k = k.0
  get_or-IsKey (key ∷ keys) (suc at) k = get_or-IsKey keys at k.1

  load_payments-Signed :
      (domain : DeploymentDomain) (keys : List Key) (nonces indices : List ℕ)
      {ts : List SignedTransaction}
      → All (IsKey c) keys
      → load_payments d c domain keys nonces indices ≡ ok ts
      → Signed (length indices) ts
  unfolding load_payments new_payment key_at
  load_payments-Signed domain keys nonces [] k h =
      subst (Signed 0) (ok-injective h) (tt, omega arith)
  load_payments-Signed domain keys nonces (index ∷ rest) k h =
      let at = index % length keys in
      let key = get_or keys at (managed_key []) in
      let (sig, signed, h₁) = >>=-eq-ok (sign d c key _) _ h in
      let (others, made, h₂) =
        >>=-eq-ok (load_payments d c domain keys (bump_at nonces at) rest) _ h₁ in
      let (ih, long) = load_payments-Signed domain keys (bump_at nonces at) rest k made in
      subst (Signed (length (index ∷ rest))) (ok-injective h₂) (
        (
          (
            (
              key-IsArray d c e f key,
              receiver_fits ((index + 1) % load_new_account_stride == 0) index
                  (get_or keys ((at + 1) % length keys) (managed_key [])),
              omega arith,
              omega arith,
            ),
            sign-IsSignature d c e f key _ (get_or-IsKey keys at k) signed,
          ),
          ih,
        ),
        omega (arith, long),
      )
    where
      receiver_fits :
          (test : Bool) (index : ℕ) (key : Key)
          → IsArray 32 (if test then address_of (to_be_bytes 4 index) else address d c key)
      receiver_fits true index key = address_of-IsArray _
      receiver_fits false index key = key-IsArray d c e f key

  append-Signed :
      (m n : ℕ) (xs ys : List SignedTransaction)
      → Signed m xs
      → Signed n ys
      → Signed (m + n) (xs ++ ys)
  append-Signed m n xs ys x y =
      (All-append IsSubmitted xs ys x.0 y.0, omega (arith, length-append xs ys, x.1, y.1))

  fund-Signed :
      (amount : ℕ) (keys : List Key) → IsU64 amount → Signed (length keys) (fund d c amount keys)
  fund-Signed amount keys h =
      let (all, long) = fund-IsSubmitted d c e f amount keys h in (all, omega (arith, long))

  signed_load-Signed :
      (domain : DeploymentDomain) (keys : List Key) (payments : ℕ) {ts : List SignedTransaction}
      → All (IsKey c) keys
      → signed_load d c domain keys payments ≡ ok ts
      → Signed (length keys + payments) ts
  unfolding signed_load
  signed_load-Signed domain keys payments k h =
      let (_, _, h₁) = >>=-eq-ok (guard (not (length keys == 0)) no_keys) _ h in
      let (_, _, h₂) =
        >>=-eq-ok
          (guard
            (leb ((payments + length keys - 1) / length keys * (load_amount + scenario_fee))
              load_deposit)
            too_many_payments)
          _ h₁ in
      let loop = load_payments d c domain keys (map (λ key. 0) keys) (range_from 0 payments) in
      let (spends, made, h₃) = >>=-eq-ok (lift_halt loop) _ h₂ in
      let spent =
        load_payments-Signed domain keys (map (λ key. 0) keys) (range_from 0 payments) k
          (lifted loop made) in
      subst (Signed (length keys + payments)) (ok-injective h₃) (
        append-Signed (length keys) payments _ _ (fund-Signed load_deposit keys (omega arith))
          (subst (λ n. Signed n spends) (length-range_from 0 payments) spent))

  falcon_hybrid_load-Signed :
      (domain : DeploymentDomain) (payments : ℕ) {ts : List SignedTransaction}
      → falcon_hybrid_load d c domain payments ≡ ok ts
      → Signed (25 + payments) ts
  unfolding falcon_hybrid_load falcon_load_keys
  falcon_hybrid_load-Signed domain payments {ts} h =
      let (keys, made, h₁) = >>=-eq-ok (lift_halt (falcon_load_keys d c)) _ h in
      let (k, long) =
        load_keys-IsKey _ (hybrid d c) (λ seed key. hybrid-IsKey seed) (range_from 0 load_accounts)
          (lifted (falcon_load_keys d c) made) in
      subst (λ n. Signed (n + payments) ts) (long ∙ length-range_from 0 load_accounts)
        (signed_load-Signed domain keys payments k h₁)

  ed25519_load-Signed :
      (domain : DeploymentDomain) (payments : ℕ) {ts : List SignedTransaction}
      → ed25519_load d c domain payments ≡ ok ts
      → Signed (25 + payments) ts
  unfolding ed25519_load ed25519_load_keys
  ed25519_load-Signed domain payments {ts} h =
      let (keys, made, h₁) = >>=-eq-ok (lift_halt (ed25519_load_keys d c)) _ h in
      let (k, long) =
        load_keys-IsKey _ (λ seed. ok (ed25519_key seed))
          (λ seed key g. subst (IsKey c) (ok-injective g) tt) (range_from 0 load_accounts)
          (lifted (ed25519_load_keys d c) made) in
      subst (λ n. Signed (n + payments) ts) (long ∙ length-range_from 0 load_accounts)
        (signed_load-Signed domain keys payments k h₁)

  every_scheme-Signed :
      (domain : DeploymentDomain) {ts : List SignedTransaction}
      → every_scheme d c domain ≡ ok ts
      → Signed 9 ts
  unfolding every_scheme every_scheme_keys
  every_scheme-Signed domain h =
      let (keys, made, h₀) = >>=-eq-ok (every_scheme_keys d c) _ h in
      let (falcon, grown, listed) =
        >>=-eq-ok (hybrid d c (ascii "payment-rollup hybrid key!!!!!!!")) _ made in
      let (k, three) =
        subst (λ ks. All (IsKey c) ks × (length ks ≡ 3)) (ok-injective listed)
          ((omega arith, (tt, (hybrid-IsKey _ grown, tt))), refl) in
      let (payments, paid, h₁) = >>=-eq-ok (cycle_payments d c domain keys 0 keys) _ h₀ in
      let amounts = 300_000 ∷ 400_000 ∷ 500_000 ∷ [] in
      let (withdrawals, drawn, h₂) = >>=-eq-ok (cycle_withdrawals d c domain 0 amounts keys) _ h₁ in
      let n = cycle_payments-Signed d c e f domain keys 0 keys k paid in
      let n' =
        cycle_withdrawals-Signed d c e f domain 0 amounts keys k (omega arith)
          (omega (arith, three)) drawn in
      let funded = fund-Signed every_scheme_deposit keys (omega arith) in
      let (all, few) = append-Signed _ _ _ _ funded (append-Signed _ _ payments withdrawals n n') in
      subst (Signed 9) (ok-injective h₂) (all, omega (arith, few, three))

  -- What a scenario submits can be carried.
  pub submitted-Fine :
      (entry : Entry) (domain : DeploymentDomain) {ts : List SignedTransaction}
      → submitted d c entry domain ≡ ok ts
      → Fine ts
  unfolding submitted load_count
  submitted-Fine (fixed s) domain h = subst Fine (ok-injective h) (transactions-Fine s)
  submitted-Fine every_scheme_entry domain h =
      let (all, few) = every_scheme-Signed domain (lifted (every_scheme d c domain) h) in
      (all, omega (arith, few))
  submitted-Fine (falcon_load_entry size) domain h =
      let (all, few) = falcon_hybrid_load-Signed domain (load_count size) h in
      (all, omega (arith, few, load_count_bound size))
  submitted-Fine (ed25519_load_entry size) domain h =
      let (all, few) = ed25519_load-Signed domain (load_count size) h in
      (all, omega (arith, few, load_count_bound size))
