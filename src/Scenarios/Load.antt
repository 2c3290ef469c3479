-- ===== src/Scenarios/Load.antt =====
-- The blocks of crates/sp1-host/src/scenarios.rs whose spends carry signatures: `every_scheme` and
-- the load series.
use payment_rollup.Prelude.{
  ℕ, zero, suc, ◌+◌, ◌-◌, ◌*◌, ◌/◌, ◌%◌, leb, ◌==◌, not, if◌then◌else◌, List, [], ◌∷◌, ◌++◌, map,
  Result, ok, err, guard, ◌>>=◌, ◌>>◌, length, get_or,
}
use payment_rollup.Bytes.{Bytes, ascii, to_be_bytes}
use payment_rollup.Crypto.{Primitives}
use payment_rollup.Account.{DeploymentDomain}
use payment_rollup.Txn.{
  SignedTransaction, new_payment, new_withdrawal, new_deposit, payment_bytes_to_sign,
  withdrawal_bytes_to_sign,
}
use payment_rollup.Falcon.{CLibrary, Halt}
use payment_rollup.Scenarios.{scenario_fee, l1_account, range_from, address_of}
use payment_rollup.Scenarios.Keys.{Dalek, Key, managed_key, ed25519_key, hybrid, address, sign}

-- `LOAD_ACCOUNTS`, `LOAD_DEPOSIT`, `LOAD_AMOUNT` and `LOAD_NEW_ACCOUNT_STRIDE`
abbrev pub load_accounts : ℕ
load_accounts = 25

abbrev pub load_deposit : ℕ
load_deposit = 1_000_000

abbrev pub load_amount : ℕ
load_amount = 1_000

abbrev pub load_new_account_stride : ℕ
load_new_account_stride = 50

abbrev pub every_scheme_deposit : ℕ
every_scheme_deposit = 2_000_000

abbrev pub every_scheme_payment : ℕ
every_scheme_payment = 250_000

-- Why a block of the load series is not built.
pub data Failure : Type 0 where
  signing : Halt → Failure
  -- the `assert!` against overdrawing
  too_many_payments : Failure
  -- a division by the number of keys, which is zero
  no_keys : Failure

abbrev pub lift_halt {ℓ} : {A : Type ℓ} → Result Halt A → Result Failure A
lift_halt (ok a) = ok a
lift_halt (err h) = err (signing h)

-- The seed of the load account `index`: its last byte is the index.
unfoldable pub load_seed : Bytes → ℕ → Bytes
load_seed [] index = []
load_seed (b ∷ []) index = index ∷ []
load_seed (b ∷ c ∷ rest) index = b ∷ load_seed (c ∷ rest) index

-- `nonces[at] += 1`
unfoldable pub bump_at : List ℕ → ℕ → List ℕ
bump_at [] at = []
bump_at (n ∷ ns) zero = (n + 1) ∷ ns
bump_at (n ∷ ns) (suc at) = n ∷ bump_at ns at

module _ ⦃p : Primitives⦄ (d : Dalek) (c : CLibrary) where
  abbrev fallback : Key
  fallback = managed_key []

  -- `keys[at]`, at an index that the callers keep within range.
  unfoldable pub key_at : List Key → ℕ → Key
  key_at keys at = get_or keys at fallback

  -- A deposit for every key.
  unfoldable pub fund : ℕ → List Key → List SignedTransaction
  fund amount keys =
      map (λ key. SignedTransaction.deposit (new_deposit (address d c key) amount)) keys

  -- The two loops of `every_scheme`, from the key `index` on.
  unfoldable pub cycle_payments :
      DeploymentDomain → List Key → ℕ → List Key → Result Halt (List SignedTransaction)
  cycle_payments domain keys index [] = ok []
  cycle_payments domain keys index (key ∷ rest) = do
    let receiver = address d c (key_at keys ((index + 1) % length keys))
    let payment = new_payment (address d c key) receiver every_scheme_payment scenario_fee
    sig ← sign d c key (payment_bytes_to_sign payment domain 1)
    others ← cycle_payments domain keys (index + 1) rest
    ok (SignedTransaction.payment payment sig ∷ others)

  unfoldable pub cycle_withdrawals :
      DeploymentDomain → ℕ → List ℕ → List Key → Result Halt (List SignedTransaction)
  cycle_withdrawals domain index amounts [] = ok []
  cycle_withdrawals domain index [] (key ∷ rest) = ok []
  cycle_withdrawals domain index (amount ∷ amounts) (key ∷ rest) = do
    let withdrawal = new_withdrawal (address d c key) (l1_account (11 + index)) amount scenario_fee
    sig ← sign d c key (withdrawal_bytes_to_sign withdrawal domain 2)
    others ← cycle_withdrawals domain (index + 1) amounts rest
    ok (SignedTransaction.withdrawal withdrawal sig ∷ others)

  unfoldable pub every_scheme_keys : Result Halt (List Key)
  every_scheme_keys = do
    falcon ← hybrid d c (ascii "payment-rollup hybrid key!!!!!!!")
    ok (
        managed_key (ascii "payment-rollup managed key!!!!!!")
        ∷ ed25519_key (ascii "payment-rollup ed25519 key!!!!!!")
        ∷ falcon
        ∷ [])

  unfoldable pub every_scheme : DeploymentDomain → Result Halt (List SignedTransaction)
  every_scheme domain = do
    keys ← every_scheme_keys
    payments ← cycle_payments domain keys 0 keys
    withdrawals ← cycle_withdrawals domain 0 (300_000 ∷ 400_000 ∷ 500_000 ∷ []) keys
    ok (fund every_scheme_deposit keys ++ (payments ++ withdrawals))

  -- `load_keys`
  unfoldable pub load_keys : Bytes → (Bytes → Result Halt Key) → List ℕ → Result Halt (List Key)
  load_keys base make [] = ok []
  load_keys base make (index ∷ rest) = do
    key ← make (load_seed base index)
    keys ← load_keys base make rest
    ok (key ∷ keys)

  unfoldable pub falcon_load_keys : Result Halt (List Key)
  falcon_load_keys =
      load_keys (ascii "payment-rollup falcon load key!!") (hybrid d c) (range_from 0 load_accounts)

  unfoldable pub ed25519_load_keys : Result Halt (List Key)
  ed25519_load_keys =
      load_keys (ascii "payment-rollup ed25519 load key!") (λ seed. ok (ed25519_key seed))
        (range_from 0 load_accounts)

  -- The loop of `signed_load`, over the payments that remain.
  unfoldable pub load_payments :
      DeploymentDomain → List Key → List ℕ → List ℕ → Result Halt (List SignedTransaction)
  load_payments domain keys nonces [] = ok []
  load_payments domain keys nonces (index ∷ rest) = do
    let sender_index = index % length keys
    let key = key_at keys sender_index
    let receiver =
        if (index + 1) % load_new_account_stride == 0
        then address_of (to_be_bytes 4 index)
        else address d c (key_at keys ((sender_index + 1) % length keys))
    let payment = new_payment (address d c key) receiver load_amount scenario_fee
    let nonces' = bump_at nonces sender_index
    sig ← sign d c key (payment_bytes_to_sign payment domain (get_or nonces' sender_index 0))
    others ← load_payments domain keys nonces' rest
    ok (SignedTransaction.payment payment sig ∷ others)

  -- `div_ceil` is written out.
  unfoldable pub signed_load :
      DeploymentDomain → List Key → ℕ → Result Failure (List SignedTransaction)
  signed_load domain keys payments = do
    guard (not (length keys == 0)) no_keys
    guard
        (leb ((payments + length keys - 1) / length keys * (load_amount + scenario_fee))
          load_deposit)
        too_many_payments
    spends ← lift_halt (load_payments domain keys (map (λ key. 0) keys) (range_from 0 payments))
    ok (fund load_deposit keys ++ spends)

  unfoldable pub falcon_hybrid_load : DeploymentDomain → ℕ → Result Failure (List SignedTransaction)
  falcon_hybrid_load domain payments = do
    keys ← lift_halt falcon_load_keys
    signed_load domain keys payments

  unfoldable pub ed25519_load : DeploymentDomain → ℕ → Result Failure (List SignedTransaction)
  ed25519_load domain payments = do
    keys ← lift_halt ed25519_load_keys
    signed_load domain keys payments
