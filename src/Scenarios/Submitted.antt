-- ===== src/Scenarios/Submitted.antt =====
-- The transactions that the scenarios of crates/sp1-host/src/scenarios.rs are made of can be
-- submitted.
use payment_rollup.Prelude.{
  ℕ, zero, suc, ◌+◌, ◌<◌, ◌≤◌, ◌≡◌, refl, [], ◌∷◌, map, arith, length, length-append, All,
  All-append,
}
use payment_rollup.Bytes.{Bytes, ascii, IsByte, IsU64, IsArray, to_be_bytes, to_be_bytes-IsArray}
use payment_rollup.Crypto.{Primitives}
use payment_rollup.Account.{Address, L1Address, Scheme, ed25519, address_from_public_key}
use payment_rollup.Txn.{
  SignedTransaction, new_payment, new_withdrawal, new_deposit, new_forced_withdrawal,
}
use payment_rollup.Codec.Reader.{usize_max}
use payment_rollup.Ledger.Formed.{IsSubmitted}
use payment_rollup.Scenarios.{
  l1_account, range_from, address_of, deposit, pay, withdraw, exit_deposit,
}

pub l1_account-IsArray : (index : ℕ) → index < 256 → IsArray 32 (l1_account index)
unfolding l1_account
l1_account-IsArray index h =
    let middle = to_be_bytes-IsArray 30 0 in
    (
      omega (arith, middle.0, length-append (to_be_bytes 30 0) (255 ∷ [])),
      (h, All-append IsByte (to_be_bytes 30 0) (255 ∷ []) middle.1 (omega arith)),
    )

module _ ⦃p : Primitives⦄ where
  pub address-IsArray : (s : Scheme) (key : Bytes) → IsArray 32 (address_from_public_key s key)
  unfolding address_from_public_key
  address-IsArray s key = p.digest_shape _

  pub address_of-IsArray : (key : Bytes) → IsArray 32 (address_of key)
  unfolding address_of
  address_of-IsArray key = address-IsArray _ key

  pub deposit-IsSubmitted :
      (key : Bytes) (amount : ℕ) → IsU64 amount → IsSubmitted (deposit key amount)
  unfolding deposit new_deposit
  deposit-IsSubmitted key amount h = (address_of-IsArray key, h, refl, refl)

  pub pay-IsSubmitted :
      (key : Bytes) (receiver : Address) (amount : ℕ)
      → length key ≤ usize_max
      → IsArray 32 receiver
      → IsU64 amount
      → IsSubmitted (pay key receiver amount)
  unfolding pay new_payment
  pay-IsSubmitted key receiver amount k r h =
      ((address_of-IsArray key, r, omega arith, h), record { key_fits = k; sig_fits = omega arith })

  pub withdraw-IsSubmitted :
      (key : Bytes) (recipient : L1Address) (amount : ℕ)
      → length key ≤ usize_max
      → IsArray 32 recipient
      → IsU64 amount
      → IsSubmitted (withdraw key recipient amount)
  unfolding withdraw new_withdrawal
  withdraw-IsSubmitted key recipient amount k r h =
      ((address_of-IsArray key, r, omega arith, h), record { key_fits = k; sig_fits = omega arith })

  pub exit_deposit-IsSubmitted :
      (key : Bytes) (amount : ℕ) → IsU64 amount → IsSubmitted (exit_deposit key amount)
  unfolding exit_deposit new_deposit
  exit_deposit-IsSubmitted key amount h = (address-IsArray ed25519 key, h, refl, refl)

  pub forced-IsSubmitted :
      (a : Address) (recipient : L1Address)
      → IsArray 32 a
      → IsArray 32 recipient
      → IsSubmitted (SignedTransaction.forced_withdrawal (new_forced_withdrawal a recipient))
  unfolding new_forced_withdrawal
  forced-IsSubmitted a recipient ha hr = (ha, hr, refl)

  -- The payments of the scenario of many chunks.
  abbrev pub spread : ℕ → SignedTransaction
  spread index = pay (ascii "spender") (address_of (to_be_bytes 4 index)) 1_000_000

  pub spread-IsSubmitted : (start n : ℕ) → All IsSubmitted (map spread (range_from start n))
  unfolding range_from
  spread-IsSubmitted start zero = tt
  spread-IsSubmitted start (suc n) = (
    pay-IsSubmitted (ascii "spender") (address_of (to_be_bytes 4 start)) 1_000_000 (omega arith)
        (address_of-IsArray (to_be_bytes 4 start)) (omega arith),
    spread-IsSubmitted (start + 1) n,
  )

  pub length-spread : (start n : ℕ) → length (map spread (range_from start n)) ≡ n
  unfolding range_from
  length-spread start zero = refl
  length-spread start (suc n) = omega (arith, length-spread (start + 1) n)
