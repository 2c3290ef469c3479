-- ===== src/Settlement/Fits.antt =====
-- When the additions that the ledger of crates/payment-rollup/src/lib.rs checks for overflow, in
-- `credit`, succeed.
use payment_rollup.Prelude.{
  ℕ, ◌+◌, ◌<◌, ◌≤◌, ◌^◌, ◌≡◌, ◌≢◌, refl, ap, ◌∙◌, inl, inr, Bool-cases, subst, leb, ◌==◌, List, [],
  ◌∷◌, arith, Result, ok, err, guard, Fails, Fails-bind, Fails-guard,
}
use payment_rollup.Bytes.{Bytes}
use payment_rollup.Crypto.{Primitives}
use payment_rollup.Account.{Address, fee_sink, min_withdrawal}
use payment_rollup.Txn.{
  Payment, Withdrawal, ForcedWithdrawal, Signature, Transaction, SignedTransaction,
  payment_bytes_to_sign, withdrawal_bytes_to_sign,
}
use payment_rollup.Replay.{balance_of, checked_add}
use payment_rollup.Ledger
use payment_rollup.Ledger.{
  Panic, Ledger, Accounts, Building, get, put, unwrap, insert_account, build_payment, build_deposit,
  build_withdrawal, build_forced_withdrawal, build_txn, build_loop, get_block,
}
use payment_rollup.Ledger.Placed.{payment_parts, deposit_parts, withdrawal_parts}
use payment_rollup.Ledger.Forced.{forced_parts}
use payment_rollup.Ledger.Total.{total, total-put, balance_of-empty, total-debit, total-credit}
use payment_rollup.Ledger.Verifies.{start}
use payment_rollup.Settlement.Conserves.{
  worth, paid_in, deposited, paid_in-append, build_txn-Balances,
}

-- The value that a transaction brings in, and that all of some transactions do.
abbrev pub brought : SignedTransaction → ℕ
brought (SignedTransaction.deposit t) = t.amount
brought _ = 0

abbrev pub incoming : List SignedTransaction → ℕ
incoming [] = 0
incoming (t ∷ ts) = brought t + incoming ts

-- The errors that are no overflow of an amount.
abbrev pub IsNoOverflow : Panic → Type 0
IsNoOverflow Panic.amount_overflow = ⊥
IsNoOverflow _ = Unit

pub balance_of_bound : (m : Accounts) (a : Address) → balance_of (get m a) ≤ total m
unfolding total
balance_of_bound m a =
    omega (arith, total-put m a (record { nonce = 0; amount = 0; auth_address = [] }))

Fails-distinct :
    {A : Type 0} (r : Result Panic A) → (r ≡ err Panic.amount_overflow → ⊥) → Fails IsNoOverflow r
Fails-distinct (ok a) h = tt
Fails-distinct (err Panic.missing_account) h = tt
Fails-distinct (err Panic.overdrawn) h = tt
Fails-distinct (err Panic.amount_overflow) h = h refl
Fails-distinct (err Panic.withdrawal_too_small) h = tt
Fails-distinct (err (Panic.refused e)) h = tt

module _ ⦃p : Primitives⦄ where
  debit_distinct :
      (l : Ledger) (a : Address) (amount fee : ℕ) (sig : Signature) (message : ℕ → Bytes)
      → Ledger.debit l a amount fee sig message ≡ err Panic.amount_overflow
      → ⊥
  unfolding Ledger.debit
  debit_distinct l a amount fee sig message h = ground arith

  credit_distinct :
      (l : Ledger) (a : Address) (amount : ℕ)
      → total l.accounts + amount < 2 ^ 64
      → Ledger.credit l a amount ≡ err Panic.amount_overflow
      → ⊥
  unfolding Ledger.credit checked_add
  credit_distinct l a amount small h =
      ground (arith, balance_of_bound l.accounts a, balance_of-empty a (get l.accounts a))

  credit-Fails :
      (l : Ledger) (a : Address) (amount : ℕ)
      → total l.accounts + amount < 2 ^ 64
      → Fails IsNoOverflow (Ledger.credit l a amount)
  credit-Fails l a amount small =
      Fails-distinct (Ledger.credit l a amount) (credit_distinct l a amount small)

  credit_fee-Fails :
      (l : Ledger) (fee : ℕ)
      → total l.accounts + fee < 2 ^ 64
      → Fails IsNoOverflow (Ledger.credit_fee l fee)
  unfolding Ledger.credit_fee
  credit_fee-Fails l fee small = elim (Bool-cases (fee == 0)) [
    | inl e ↦ rw e tt
    | inr e ↦ rw e (
        Fails-bind IsNoOverflow (Ledger.credit l fee_sink fee) _ (credit-Fails l fee_sink fee small)
          (λ r _. tt))
  ]

  build_payment-Fails :
      (t : Payment) (sig : Signature) (b : Building)
      → total b.ledger.accounts < 2 ^ 64
      → Fails IsNoOverflow (build_payment t sig b)
  unfolding build_payment
  build_payment-Fails t sig b small =
      let message = payment_bytes_to_sign t b.ledger.domain in
      Fails-bind IsNoOverflow
        (Ledger.debit b.ledger t.header.sender t.amount t.header.fee sig message) _
        (Fails-distinct _
          (debit_distinct b.ledger t.header.sender t.amount t.header.fee sig message))
        (λ (w₁, l₁) debited.
          let left =
            total-debit b.ledger t.header.sender t.amount t.header.fee sig message debited in
          Fails-bind IsNoOverflow (Ledger.credit l₁ t.receiver t.amount) _
            (credit-Fails l₁ t.receiver t.amount (omega (arith, left, small)))
            (λ (w₂, l₂) credited.
              Fails-bind IsNoOverflow (Ledger.credit_fee l₂ t.header.fee) _
                (credit_fee-Fails l₂ t.header.fee
                  (omega (arith, left, small, total-credit l₁ t.receiver t.amount credited)))
                (λ r _. tt)))

  build_withdrawal-Fails :
      (t : Withdrawal) (sig : Signature) (b : Building)
      → total b.ledger.accounts < 2 ^ 64
      → Fails IsNoOverflow (build_withdrawal t sig b)
  unfolding build_withdrawal
  build_withdrawal-Fails t sig b small =
      let message = withdrawal_bytes_to_sign t b.ledger.domain in
      Fails-bind IsNoOverflow (guard (leb min_withdrawal t.amount) Panic.withdrawal_too_small) _
        (Fails-guard IsNoOverflow (leb min_withdrawal t.amount) Panic.withdrawal_too_small tt)
        (λ u _.
          Fails-bind IsNoOverflow
            (Ledger.debit b.ledger t.header.sender t.amount t.header.fee sig message) _
            (Fails-distinct _
              (debit_distinct b.ledger t.header.sender t.amount t.header.fee sig message))
            (λ (w₁, l₁) debited.
              let left =
                total-debit b.ledger t.header.sender t.amount t.header.fee sig message debited in
              Fails-bind IsNoOverflow (Ledger.credit_fee l₁ t.header.fee) _
                (credit_fee-Fails l₁ t.header.fee (omega (arith, left, small))) (λ r _. tt)))

  build_forced_distinct :
      (t : ForcedWithdrawal) (b : Building)
      → build_forced_withdrawal t b ≡ err Panic.amount_overflow
      → ⊥
  unfolding build_forced_withdrawal Ledger.empty_account
  build_forced_distinct t b h = ground arith

  build_txn-Fails :
      (t : SignedTransaction) (b : Building)
      → total b.ledger.accounts + brought t < 2 ^ 64
      → Fails IsNoOverflow (build_txn t b)
  unfolding build_txn build_deposit
  build_txn-Fails (SignedTransaction.payment t sig) b small =
      build_payment-Fails t sig b (omega (arith, small))
  build_txn-Fails (SignedTransaction.deposit t) b small =
      Fails-bind IsNoOverflow (Ledger.credit b.ledger t.receiver t.amount) _
        (credit-Fails b.ledger t.receiver t.amount small) (λ r _. tt)
  build_txn-Fails (SignedTransaction.withdrawal t sig) b small =
      build_withdrawal-Fails t sig b (omega (arith, small))
  build_txn-Fails (SignedTransaction.forced_withdrawal t) b small =
      Fails-distinct (build_forced_withdrawal t b) (build_forced_distinct t b)

  pub paid_in-build_txn :
      (t : SignedTransaction) (b : Building) {b' : Building}
      → build_txn t b ≡ ok b'
      → paid_in b'.txns ≡ paid_in b.txns + brought t
  unfolding build_txn deposited
  paid_in-build_txn (SignedTransaction.payment t sig) b h =
      let (_, _, _, _, _, _, _, _, _, eb) = payment_parts t sig b h in
      ap (λ z. paid_in z.txns) eb ∙ paid_in-append b.txns (Transaction.payment t)
  paid_in-build_txn (SignedTransaction.deposit t) b h =
      let (_, _, _, eb) = deposit_parts t b h in
      ap (λ z. paid_in z.txns) eb ∙ paid_in-append b.txns (Transaction.deposit t)
  paid_in-build_txn (SignedTransaction.withdrawal t sig) b h =
      let (_, _, _, _, _, _, _, eb) = withdrawal_parts t sig b h in
      ap (λ z. paid_in z.txns) eb ∙ paid_in-append b.txns (Transaction.withdrawal t)
  paid_in-build_txn (SignedTransaction.forced_withdrawal t) b h =
      let (_, _, _, eb) = forced_parts t b h in
      ap (λ z. paid_in z.txns) eb ∙ paid_in-append b.txns (Transaction.forced_withdrawal t)

  build_loop-Fails :
      (ts : List SignedTransaction) (b : Building)
      → total b.ledger.accounts + worth b.payouts + incoming ts < 2 ^ 64
      → Fails IsNoOverflow (build_loop ts b)
  unfolding build_loop
  build_loop-Fails [] b small = tt
  build_loop-Fails (t ∷ ts) b small =
      Fails-bind IsNoOverflow (build_txn t b) _ (build_txn-Fails t b (omega (arith, small)))
        (λ b' built.
          build_loop-Fails ts b'
            (omega (arith, small, build_txn-Balances t b built, paid_in-build_txn t b built)))

  -- A ledger whose balances, with the deposits that it is given, come to less than 2 ^ 64 never
  -- panics for an amount that overflows, whatever the transactions.
  pub get_block_fits :
      (l : Ledger) (ts : List SignedTransaction)
      → total l.accounts + incoming ts < 2 ^ 64
      → get_block l ts ≢ err Panic.amount_overflow
  unfolding get_block worth
  get_block_fits l ts small h = subst (Fails IsNoOverflow) h (
      Fails-bind IsNoOverflow (build_loop ts (start l)) _
        (build_loop-Fails ts (start l) (omega (arith, small))) (λ b _. tt))
