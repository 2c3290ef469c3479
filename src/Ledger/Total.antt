-- ===== src/Ledger/Total.antt =====
-- The value that a ledger of crates/payment-rollup/src/lib.rs holds, under each of its writes.
use payment_rollup.Prelude.{
  ℕ, ◌+◌, ◌≡◌, refl, ap, ◌∙◌, inl, inr, [], ◌∷◌, Option, none, some, arith, ok, Bool-cases,
}
use payment_rollup.Bytes.{Bytes, bytes_eq}
use payment_rollup.Crypto.{Primitives}
use payment_rollup.Account
use payment_rollup.Account.{Address, Account, bump_nonce}
use payment_rollup.Txn.{Signature, LeafWitness}
use payment_rollup.Replay.{spend, checked_sub, checked_add, balance_of, account_or_empty}
use payment_rollup.Ledger
use payment_rollup.Ledger.{Accounts, Ledger, get, put, insert_account}
use payment_rollup.Ledger.Mirror.{debit_parts, credit_parts, credit_fee_parts}

-- The sum of the balances.
unfoldable pub total : Accounts → ℕ
total [] = 0
total ((a, x) ∷ rest) = x.amount + total rest

-- A write replaces one balance by another.
pub total-put :
    (m : Accounts) (a : Address) (x : Account)
    → total (put m a x) + balance_of (get m a) ≡ total m + x.amount
unfolding total put get balance_of
total-put [] a x = omega arith
total-put ((b, y) ∷ rest) a x = elim (Bool-cases (bytes_eq b a)) [
  | inl e ↦ rw e (omega arith)
  | inr e ↦ rw e (omega (arith, total-put rest a x))
]

spent_lem :
    (balance amount fee : ℕ) {rest : ℕ}
    → spend balance amount fee ≡ some rest
    → rest + amount + fee ≡ balance
unfolding spend checked_sub
spent_lem balance amount fee h = ground arith

added_lem : (a b : ℕ) {sum : ℕ} → checked_add a b ≡ some sum → sum ≡ a + b
unfolding checked_add
added_lem a b h = ground arith

pub bumped_lem : (x : Account) {y : Account} → bump_nonce x ≡ ok y → y.amount ≡ x.amount
unfolding bump_nonce
bumped_lem x h = ground arith

pub balance_of-empty :
    (a : Address) (held : Option Account) → (account_or_empty a held).amount ≡ balance_of held
unfolding account_or_empty balance_of Account.empty
balance_of-empty a none = refl
balance_of-empty a (some x) = refl

module _ ⦃p : Primitives⦄ where
  pub total-insert_account :
      (l : Ledger) (a : Address) (x : Account)
      → total (insert_account l a x).accounts + balance_of (get l.accounts a)
        ≡ total l.accounts + x.amount
  unfolding insert_account
  total-insert_account l a x = total-put l.accounts a x

  pub total-debit :
      (l : Ledger) (a : Address) (amount fee : ℕ) (sig : Signature) (message : ℕ → Bytes)
      {w : LeafWitness} {l' : Ledger}
      → Ledger.debit l a amount fee sig message ≡ ok (w, l')
      → total l'.accounts + amount + fee ≡ total l.accounts
  total-debit l a amount fee sig message h =
      let (held, account, balance, found, bumped, verified, spent, ew, el) =
        debit_parts l a amount fee sig message h in
      let after = record account { amount = balance } in
      let was : balance_of (get l.accounts a) ≡ held.amount =
        ap balance_of found ∙ (unfold balance_of in refl) in
      rw el (
        omega (
          arith,
          total-insert_account l a after,
          was,
          bumped_lem held bumped,
          spent_lem account.amount amount fee spent,
        ))

  pub total-credit :
      (l : Ledger) (a : Address) (amount : ℕ) {w : LeafWitness} {l' : Ledger}
      → Ledger.credit l a amount ≡ ok (w, l')
      → total l'.accounts ≡ total l.accounts + amount
  total-credit l a amount h =
      let (balance, added, ew, el) = credit_parts l a amount h in
      let account = account_or_empty a (get l.accounts a) in
      rw el (
        omega (
          arith,
          total-insert_account l a (record account { amount = balance }),
          added_lem account.amount amount added,
          balance_of-empty a (get l.accounts a),
        ))

  pub total-credit_fee :
      (l : Ledger) (fee : ℕ) {w : Option LeafWitness} {l' : Ledger}
      → Ledger.credit_fee l fee ≡ ok (w, l')
      → total l'.accounts ≡ total l.accounts + fee
  total-credit_fee l fee h = elim (credit_fee_parts l fee h) [
    | inl (e, _, el) ↦ rw el (omega (arith, e))
    | inr (witness, _, credited, _) ↦ total-credit l _ fee credited
  ]
