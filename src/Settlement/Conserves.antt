-- ===== src/Settlement/Conserves.antt =====
-- What L1 pays in and out is what the ledger's balances grow and shrink by
-- (crates/payment-rollup/src/lib.rs, `Ledger::get_block`, and crates/sp1-host/src/lib.rs, the
-- deposits and withdrawals of a settlement).
use payment_rollup.Prelude.{
  ℕ, ◌+◌, leb, ◌≡◌, refl, sym, ap, ◌∙◌, subst, inl, inr, Bool-cases, List, [], ◌∷◌, ◌++◌, arith, ok,
  ok-injective, >>=-eq-ok, All,
}
use payment_rollup.Crypto.{Primitives}
use payment_rollup.Account.{Address, min_withdrawal}
use payment_rollup.Txn.{
  Payment, Withdrawal, Deposit, ForcedWithdrawal, Signature, Transaction, TxnSidecar,
  SignedTransaction, Block,
}
use payment_rollup.Chains.{Payout}
use payment_rollup.Replay.{balance_of, payouts_loop, withdrawal_payouts}
use payment_rollup.Ledger.{
  Ledger, Building, push, get, build_payment, build_deposit, build_withdrawal,
  build_forced_withdrawal, build_txn, build_loop, get_block,
}
use payment_rollup.Ledger.Sync.{IsSynced}
use payment_rollup.Ledger.Placed.{
  NamesAddresses, progress, payment_parts, deposit_parts, withdrawal_parts,
}
use payment_rollup.Ledger.Forced.{emptied, empty_parts, forced_parts}
use payment_rollup.Ledger.Total.{
  total, bumped_lem, total-insert_account, total-debit, total-credit, total-credit_fee,
}
use payment_rollup.Ledger.Verifies.{start, build_loop-Replayed}
use payment_rollup.Settlement.{deposits_of}
use payment_rollup.Settlement.Queues.{verify_loop-queues}

-- The sum of what is owed to each.
unfoldable pub worth : List (Address × ℕ) → ℕ
worth [] = 0
worth ((a, amount) ∷ rest) = amount + worth rest

worth-append :
    (xs : List (Address × ℕ)) (a : Address) (amount : ℕ)
    → worth (xs ++ (a, amount) ∷ []) ≡ worth xs + amount
unfolding worth
worth-append [] a amount = omega arith
worth-append (x ∷ xs) a amount = omega (arith, worth-append xs a amount)

-- The value that came in with the transactions placed so far.
unfoldable pub paid_in : List Transaction → ℕ
paid_in ts = worth (deposits_of ts)

unfoldable pub deposited : Transaction → ℕ
deposited (Transaction.deposit t) = t.amount
deposited _ = 0

pub paid_in-append :
    (ts : List Transaction) (t : Transaction) → paid_in (ts ++ t ∷ []) ≡ paid_in ts + deposited t
unfolding paid_in deposits_of worth deposited
paid_in-append [] (Transaction.payment t) = refl
paid_in-append [] (Transaction.deposit t) = omega arith
paid_in-append [] (Transaction.withdrawal t) = refl
paid_in-append [] (Transaction.forced_withdrawal t) = refl
paid_in-append (Transaction.payment u ∷ ts) t = paid_in-append ts t
paid_in-append (Transaction.deposit u ∷ ts) t = omega (arith, paid_in-append ts t)
paid_in-append (Transaction.withdrawal u ∷ ts) t = paid_in-append ts t
paid_in-append (Transaction.forced_withdrawal u ∷ ts) t = paid_in-append ts t

-- Between two moments of building, balances and payouts grow by what came in.
abbrev Balances : Building → Building → Type 0
Balances b b' =
    total b'.ledger.accounts + worth b'.payouts + paid_in b.txns
    ≡ total b.ledger.accounts + worth b.payouts + paid_in b'.txns

module _ ⦃p : Primitives⦄ where
  -- One transaction balances when its ledger and payouts do.
  pushed-Balances :
      (b : Building) {b' : Building} (l : Ledger) (payouts : List Payout) (t : Transaction)
      (e : TxnSidecar)
      → b' ≡ push b l payouts t e
      → total l.accounts + worth payouts ≡ total b.ledger.accounts + worth b.payouts + deposited t
      → Balances b b'
  pushed-Balances b l payouts t e eb balanced =
      rw eb (omega (arith, balanced, paid_in-append b.txns t))

  build_payment-Balances :
      (t : Payment) (sig : Signature) (b : Building) {b' : Building}
      → build_payment t sig b ≡ ok b'
      → Balances b b'
  build_payment-Balances t sig b h =
      let (w₁, w₂, w₃, l₁, l₂, l₃, debited, credited, paid, eb) = payment_parts t sig b h in
      pushed-Balances b l₃ b.payouts (Transaction.payment t) _ eb (
        unfold deposited in
        omega (
          arith,
          total-debit b.ledger t.header.sender t.amount t.header.fee sig _ debited,
          total-credit l₁ t.receiver t.amount credited,
          total-credit_fee l₂ t.header.fee paid,
        ))

  build_deposit-Balances :
      (t : Deposit) (b : Building) {b' : Building} → build_deposit t b ≡ ok b' → Balances b b'
  build_deposit-Balances t b h =
      let (w, l, credited, eb) = deposit_parts t b h in
      pushed-Balances b _ b.payouts (Transaction.deposit t) _ eb
        (unfold deposited in omega (arith, total-credit b.ledger t.receiver t.amount credited))

  build_withdrawal-Balances :
      (t : Withdrawal) (sig : Signature) (b : Building) {b' : Building}
      → build_withdrawal t sig b ≡ ok b'
      → Balances b b'
  build_withdrawal-Balances t sig b h =
      let (w₁, w₂, l₁, l₂, large, debited, paid, eb) = withdrawal_parts t sig b h in
      pushed-Balances b l₂ _ (Transaction.withdrawal t) _ eb (
        unfold deposited in
        omega (
          arith,
          total-debit b.ledger t.header.sender t.amount t.header.fee sig _ debited,
          total-credit_fee l₁ t.header.fee paid,
          worth-append b.payouts t.recipient t.amount,
        ))

  total-emptied :
      (t : ForcedWithdrawal) (l : Ledger) (payouts : List Payout) {l' : Ledger}
      {payouts' : List Payout}
      → emptied t l payouts ≡ ok (l', payouts')
      → total l'.accounts + worth payouts' ≡ total l.accounts + worth payouts
  unfolding emptied
  total-emptied t l payouts {l'} {payouts'} h =
      let balance = balance_of (get l.accounts t.header.sender) in
      elim (Bool-cases (leb min_withdrawal balance)) [
        | inl large ↦
            let (held, account, found, bumped, el, ep) =
              empty_parts t balance l payouts (rw large at h) in
            rw (el, ep)
              (omega (
                arith,
                total-insert_account l t.header.sender account,
                bumped_lem (record held { amount = 0 }) bumped,
                worth-append payouts t.recipient balance,
              ))
        | inr little ↦
            let e = ok-injective (rw little at h) in
            ap (λ (q : Ledger × List Payout). total q.0.accounts + worth q.1) (sym e)
      ]

  build_forced_withdrawal-Balances :
      (t : ForcedWithdrawal) (b : Building) {b' : Building}
      → build_forced_withdrawal t b ≡ ok b'
      → Balances b b'
  build_forced_withdrawal-Balances t b h =
      let (l, payouts, done, eb) = forced_parts t b h in
      pushed-Balances b _ payouts (Transaction.forced_withdrawal t) _ eb
        (unfold deposited in omega (arith, total-emptied t b.ledger b.payouts done))

  pub build_txn-Balances :
      (t : SignedTransaction) (b : Building) {b' : Building} → build_txn t b ≡ ok b' → Balances b b'
  unfolding build_txn
  build_txn-Balances (SignedTransaction.payment t sig) b h = build_payment-Balances t sig b h
  build_txn-Balances (SignedTransaction.deposit t) b h = build_deposit-Balances t b h
  build_txn-Balances (SignedTransaction.withdrawal t sig) b h = build_withdrawal-Balances t sig b h
  build_txn-Balances (SignedTransaction.forced_withdrawal t) b h =
      build_forced_withdrawal-Balances t b h

  build_loop-Balances :
      (ts : List SignedTransaction) (b : Building) {b' : Building}
      → build_loop ts b ≡ ok b'
      → Balances b b'
  unfolding build_loop
  build_loop-Balances [] b h = subst (Balances b) (ok-injective h) refl
  build_loop-Balances (t ∷ ts) b h =
      let (b₁, built, rest) = >>=-eq-ok (build_txn t b) _ h in
      omega (arith, build_txn-Balances t b built, build_loop-Balances ts b₁ rest)

  -- When the ledger hands out a block, from a synced ledger and on transactions whose addresses are
  -- 32 bytes, then the sum of its balances afterwards, with the withdrawals of the block that are
  -- paid out on L1, is the sum of its balances before, with the deposits of the block that were paid
  -- in on L1: no transaction makes or loses value, fees included.
  pub total-get_block :
      (l : Ledger) (ts : List SignedTransaction) {block : Block} {l' : Ledger}
      → IsSynced l
      → All NamesAddresses ts
      → get_block l ts ≡ ok (block, l')
      → total l'.accounts + worth (withdrawal_payouts block.batch block.sidecar)
        ≡ total l.accounts + worth (deposits_of block.batch.txns)
  unfolding get_block withdrawal_payouts
  total-get_block l ts s n h =
      let (b, built, done) = >>=-eq-ok (build_loop ts (start l)) _ h in
      let r = build_loop-Replayed ts (start l) n s built in
      let (queued, _, _) =
        verify_loop-queues l.domain r.txns r.entries (progress (start l)) r.paired r.replayed in
      let payouts : b.payouts ≡ payouts_loop b.txns b.entries =
        queued ∙ (λ i. payouts_loop (sym r.txns_grow i) (sym r.entries_grow i)) in
      let none_in : paid_in [] ≡ 0 = unfold paid_in deposits_of worth in refl in
      let none_out : worth [] ≡ 0 = unfold worth in refl in
      let balanced : total b.ledger.accounts + worth (payouts_loop b.txns b.entries)
          ≡ total l.accounts + worth (deposits_of b.txns) =
        unfold paid_in in
        omega
          (arith, build_loop-Balances ts (start l) built, ap worth payouts, none_in, none_out) in
      subst
        (λ (q : Block × Ledger).
          total q.1.accounts + worth (payouts_loop q.0.batch.txns q.0.sidecar.entries)
          ≡ total l.accounts + worth (deposits_of q.0.batch.txns))
        (ok-injective done) balanced
