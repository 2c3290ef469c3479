-- ===== src/Ledger/Forced.antt =====
-- A forced withdrawal that `get_block` places is one that the replay accepts
-- (crates/payment-rollup/src/lib.rs).
use payment_rollup.Prelude.{
  ℕ, ◌≡◌, refl, sym, ap, inl, inr, some, List, [], ◌∷◌, ◌++◌, arith, if◌then◌else◌, Result, ok,
  >>=-eq-ok, ok-injective, leb, Bool-cases,
}
use payment_rollup.Bytes.{IsArray}
use payment_rollup.Crypto.{Primitives}
use payment_rollup.Account.{Account, bump_nonce, min_withdrawal, Digest}
use payment_rollup.Txn.{LeafWitness, ForcedWithdrawal, Transaction, TxnSidecar}
use payment_rollup.Chains.{Payout, accumulate_request}
use payment_rollup.Replay
use payment_rollup.Replay.{
  Progress, verify_payment, verify_deposit, verify_withdrawal, verify_forced_withdrawal, verify_txn,
  verify_loop, verify_batch, verify_block, balance_of,
}
use payment_rollup.Ledger
use payment_rollup.Ledger.{
  push, get, Ledger, Building, insert_account, state_root, witness_of, build_payment, build_deposit,
  build_withdrawal, build_forced_withdrawal, build_txn, build_loop, get_block,
}
use payment_rollup.Ledger.Sync.{IsSynced, expect_pre_state-witness_of, root_with-insert_account}
use payment_rollup.Ledger.Mirror.{Follows, Follows-refl, insert_account-Follows}
use payment_rollup.Ledger.Placed.{progress, Placed}

module _ ⦃p : Primitives⦄ where
  pub empty_parts :
      (t : ForcedWithdrawal) (balance : ℕ) (l : Ledger) (payouts : List Payout) {l' : Ledger}
      {payouts' : List Payout}
      → Ledger.empty_account t balance l payouts ≡ ok (l', payouts')
      → (held account : Account) × (get l.accounts t.header.sender ≡ some held)
        × (bump_nonce (record held { amount = 0 }) ≡ ok account)
        × (l' ≡ insert_account l t.header.sender account)
        × (payouts' ≡ payouts ++ (t.recipient, balance) ∷ [])
  unfolding Ledger.empty_account
  empty_parts t balance l payouts h = ground arith

  -- The conditional emptying of the account, on both sides.
  unfoldable pub emptied :
      ForcedWithdrawal → Ledger → List Payout → Result Ledger.Panic (Ledger × List Payout)
  emptied t l payouts =
      let balance = balance_of (get l.accounts t.header.sender) in
      if leb min_withdrawal balance
      then Ledger.empty_account t balance l payouts
      else ok (l, payouts)

  replay_empty :
      (t : ForcedWithdrawal) (w : LeafWitness) (balance : ℕ) (s : Progress) (held account : Account)
      (root : Digest)
      → w.old_account ≡ some held
      → bump_nonce (record held { amount = 0 }) ≡ ok account
      → Replay.root_with t.header.sender (some account) w.proof ≡ ok root
      → Replay.empty_account t w balance s
        ≡ ok (record s { root = root; payouts = s.payouts ++ (t.recipient, balance) ∷ [] })
  unfolding Replay.empty_account
  replay_empty t w balance s held account root found bumped up = rw (found, bumped, up)

  emptied-mirror :
      (t : ForcedWithdrawal) (b : Building) {l' : Ledger} {payouts : List Payout}
      → IsArray 32 t.header.sender
      → IsSynced b.ledger
      → emptied t b.ledger b.payouts ≡ ok (l', payouts)
      → let w = witness_of b.ledger t.header.sender in
        let balance = balance_of w.old_account in
        ((if leb min_withdrawal balance
            then Replay.empty_account t w balance (progress b)
            else ok (progress b))
          ≡ ok (record { root = state_root l'; inbox_chain = l'.inbox_chain; payouts = payouts }))
        × Follows b.ledger l'
  unfolding emptied witness_of state_root insert_account
  emptied-mirror t b hs s h =
      elim (Bool-cases (leb min_withdrawal (balance_of (get b.ledger.accounts t.header.sender)))) [
        | inl large ↦
            let balance = balance_of (get b.ledger.accounts t.header.sender) in
            let (held, account, found, bumped, el, ep) =
              empty_parts t balance b.ledger b.payouts (rw large at h) in
            rw large (
              rw (el, ep)
                (
                  replay_empty t (witness_of b.ledger t.header.sender) balance (progress b) held
                      account (state_root (insert_account b.ledger t.header.sender account)) found
                      bumped (root_with-insert_account b.ledger t.header.sender hs s account),
                  insert_account-Follows b.ledger t.header.sender account hs s,
                ))
        | inr small ↦
            let e = ok-injective (rw small at h) in
            rw small (
              rw
                (
                  sym (ap (λ (r : Ledger × List Payout). r.0) e),
                  sym (ap (λ (r : Ledger × List Payout). r.1) e),
                )
                (refl, Follows-refl b.ledger s))
      ]

  pub forced_parts :
      (t : ForcedWithdrawal) (b : Building) {b' : Building}
      → build_forced_withdrawal t b ≡ ok b'
      → (l : Ledger) × (payouts : List Payout) × (emptied t b.ledger b.payouts ≡ ok (l, payouts))
        × (b'
            ≡ push b
                (record l {
                  inbox_chain = accumulate_request l.inbox_chain t.header.sender t.recipient;
                })
                payouts
                (Transaction.forced_withdrawal t)
                (TxnSidecar.forced_withdrawal
                  (record { sender_witness = witness_of b.ledger t.header.sender })))
  unfolding build_forced_withdrawal emptied
  forced_parts t b h =
      let ((l, payouts), done, h₁) = >>=-eq-ok (emptied t b.ledger b.payouts) _ h in
      (l, payouts, done, sym (ok-injective h₁))

  pub build_forced_withdrawal-Placed :
      (t : ForcedWithdrawal) (b : Building) {b' : Building}
      → IsArray 32 t.header.sender
      → IsSynced b.ledger
      → build_forced_withdrawal t b ≡ ok b'
      → Placed b b'
  build_forced_withdrawal-Placed t b hs s h =
      let (l, payouts, done, eb) = forced_parts t b h in
      let (r, f) = emptied-mirror t b hs s done in
      rw eb (record {
        txn = Transaction.forced_withdrawal t;
        entry =
            TxnSidecar.forced_withdrawal
              (record { sender_witness = witness_of b.ledger t.header.sender });
        txns_grow = refl;
        entries_grow = refl;
        replayed =
            unfold verify_txn verify_forced_withdrawal state_root in
            rw (expect_pre_state-witness_of b.ledger t.header.sender hs s) (rw r);
        synced = record { canonical = f.synced.canonical; agrees = f.synced.agrees };
        domain_kept = f.domain_kept;
      })
