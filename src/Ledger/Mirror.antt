-- ===== src/Ledger/Mirror.antt =====
-- Each write of the sequencer is accepted by the replay, and leads it to the ledger's next root
-- (crates/payment-rollup/src/lib.rs, `Ledger::debit` and `Ledger::credit` beside `debit` and
-- `credit`).
use payment_rollup.Prelude.{ℕ, ◌≡◌, ◌≢◌, refl, ◌∙◌, inl, inr, ◌⊎◌, Option, none, some, arith, ok}
use payment_rollup.Bytes.{Bytes, IsArray}
use payment_rollup.Crypto.{Primitives}
use payment_rollup.Account.{Address, Account, bump_nonce, fee_sink}
use payment_rollup.Txn.{Signature, LeafWitness}
use payment_rollup.Signing.{verify}
use payment_rollup.Replay
use payment_rollup.Replay.{spend, checked_add, account_or_empty}
use payment_rollup.Ledger
use payment_rollup.Ledger.{get, Ledger, insert_account, state_root, witness_of}
use payment_rollup.Ledger.Sync.{
  IsSynced, insert_account-IsSynced, expect_pre_state-witness_of, root_with-insert_account,
}

module _ ⦃p : Primitives⦄ where
  pub debit_parts :
      (l : Ledger) (a : Address) (amount fee : ℕ) (sig : Signature) (message : ℕ → Bytes)
      {w : LeafWitness} {l' : Ledger}
      → Ledger.debit l a amount fee sig message ≡ ok (w, l')
      → (held account : Account) × (balance : ℕ) × (get l.accounts a ≡ some held)
        × (bump_nonce held ≡ ok account)
        × (verify sig account (message account.nonce) ≡ ok tt)
        × (spend account.amount amount fee ≡ some balance)
        × (w ≡ witness_of l a)
        × (l' ≡ insert_account l a (record account { amount = balance }))
  unfolding Ledger.debit
  debit_parts l a amount fee sig message h = ground arith

  pub credit_parts :
      (l : Ledger) (a : Address) (amount : ℕ) {w : LeafWitness} {l' : Ledger}
      → Ledger.credit l a amount ≡ ok (w, l')
      → let account = account_or_empty a (get l.accounts a) in
        (balance : ℕ) × (checked_add account.amount amount ≡ some balance)
        × (w ≡ witness_of l a)
        × (l' ≡ insert_account l a (record account { amount = balance }))
  unfolding Ledger.credit
  credit_parts l a amount h = ground arith

  -- A write keeps the ledger synced, its domain and its inbox chain.
  pub record Follows (l l' : Ledger) : Type 0 where
    pub synced : IsSynced l'
    pub domain_kept : l'.domain ≡ l.domain
    pub inbox_kept : l'.inbox_chain ≡ l.inbox_chain

  pub insert_account-Follows :
      (l : Ledger) (a : Address) (x : Account)
      → IsArray 32 a
      → IsSynced l
      → Follows l (insert_account l a x)
  insert_account-Follows l a x ha s = record {
    synced = insert_account-IsSynced l a x ha s;
    domain_kept = unfold insert_account in refl;
    inbox_kept = unfold insert_account in refl;
  }

  pub Follows-trans : {l m n : Ledger} → Follows l m → Follows m n → Follows l n
  Follows-trans f g = record {
    synced = g.synced;
    domain_kept = g.domain_kept ∙ f.domain_kept;
    inbox_kept = g.inbox_kept ∙ f.inbox_kept;
  }

  -- A debit that the ledger carries out, at an address of 32 bytes and from a ledger whose tree is
  -- canonical and holds what its map holds, is one that the replay accepts with the witness
  -- captured: `debit` of the replay takes the root before to the root after, and the ledger stays
  -- of that kind, its domain and inbox chain kept.
  pub debit-mirror :
      (l : Ledger) (a : Address) (amount fee : ℕ) (sig : Signature) (message : ℕ → Bytes)
      {w : LeafWitness} {l' : Ledger}
      → IsArray 32 a
      → IsSynced l
      → Ledger.debit l a amount fee sig message ≡ ok (w, l')
      → (Replay.debit a w sig amount fee (state_root l) message ≡ ok (state_root l')) × Follows l l'
  unfolding witness_of state_root
  debit-mirror l a amount fee sig message ha s h =
      let (held, account, balance, found, bumped, verified, spent, ew, el) =
        debit_parts l a amount fee sig message h in
      let after = record account { amount = balance } in
      rw (ew, el)
        (
          unfold Replay.debit in
              rw (expect_pre_state-witness_of l a ha s) (
                rw (found, witness_of)
                  (rw bumped (rw verified (rw spent (root_with-insert_account l a ha s after))))),
          insert_account-Follows l a after ha s,
        )

  -- A credit that the ledger carries out, at an address of 32 bytes and from a ledger whose tree is
  -- canonical and holds what its map holds, is one that the replay accepts with the witness
  -- captured: `credit` of the replay takes the root before to the root after, and the ledger stays
  -- of that kind, its domain and inbox chain kept.
  pub credit-mirror :
      (l : Ledger) (a : Address) (amount : ℕ) {w : LeafWitness} {l' : Ledger}
      → IsArray 32 a
      → IsSynced l
      → Ledger.credit l a amount ≡ ok (w, l')
      → (Replay.credit a w amount (state_root l) ≡ ok (state_root l')) × Follows l l'
  unfolding witness_of state_root
  credit-mirror l a amount ha s h =
      let (balance, added, ew, el) = credit_parts l a amount h in
      let after = record (account_or_empty a (get l.accounts a)) { amount = balance } in
      rw (ew, el)
        (
          unfold Replay.credit in
              rw (expect_pre_state-witness_of l a ha s)
                (rw added (root_with-insert_account l a ha s after)),
          insert_account-Follows l a after ha s,
        )

  pub credit_fee_parts :
      (l : Ledger) (fee : ℕ) {w : Option LeafWitness} {l' : Ledger}
      → Ledger.credit_fee l fee ≡ ok (w, l')
      → ((fee ≡ 0) × (w ≡ none) × (l' ≡ l))
        ⊎ ((witness : LeafWitness) × (fee ≢ 0)
            × (Ledger.credit l fee_sink fee ≡ ok (witness, l'))
            × (w ≡ some witness))
  unfolding Ledger.credit_fee
  credit_fee_parts l fee h = ground arith

  pub fee_sink-IsArray : IsArray 32 fee_sink
  unfolding fee_sink
  fee_sink-IsArray = omega arith

  pub Follows-refl : (l : Ledger) → IsSynced l → Follows l l
  Follows-refl l s = record { synced = s; domain_kept = refl; inbox_kept = refl }

  pub credit_fee-mirror :
      (l : Ledger) (fee : ℕ) {w : Option LeafWitness} {l' : Ledger}
      → IsSynced l
      → Ledger.credit_fee l fee ≡ ok (w, l')
      → (Replay.credit_fee fee w (state_root l) ≡ ok (state_root l')) × Follows l l'
  credit_fee-mirror l fee s h = elim (credit_fee_parts l fee h) [
    | inl (e, ew, el) ↦ rw (ew, el) (unfold Replay.credit_fee in ground arith, Follows-refl l s)
    | inr (witness, ne, credited, ew) ↦
        let (replayed, follows) = credit-mirror l fee_sink fee fee_sink-IsArray s credited in
        rw ew (unfold Replay.credit_fee in ground (arith, replayed), follows)
  ]
