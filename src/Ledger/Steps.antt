-- ===== src/Ledger/Steps.antt =====
-- The writes of an accepted transaction, one after the other, made by the ledger
-- (crates/payment-rollup/src/lib.rs).
use payment_rollup.Prelude.{ℕ, ◌≡◌, subst, inl, inr, ◌⊎◌, Option, Result, ok, err}
use payment_rollup.Bytes.{Bytes, IsArray}
use payment_rollup.Crypto.{Primitives}
use payment_rollup.Account.{Address, Digest}
use payment_rollup.Merkle.Binding.{Broken, Hashes}
use payment_rollup.Txn.{Signature, LeafWitness}
use payment_rollup.Codec.Sidecar.RoundTrip.{FitsFee}
use payment_rollup.Replay
use payment_rollup.Replay.{
  root_with, expect_pre_state, balance_of, Progress, verify_payment, verify_deposit,
  verify_withdrawal, verify_forced_withdrawal, verify_txn, verify_loop, verify_batch,
}
use payment_rollup.Ledger
use payment_rollup.Ledger.{
  Ledger, Building, Panic, push, get, witness_of, insert_account, state_root, build_payment,
  build_deposit, build_withdrawal, build_forced_withdrawal, build_txn, build_loop, get_block,
}
use payment_rollup.Ledger.Typed.{IsTyped, debit-IsTyped, credit-IsTyped}
use payment_rollup.Codec.Sidecar.Fields.{IsWitness}
use payment_rollup.Ledger.Mirror.{debit-mirror, credit-mirror, credit_fee-mirror}
use payment_rollup.Ledger.Convinced.{
  WitnessHashes, FeeHashes, debit_convinces, credit_convinces, credit_fee_convinces,
}

module _ ⦃p : Primitives⦄ (H : Bytes → Type 0) where
  -- `H` holds of the messages that a ledger hashes when a step of it succeeds, and `K` of the ledger.
  abbrev pub After : {W : Type 0} → Result Panic (W × Ledger) → (Ledger → Type 0) → Type 0
  After (ok (w, l)) K = Hashes H l.tree × K l
  After (err e) K = Unit

  -- A step of the ledger that ends where the replay does, with what the next one needs.
  pub record Steps {W : Type 0} (l : Ledger) (run : Result Panic (W × Ledger)) (K : Ledger → Type 0)
      (root' : Digest) : Type 0 where
    pub witness : W
    pub next : Ledger
    pub ran : run ≡ ok (witness, next)
    pub ends : root' ≡ state_root next
    pub typed_next : IsTyped next
    pub hashed_next : Hashes H next.tree
    pub asked_next : K next
    pub domain_kept : next.domain ≡ l.domain
    pub inbox_kept : next.inbox_chain ≡ l.inbox_chain

  module _ (l : Ledger) (typed : IsTyped l) (hashes : Hashes H l.tree) (K : Ledger → Type 0) where
    pub debit-Steps :
        (a : Address) (w : LeafWitness) (sig : Signature) (amount fee : ℕ) (message : ℕ → Bytes)
        {root' : Digest}
        → IsArray 32 a
        → IsWitness w
        → WitnessHashes H a w
        → After (Ledger.debit l a amount fee sig message) K
        → Replay.debit a w sig amount fee (state_root l) message ≡ ok root'
        → Broken H ⊎ Steps l (Ledger.debit l a amount fee sig message) K root'
    debit-Steps a w sig amount fee message {root'} ha hw on after h =
        elim (debit_convinces H l typed hashes a w sig amount fee message ha hw on h) [
          | inl broken ↦ inl broken
          | inr (w', l', run, e) ↦
              let (hashed, asked) = subst (λ r. After r K) run after in
              let (_, typed') = debit-IsTyped l a amount fee sig message ha typed run in
              let (_, follows) = debit-mirror l a amount fee sig message ha typed.synced run in
              inr (record {
                witness = w';
                next = l';
                ran = run;
                ends = e;
                typed_next = typed';
                hashed_next = hashed;
                asked_next = asked;
                domain_kept = follows.domain_kept;
                inbox_kept = follows.inbox_kept;
              })
        ]

    pub credit-Steps :
        (a : Address) (w : LeafWitness) (amount : ℕ) {root' : Digest}
        → IsArray 32 a
        → IsWitness w
        → WitnessHashes H a w
        → After (Ledger.credit l a amount) K
        → Replay.credit a w amount (state_root l) ≡ ok root'
        → Broken H ⊎ Steps l (Ledger.credit l a amount) K root'
    credit-Steps a w amount {root'} ha hw on after h =
        elim (credit_convinces H l typed hashes a w amount ha hw on h) [
          | inl broken ↦ inl broken
          | inr (w', l', run, e) ↦
              let (hashed, asked) = subst (λ r. After r K) run after in
              let (_, typed') = credit-IsTyped l a amount ha typed run in
              let (_, follows) = credit-mirror l a amount ha typed.synced run in
              inr (record {
                witness = w';
                next = l';
                ran = run;
                ends = e;
                typed_next = typed';
                hashed_next = hashed;
                asked_next = asked;
                domain_kept = follows.domain_kept;
                inbox_kept = follows.inbox_kept;
              })
        ]

  -- The fee is the last step of a transaction.
  pub record Pays (l : Ledger) (fee : ℕ) (root' : Digest) : Type 0 where
    pub witness : Option LeafWitness
    pub next : Ledger
    pub ran : Ledger.credit_fee l fee ≡ ok (witness, next)
    pub ends : root' ≡ state_root next
    pub domain_kept : next.domain ≡ l.domain
    pub inbox_kept : next.inbox_chain ≡ l.inbox_chain

  pub credit_fee-Pays :
      (l : Ledger) (fee : ℕ) (w : Option LeafWitness) {root' : Digest}
      → IsTyped l
      → Hashes H l.tree
      → FitsFee fee w
      → FeeHashes H w
      → Replay.credit_fee fee w (state_root l) ≡ ok root'
      → Broken H ⊎ Pays l fee root'
  credit_fee-Pays l fee w typed hashes fits on h =
      elim (credit_fee_convinces H l typed hashes fee w fits on h) [
        | inl broken ↦ inl broken
        | inr (w', l', run, e) ↦
            let (_, follows) = credit_fee-mirror l fee typed.synced run in
            inr (record {
              witness = w';
              next = l';
              ran = run;
              ends = e;
              domain_kept = follows.domain_kept;
              inbox_kept = follows.inbox_kept;
            })
      ]
