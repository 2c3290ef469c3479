-- ===== src/Ledger/Convinced.antt =====
-- A write that the replay accepts is one that the ledger of that root makes
-- (crates/payment-rollup/src/lib.rs, `debit` and `credit` beside `Ledger::debit` and
-- `Ledger::credit`).
use payment_rollup.Prelude.{
  ℕ, ◌≡◌, sym, ◌∙◌, inl, inr, ◌⊎◌, Option, none, some, arith, Result, ok, ok_or, >>=-eq-ok,
  guard-ok,
}
use payment_rollup.Bytes.{Bytes, IsArray, bytes_eq→eq}
use payment_rollup.Crypto.{Primitives}
use payment_rollup.Account.{
  Address, Account, Digest, bump_nonce, fee_sink, malformed_proof, stale_witness,
}
use payment_rollup.Merkle.Tree.{root}
use payment_rollup.Merkle.Witness.{root_from_proof}
use payment_rollup.Merkle.Binding.{Broken, Hashes}
use payment_rollup.Merkle.Claims.{ProofHashes}
use payment_rollup.Merkle.Sound.{root_from_proof_sound}
use payment_rollup.Txn.{Signature, LeafWitness}
use payment_rollup.Signing.{verify}
use payment_rollup.Codec.Sidecar.Fields.{IsWitness}
use payment_rollup.Codec.Sidecar.RoundTrip.{FitsFee}
use mathlib.Core.Option.{some-injective}
use payment_rollup.Replay
use payment_rollup.Replay.{root_with, expect_pre_state, spend, checked_add, account_or_empty}
use payment_rollup.Ledger
use payment_rollup.Ledger.{get, Ledger, insert_account, state_root, witness_of}
use payment_rollup.Ledger.Mirror.{fee_sink-IsArray}
use payment_rollup.Ledger.Typed.{IsTyped}

module _ ⦃p : Primitives⦄ where
  -- `H` holds of every message hashed to check a witness.
  abbrev pub WitnessHashes : (Bytes → Type 0) → Address → LeafWitness → Type 0
  WitnessHashes H a w = ProofHashes H a w.old_account w.proof

  expect_pre_state_lem :
      (a : Address) (w : LeafWitness) (root : Digest)
      → expect_pre_state a w root ≡ ok tt
      → root_from_proof a w.old_account w.proof ≡ some root
  unfolding expect_pre_state root_with
  expect_pre_state_lem a w root h =
      let (found, checked, same) =
        >>=-eq-ok (ok_or (root_from_proof a w.old_account w.proof) malformed_proof) _ h in
      let e = bytes_eq→eq found root (guard-ok _ stale_witness same) in ground (arith, checked, e)

  root_with_lem :
      (a : Address) (w : LeafWitness) (x : Account) {root : Digest}
      → root_with a (some x) w.proof ≡ ok root
      → root_from_proof a (some x) w.proof ≡ some root
  unfolding root_with
  root_with_lem a w x h = ground arith

  debit_accepted :
      (a : Address) (w : LeafWitness) (sig : Signature) (amount fee : ℕ) (root : Digest)
      (message : ℕ → Bytes) {root' : Digest}
      → Replay.debit a w sig amount fee root message ≡ ok root'
      → (held account : Account) × (balance : ℕ) × (expect_pre_state a w root ≡ ok tt)
        × (w.old_account ≡ some held)
        × (bump_nonce held ≡ ok account)
        × (verify sig account (message account.nonce) ≡ ok tt)
        × (spend account.amount amount fee ≡ some balance)
        × (root_with a (some (record account { amount = balance })) w.proof ≡ ok root')
  unfolding Replay.debit
  debit_accepted a w sig amount fee root message h = ground arith

  credit_accepted :
      (a : Address) (w : LeafWitness) (amount : ℕ) (root : Digest) {root' : Digest}
      → Replay.credit a w amount root ≡ ok root'
      → let account = account_or_empty a w.old_account in
        (balance : ℕ) × (expect_pre_state a w root ≡ ok tt)
        × (checked_add account.amount amount ≡ some balance)
        × (root_with a (some (record account { amount = balance })) w.proof ≡ ok root')
  unfolding Replay.credit
  credit_accepted a w amount root h = ground arith

  fee_waived :
      (fee : ℕ) (root : Digest) {root' : Digest}
      → Replay.credit_fee fee none root ≡ ok root'
      → root' ≡ root
  unfolding Replay.credit_fee
  fee_waived fee root h = ground arith

  fee_paid :
      (fee : ℕ) (w : LeafWitness) (root : Digest) {root' : Digest}
      → Replay.credit_fee fee (some w) root ≡ ok root'
      → Replay.credit fee_sink w fee root ≡ ok root'
  unfolding Replay.credit_fee
  fee_paid fee w root h = ground arith

module _ ⦃p : Primitives⦄ (H : Bytes → Type 0) where
  -- The ledger can make the write as well, and comes to the same root.
  abbrev pub Makes : {W : Type 0} → Result Ledger.Panic (W × Ledger) → Digest → Type 0
  Makes {W} run root' = (w : W) × (l' : Ledger) × (run ≡ ok (w, l')) × (root' ≡ state_root l')

  -- What is asked of the fee sink's witness.
  abbrev pub FeeHashes : Option LeafWitness → Type 0
  FeeHashes none = Unit
  FeeHashes (some w) = WitnessHashes H fee_sink w

  module _ (l : Ledger) (typed : IsTyped l) (hashes : Hashes H l.tree) where
    -- A witness that passes shows what the ledger holds, and leads to the ledger's next root.
    pub witness_convinces :
        (a : Address) (w : LeafWitness)
        → IsArray 32 a
        → IsWitness w
        → WitnessHashes H a w
        → expect_pre_state a w (state_root l) ≡ ok tt
        → Broken H
          ⊎ ((get l.accounts a ≡ w.old_account)
              × ((x : Account) (root' : Digest)
                  → root_with a (some x) w.proof ≡ ok root'
                  → root' ≡ state_root (insert_account l a x)))
    unfolding state_root insert_account
    witness_convinces a w ha hw on h =
        let s = typed.synced in
        elim (root_from_proof_sound H a ha l.tree w.old_account w.proof s.canonical typed.leaves
          hw.held_fits hw.slot_fits hw.siblings_fit hashes on
          (expect_pre_state_lem a w (root l.tree) h)) [
            | inl broken ↦ inl broken
            | inr (here, writes) ↦ inr (
              sym (s.agrees a) ∙ here,
              λ x root' k. some-injective _ _ (sym (root_with_lem a w x k) ∙ writes x),
            )
          ]

    pub debit_convinces :
        (a : Address) (w : LeafWitness) (sig : Signature) (amount fee : ℕ) (message : ℕ → Bytes)
        {root' : Digest}
        → IsArray 32 a
        → IsWitness w
        → WitnessHashes H a w
        → Replay.debit a w sig amount fee (state_root l) message ≡ ok root'
        → Broken H ⊎ Makes (Ledger.debit l a amount fee sig message) root'
    debit_convinces a w sig amount fee message ha hw on h =
        let (held, account, balance, passed, shown, bumped, verified, spent, led) =
          debit_accepted a w sig amount fee (state_root l) message h in
        elim (witness_convinces a w ha hw on passed) [
          | inl broken ↦ inl broken
          | inr (here, writes) ↦
              let after = record account { amount = balance } in
              inr (
                witness_of l a,
                insert_account l a after,
                unfold Ledger.debit in rw (here, shown) (rw bumped (rw verified (rw spent))),
                writes after _ led,
              )
        ]

    pub credit_convinces :
        (a : Address) (w : LeafWitness) (amount : ℕ) {root' : Digest}
        → IsArray 32 a
        → IsWitness w
        → WitnessHashes H a w
        → Replay.credit a w amount (state_root l) ≡ ok root'
        → Broken H ⊎ Makes (Ledger.credit l a amount) root'
    credit_convinces a w amount ha hw on h =
        let (balance, passed, added, led) = credit_accepted a w amount (state_root l) h in
        elim (witness_convinces a w ha hw on passed) [
          | inl broken ↦ inl broken
          | inr (here, writes) ↦
              let after = record (account_or_empty a w.old_account) { amount = balance } in
              inr (
                witness_of l a,
                insert_account l a after,
                unfold Ledger.credit in rw here (rw added),
                writes after _ led,
              )
        ]

    pub credit_fee_convinces :
        (fee : ℕ) (w : Option LeafWitness) {root' : Digest}
        → FitsFee fee w
        → FeeHashes w
        → Replay.credit_fee fee w (state_root l) ≡ ok root'
        → Broken H ⊎ Makes (Ledger.credit_fee l fee) root'
    credit_fee_convinces fee none fits on h =
        inr (
          none,
          l,
          unfold Ledger.credit_fee in ground (arith, fits),
          fee_waived fee (state_root l) h,
        )
    credit_fee_convinces fee (some w) fits on h =
        elim (credit_convinces fee_sink w fee fee_sink-IsArray fits.1 on
          (fee_paid fee w (state_root l) h)) [
            | inl broken ↦ inl broken
            | inr (w', l', run, e) ↦
                inr (some w', l', unfold Ledger.credit_fee in ground (arith, run, fits), e)
          ]
