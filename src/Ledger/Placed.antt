-- ===== src/Ledger/Placed.antt =====
-- Each transaction that the sequencer places in a block is accepted by the replay
-- (crates/payment-rollup/src/lib.rs, `Ledger::get_block` beside `verify_batch`).
use payment_rollup.Prelude.{
  ◌≡◌, refl, sym, true, false, Option, [], ◌∷◌, ◌++◌, ok, guard, guard-ok, >>=-eq-ok, ok-injective,
  leb, le→ltb, ltb, leb→le,
}
use payment_rollup.Bytes.{IsArray}
use payment_rollup.Crypto.{Primitives}
use payment_rollup.Account.{min_withdrawal}
use payment_rollup.Txn.{
  Signature, LeafWitness, Payment, Deposit, Withdrawal, Transaction, SignedTransaction, TxnSidecar,
  payment_bytes_to_sign, withdrawal_bytes_to_sign,
}
use payment_rollup.Chains.{accumulate_deposit}
use payment_rollup.Replay.{Progress, verify_payment, verify_deposit, verify_withdrawal, verify_txn}
use payment_rollup.Ledger
use payment_rollup.Ledger.{
  push, get, Ledger, Building, insert_account, state_root, witness_of, build_payment, build_deposit,
  build_withdrawal, build_forced_withdrawal, build_txn, build_loop, get_block,
}
use payment_rollup.Ledger.Sync.{IsSynced}
use payment_rollup.Ledger.Mirror.{Follows-trans, debit-mirror, credit-mirror, credit_fee-mirror}

-- The addresses that a transaction names in the tree are 32 bytes, as their type says.
abbrev pub NamesAddresses : SignedTransaction → Type 0
NamesAddresses (SignedTransaction.payment t sig) =
    IsArray 32 t.header.sender × IsArray 32 t.receiver
NamesAddresses (SignedTransaction.deposit t) = IsArray 32 t.receiver
NamesAddresses (SignedTransaction.withdrawal t sig) = IsArray 32 t.header.sender
NamesAddresses (SignedTransaction.forced_withdrawal t) = IsArray 32 t.header.sender

-- What the replay carries where the builder stands.
abbrev pub progress : ⦃p : Primitives⦄ → Building → Progress
progress b = record {
  root = state_root b.ledger;
  inbox_chain = b.ledger.inbox_chain;
  payouts = b.payouts;
}

module _ ⦃p : Primitives⦄ where
  -- One transaction was placed, and the replay of it leads to the builder's state.
  pub record Placed (b b' : Building) : Type 0 where
    pub txn : Transaction
    pub entry : TxnSidecar
    pub txns_grow : b'.txns ≡ b.txns ++ txn ∷ []
    pub entries_grow : b'.entries ≡ b.entries ++ entry ∷ []
    pub replayed : verify_txn b.ledger.domain txn entry (progress b) ≡ ok (progress b')
    pub synced : IsSynced b'.ledger
    pub domain_kept : b'.ledger.domain ≡ b.ledger.domain

  pub payment_parts :
      (t : Payment) (sig : Signature) (b : Building) {b' : Building}
      → build_payment t sig b ≡ ok b'
      → (w₁ w₂ : LeafWitness) × (w₃ : Option LeafWitness) × (l₁ l₂ l₃ : Ledger) × (Ledger.debit
            b.ledger t.header.sender t.amount t.header.fee sig
            (payment_bytes_to_sign t b.ledger.domain)
          ≡ ok (w₁, l₁))
        × (Ledger.credit l₁ t.receiver t.amount ≡ ok (w₂, l₂))
        × (Ledger.credit_fee l₂ t.header.fee ≡ ok (w₃, l₃))
        × (b'
            ≡ push b l₃ b.payouts (Transaction.payment t) (
                TxnSidecar.payment (record {
                  sig = sig;
                  sender_witness = w₁;
                  receiver_witness = w₂;
                  fee_sink_witness = w₃;
                })))
  unfolding build_payment
  payment_parts t sig b h =
      let message = payment_bytes_to_sign t b.ledger.domain in
      let ((w₁, l₁), debited, h₁) =
        >>=-eq-ok (Ledger.debit b.ledger t.header.sender t.amount t.header.fee sig message) _ h in
      let ((w₂, l₂), credited, h₂) = >>=-eq-ok (Ledger.credit l₁ t.receiver t.amount) _ h₁ in
      let ((w₃, l₃), paid, h₃) = >>=-eq-ok (Ledger.credit_fee l₂ t.header.fee) _ h₂ in
      (w₁, w₂, w₃, l₁, l₂, l₃, debited, credited, paid, sym (ok-injective h₃))

  pub build_payment-Placed :
      (t : Payment) (sig : Signature) (b : Building) {b' : Building}
      → IsArray 32 t.header.sender × IsArray 32 t.receiver
      → IsSynced b.ledger
      → build_payment t sig b ≡ ok b'
      → Placed b b'
  build_payment-Placed t sig b (hs, hr) s h =
      let (w₁, w₂, w₃, l₁, l₂, l₃, debited, credited, paid, eb) = payment_parts t sig b h in
      let (r₁, f₁) =
        debit-mirror b.ledger t.header.sender t.amount t.header.fee sig
          (payment_bytes_to_sign t b.ledger.domain) hs s debited in
      let (r₂, f₂) = credit-mirror l₁ t.receiver t.amount hr f₁.synced credited in
      let (r₃, f₃) = credit_fee-mirror l₂ t.header.fee f₂.synced paid in
      let f = Follows-trans f₁ (Follows-trans f₂ f₃) in
      rw eb (record {
        txn = Transaction.payment t;
        entry = TxnSidecar.payment (record {
          sig = sig;
          sender_witness = w₁;
          receiver_witness = w₂;
          fee_sink_witness = w₃;
        });
        txns_grow = refl;
        entries_grow = refl;
        replayed = unfold verify_txn verify_payment in rw (r₁, r₂, r₃, f.inbox_kept);
        synced = f.synced;
        domain_kept = f.domain_kept;
      })

  pub withdrawal_parts :
      (t : Withdrawal) (sig : Signature) (b : Building) {b' : Building}
      → build_withdrawal t sig b ≡ ok b'
      → (w₁ : LeafWitness) × (w₂ : Option LeafWitness) × (l₁ l₂ : Ledger) × (leb min_withdrawal
            t.amount
          ≡ true)
        × (Ledger.debit b.ledger t.header.sender t.amount t.header.fee sig
              (withdrawal_bytes_to_sign t b.ledger.domain)
            ≡ ok (w₁, l₁))
        × (Ledger.credit_fee l₁ t.header.fee ≡ ok (w₂, l₂))
        × (b'
            ≡ push b l₂ (b.payouts ++ (t.recipient, t.amount) ∷ []) (Transaction.withdrawal t) (
                TxnSidecar.withdrawal
                  (record { sig = sig; sender_witness = w₁; fee_sink_witness = w₂ })))
  unfolding build_withdrawal
  withdrawal_parts t sig b h =
      let message = withdrawal_bytes_to_sign t b.ledger.domain in
      let (_, large, h₀) =
        >>=-eq-ok (guard (leb min_withdrawal t.amount) Ledger.withdrawal_too_small) _ h in
      let ((w₁, l₁), debited, h₁) =
        >>=-eq-ok (Ledger.debit b.ledger t.header.sender t.amount t.header.fee sig message) _ h₀ in
      let ((w₂, l₂), paid, h₂) = >>=-eq-ok (Ledger.credit_fee l₁ t.header.fee) _ h₁ in
      (w₁, w₂, l₁, l₂, guard-ok _ _ large, debited, paid, sym (ok-injective h₂))

  pub build_withdrawal-Placed :
      (t : Withdrawal) (sig : Signature) (b : Building) {b' : Building}
      → IsArray 32 t.header.sender
      → IsSynced b.ledger
      → build_withdrawal t sig b ≡ ok b'
      → Placed b b'
  build_withdrawal-Placed t sig b hs s h =
      let (w₁, w₂, l₁, l₂, large, debited, paid, eb) = withdrawal_parts t sig b h in
      let (r₁, f₁) =
        debit-mirror b.ledger t.header.sender t.amount t.header.fee sig
          (withdrawal_bytes_to_sign t b.ledger.domain) hs s debited in
      let (r₂, f₂) = credit_fee-mirror l₁ t.header.fee f₁.synced paid in
      let f = Follows-trans f₁ f₂ in
      let fits : ltb t.amount min_withdrawal ≡ false =
        le→ltb _ _ (leb→le min_withdrawal t.amount large) in
      rw eb (record {
        txn = Transaction.withdrawal t;
        entry =
            TxnSidecar.withdrawal
              (record { sig = sig; sender_witness = w₁; fee_sink_witness = w₂ });
        txns_grow = refl;
        entries_grow = refl;
        replayed = unfold verify_txn verify_withdrawal in rw (fits, r₁, r₂, f.inbox_kept);
        synced = f.synced;
        domain_kept = f.domain_kept;
      })

  pub deposit_parts :
      (t : Deposit) (b : Building) {b' : Building}
      → build_deposit t b ≡ ok b'
      → (w : LeafWitness) × (l : Ledger) × (Ledger.credit b.ledger t.receiver t.amount ≡ ok (w, l))
        × (b'
            ≡ push b
                (record l { inbox_chain = accumulate_deposit l.inbox_chain t.receiver t.amount })
                b.payouts
                (Transaction.deposit t)
                (TxnSidecar.deposit (record { receiver_witness = w })))
  unfolding build_deposit
  deposit_parts t b h =
      let ((w, l), credited, h₁) = >>=-eq-ok (Ledger.credit b.ledger t.receiver t.amount) _ h in
      (w, l, credited, sym (ok-injective h₁))

  pub build_deposit-Placed :
      (t : Deposit) (b : Building) {b' : Building}
      → IsArray 32 t.receiver
      → IsSynced b.ledger
      → build_deposit t b ≡ ok b'
      → Placed b b'
  build_deposit-Placed t b hr s h =
      let (w, l, credited, eb) = deposit_parts t b h in
      let (r, f) = credit-mirror b.ledger t.receiver t.amount hr s credited in
      rw eb (record {
        txn = Transaction.deposit t;
        entry = TxnSidecar.deposit (record { receiver_witness = w });
        txns_grow = refl;
        entries_grow = refl;
        replayed = unfold verify_txn verify_deposit state_root in rw (r, f.inbox_kept);
        synced = record { canonical = f.synced.canonical; agrees = f.synced.agrees };
        domain_kept = f.domain_kept;
      })
