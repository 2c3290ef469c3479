-- ===== src/Ledger/Formed.antt =====
-- The blocks that `get_block` of crates/payment-rollup/src/lib.rs builds are of the form that the
-- wire formats of crates/payment-rollup/src/codec.rs carry.
use payment_rollup.Prelude.{
  ◌≡◌, sym, subst, inl, inr, List, [], ◌∷◌, ◌++◌, arith, leb, Bool-cases, ok, >>=-eq-ok,
  ok-injective, All, All-append,
}
use payment_rollup.Bytes.{Bytes, IsArray}
use payment_rollup.Crypto.{Primitives}
use payment_rollup.Account.{IsAccount, min_withdrawal}
use payment_rollup.Txn.{
  Payment, Deposit, Withdrawal, ForcedWithdrawal, Signature, SignedTransaction, Transaction,
  TxnSidecar, payment_bytes_to_sign, withdrawal_bytes_to_sign,
}
use payment_rollup.Chains.{Payout}
use payment_rollup.Replay.{balance_of}
use payment_rollup.Ledger.{
  get, Ledger, Building, build_payment, build_deposit, build_withdrawal, build_forced_withdrawal,
  build_txn, build_loop,
}
use payment_rollup.Ledger.Placed.{NamesAddresses, payment_parts, withdrawal_parts, deposit_parts}
use payment_rollup.Ledger.Forced.{empty_parts, emptied, forced_parts}
use payment_rollup.Ledger.Typed.{
  IsTyped, held_fits, witness_of-IsWitness, insert_account-IsTyped, bumped-IsAccount, debit-IsTyped,
  credit-IsTyped, credit_fee-IsTyped,
}
use payment_rollup.Codec.Batch.RoundTrip.{IsTransaction}
use payment_rollup.Codec.Sidecar.Fields.{IsSignature}
use payment_rollup.Codec.Sidecar.RoundTrip.{Fits, FitAll}

-- What the types of a submitted transaction allow, a signature no longer than a size can be.
abbrev pub IsSubmitted : SignedTransaction → Type 0
IsSubmitted (SignedTransaction.payment t sig) =
    IsTransaction (Transaction.payment t) × IsSignature sig
IsSubmitted (SignedTransaction.deposit t) = IsTransaction (Transaction.deposit t)
IsSubmitted (SignedTransaction.withdrawal t sig) =
    IsTransaction (Transaction.withdrawal t) × IsSignature sig
IsSubmitted (SignedTransaction.forced_withdrawal t) =
    IsTransaction (Transaction.forced_withdrawal t)

pub IsSubmitted→NamesAddresses : (t : SignedTransaction) → IsSubmitted t → NamesAddresses t
IsSubmitted→NamesAddresses (SignedTransaction.payment t sig) h = (h.0.0, h.0.1)
IsSubmitted→NamesAddresses (SignedTransaction.deposit t) h = h.0
IsSubmitted→NamesAddresses (SignedTransaction.withdrawal t sig) h = h.0.0
IsSubmitted→NamesAddresses (SignedTransaction.forced_withdrawal t) h = h.0

FitAll-last :
    (ts : List Transaction) (es : List TxnSidecar) (t : Transaction) (e : TxnSidecar)
    → FitAll ts es
    → Fits t e
    → FitAll (ts ++ t ∷ []) (es ++ e ∷ [])
FitAll-last [] [] t e h f = (f, tt)
FitAll-last (u ∷ ts) (v ∷ es) t e h f = (h.0, FitAll-last ts es t e h.1 f)
FitAll-last _ _ t e h f = absurd h

module _ ⦃p : Primitives⦄ where
  -- A block under construction that the wire formats can carry.
  pub record IsFormed (b : Building) : Type 0 where
    pub typed : IsTyped b.ledger
    pub fits : FitAll b.txns b.entries
    pub carried : All IsTransaction b.txns

  pushed :
      (b : Building) {l : Ledger} {payouts : List Payout} (t : Transaction) (e : TxnSidecar)
      → IsFormed b
      → IsTyped l
      → IsTransaction t
      → Fits t e
      → IsFormed (record {
        ledger = l;
        payouts = payouts;
        txns = b.txns ++ t ∷ [];
        entries = b.entries ++ e ∷ [];
      })
  pushed b t e f typed carried fits = record {
    typed = typed;
    fits = FitAll-last b.txns b.entries t e f.fits fits;
    carried = All-append IsTransaction b.txns (t ∷ []) f.carried (carried, tt);
  }

  build_payment-IsFormed :
      (t : Payment) (sig : Signature) (b : Building) {b' : Building}
      → IsSubmitted (SignedTransaction.payment t sig)
      → IsFormed b
      → build_payment t sig b ≡ ok b'
      → IsFormed b'
  build_payment-IsFormed t sig b n f h =
      let (w₁, w₂, w₃, l₁, l₂, l₃, debited, credited, paid, eb) = payment_parts t sig b h in
      let (s₁, t₁) =
        debit-IsTyped b.ledger t.header.sender t.amount t.header.fee sig
          (payment_bytes_to_sign t b.ledger.domain) n.0.0 f.typed debited in
      let (s₂, t₂) = credit-IsTyped l₁ t.receiver t.amount n.0.1 t₁ credited in
      let (s₃, t₃) = credit_fee-IsTyped l₂ t.header.fee t₂ paid in
      subst IsFormed (sym eb) (pushed b _ _ f t₃ n.0 (n.1, s₁, s₂, s₃))

  build_withdrawal-IsFormed :
      (t : Withdrawal) (sig : Signature) (b : Building) {b' : Building}
      → IsSubmitted (SignedTransaction.withdrawal t sig)
      → IsFormed b
      → build_withdrawal t sig b ≡ ok b'
      → IsFormed b'
  build_withdrawal-IsFormed t sig b n f h =
      let (w₁, w₂, l₁, l₂, large, debited, paid, eb) = withdrawal_parts t sig b h in
      let (s₁, t₁) =
        debit-IsTyped b.ledger t.header.sender t.amount t.header.fee sig
          (withdrawal_bytes_to_sign t b.ledger.domain) n.0.0 f.typed debited in
      let (s₂, t₂) = credit_fee-IsTyped l₁ t.header.fee t₁ paid in
      subst IsFormed (sym eb) (pushed b _ _ f t₂ n.0 (n.1, s₁, s₂))

  -- The inbox chain has no part in what is typed.
  chained : (l : Ledger) {chain : Bytes} → IsTyped l → IsTyped (record l { inbox_chain = chain })
  chained l t =
      let s = t.synced in
      record { synced = record { canonical = s.canonical; agrees = s.agrees }; leaves = t.leaves }

  build_deposit-IsFormed :
      (t : Deposit) (b : Building) {b' : Building}
      → IsSubmitted (SignedTransaction.deposit t)
      → IsFormed b
      → build_deposit t b ≡ ok b'
      → IsFormed b'
  build_deposit-IsFormed t b n f h =
      let (w, l, credited, eb) = deposit_parts t b h in
      let (s, typed) = credit-IsTyped b.ledger t.receiver t.amount n.0 f.typed credited in
      subst IsFormed (sym eb) (pushed b _ _ f (chained l typed) n s)

  emptied-IsTyped :
      (t : ForcedWithdrawal) (l : Ledger) (payouts : List Payout) {l' : Ledger}
      {payouts' : List Payout}
      → IsArray 32 t.header.sender
      → IsTyped l
      → emptied t l payouts ≡ ok (l', payouts')
      → IsTyped l'
  unfolding emptied
  emptied-IsTyped t l payouts hs typed h =
      let balance = balance_of (get l.accounts t.header.sender) in
      elim (Bool-cases (leb min_withdrawal balance)) [
        | inl large ↦
            let (held, account, found, bumped, el, _) =
              empty_parts t balance l payouts (rw large at h) in
            let fits : IsAccount held = rw found at (held_fits l t.header.sender typed) in
            let cleared : IsAccount (record held { amount = 0 }) = record {
              nonce_fits = fits.nonce_fits;
              amount_fits = omega arith;
              auth_fits = fits.auth_fits;
            } in
            subst IsTyped (sym el) (
              insert_account-IsTyped l t.header.sender account hs
                (bumped-IsAccount (record held { amount = 0 }) account.amount cleared bumped
                  (omega arith))
                typed)
        | inr small ↦
            subst (λ (r : Ledger × List Payout). IsTyped r.0) (ok-injective (rw small at h)) typed
      ]

  build_forced_withdrawal-IsFormed :
      (t : ForcedWithdrawal) (b : Building) {b' : Building}
      → IsSubmitted (SignedTransaction.forced_withdrawal t)
      → IsFormed b
      → build_forced_withdrawal t b ≡ ok b'
      → IsFormed b'
  build_forced_withdrawal-IsFormed t b n f h =
      let (l, payouts, done, eb) = forced_parts t b h in
      subst IsFormed (sym eb) (
        pushed b _ _ f (chained l (emptied-IsTyped t b.ledger b.payouts n.0 f.typed done)) n
          (witness_of-IsWitness b.ledger t.header.sender f.typed))

  pub build_txn-IsFormed :
      (t : SignedTransaction) (b : Building) {b' : Building}
      → IsSubmitted t
      → IsFormed b
      → build_txn t b ≡ ok b'
      → IsFormed b'
  unfolding build_txn
  build_txn-IsFormed (SignedTransaction.payment t sig) b n f h =
      build_payment-IsFormed t sig b n f h
  build_txn-IsFormed (SignedTransaction.deposit t) b n f h = build_deposit-IsFormed t b n f h
  build_txn-IsFormed (SignedTransaction.withdrawal t sig) b n f h =
      build_withdrawal-IsFormed t sig b n f h
  build_txn-IsFormed (SignedTransaction.forced_withdrawal t) b n f h =
      build_forced_withdrawal-IsFormed t b n f h

  -- Every transaction placed keeps the block one that the wire formats can carry,.
  pub build_loop-IsFormed :
      (ts : List SignedTransaction) (b : Building) {b' : Building}
      → All IsSubmitted ts
      → IsFormed b
      → build_loop ts b ≡ ok b'
      → IsFormed b'
  unfolding build_loop
  build_loop-IsFormed [] b n f h = subst IsFormed (ok-injective h) f
  build_loop-IsFormed (t ∷ ts) b n f h =
      let (b₁, built, rest) = >>=-eq-ok (build_txn t b) _ h in
      build_loop-IsFormed ts b₁ n.1 (build_txn-IsFormed t b n.0 f built) rest
