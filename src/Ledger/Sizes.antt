-- ===== src/Ledger/Sizes.antt =====
-- A block of crates/payment-rollup/src/lib.rs holds as many transactions as `Ledger::get_block` was
-- given.
use payment_rollup.Prelude.{
  ◌+◌, ◌≡◌, sym, ap, ◌∙◌, List, [], ◌∷◌, arith, ok, length, length-append, >>=-eq-ok, ok-injective,
}
use payment_rollup.Crypto.{Primitives}
use payment_rollup.Txn.{Transaction, TxnSidecar, SignedTransaction, Block}
use payment_rollup.Chains.{Payout}
use payment_rollup.Ledger.{Ledger, Building, push, build_txn, build_loop, get_block}
use payment_rollup.Ledger.Placed.{payment_parts, deposit_parts, withdrawal_parts}
use payment_rollup.Ledger.Forced.{forced_parts}
use payment_rollup.Ledger.Verifies.{start}

module _ ⦃p : Primitives⦄ where
  -- One transaction is pushed.
  abbrev Grows : Building → Building → Type 0
  Grows b b' = length b'.txns ≡ length b.txns + 1

  pushed-Grows :
      (b : Building) {b' : Building} (l : Ledger) (payouts : List Payout) (t : Transaction)
      (e : TxnSidecar)
      → b' ≡ push b l payouts t e
      → Grows b b'
  pushed-Grows b l payouts t e eb = ap (λ q. length q.txns) eb ∙ length-append b.txns (t ∷ [])

  build_txn-Grows :
      (t : SignedTransaction) (b : Building) {b' : Building} → build_txn t b ≡ ok b' → Grows b b'
  unfolding build_txn
  build_txn-Grows (SignedTransaction.payment t sig) b h =
      let (_, _, _, _, _, _, _, _, _, eb) = payment_parts t sig b h in pushed-Grows b _ _ _ _ eb
  build_txn-Grows (SignedTransaction.deposit t) b h =
      let (_, _, _, eb) = deposit_parts t b h in pushed-Grows b _ _ _ _ eb
  build_txn-Grows (SignedTransaction.withdrawal t sig) b h =
      let (_, _, _, _, _, _, _, eb) = withdrawal_parts t sig b h in pushed-Grows b _ _ _ _ eb
  build_txn-Grows (SignedTransaction.forced_withdrawal t) b h =
      let (_, _, _, eb) = forced_parts t b h in pushed-Grows b _ _ _ _ eb

  length-build_loop :
      (ts : List SignedTransaction) (b : Building) {b' : Building}
      → build_loop ts b ≡ ok b'
      → length b'.txns ≡ length b.txns + length ts
  unfolding build_loop
  length-build_loop [] b h = ap (λ q. length q.txns) (sym (ok-injective h)) ∙ omega arith
  length-build_loop (t ∷ ts) b h =
      let (b₁, built, rest) = >>=-eq-ok (build_txn t b) _ h in
      length-build_loop ts b₁ rest ∙ omega (arith, build_txn-Grows t b built)

  pub length-get_block :
      (l : Ledger) (ts : List SignedTransaction) {block : Block} {l' : Ledger}
      → get_block l ts ≡ ok (block, l')
      → length block.batch.txns ≡ length ts
  unfolding get_block
  length-get_block l ts h =
      let (b, built, done) = >>=-eq-ok (build_loop ts (start l)) _ h in
      ap (λ (q : Block × Ledger). length q.0.batch.txns) (sym (ok-injective done))
      ∙ length-build_loop ts (start l) built
      ∙ omega arith
