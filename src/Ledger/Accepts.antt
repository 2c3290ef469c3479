-- ===== src/Ledger/Accepts.antt =====
-- A batch that the replay accepts is one that the ledger of its old root builds
-- (crates/payment-rollup/src/lib.rs, `verify_batch` beside `Ledger::get_block`).
use payment_rollup.Prelude.{
  ◌≡◌, refl, sym, ap, ◌∙◌, subst, inl, inr, ◌⊎◌, List, [], ◌∷◌, ◌++◌, append-nil, append_assoc,
  ◌==◌, Result, ok, err, guard, ok-injective, >>=-eq-ok, length, All,
}
use payment_rollup.Bytes.{Bytes}
use payment_rollup.Crypto.{Primitives}
use payment_rollup.Account.{Digest, sidecar_length_mismatch}
use payment_rollup.Merkle.Binding.{Broken, Hashes}
use payment_rollup.Txn.{Transaction, SignedTransaction, TxnSidecar, Block, Batch, Sidecar}
use payment_rollup.Chains.{withdrawal_chain}
use payment_rollup.Codec.Batch.RoundTrip.{IsTransaction}
use payment_rollup.Codec.Sidecar.RoundTrip.{Fits, FitAll}
use payment_rollup.Replay.{Progress, verify_txn, verify_loop, verify_batch}
use payment_rollup.Ledger.{Ledger, Building, Panic, state_root, build_txn, build_loop, get_block}
use payment_rollup.Ledger.Typed.{IsTyped}
use payment_rollup.Ledger.Placed.{progress}
use payment_rollup.Ledger.Formed.{IsSubmitted, IsFormed, build_txn-IsFormed}
use payment_rollup.Ledger.Verifies.{start, sealed}
use payment_rollup.Ledger.Handed.{signature_of, signed, TxnHashes}
use payment_rollup.Ledger.Repeats.{verify_txn-Places}

-- The transactions of a batch as they were handed to the ledger.
unfoldable pub signed_all : List Transaction → List TxnSidecar → List SignedTransaction
signed_all [] es = []
signed_all (t ∷ ts) [] = []
signed_all (t ∷ ts) (e ∷ es) = signed t (signature_of e) ∷ signed_all ts es

signed-IsSubmitted :
    (t : Transaction) (e : TxnSidecar)
    → IsTransaction t
    → Fits t e
    → IsSubmitted (signed t (signature_of e))
unfolding signed signature_of
signed-IsSubmitted (Transaction.payment t) (TxnSidecar.payment e) shape fits = (shape, fits.0)
signed-IsSubmitted (Transaction.deposit t) e shape fits = shape
signed-IsSubmitted (Transaction.withdrawal t) (TxnSidecar.withdrawal e) shape fits = (shape, fits.0)
signed-IsSubmitted (Transaction.forced_withdrawal t) e shape fits = shape
signed-IsSubmitted _ _ shape fits = absurd fits

module _ ⦃p : Primitives⦄ (H : Bytes → Type 0) where
  -- The ledger, when it places a transaction, goes on with `K`.
  abbrev pub Then : Result Panic Building → (Building → Type 0) → Type 0
  Then (ok b) K = K b
  Then (err e) K = Unit

  -- `H` holds of the messages hashed to check the transactions, and to carry them out from `b`.
  abbrev pub LoopHashes : Building → List Transaction → List TxnSidecar → Type 0
  LoopHashes b [] es = Unit
  LoopHashes b (t ∷ ts) [] = Unit
  LoopHashes b (t ∷ ts) (e ∷ es) =
      Hashes H b.ledger.tree
      × TxnHashes H b.ledger t e
      × Then (build_txn (signed t (signature_of e)) b) (λ b'. LoopHashes b' ts es)

  verify_loop_lem :
      (ts : List Transaction) (es : List TxnSidecar) (b : Building) {s' : Progress}
      → IsFormed b
      → All IsTransaction ts
      → FitAll ts es
      → LoopHashes b ts es
      → verify_loop b.ledger.domain ts es (progress b) ≡ ok s'
      → Broken H
        ⊎ ((b' : Building) × (build_loop (signed_all ts es) b ≡ ok b')
            × (s' ≡ progress b')
            × (b'.ledger.domain ≡ b.ledger.domain)
            × (b'.txns ≡ b.txns ++ ts))
  unfolding verify_loop build_loop signed_all
  verify_loop_lem [] es b f shape fits on h =
      inr (b, refl, sym (ok-injective h), refl, sym (append-nil b.txns))
  verify_loop_lem (t ∷ ts) [] b f shape fits on h = absurd fits
  verify_loop_lem (t ∷ ts) (e ∷ es) b {s'} f shape fits (hashed, on_txn, on_rest) h =
      let (s₁, first, rest) = >>=-eq-ok (verify_txn b.ledger.domain t e (progress b)) _ h in
      elim (verify_txn-Places H b f.typed hashed t e shape.0 fits.0 on_txn first) [
        | inl broken ↦ inl broken
        | inr (b₁, placed, at, domain, txns) ↦
            let submitted = signed-IsSubmitted t e shape.0 fits.0 in
            let f₁ = build_txn-IsFormed (signed t (signature_of e)) b submitted f placed in
            let on₁ = subst (λ r. Then r (λ b'. LoopHashes b' ts es)) placed on_rest in
            let rest₁ =
              subst (λ d. verify_loop d ts es (progress b₁) ≡ ok s') (sym domain)
                (subst (λ s. verify_loop b.ledger.domain ts es s ≡ ok s') at rest) in
            elim (verify_loop_lem ts es b₁ f₁ shape.1 fits.1 on₁ rest₁) [
              | inl broken ↦ inl broken
              | inr (b₂, ran, at₂, domain₂, txns₂) ↦ inr (
                b₂,
                rw placed ran,
                at₂,
                domain₂ ∙ domain,
                txns₂ ∙ ap (λ z. z ++ ts) txns ∙ append_assoc b.txns (t ∷ []) ts,
              )
            ]
      ]

  -- A ledger of accounts within their types, synced, and a batch and sidecar within theirs, entry
  -- for transaction: when the replay accepts the two from the ledger's root and inbox chain, whoever
  -- made the witnesses, the ledger builds a block of the same transactions, signed as the sidecar
  -- has it, and the block's new root, inbox chain and payout chain are those of the replay; or else,
  -- among the messages hashed by the replay's checks and by the ledger on its way (`H` is any
  -- property that these have), there are two of one digest, or one whose digest is all zeros.
  pub get_block-verify_batch :
      (l : Ledger) (batch : Batch) (sidecar : Sidecar) {root inbox chain : Digest}
      → IsTyped l
      → All IsTransaction batch.txns
      → FitAll batch.txns sidecar.entries
      → LoopHashes (start l) batch.txns sidecar.entries
      → verify_batch l.domain (state_root l) l.inbox_chain batch sidecar ≡ ok (root, inbox, chain)
      → Broken H
        ⊎ ((block : Block) × (l' : Ledger) × (get_block l (signed_all batch.txns sidecar.entries)
              ≡ ok (block, l'))
            × (block.batch ≡ batch)
            × (block.new_root ≡ root)
            × (block.new_inbox_chain ≡ inbox)
            × (block.withdrawal_chain ≡ chain))
  unfolding verify_batch
  get_block-verify_batch l batch sidecar {root} {inbox} {chain} typed shape fits on h =
      let (_, _, h₁) =
        >>=-eq-ok (guard (length batch.txns == length sidecar.entries) sidecar_length_mismatch) _
          h in
      let (s, looped, done) =
        >>=-eq-ok (verify_loop l.domain batch.txns sidecar.entries (progress (start l))) _ h₁ in
      let out = ok-injective done in
      elim (verify_loop_lem batch.txns sidecar.entries (start l)
        (record { typed = typed; fits = tt; carried = tt }) shape fits on looped) [
          | inl broken ↦ inl broken
          | inr (b, ran, at, domain, txns) ↦ inr (
            sealed l b,
            b.ledger,
            unfold get_block in rw ran,
            (λ i. record { txns = txns i }),
            ap (λ (q : Progress). q.root) (sym at) ∙ ap (λ (q : Digest × Digest × Digest). q.0) out,
            ap (λ (q : Progress). q.inbox_chain) (sym at)
                ∙ ap (λ (q : Digest × Digest × Digest). q.1) out,
            (λ i. withdrawal_chain (domain i) (sym at i).payouts)
                ∙ ap (λ (q : Digest × Digest × Digest). q.2) out,
          )
        ]
