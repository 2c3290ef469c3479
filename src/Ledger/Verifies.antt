-- ===== src/Ledger/Verifies.antt =====
-- Every block that `Ledger::get_block` returns is accepted by `verify_block`
-- (crates/payment-rollup/src/lib.rs).
use payment_rollup.Prelude.{
  suc, ◌≡◌, refl, sym, ap, ◌∙◌, true, List, [], ◌∷◌, ◌++◌, ◌==◌, ==_iff, ok, >>=-eq-ok,
  ok-injective, length, All, append-nil, append_assoc,
}
use payment_rollup.Bytes.{bytes_eq_refl}
use payment_rollup.Crypto.{Primitives}
use payment_rollup.Txn.{Transaction, SignedTransaction, TxnSidecar, Block}
use payment_rollup.Chains.{withdrawal_chain}
use payment_rollup.Replay.{verify_loop, verify_batch, verify_block}
use payment_rollup.Ledger.{Ledger, Building, state_root, build_txn, build_loop, get_block}
use payment_rollup.Ledger.Sync.{IsSynced}
use payment_rollup.Ledger.Placed.{
  NamesAddresses, progress, Placed, build_payment-Placed, build_deposit-Placed,
  build_withdrawal-Placed,
}
use payment_rollup.Ledger.Forced.{build_forced_withdrawal-Placed}

module _ ⦃p : Primitives⦄ where
  -- Whatever transaction the sequencer places, the replay accepts it and follows.
  build_txn-Placed :
      (t : SignedTransaction) (b : Building) {b' : Building}
      → NamesAddresses t
      → IsSynced b.ledger
      → build_txn t b ≡ ok b'
      → Placed b b'
  unfolding build_txn
  build_txn-Placed (SignedTransaction.payment t sig) b n s h = build_payment-Placed t sig b n s h
  build_txn-Placed (SignedTransaction.deposit t) b n s h = build_deposit-Placed t b n s h
  build_txn-Placed (SignedTransaction.withdrawal t sig) b n s h =
      build_withdrawal-Placed t sig b n s h
  build_txn-Placed (SignedTransaction.forced_withdrawal t) b n s h =
      build_forced_withdrawal-Placed t b n s h

  -- Transactions were placed one after the other, and the replay of them leads to the same state.
  pub record Replayed (b b' : Building) : Type 0 where
    pub txns : List Transaction
    pub entries : List TxnSidecar
    pub txns_grow : b'.txns ≡ b.txns ++ txns
    pub entries_grow : b'.entries ≡ b.entries ++ entries
    pub paired : length txns ≡ length entries
    pub replayed : verify_loop b.ledger.domain txns entries (progress b) ≡ ok (progress b')
    pub synced : IsSynced b'.ledger
    pub domain_kept : b'.ledger.domain ≡ b.ledger.domain

  prepend : {b b' b'' : Building} → Placed b b' → Replayed b' b'' → Replayed b b''
  unfolding verify_loop
  prepend {b} {b'} {b''} f r = record {
    txns = f.txn ∷ r.txns;
    entries = f.entry ∷ r.entries;
    txns_grow =
        r.txns_grow ∙ ap (λ z. z ++ r.txns) f.txns_grow ∙ append_assoc b.txns (f.txn ∷ []) r.txns;
    entries_grow =
        r.entries_grow
        ∙ ap (λ z. z ++ r.entries) f.entries_grow
        ∙ append_assoc b.entries (f.entry ∷ []) r.entries;
    paired = ap suc r.paired;
    replayed =
        rw f.replayed
          (ap (λ d. verify_loop d r.txns r.entries (progress b')) (sym f.domain_kept) ∙ r.replayed);
    synced = r.synced;
    domain_kept = r.domain_kept ∙ f.domain_kept;
  }

  pub build_loop-Replayed :
      (ts : List SignedTransaction) (b : Building) {b' : Building}
      → All NamesAddresses ts
      → IsSynced b.ledger
      → build_loop ts b ≡ ok b'
      → Replayed b b'
  unfolding build_loop
  build_loop-Replayed [] b n s h = rw (sym (ok-injective h)) (record {
    txns = [];
    entries = [];
    txns_grow = sym (append-nil b.txns);
    entries_grow = sym (append-nil b.entries);
    paired = refl;
    replayed = unfold verify_loop in refl;
    synced = s;
    domain_kept = refl;
  })
  build_loop-Replayed (t ∷ ts) b n s h =
      let (b₁, built, rest) = >>=-eq-ok (build_txn t b) _ h in
      let f = build_txn-Placed t b n.0 s built in
      prepend f (build_loop-Replayed ts b₁ n.1 f.synced rest)

  abbrev pub start : Ledger → Building
  start l = record { ledger = l; payouts = []; txns = []; entries = [] }

  -- The block that a finished builder hands out.
  abbrev pub sealed : Ledger → Building → Block
  sealed l b = record {
    domain = b.ledger.domain;
    old_root = state_root l;
    new_root = state_root b.ledger;
    old_inbox_chain = l.inbox_chain;
    new_inbox_chain = b.ledger.inbox_chain;
    withdrawal_chain = withdrawal_chain b.ledger.domain b.payouts;
    batch = record { txns = b.txns };
    sidecar = record { entries = b.entries };
  }

  sealed_verifies :
      (l : Ledger) (b : Building) → Replayed (start l) b → verify_block (sealed l b) ≡ ok tt
  unfolding verify_block verify_batch
  sealed_verifies l b r =
      let replayed : verify_loop b.ledger.domain b.txns b.entries (progress (start l))
          ≡ ok (progress b) =
        (λ i. verify_loop (r.domain_kept i) (r.txns_grow i) (r.entries_grow i) (progress (start l)))
        ∙ r.replayed in
      let paired : (length b.txns == length b.entries) ≡ true =
        (==_iff _ _).1 (ap length r.txns_grow ∙ r.paired ∙ sym (ap length r.entries_grow)) in
      rw (paired, replayed)
        (rw (
          bytes_eq_refl (state_root b.ledger),
          bytes_eq_refl b.ledger.inbox_chain,
          bytes_eq_refl (withdrawal_chain b.ledger.domain b.payouts),
        ))

  -- When the builder hands out a block, from a ledger whose tree is canonical and holds what its
  -- map holds, on transactions whose addresses are 32 bytes, `verify_block` accepts the block, and
  -- the ledger left behind is again of that kind.
  pub verify_block-get_block :
      (l : Ledger) (ts : List SignedTransaction) {block : Block} {l' : Ledger}
      → IsSynced l
      → All NamesAddresses ts
      → get_block l ts ≡ ok (block, l')
      → (verify_block block ≡ ok tt) × IsSynced l'
  unfolding get_block
  verify_block-get_block l ts s n h =
      let (b, built, done) = >>=-eq-ok (build_loop ts (start l)) _ h in
      let r = build_loop-Replayed ts (start l) n s built in
      let e = ok-injective done in
      rw (sym (ap (λ (q : Block × Ledger). q.0) e), sym (ap (λ (q : Block × Ledger). q.1) e))
        (sealed_verifies l b r, r.synced)

  -- A block starts where the ledger stood.
  pub get_block-starts :
      (l : Ledger) (ts : List SignedTransaction) {block : Block} {l' : Ledger}
      → All NamesAddresses ts
      → IsSynced l
      → get_block l ts ≡ ok (block, l')
      → (block.domain ≡ l.domain)
        × (block.old_root ≡ state_root l)
        × (block.old_inbox_chain ≡ l.inbox_chain)
  unfolding get_block
  get_block-starts l ts n s h =
      let (b, built, done) = >>=-eq-ok (build_loop ts (start l)) _ h in
      let r = build_loop-Replayed ts (start l) n s built in
      let e = sym (ap (λ (q : Block × Ledger). q.0) (ok-injective done)) in
      (
        ap (λ (q : Block). q.domain) e ∙ r.domain_kept,
        ap (λ (q : Block). q.old_root) e,
        ap (λ (q : Block). q.old_inbox_chain) e,
      )
