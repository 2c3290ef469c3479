-- ===== src/Settlement/Includes.antt =====
-- What L1 put into its inbox can be included by the ledger of crates/payment-rollup/src/lib.rs and
-- settled by crates/sp1-host/src/lib.rs.
use payment_rollup.Prelude.{
  ℕ, suc, ◌+◌, ◌*◌, ◌<◌, ◌≤◌, ◌^◌, ◌≡◌, refl, sym, ap, ◌∙◌, inl, inr, Bool-cases, leb, ltb, true,
  Option, none, some, List, [], ◌∷◌, ◌++◌, map, arith, ok, All, length, append-nil, append_assoc,
}
use payment_rollup.Bytes.{bytes_eq}
use payment_rollup.Crypto.{Primitives}
use payment_rollup.Account
use payment_rollup.Account.{Address, Account, L1Address, min_withdrawal, bump_nonce}
use payment_rollup.Txn.{Transaction, SignedTransaction, Block, new_deposit, new_forced_withdrawal}
use payment_rollup.Codec.Reader.{usize_max}
use payment_rollup.Merkle.Digests.{IsDigest}
use payment_rollup.Replay.{balance_of, account_or_empty, checked_add}
use payment_rollup.Ledger
use payment_rollup.Ledger.{
  Ledger, Accounts, Building, get, put, push, insert_account, witness_of, build_deposit,
  build_forced_withdrawal, build_txn, build_loop, get_block,
}
use payment_rollup.Ledger.Typed.{IsTyped}
use payment_rollup.Ledger.Formed.{IsSubmitted}
use payment_rollup.Ledger.Total.{total, balance_of-empty}
use payment_rollup.Ledger.Verifies.{start}
use payment_rollup.Settlement.{InboxItem, inbox_of, for_block}
use payment_rollup.Settlement.Conserves.{worth, build_txn-Balances}
use payment_rollup.Settlement.Fits.{brought, incoming, balance_of_bound, paid_in-build_txn}
use payment_rollup.Settlement.Settles.{settlement_of, for_block-get_block}

-- The transaction that takes an item of the inbox into a block.
unfoldable pub taking : InboxItem → SignedTransaction
taking (InboxItem.deposit receiver amount) = SignedTransaction.deposit (new_deposit receiver amount)
taking (InboxItem.forced_withdrawal address recipient) =
    SignedTransaction.forced_withdrawal (new_forced_withdrawal address recipient)

-- No account is within `k` of the largest nonce.
abbrev pub NoncesAllow : ℕ → Accounts → Type 0
NoncesAllow k [] = Unit
NoncesAllow k ((a, x) ∷ rest) = (x.nonce + k < 2 ^ 64) × NoncesAllow k rest

NoncesAllow-get :
    (m : Accounts) (k : ℕ) (a : Address) {x : Account}
    → NoncesAllow k m
    → get m a ≡ some x
    → x.nonce + k < 2 ^ 64
unfolding get
NoncesAllow-get [] k a n h = cc
NoncesAllow-get ((b, y) ∷ rest) k a {x} n h = elim (Bool-cases (bytes_eq b a)) [
  | inl e ↦
      let same : ◌≡◌ {A = Option Account} (some y) (some x) = rw e at h in
      let nonces : y.nonce ≡ x.nonce = cc in omega (arith, nonces, n.0)
  | inr e ↦ NoncesAllow-get rest k a n.1 (rw e at h)
]

NoncesAllow-fewer : (m : Accounts) (k : ℕ) → NoncesAllow (suc k) m → NoncesAllow k m
NoncesAllow-fewer [] k n = tt
NoncesAllow-fewer ((b, y) ∷ rest) k n = (omega (arith, n.0), NoncesAllow-fewer rest k n.1)

NoncesAllow-put :
    (m : Accounts) (k : ℕ) (a : Address) (x : Account)
    → NoncesAllow (suc k) m
    → x.nonce + k < 2 ^ 64
    → NoncesAllow k (put m a x)
unfolding put
NoncesAllow-put [] k a x n h = (h, tt)
NoncesAllow-put ((b, y) ∷ rest) k a x n h = elim (Bool-cases (bytes_eq b a)) [
  | inl e ↦ rw e (h, NoncesAllow-fewer rest k n.1)
  | inr e ↦ rw e (omega (arith, n.0), NoncesAllow-put rest k a x n.1 h)
]

nonce_allows :
    (m : Accounts) (k : ℕ) (a : Address) (o : Option Account)
    → k < 2 ^ 64
    → NoncesAllow (suc k) m
    → get m a ≡ o
    → (account_or_empty a o).nonce + k < 2 ^ 64
unfolding account_or_empty Account.empty
nonce_allows m k a none few n h = omega (arith, few)
nonce_allows m k a (some x) few n h = omega (arith, NoncesAllow-get m (suc k) a n h)

held_by :
    (o : Option Account) → leb min_withdrawal (balance_of o) ≡ true → (x : Account) × (o ≡ some x)
unfolding min_withdrawal balance_of
held_by none h = cc
held_by (some x) h = (x, refl)

module _ ⦃p : Primitives⦄ where
  -- Building goes on to a state that has taken an item, and has nonces for `k` more.
  abbrev Taken : InboxItem → ℕ → Building → Type 0
  Taken item k b =
      (b' : Building) × (build_txn (taking item) b ≡ ok b')
      × NoncesAllow k b'.ledger.accounts
      × (inbox_of b'.txns ≡ inbox_of b.txns ++ item ∷ [])

  inbox_of-append :
      (ts : List Transaction) (t : Transaction)
      → inbox_of (ts ++ t ∷ []) ≡ inbox_of ts ++ inbox_of (t ∷ [])
  unfolding inbox_of
  inbox_of-append [] t = refl
  inbox_of-append (Transaction.payment u ∷ ts) t = inbox_of-append ts t
  inbox_of-append (Transaction.deposit u ∷ ts) t = rw (inbox_of-append ts t) refl
  inbox_of-append (Transaction.withdrawal u ∷ ts) t = inbox_of-append ts t
  inbox_of-append (Transaction.forced_withdrawal u ∷ ts) t = rw (inbox_of-append ts t) refl

  deposit-Taken :
      (receiver : Address) (amount k : ℕ) (b : Building)
      → total b.ledger.accounts + amount < 2 ^ 64
      → k < 2 ^ 64
      → NoncesAllow (suc k) b.ledger.accounts
      → Taken (InboxItem.deposit receiver amount) k b
  unfolding taking new_deposit build_txn build_deposit Ledger.credit insert_account inbox_of
  deposit-Taken receiver amount k b small few n =
      let held = get b.ledger.accounts receiver in
      let account = account_or_empty receiver held in
      let fits : checked_add account.amount amount ≡ some (account.amount + amount) =
        unfold checked_add in
        ground
          (arith, balance_of_bound b.ledger.accounts receiver, balance_of-empty receiver held) in
      rw fits (
        _,
        refl,
        NoncesAllow-put b.ledger.accounts k receiver _ n
            (nonce_allows b.ledger.accounts k receiver held few n refl),
        inbox_of-append b.txns _,
      )

  forced-Taken :
      (address : Address) (recipient : L1Address) (k : ℕ) (b : Building)
      → NoncesAllow (suc k) b.ledger.accounts
      → Taken (InboxItem.forced_withdrawal address recipient) k b
  unfolding taking new_forced_withdrawal build_txn build_forced_withdrawal Ledger.empty_account
      insert_account bump_nonce inbox_of
  forced-Taken address recipient k b n =
      let held = get b.ledger.accounts address in
      elim (Bool-cases (leb min_withdrawal (balance_of held))) [
        | inl large ↦
            let (x, found) = held_by held large in
            let young = NoncesAllow-get b.ledger.accounts (suc k) address n found in
            let fits : ltb (x.nonce + 1) (2 ^ 64) ≡ true = ground (arith, young) in
            rw (large, found, fits)
              (
                _,
                refl,
                NoncesAllow-put b.ledger.accounts k address _ n (omega (arith, young)),
                inbox_of-append b.txns _,
              )
        | inr small ↦
            rw small (_, refl, NoncesAllow-fewer b.ledger.accounts k n, inbox_of-append b.txns _)
      ]

  taking-Taken :
      (item : InboxItem) (k : ℕ) (b : Building)
      → total b.ledger.accounts + brought (taking item) < 2 ^ 64
      → k < 2 ^ 64
      → NoncesAllow (suc k) b.ledger.accounts
      → Taken item k b
  unfolding taking new_deposit
  taking-Taken (InboxItem.deposit receiver amount) k b small few n =
      deposit-Taken receiver amount k b small few n
  taking-Taken (InboxItem.forced_withdrawal address recipient) k b small few n =
      forced-Taken address recipient k b n

  build_loop_takes :
      (items : List InboxItem) (b : Building)
      → total b.ledger.accounts + worth b.payouts + incoming (map taking items) < 2 ^ 64
      → length items < 2 ^ 64
      → NoncesAllow (length items) b.ledger.accounts
      → (b' : Building) × (build_loop (map taking items) b ≡ ok b')
        × (inbox_of b'.txns ≡ inbox_of b.txns ++ items)
  unfolding build_loop
  build_loop_takes [] b small few n = (b, refl, sym (append-nil (inbox_of b.txns)))
  build_loop_takes (item ∷ items) b small few n =
      let (b₁, built, n₁, taken) =
        taking-Taken item (length items) b (omega (arith, small)) (omega (arith, few)) n in
      let t = taking item in
      let (b₂, rest, all_taken) =
        build_loop_takes items b₁
          (omega (arith, small, build_txn-Balances t b built, paid_in-build_txn t b built))
          (omega (arith, few)) n₁ in
      (b₂, rw built rest, all_taken ∙ (rw taken (append_assoc (inbox_of b.txns) (item ∷ []) items)))

  get_block-built :
      (l : Ledger) (ts : List SignedTransaction) (b : Building)
      → build_loop ts (start l) ≡ ok b
      → (block : Block) × (get_block l ts ≡ ok (block, b.ledger)) × (block.batch.txns ≡ b.txns)
  unfolding get_block
  get_block-built l ts b built = rw built (_, refl, refl)

  length-taking : (items : List InboxItem) → length (map taking items) ≡ length items
  length-taking [] = refl
  length-taking (item ∷ items) = ap suc (length-taking items)

  -- What waits in the L1 inbox can always be included: from a synced ledger of accounts within their
  -- types, whose balances with the deposits that wait come to less than 2 ^ 64, and whose nonces are
  -- no closer to the largest than there are items, the ledger builds the block that takes the items
  -- in their order, within their types and no more than a size can count the bytes of; the block
  -- settles, and hands those items to the contract.
  pub for_block_includes :
      (l : Ledger) (items : List InboxItem)
      → IsTyped l
      → IsDigest l.inbox_chain
      → All IsSubmitted (map taking items)
      → length items * 3 ≤ usize_max
      → total l.accounts + incoming (map taking items) < 2 ^ 64
      → NoncesAllow (length items) l.accounts
      → (block : Block) × (l' : Ledger) × (get_block l (map taking items) ≡ ok (block, l'))
        × (for_block block ≡ ok (settlement_of block))
        × (inbox_of block.batch.txns ≡ items)
  unfolding worth inbox_of
  for_block_includes l items typed a n few small young =
      let ts = map taking items in
      let (b, built, taken) =
        build_loop_takes items (start l) (omega (arith, small)) (omega (arith, few)) young in
      let (block, made, same) = get_block-built l ts b built in
      let (settles, _) =
        for_block-get_block l ts typed n a (omega (arith, few, length-taking items)) made in
      (block, b.ledger, made, settles, ap inbox_of same ∙ taken)
