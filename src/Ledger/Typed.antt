-- ===== src/Ledger/Typed.antt =====
-- A ledger's accounts and witnesses are of the sizes that the wire formats of
-- crates/payment-rollup/src/codec.rs carry (`Ledger::debit` and `Ledger::credit` of
-- crates/payment-rollup/src/lib.rs).
use payment_rollup.Prelude.{
  ℕ, ◌+◌, ◌≤◌, ◌≡◌, sym, subst, inl, inr, Option, none, some, arith, ok, length, All,
}
use payment_rollup.Bytes.{Bytes, IsArray, bytes_eq_cases}
use payment_rollup.Crypto.{Primitives}
use payment_rollup.Account
use payment_rollup.Account.{Address, Account, IsAccount, Digest, bump_nonce, fee_sink}
use payment_rollup.Merkle.Path.{depth_limit}
use payment_rollup.Merkle.Tree.{Node, empty, leaf, branch, MerkleProof, update}
use payment_rollup.Merkle.Shape.{AllLeaves, IsCanonical, lookup, bit_cases}
use payment_rollup.Merkle.Insert.{AllLeaves-insert}
use payment_rollup.Merkle.Complete.{siblings_of, slot_of, proof_parts, length-siblings_of}
use payment_rollup.Merkle.Digests.{hash-IsDigest}
use payment_rollup.Txn.{Signature, LeafWitness}
use payment_rollup.Replay.{spend, checked_sub, checked_add, account_or_empty}
use payment_rollup.Ledger
use payment_rollup.Ledger.{get, Ledger, with_domain, insert_account, witness_of}
use payment_rollup.Ledger.Sync.{IsSynced, with_domain-IsSynced, insert_account-IsSynced}
use payment_rollup.Ledger.Mirror.{debit_parts, credit_parts, credit_fee_parts, fee_sink-IsArray}
use payment_rollup.Codec.Sidecar.Fields.{IsOptionalAccount, IsSlot, IsWitness}
use payment_rollup.Codec.Sidecar.RoundTrip.{FitsFee}

-- A synced ledger that holds accounts of the sizes that their types allow.
pub record IsTyped ⦃p : Primitives⦄ (l : Ledger) : Type 0 where
  pub synced : IsSynced l
  pub leaves : AllLeaves (λ a x. IsAccount x) l.tree

lookup-IsOptionalAccount :
    (t : Node) (d : ℕ) (a : Address)
    → AllLeaves (λ a x. IsAccount x) t
    → IsOptionalAccount (lookup t d a)
unfolding lookup
lookup-IsOptionalAccount empty d a h = tt
lookup-IsOptionalAccount (leaf b y) d a h = elim (bytes_eq_cases b a) [
  | inl (e, test) ↦ rw test h
  | inr (e, test) ↦ rw test tt
]
lookup-IsOptionalAccount (branch g l r) d a h = elim (bit_cases a d) [
  | inl (e, test) ↦ rw test (lookup-IsOptionalAccount l (d + 1) a h.0)
  | inr (e, test) ↦ rw test (lookup-IsOptionalAccount r (d + 1) a h.1)
]

module _ ⦃p : Primitives⦄ where
  siblings_of-IsDigest :
      (t : Node) (d : ℕ) (a : Address)
      → IsCanonical d t
      → All (λ s. length s ≡ 32) (siblings_of t d a)
  unfolding siblings_of
  siblings_of-IsDigest empty d a c = tt
  siblings_of-IsDigest (leaf b y) d a c = tt
  siblings_of-IsDigest (branch g l r) d a c = elim (bit_cases a d) [
    | inl (e, test) ↦ rw test (hash-IsDigest r (d + 1) c.6, siblings_of-IsDigest l (d + 1) a c.5)
    | inr (e, test) ↦ rw test (hash-IsDigest l (d + 1) c.5, siblings_of-IsDigest r (d + 1) a c.6)
  ]

  slot_of-IsSlot :
      (t : Node) (d : ℕ) (a : Address)
      → IsCanonical d t
      → AllLeaves (λ a x. IsAccount x) t
      → IsSlot (slot_of t d a)
  unfolding slot_of
  slot_of-IsSlot empty d a c h = tt
  slot_of-IsSlot (leaf b y) d a c h = elim (bytes_eq_cases b a) [
    | inl (e, test) ↦ rw test tt
    | inr (e, test) ↦ rw test (c, h)
  ]
  slot_of-IsSlot (branch g l r) d a c h = elim (bit_cases a d) [
    | inl (e, test) ↦ rw test (slot_of-IsSlot l (d + 1) a c.5 h.0)
    | inr (e, test) ↦ rw test (slot_of-IsSlot r (d + 1) a c.6 h.1)
  ]

  pub held_fits : (l : Ledger) (a : Address) → IsTyped l → IsOptionalAccount (get l.accounts a)
  held_fits l a t =
      let s = t.synced in
      subst IsOptionalAccount (s.agrees a) (lookup-IsOptionalAccount l.tree 0 a t.leaves)

  pub witness_of-IsWitness : (l : Ledger) (a : Address) → IsTyped l → IsWitness (witness_of l a)
  unfolding witness_of
  witness_of-IsWitness l a t =
      let s = t.synced in
      let parts = sym (proof_parts l.tree a) in
      record {
        held_fits = held_fits l a t;
        shallow =
            subst (λ (q : MerkleProof). length q.siblings ≤ depth_limit) parts
              (omega (arith, length-siblings_of l.tree 0 a s.canonical (omega arith)));
        siblings_fit =
            subst (λ (q : MerkleProof). All (λ s. length s ≡ 32) q.siblings) parts
              (siblings_of-IsDigest l.tree 0 a s.canonical);
        slot_fits =
            subst (λ (q : MerkleProof). IsSlot q.slot) parts
              (slot_of-IsSlot l.tree 0 a s.canonical t.leaves);
      }

  pub with_domain-IsTyped : (domain : Address) → IsTyped (with_domain domain)
  unfolding with_domain
  with_domain-IsTyped domain = record { synced = with_domain-IsSynced domain; leaves = tt }

  pub insert_account-IsTyped :
      (l : Ledger) (a : Address) (x : Account)
      → IsArray 32 a
      → IsAccount x
      → IsTyped l
      → IsTyped (insert_account l a x)
  insert_account-IsTyped l a x ha hx t =
      let s = t.synced in
      record {
        synced = insert_account-IsSynced l a x ha s;
        leaves =
            unfold insert_account update in
            AllLeaves-insert a x ha (λ a x. IsAccount x) l.tree 0 s.canonical hx t.leaves;
      }

  -- A bumped account with no more than its balance.
  pub bumped-IsAccount :
      (held : Account) {account : Account} (balance : ℕ)
      → IsAccount held
      → bump_nonce held ≡ ok account
      → balance ≤ account.amount
      → IsAccount (record account { amount = balance })
  unfolding bump_nonce
  bumped-IsAccount held balance h e le = ground arith

  spend-le :
      (held amount fee : ℕ) {balance : ℕ} → spend held amount fee ≡ some balance → balance ≤ held
  unfolding spend checked_sub
  spend-le held amount fee h = ground arith

  pub debit-IsTyped :
      (l : Ledger) (a : Address) (amount fee : ℕ) (sig : Signature) (message : ℕ → Bytes)
      {w : LeafWitness} {l' : Ledger}
      → IsArray 32 a
      → IsTyped l
      → Ledger.debit l a amount fee sig message ≡ ok (w, l')
      → IsWitness w × IsTyped l'
  debit-IsTyped l a amount fee sig message ha t h =
      let (held, account, balance, found, bumped, verified, spent, ew, el) =
        debit_parts l a amount fee sig message h in
      let fits : IsAccount held = rw found at (held_fits l a t) in
      rw (ew, el)
        (
          witness_of-IsWitness l a t,
          insert_account-IsTyped l a (record account { amount = balance }) ha
              (bumped-IsAccount held balance fits bumped (spend-le account.amount amount fee spent))
              t,
        )

  credited-IsAccount :
      (a : Address) (held : Option Account) (amount : ℕ) {balance : ℕ}
      → IsArray 32 a
      → IsOptionalAccount held
      → checked_add (account_or_empty a held).amount amount ≡ some balance
      → IsAccount (record (account_or_empty a held) { amount = balance })
  unfolding checked_add account_or_empty Account.empty
  credited-IsAccount a none amount ha h e = record {
    nonce_fits = omega arith;
    amount_fits = ground arith;
    auth_fits = ha;
  }
  credited-IsAccount a (some x) amount ha h e = record {
    nonce_fits = h.nonce_fits;
    amount_fits = ground arith;
    auth_fits = h.auth_fits;
  }

  pub credit-IsTyped :
      (l : Ledger) (a : Address) (amount : ℕ) {w : LeafWitness} {l' : Ledger}
      → IsArray 32 a
      → IsTyped l
      → Ledger.credit l a amount ≡ ok (w, l')
      → IsWitness w × IsTyped l'
  credit-IsTyped l a amount ha t h =
      let (balance, added, ew, el) = credit_parts l a amount h in
      rw (ew, el)
        (
          witness_of-IsWitness l a t,
          insert_account-IsTyped l a
              (record (account_or_empty a (get l.accounts a)) { amount = balance }) ha
              (credited-IsAccount a (get l.accounts a) amount ha (held_fits l a t) added) t,
        )

  pub credit_fee-IsTyped :
      (l : Ledger) (fee : ℕ) {w : Option LeafWitness} {l' : Ledger}
      → IsTyped l
      → Ledger.credit_fee l fee ≡ ok (w, l')
      → FitsFee fee w × IsTyped l'
  credit_fee-IsTyped l fee t h = elim (credit_fee_parts l fee h) [
    | inl (free, ew, el) ↦ rw (ew, el) (free, t)
    | inr (w, charged, credited, ew) ↦
        let (fits, after) = credit-IsTyped l fee_sink fee fee_sink-IsArray t credited in
        rw ew ((charged, fits), after)
  ]
