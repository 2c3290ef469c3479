-- ===== src/Ledger/Sync.antt =====
-- The accounts of a ledger and its tree agree, and its witnesses describe the tree
-- (crates/payment-rollup/src/lib.rs, `Ledger`).
use payment_rollup.Prelude.{
  ◌≡◌, refl, sym, ap, ◌∙◌, inl, inr, some, [], ◌∷◌, arith, if◌then◌else◌, ok,
}
use payment_rollup.Bytes.{IsArray, bytes_eq, bytes_eq_refl, bytes_eq→eq, bytes_eq_cases}
use payment_rollup.Crypto.{Primitives}
use payment_rollup.Account.{Address, Account}
use payment_rollup.Merkle.Tree.{root, update}
use payment_rollup.Merkle.Shape.{IsCanonical, lookup}
use payment_rollup.Merkle.Insert.{insert-IsCanonical, lookup-insert}
use payment_rollup.Merkle.Complete.{Near-zero, root_from_proof-proof, root_from_proof-update}
use payment_rollup.Replay.{root_with, expect_pre_state}
use payment_rollup.Ledger.{
  Accounts, get, put, Ledger, with_domain, insert_account, state_root, witness_of,
}

pub get-put :
    (m : Accounts) (a c : Address) (x : Account)
    → get (put m a x) c ≡ (if bytes_eq a c then some x else get m c)
unfolding get put
get-put [] a c x = refl
get-put ((b, y) ∷ rest) a c x = elim (bytes_eq_cases b a) [
  | inl (e, test) ↦ rw test (rw e (ground arith))
  | inr (e, test) ↦
      rw test (rw (get-put rest a c x) (ground (arith, bytes_eq→eq b c, bytes_eq→eq a c)))
]

-- Every address reads the same in the map and in the tree, and the tree is canonical.
pub record IsSynced ⦃p : Primitives⦄ (l : Ledger) : Type 0 where
  pub canonical : IsCanonical 0 l.tree
  pub agrees : (a : Address) → lookup l.tree 0 a ≡ get l.accounts a

module _ ⦃p : Primitives⦄ where
  pub with_domain-IsSynced : (domain : Address) → IsSynced (with_domain domain)
  unfolding with_domain lookup get
  with_domain-IsSynced domain = record { canonical = tt; agrees = λ a. refl }

  pub insert_account-IsSynced :
      (l : Ledger) (a : Address) (x : Account)
      → IsArray 32 a
      → IsSynced l
      → IsSynced (insert_account l a x)
  unfolding insert_account update
  insert_account-IsSynced l a x ha s =
      let near = Near-zero a l.tree in
      record {
        canonical = insert-IsCanonical a x ha l.tree 0 s.canonical near;
        agrees = λ c.
            lookup-insert a x ha l.tree 0 c s.canonical near
            ∙ ap (λ o. if bytes_eq a c then some x else o) (s.agrees c)
            ∙ sym (get-put l.accounts a c x);
      }

  module _ (l : Ledger) (a : Address) (ha : IsArray 32 a) (s : IsSynced l) where
    -- The witness of a slot passes the check against the ledger's root.
    pub expect_pre_state-witness_of : expect_pre_state a (witness_of l a) (state_root l) ≡ ok tt
    unfolding expect_pre_state witness_of state_root
    expect_pre_state-witness_of =
        rw
          (← s.agrees a, root_from_proof-proof l.tree a ha s.canonical, bytes_eq_refl (root l.tree))

    -- Its proof leads to the root after a write.
    pub root_with-insert_account :
        (x : Account)
        → root_with a (some x) (witness_of l a).proof ≡ ok (state_root (insert_account l a x))
    unfolding root_with witness_of state_root insert_account
    root_with-insert_account x = rw (root_from_proof-update l.tree a ha s.canonical x)
