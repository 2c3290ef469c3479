-- ===== src/Scenarios/Exits.antt =====
-- The exit proofs of crates/sp1-host/src/scenarios.rs, which go with the forced exit.
use payment_rollup.Prelude.{
  ℕ, ◌+◌, ◌≡◌, refl, sym, ap, ◌∙◌, Option, some, List, [], ◌∷◌, Result, ok, err, ◌>>=◌, ◌>>◌, ok_or,
  Bool, true, false, Bool-cases, inl, inr, ◌==◌, guard,
}
use payment_rollup.Bytes.{Bytes, bytes_eq_refl, bytes_eq_cases}
use payment_rollup.Crypto.{Primitives}
use payment_rollup.Account.{
  Address, Account, Digest, DeploymentDomain, ed25519, address_from_public_key,
}
use payment_rollup.Merkle.Path.{bit_at}
use payment_rollup.Merkle.Tree.{
  Node, empty, leaf, branch, Slot, own, neighbor, MerkleProof, prove, proof, root,
}
use payment_rollup.Merkle.Witness.{root_from_proof, verify_proof}
use payment_rollup.Merkle.Shape.{lookup}
use payment_rollup.Merkle.Complete.{root_from_proof-proof}
use payment_rollup.Ledger.{Panic, Ledger, get, state_root}
use payment_rollup.Ledger.Sync.{IsSynced}
use payment_rollup.Scenarios.{exit_key_one, exit_key_two, forced_exit, build}

pub record ExitProof : Type 0 where
  pub address : Address
  pub pub_key : Bytes
  pub nonce : ℕ
  pub amount : ℕ
  pub auth_address : Address
  pub siblings : List Digest

pub data Stop : Type 0 where
  building : Panic → Stop
  no_deposit not_inclusion : Stop

-- `matches!(slot, Slot::Own)`
abbrev is_own : Slot → Bool
is_own own = true
is_own (neighbor a x) = false

module _ ⦃p : Primitives⦄ where
  -- What `forced_exit_proofs` makes of one key.
  unfoldable pub exit_proof : Ledger → Bytes → Result Stop ExitProof
  exit_proof ledger key = do
    let address = address_from_public_key ed25519 key
    account ← ok_or (get ledger.accounts address) no_deposit
    let shown = proof ledger.tree address
    guard (is_own shown.slot) not_inclusion
    ok (record {
      address = address;
      pub_key = key;
      nonce = account.nonce;
      amount = account.amount;
      auth_address = account.auth_address;
      siblings = shown.siblings;
    })

  unfoldable pub forced_exit_proofs : DeploymentDomain → Result Stop (List ExitProof)
  forced_exit_proofs domain = elim (build domain forced_exit) [
    | err e ↦ err (building e)
    | ok (block, ledger) ↦ do
      one ← exit_proof ledger exit_key_one
      two ← exit_proof ledger exit_key_two
      ok (one ∷ two ∷ [])
  ]

  -- An address that the tree holds is proved by its own slot.
  prove_own :
      (t : Node) (d : ℕ) (a : Address) (siblings : List Digest) {x : Account}
      → lookup t d a ≡ some x
      → (prove t d a siblings).1 ≡ own
  unfolding prove lookup
  prove_own empty d a siblings h = absurd (cc h)
  prove_own (leaf b y) d a siblings h = elim (bytes_eq_cases b a) [
    | inl (e, test) ↦ rw test
    | inr (e, test) ↦ absurd (cc (rw test at h))
  ]
  prove_own (branch c l r) d a siblings h = elim (Bool-cases (bit_at a d == 0)) [
    | inl e ↦ rw e (prove_own l (d + 1) a _ (rw e at h))
    | inr e ↦ rw e (prove_own r (d + 1) a _ (rw e at h))
  ]

  verify_proof-root_from_proof :
      (a : Address) (account : Option Account) (shown : MerkleProof) (r : Digest)
      → root_from_proof a account shown ≡ some r
      → verify_proof r a account shown ≡ true
  unfolding verify_proof
  verify_proof-root_from_proof a account shown r h = rw (verify_proof, h) (bytes_eq_refl r)

  -- The account and the proof that the contract is given.
  abbrev pub account_of : ExitProof → Account
  account_of e = record { nonce = e.nonce; amount = e.amount; auth_address = e.auth_address }

  abbrev pub inclusion : ExitProof → MerkleProof
  inclusion e = record { siblings = e.siblings; slot = own }

  -- From a ledger in step with its tree, the exit proof of a key that has an account is made, and
  -- it tells that account, which its siblings alone prove to be in the ledger's root.
  pub verify_proof-exit_proof :
      (l : Ledger) (key : Bytes) {x : Account}
      → IsSynced l
      → get l.accounts (address_from_public_key ed25519 key) ≡ some x
      → (e : ExitProof) × (exit_proof l key ≡ ok e)
        × (account_of e ≡ x)
        × (verify_proof (state_root l) e.address (some (account_of e)) (inclusion e) ≡ true)
  unfolding exit_proof state_root address_from_public_key proof
  verify_proof-exit_proof l key {x} s h =
      let a = address_from_public_key ed25519 key in
      let held : lookup l.tree 0 a ≡ some x = s.agrees a ∙ h in
      let slot : (prove l.tree 0 a []).1 ≡ own = prove_own l.tree 0 a [] held in
      let reaches : root_from_proof a (some x) (proof l.tree a) ≡ some (root l.tree) =
        ap (λ o. root_from_proof a o (proof l.tree a)) (sym held)
        ∙ root_from_proof-proof l.tree a (p.digest_shape _) s.canonical in
      let parts : proof l.tree a ≡ record { siblings = (prove l.tree 0 a []).0; slot = own } =
        ap (λ z. record { siblings = (prove l.tree 0 a []).0; slot = z }) slot in
      let own_reaches = ap (root_from_proof a (some x)) (sym parts) ∙ reaches in
      (
        record {
          address = a;
          pub_key = key;
          nonce = x.nonce;
          amount = x.amount;
          auth_address = x.auth_address;
          siblings = (prove l.tree 0 a []).0;
        },
        rw (h, slot),
        refl,
        verify_proof-root_from_proof a (some x) _ (root l.tree) own_reaches,
      )
