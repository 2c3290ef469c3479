-- ===== src/Examples/Trees.antt =====
-- The tree of crates/payment-rollup/src/merkle.rs and the steps of its ledger, run on a few
-- accounts.
use payment_rollup.Prelude.{
  true, ◌++◌, ◌≡◌, ◌≢◌, ◌⊎◌, ap, sym, ◌∙◌, refl, false, some, none, ok, if◌then◌else◌, arith,
  length,
}
use payment_rollup.Bytes.{ascii, bytes_eq, bytes_eq_refl, to_be_bytes}
use payment_rollup.Account.{
  Address, Account, ed25519, IsAccount, zeros32, address_from_public_key, identifier,
}
use payment_rollup.Merkle.Path.{common_prefix_len}
use payment_rollup.Merkle.Tree.{hash, insert, root, update, proof}
use payment_rollup.Ledger.{Ledger, get, put, with_domain, insert_account, state_root, witness_of}
use payment_rollup.Ledger.Typed.{
  IsTyped, insert_account-IsTyped, with_domain-IsTyped, witness_of-IsWitness,
}
use payment_rollup.Codec.Sidecar.Fields.{IsWitness}
use payment_rollup.Merkle.Unique.{update_comm}
use payment_rollup.Merkle.Binding.{Broken, hash-injective}
use payment_rollup.Merkle.Claims.{claimed}
use payment_rollup.Merkle.Sound.{root_from_proof_sound}
use payment_rollup.Examples.Hashed.{AnyMessage, all_hashed, path_hashed}
use payment_rollup.Examples.Runs.{rich, poor, held, both, message, debited, credited}
use payment_rollup.Scenarios.{exit_key_one}
use payment_rollup.Scenarios.Exits.{
  ExitProof, exit_proof, account_of, inclusion, verify_proof-exit_proof,
}
use payment_rollup.Ledger.Sync.{IsSynced, with_domain-IsSynced, insert_account-IsSynced}
use payment_rollup.Merkle.Path.{Diverge, common_prefix_len_diverges}
use payment_rollup.Merkle.Shape.{IsCanonical, lookup}
use payment_rollup.Merkle.Remove.{update_clears}
use payment_rollup.Merkle.Insert.{insert-IsCanonical, lookup-insert}
use payment_rollup.Merkle.Complete.{Near-zero, root_from_proof-proof, root_from_proof-update}
use payment_rollup.Merkle.Witness.{root_from_proof, verify_proof}
use payment_rollup.Txn.{LeafWitness}
use payment_rollup.Replay
use payment_rollup.Ledger.Mirror.{Follows, debit-mirror, credit-mirror}
use payment_rollup.Examples.{toy, alice, bob, alice-IsArray, bob-IsArray, genesis, unsigned}

held-IsSynced : IsSynced held
held-IsSynced =
    insert_account-IsSynced genesis alice rich alice-IsArray (with_domain-IsSynced zeros32)

both-IsSynced : IsSynced both
both-IsSynced = insert_account-IsSynced held bob poor bob-IsArray held-IsSynced

root_from_proof-proof_example :
    root_from_proof bob (lookup both.tree 0 bob) (proof both.tree bob) ≡ some (root both.tree)
root_from_proof-proof_example =
    root_from_proof-proof both.tree bob bob-IsArray both-IsSynced.canonical

root_from_proof-update_example :
    root_from_proof alice (some poor) (proof both.tree alice)
    ≡ some (root (update both.tree alice (some poor)))
root_from_proof-update_example =
    root_from_proof-update both.tree alice alice-IsArray both-IsSynced.canonical poor

lookup-insert_example :
    lookup (insert held.tree 0 bob poor) 0 alice
    ≡ (if bytes_eq bob alice then some poor else lookup held.tree 0 alice)
lookup-insert_example =
    lookup-insert bob poor bob-IsArray held.tree 0 alice held-IsSynced.canonical
      (Near-zero bob held.tree)

insert-IsCanonical_example : IsCanonical 0 (insert held.tree 0 bob poor)
insert-IsCanonical_example =
    insert-IsCanonical bob poor bob-IsArray held.tree 0 held-IsSynced.canonical
      (Near-zero bob held.tree)

update_clears_example :
    IsCanonical 0 (update both.tree alice none)
    × ((c : Address)
        → lookup (update both.tree alice none) 0 c
          ≡ (if bytes_eq alice c then none else lookup both.tree 0 c))
    × ((x : Account)
        → lookup both.tree 0 alice ≡ none
        → update (update both.tree alice (some x)) alice none ≡ both.tree)
update_clears_example = update_clears both.tree alice alice-IsArray both-IsSynced.canonical

differs : bytes_eq alice bob ≡ false
unfolding bytes_eq to_be_bytes address_from_public_key identifier
differs = refl

alice_is_not_bob : alice ≢ bob
alice_is_not_bob e = cc (ap (bytes_eq alice) e, differs, bytes_eq_refl alice)

common_prefix_len_diverges_example : Diverge alice bob (common_prefix_len alice bob)
common_prefix_len_diverges_example =
    common_prefix_len_diverges alice bob alice-IsArray bob-IsArray alice_is_not_bob

debit-mirror_example :
    (Replay.debit alice debited.0.0 unsigned 30 2 (state_root held) message
      ≡ ok (state_root debited.0.1))
    × Follows held debited.0.1
debit-mirror_example =
    debit-mirror held alice 30 2 unsigned message alice-IsArray held-IsSynced debited.1

credit-mirror_example :
    (Replay.credit bob credited.0.0 12 (state_root both) ≡ ok (state_root credited.0.1))
    × Follows both credited.0.1
credit-mirror_example = credit-mirror both bob 12 bob-IsArray both-IsSynced credited.1

rich-IsAccount : IsAccount rich
rich-IsAccount = record {
  nonce_fits = omega arith;
  amount_fits = omega arith;
  auth_fits = alice-IsArray;
}

poor-IsAccount : IsAccount poor
poor-IsAccount = record {
  nonce_fits = omega arith;
  amount_fits = omega arith;
  auth_fits = bob-IsArray;
}

both-IsTyped : IsTyped both
both-IsTyped = insert_account-IsTyped held bob poor bob-IsArray poor-IsAccount (
    insert_account-IsTyped genesis alice rich alice-IsArray rich-IsAccount
      (with_domain-IsTyped zeros32))

-- The same accounts, written in the other order.
abbrev swapped : Ledger
swapped = insert_account (insert_account genesis bob poor) alice rich

swapped-IsTyped : IsTyped swapped
swapped-IsTyped =
    insert_account-IsTyped (insert_account genesis bob poor) alice rich alice-IsArray rich-IsAccount
      (insert_account-IsTyped genesis bob poor bob-IsArray poor-IsAccount
        (with_domain-IsTyped zeros32))

update_comm_example :
    update (update both.tree alice (some poor)) bob (some rich)
    ≡ update (update both.tree bob (some rich)) alice (some poor)
update_comm_example =
    update_comm both.tree alice bob poor rich alice-IsArray bob-IsArray alice_is_not_bob
      both-IsSynced.canonical

same_tree : both.tree ≡ swapped.tree
unfolding insert_account
same_tree =
    update_comm genesis.tree alice bob rich poor alice-IsArray bob-IsArray alice_is_not_bob
      (with_domain-IsSynced zeros32).canonical

hash-injective_example : Broken AnyMessage ⊎ (both.tree ≡ swapped.tree)
hash-injective_example =
    hash-injective both.tree swapped.tree 0 both-IsSynced.canonical swapped-IsTyped.synced.canonical
      both-IsTyped.leaves swapped-IsTyped.leaves (all_hashed both.tree) (all_hashed swapped.tree)
      (ap hash same_tree)

abbrev shown : LeafWitness
shown = witness_of both alice

shown-IsWitness : IsWitness shown
shown-IsWitness = witness_of-IsWitness both alice both-IsTyped

shown_accepted : root_from_proof alice shown.old_account shown.proof ≡ some (root both.tree)
unfolding witness_of
shown_accepted =
    ap (λ o. root_from_proof alice o shown.proof) (sym (both-IsSynced.agrees alice))
    ∙ root_from_proof-proof both.tree alice alice-IsArray both-IsSynced.canonical

root_from_proof_sound_example :
    Broken AnyMessage
    ⊎ ((lookup both.tree 0 alice ≡ shown.old_account)
        × ((x : Account)
            → root_from_proof alice (some x) shown.proof
              ≡ some (root (update both.tree alice (some x)))))
root_from_proof_sound_example =
    root_from_proof_sound AnyMessage alice alice-IsArray both.tree shown.old_account shown.proof
      both-IsSynced.canonical both-IsTyped.leaves shown-IsWitness.held_fits
      shown-IsWitness.slot_fits shown-IsWitness.siblings_fit (all_hashed both.tree)
      (
        all_hashed (claimed alice shown.old_account shown.proof.slot (length shown.proof.siblings)),
        path_hashed alice 0 shown.proof.siblings _,
      )
      shown_accepted

-- The first account of the forced exit, beside two others.
abbrev leaver : Address
leaver = address_from_public_key ed25519 exit_key_one

abbrev left : Ledger
left = insert_account both leaver poor

left-IsSynced : IsSynced left
unfolding address_from_public_key
left-IsSynced =
    insert_account-IsSynced both leaver poor
      (toy.digest_shape (ascii "ADDR" ++ (identifier ed25519 ++ exit_key_one))) both-IsSynced

verify_proof-exit_proof_example :
    (e : ExitProof) × (exit_proof left exit_key_one ≡ ok e)
    × (account_of e ≡ poor)
    × (verify_proof (state_root left) e.address (some (account_of e)) (inclusion e) ≡ true)
unfolding insert_account get put with_domain bytes_eq address_from_public_key to_be_bytes
verify_proof-exit_proof_example = verify_proof-exit_proof left exit_key_one left-IsSynced refl
