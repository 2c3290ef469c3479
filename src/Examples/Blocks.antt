-- ===== src/Examples/Blocks.antt =====
-- The blocks of the examples are built, verify and settle (crates/payment-rollup/src/lib.rs,
-- crates/sp1-host/src/lib.rs).
use payment_rollup.Prelude.{◌+◌, ◌≡◌, refl, sym, ◌∙◌, ◌⊎◌, List, [], ◌∷◌, ok, map, All, arith}
use payment_rollup.Bytes.{IsArray, to_be_bytes-IsArray}
use payment_rollup.Account.{zeros32}
use payment_rollup.Txn.{new_payment, new_deposit, new_forced_withdrawal, new_withdrawal, Block}
use payment_rollup.Chains.{
  Payout, inbox_chain_genesis, withdrawal_chain, withdrawal_chain_terminal, withdrawal_links,
}
use payment_rollup.Chains.Unwind.{payout, Unwinds, withdrawal_links-Unwinds}
use payment_rollup.Replay.{verify_batch, verify_block, withdrawal_payouts}
use payment_rollup.Ledger.{Ledger, get_block, state_root, with_domain}
use payment_rollup.Ledger.Sync.{IsSynced, with_domain-IsSynced}
use payment_rollup.Ledger.Typed.{IsTyped, with_domain-IsTyped}
use payment_rollup.Ledger.Formed.{IsSubmitted}
use payment_rollup.Ledger.Verifies.{start, get_block-starts, verify_block-get_block}
use payment_rollup.Codec.Batch as BatchCodec
use payment_rollup.Codec.Sidecar as SidecarCodec
use payment_rollup.Codec.Batch.RoundTrip.{decode-encode_batch}
use payment_rollup.Codec.Sidecar.Fields.{IsSignature}
use payment_rollup.Codec.Sidecar.RoundTrip.{length-FitAll, decode-encode_sidecar}
use payment_rollup.Commit.{batch_commitment}
use payment_rollup.Settlement.{deposits_of, Settlement, for_block, inbox_of, word}
use payment_rollup.Settlement.Queued.{fold_inbox}
use payment_rollup.Settlement.Queues.{verify_batch-queues}
use payment_rollup.Settlement.Executes.{Execution, execute-Execution, for_block-queues}
use payment_rollup.Settlement.Settles.{
  names, IsCarried, IsBuilt, get_block-IsBuilt, settlement_of, values_of, verified_claims,
  execute-encode, for_block-verify_block, for_block-get_block,
}
use payment_rollup.Examples.{toy, bob, carol, alice-IsArray, bob-IsArray, genesis, txns, unsigned}
use payment_rollup.Merkle.Binding.{Broken}
use payment_rollup.Ledger.Accepts.{signed_all, get_block-verify_batch}
use payment_rollup.Ledger.Total.{total}
use payment_rollup.Settlement.Conserves.{worth, total-get_block}
use payment_rollup.Settlement.Genesis.{IsFresh, for_block-IsFresh}
use payment_rollup.Examples.Hashed.{AnyMessage, loop_hashed}
use payment_rollup.Examples.Runs.{built}

verify_block-get_block_example : (verify_block built.0.0 ≡ ok tt) × IsSynced built.0.1
unfolding new_payment new_deposit new_withdrawal new_forced_withdrawal
verify_block-get_block_example =
    verify_block-get_block genesis txns (with_domain-IsSynced zeros32)
      (
        alice-IsArray,
        (bob-IsArray, ((alice-IsArray, bob-IsArray), (alice-IsArray, (bob-IsArray, tt)))),
      )
      built.1

genesis-IsTyped : IsTyped genesis
genesis-IsTyped = with_domain-IsTyped zeros32

-- The block of all kinds.
abbrev mixed : Block
mixed = built.0.0

mixed_verifies : verify_block mixed ≡ ok tt
mixed_verifies = verify_block-get_block_example.0

carol-IsArray : IsArray 32 carol
carol-IsArray = to_be_bytes-IsArray 32 1_000_003

unsigned-IsSignature : IsSignature unsigned
unsigned-IsSignature = record { key_fits = omega arith; sig_fits = omega arith }

txns-IsSubmitted : All IsSubmitted txns
unfolding new_payment new_deposit new_withdrawal new_forced_withdrawal
txns-IsSubmitted = (
  (alice-IsArray, omega arith, refl, refl),
  (
    (bob-IsArray, omega arith, refl, refl),
    (
      ((alice-IsArray, bob-IsArray, omega arith, omega arith), unsigned-IsSignature),
      (
        ((alice-IsArray, carol-IsArray, omega arith, omega arith), unsigned-IsSignature),
        ((bob-IsArray, carol-IsArray, refl), tt),
      ),
    ),
  ),
)

mixed-IsBuilt : IsBuilt built.0.1 mixed
unfolding with_domain inbox_chain_genesis
mixed-IsBuilt =
    get_block-IsBuilt genesis txns genesis-IsTyped txns-IsSubmitted refl (omega arith) built.1

for_block-get_block_example : (for_block mixed ≡ ok (settlement_of mixed)) × IsTyped built.0.1
unfolding with_domain inbox_chain_genesis
for_block-get_block_example =
    for_block-get_block genesis txns genesis-IsTyped txns-IsSubmitted refl (omega arith) built.1

mixed-IsCarried : IsCarried mixed
mixed-IsCarried = mixed-IsBuilt.carried

for_block-verify_block_example : for_block mixed ≡ ok (settlement_of mixed)
for_block-verify_block_example =
    for_block-verify_block mixed mixed-IsCarried mixed-IsBuilt.root_fits mixed-IsBuilt.inbox_fits
      mixed_verifies

decode-encode_batch_example : BatchCodec.decode (BatchCodec.encode mixed.batch) ≡ ok mixed.batch
decode-encode_batch_example =
    decode-encode_batch mixed.batch mixed-IsCarried.carried mixed-IsCarried.small

decode-encode_sidecar_example :
    SidecarCodec.decode (SidecarCodec.encode mixed.sidecar) mixed.batch ≡ ok mixed.sidecar
decode-encode_sidecar_example =
    decode-encode_sidecar mixed.batch mixed.sidecar mixed-IsCarried.fits (
      omega (
        arith,
        mixed-IsCarried.small,
        length-FitAll mixed.batch.txns mixed.sidecar.entries mixed-IsCarried.fits,
      ))

abbrev settlement : Settlement
settlement = settlement_of mixed

for_block-queues_example :
    (withdrawal_chain settlement.domain settlement.withdrawals ≡ settlement.withdrawal_chain)
    × (fold_inbox settlement.old_inbox_chain settlement.inbox ≡ settlement.new_inbox_chain)
    × (word 64 settlement.public_values ≡ batch_commitment settlement.domain settlement.batch_bytes)
for_block-queues_example =
    for_block-queues mixed mixed-IsBuilt.root_fits mixed-IsBuilt.inbox_fits
      for_block-verify_block_example

execute-Execution_example :
    Execution mixed.domain mixed.old_root mixed.old_inbox_chain
      (BatchCodec.encode mixed.batch)
      (SidecarCodec.encode mixed.sidecar)
      (values_of mixed)
execute-Execution_example =
    execute-Execution mixed.domain mixed.old_root mixed.old_inbox_chain
      (BatchCodec.encode mixed.batch) (SidecarCodec.encode mixed.sidecar) mixed-IsBuilt.root_fits
      mixed-IsBuilt.inbox_fits (execute-encode mixed mixed-IsCarried mixed_verifies)

verify_batch-queues_example :
    (mixed.withdrawal_chain
      ≡ withdrawal_chain mixed.domain (withdrawal_payouts mixed.batch mixed.sidecar))
    × (mixed.new_inbox_chain ≡ fold_inbox mixed.old_inbox_chain (inbox_of mixed.batch.txns))
verify_batch-queues_example =
    verify_batch-queues mixed.domain mixed.old_root mixed.old_inbox_chain mixed.batch mixed.sidecar
      (verified_claims mixed mixed_verifies)

abbrev payouts : List Payout
payouts = (carol, 100_000) ∷ (bob, 250_000) ∷ []

withdrawal_links-Unwinds_example :
    Unwinds
      (withdrawal_chain zeros32 payouts)
      (withdrawal_links zeros32 payouts)
      (withdrawal_chain_terminal zeros32)
    × (map payout (withdrawal_links zeros32 payouts) ≡ payouts)
withdrawal_links-Unwinds_example = withdrawal_links-Unwinds zeros32 payouts

mixed_starts :
    (mixed.domain ≡ genesis.domain)
    × (mixed.old_root ≡ state_root genesis)
    × (mixed.old_inbox_chain ≡ genesis.inbox_chain)
mixed_starts =
    get_block-starts genesis txns (names txns txns-IsSubmitted) (with_domain-IsSynced zeros32)
      built.1

mixed_replays :
    verify_batch genesis.domain (state_root genesis) genesis.inbox_chain mixed.batch mixed.sidecar
    ≡ ok (mixed.new_root, mixed.new_inbox_chain, mixed.withdrawal_chain)
mixed_replays =
    (λ i.
      verify_batch (sym mixed_starts.0 i) (sym mixed_starts.1 i) (sym mixed_starts.2 i) mixed.batch
        mixed.sidecar)
    ∙ verified_claims mixed mixed_verifies

-- The mixed block replayed from where it began.
get_block-verify_batch_example :
    Broken AnyMessage
    ⊎ ((rebuilt : Block) × (l' : Ledger) × (get_block genesis
            (signed_all mixed.batch.txns mixed.sidecar.entries)
          ≡ ok (rebuilt, l'))
        × (rebuilt.batch ≡ mixed.batch)
        × (rebuilt.new_root ≡ mixed.new_root)
        × (rebuilt.new_inbox_chain ≡ mixed.new_inbox_chain)
        × (rebuilt.withdrawal_chain ≡ mixed.withdrawal_chain))
get_block-verify_batch_example =
    get_block-verify_batch AnyMessage genesis mixed.batch mixed.sidecar genesis-IsTyped
      mixed-IsCarried.carried mixed-IsCarried.fits
      (loop_hashed mixed.batch.txns mixed.sidecar.entries (start genesis)) mixed_replays

total-get_block_example :
    total built.0.1.accounts + worth (withdrawal_payouts mixed.batch mixed.sidecar)
    ≡ total genesis.accounts + worth (deposits_of mixed.batch.txns)
total-get_block_example =
    total-get_block genesis txns (with_domain-IsSynced zeros32) (names txns txns-IsSubmitted)
      built.1

for_block-IsFresh_example :
    (for_block mixed ≡ ok (settlement_of mixed)) × IsFresh (settlement_of mixed)
for_block-IsFresh_example = for_block-IsFresh zeros32 txns txns-IsSubmitted (omega arith) built.1
