-- ===== src/Examples/Inbox.antt =====
-- Items that wait in the L1 inbox of crates/sp1-host/src/lib.rs, and a block that takes them.
use payment_rollup.Prelude.{◌≡◌, ◌≢◌, refl, List, [], ◌∷◌, map, ok, err, arith, All}
use payment_rollup.Account.{zeros32}
use payment_rollup.Txn.{Block, new_deposit, new_forced_withdrawal}
use payment_rollup.Ledger.{Panic, Ledger, with_domain, get_block}
use payment_rollup.Ledger.Formed.{IsSubmitted}
use payment_rollup.Ledger.Typed.{with_domain-IsTyped}
use payment_rollup.Ledger.Total.{total}
use payment_rollup.Chains.{inbox_chain_genesis}
use payment_rollup.Settlement.{InboxItem, inbox_of, for_block}
use payment_rollup.Settlement.Fits.{get_block_fits}
use payment_rollup.Settlement.Includes.{taking, for_block_includes}
use payment_rollup.Settlement.Settles.{settlement_of}
use payment_rollup.Bytes.{IsArray, to_be_bytes-IsArray}
use payment_rollup.Examples.{toy, alice, bob, carol, alice-IsArray, bob-IsArray, genesis, txns}

get_block_fits_example : get_block genesis txns ≢ err Panic.amount_overflow
unfolding total with_domain new_deposit
get_block_fits_example = get_block_fits genesis txns (omega arith)

-- A deposit, an exit that is paid out, and one of an account that does not exist.
abbrev waiting : List InboxItem
waiting =
    InboxItem.deposit alice 500_000
    ∷ InboxItem.forced_withdrawal alice carol
    ∷ InboxItem.forced_withdrawal bob carol
    ∷ []

waiting-IsSubmitted : All IsSubmitted (map taking waiting)
unfolding taking new_deposit new_forced_withdrawal
waiting-IsSubmitted =
    let carol-IsArray : IsArray 32 carol = to_be_bytes-IsArray 32 1_000_003 in
    (
      (alice-IsArray, omega arith, refl, refl),
      ((alice-IsArray, carol-IsArray, refl), ((bob-IsArray, carol-IsArray, refl), tt)),
    )

for_block_includes_example :
    (block : Block) × (l' : Ledger) × (get_block genesis (map taking waiting) ≡ ok (block, l'))
    × (for_block block ≡ ok (settlement_of block))
    × (inbox_of block.batch.txns ≡ waiting)
unfolding total with_domain taking new_deposit inbox_chain_genesis
for_block_includes_example =
    for_block_includes genesis waiting (with_domain-IsTyped zeros32) refl waiting-IsSubmitted
      (omega arith) (omega arith) tt
