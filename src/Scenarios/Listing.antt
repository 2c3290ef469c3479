-- ===== src/Scenarios/Listing.antt =====
-- The scenarios by name (crates/sp1-host/src/scenarios.rs, `all`, `heavy` and `find`).
use payment_rollup.Prelude.{
  ℕ, ◌≡◌, ◌↔◌, refl, sym, ◌∙◌, ap, subst, inl, inr, Option, none, some, List, [], ◌∷◌, ◌++◌,
  if◌then◌else◌, Result, ok, err, ◌>>=◌,
}
use payment_rollup.Bytes.{Bytes, ascii, bytes_eq, bytes_eq_cases}
use payment_rollup.Crypto.{Primitives}
use payment_rollup.Account.{DeploymentDomain}
use payment_rollup.Txn.{SignedTransaction, Block}
use payment_rollup.Ledger.{Ledger, Panic}
use payment_rollup.Falcon.{CLibrary}
use payment_rollup.Scenarios.{Scenario, transactions, build}
use payment_rollup.Scenarios.Keys.{Dalek}
use payment_rollup.Scenarios.Load.{
  Failure, lift_halt, every_scheme, falcon_hybrid_load, ed25519_load,
}

-- `LOAD_PAYMENTS`
pub data Size : Type 0 where
  hundred thousand ten_thousand : Size

unfoldable pub load_count : Size → ℕ
load_count hundred = 100
load_count thousand = 1_000
load_count ten_thousand = 10_000

-- The entries of `all` and of `heavy`.
pub data Entry : Type 0 where
  fixed : Scenario → Entry
  every_scheme_entry : Entry
  falcon_load_entry ed25519_load_entry : Size → Entry

unfoldable pub name_of : Entry → Bytes
name_of (fixed Scenario.genesis_empty_batch_entry) = ascii "genesis-empty-batch"
name_of (fixed Scenario.deposits_only_entry) = ascii "deposits-only"
name_of (fixed Scenario.payments_entry) = ascii "payments"
name_of (fixed Scenario.multi_chunk_entry) = ascii "multi-chunk"
name_of (fixed Scenario.withdrawals_entry) = ascii "withdrawals"
name_of (fixed Scenario.duplicate_withdrawals_entry) = ascii "duplicate-withdrawals"
name_of (fixed Scenario.forced_exit_entry) = ascii "forced-exit"
name_of (fixed Scenario.forced_inclusion_entry) = ascii "forced-inclusion"
name_of (fixed Scenario.inbox_ordering_entry) = ascii "inbox-ordering"
name_of (fixed Scenario.round_trip_entry) = ascii "round-trip"
name_of every_scheme_entry = ascii "every-scheme"
name_of (falcon_load_entry hundred) = ascii "falcon-100"
name_of (falcon_load_entry thousand) = ascii "falcon-1000"
name_of (falcon_load_entry ten_thousand) = ascii "falcon-10000"
name_of (ed25519_load_entry hundred) = ascii "ed25519-100"
name_of (ed25519_load_entry thousand) = ascii "ed25519-1000"
name_of (ed25519_load_entry ten_thousand) = ascii "ed25519-10000"

unfoldable pub description_of : Entry → Bytes
description_of (fixed Scenario.genesis_empty_batch_entry) =
    ascii "An empty batch replayed from the empty ledger. It starts and ends at the "
    ++ (ascii "genesis root and carries no deposits, so it drives openBatch, one "
        ++ (ascii "accumulateChunk and verifyBatch while leaving both the state root and the "
            ++ (ascii "inbox chain where they were.")))
description_of (fixed Scenario.deposits_only_entry) =
    ascii "Nothing but deposits, from the empty ledger. The cleanest test of the "
    ++ (ascii "inbox deposit fold: with no payments in the way, a mismatch between what "
        ++ (ascii "the contract folded as the deposits arrived and what the guest folded out "
            ++ (ascii "of the batch can only be a disagreement about the fold itself.")))
description_of (fixed Scenario.payments_entry) =
    ascii "Two deposits and then three payments: a plain one, one that brings a new "
    ++ (ascii "account into existence, and a self-payment. One chunk. Value enters and "
        ++ (ascii "moves in the same batch, which is what interleaving deposits with "
            ++ (ascii "payments is for.")))
description_of (fixed Scenario.multi_chunk_entry) =
    ascii "A deposit followed by payments to enough distinct receivers that the "
    ++ (ascii "batch spans several chunks, so the accumulator is folded more than once "
        ++ (ascii "and the last chunk is a partial one."))
description_of (fixed Scenario.withdrawals_entry) =
    ascii "A deposit and then three withdrawals to distinct L1 accounts. The "
    ++ (ascii "cleanest test of the ordered withdrawal Merkle tree: each payout has a "
        ++ (ascii "distinct index and inclusion path under the root the proof commits."))
description_of (fixed Scenario.duplicate_withdrawals_entry) =
    ascii "Two identical payouts at distinct transaction indices. Their indexed "
    ++ (ascii "leaves and claim bits must keep both withdrawals independently payable.")
description_of (fixed Scenario.forced_exit_entry) =
    ascii "Two deposits to Ed25519 accounts, so the settled tree holds two leaves "
    ++ (ascii "and each proves against the root through one sibling. Built for the "
        ++ (ascii "contract's forceExit, which is the only path that reads the state root as "
            ++ (ascii "data rather than advancing it.")))
description_of (fixed Scenario.forced_inclusion_entry) =
    ascii "Two deposits to Ed25519 accounts and then a withdrawal L1 ordered on "
    ++ (ascii "behalf of one of them, emptying it. The batch that answers the request is "
        ++ (ascii "the only batch that can settle, which is what makes withdrawal censorship "
            ++ (ascii "indistinguishable from halting.")))
description_of (fixed Scenario.inbox_ordering_entry) =
    ascii "A deposit, forced withdrawal, and another deposit in one batch. The "
    ++ (ascii "ordered inbox requires L1 to call deposit, requestWithdrawal, deposit "
        ++ (ascii "exactly in that cross-kind order."))
description_of (fixed Scenario.round_trip_entry) =
    ascii "Value deposited, moved by payment, and withdrawn again in one batch. "
    ++ (ascii "Covers the inbox and withdrawal commitments moving together and a "
        ++ (ascii "withdrawal spending what a payment delivered earlier in that same block."))
description_of every_scheme_entry =
    ascii "One account per signing scheme -- managed, Ed25519, and the "
    ++ (ascii "Falcon-1024/Ed25519 hybrid -- each funded by a deposit and each then "
        ++ (ascii "signing a payment and a withdrawal. The only scenario whose spends carry "
            ++ (ascii "signatures the replay has to check, so the only one whose proof pays for "
                ++ (ascii "a curve verification and a lattice one."))))
description_of (falcon_load_entry hundred) =
    ascii "One hundred Falcon-1024/Ed25519 hybrid payments, almost all of them "
    ++ (ascii "between accounts that already exist. The cheap end of the load series: "
        ++ (ascii "the same block as falcon-10000 at a hundredth the signature count, so the "
            ++ (ascii "three together separate what a lattice verification costs from what the "
                ++ (ascii "rest of a batch costs. Reachable only by name, like the rest of the "
                    ++ (ascii "series.")))))
description_of (falcon_load_entry thousand) =
    ascii "One thousand Falcon-1024/Ed25519 hybrid payments, almost all of them "
    ++ (ascii "between accounts that already exist. The middle of the load series, and "
        ++ (ascii "the point that says whether the cost between falcon-100 and falcon-10000 "
            ++ (ascii "is linear in the signature count. Reachable only by name.")))
description_of (falcon_load_entry ten_thousand) =
    ascii "Ten thousand Falcon-1024/Ed25519 hybrid payments, almost all of them "
    ++ (ascii "between accounts that already exist: a small pool is funded once and then "
        ++ (ascii "spends from and to itself in a round-robin, so the batch is dominated by "
            ++ (ascii "warm accounts and repeat signers rather than one-off receivers. What the "
                ++ (ascii "Falcon half of the hybrid scheme costs at a scale nothing else here "
                    ++ (ascii "reaches -- replaying it signs and verifies ten thousand lattice "
                        ++ (ascii
                              "signatures, which is minutes rather than milliseconds, so unlike every "
                            ++ (ascii "scenario in `all` it is reachable only by name.")))))))
description_of (ed25519_load_entry hundred) =
    ascii "One hundred plain-Ed25519 payments, almost all of them between accounts "
    ++ (ascii "that already exist. The cheap end of the curve's load series -- the same "
        ++ (ascii "block as ed25519-10000 at a hundredth the signature count, and the same "
            ++ (ascii "shape as falcon-100 with the hybrid's lattice half removed, so the two "
                ++ (ascii "series together separate what a curve verification costs from what a "
                    ++ (ascii
                          "lattice one adds on top. Reachable only by name, like the rest of the "
                        ++ (ascii "series."))))))
description_of (ed25519_load_entry thousand) =
    ascii "One thousand plain-Ed25519 payments, almost all of them between accounts "
    ++ (ascii "that already exist. The middle of the curve's load series, and the point "
        ++ (ascii "that says whether the cost between ed25519-100 and ed25519-10000 is "
            ++ (ascii "linear in the signature count. Reachable only by name.")))
description_of (ed25519_load_entry ten_thousand) =
    ascii "Ten thousand plain-Ed25519 payments, almost all of them between accounts "
    ++ (ascii "that already exist: a small pool is funded once and then spends from and "
        ++ (ascii "to itself in a round-robin, so the batch is dominated by warm accounts "
            ++ (ascii "and repeat signers rather than one-off receivers. What a lone curve "
                ++ (ascii
                      "verification costs at a scale nothing else here reaches, with no lattice "
                    ++ (ascii
                          "half riding along the way it does in falcon-10000 -- replaying it signs "
                        ++ (ascii
                              "and verifies ten thousand Ed25519 signatures, so unlike every scenario in "
                            ++ (ascii "`all` it is reachable only by name.")))))))

unfoldable pub all : List Entry
all =
    fixed Scenario.genesis_empty_batch_entry
    ∷ fixed Scenario.deposits_only_entry
    ∷ fixed Scenario.payments_entry
    ∷ fixed Scenario.multi_chunk_entry
    ∷ fixed Scenario.withdrawals_entry
    ∷ fixed Scenario.duplicate_withdrawals_entry
    ∷ fixed Scenario.forced_exit_entry
    ∷ fixed Scenario.forced_inclusion_entry
    ∷ fixed Scenario.inbox_ordering_entry
    ∷ fixed Scenario.round_trip_entry
    ∷ every_scheme_entry
    ∷ []

unfoldable pub heavy : List Entry
heavy =
    falcon_load_entry hundred
    ∷ falcon_load_entry thousand
    ∷ falcon_load_entry ten_thousand
    ∷ ed25519_load_entry hundred
    ∷ ed25519_load_entry thousand
    ∷ ed25519_load_entry ten_thousand
    ∷ []

unfoldable pub find_among : List Entry → Bytes → Option Entry
find_among [] name = none
find_among (e ∷ es) name = if bytes_eq (name_of e) name then some e else find_among es name

unfoldable pub find : Bytes → Option Entry
find name = find_among (all ++ heavy) name

-- Why a scenario panics instead of giving a block.
pub data BuildPanic : Type 0 where
  refusing : Panic → BuildPanic
  failing : Failure → BuildPanic

unfoldable pub from_failure : {A : Type 0} → Result Failure A → Result BuildPanic A
from_failure (ok a) = ok a
from_failure (err e) = err (failing e)

unfoldable pub from_panic : {A : Type 0} → Result Panic A → Result BuildPanic A
from_panic (ok a) = ok a
from_panic (err e) = err (refusing e)

module _ ⦃p : Primitives⦄ (d : Dalek) (c : CLibrary) where
  -- The transactions that the scenario's function hands to the ledger.
  unfoldable pub submitted : Entry → DeploymentDomain → Result Failure (List SignedTransaction)
  submitted (fixed s) domain = ok (transactions s)
  submitted every_scheme_entry domain = lift_halt (every_scheme d c domain)
  submitted (falcon_load_entry size) domain = falcon_hybrid_load d c domain (load_count size)
  submitted (ed25519_load_entry size) domain = ed25519_load d c domain (load_count size)

  -- The call of an entry's `build`.
  unfoldable pub build_entry : Entry → DeploymentDomain → Result BuildPanic (Block × Ledger)
  build_entry entry domain = do
    ts ← from_failure (submitted entry domain)
    from_panic (build domain ts)

find_among-name_of :
    (es : List Entry) (name : Bytes) {e : Entry} → find_among es name ≡ some e → name_of e ≡ name
unfolding find_among
find_among-name_of [] name h = cc
find_among-name_of (x ∷ es) name h = elim (bytes_eq_cases (name_of x) name) [
  | inl (same, test) ↦
      let k : x ≡ _ = cc (rw (find_among, test) at h) in subst (λ y. name_of y ≡ name) k same
  | inr (_, test) ↦ find_among-name_of es name (rw (find_among, test) at h)
]

find-name_of : (e : Entry) → find (name_of e) ≡ some e
unfolding find find_among all heavy name_of bytes_eq
find-name_of (fixed Scenario.genesis_empty_batch_entry) = refl
find-name_of (fixed Scenario.deposits_only_entry) = refl
find-name_of (fixed Scenario.payments_entry) = refl
find-name_of (fixed Scenario.multi_chunk_entry) = refl
find-name_of (fixed Scenario.withdrawals_entry) = refl
find-name_of (fixed Scenario.duplicate_withdrawals_entry) = refl
find-name_of (fixed Scenario.forced_exit_entry) = refl
find-name_of (fixed Scenario.forced_inclusion_entry) = refl
find-name_of (fixed Scenario.inbox_ordering_entry) = refl
find-name_of (fixed Scenario.round_trip_entry) = refl
find-name_of every_scheme_entry = refl
find-name_of (falcon_load_entry hundred) = refl
find-name_of (falcon_load_entry thousand) = refl
find-name_of (falcon_load_entry ten_thousand) = refl
find-name_of (ed25519_load_entry hundred) = refl
find-name_of (ed25519_load_entry thousand) = refl
find-name_of (ed25519_load_entry ten_thousand) = refl

-- A text finds a scenario, those too expensive to run by accident included, just when it is the
-- scenario's name.
pub find_iff : (name : Bytes) (e : Entry) → (find name ≡ some e) ↔ (name_of e ≡ name)
unfolding find
find_iff name e =
    (find_among-name_of (all ++ heavy) name, λ same. ap find (sym same) ∙ find-name_of e)
