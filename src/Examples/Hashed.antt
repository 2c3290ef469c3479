-- ===== src/Examples/Hashed.antt =====
-- The messages hashed on the examples, when any message counts (crates/payment-rollup/src/merkle.rs
-- and lib.rs).
use payment_rollup.Prelude.{ℕ, ◌+◌, List, [], ◌∷◌, Result, ok, err, Option, none, some}
use payment_rollup.Bytes.{Bytes}
use payment_rollup.Account.{Address, Digest}
use payment_rollup.Merkle.Tree.{Node, empty, leaf, branch}
use payment_rollup.Merkle.Binding.{Hashes}
use payment_rollup.Merkle.Claims.{PathHashes}
use payment_rollup.Txn.{Transaction, TxnSidecar, LeafWitness}
use payment_rollup.Ledger.{Ledger, Building, Panic}
use payment_rollup.Ledger.Convinced.{WitnessHashes, FeeHashes}
use payment_rollup.Ledger.Steps.{After}
use payment_rollup.Ledger.Handed.{TxnHashes}
use payment_rollup.Ledger.Accepts.{Then, LoopHashes}
use payment_rollup.Examples.{toy}

abbrev pub AnyMessage : Bytes → Type 0
AnyMessage m = Unit

pub all_hashed : (t : Node) → Hashes AnyMessage t
all_hashed empty = tt
all_hashed (leaf a x) = tt
all_hashed (branch h l r) = (tt, all_hashed l, all_hashed r)

pub path_hashed :
    (a : Address) (d : ℕ) (ss : List Digest) (current : Digest)
    → PathHashes AnyMessage a d ss current
path_hashed a d [] current = tt
path_hashed a d (s ∷ ss) current = (tt, path_hashed a (d + 1) ss current)

witness_hashed : (a : Address) (w : LeafWitness) → WitnessHashes AnyMessage a w
witness_hashed a w = (all_hashed _, path_hashed a 0 w.proof.siblings _)

fee_hashed : (w : Option LeafWitness) → FeeHashes AnyMessage w
fee_hashed none = tt
fee_hashed (some w) = witness_hashed _ w

after_hashed :
    {W : Type 0} (run : Result Panic (W × Ledger)) (K : Ledger → Type 0)
    → ((l : Ledger) → K l)
    → After AnyMessage run K
after_hashed (ok (w, l)) K k = (all_hashed l.tree, k l)
after_hashed (err e) K k = tt

txn_hashed : (l : Ledger) (t : Transaction) (e : TxnSidecar) → TxnHashes AnyMessage l t e
txn_hashed l (Transaction.payment t) (TxnSidecar.payment e) = (
  witness_hashed _ e.sender_witness,
  after_hashed _ _ (λ l₁. (
    witness_hashed _ e.receiver_witness,
    after_hashed _ _ (λ l₂. fee_hashed e.fee_sink_witness),
  )),
)
txn_hashed l (Transaction.deposit t) (TxnSidecar.deposit e) = witness_hashed _ e.receiver_witness
txn_hashed l (Transaction.withdrawal t) (TxnSidecar.withdrawal e) =
    (witness_hashed _ e.sender_witness, after_hashed _ _ (λ l₁. fee_hashed e.fee_sink_witness))
txn_hashed l (Transaction.forced_withdrawal t) (TxnSidecar.forced_withdrawal e) =
    witness_hashed _ e.sender_witness
txn_hashed l _ _ = tt

then_hashed :
    (run : Result Panic Building) (K : Building → Type 0)
    → ((b : Building) → K b)
    → Then AnyMessage run K
then_hashed (ok b) K k = k b
then_hashed (err e) K k = tt

pub loop_hashed :
    (ts : List Transaction) (es : List TxnSidecar) (b : Building) → LoopHashes AnyMessage b ts es
loop_hashed [] es b = tt
loop_hashed (t ∷ ts) [] b = tt
loop_hashed (t ∷ ts) (e ∷ es) b = (
  all_hashed b.ledger.tree,
  txn_hashed b.ledger t e,
  then_hashed _ _ (λ b'. loop_hashed ts es b'),
)
