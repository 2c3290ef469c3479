-- ===== src/Replay/Errors.antt =====
-- Why a replay fails (crates/payment-rollup/src/lib.rs, `verify_batch` and `debit`).
use payment_rollup.Prelude.{◌≡◌, List, ◌∷◌, ◌++◌, length, ok, err}
use payment_rollup.Crypto.{Primitives}
use payment_rollup.Account.{DeploymentDomain, VerificationError}
use payment_rollup.Txn.{Transaction, TxnSidecar}
use payment_rollup.Replay.Reasons.{Refused}
use payment_rollup.Replay.{Progress, verify_txn, verify_loop}

module _ ⦃p : Primitives⦄ where
  -- The first transaction that fails, after those before it have replayed, and what is wrong with it.
  pub record FirstFailure (domain : DeploymentDomain) (ts : List Transaction) (es : List TxnSidecar)
      (s : Progress) (e : VerificationError) : Type 0 where
    pub before : List Transaction
    pub entries_before : List TxnSidecar
    pub txn : Transaction
    pub entry : TxnSidecar
    pub after : List Transaction
    pub entries_after : List TxnSidecar
    pub reached : Progress
    pub txns_split : ts ≡ before ++ txn ∷ after
    pub entries_split : es ≡ entries_before ++ entry ∷ entries_after
    pub paired : length before ≡ length entries_before
    pub replayed : verify_loop domain before entries_before s ≡ ok reached
    pub fails : verify_txn domain txn entry reached ≡ err e
    pub reason : Refused domain txn entry reached e
