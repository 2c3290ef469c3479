-- ===== src/Execute.antt =====
-- `execute` of crates/payment-rollup/src/lib.rs, and the program of crates/sp1-guest/src/main.rs
-- around it: what is read from the host is its arguments, the slice it commits is its result.
use payment_rollup.Prelude.{◌==◌, Result, ok, err, guard, ◌>>=◌, ◌>>◌, length}
use payment_rollup.Bytes.{Bytes}
use payment_rollup.Crypto.{Primitives}
use payment_rollup.Account.{DeploymentDomain, Digest, VerificationError}
use payment_rollup.Replay.{verify_batch}
use payment_rollup.Codec.Reader.{DecodeError}
use payment_rollup.Codec.Batch
use payment_rollup.Codec.Sidecar
use payment_rollup.Commit.{public_values}

pub data ExecutionError : Type 0 where
  decoding : DecodeError → ExecutionError
  verification : VerificationError → ExecutionError

-- The two `From` instances that `?` applies.
unfoldable pub from_decode_error : {A : Type 0} → Result DecodeError A → Result ExecutionError A
from_decode_error (ok a) = ok a
from_decode_error (err e) = err (ExecutionError.decoding e)

unfoldable pub from_verification_error :
    {A : Type 0} → Result VerificationError A → Result ExecutionError A
from_verification_error (ok a) = ok a
from_verification_error (err e) = err (ExecutionError.verification e)

module _ ⦃p : Primitives⦄ where
  unfoldable pub execute :
      DeploymentDomain → Digest → Digest → Bytes → Bytes → Result ExecutionError Bytes
  execute domain old_root inbox_anchor batch_bytes sidecar_bytes = do
    batch ← from_decode_error (Batch.decode batch_bytes)
    sidecar ← from_decode_error (Sidecar.decode sidecar_bytes batch)
    (new_root, new_inbox_chain, withdrawal_chain) ←
        from_verification_error (verify_batch domain old_root inbox_anchor batch sidecar)
    ok (
        public_values domain old_root new_root batch_bytes inbox_anchor new_inbox_chain
          withdrawal_chain)

  -- The `expect`s of the guest, at which it stops and nothing is proved.
  pub data GuestPanic : Type 0 where
    domain_length old_root_length inbox_anchor_length : GuestPanic
    block_must_prove : ExecutionError → GuestPanic

  unfoldable pub block_proves : Result ExecutionError Bytes → Result GuestPanic Bytes
  block_proves (ok values) = ok values
  block_proves (err e) = err (GuestPanic.block_must_prove e)

  unfoldable pub guest : Bytes → Bytes → Bytes → Bytes → Bytes → Result GuestPanic Bytes
  guest domain old_root inbox_anchor batch_bytes sidecar_bytes = do
    guard (length domain == 32) GuestPanic.domain_length
    guard (length old_root == 32) GuestPanic.old_root_length
    guard (length inbox_anchor == 32) GuestPanic.inbox_anchor_length
    block_proves (execute domain old_root inbox_anchor batch_bytes sidecar_bytes)
