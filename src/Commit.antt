-- ===== src/Commit.antt =====
-- The batch commitment and the public values of crates/payment-rollup/src/lib.rs. A chunk that
-- `batch_commitment` hashes is one that `chunks` cuts, so the debug assertion of `chunk_digest` is
-- not modelled.
pub mod Chunks
use payment_rollup.Prelude.{ℕ, zero, suc, ◌+◌, ◌-◌, ◌/◌, List, [], ◌∷◌, ◌++◌, length, take, drop}
use payment_rollup.Bytes.{Bytes, ascii, u64_bytes}
use payment_rollup.Crypto.{Primitives, sha256}
use payment_rollup.Account.{DeploymentDomain, Digest}

abbrev pub max_app_arg : ℕ
max_app_arg = 4096

abbrev pub abi_length_prefix : ℕ
abi_length_prefix = 2

abbrev pub chunk_size : ℕ
chunk_size = max_app_arg - abi_length_prefix

abbrev pub avm_max_byte_slice : ℕ
avm_max_byte_slice = 4096

-- `div_ceil`
unfoldable pub chunk_count : ℕ → ℕ
chunk_count batch_len = (batch_len + (chunk_size - 1)) / chunk_size

-- `<[u8]>::chunks(CHUNK_SIZE)`, on fuel: one unit for each chunk.
unfoldable pub chunks_loop : ℕ → Bytes → List Bytes
chunks_loop zero bytes = []
chunks_loop (suc fuel) [] = []
chunks_loop (suc fuel) (b ∷ bytes) =
    take chunk_size (b ∷ bytes) ∷ chunks_loop fuel (drop chunk_size (b ∷ bytes))

unfoldable pub chunks : Bytes → List Bytes
unfolding chunks_loop
chunks bytes = chunks_loop (length bytes) bytes

module _ ⦃p : Primitives⦄ where
  unfoldable pub chunk_accumulator_seed : DeploymentDomain → ℕ → Digest
  chunk_accumulator_seed domain batch_len =
      sha256 (ascii "BATCH" ++ (domain ++ u64_bytes batch_len))

  unfoldable pub chunk_digest : Bytes → Digest
  chunk_digest chunk = sha256 chunk

  unfoldable pub accumulate_chunk : Digest → Digest → Digest
  accumulate_chunk accumulator digest = sha256 (ascii "CHUNK" ++ (accumulator ++ digest))

  -- The loop of `batch_commitment`.
  unfoldable pub fold_chunks : Digest → List Bytes → Digest
  fold_chunks accumulator [] = accumulator
  fold_chunks accumulator (chunk ∷ rest) =
      fold_chunks (accumulate_chunk accumulator (chunk_digest chunk)) rest

  unfoldable pub batch_commitment : DeploymentDomain → Bytes → Digest
  unfolding fold_chunks
  batch_commitment domain batch_bytes =
      fold_chunks (chunk_accumulator_seed domain (length batch_bytes)) (chunks batch_bytes)

  -- The six words of the 192 bytes, in order.
  unfoldable pub public_values :
      DeploymentDomain → Digest → Digest → Bytes → Digest → Digest → Digest → Bytes
  public_values domain old_root new_root batch_bytes old_inbox_chain new_inbox_chain
        withdrawal_chain =
      old_root
      ++ (new_root
          ++ (batch_commitment domain batch_bytes
              ++ (old_inbox_chain ++ (new_inbox_chain ++ withdrawal_chain))))
