-- ===== src/Lib.antt =====
-- A verification library of the payment rollup. A sequencer keeps accounts in a sparse Merkle tree
-- and turns transactions into blocks; a block is a batch, which the chain records, and a sidecar
-- of witnesses, which only the prover sees; a guest program decodes both, replays the batch
-- against the witnesses alone and commits to where it ended; a settlement hands the contract what
-- it needs.
--
-- Parts and files:
-- Prelude: names, Boolean tests on numbers, measured lists, fallible results.
-- Bytes: byte strings, and `to_be_bytes` and `from_be_bytes`.
-- Crypto: SHA-256, Ed25519 and Falcon, third-party code, as the record `Primitives`. A digest is
-- 32 bytes; what else a theorem needs of them is a hypothesis of it.
-- Account: crates/payment-rollup/src/lib.rs, `Account`, `Scheme` and the fixed addresses.
-- Merkle: crates/payment-rollup/src/merkle.rs. Merkle/Path has `bit_at` and `common_prefix_len`,
-- Merkle/Tree the prover's tree (`Node`, `SparseMerkleTree`), Merkle/Witness the verifier's
-- `root_from_proof`. Merkle/Shape defines a canonical tree and the lookup it stands for; Split,
-- Insert and Remove are about its writes, Climb, Complete and Digests are about what an honest
-- proof leads to, Unique about what a tree holds, Binding about its root, and Claims, Sound/Level
-- and Sound about what a proof convinces of. The last two are about the messages that are hashed,
-- among which a collision would be found.
-- Txn: lib.rs, transactions, sidecars, blocks and the bytes that are signed, which Txn/Messages is
-- about.
-- Signing: crates/payment-rollup/src/crypto.rs, and `verify_compressed` of
-- crates/falcon-det1024/src/lib.rs.
-- Falcon: crates/falcon-det1024/src/lib.rs, keys from a seed and signing. The C functions are the
-- record `CLibrary`, and `IsFalcon` is what their documentation says of them.
-- Chains: lib.rs, the inbox chain and the withdrawal chain with its links.
-- Replay: lib.rs, `debit`, `credit`, `verify_batch`, `verify_block`, `withdrawal_payouts`. An arm
-- of the `match` in `verify_batch` is a function of its own. Replay/Reasons, Refusals and Errors
-- are about its errors.
-- Ledger: lib.rs, `Ledger` and `get_block`, with an arm of its `match` a function of its own.
-- Ledger/Sync ties the map to the tree, Ledger/Mirror a step of the ledger to one of the replay,
-- Ledger/Placed and Ledger/Forced a transaction to one, Ledger/Verifies a block. Ledger/Typed,
-- Ledger/Formed and Ledger/Sizes keep accounts and blocks within their types and sizes. The other
-- way round, Ledger/Convinced, Accepted, Steps, Handed, Repeats and Accepts lead from a batch that
-- the replay accepts to the ledger that builds it. Ledger/Total sums the balances.
-- Codec: crates/payment-rollup/src/codec.rs. A method of the cursor takes the bytes that remain
-- and returns those that then remain; a function that pushes returns what it pushes. Codec/Varint,
-- Fields, Dictionary, Batch/RoundTrip, Sidecar/Fields and Sidecar/RoundTrip are about decoding
-- what was encoded.
-- Commit: lib.rs, chunks, `batch_commitment` and `public_values`.
-- Execute: lib.rs, `execute`, and crates/sp1-guest/src/main.rs.
-- Settlement: crates/sp1-host/src/lib.rs, `Settlement` and `hex`. Settlement/Words is about the
-- words that are committed, Settlement/Hex about `hex`. Settlement/Queued tells what a transaction
-- adds to the two queues, Settlement/Queues what a batch does and Settlement/Executes what a
-- settlement means, with Settlement/Parts; Settlement/Settles that a block of the ledger gets one,
-- Settlement/Genesis what the first one is, and Settlement/Conserves weighs it against the
-- balances. Settlement/Fits bounds the amounts, and Settlement/Includes is about taking in what L1
-- ordered.
-- Scenarios: crates/sp1-host/src/scenarios.rs, the sample blocks. Scenarios/Keys has the keys that
-- sign, with `ed25519_dalek` as the record `Dalek`, Scenarios/Load the blocks that need such keys,
-- Scenarios/Exits the exit proofs, Scenarios/Listing the names and what stands behind them.
-- Scenarios/Submitted and Settle are about the blocks with fixed keys, Signed and Loads about
-- those that need signatures.
-- Host: crates/sp1-host/src/main.rs, the command line; Host/Proving has prove.rs and report.rs of
-- the same crate, Host/Fixture the fixture of a scenario, Host/Run the run. The proving SDK is the
-- record `Sdk`, of which `IsSdk` says what its documentation does. Host/Hash and Arguments are
-- about the command line, Agrees about the guest that the SDK runs, Fresh and Exiting about what
-- cannot go wrong, Fails and Failures about what can, Emits and Consistent about what a run
-- leaves.
-- Examples: a deployment with a small hash, the blocks it builds, and the results applied to them.
--
-- Modelling: an integer is a natural number, and the checks of the source against overflow are
-- written out; an array is a list whose length a theorem assumes where it matters. `Result` is the
-- type of a fallible function, and a panic of the ledger is an error of the type `Panic`. A size
-- is that of the guest, a 32-bit machine. Loops are structural; `put_varint` recurses on the order
-- of the numbers, and `chunks` on fuel, one unit for each byte, which is enough since every chunk
-- takes at least one.
--
-- A run of the host returns what it prints and writes. Text is the bytes of its UTF-8.
--
-- Not modelled: the usage text, the layout of JSON, the writing of files, the progress lines and
-- the time a report gives, which are input and output; the benchmarks with the vendored Keccak;
-- and the contract, which is TypeScript.
pub mod Prelude
pub mod Bytes
pub mod Crypto
pub mod Account
pub mod Merkle
pub mod Txn
pub mod Signing
pub mod Chains
pub mod Replay
pub mod Ledger
pub mod Codec
pub mod Commit
pub mod Execute
pub mod Settlement
pub mod Examples
pub mod Falcon
pub mod Scenarios
pub mod Host
