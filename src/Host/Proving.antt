-- ===== src/Host/Proving.antt =====
-- The guest on the proving network and in the local executor (crates/sp1-host/src/prove.rs and
-- report.rs).
use payment_rollup.Prelude.{
  ℕ, ltb, ◌==◌, ◌≡◌, if◌then◌else◌, Bool, true, false, not, ◌&&◌, ◌||◌, Option, none, some, List,
  [], ◌∷◌, Result, ok, err, guard, ok_or, ◌>>=◌, ◌>>◌, length,
}
use payment_rollup.Bytes.{Bytes, bytes_eq}
use payment_rollup.Crypto.{Primitives}
use payment_rollup.Execute.{guest}
use payment_rollup.Settlement.{Settlement}

-- What the `sp1_sdk` crate returns.
pub record Groth16Proof : Type 0 where
  pub public_inputs : List Bytes
  pub encoded_proof : Bytes
  pub groth16_vkey_hash : Bytes

pub record NetworkProof : Type 0 where
  pub public_values : Bytes
  pub bytes : Bytes
  pub groth16 : Option Groth16Proof

pub record ExecutionReport : Type 0 where
  pub total_instruction_count : ℕ
  pub gas : Option ℕ
  pub syscall_counts : List (Bytes × ℕ)

-- `sp1_sdk` with the guest's ELF, `sp1_verifier` and the environment: the name of a network, the
-- private key, the verifying key that the setup gives, a proof of the guest's run on some input, and
-- the run itself. An error is its message.
pub record Sdk : Type 0 where
  pub parse_mode : Bytes → Result Bytes (Unit {0})
  pub private_key : Option Bytes
  pub setup : Result Bytes Bytes
  pub request : List Bytes → Result Bytes NetworkProof
  pub execute : List Bytes → Result Bytes (Bytes × ExecutionReport)
  pub groth16_verification_key : Bytes
  pub recursion_vkey_root : Bytes

-- The SDK runs the guest: what it reads are the five slices written for it, in order, and what a
-- proof or a report tells as its public values is what the guest commits.
pub record IsSdk ⦃p : Primitives⦄ (sdk : Sdk) : Type 0 where
  pub requested :
      (domain root anchor batch sidecar : Bytes) {proof : NetworkProof}
      → sdk.request (domain ∷ root ∷ anchor ∷ batch ∷ sidecar ∷ []) ≡ ok proof
      → guest domain root anchor batch sidecar ≡ ok proof.public_values
  pub executed :
      (domain root anchor batch sidecar : Bytes) {values : Bytes} {report : ExecutionReport}
      → sdk.execute (domain ∷ root ∷ anchor ∷ batch ∷ sidecar ∷ []) ≡ ok (values, report)
      → guest domain root anchor batch sidecar ≡ ok values

-- `stdin_for`
unfoldable pub stdin_for : Settlement → List Bytes
stdin_for s = s.domain ∷ s.old_root ∷ s.old_inbox_chain ∷ s.batch_bytes ∷ s.sidecar_bytes ∷ []

-- The messages of `Groth16Prover` and `Reporter`.
pub data ProvingError : Type 0 where
  no_prove_feature : ProvingError
  network_mode : Bytes → ProvingError
  no_private_key : ProvingError
  setup_failed request_failed : Bytes → ProvingError
  execution_failed : Bytes → ProvingError
  values_disagree : ProvingError
  not_groth16 : ProvingError

unfoldable pub map_err {ℓ} :
    {A : Type ℓ} → (Bytes → ProvingError) → Result Bytes A → Result ProvingError A
map_err f (ok a) = ok a
map_err f (err e) = err (f e)

-- `ProofFixture` of crates/sp1-host/src/lib.rs
pub record ProofFixture : Type 0 where
  pub bytes : Bytes
  pub vkey : Bytes
  pub public_inputs : List Bytes
  pub encoded_proof : Bytes
  pub verifier_hash : Bytes

pub record Groth16Prover : Type 0 where
  pub sdk : Sdk
  pub vkey : Bytes

-- The environment variable is set and not empty.
unfoldable pub has_key : Option Bytes → Bool
has_key none = false
has_key (some key) = not (length key == 0)

-- `Groth16Prover::new`; a build without the feature has no SDK.
unfoldable pub new_prover : Option Sdk → Bytes → Result ProvingError Groth16Prover
new_prover none network = err no_prove_feature
new_prover (some sdk) network = do
  map_err network_mode (sdk.parse_mode network)
  guard (has_key sdk.private_key) no_private_key
  vkey ← map_err setup_failed sdk.setup
  ok (record { sdk = sdk; vkey = vkey })

abbrev pub proof_fixture : Bytes → Bytes → Groth16Proof → ProofFixture
proof_fixture vkey bytes groth16 = record {
  bytes = bytes;
  vkey = vkey;
  public_inputs = groth16.public_inputs;
  encoded_proof = groth16.encoded_proof;
  verifier_hash = groth16.groth16_vkey_hash;
}

-- `Groth16Prover::prove`
unfoldable pub prove : Groth16Prover → Settlement → Result ProvingError ProofFixture
prove prover settlement = do
  proof ← map_err request_failed (prover.sdk.request (stdin_for settlement))
  guard (bytes_eq proof.public_values settlement.public_values) values_disagree
  groth16 ← ok_or proof.groth16 not_groth16
  ok (proof_fixture prover.vkey proof.bytes groth16)

pub record Report : Type 0 where
  pub instructions : ℕ
  pub gas : Option ℕ
  pub syscalls : List (Bytes × ℕ)
  pub txns : ℕ

-- `Reporter::new`
unfoldable pub new_reporter : Option Sdk → Result ProvingError Sdk
new_reporter none = err no_prove_feature
new_reporter (some sdk) = ok sdk

-- The order of texts, byte by byte.
unfoldable pub bytes_leb : Bytes → Bytes → Bool
bytes_leb [] ys = true
bytes_leb (x ∷ xs) [] = false
bytes_leb (x ∷ xs) (y ∷ ys) = ltb x y || ((x == y) && bytes_leb xs ys)

-- Descending by count, then by name.
unfoldable pub goes_before : Bytes × ℕ → Bytes × ℕ → Bool
goes_before (name, count) (other, less) =
    ltb less count || ((count == less) && bytes_leb name other)

-- `sort_by`, as the insertion of each element into the sorted rest.
unfoldable pub insert_syscall : Bytes × ℕ → List (Bytes × ℕ) → List (Bytes × ℕ)
insert_syscall s [] = s ∷ []
insert_syscall s (t ∷ ts) = if goes_before s t then s ∷ t ∷ ts else t ∷ insert_syscall s ts

-- `syscalls`: those that were reached, sorted.
unfoldable pub syscalls : List (Bytes × ℕ) → List (Bytes × ℕ)
syscalls [] = []
syscalls ((name, count) ∷ rest) =
    let used = syscalls rest in if ltb 0 count then insert_syscall (name, count) used else used

-- What is reported, without the time that it took.
unfoldable pub report_of : Settlement → ExecutionReport → Report
report_of settlement costs = record {
  instructions = costs.total_instruction_count;
  gas = costs.gas;
  syscalls = syscalls costs.syscall_counts;
  txns = settlement.txn_count;
}

-- `Reporter::report`
unfoldable pub report : Sdk → Settlement → Result ProvingError Report
report sdk settlement = do
  (values, costs) ← map_err execution_failed (sdk.execute (stdin_for settlement))
  guard (bytes_eq values settlement.public_values) values_disagree
  ok (report_of settlement costs)
