-- ===== src/Host/Run.antt =====
-- The program of crates/sp1-host/src/main.rs, `run`. What it writes and prints is its result; the
-- progress lines are left out, and so is that a proof written before a later failure stays written.
use payment_rollup.Prelude.{
  ℕ, Bool, true, false, not, ◌&&◌, ◌*◌, ◌==◌, Option, none, some, List, [], ◌∷◌, map, Result, ok,
  err, guard, ok_or, ◌>>=◌, ◌>>◌, length,
}
use payment_rollup.Bytes.{Bytes}
use payment_rollup.Crypto.{Primitives}
use payment_rollup.Account.{deployment_domain, min_withdrawal}
use payment_rollup.Chains.{inbox_chain_genesis}
use payment_rollup.Commit.{chunk_size}
use payment_rollup.Execute.{ExecutionError}
use payment_rollup.Falcon.{CLibrary}
use payment_rollup.Settlement.{Settlement, for_block, genesis_root, settles_from_genesis, hex}
use payment_rollup.Scenarios.Exits.{Stop}
use payment_rollup.Scenarios.Keys.{Dalek}
use payment_rollup.Scenarios.Listing.{Entry, all, find, BuildPanic, build_entry}
use payment_rollup.Host.{Args, ArgsError, parse_args}
use payment_rollup.Host.Proving.{
  Sdk, ProvingError, ProofFixture, Groth16Prover, new_prover, prove, new_reporter, report, Report,
}
use payment_rollup.Host.Fixture.{Fixture, fixture, map_option}

pub data RunError : Type 0 where
  refusing_arguments : ArgsError → RunError
  unnamed_proofs : RunError
  no_scenario : Bytes → RunError
  building : Entry → BuildPanic → RunError
  settling : Entry → ExecutionError → RunError
  not_from_genesis : Entry → Bytes → RunError
  proving : ProvingError → RunError
  in_scenario : Entry → ProvingError → RunError
  exiting : Stop → RunError

unfoldable pub in_run {ℓ κ} :
    {E : Type ℓ} {A : Type κ} → (E → RunError) → Result E A → Result RunError A
in_run f (ok a) = ok a
in_run f (err e) = err (f e)

-- What every document says of the deployment, as texts.
pub record Deployment : Type 0 where
  pub chunk_size : ℕ
  pub public_values_size : ℕ
  pub min_withdrawal : ℕ
  pub deployment_domain : Bytes
  pub genesis_hash : Bytes
  pub app_id : ℕ
  pub genesis_root : Bytes
  pub inbox_chain_genesis : Bytes

-- What a document says of the verifier when something was proved.
pub record Verifier : Type 0 where
  pub vkey : Bytes
  pub groth16_verification_key : Bytes
  pub recursion_vkey_root : Bytes
  pub network : Bytes

-- A proved scenario on its own, `<name>.json`.
pub record Artifact : Type 0 where
  pub deployment : Deployment
  pub verifier : Verifier
  pub scenario : Fixture

pub record Document : Type 0 where
  pub deployment : Deployment
  pub scenarios : List Fixture
  pub verifier : Option Verifier

-- What a run leaves: the proofs' files, the reports, and the document with where it goes.
pub record Emitted : Type 0 where
  pub artifacts : List Artifact
  pub reports : List Report
  pub out : Option Bytes
  pub document : Document

-- One scenario's part of it.
pub record Part : Type 0 where
  pub scenario : Fixture
  pub artifact : Option Artifact
  pub reported : Option Report

unfoldable pub verifier_of : Groth16Prover → Args → Verifier
verifier_of prover args = record {
  vkey = prover.vkey;
  groth16_verification_key = hex prover.sdk.groth16_verification_key;
  recursion_vkey_root = hex prover.sdk.recursion_vkey_root;
  network = args.network;
}

-- The `collect` over the names that were asked for.
unfoldable pub select : List Bytes → Result RunError (List Entry)
select [] = ok []
select (name ∷ names) = do
  entry ← ok_or (find name) (no_scenario name)
  entries ← select names
  ok (entry ∷ entries)

unfoldable pub selected : List Bytes → Result RunError (List Entry)
selected [] = ok all
selected (name ∷ names) = select (name ∷ names)

-- What a flag asks for, made once and before the loop.
unfoldable pub when {ℓ} : {A : Type ℓ} → Bool → Result ProvingError A → Result RunError (Option A)
when false made = ok none
when true made = do a ← in_run proving made; ok (some a)

unfoldable pub report_with : Entry → Option Sdk → Settlement → Result RunError (Option Report)
report_with entry none settlement = ok none
report_with entry (some sdk) settlement = do
  r ← in_run (in_scenario entry) (report sdk settlement)
  ok (some r)

unfoldable pub prove_with :
    Entry → Option Groth16Prover → Settlement → Result RunError (Option ProofFixture)
prove_with entry none settlement = ok none
prove_with entry (some prover) settlement = do
  proof ← in_run (in_scenario entry) (prove prover settlement)
  ok (some proof)

unfoldable pub artifact_of : Option Groth16Prover → Args → Deployment → Fixture → Option Artifact
artifact_of none args deployment f = none
artifact_of (some prover) args deployment f =
    some (record { deployment = deployment; verifier = verifier_of prover args; scenario = f })

unfoldable pub keep : {A : Type 0} → Option A → List A → List A
keep none rest = rest
keep (some a) rest = a ∷ rest

unfoldable pub artifacts_of : List Part → List Artifact
artifacts_of [] = []
artifacts_of (part ∷ parts) = keep part.artifact (artifacts_of parts)

unfoldable pub reports_of : List Part → List Report
reports_of [] = []
reports_of (part ∷ parts) = keep part.reported (reports_of parts)

module _ ⦃p : Primitives⦄ where
  unfoldable pub deployment_of : Args → Deployment
  deployment_of args = record {
    chunk_size = chunk_size;
    public_values_size = 32 * 6;
    min_withdrawal = min_withdrawal;
    deployment_domain = hex (deployment_domain args.genesis_hash args.app_id);
    genesis_hash = hex args.genesis_hash;
    app_id = args.app_id;
    genesis_root = hex genesis_root;
    inbox_chain_genesis = hex inbox_chain_genesis;
  }

  unfoldable pub gather : Args → Option Groth16Prover → List Part → Emitted
  unfolding map_option
  gather args prover parts = record {
    artifacts = artifacts_of parts;
    reports = reports_of parts;
    out = args.out;
    document = record {
      deployment = deployment_of args;
      scenarios = map (λ (part : Part). part.scenario) parts;
      verifier = map_option (λ made. verifier_of made args) prover;
    };
  }

module _ ⦃p : Primitives⦄ (d : Dalek) (c : CLibrary) where
  -- The body of the loop.
  unfoldable pub emit : Args → Option Groth16Prover → Option Sdk → Entry → Result RunError Part
  emit args prover reporter entry = do
    (block, ledger) ←
        in_run (building entry)
          (build_entry d c entry (deployment_domain args.genesis_hash args.app_id))
    settlement ← in_run (settling entry) (for_block block)
    guard (settles_from_genesis settlement) (not_from_genesis entry (hex settlement.old_root))
    reported ← report_with entry reporter settlement
    proof ← prove_with entry prover settlement
    shown ← in_run exiting (fixture entry settlement args.include_sidecar proof)
    ok (record {
      scenario = shown;
      artifact = artifact_of prover args (deployment_of args) shown;
      reported = reported;
    })

  unfoldable pub emit_all :
      Args → Option Groth16Prover → Option Sdk → List Entry → Result RunError (List Part)
  emit_all args prover reporter [] = ok []
  emit_all args prover reporter (entry ∷ entries) = do
    part ← emit args prover reporter entry
    parts ← emit_all args prover reporter entries
    ok (part ∷ parts)

  -- The whole run after the command line was read.
  unfoldable pub run_with : Option Sdk → Args → Result RunError Emitted
  run_with feature args = do
    guard (not (args.prove && (length args.names == 0))) unnamed_proofs
    entries ← selected args.names
    prover ← when args.prove (new_prover feature args.network)
    reporter ← when args.report (new_reporter feature)
    parts ← emit_all args prover reporter entries
    ok (gather args prover parts)

  unfoldable pub finish : Option Sdk → Option Args → Result RunError (Option Emitted)
  finish feature none = ok none
  finish feature (some args) = do emitted ← run_with feature args; ok (some emitted)

  -- `run`, for a build with the feature or without.
  unfoldable pub run : Option Sdk → List Bytes → Result RunError (Option Emitted)
  run feature texts = do args ← in_run refusing_arguments (parse_args texts); finish feature args
