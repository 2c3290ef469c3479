-- ===== src/Host/Fails.antt =====
-- Why the parts of a run fail (crates/sp1-host/src/main.rs, prove.rs and report.rs).
use payment_rollup.Prelude.{
  ◌≡◌, refl, inl, inr, Bool, Bool-cases, ap, subst, true, false, List, ◌∷◌, ◌++◌, Option, none,
  some, Result, ok, err, ◌>>=◌, >>=-eq-ok, ok-injective, guard, ok_or, length, Fails, Fails-bind,
}
use payment_rollup.Bytes.{Bytes, bytes_eq}
use payment_rollup.Crypto.{Primitives}
use payment_rollup.Account.{deployment_domain}
use payment_rollup.Falcon.{CLibrary}
use payment_rollup.Txn.{Block}
use payment_rollup.Ledger.{Ledger}
use payment_rollup.Settlement.{Settlement}
use payment_rollup.Settlement.Settles.{settlement_of}
use payment_rollup.Scenarios.Keys.{Dalek}
use payment_rollup.Scenarios.Listing.{find, build_entry}
use payment_rollup.Host.{Args, parse_args}
use payment_rollup.Host.Proving.{
  Sdk, Groth16Prover, ProvingError, map_err, stdin_for, NetworkProof, ExecutionReport,
  request_failed, execution_failed, prove, report, proof_fixture, new_prover, new_reporter,
  no_prove_feature, not_groth16, network_mode, no_private_key, setup_failed, has_key,
}
use payment_rollup.Host.Run.{
  RunError, refusing_arguments, unnamed_proofs, no_scenario, building, proving, in_scenario, in_run,
  when,
}

pub in_run-ok {ℓ κ} :
    {E : Type ℓ} {A : Type κ} (f : E → RunError) (r : Result E A) {a : A}
    → in_run f r ≡ ok a
    → r ≡ ok a
unfolding in_run
in_run-ok f (ok a) h = ap ok (ok-injective h)
in_run-ok f (err e) h = cc

pub Fails-in_run {ℓ κ} :
    {E : Type ℓ} {A : Type κ} (P : RunError → Type 0) (f : E → RunError) (r : Result E A)
    → Fails (λ e. P (f e)) r
    → Fails P (in_run f r)
unfolding in_run
Fails-in_run P f (ok a) h = tt
Fails-in_run P f (err e) h = h

-- Why the prover or the reporter is not made.
abbrev pub Unready : Option Sdk → Bytes → ProvingError → Type 0
Unready feature network no_prove_feature = feature ≡ none
Unready feature network (network_mode m) =
    (sdk : Sdk) × (feature ≡ some sdk) × (sdk.parse_mode network ≡ err m)
Unready feature network no_private_key =
    (sdk : Sdk) × (feature ≡ some sdk) × (has_key sdk.private_key ≡ false)
Unready feature network (setup_failed m) = (sdk : Sdk) × (feature ≡ some sdk) × (sdk.setup ≡ err m)
Unready feature network _ = ⊥

-- Why a settlement is not proved or not reported: the SDK fails on it, or returns another proof.
abbrev pub Unproved : Option Sdk → Settlement → ProvingError → Type 0
Unproved feature s (request_failed m) =
    (sdk : Sdk) × (feature ≡ some sdk) × (sdk.request (stdin_for s) ≡ err m)
Unproved feature s (execution_failed m) =
    (sdk : Sdk) × (feature ≡ some sdk) × (sdk.execute (stdin_for s) ≡ err m)
Unproved feature s not_groth16 =
    (sdk : Sdk) × (feature ≡ some sdk)
    × ((proof : NetworkProof) × (sdk.request (stdin_for s) ≡ ok proof) × (proof.groth16 ≡ none))
Unproved feature s _ = ⊥

module _ ⦃p : Primitives⦄ (d : Dalek) (c : CLibrary) (feature : Option Sdk) where
  -- Why a run over some settings fails. No cause is a disagreement of the parts with one another.
  abbrev pub Cause : Args → RunError → Type 0
  Cause args unnamed_proofs = (args.prove ≡ true) × (length args.names ≡ 0)
  Cause args (no_scenario name) =
      (before after : List Bytes) × (args.names ≡ before ++ name ∷ after) × (find name ≡ none)
  Cause args (building entry panic) =
      build_entry d c entry (deployment_domain args.genesis_hash args.app_id) ≡ err panic
  Cause args (proving e) = Unready feature args.network e
  Cause args (in_scenario entry e) =
      (block : Block) × (l : Ledger) × (build_entry d c entry
          (deployment_domain args.genesis_hash args.app_id)
        ≡ ok (block, l))
      × Unproved feature (settlement_of block) e
  Cause args _ = ⊥

  -- Why a run over a command line fails.
  abbrev pub RunCause : List Bytes → RunError → Type 0
  RunCause texts (refusing_arguments e) = parse_args texts ≡ err e
  RunCause texts e = (args : Args) × (parse_args texts ≡ ok (some args)) × Cause args e

pub Fails-self : {E A : Type 0} (r : Result E A) → Fails (λ e. r ≡ err e) r
Fails-self (ok a) = tt
Fails-self (err e) = refl

ok_or-Fails :
    {A B : Type 0} (P : ProvingError → Type 0) (o : Option A) (e : ProvingError) (f : A → B)
    → (o ≡ none → P e)
    → Fails P (ok_or o e >>= λ a. ok (f a))
ok_or-Fails P none e f h = h refl
ok_or-Fails P (some a) e f h = tt

map_err-Fails {ℓ} :
    {A : Type ℓ} (P : ProvingError → Type 0) (f : Bytes → ProvingError) (r : Result Bytes A)
    → ((e : Bytes) → r ≡ err e → P (f e))
    → Fails P (map_err f r)
unfolding map_err
map_err-Fails P f (ok a) h = tt
map_err-Fails P f (err e) h = h e refl

map_err-ok :
    {A : Type 0} (f : Bytes → ProvingError) (r : Result Bytes A) {a : A}
    → map_err f r ≡ ok a
    → r ≡ ok a
unfolding map_err
map_err-ok f (ok a) h = ap ok (ok-injective h)
map_err-ok f (err e) h = cc

-- The values that the guest commits to in a proof or a run are those of the settlement.
abbrev pub Agreeing : Sdk → Settlement → Type 0
Agreeing sdk s =
    ((proof : NetworkProof)
      → sdk.request (stdin_for s) ≡ ok proof
      → bytes_eq proof.public_values s.public_values ≡ true)
    × ((values : Bytes) (costs : ExecutionReport)
        → sdk.execute (stdin_for s) ≡ ok (values, costs)
        → bytes_eq values s.public_values ≡ true)

module _ (feature : Option Sdk) where
  pub prove-Fails :
      (prover : Groth16Prover) (s : Settlement)
      → feature ≡ some prover.sdk
      → Agreeing prover.sdk s
      → Fails (Unproved feature s) (prove prover s)
  unfolding prove
  prove-Fails prover s same g =
      let request = prover.sdk.request (stdin_for s) in
      Fails-bind (Unproved feature s) (map_err request_failed request) _
        (map_err-Fails (Unproved feature s) request_failed request
          (λ e failed. (prover.sdk, same, failed)))
        (λ proof got.
          let requested = map_err-ok request_failed request got in
          rw (g.0 proof requested) (
            ok_or-Fails (Unproved feature s) proof.groth16 not_groth16
              (λ g. proof_fixture prover.vkey proof.bytes g)
              (λ other. (prover.sdk, same, (proof, requested, other)))))

  pub report-Fails :
      (sdk : Sdk) (s : Settlement)
      → feature ≡ some sdk
      → Agreeing sdk s
      → Fails (Unproved feature s) (report sdk s)
  unfolding report
  report-Fails sdk s same g =
      let run = sdk.execute (stdin_for s) in
      Fails-bind (Unproved feature s) (map_err execution_failed run) _
        (map_err-Fails (Unproved feature s) execution_failed run (λ e failed. (sdk, same, failed)))
        (λ r got. rw (g.1 r.0 r.1 (map_err-ok execution_failed run got)) tt)

pub new_prover-Fails :
    (feature : Option Sdk) (network : Bytes)
    → Fails (Unready feature network) (new_prover feature network)
unfolding new_prover
new_prover-Fails none network = refl
new_prover-Fails (some sdk) network =
    let P = Unready (some sdk) network in
    Fails-bind P (map_err network_mode (sdk.parse_mode network)) _
      (map_err-Fails P network_mode (sdk.parse_mode network) (λ e failed. (sdk, refl, failed)))
      (λ _ _.
        Fails-bind P (guard (has_key sdk.private_key) no_private_key) _
          (elim (Bool-cases (has_key sdk.private_key)) [
            | inl e ↦ rw e tt
            | inr e ↦ rw e (sdk, refl, e)
          ])
          (λ _ _.
            Fails-bind P (map_err setup_failed sdk.setup) _
              (map_err-Fails P setup_failed sdk.setup (λ e failed. (sdk, refl, failed)))
              (λ vkey _. tt)))

pub new_reporter-Fails :
    (feature : Option Sdk) (network : Bytes)
    → Fails (Unready feature network) (new_reporter feature)
unfolding new_reporter
new_reporter-Fails none network = refl
new_reporter-Fails (some sdk) network = tt

-- What a flag asks for runs on the SDK that the build has.
abbrev pub IsReporter : Option Sdk → Option Sdk → Type 0
IsReporter feature none = Unit
IsReporter feature (some sdk) = feature ≡ some sdk

abbrev pub IsProver : Option Sdk → Option Groth16Prover → Type 0
IsProver feature none = Unit
IsProver feature (some prover) = feature ≡ some prover.sdk

new_prover_sdk :
    (feature : Option Sdk) (network : Bytes) {prover : Groth16Prover}
    → new_prover feature network ≡ ok prover
    → feature ≡ some prover.sdk
unfolding new_prover
new_prover_sdk none network h = cc
new_prover_sdk (some sdk) network h =
    let (_, _, h₁) = >>=-eq-ok (map_err network_mode (sdk.parse_mode network)) _ h in
    let (_, _, h₂) = >>=-eq-ok (guard (has_key sdk.private_key) no_private_key) _ h₁ in
    let (vkey, _, h₃) = >>=-eq-ok (map_err setup_failed sdk.setup) _ h₂ in
    ap (λ (q : Groth16Prover). some q.sdk) (ok-injective h₃)

pub when-IsProver :
    (feature : Option Sdk) (flag : Bool) (network : Bytes) {prover : Option Groth16Prover}
    → when flag (new_prover feature network) ≡ ok prover
    → IsProver feature prover
unfolding when
when-IsProver feature false network h = subst (IsProver feature) (ok-injective h) tt
when-IsProver feature true network h =
    let (prover, made, done) = >>=-eq-ok (in_run proving (new_prover feature network)) _ h in
    subst (IsProver feature) (ok-injective done)
      (new_prover_sdk feature network (in_run-ok proving (new_prover feature network) made))

pub when-IsReporter :
    (feature : Option Sdk) (flag : Bool) {reporter : Option Sdk}
    → when flag (new_reporter feature) ≡ ok reporter
    → IsReporter feature reporter
unfolding when new_reporter in_run
when-IsReporter feature false h = subst (IsReporter feature) (ok-injective h) tt
when-IsReporter none true h = absurd (cc h)
when-IsReporter (some sdk) true h = subst (IsReporter (some sdk)) (ok-injective h) refl
