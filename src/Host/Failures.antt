-- ===== src/Host/Failures.antt =====
-- Why a run of crates/sp1-host/src/main.rs fails.
use payment_rollup.Prelude.{
  ◌≡◌, refl, sym, ap, ◌∙◌, subst, inl, inr, Bool, true, false, Bool-cases, not, ◌&&◌, ◌==◌, List,
  [], ◌∷◌, ◌++◌, append_assoc, Option, none, some, Result, ok, err, guard, ok_or, length, Fails,
  Fails-bind, Fails-imp, ==_cases, Result-cases, err-injective, >>=-eq-err,
}
use payment_rollup.Bytes.{Bytes}
use payment_rollup.Crypto.{Primitives}
use payment_rollup.Account.{deployment_domain}
use payment_rollup.Falcon.{CLibrary, IsFalcon}
use payment_rollup.Settlement.{Settlement}
use payment_rollup.Settlement.Settles.{settlement_of}
use payment_rollup.Scenarios.Keys.{Dalek, IsDalek}
use payment_rollup.Scenarios.Exits.{ExitProof}
use payment_rollup.Scenarios.Listing.{Entry, find, build_entry}
use payment_rollup.Host.{Args, parse_args}
use payment_rollup.Host.Proving.{
  Sdk, IsSdk, Groth16Prover, ProvingError, ProofFixture, new_prover, new_reporter, prove, report,
}
use payment_rollup.Host.Fixture.{fixture, exits_of}
use payment_rollup.Host.Run.{
  RunError, unnamed_proofs, refusing_arguments, no_scenario, proving, in_scenario, building,
  exiting, settling, not_from_genesis, in_run, select, selected, when, report_with, prove_with,
  emit, emit_all, run_with, finish, run,
}
use payment_rollup.Host.Fails.{
  in_run-ok, Fails-in_run, Fails-self, Unproved, Cause, RunCause, IsProver, IsReporter, Agreeing,
  prove-Fails, report-Fails, new_prover-Fails, new_reporter-Fails, when-IsProver, when-IsReporter,
}
use payment_rollup.Host.Fresh.{build_entry-IsFresh, built_agrees, built_domain}
use payment_rollup.Host.Exiting.{exits_of_made}

when-Fails {ℓ} :
    {A : Type ℓ} (P : RunError → Type 0) (flag : Bool) (made : Result ProvingError A)
    → Fails (λ e. P (proving e)) made
    → Fails P (when flag made)
unfolding when
when-Fails P false made h = tt
when-Fails P true made h =
    Fails-bind P (in_run proving made) _ (Fails-in_run P proving made h) (λ a _. tt)

fixture-Fails :
    ⦃p : Primitives⦄ (P : RunError → Type 0) (entry : Entry) (s : Settlement)
    (include_sidecar : Bool) (proof : Option ProofFixture) {exits : List ExitProof}
    → exits_of entry s.domain ≡ ok exits
    → Fails P (in_run exiting (fixture entry s include_sidecar proof))
unfolding fixture in_run
fixture-Fails P entry s include_sidecar proof made = rw made tt

module _ ⦃p : Primitives⦄ (d : Dalek) (c : CLibrary) (feature : Option Sdk) where
  found-Fails :
      (args : Args) (before : List Bytes) (n : Bytes) (after : List Bytes) (o : Option Entry)
      → args.names ≡ before ++ n ∷ after
      → find n ≡ o
      → Fails (Cause d c feature args) (ok_or o (no_scenario n))
  found-Fails args before n after none split missing = (before, after, split, missing)
  found-Fails args before n after (some e) split found = tt

  select-Fails :
      (args : Args) (before ns : List Bytes)
      → args.names ≡ before ++ ns
      → Fails (Cause d c feature args) (select ns)
  unfolding select
  select-Fails args before [] split = tt
  select-Fails args before (n ∷ ns) split =
      Fails-bind (Cause d c feature args) (ok_or (find n) (no_scenario n)) _
        (found-Fails args before n ns (find n) split refl)
        (λ entry _.
          Fails-bind (Cause d c feature args) (select ns) _
            (select-Fails args (before ++ n ∷ []) ns
              (split ∙ sym (append_assoc before (n ∷ []) ns)))
            (λ entries _. tt))

  selected-Fails :
      (args : Args) (ns : List Bytes)
      → args.names ≡ ns
      → Fails (Cause d c feature args) (selected ns)
  unfolding selected
  selected-Fails args [] same = tt
  selected-Fails args (n ∷ ns) same = select-Fails args [] (n ∷ ns) same

  RunCause-Cause :
      (texts : List Bytes) (args : Args) (e : RunError)
      → parse_args texts ≡ ok (some args)
      → Cause d c feature args e
      → RunCause d c feature texts e
  RunCause-Cause texts args (refusing_arguments e) parsed cause = absurd cause
  RunCause-Cause texts args unnamed_proofs parsed cause = (args, parsed, cause)
  RunCause-Cause texts args (no_scenario n) parsed cause = (args, parsed, cause)
  RunCause-Cause texts args (building entry panic) parsed cause = (args, parsed, cause)
  RunCause-Cause texts args (settling entry e) parsed cause = (args, parsed, cause)
  RunCause-Cause texts args (not_from_genesis entry root) parsed cause = (args, parsed, cause)
  RunCause-Cause texts args (proving e) parsed cause = (args, parsed, cause)
  RunCause-Cause texts args (in_scenario entry e) parsed cause = (args, parsed, cause)
  RunCause-Cause texts args (exiting stop) parsed cause = (args, parsed, cause)

  unnamed-Fails :
      (args : Args)
      → Fails
          (Cause d c feature args)
          (guard (not (args.prove && (length args.names == 0))) unnamed_proofs)
  unnamed-Fails args = elim (Bool-cases args.prove) [
    | inr e ↦ rw e tt
    | inl e ↦ elim (==_cases (length args.names) 0) [
      | inl (empty, test) ↦ rw (e, test) (refl, empty)
      | inr (full, test) ↦ rw (e, test) tt
    ]
  ]

module _ (feature : Option Sdk) (entry : Entry) where
  report_with-Fails :
      ⦃p : Primitives⦄ (reporter : Option Sdk) (s : Settlement) (P : RunError → Type 0)
      → ((e : ProvingError) → Unproved feature s e → P (in_scenario entry e))
      → ((sdk : Sdk) → IsSdk sdk → Agreeing sdk s)
      → ((sdk : Sdk) → feature ≡ some sdk → IsSdk sdk)
      → IsReporter feature reporter
      → Fails P (report_with entry reporter s)
  unfolding report_with
  report_with-Fails none s P lift agrees runs reports = tt
  report_with-Fails (some sdk) s P lift agrees runs same =
      Fails-bind P (in_run (in_scenario entry) (report sdk s)) _
        (Fails-in_run P (in_scenario entry) (report sdk s) (
          Fails-imp lift (report sdk s)
            (report-Fails feature sdk s same (agrees sdk (runs sdk same)))))
        (λ shown _. tt)

  prove_with-Fails :
      ⦃p : Primitives⦄ (prover : Option Groth16Prover) (s : Settlement) (P : RunError → Type 0)
      → ((e : ProvingError) → Unproved feature s e → P (in_scenario entry e))
      → ((sdk : Sdk) → IsSdk sdk → Agreeing sdk s)
      → ((sdk : Sdk) → feature ≡ some sdk → IsSdk sdk)
      → IsProver feature prover
      → Fails P (prove_with entry prover s)
  unfolding prove_with
  prove_with-Fails none s P lift agrees runs proves = tt
  prove_with-Fails (some prover) s P lift agrees runs same =
      Fails-bind P (in_run (in_scenario entry) (prove prover s)) _
        (Fails-in_run P (in_scenario entry) (prove prover s) (
          Fails-imp lift (prove prover s)
            (prove-Fails feature prover s same (agrees prover.sdk (runs prover.sdk same)))))
        (λ proof _. tt)

module _ ⦃p : Primitives⦄ (d : Dalek) (c : CLibrary) (i : IsDalek d) (f : IsFalcon c)
    (feature : Option Sdk) (runs : (sdk : Sdk) → feature ≡ some sdk → IsSdk sdk) where
  emit-Fails :
      (args : Args) (prover : Option Groth16Prover) (reporter : Option Sdk) (entry : Entry)
      → IsProver feature prover
      → IsReporter feature reporter
      → Fails (Cause d c feature args) (emit d c args prover reporter entry)
  unfolding emit in_run deployment_domain
  emit-Fails args prover reporter entry proves reports =
      let P = Cause d c feature args in
      let domain = deployment_domain args.genesis_hash args.app_id in
      let building_fails = Fails-self (build_entry d c entry domain) in
      Fails-bind P (in_run (building entry) (build_entry d c entry domain)) _
        (Fails-in_run P (building entry) (build_entry d c entry domain) building_fails)
        (λ built h.
          let made = in_run-ok (building entry) (build_entry d c entry domain) h in
          let (settles, fresh) = build_entry-IsFresh d c i f entry domain made in
          let s = settlement_of built.0 in
          let agrees = built_agrees d c i f entry domain (p.digest_shape _).0 made in
          let (exits, shows) = exits_of_made d c entry domain made in
          let shown : exits_of entry s.domain ≡ ok exits =
            ap (exits_of entry) (built_domain d c i f entry domain made) ∙ shows in
          let lift : (e : ProvingError) → Unproved feature s e → P (in_scenario entry e) =
            λ e cause. (built.0, built.1, made, cause) in
          rw (settles, fresh.from_genesis)
            (Fails-bind P (report_with entry reporter s) _
              (report_with-Fails feature entry reporter s P lift agrees runs reports)
              (λ reported _.
                Fails-bind P (prove_with entry prover s) _
                  (prove_with-Fails feature entry prover s P lift agrees runs proves)
                  (λ proof _.
                    Fails-bind P (in_run exiting (fixture entry s args.include_sidecar proof)) _
                      (fixture-Fails P entry s args.include_sidecar proof shown)
                      (λ result _. tt)))))

  emit_all-Fails :
      (args : Args) (prover : Option Groth16Prover) (reporter : Option Sdk) (entries : List Entry)
      → IsProver feature prover
      → IsReporter feature reporter
      → Fails (Cause d c feature args) (emit_all d c args prover reporter entries)
  unfolding emit_all
  emit_all-Fails args prover reporter [] proves reports = tt
  emit_all-Fails args prover reporter (entry ∷ entries) proves reports =
      let P = Cause d c feature args in
      Fails-bind P (emit d c args prover reporter entry) _
        (emit-Fails args prover reporter entry proves reports)
        (λ part _.
          Fails-bind P (emit_all d c args prover reporter entries) _
            (emit_all-Fails args prover reporter entries proves reports) (λ parts _. tt))

  run_with-Fails : (args : Args) → Fails (Cause d c feature args) (run_with d c feature args)
  unfolding run_with
  run_with-Fails args =
      let P = Cause d c feature args in
      Fails-bind P (guard (not (args.prove && (length args.names == 0))) unnamed_proofs) _
        (unnamed-Fails d c feature args)
        (λ _ _.
          Fails-bind P (selected args.names) _ (selected-Fails d c feature args args.names refl)
            (λ entries _.
              Fails-bind P (when args.prove (new_prover feature args.network)) _
                (when-Fails P args.prove (new_prover feature args.network)
                  (new_prover-Fails feature args.network))
                (λ prover proves.
                  Fails-bind P (when args.report (new_reporter feature)) _
                    (when-Fails P args.report (new_reporter feature)
                      (new_reporter-Fails feature args.network))
                    (λ reporter reports.
                      Fails-bind P (emit_all d c args prover reporter entries) _
                        (emit_all-Fails args prover reporter entries
                          (when-IsProver feature args.prove args.network proves)
                          (when-IsReporter feature args.report reports))
                        (λ parts _. tt)))))

  -- Over signing libraries that do what they document, and an SDK, if the build has one, that runs
  -- the guest on the slices that are written for it, every error of a run has one of these causes:
  -- the command line is refused; proofs are asked for and no scenario is named; a name is no
  -- scenario's; a scenario's block is not built, for a panic of its own, of a signing library or
  -- of the ledger; the build has no SDK, or it knows no such network, there is no private key, or
  -- its setup fails; or the SDK fails to prove or to run the guest on the settlement of a block
  -- that was built, or returns a proof that is no Groth16 proof. So once a block is built it
  -- settles, from genesis, what the guest commits to is what the native replay did, and the exit
  -- proofs are made.
  pub run-RunCause :
      (texts : List Bytes) {e : RunError}
      → run d c feature texts ≡ err e
      → RunCause d c feature texts e
  unfolding run finish in_run
  run-RunCause texts {e} h = elim (Result-cases (parse_args texts)) [
    | inr (a, refused) ↦
        subst (RunCause d c feature texts) (err-injective (rw refused at h)) refused
    | inl (none, over) ↦ absurd (cc (rw over at h))
    | inl (some args, parsed) ↦ elim (>>=-eq-err (run_with d c feature args) _ (rw parsed at h)) [
      | inl failed ↦
          RunCause-Cause d c feature texts args e parsed
            (subst (Fails (Cause d c feature args)) failed (run_with-Fails args))
      | inr (emitted, _, done) ↦ absurd (cc done)
    ]
  ]
