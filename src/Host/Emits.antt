-- ===== src/Host/Emits.antt =====
-- What a run of crates/sp1-host/src/main.rs that succeeds leaves.
use payment_rollup.Prelude.{
  ◌≡◌, refl, sym, ap, ◌∙◌, subst, Bool, true, false, not, ◌&&◌, ◌==◌, if◌then◌else◌, Option, none,
  some, List, [], ◌∷◌, map, Result, ok, >>=-eq-ok, ok-injective, guard, guard-ok, ok_or, ok_or-ok,
  length, All,
}
use payment_rollup.Bytes.{Bytes}
use payment_rollup.Crypto.{Primitives}
use payment_rollup.Account.{deployment_domain}
use payment_rollup.Falcon.{CLibrary}
use payment_rollup.Settlement.{Settlement, for_block, settles_from_genesis, hex}
use payment_rollup.Scenarios.Keys.{Dalek}
use payment_rollup.Scenarios.Listing.{Entry, all, name_of, find, find_iff, build_entry}
use payment_rollup.Host.{Args}
use payment_rollup.Host.Proving.{
  Sdk, ProofFixture, Groth16Prover, ProvingError, new_prover, new_reporter,
}
use payment_rollup.Host.Fixture.{Fixture, exits_of, fixture}
use payment_rollup.Host.Run.{
  building, settling, not_from_genesis, exiting, unnamed_proofs, no_scenario, proving, in_run,
  Artifact, Part, Emitted, select, selected, when, report_with, prove_with, keep, artifacts_of,
  artifact_of, deployment_of, gather, emit, emit_all, run_with,
}
use payment_rollup.Host.Fails.{in_run-ok}

-- The names of the scenarios that some names ask for: themselves, or those of every scenario that is
-- not too expensive to run by accident.
abbrev pub asked : List Bytes → List Bytes
asked [] = map name_of all
asked (n ∷ ns) = n ∷ ns

select-names : (ns : List Bytes) {es : List Entry} → select ns ≡ ok es → map name_of es ≡ ns
unfolding select
select-names [] h = subst (λ es. map name_of es ≡ []) (ok-injective h) refl
select-names (n ∷ ns) h =
    let (e, found, h₁) = >>=-eq-ok (ok_or (find n) (no_scenario n)) _ h in
    let (es, more, h₂) = >>=-eq-ok (select ns) _ h₁ in
    let same : name_of e ≡ n = (find_iff n e).0 (ok_or-ok (find n) _ found) in
    let ih = select-names ns more in
    subst (λ xs. map name_of xs ≡ n ∷ ns) (ok-injective h₂) (λ i. same i ∷ ih i)

selected-names :
    (ns : List Bytes) {es : List Entry} → selected ns ≡ ok es → map name_of es ≡ asked ns
unfolding selected
selected-names [] h = sym (ap (map name_of) (ok-injective h))
selected-names (n ∷ ns) h = select-names (n ∷ ns) h

-- One part of a document, made for an entry, and proved if there is a prover.
record IsPart (entry : Entry) (proved : Bool) (part : Part) : Type 0 where
  pub named : part.scenario.name ≡ name_of entry
  pub fresh : part.scenario.settles_from_genesis ≡ true
  pub kept :
      (rest : List Artifact)
      → map (λ (a : Artifact). a.scenario) (keep part.artifact rest) ≡ (
          if proved
          then part.scenario ∷ map (λ (a : Artifact). a.scenario) rest
          else map (λ (a : Artifact). a.scenario) rest)

abbrev is_some : {A : Type 0} → Option A → Bool
is_some none = false
is_some (some a) = true

artifact_kept :
    ⦃p : Primitives⦄ (prover : Option Groth16Prover) (args : Args) (shown : Fixture)
    (rest : List Artifact)
    → map
        (λ (a : Artifact). a.scenario)
        (keep (artifact_of prover args (deployment_of args) shown) rest)
      ≡ (if is_some prover
          then shown ∷ map (λ (a : Artifact). a.scenario) rest
          else map (λ (a : Artifact). a.scenario) rest)
unfolding keep artifact_of
artifact_kept none args shown rest = refl
artifact_kept (some prover) args shown rest = refl

chosen_nil : (proved : Bool) → ◌≡◌ {A = List Fixture} [] (if proved then [] else [])
chosen_nil true = refl
chosen_nil false = refl

chosen_cons :
    (proved : Bool) (f : Fixture) (xs shown : List Fixture)
    → xs ≡ (if proved then shown else [])
    → (if proved then f ∷ xs else xs) ≡ (if proved then f ∷ shown else [])
chosen_cons true f xs shown h = ap (λ ys. f ∷ ys) h
chosen_cons false f xs shown h = h

when-is_some :
    {A : Type 0} (flag : Bool) (made : Result ProvingError A) {o : Option A}
    → when flag made ≡ ok o
    → is_some o ≡ flag
unfolding when
when-is_some false made h = subst (λ o. is_some o ≡ false) (ok-injective h) refl
when-is_some true made h =
    let (a, _, done) = >>=-eq-ok (in_run proving made) _ h in
    subst (λ o. is_some o ≡ true) (ok-injective done) refl

module _ ⦃p : Primitives⦄ where
  -- What a fixture repeats.
  fixture_repeats :
      (entry : Entry) (s : Settlement) (sidecar : Bool) (proof : Option ProofFixture)
      {shown : Fixture}
      → fixture entry s sidecar proof ≡ ok shown
      → (shown.name ≡ name_of entry) × (shown.settles_from_genesis ≡ settles_from_genesis s)
  unfolding fixture
  fixture_repeats entry s sidecar proof h =
      let (exits, _, done) = >>=-eq-ok (exits_of entry s.domain) _ h in
      subst
        (λ (z : Fixture).
          (z.name ≡ name_of entry) × (z.settles_from_genesis ≡ settles_from_genesis s))
        (ok-injective done) (refl, refl)

module _ ⦃p : Primitives⦄ (d : Dalek) (c : CLibrary) (args : Args) where
  emit-IsPart :
      (prover : Option Groth16Prover) (reporter : Option Sdk) (entry : Entry) {part : Part}
      → emit d c args prover reporter entry ≡ ok part
      → IsPart entry (is_some prover) part
  unfolding emit
  emit-IsPart prover reporter entry h =
      let domain = deployment_domain args.genesis_hash args.app_id in
      let ((block, l), _, h₁) =
        >>=-eq-ok (in_run (building entry) (build_entry d c entry domain)) _ h in
      let (s, _, h₂) = >>=-eq-ok (in_run (settling entry) (for_block block)) _ h₁ in
      let (_, starts, h₃) =
        >>=-eq-ok (guard (settles_from_genesis s) (not_from_genesis entry (hex s.old_root))) _ h₂ in
      let (reported, _, h₄) = >>=-eq-ok (report_with entry reporter s) _ h₃ in
      let (proof, _, h₅) = >>=-eq-ok (prove_with entry prover s) _ h₄ in
      let (shown, printed, h₆) =
        >>=-eq-ok (in_run exiting (fixture entry s args.include_sidecar proof)) _ h₅ in
      let (name, fresh) =
        fixture_repeats entry s args.include_sidecar proof
          (in_run-ok exiting (fixture entry s args.include_sidecar proof) printed) in
      subst (IsPart entry (is_some prover)) (ok-injective h₆) (record {
        named = name;
        fresh = fresh ∙ guard-ok _ _ starts;
        kept = artifact_kept prover args shown;
      })

  -- What is told of the parts of a document.
  abbrev Told : List Entry → Bool → List Part → Type 0
  Told entries proved parts =
      let shown = map (λ (part : Part). part.scenario) parts in
      (map (λ (f : Fixture). f.name) shown ≡ map name_of entries)
      × All (λ (f : Fixture). f.settles_from_genesis ≡ true) shown
      × (map (λ (a : Artifact). a.scenario) (artifacts_of parts) ≡ (if proved then shown else []))

  emit_all-Told :
      (prover : Option Groth16Prover) (reporter : Option Sdk) (entries : List Entry)
      {parts : List Part}
      → emit_all d c args prover reporter entries ≡ ok parts
      → Told entries (is_some prover) parts
  unfolding emit_all artifacts_of
  emit_all-Told prover reporter [] h =
      subst (Told [] (is_some prover)) (ok-injective h) (refl, tt, chosen_nil (is_some prover))
  emit_all-Told prover reporter (entry ∷ entries) h =
      let (part, one, h₁) = >>=-eq-ok (emit d c args prover reporter entry) _ h in
      let (parts, more, h₂) = >>=-eq-ok (emit_all d c args prover reporter entries) _ h₁ in
      let x = emit-IsPart prover reporter entry one in
      let (names, fresh, kept) = emit_all-Told prover reporter entries more in
      subst (Told (entry ∷ entries) (is_some prover)) (ok-injective h₂) (
        (λ i. x.named i ∷ names i),
        (x.fresh, fresh),
        x.kept (artifacts_of parts) ∙ chosen_cons (is_some prover) part.scenario _ _ kept,
      )

  -- A run that succeeds emits the scenarios that were named, in the order they were named, or all of
  -- `all` in its order when none were; each settles from genesis; and with `--prove`, but not without,
  -- it writes a file for each of them, that holds the same fixture.
  pub run_with-names :
      (feature : Option Sdk) {emitted : Emitted}
      → run_with d c feature args ≡ ok emitted
      → (map (λ (f : Fixture). f.name) emitted.document.scenarios ≡ asked args.names)
        × All (λ (f : Fixture). f.settles_from_genesis ≡ true) emitted.document.scenarios
        × (map (λ (a : Artifact). a.scenario) emitted.artifacts
            ≡ (if args.prove then emitted.document.scenarios else []))
  unfolding run_with gather
  run_with-names feature h =
      let (_, _, h₁) =
        >>=-eq-ok (guard (not (args.prove && (length args.names == 0))) unnamed_proofs) _ h in
      let (entries, chosen, h₂) = >>=-eq-ok (selected args.names) _ h₁ in
      let (prover, made, h₃) = >>=-eq-ok (when args.prove (new_prover feature args.network)) _ h₂ in
      let (reporter, _, h₄) = >>=-eq-ok (when args.report (new_reporter feature)) _ h₃ in
      let (parts, all_made, done) = >>=-eq-ok (emit_all d c args prover reporter entries) _ h₄ in
      let (names, fresh, kept) = emit_all-Told prover reporter entries all_made in
      let shown = map (λ (part : Part). part.scenario) parts in
      let proved = when-is_some args.prove (new_prover feature args.network) made in
      subst
        (λ (e : Emitted).
          (map (λ (f : Fixture). f.name) e.document.scenarios ≡ asked args.names)
          × All (λ (f : Fixture). f.settles_from_genesis ≡ true) e.document.scenarios
          × (map (λ (a : Artifact). a.scenario) e.artifacts
              ≡ (if args.prove then e.document.scenarios else [])))
        (ok-injective done)
        (
          names ∙ selected-names args.names chosen,
          fresh,
          kept ∙ ap (λ (b : Bool). if b then shown else []) proved,
        )
