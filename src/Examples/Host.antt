-- ===== src/Examples/Host.antt =====
-- The program of crates/sp1-host/src/main.rs, run over small signature schemes.
use payment_rollup.Prelude.{
  ◌*◌, ◌≡◌, refl, ap, subst, ◌∙◌, true, none, some, List, [], ◌∷◌, ◌++◌, map, Result, ok, err,
  ◌>>=◌, ok_or, ok-injective, >>=-eq-ok, length, All, if◌then◌else◌,
}
use payment_rollup.Bytes.{Bytes, ascii, bytes_eq}
use payment_rollup.Account.{zeros32, deployment_domain}
use payment_rollup.Scenarios.{Scenario}
use payment_rollup.Execute.{GuestPanic, guest}
use payment_rollup.Settlement.{Settlement, for_block}
use payment_rollup.Settlement.Settles.{settlement_of}
use payment_rollup.Settlement.Genesis.{IsFresh}
use payment_rollup.Scenarios.Listing.{Entry, fixed, all, find, find_among, name_of}
use mathlib.Core.Option.{some-injective}
use payment_rollup.Host.{Args, default_args, parse_args, parse_loop, word_of}
use payment_rollup.Host.Proving.{
  Sdk, IsSdk, NetworkProof, ExecutionReport, Groth16Prover, prove as prove_block, report, report_of,
  stdin_for, proof_fixture, not_groth16, has_key, new_prover, map_err,
}
use payment_rollup.Commit.Chunks.{join}
use payment_rollup.Host.Fixture.{Fixture, exits_of, fixture}
use payment_rollup.Host.Consistent.{fixture_consistent}
use payment_rollup.Host.Run.{
  report_with, prove_with, in_run, select, selected, when, emit, emit_all, run_with, Emitted,
  Artifact, finish, run, in_scenario,
}
use payment_rollup.Host.Fails.{RunCause}
use payment_rollup.Host.Failures.{run-RunCause}
use payment_rollup.Host.Emits.{asked, run_with-names}
use payment_rollup.Host.Agrees.{guest-for_block, prove_agrees}
use payment_rollup.Host.Fresh.{build_entry-IsFresh}
use payment_rollup.Examples.{is_ok, outcome}
use payment_rollup.Examples.Keys.{dalek, falcon, strict, dalek-IsDalek, falcon-IsFalcon}
use payment_rollup.Examples.Deposited.{made, block, block_starts}

fresh : (for_block block ≡ ok (settlement_of block)) × IsFresh (settlement_of block)
fresh =
    build_entry-IsFresh dalek falcon dalek-IsDalek falcon-IsFalcon
      (fixed Scenario.deposits_only_entry) (deployment_domain zeros32 0) made.1

build_entry-IsFresh_example :
    (for_block block ≡ ok (settlement_of block)) × IsFresh (settlement_of block)
build_entry-IsFresh_example =
    build_entry-IsFresh dalek falcon dalek-IsDalek falcon-IsFalcon
      (fixed Scenario.deposits_only_entry) (deployment_domain zeros32 0) made.1

-- An SDK that runs the guest here, and proves nothing.
abbrev as_message : Result GuestPanic Bytes → Result Bytes Bytes
as_message (ok values) = ok values
as_message (err e) = err []

abbrev replay : List Bytes → Result Bytes Bytes
replay (domain ∷ root ∷ anchor ∷ batch ∷ sidecar ∷ []) =
    as_message (guest domain root anchor batch sidecar)
replay _ = err []

abbrev attest : Bytes → NetworkProof
attest values = record { public_values = values; bytes = 1 ∷ 2 ∷ []; groth16 = none }

abbrev costs : ExecutionReport
costs = record { total_instruction_count = 12; gas = none; syscall_counts = [] }

abbrev local : Sdk
local = record {
  parse_mode = λ network. ok tt;
  private_key = some (ascii "key");
  setup = ok (ascii "0x00");
  request = λ stdin. replay stdin >>= λ values. ok (attest values);
  execute = λ stdin. replay stdin >>= λ values. ok (values, costs);
  groth16_verification_key = [];
  recursion_vkey_root = zeros32;
}

told : (r : Result GuestPanic Bytes) {values : Bytes} → as_message r ≡ ok values → r ≡ ok values
told (ok v) h = ap ok (ok-injective h)
told (err e) h = cc

replay-guest :
    (domain root anchor batch sidecar : Bytes) {values : Bytes}
    → replay (domain ∷ root ∷ anchor ∷ batch ∷ sidecar ∷ []) ≡ ok values
    → guest domain root anchor batch sidecar ≡ ok values
replay-guest domain root anchor batch sidecar h = told (guest domain root anchor batch sidecar) h

local-IsSdk : IsSdk local
local-IsSdk = record {
  requested = λ domain root anchor batch sidecar h.
      let (values, ran, done) =
        >>=-eq-ok (replay (domain ∷ root ∷ anchor ∷ batch ∷ sidecar ∷ [])) _ h in
      replay-guest domain root anchor batch sidecar ran
      ∙ ap (λ (proof : NetworkProof). ok proof.public_values) (ok-injective done);
  executed = λ domain root anchor batch sidecar h.
      let (values, ran, done) =
        >>=-eq-ok (replay (domain ∷ root ∷ anchor ∷ batch ∷ sidecar ∷ [])) _ h in
      replay-guest domain root anchor batch sidecar ran
      ∙ ap (λ (run : Bytes × ExecutionReport). ok run.0) (ok-injective done);
}

abbrev local_prover : Groth16Prover
local_prover = record { sdk = local; vkey = ascii "0x00" }

abbrev settlement : Settlement
settlement = settlement_of block

settled : for_block block ≡ ok settlement
settled = fresh.0

replayed : replay (stdin_for settlement) ≡ ok settlement.public_values
unfolding stdin_for
replayed =
    ap as_message
      (guest-for_block block settlement block_starts.0 block_starts.1 block_starts.2 settled)

prove_agrees_example :
    (prove_block local_prover settlement ≡ (do
      groth16 ← ok_or (attest settlement.public_values).groth16 not_groth16
      ok (proof_fixture (ascii "0x00") (1 ∷ 2 ∷ []) groth16)))
    × (report local settlement ≡ ok (report_of settlement costs))
prove_agrees_example =
    prove_agrees block settlement block_starts.0 block_starts.1 block_starts.2 settled local_prover
      (attest settlement.public_values) settlement.public_values costs local-IsSdk
      (ap (λ r. r >>= λ values. ok (attest values)) replayed)
      (ap (λ r. r >>= λ values. ok (values, costs)) replayed)

abbrev listed : Entry
listed = fixed Scenario.deposits_only_entry

shown_ok : is_ok (fixture listed settlement true none) ≡ true
unfolding fixture exits_of name_of bytes_eq
shown_ok = refl

abbrev shown : (r : Fixture) × (fixture listed settlement true none ≡ ok r)
shown = outcome (fixture listed settlement true none) shown_ok

fixture_consistent_example :
    (shown.0.public_values
      ≡ shown.0.old_root
        ++ (shown.0.new_root
            ++ (shown.0.batch_commitment
                ++ (shown.0.inbox_chain_from
                    ++ (shown.0.inbox_chain_to ++ shown.0.withdrawal_chain)))))
    × (join shown.0.chunks ≡ shown.0.batch)
    × (length shown.0.chunks ≡ shown.0.chunk_count)
    × (length shown.0.batch ≡ 2 * shown.0.batch_length)
fixture_consistent_example =
    fixture_consistent block listed true none block_starts.1 block_starts.2 settled shown.1

abbrev wanted : Args
wanted = record default_args {
  include_sidecar = true;
  genesis_hash = zeros32;
  names = ascii "deposits-only" ∷ [];
}

ran_ok : is_ok (run_with dalek falcon none wanted) ≡ true
unfolding run_with selected select find find_among all name_of bytes_eq when emit_all emit in_run
    report_with prove_with
ran_ok = rw (made.1, fresh.0, fresh.1.from_genesis, shown.1)

abbrev ran : (e : Emitted) × (run_with dalek falcon none wanted ≡ ok e)
ran = outcome (run_with dalek falcon none wanted) ran_ok

run_with-names_example :
    (map (λ (f : Fixture). f.name) ran.0.document.scenarios ≡ asked wanted.names)
    × All (λ (f : Fixture). f.settles_from_genesis ≡ true) ran.0.document.scenarios
    × (map (λ (a : Artifact). a.scenario) ran.0.artifacts
        ≡ (if wanted.prove then ran.0.document.scenarios else []))
run_with-names_example = run_with-names dalek falcon wanted none ran.1

-- The SDK that proves nothing is asked for a proof.
abbrev asking : List Bytes
asking = ascii "--prove" ∷ ascii "deposits-only" ∷ []

unproved : run dalek falcon (some local) asking ≡ err (in_scenario listed not_groth16)
unfolding run finish parse_args parse_loop word_of has_key new_prover map_err run_with selected
    select find find_among all name_of bytes_eq when emit_all emit in_run report_with prove_with
unproved = rw (made.1, fresh.0, fresh.1.from_genesis, prove_agrees_example.0)

run-RunCause_example : RunCause dalek falcon (some local) asking (in_scenario listed not_groth16)
run-RunCause_example =
    run-RunCause dalek falcon dalek-IsDalek falcon-IsFalcon (some local)
      (λ sdk same. subst IsSdk (some-injective local sdk same) local-IsSdk) asking unproved
