-- ===== src/Host/Fresh.antt =====
-- Every block that crates/sp1-host/src/scenarios.rs builds settles, and the guest agrees on it.
use payment_rollup.Prelude.{◌≡◌, refl, ap, ◌∙◌, Result, ok, err, >>=-eq-ok, ok-injective, length}
use payment_rollup.Crypto.{Primitives}
use payment_rollup.Account.{DeploymentDomain}
use payment_rollup.Merkle.Digests.{IsDigest}
use payment_rollup.Txn.{Block}
use payment_rollup.Ledger.{Ledger, Panic}
use payment_rollup.Falcon.{CLibrary, IsFalcon}
use payment_rollup.Settlement.{for_block}
use payment_rollup.Chains.{inbox_chain_genesis}
use payment_rollup.Ledger.{with_domain}
use payment_rollup.Ledger.Sync.{with_domain-IsSynced}
use payment_rollup.Ledger.Typed.{with_domain-IsTyped}
use payment_rollup.Ledger.Verifies.{get_block-starts}
use payment_rollup.Settlement.Settles.{settlement_of, names, get_block-IsBuilt}
use payment_rollup.Settlement.Genesis.{IsFresh, for_block-IsFresh}
use payment_rollup.Scenarios.{build}
use payment_rollup.Scenarios.Keys.{Dalek, IsDalek}
use payment_rollup.Scenarios.Listing.{Entry, from_failure, from_panic, submitted, build_entry}
use payment_rollup.Scenarios.Loads.{submitted-Fine}
use payment_rollup.Host.Proving.{Sdk, IsSdk, stdin_for}
use payment_rollup.Host.Agrees.{agreed}
use payment_rollup.Host.Fails.{Agreeing}

pub from_failure-ok : {A : Type 0} (r : Result _ A) {a : A} → from_failure r ≡ ok a → r ≡ ok a
unfolding from_failure
from_failure-ok (ok a) h = ap ok (ok-injective h)
from_failure-ok (err e) h = cc

pub from_panic-ok : {A : Type 0} (r : Result Panic A) {a : A} → from_panic r ≡ ok a → r ≡ ok a
unfolding from_panic
from_panic-ok (ok a) h = ap ok (ok-injective h)
from_panic-ok (err e) h = cc

module _ ⦃p : Primitives⦄ (d : Dalek) (c : CLibrary) (i : IsDalek d) (f : IsFalcon c) where
  -- Over signing libraries that do what they document, every block that a scenario builds, of those
  -- by name only too, settles, and a fresh contract accepts the settlement.
  pub build_entry-IsFresh :
      (entry : Entry) (domain : DeploymentDomain) {block : Block} {l : Ledger}
      → build_entry d c entry domain ≡ ok (block, l)
      → (for_block block ≡ ok (settlement_of block)) × IsFresh (settlement_of block)
  unfolding build_entry build
  build_entry-IsFresh entry domain h =
      let (ts, listed, h₁) = >>=-eq-ok (from_failure (submitted d c entry domain)) _ h in
      let (fine, small) =
        submitted-Fine d c i f entry domain (from_failure-ok (submitted d c entry domain) listed) in
      for_block-IsFresh domain ts fine small (from_panic-ok (build domain ts) h₁)

  -- A block is of the deployment that it is built for.
  pub built_domain :
      (entry : Entry) (domain : DeploymentDomain) {block : Block} {l : Ledger}
      → build_entry d c entry domain ≡ ok (block, l)
      → block.domain ≡ domain
  unfolding build_entry build
  built_domain entry domain h =
      let (ts, listed, h₁) = >>=-eq-ok (from_failure (submitted d c entry domain)) _ h in
      let (fine, small) =
        submitted-Fine d c i f entry domain (from_failure-ok (submitted d c entry domain) listed) in
      let l₀ = with_domain domain in
      let (same_domain, _, _) =
        get_block-starts l₀ ts (names ts fine) (with_domain-IsSynced domain)
          (from_panic-ok (build domain ts) h₁) in
      let kept : l₀.domain ≡ domain = unfold with_domain in refl in same_domain ∙ kept

  pub built_agrees :
      (entry : Entry) (domain : DeploymentDomain) {block : Block} {l : Ledger}
      → IsDigest domain
      → build_entry d c entry domain ≡ ok (block, l)
      → (sdk : Sdk) → IsSdk sdk
      → Agreeing sdk (settlement_of block)
  unfolding build_entry build stdin_for
  built_agrees entry domain {block} fits h sdk runs =
      let (ts, listed, h₁) = >>=-eq-ok (from_failure (submitted d c entry domain)) _ h in
      let (fine, small) =
        submitted-Fine d c i f entry domain (from_failure-ok (submitted d c entry domain) listed) in
      let l₀ = with_domain domain in
      let made = from_panic-ok (build domain ts) h₁ in
      let genesis : IsDigest l₀.inbox_chain = unfold with_domain inbox_chain_genesis in refl in
      let b = get_block-IsBuilt l₀ ts (with_domain-IsTyped domain) fine genesis small made in
      let dom : IsDigest block.domain = ap length (built_domain entry domain h) ∙ fits in
      let (settled, _) = build_entry-IsFresh entry domain h in
      let s = settlement_of block in
      (
        λ proof got. agreed block s dom b.root_fits b.inbox_fits settled (
            runs.requested s.domain s.old_root s.old_inbox_chain s.batch_bytes s.sidecar_bytes got),
        λ values costs got.
            agreed block s dom b.root_fits b.inbox_fits settled (
              runs.executed s.domain s.old_root s.old_inbox_chain s.batch_bytes s.sidecar_bytes
                got),
      )
