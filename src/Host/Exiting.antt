-- ===== src/Host/Exiting.antt =====
-- The exit proofs that a fixture of crates/sp1-host/src/main.rs shows are always made.
use payment_rollup.Prelude.{
  ◌≡◌, refl, sym, ap, ◌∙◌, subst, inl, inr, Bool-cases, some, [], ◌∷◌, ok, >>=-eq-ok, ok-injective,
  map, List,
}
use payment_rollup.Bytes.{bytes_eq, bytes_eq_refl}
use payment_rollup.Crypto.{Primitives}
use payment_rollup.Account.{Address, Account, DeploymentDomain, ed25519, address_from_public_key}
use payment_rollup.Txn.{Deposit, Block, new_deposit}
use payment_rollup.Ledger.{
  Ledger, Accounts, Building, get, put, with_domain, insert_account, build_deposit, build_txn,
  build_loop, get_block,
}
use payment_rollup.Ledger.Sync.{IsSynced, get-put, with_domain-IsSynced}
use payment_rollup.Ledger.Mirror.{credit_parts}
use payment_rollup.Ledger.Placed.{deposit_parts}
use payment_rollup.Ledger.Verifies.{start, verify_block-get_block}
use payment_rollup.Falcon.{CLibrary}
use payment_rollup.Settlement.Settles.{names}
use payment_rollup.Scenarios.{
  Scenario, transactions, build, forced_exit, exit_deposit, exit_key_one, exit_key_two,
}
use payment_rollup.Scenarios.Settle.{transactions-Fine}
use payment_rollup.Scenarios.Keys.{Dalek}
use payment_rollup.Scenarios.Exits.{ExitProof, forced_exit_proofs, verify_proof-exit_proof}
use payment_rollup.Scenarios.Listing.{
  Entry, fixed, every_scheme_entry, falcon_load_entry, ed25519_load_entry, hundred, thousand,
  ten_thousand, name_of, submitted, from_failure, build_entry,
}
use payment_rollup.Host.Fixture.{exits_of, exit_text}
use payment_rollup.Host.Fresh.{from_failure-ok, from_panic-ok}

abbrev Holds : Accounts → Address → Type 0
Holds m a = (x : Account) × (get m a ≡ some x)

Holds-own : (m : Accounts) (a : Address) (x : Account) → Holds (put m a x) a
Holds-own m a x = (x, get-put m a a x ∙ rw (bytes_eq_refl a) refl)

Holds-put :
    (m : Accounts) (b : Address) (y : Account) (a : Address) → Holds m a → Holds (put m b y) a
Holds-put m b y a (x, h) = elim (Bool-cases (bytes_eq b a)) [
  | inl e ↦ (y, get-put m b a y ∙ rw e refl)
  | inr e ↦ (x, get-put m b a y ∙ rw e h)
]

module _ ⦃p : Primitives⦄ where
  -- A deposit leaves its receiver with an account, and takes none away.
  deposit-Holds :
      (t : Deposit) (b : Building) {b' : Building}
      → build_deposit t b ≡ ok b'
      → Holds b'.ledger.accounts t.receiver
        × ((a : Address) → Holds b.ledger.accounts a → Holds b'.ledger.accounts a)
  unfolding insert_account
  deposit-Holds t b h =
      let (w, l, credited, eb) = deposit_parts t b h in
      let (balance, added, ew, el) = credit_parts b.ledger t.receiver t.amount credited in
      let grown : _ ≡ l.accounts = ap (λ (z : Ledger). z.accounts) (sym el) in
      let same : l.accounts ≡ _ = ap (λ (z : Building). z.ledger.accounts) (sym eb) in
      (
        subst (λ m. Holds m t.receiver) (grown ∙ same) (Holds-own b.ledger.accounts t.receiver _),
        λ a held.
            subst (λ m. Holds m a) (grown ∙ same) (Holds-put b.ledger.accounts t.receiver _ a held),
      )

  forced_exit-Holds :
      (domain : DeploymentDomain) {block : Block} {l : Ledger}
      → build domain forced_exit ≡ ok (block, l)
      → IsSynced l
        × Holds l.accounts (address_from_public_key ed25519 exit_key_one)
        × Holds l.accounts (address_from_public_key ed25519 exit_key_two)
  unfolding build get_block build_loop build_txn forced_exit exit_deposit new_deposit transactions
  forced_exit-Holds domain {block} {l} h =
      let l₀ = with_domain domain in
      let (_, synced) =
        verify_block-get_block l₀ forced_exit (with_domain-IsSynced domain)
          (names forced_exit (transactions-Fine Scenario.forced_exit_entry).0) h in
      let one : Deposit = new_deposit (address_from_public_key ed25519 exit_key_one) 5_000_000 in
      let two : Deposit = new_deposit (address_from_public_key ed25519 exit_key_two) 3_000_000 in
      let (b, looped, done) = >>=-eq-ok (build_loop forced_exit (start l₀)) _ h in
      let (b₁, first, h₁) = >>=-eq-ok (build_deposit one (start l₀)) _ looped in
      let (b₂, second, h₂) = >>=-eq-ok (build_deposit two b₁) _ h₁ in
      let (held, _) = deposit-Holds one (start l₀) first in
      let (held₂, kept) = deposit-Holds two b₁ second in
      let last : b₂.ledger.accounts ≡ l.accounts =
        ap (λ (z : Building). z.ledger.accounts) (ok-injective h₂)
        ∙ ap (λ (q : Block × Ledger). q.1.accounts) (ok-injective done) in
      (
        synced,
        subst (λ m. Holds m one.receiver) last (kept one.receiver held),
        subst (λ m. Holds m two.receiver) last held₂,
      )

  forced_exit_proofs_made :
      (domain : DeploymentDomain) {block : Block} {l : Ledger}
      → build domain forced_exit ≡ ok (block, l)
      → (exits : List ExitProof) × (forced_exit_proofs domain ≡ ok exits)
  unfolding forced_exit_proofs
  forced_exit_proofs_made domain {block} {l} h =
      let (synced, (x, one), (y, two)) = forced_exit-Holds domain h in
      let (e, made, _, _) = verify_proof-exit_proof l exit_key_one synced one in
      let (e', made', _, _) = verify_proof-exit_proof l exit_key_two synced two in
      (e ∷ e' ∷ [], rw (forced_exit_proofs, h) (rw made (rw made')))

  -- When a scenario builds, its exit proofs are made.
  pub exits_of_made :
      (d : Dalek) (c : CLibrary) (entry : Entry) (domain : DeploymentDomain) {block : Block}
      {l : Ledger}
      → build_entry d c entry domain ≡ ok (block, l)
      → (exits : List ExitProof) × (exits_of entry domain ≡ ok exits)
  unfolding exits_of name_of bytes_eq build_entry submitted transactions
  exits_of_made d c (fixed Scenario.forced_exit_entry) domain h =
      let (ts, listed, h₁) =
        >>=-eq-ok (from_failure (submitted d c (fixed Scenario.forced_exit_entry) domain)) _ h in
      let same : forced_exit ≡ ts = ok-injective (from_failure-ok _ listed) in
      let (exits, made) =
        forced_exit_proofs_made domain
          (ap (build domain) same ∙ from_panic-ok (build domain ts) h₁) in
      (map exit_text exits, rw made refl)
  exits_of_made d c (fixed Scenario.genesis_empty_batch_entry) domain h = ([], refl)
  exits_of_made d c (fixed Scenario.deposits_only_entry) domain h = ([], refl)
  exits_of_made d c (fixed Scenario.payments_entry) domain h = ([], refl)
  exits_of_made d c (fixed Scenario.multi_chunk_entry) domain h = ([], refl)
  exits_of_made d c (fixed Scenario.withdrawals_entry) domain h = ([], refl)
  exits_of_made d c (fixed Scenario.duplicate_withdrawals_entry) domain h = ([], refl)
  exits_of_made d c (fixed Scenario.forced_inclusion_entry) domain h = ([], refl)
  exits_of_made d c (fixed Scenario.inbox_ordering_entry) domain h = ([], refl)
  exits_of_made d c (fixed Scenario.round_trip_entry) domain h = ([], refl)
  exits_of_made d c every_scheme_entry domain h = ([], refl)
  exits_of_made d c (falcon_load_entry hundred) domain h = ([], refl)
  exits_of_made d c (falcon_load_entry thousand) domain h = ([], refl)
  exits_of_made d c (falcon_load_entry ten_thousand) domain h = ([], refl)
  exits_of_made d c (ed25519_load_entry hundred) domain h = ([], refl)
  exits_of_made d c (ed25519_load_entry thousand) domain h = ([], refl)
  exits_of_made d c (ed25519_load_entry ten_thousand) domain h = ([], refl)
