-- ===== src/Host/Fixture.antt =====
-- One scenario as the tests of the contract read it (crates/sp1-host/src/main.rs, `fixture`): the
-- fields of the JSON object, a byte string as the text that `hex` prints of it.
use payment_rollup.Prelude.{
  ℕ, Bool, if◌then◌else◌, Option, none, some, List, [], map, Result, ok, ◌>>=◌, length,
}
use payment_rollup.Bytes.{Bytes, ascii, bytes_eq}
use payment_rollup.Crypto.{Primitives}
use payment_rollup.Account.{DeploymentDomain}
use payment_rollup.Chains.{WithdrawalLink}
use payment_rollup.Settlement.{
  InboxItem, Settlement, settled_commitment, batch_length, settled_chunks, settled_chunk_count,
  settles_from_genesis, hex, links,
}
use payment_rollup.Scenarios.Exits.{ExitProof, Stop, forced_exit_proofs}
use payment_rollup.Scenarios.Listing.{Entry, name_of, description_of}
use payment_rollup.Host.Proving.{ProofFixture}

-- The two keys of a fixture that only a proved scenario has, `proof` and `groth16`.
pub record ProofText : Type 0 where
  pub proof : Bytes
  pub public_inputs : List Bytes
  pub encoded_proof : Bytes
  pub verifier_hash : Bytes
  pub vkey : Bytes

pub record Fixture : Type 0 where
  pub name : Bytes
  pub description : Bytes
  pub txn_count : ℕ
  pub public_values : Bytes
  pub old_root : Bytes
  pub new_root : Bytes
  pub batch_commitment : Bytes
  pub deployment_domain : Bytes
  pub inbox_chain_from : Bytes
  pub inbox_chain_to : Bytes
  pub withdrawal_chain : Bytes
  pub requests : List (Bytes × Bytes)
  pub deposits : List (Bytes × ℕ)
  pub inbox : List InboxItem
  pub withdrawals : List WithdrawalLink
  pub exits : List ExitProof
  pub batch_length : ℕ
  pub chunk_count : ℕ
  pub chunks : List Bytes
  pub batch : Bytes
  pub settles_from_genesis : Bool
  pub sidecar_length : ℕ
  pub sidecar : Option Bytes
  pub proof : Option ProofText

unfoldable pub inbox_text : InboxItem → InboxItem
inbox_text (InboxItem.deposit recipient amount) = InboxItem.deposit (hex recipient) amount
inbox_text (InboxItem.forced_withdrawal address recipient) =
    InboxItem.forced_withdrawal (hex address) (hex recipient)

unfoldable pub link_text : WithdrawalLink → WithdrawalLink
link_text link = record {
  recipient = hex link.recipient;
  amount = link.amount;
  tail = hex link.tail;
}

unfoldable pub exit_text : ExitProof → ExitProof
exit_text exit = record {
  address = hex exit.address;
  pub_key = hex exit.pub_key;
  nonce = exit.nonce;
  amount = exit.amount;
  auth_address = hex exit.auth_address;
  siblings = map hex exit.siblings;
}

unfoldable pub proof_text : ProofFixture → ProofText
proof_text proof = record {
  proof = hex proof.bytes;
  public_inputs = proof.public_inputs;
  encoded_proof = proof.encoded_proof;
  verifier_hash = hex proof.verifier_hash;
  vkey = proof.vkey;
}

unfoldable pub map_option : {A B : Type 0} → (A → B) → Option A → Option B
map_option f none = none
map_option f (some a) = some (f a)

module _ ⦃p : Primitives⦄ where
  -- The exits of a scenario: of the one that is built for them.
  unfoldable pub exits_of : Entry → DeploymentDomain → Result Stop (List ExitProof)
  exits_of entry domain =
      if bytes_eq (name_of entry) (ascii "forced-exit")
      then (do exits ← forced_exit_proofs domain; ok (map exit_text exits))
      else ok []

  unfoldable pub fixture : Entry → Settlement → Bool → Option ProofFixture → Result Stop Fixture
  fixture entry settlement include_sidecar proof = do
    exits ← exits_of entry settlement.domain
    ok (record {
      name = name_of entry;
      description = description_of entry;
      txn_count = settlement.txn_count;
      public_values = hex settlement.public_values;
      old_root = hex settlement.old_root;
      new_root = hex settlement.new_root;
      batch_commitment = hex (settled_commitment settlement);
      deployment_domain = hex settlement.domain;
      inbox_chain_from = hex settlement.old_inbox_chain;
      inbox_chain_to = hex settlement.new_inbox_chain;
      withdrawal_chain = hex settlement.withdrawal_chain;
      requests = map (λ (r : Bytes × Bytes). (hex r.0, hex r.1)) settlement.requests;
      deposits = map (λ (d : Bytes × ℕ). (hex d.0, d.1)) settlement.deposits;
      inbox = map inbox_text settlement.inbox;
      withdrawals = map link_text (links settlement);
      exits = exits;
      batch_length = batch_length settlement;
      chunk_count = settled_chunk_count settlement;
      chunks = map hex (settled_chunks settlement);
      batch = hex settlement.batch_bytes;
      settles_from_genesis = settles_from_genesis settlement;
      sidecar_length = length settlement.sidecar_bytes;
      sidecar = if include_sidecar then some (hex settlement.sidecar_bytes) else none;
      proof = map_option proof_text proof;
    })
