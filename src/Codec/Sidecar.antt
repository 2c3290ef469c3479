-- ===== src/Codec/Sidecar.antt =====
-- `Sidecar::encode` and `Sidecar::decode` of crates/payment-rollup/src/codec.rs.
pub mod Fields
pub mod RoundTrip
use payment_rollup.Prelude.{
  ℕ, zero, suc, Option, none, some, List, [], ◌∷◌, ◌++◌, not, leb, ◌==◌, if◌then◌else◌, Result, ok,
  err, ok_or, guard, ◌>>=◌, ◌>>◌, length,
}
use payment_rollup.Bytes.{Bytes}
use payment_rollup.Account
use payment_rollup.Account.{Account, Digest, scheme_size, identifier, from_identifier}
use payment_rollup.Merkle.Path.{depth_limit}
use payment_rollup.Merkle.Tree.{Slot, own, neighbor}
use payment_rollup.Txn.{
  Transaction, Signature, LeafWitness, PaymentSidecar, WithdrawalSidecar, TxnSidecar, Batch,
  Sidecar,
}
use payment_rollup.Codec.Reader.{
  DecodeError, unknown_scheme, unknown_slot_kind, unknown_presence_tag, proof_too_deep,
  sidecar_length_mismatch, Read, put_varint, put_bytes, take_bytes, read_bytes, byte, account,
  expect_version, count, finish,
}

abbrev pub sidecar_version : ℕ
sidecar_version = 1

abbrev pub absent : ℕ
absent = 0

abbrev pub present : ℕ
present = 1

abbrev pub slot_own : ℕ
slot_own = 0

abbrev pub slot_neighbor : ℕ
slot_neighbor = 1

abbrev pub min_encoded_entry_size : ℕ
min_encoded_entry_size = 3

unfoldable pub put_optional_account : Option Account → Bytes
put_optional_account none = absent ∷ []
put_optional_account (some a) = present ∷ Account.encode a

unfoldable pub put_siblings : List Digest → Bytes
put_siblings [] = []
put_siblings (s ∷ ss) = s ++ put_siblings ss

unfoldable pub put_slot : Slot → Bytes
put_slot own = slot_own ∷ []
put_slot (neighbor address a) = slot_neighbor ∷ (address ++ Account.encode a)

unfoldable pub put_witness : LeafWitness → Bytes
put_witness w =
    put_optional_account w.old_account
    ++ (put_varint (length w.proof.siblings)
        ++ (put_siblings w.proof.siblings ++ put_slot w.proof.slot))

-- The three pushes for a signature.
unfoldable pub put_signature : Signature → Bytes
put_signature s = identifier s.scheme ++ (put_bytes s.pub_key ++ put_bytes s.sig)

-- `if let Some(witness)`
unfoldable pub put_optional_witness : Option LeafWitness → Bytes
put_optional_witness none = []
put_optional_witness (some w) = put_witness w

unfoldable pub encode_entry : TxnSidecar → Bytes
encode_entry (TxnSidecar.payment e) =
    put_signature e.sig
    ++ (put_witness e.sender_witness
        ++ (put_witness e.receiver_witness ++ put_optional_witness e.fee_sink_witness))
encode_entry (TxnSidecar.deposit e) = put_witness e.receiver_witness
encode_entry (TxnSidecar.withdrawal e) =
    put_signature e.sig ++ (put_witness e.sender_witness ++ put_optional_witness e.fee_sink_witness)
encode_entry (TxnSidecar.forced_withdrawal e) = put_witness e.sender_witness

unfoldable pub encode_entries : List TxnSidecar → Bytes
encode_entries [] = []
encode_entries (e ∷ es) = encode_entry e ++ encode_entries es

-- `Sidecar::encode`
unfoldable pub encode : Sidecar → Bytes
encode sidecar =
    sidecar_version ∷ (put_varint (length sidecar.entries) ++ encode_entries sidecar.entries)

unfoldable pub take_tagged_account : ℕ → Bytes → Read (Option Account)
take_tagged_account tag bytes =
    let decoded : Read (Option Account) = (do (a, rest) ← account bytes; ok (some a, rest)) in
    if tag == absent
    then ok (none, bytes)
    else if tag == present
    then decoded
    else err (unknown_presence_tag tag)

unfoldable pub take_optional_account : Bytes → Read (Option Account)
unfolding take_tagged_account
take_optional_account bytes = do (tag, rest) ← byte bytes; take_tagged_account tag rest

unfoldable pub take_signature : Bytes → Read Signature
take_signature bytes = do
  (id, r₁) ← take_bytes scheme_size bytes
  scheme ← ok_or (from_identifier id) (unknown_scheme id)
  (pub_key, r₂) ← read_bytes r₁
  (sig, r₃) ← read_bytes r₂
  ok (record { scheme = scheme; pub_key = pub_key; sig = sig }, r₃)

-- `for _ in 0..depth`
unfoldable pub take_siblings : ℕ → Bytes → Read (List Digest)
take_siblings zero bytes = ok ([], bytes)
take_siblings (suc n) bytes = do
  (s, r₁) ← take_bytes 32 bytes
  (ss, r₂) ← take_siblings n r₁
  ok (s ∷ ss, r₂)

unfoldable pub take_tagged_slot : ℕ → Bytes → Read Slot
take_tagged_slot kind bytes =
    let decoded : Read Slot = (do
      (address, r₁) ← take_bytes 32 bytes
      (a, r₂) ← account r₁
      ok (neighbor address a, r₂)) in
    if kind == slot_own
    then ok (own, bytes)
    else if kind == slot_neighbor
    then decoded
    else err (unknown_slot_kind kind)

unfoldable pub take_slot : Bytes → Read Slot
unfolding take_tagged_slot
take_slot bytes = do (kind, rest) ← byte bytes; take_tagged_slot kind rest

unfoldable pub take_witness : Bytes → Read LeafWitness
take_witness bytes = do
  (old_account, r₁) ← take_optional_account bytes
  (depth, r₂) ← count 32 r₁
  guard (leb depth depth_limit) (proof_too_deep depth)
  (siblings, r₃) ← take_siblings depth r₂
  (slot, r₄) ← take_slot r₃
  ok (record { old_account = old_account; proof = record { siblings = siblings; slot = slot } }, r₄)

-- `(fee != 0).then(|| take_witness(reader)).transpose()?`
unfoldable pub take_fee_witness : ℕ → Bytes → Read (Option LeafWitness)
take_fee_witness fee bytes =
    let decoded : Read (Option LeafWitness) = (do
      (w, rest) ← take_witness bytes
      ok (some w, rest)) in
    if not (fee == 0) then decoded else ok (none, bytes)

unfoldable pub decode_entry : Transaction → Bytes → Read TxnSidecar
decode_entry (Transaction.payment t) bytes = do
  (sig, r₁) ← take_signature bytes
  (sender_witness, r₂) ← take_witness r₁
  (receiver_witness, r₃) ← take_witness r₂
  (fee_sink_witness, r₄) ← take_fee_witness t.header.fee r₃
  let entry : PaymentSidecar = record {
    sig = sig;
    sender_witness = sender_witness;
    receiver_witness = receiver_witness;
    fee_sink_witness = fee_sink_witness;
  }
  ok (TxnSidecar.payment entry, r₄)
decode_entry (Transaction.deposit t) bytes = do
  (receiver_witness, r₁) ← take_witness bytes
  ok (TxnSidecar.deposit (record { receiver_witness = receiver_witness }), r₁)
decode_entry (Transaction.withdrawal t) bytes = do
  (sig, r₁) ← take_signature bytes
  (sender_witness, r₂) ← take_witness r₁
  (fee_sink_witness, r₃) ← take_fee_witness t.header.fee r₂
  let entry : WithdrawalSidecar = record {
    sig = sig;
    sender_witness = sender_witness;
    fee_sink_witness = fee_sink_witness;
  }
  ok (TxnSidecar.withdrawal entry, r₃)
decode_entry (Transaction.forced_withdrawal t) bytes = do
  (sender_witness, r₁) ← take_witness bytes
  ok (TxnSidecar.forced_withdrawal (record { sender_witness = sender_witness }), r₁)

unfoldable pub decode_entries : List Transaction → Bytes → Read (List TxnSidecar)
decode_entries [] bytes = ok ([], bytes)
decode_entries (t ∷ ts) bytes = do
  (e, r₁) ← decode_entry t bytes
  (es, r₂) ← decode_entries ts r₁
  ok (e ∷ es, r₂)

-- `Sidecar::decode`
unfoldable pub decode : Bytes → Batch → Result DecodeError Sidecar
decode bytes batch = do
  r₁ ← expect_version sidecar_version bytes
  (found, r₂) ← count min_encoded_entry_size r₁
  guard (found == length batch.txns) (sidecar_length_mismatch (length batch.txns) found)
  (entries, r₃) ← decode_entries batch.txns r₂
  finish r₃
  ok (record { entries = entries })
