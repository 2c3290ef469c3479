-- ===== src/Codec/Sidecar/RoundTrip.antt =====
-- `Sidecar::decode` reads back what `Sidecar::encode` wrote (crates/payment-rollup/src/codec.rs).
use payment_rollup.Prelude.{
  ℕ, suc, ◌*◌, ◌≤◌, ◌≡◌, ◌≢◌, refl, sym, ap, false, true, List, [], ◌∷◌, ◌++◌, ◌==◌, arith,
  append_assoc, append-nil, Option, none, some, ok, length, length-append, ==_iff,
}
use payment_rollup.Txn.{Transaction, LeafWitness, TxnSidecar, Batch, Sidecar}
use payment_rollup.Codec.Reader.{usize_max, byte, expect_version, finish}
use payment_rollup.Codec.Fields.{count-put_varint}
use payment_rollup.Codec.Sidecar.{
  put_witness, put_signature, put_optional_witness, encode_entry, encode_entries, encode,
  take_fee_witness, decode_entry, decode_entries, decode,
}
use payment_rollup.Codec.Sidecar.Fields.{
  IsWitness, IsSignature, Reads, witness-Reads, signature-Reads, length-put_witness,
}

-- A fee sink's witness is there exactly when a fee is.
abbrev pub FitsFee : ℕ → Option LeafWitness → Type 0
FitsFee fee none = fee ≡ 0
FitsFee fee (some w) = (fee ≢ 0) × IsWitness w

-- An entry of its transaction's kind, with what the types of its parts allow.
abbrev pub Fits : Transaction → TxnSidecar → Type 0
Fits (Transaction.payment t) (TxnSidecar.payment e) =
    IsSignature e.sig
    × IsWitness e.sender_witness
    × IsWitness e.receiver_witness
    × FitsFee t.header.fee e.fee_sink_witness
Fits (Transaction.deposit t) (TxnSidecar.deposit e) = IsWitness e.receiver_witness
Fits (Transaction.withdrawal t) (TxnSidecar.withdrawal e) =
    IsSignature e.sig × IsWitness e.sender_witness × FitsFee t.header.fee e.fee_sink_witness
Fits (Transaction.forced_withdrawal t) (TxnSidecar.forced_withdrawal e) = IsWitness e.sender_witness
Fits _ _ = ⊥

-- The same for all entries, one for each transaction.
abbrev pub FitAll : List Transaction → List TxnSidecar → Type 0
FitAll [] [] = Unit
FitAll (t ∷ ts) (e ∷ es) = Fits t e × FitAll ts es
FitAll _ _ = ⊥

fee_witness-Reads :
    (fee : ℕ) (w : Option LeafWitness)
    → FitsFee fee w
    → Reads (take_fee_witness fee) (put_optional_witness w) w
unfolding take_fee_witness put_optional_witness
fee_witness-Reads fee none h rest = rw h refl
fee_witness-Reads fee (some w) h rest =
    let charged : (fee == 0) ≡ false = ground (arith, h.0) in
    rw charged (rw (witness-Reads w h.1 rest))

entry-Reads :
    (t : Transaction) (e : TxnSidecar) → Fits t e → Reads (decode_entry t) (encode_entry e) e
unfolding decode_entry encode_entry
entry-Reads (Transaction.payment t) (TxnSidecar.payment e) h rest =
    let sender = put_witness e.sender_witness in
    let receiver = put_witness e.receiver_witness in
    let sink = put_optional_witness e.fee_sink_witness in
    rw (append_assoc (put_signature e.sig) (sender ++ (receiver ++ sink)) rest) (
      rw (signature-Reads e.sig h.0 ((sender ++ (receiver ++ sink)) ++ rest)) (
        rw (append_assoc sender (receiver ++ sink) rest) (
          rw (witness-Reads e.sender_witness h.1 ((receiver ++ sink) ++ rest)) (
            rw (append_assoc receiver sink rest) (
              rw (witness-Reads e.receiver_witness h.2 (sink ++ rest))
                (rw (fee_witness-Reads t.header.fee e.fee_sink_witness h.3 rest)))))))
entry-Reads (Transaction.deposit t) (TxnSidecar.deposit e) h rest =
    rw (witness-Reads e.receiver_witness h rest)
entry-Reads (Transaction.withdrawal t) (TxnSidecar.withdrawal e) h rest =
    let sender = put_witness e.sender_witness in
    let sink = put_optional_witness e.fee_sink_witness in
    rw (append_assoc (put_signature e.sig) (sender ++ sink) rest) (
      rw (signature-Reads e.sig h.0 ((sender ++ sink) ++ rest)) (
        rw (append_assoc sender sink rest) (
          rw (witness-Reads e.sender_witness h.1 (sink ++ rest))
            (rw (fee_witness-Reads t.header.fee e.fee_sink_witness h.2 rest)))))
entry-Reads (Transaction.forced_withdrawal t) (TxnSidecar.forced_withdrawal e) h rest =
    rw (witness-Reads e.sender_witness h rest)
entry-Reads _ _ h rest = absurd h

length-encode_entry : (t : Transaction) (e : TxnSidecar) → Fits t e → 3 ≤ length (encode_entry e)
unfolding encode_entry
length-encode_entry (Transaction.payment t) (TxnSidecar.payment e) h =
    let sink = put_optional_witness e.fee_sink_witness in
    let receiver = put_witness e.receiver_witness in
    omega (
      arith,
      length-append (put_signature e.sig) (put_witness e.sender_witness ++ (receiver ++ sink)),
      length-append (put_witness e.sender_witness) (receiver ++ sink),
      length-put_witness e.sender_witness h.1,
    )
length-encode_entry (Transaction.deposit t) (TxnSidecar.deposit e) h =
    length-put_witness e.receiver_witness h
length-encode_entry (Transaction.withdrawal t) (TxnSidecar.withdrawal e) h =
    let sink = put_optional_witness e.fee_sink_witness in
    omega (
      arith,
      length-append (put_signature e.sig) (put_witness e.sender_witness ++ sink),
      length-append (put_witness e.sender_witness) sink,
      length-put_witness e.sender_witness h.1,
    )
length-encode_entry (Transaction.forced_withdrawal t) (TxnSidecar.forced_withdrawal e) h =
    length-put_witness e.sender_witness h
length-encode_entry _ _ h = absurd h

pub length-FitAll :
    (ts : List Transaction) (es : List TxnSidecar) → FitAll ts es → length es ≡ length ts
length-FitAll [] [] h = refl
length-FitAll (t ∷ ts) (e ∷ es) h = ap suc (length-FitAll ts es h.1)
length-FitAll _ _ h = absurd h

-- Entries are at least three bytes each.
length-encode_entries :
    (ts : List Transaction) (es : List TxnSidecar)
    → FitAll ts es
    → length es * 3 ≤ length (encode_entries es)
unfolding encode_entries
length-encode_entries [] [] h = omega arith
length-encode_entries (t ∷ ts) (e ∷ es) h = omega (
  arith,
  length-encode_entries ts es h.1,
  length-append (encode_entry e) (encode_entries es),
  length-encode_entry t e h.0,
)
length-encode_entries _ _ h = absurd h

entries_read :
    (ts : List Transaction) (es : List TxnSidecar)
    → FitAll ts es
    → Reads (decode_entries ts) (encode_entries es) es
unfolding decode_entries encode_entries
entries_read [] [] h rest = refl
entries_read (t ∷ ts) (e ∷ es) h rest =
    rw (append_assoc (encode_entry e) (encode_entries es) rest)
      (rw (entry-Reads t e h.0 (encode_entries es ++ rest)) (rw (entries_read ts es h.1 rest)))
entries_read _ _ h rest = absurd h

-- `Sidecar::decode` reads back the sidecar that `Sidecar::encode` wrote, against a batch whose
-- transactions its entries fit, one for one, when three bytes for each fit a size.
pub decode-encode_sidecar :
    (batch : Batch) (sidecar : Sidecar)
    → FitAll batch.txns sidecar.entries
    → length sidecar.entries * 3 ≤ usize_max
    → decode (encode sidecar) batch ≡ ok sidecar
unfolding decode encode expect_version byte
decode-encode_sidecar batch sidecar h small =
    let backed = length-encode_entries batch.txns sidecar.entries h in
    let same = length-FitAll batch.txns sidecar.entries h in
    let paired : (length sidecar.entries == length batch.txns) ≡ true = (==_iff _ _).1 same in
    let all = entries_read batch.txns sidecar.entries h [] in
    rw
      (count-put_varint (length sidecar.entries) 3 (encode_entries sidecar.entries) small
        (omega (arith, small)) backed)
      (rw paired
        (rw (sym (append-nil (encode_entries sidecar.entries))) (rw all (unfold finish in refl))))
