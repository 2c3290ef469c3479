-- ===== src/Codec/Batch/RoundTrip.antt =====
-- `Batch::decode` reads back what `Batch::encode` wrote (crates/payment-rollup/src/codec.rs).
use payment_rollup.Prelude.{
  ◌+◌, ◌*◌, ◌≤◌, ◌≡◌, refl, sym, List, [], ◌∷◌, ◌++◌, Option-cases, inl, inr, arith, append_assoc,
  append-nil, ok, length, length-append, All,
}
use payment_rollup.Bytes.{Bytes, IsU64, IsArray}
use payment_rollup.Account.{Address, zero_address}
use payment_rollup.Txn.{
  Transaction, Batch, new_payment, new_deposit, new_withdrawal, new_forced_withdrawal,
}
use payment_rollup.Codec.Reader.{usize_max, put_varint, byte, expect_version, finish}
use payment_rollup.Codec.Varint.{varint-put_varint, length-put_varint}
use payment_rollup.Codec.Fields.{take_bytes-append, count-put_varint}
use payment_rollup.Codec.Dictionary.{InStep, InStep-nil, take_address-put_address}
use payment_rollup.Codec.Batch.{
  Dictionary, position, put_address, encode_txn, encode_txns, encode, decode_payment,
  decode_deposit, decode_withdrawal, decode_forced_withdrawal, decode_kind, decode_txn, decode_txns,
  decode,
}

-- What the types of a transaction and its constructor allow: a deposit has no sender and no fee,
-- and a forced withdrawal no fee.
abbrev pub IsTransaction : Transaction → Type 0
IsTransaction (Transaction.payment t) =
    IsArray 32 t.header.sender × IsArray 32 t.receiver × IsU64 t.header.fee × IsU64 t.amount
IsTransaction (Transaction.deposit t) =
    IsArray 32 t.receiver × IsU64 t.amount × (t.header.sender ≡ zero_address) × (t.header.fee ≡ 0)
IsTransaction (Transaction.withdrawal t) =
    IsArray 32 t.header.sender × IsArray 32 t.recipient × IsU64 t.header.fee × IsU64 t.amount
IsTransaction (Transaction.forced_withdrawal t) =
    IsArray 32 t.header.sender × IsArray 32 t.recipient × (t.header.fee ≡ 0)

-- One transaction is read back, and the dictionaries stay in step.
record Decoded (d : Dictionary) (seen : List Address) (t : Transaction) : Type 0 where
  seen_after : List Address
  decoded :
      (rest : Bytes) → decode_txn seen ((encode_txn d t).0 ++ rest) ≡ ok ((t, seen_after), rest)
  in_step : InStep (encode_txn d t).1 seen_after
  grows : length seen_after ≤ length seen + 2

txn_reads :
    (d : Dictionary) (seen : List Address) (t : Transaction)
    → InStep d seen
    → IsTransaction t
    → length seen + 2 ≤ usize_max
    → Decoded d seen t
txn_reads d seen (Transaction.payment t) s h small =
    let fee = put_varint t.header.fee in
    let amount = put_varint t.amount in
    let d₁ = (put_address d t.header.sender).1 in
    let from = (put_address d t.header.sender).0 in
    let to = (put_address d₁ t.receiver).0 in
    let a = take_address-put_address d seen t.header.sender s h.0 (omega (arith, small)) in
    let b =
      take_address-put_address d₁ a.seen_after t.receiver a.in_step h.1
        (omega (arith, small, a.grows)) in
    record {
      seen_after = b.seen_after;
      decoded = λ rest.
          unfold decode_txn encode_txn byte decode_kind decode_payment new_payment in
          rw (append_assoc from (fee ++ (to ++ amount)) rest) (
            rw (a.taken ((fee ++ (to ++ amount)) ++ rest)) (
              rw (append_assoc fee (to ++ amount) rest) (
                rw (varint-put_varint t.header.fee ((to ++ amount) ++ rest) h.2) (
                  rw (append_assoc to amount rest)
                    (rw (b.taken (amount ++ rest)) (rw (varint-put_varint t.amount rest h.3)))))));
      in_step = unfold encode_txn in b.in_step;
      grows = omega (arith, a.grows, b.grows);
    }
txn_reads d seen (Transaction.deposit t) s h small =
    let amount = put_varint t.amount in
    let to = (put_address d t.receiver).0 in
    let a = take_address-put_address d seen t.receiver s h.0 (omega (arith, small)) in
    record {
      seen_after = a.seen_after;
      decoded = λ rest.
          unfold decode_txn encode_txn byte decode_kind decode_deposit new_deposit in
          rw (append_assoc to amount rest) (
            rw (a.taken (amount ++ rest)) (
              rw (varint-put_varint t.amount rest h.1) (λ i. ok (
                (
                  Transaction.deposit (record {
                    header = record { sender = sym h.2 i; fee = sym h.3 i };
                    receiver = t.receiver;
                    amount = t.amount;
                  }),
                  a.seen_after,
                ),
                rest,
              ))));
      in_step = unfold encode_txn in a.in_step;
      grows = omega (arith, a.grows);
    }
txn_reads d seen (Transaction.withdrawal t) s h small =
    let fee = put_varint t.header.fee in
    let amount = put_varint t.amount in
    let from = (put_address d t.header.sender).0 in
    let to = t.recipient in
    let a = take_address-put_address d seen t.header.sender s h.0 (omega (arith, small)) in
    record {
      seen_after = a.seen_after;
      decoded = λ rest.
          unfold decode_txn encode_txn byte decode_kind decode_withdrawal new_withdrawal in
          rw (append_assoc from (fee ++ (to ++ amount)) rest) (
            rw (a.taken ((fee ++ (to ++ amount)) ++ rest)) (
              rw (append_assoc fee (to ++ amount) rest) (
                rw (varint-put_varint t.header.fee ((to ++ amount) ++ rest) h.2) (
                  rw (append_assoc to amount rest) (
                    rw (take_bytes-append 32 to (amount ++ rest) h.1.0)
                      (rw (varint-put_varint t.amount rest h.3)))))));
      in_step = unfold encode_txn in a.in_step;
      grows = omega (arith, a.grows);
    }
txn_reads d seen (Transaction.forced_withdrawal t) s h small =
    let from = (put_address d t.header.sender).0 in
    let to = t.recipient in
    let a = take_address-put_address d seen t.header.sender s h.0 (omega (arith, small)) in
    record {
      seen_after = a.seen_after;
      decoded = λ rest.
          unfold decode_txn encode_txn byte decode_kind decode_forced_withdrawal
            new_forced_withdrawal in
          rw (append_assoc from to rest) (
            rw (a.taken (to ++ rest)) (
              rw (take_bytes-append 32 to rest h.1.0) (λ i. ok (
                (
                  Transaction.forced_withdrawal (record {
                    header = record { sender = t.header.sender; fee = sym h.2 i };
                    recipient = t.recipient;
                  }),
                  a.seen_after,
                ),
                rest,
              ))));
      in_step = unfold encode_txn in a.in_step;
      grows = omega (arith, a.grows);
    }

txns_read :
    (d : Dictionary) (seen : List Address) (ts : List Transaction)
    → InStep d seen
    → All IsTransaction ts
    → length seen + 2 * length ts ≤ usize_max
    → (rest : Bytes) → decode_txns (length ts) seen (encode_txns d ts ++ rest) ≡ ok (ts, rest)
unfolding decode_txns encode_txns
txns_read d seen [] s h small rest = refl
txns_read d seen (t ∷ ts) s h small rest =
    let first = txn_reads d seen t s h.0 (omega (arith, small)) in
    let d' = (encode_txn d t).1 in
    rw (append_assoc (encode_txn d t).0 (encode_txns d' ts) rest) (
      rw (first.decoded (encode_txns d' ts ++ rest)) (
        rw (
          txns_read d' first.seen_after ts first.in_step h.1 (omega (arith, small, first.grows))
            rest)))

length-put_address : (d : Dictionary) (a : Address) → 1 ≤ length (put_address d a).0
unfolding put_address
length-put_address d a = elim (Option-cases (position d a)) [
  | inl e ↦ rw (put_address, e) (omega arith)
  | inr (n, e) ↦ rw (put_address, e) (length-put_varint n)
]

-- The three bytes that a transaction takes at least.
length-encode_txn :
    (d : Dictionary) (t : Transaction) → IsTransaction t → 3 ≤ length (encode_txn d t).0
unfolding encode_txn
length-encode_txn d (Transaction.payment t) h =
    let from = (put_address d t.header.sender).0 in
    let to = (put_address (put_address d t.header.sender).1 t.receiver).0 in
    let fee = put_varint t.header.fee in
    let amount = put_varint t.amount in
    omega (
      arith,
      length-append from (fee ++ (to ++ amount)),
      length-append fee (to ++ amount),
      length-put_address d t.header.sender,
      length-put_varint t.header.fee,
    )
length-encode_txn d (Transaction.deposit t) h =
    let to = (put_address d t.receiver).0 in
    omega (
      arith,
      length-append to (put_varint t.amount),
      length-put_address d t.receiver,
      length-put_varint t.amount,
    )
length-encode_txn d (Transaction.withdrawal t) h =
    let from = (put_address d t.header.sender).0 in
    let fee = put_varint t.header.fee in
    let amount = put_varint t.amount in
    omega (
      arith,
      length-append from (fee ++ (t.recipient ++ amount)),
      length-append fee (t.recipient ++ amount),
      length-put_address d t.header.sender,
      length-put_varint t.header.fee,
    )
length-encode_txn d (Transaction.forced_withdrawal t) h =
    let from = (put_address d t.header.sender).0 in
    omega (arith, length-append from t.recipient, length-put_address d t.header.sender, h.1.0)

length-encode_txns :
    (d : Dictionary) (ts : List Transaction)
    → All IsTransaction ts
    → length ts * 3 ≤ length (encode_txns d ts)
unfolding encode_txns
length-encode_txns d [] h = omega arith
length-encode_txns d (t ∷ ts) h =
    let d' = (encode_txn d t).1 in
    omega (
      arith,
      length-append (encode_txn d t).0 (encode_txns d' ts),
      length-encode_txn d t h.0,
      length-encode_txns d' ts h.1,
    )

-- `Batch::decode` reads back the batch that `Batch::encode` wrote, whatever addresses its
-- transactions share, when each is one that its type and constructor allow and three bytes for each
-- fit a size.
pub decode-encode_batch :
    (batch : Batch)
    → All IsTransaction batch.txns
    → length batch.txns * 3 ≤ usize_max
    → decode (encode batch) ≡ ok batch
unfolding decode encode expect_version byte
decode-encode_batch batch h small =
    let all = txns_read [] [] batch.txns InStep-nil h (omega (arith, small)) [] in
    rw
      (count-put_varint (length batch.txns) 3 (encode_txns [] batch.txns) small
        (omega (arith, small)) (length-encode_txns [] batch.txns h))
      (rw (sym (append-nil (encode_txns [] batch.txns))) (rw all (unfold finish in refl)))
