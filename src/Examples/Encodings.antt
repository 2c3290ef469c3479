-- ===== src/Examples/Encodings.antt =====
-- The encodings of crates/payment-rollup, run on a few values.
use payment_rollup.Prelude.{ℕ, ◌≢◌, ◌-◌, ◌^◌, ◌≡◌, [], ◌∷◌, ◌++◌, arith, ok}
use payment_rollup.Bytes.{to_be_bytes, to_be_bytes-IsArray}
use payment_rollup.Account.{zeros32}
use payment_rollup.Codec.Reader.{put_varint, varint}
use payment_rollup.Codec.Varint.{varint-put_varint}
use payment_rollup.Txn.{
  Payment, Withdrawal, new_payment, payment_bytes_to_sign, withdrawal_bytes_to_sign,
}
use payment_rollup.Txn.Messages.{IsPayment, payment_bytes_to_sign-injective}

varint-put_varint_example : varint (put_varint (2 ^ 64 - 1) ++ 7 ∷ []) ≡ ok (2 ^ 64 - 1, 7 ∷ [])
varint-put_varint_example = varint-put_varint (2 ^ 64 - 1) (7 ∷ []) (omega arith)

abbrev paid_nonce : ℕ
paid_nonce = 7

abbrev paid : Payment
paid = new_payment (to_be_bytes 32 5) (to_be_bytes 32 6) 1_000 3

paid-IsPayment : IsPayment zeros32 7 paid
unfolding new_payment
paid-IsPayment = record {
  domain_fits = omega arith;
  sender_fits = to_be_bytes-IsArray 32 5;
  nonce_fits = omega arith;
  fee_fits = omega arith;
  destination_fits = to_be_bytes-IsArray 32 6;
  amount_fits = omega arith;
}

payment_bytes_to_sign-injective_example :
    (payment_bytes_to_sign paid zeros32 paid_nonce ≡ payment_bytes_to_sign paid zeros32 paid_nonce
      → (zeros32 ≡ zeros32) × (paid_nonce ≡ paid_nonce) × (paid ≡ paid))
    × ((w : Withdrawal)
        → payment_bytes_to_sign paid zeros32 paid_nonce
          ≢ withdrawal_bytes_to_sign w zeros32 paid_nonce)
payment_bytes_to_sign-injective_example =
    payment_bytes_to_sign-injective paid paid zeros32 zeros32 paid_nonce paid_nonce paid-IsPayment
      paid-IsPayment
