-- ===== src/Codec/Batch.antt =====
-- `Batch::encode` and `Batch::decode` of crates/payment-rollup/src/codec.rs, with the address
-- dictionary of either side.
pub mod RoundTrip
use payment_rollup.Prelude.{
  ℕ, zero, suc, ◌+◌, ◌-◌, Option, none, some, List, [], ◌∷◌, ◌++◌, leb, ◌==◌, if◌then◌else◌, Result,
  ok, err, ok_or, ◌>>=◌, ◌>>◌, length, get_elem?,
}
use payment_rollup.Bytes.{Bytes, bytes_eq}
use payment_rollup.Account.{Address}
use payment_rollup.Txn.{
  Transaction, Batch, new_payment, new_deposit, new_withdrawal, new_forced_withdrawal,
}
use payment_rollup.Codec.Reader.{
  DecodeError, unknown_address_ref, unknown_transaction_kind, Read, usize_max, put_varint,
  take_bytes, byte, varint, expect_version, count, finish,
}

abbrev pub batch_version : ℕ
batch_version = 1

abbrev pub kind_payment : ℕ
kind_payment = 0

abbrev pub kind_deposit : ℕ
kind_deposit = 1

abbrev pub kind_withdrawal : ℕ
kind_withdrawal = 2

abbrev pub kind_forced_withdrawal : ℕ
kind_forced_withdrawal = 3

abbrev pub min_encoded_txn_size : ℕ
min_encoded_txn_size = 3

-- `HashMap<Address, u64>`; a key is inserted once.
abbrev pub Dictionary : Type 0
Dictionary = List (Address × ℕ)

unfoldable pub position : Dictionary → Address → Option ℕ
position [] address = none
position ((a, n) ∷ rest) address = if bytes_eq a address then some n else position rest address

-- `Dictionary::put`
unfoldable pub put_address : Dictionary → Address → Bytes × Dictionary
put_address dictionary address = elim (position dictionary address) [
  | some n ↦ (put_varint n, dictionary)
  | none ↦ (0 ∷ address, dictionary ++ (address, length dictionary + 1) ∷ [])
]

unfoldable pub encode_txn : Dictionary → Transaction → Bytes × Dictionary
encode_txn d (Transaction.payment t) =
    let (from, d₁) = put_address d t.header.sender in
    let (to, d₂) = put_address d₁ t.receiver in
    (kind_payment ∷ (from ++ (put_varint t.header.fee ++ (to ++ put_varint t.amount))), d₂)
encode_txn d (Transaction.deposit t) =
    let (to, d₁) = put_address d t.receiver in (kind_deposit ∷ (to ++ put_varint t.amount), d₁)
encode_txn d (Transaction.withdrawal t) =
    let (from, d₁) = put_address d t.header.sender in
    (
      kind_withdrawal ∷ (from ++ (put_varint t.header.fee ++ (t.recipient ++ put_varint t.amount))),
      d₁,
    )
encode_txn d (Transaction.forced_withdrawal t) =
    let (from, d₁) = put_address d t.header.sender in
    (kind_forced_withdrawal ∷ (from ++ t.recipient), d₁)

unfoldable pub encode_txns : Dictionary → List Transaction → Bytes
encode_txns d [] = []
encode_txns d (t ∷ ts) = let (bytes, d') = encode_txn d t in bytes ++ encode_txns d' ts

-- `Batch::encode`
unfoldable pub encode : Batch → Bytes
encode batch = batch_version ∷ (put_varint (length batch.txns) ++ encode_txns [] batch.txns)

-- `DictionaryReader::take`: the address, the dictionary and the bytes that remain.
unfoldable pub take_address : List Address → Bytes → Read (Address × List Address)
take_address seen bytes = do
  (reference, rest) ← varint bytes
  let literal : Read (Address × List Address) = (do
    (address, rest') ← take_bytes 32 rest
    ok ((address, seen ++ address ∷ []), rest'))
  let known : Option Address =
      if leb (reference - 1) usize_max then get_elem? seen (reference - 1) else none
  let found : Read (Address × List Address) = (do
    address ← ok_or known (unknown_address_ref reference)
    ok ((address, seen), rest))
  if reference == 0 then literal else found

unfoldable pub decode_payment : List Address → Bytes → Read (Transaction × List Address)
decode_payment seen bytes = do
  ((sender, seen₁), r₁) ← take_address seen bytes
  (fee, r₂) ← varint r₁
  ((receiver, seen₂), r₃) ← take_address seen₁ r₂
  (amount, r₄) ← varint r₃
  ok ((Transaction.payment (new_payment sender receiver amount fee), seen₂), r₄)

unfoldable pub decode_deposit : List Address → Bytes → Read (Transaction × List Address)
decode_deposit seen bytes = do
  ((receiver, seen₁), r₁) ← take_address seen bytes
  (amount, r₂) ← varint r₁
  ok ((Transaction.deposit (new_deposit receiver amount), seen₁), r₂)

unfoldable pub decode_withdrawal : List Address → Bytes → Read (Transaction × List Address)
decode_withdrawal seen bytes = do
  ((sender, seen₁), r₁) ← take_address seen bytes
  (fee, r₂) ← varint r₁
  (recipient, r₃) ← take_bytes 32 r₂
  (amount, r₄) ← varint r₃
  ok ((Transaction.withdrawal (new_withdrawal sender recipient amount fee), seen₁), r₄)

unfoldable pub decode_forced_withdrawal : List Address → Bytes → Read (Transaction × List Address)
decode_forced_withdrawal seen bytes = do
  ((address, seen₁), r₁) ← take_address seen bytes
  (recipient, r₂) ← take_bytes 32 r₁
  ok ((Transaction.forced_withdrawal (new_forced_withdrawal address recipient), seen₁), r₂)

-- The `match` on the kind byte.
unfoldable pub decode_kind : ℕ → List Address → Bytes → Read (Transaction × List Address)
decode_kind kind seen bytes =
    if kind == kind_payment
    then decode_payment seen bytes
    else if kind == kind_deposit
    then decode_deposit seen bytes
    else if kind == kind_withdrawal
    then decode_withdrawal seen bytes
    else if kind == kind_forced_withdrawal
    then decode_forced_withdrawal seen bytes
    else err (unknown_transaction_kind kind)

unfoldable pub decode_txn : List Address → Bytes → Read (Transaction × List Address)
unfolding decode_kind
decode_txn seen bytes = do (kind, rest) ← byte bytes; decode_kind kind seen rest

-- `for _ in 0..count`
unfoldable pub decode_txns : ℕ → List Address → Bytes → Read (List Transaction)
decode_txns zero seen bytes = ok ([], bytes)
decode_txns (suc n) seen bytes = do
  ((txn, seen'), rest) ← decode_txn seen bytes
  (txns, rest') ← decode_txns n seen' rest
  ok (txn ∷ txns, rest')

-- `Batch::decode`
unfoldable pub decode : Bytes → Result DecodeError Batch
decode bytes = do
  r₁ ← expect_version batch_version bytes
  (n, r₂) ← count min_encoded_txn_size r₁
  (txns, r₃) ← decode_txns n [] r₂
  finish r₃
  ok (record { txns = txns })
