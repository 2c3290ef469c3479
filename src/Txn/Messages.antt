-- ===== src/Txn/Messages.antt =====
-- What the bytes that a sender signs commit to (crates/payment-rollup/src/lib.rs, `bytes_to_sign`).
use payment_rollup.Prelude.{ℕ, ◌≡◌, ◌≢◌, refl, sym, ap, ◌∙◌, arith, length, get_or}
use payment_rollup.Bytes.{
  Bytes, IsArray, IsU64, u64_bytes, to_be_bytes-IsArray, to_be_bytes-injective, append-injective,
}
use payment_rollup.Account.{Address, DeploymentDomain}
use payment_rollup.Txn.{
  Payment, Withdrawal, sign_tag_payment, bytes_to_sign, payment_bytes_to_sign,
  withdrawal_bytes_to_sign,
}

-- What the types of a message's fields allow.
pub record IsMessage (domain : DeploymentDomain) (sender : Address) (nonce fee : ℕ)
    (destination : Bytes) (amount : ℕ) : Type 0 where
  pub domain_fits : IsArray 32 domain
  pub sender_fits : IsArray 32 sender
  pub nonce_fits : IsU64 nonce
  pub fee_fits : IsU64 fee
  pub destination_fits : IsArray 32 destination
  pub amount_fits : IsU64 amount

same_length : (n : ℕ) (xs ys : Bytes) → IsArray n xs → IsArray n ys → length xs ≡ length ys
same_length n xs ys x y = x.0 ∙ sym y.0

module _ {domain domain' : DeploymentDomain} {sender sender' : Address} {nonce nonce' fee fee' : ℕ}
    {destination destination' : Bytes} {amount amount' : ℕ}
    (m : IsMessage domain sender nonce fee destination amount)
    (m' : IsMessage domain' sender' nonce' fee' destination' amount') where
  bytes_to_sign-injective :
      (tag : Bytes)
      → bytes_to_sign domain tag sender nonce fee destination amount
        ≡ bytes_to_sign domain' tag sender' nonce' fee' destination' amount'
      → (domain ≡ domain')
        × (sender ≡ sender')
        × (nonce ≡ nonce')
        × (fee ≡ fee')
        × (destination ≡ destination')
        × (amount ≡ amount')
  unfolding bytes_to_sign
  bytes_to_sign-injective tag e =
      let (_, e₁) = append-injective tag tag _ _ refl e in
      let (same_domain, e₂) =
        append-injective domain domain' _ _ (same_length 32 _ _ m.domain_fits m'.domain_fits) e₁ in
      let (same_sender, e₃) =
        append-injective sender sender' _ _ (same_length 32 _ _ m.sender_fits m'.sender_fits) e₂ in
      let word : (v w : ℕ) → length (u64_bytes v) ≡ length (u64_bytes w) =
        λ v w. same_length 8 _ _ (to_be_bytes-IsArray 8 v) (to_be_bytes-IsArray 8 w) in
      let (same_nonce, e₄) =
        append-injective (u64_bytes nonce) (u64_bytes nonce') _ _ (word nonce nonce') e₃ in
      let (same_fee, e₅) =
        append-injective (u64_bytes fee) (u64_bytes fee') _ _ (word fee fee') e₄ in
      let (same_destination, e₆) =
        append-injective destination destination' _ _
          (same_length 32 _ _ m.destination_fits m'.destination_fits) e₅ in
      (
        same_domain,
        same_sender,
        to_be_bytes-injective 8 nonce nonce' m.nonce_fits m'.nonce_fits same_nonce,
        to_be_bytes-injective 8 fee fee' m.fee_fits m'.fee_fits same_fee,
        same_destination,
        to_be_bytes-injective 8 amount amount' m.amount_fits m'.amount_fits e₆,
      )

abbrev pub IsPayment : DeploymentDomain → ℕ → Payment → Type 0
IsPayment domain nonce t = IsMessage domain t.header.sender nonce t.header.fee t.receiver t.amount

-- The bytes that the sender of a payment signs determine the deployment, the nonce and the whole
-- payment, its sender, fee, receiver and amount, when all are within their types; and they are not
-- the bytes that anyone signs for a withdrawal.
pub payment_bytes_to_sign-injective :
    (t t' : Payment) (domain domain' : DeploymentDomain) (nonce nonce' : ℕ)
    → IsPayment domain nonce t
    → IsPayment domain' nonce' t'
    → (payment_bytes_to_sign t domain nonce ≡ payment_bytes_to_sign t' domain' nonce'
        → (domain ≡ domain') × (nonce ≡ nonce') × (t ≡ t'))
      × ((w : Withdrawal)
          → payment_bytes_to_sign t domain nonce ≢ withdrawal_bytes_to_sign w domain' nonce')
unfolding payment_bytes_to_sign withdrawal_bytes_to_sign bytes_to_sign
payment_bytes_to_sign-injective t t' domain domain' nonce nonce' m m' = (
  λ e.
      let (d, s, n, f, r, a) = bytes_to_sign-injective m m' sign_tag_payment e in
      (
        d,
        n,
        λ i. record { header = record { sender = s i; fee = f i }; receiver = r i; amount = a i },
      ),
  λ w e. let first : 80 ≡ 87 = ap (λ z. get_or z 0 0) e in omega (arith, first),
)
