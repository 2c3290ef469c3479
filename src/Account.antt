-- ===== src/Account.antt =====
-- crates/payment-rollup/src/lib.rs: accounts, signature schemes, addresses and the errors of a
-- replay. An address, an L1 address and a deployment domain are 32-byte arrays.
use payment_rollup.Prelude.{
  ℕ, ◌+◌, ◌^◌, Option, none, some, List, [], ◌∷◌, ◌++◌, ltb, if◌then◌else◌, Result, ok, err, take,
  drop,
}
use payment_rollup.Bytes.{Bytes, IsU64, IsArray, ascii, bytes_eq, u64_bytes, from_be_bytes}
use payment_rollup.Crypto.{Primitives, sha256}

abbrev pub Address : Type 0
Address = Bytes

abbrev pub L1Address : Type 0
L1Address = Bytes

abbrev pub DeploymentDomain : Type 0
DeploymentDomain = Bytes

-- A SHA-256 output or anything of its width: a root, a chain value, a commitment.
abbrev pub Digest : Type 0
Digest = Bytes

abbrev pub zeros32 : Bytes
zeros32 =
    0 ∷ 0 ∷ 0 ∷ 0 ∷ 0 ∷ 0 ∷ 0 ∷ 0 ∷ 0 ∷ 0 ∷ 0 ∷ 0 ∷ 0 ∷ 0 ∷ 0 ∷ 0 ∷ 0 ∷ 0 ∷ 0 ∷ 0 ∷ 0 ∷ 0 ∷ 0 ∷ 0
    ∷ 0 ∷ 0 ∷ 0 ∷ 0 ∷ 0 ∷ 0 ∷ 0 ∷ 0 ∷ []

unfoldable pub min_withdrawal : ℕ
min_withdrawal = 100_000

unfoldable pub zero_address : Address
zero_address = zeros32

unfoldable pub fee_sink : Address
fee_sink =
    0x3c ∷ 0x59 ∷ 0x3f ∷ 0x54 ∷ 0x58 ∷ 0xdd ∷ 0x87 ∷ 0x8c ∷ 0x42 ∷ 0x37 ∷ 0x9b ∷ 0x05 ∷ 0xb2 ∷ 0xb3
    ∷ 0x2f ∷ 0xc2 ∷ 0x88 ∷ 0xb1 ∷ 0xff ∷ 0x4a ∷ 0x8e ∷ 0x88 ∷ 0xf0 ∷ 0xa5 ∷ 0x09 ∷ 0x28 ∷ 0xe9
    ∷ 0x9d ∷ 0xb1 ∷ 0x8b ∷ 0xed ∷ 0x4d ∷ []

pub data Scheme : Type 0 where
  managed ed25519 falcon1024_hybrid_ed25519 : Scheme

abbrev pub scheme_size : ℕ
scheme_size = 3

abbrev all_schemes : List Scheme
all_schemes = managed ∷ ed25519 ∷ falcon1024_hybrid_ed25519 ∷ []

unfoldable pub identifier : Scheme → Bytes
identifier managed = ascii "man"
identifier ed25519 = ascii "edd"
identifier falcon1024_hybrid_ed25519 = ascii "f1h"

unfoldable pub find_scheme : Bytes → List Scheme → Option Scheme
find_scheme id [] = none
find_scheme id (s ∷ ss) = if bytes_eq (identifier s) id then some s else find_scheme id ss

unfoldable pub from_identifier : Bytes → Option Scheme
unfolding find_scheme identifier bytes_eq
from_identifier id = find_scheme id all_schemes

pub data VerificationError : Type 0 where
  invalid_auth_address invalid_signature malformed_key malformed_signature : VerificationError
  invalid_nonce unknown_sender insufficient_funds amount_overflow : VerificationError
  withdrawal_too_small malformed_proof stale_witness root_mismatch : VerificationError
  sidecar_length_mismatch sidecar_kind_mismatch : VerificationError

pub record Account : Type 0 where
  pub nonce : ℕ
  pub amount : ℕ
  pub auth_address : Address

-- The values that the field types allow.
pub record IsAccount (a : Account) : Type 0 where
  pub nonce_fits : IsU64 a.nonce
  pub amount_fits : IsU64 a.amount
  pub auth_fits : IsArray 32 a.auth_address

module _ ⦃p : Primitives⦄ where
  unfoldable pub deployment_domain : Bytes → ℕ → DeploymentDomain
  deployment_domain genesis_hash app_id =
      sha256 (ascii "PAYMENT_ROLLUP_V1" ++ (genesis_hash ++ u64_bytes app_id))

  unfoldable pub address_from_public_key : Scheme → Bytes → Address
  unfolding identifier
  address_from_public_key scheme pub_key = sha256 (ascii "ADDR" ++ (identifier scheme ++ pub_key))

-- `Account::empty`
unfoldable pub empty : Address → Account
empty address = record { nonce = 0; amount = 0; auth_address = address }

unfoldable pub from_public_key : ⦃p : Primitives⦄ → Scheme → Bytes → Address × Account
unfolding address_from_public_key empty
from_public_key scheme pub_key =
    let address = address_from_public_key scheme pub_key in (address, empty address)

-- `Account::encode`: 8, 8 and 32 bytes.
unfoldable pub encode : Account → Bytes
encode a = u64_bytes a.nonce ++ (u64_bytes a.amount ++ a.auth_address)

abbrev pub encoded_account_size : ℕ
encoded_account_size = 48

-- `Account::decode`, on an array of 48 bytes.
unfoldable pub decode : Bytes → Account
decode bytes = record {
  nonce = from_be_bytes (take 8 bytes);
  amount = from_be_bytes (take 8 (drop 8 bytes));
  auth_address = drop 16 bytes;
}

-- `checked_add(1)` on the nonce.
unfoldable pub bump_nonce : Account → Result VerificationError Account
bump_nonce a =
    if ltb (a.nonce + 1) (2 ^ 64) then ok (record a { nonce = a.nonce + 1 }) else err invalid_nonce
