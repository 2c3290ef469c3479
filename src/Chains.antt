-- ===== src/Chains.antt =====
-- The hash chains of crates/payment-rollup/src/lib.rs: the L1 inbox, and the payouts of a batch.
pub mod Unwind
use payment_rollup.Prelude.{ℕ, List, [], ◌∷◌, ◌++◌}
use mathlib.Core.List.{reverse}
use payment_rollup.Bytes.{ascii, u64_bytes}
use payment_rollup.Crypto.{Primitives, sha256}
use payment_rollup.Account.{Address, L1Address, DeploymentDomain, Digest, zeros32}

unfoldable pub inbox_chain_genesis : Digest
inbox_chain_genesis = zeros32

pub record WithdrawalLink : Type 0 where
  pub recipient : L1Address
  pub amount : ℕ
  pub tail : Digest

abbrev pub Payout : Type 0
Payout = L1Address × ℕ

module _ ⦃p : Primitives⦄ where
  unfoldable pub accumulate_deposit : Digest → Address → ℕ → Digest
  accumulate_deposit chain receiver amount =
      sha256 (ascii "INBOXD" ++ (chain ++ (receiver ++ u64_bytes amount)))

  unfoldable pub accumulate_request : Digest → Address → L1Address → Digest
  accumulate_request chain address recipient =
      sha256 (ascii "INBOXW" ++ (chain ++ (address ++ recipient)))

  unfoldable pub withdrawal_chain_terminal : DeploymentDomain → Digest
  withdrawal_chain_terminal domain = sha256 (ascii "WEND" ++ domain)

  unfoldable pub accumulate_withdrawal : Digest → L1Address → ℕ → Digest
  accumulate_withdrawal tail recipient amount =
      sha256 (ascii "WPAY" ++ (tail ++ (recipient ++ u64_bytes amount)))

  -- `fold` over an iterator, here the reversed payouts.
  unfoldable pub fold_payouts : Digest → List Payout → Digest
  fold_payouts tail [] = tail
  fold_payouts tail ((recipient, amount) ∷ rest) =
      fold_payouts (accumulate_withdrawal tail recipient amount) rest

  unfoldable pub withdrawal_chain : DeploymentDomain → List Payout → Digest
  unfolding fold_payouts
  withdrawal_chain domain payouts =
      fold_payouts (withdrawal_chain_terminal domain) (reverse payouts)

  -- The loop of `withdrawal_links`: the links pushed so far and the running tail.
  unfoldable pub links_loop : List WithdrawalLink → Digest → List Payout → List WithdrawalLink
  links_loop links tail [] = links
  links_loop links tail ((recipient, amount) ∷ rest) =
      links_loop (links ++ record { recipient = recipient; amount = amount; tail = tail } ∷ [])
        (accumulate_withdrawal tail recipient amount) rest

  unfoldable pub withdrawal_links : DeploymentDomain → List Payout → List WithdrawalLink
  unfolding links_loop
  withdrawal_links domain payouts =
      reverse (links_loop [] (withdrawal_chain_terminal domain) (reverse payouts))
