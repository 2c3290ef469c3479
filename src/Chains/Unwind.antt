-- ===== src/Chains/Unwind.antt =====
-- The payout links of crates/payment-rollup/src/lib.rs open its withdrawal chain one at a time.
use mathlib.Core.List.{reverse, reverse-append, reverse-cons, reverse-reverse}
use payment_rollup.Prelude.{
  ◌≡◌, refl, sym, ap, ◌∙◌, subst, List, [], ◌∷◌, ◌++◌, map, append_assoc, append-nil,
}
use payment_rollup.Crypto.{Primitives}
use payment_rollup.Account.{DeploymentDomain, Digest}
use payment_rollup.Chains.{
  Payout, WithdrawalLink, accumulate_withdrawal, withdrawal_chain_terminal, fold_payouts,
  withdrawal_chain, links_loop, withdrawal_links,
}

abbrev pub payout : WithdrawalLink → Payout
payout link = (link.recipient, link.amount)

module _ ⦃p : Primitives⦄ where
  -- Claiming the links in order takes a stored chain from `chain` to `last`: each is the preimage
  -- of what is stored, and its tail is stored next.
  unfoldable pub Unwinds : Digest → List WithdrawalLink → Digest → Type 0
  Unwinds chain [] last = chain ≡ last
  Unwinds chain (l ∷ ls) last =
      (accumulate_withdrawal l.tail l.recipient l.amount ≡ chain) × Unwinds l.tail ls last

  reverse-last :
      (links : List WithdrawalLink) (l : WithdrawalLink)
      → reverse (links ++ l ∷ []) ≡ l ∷ reverse links
  reverse-last links l = reverse-append links (l ∷ [])

  links_loop-payouts :
      (links : List WithdrawalLink) (tail : Digest) (rest : List Payout)
      → map payout (reverse (links_loop links tail rest))
        ≡ reverse rest ++ map payout (reverse links)
  unfolding links_loop
  links_loop-payouts links tail [] = refl
  links_loop-payouts links tail ((r, n) ∷ rest) =
      let link : WithdrawalLink = record { recipient = r; amount = n; tail = tail } in
      links_loop-payouts (links ++ link ∷ []) (accumulate_withdrawal tail r n) rest
      ∙ ap (λ z. reverse rest ++ map payout z) (reverse-last links link)
      ∙ sym (append_assoc (reverse rest) ((r, n) ∷ []) (map payout (reverse links)))
      ∙ ap (λ z. z ++ map payout (reverse links)) (sym (reverse-cons (r, n) rest))

  links_loop-Unwinds :
      (links : List WithdrawalLink) (tail last : Digest) (rest : List Payout)
      → Unwinds tail (reverse links) last
      → Unwinds (fold_payouts tail rest) (reverse (links_loop links tail rest)) last
  unfolding links_loop fold_payouts Unwinds
  links_loop-Unwinds links tail last [] u = u
  links_loop-Unwinds links tail last ((r, n) ∷ rest) u =
      let link : WithdrawalLink = record { recipient = r; amount = n; tail = tail } in
      links_loop-Unwinds (links ++ link ∷ []) (accumulate_withdrawal tail r n) last rest (
        subst (λ z. Unwinds (accumulate_withdrawal tail r n) z last) (sym (reverse-last links link))
          (refl, u))

  -- The links of a batch's payouts carry those payouts in their order, and claiming them in that
  -- order takes the withdrawal chain that the batch settled with to the terminal of the domain:
  -- each link is the preimage of the chain stored when its turn comes.
  pub withdrawal_links-Unwinds :
      (d : DeploymentDomain) (payouts : List Payout)
      → Unwinds
          (withdrawal_chain d payouts)
          (withdrawal_links d payouts)
          (withdrawal_chain_terminal d)
        × (map payout (withdrawal_links d payouts) ≡ payouts)
  unfolding withdrawal_chain withdrawal_links Unwinds
  withdrawal_links-Unwinds d payouts =
      let terminal = withdrawal_chain_terminal d in
      (
        links_loop-Unwinds [] terminal terminal (reverse payouts) refl,
        links_loop-payouts [] terminal (reverse payouts)
            ∙ append-nil (reverse (reverse payouts))
            ∙ reverse-reverse payouts,
      )
