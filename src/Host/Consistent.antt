-- ===== src/Host/Consistent.antt =====
-- The parts of a fixture of crates/sp1-host/src/main.rs belong together.
use payment_rollup.Prelude.{
  suc, ◌*◌, ◌≡◌, refl, sym, ap, ◌∙◌, subst, Bool, Option, List, [], ◌∷◌, ◌++◌, map, arith, ok,
  length, >>=-eq-ok, ok-injective,
}
use payment_rollup.Bytes.{Bytes}
use payment_rollup.Crypto.{Primitives}
use payment_rollup.Merkle.Digests.{IsDigest}
use payment_rollup.Txn.{Block}
use payment_rollup.Commit.{public_values, batch_commitment}
use payment_rollup.Commit.Chunks.{join, chunks_unique, length-chunks}
use payment_rollup.Settlement.{
  Settlement, for_block, hex, settled_commitment, batch_length, settled_chunks, settled_chunk_count,
}
use payment_rollup.Settlement.Executes.{for_block-public_values}
use payment_rollup.Scenarios.Listing.{Entry}
use payment_rollup.Host.Proving.{ProofFixture}
use payment_rollup.Host.Fixture.{Fixture, exits_of, fixture}

hex-append : (xs ys : Bytes) → hex (xs ++ ys) ≡ hex xs ++ hex ys
unfolding hex
hex-append [] ys = refl
hex-append (x ∷ xs) ys = rw (hex-append xs ys)

length-hex : (xs : Bytes) → length (hex xs) ≡ 2 * length xs
unfolding hex
length-hex [] = refl
length-hex (x ∷ xs) = omega (arith, length-hex xs)

join-hex : (cs : List Bytes) → join (map hex cs) ≡ hex (join cs)
unfolding hex
join-hex [] = refl
join-hex (c ∷ cs) = ap (λ t. hex c ++ t) (join-hex cs) ∙ sym (hex-append c (join cs))

length-map {ℓ κ} :
    {A : Type ℓ} {B : Type κ} (f : A → B) (xs : List A) → length (map f xs) ≡ length xs
length-map f [] = refl
length-map f (x ∷ xs) = ap suc (length-map f xs)

hex_words :
    (a b c d e f : Bytes)
    → hex (a ++ (b ++ (c ++ (d ++ (e ++ f)))))
      ≡ hex a ++ (hex b ++ (hex c ++ (hex d ++ (hex e ++ hex f))))
hex_words a b c d e f = simp hex-append

module _ ⦃p : Primitives⦄ where
  -- For a settled block with an old root and an old inbox chain of 32 bytes: the text of the public
  -- values is that of the six words which the fixture also gives one by one, in their order; the
  -- texts of the chunks, as many as the fixture counts, make up the text of the batch, which has two
  -- characters for each byte that the batch is declared to have.
  pub fixture_consistent :
      (block : Block) (entry : Entry) (include_sidecar : Bool) (proof : Option ProofFixture)
      {s : Settlement} {shown : Fixture}
      → IsDigest block.old_root
      → IsDigest block.old_inbox_chain
      → for_block block ≡ ok s
      → fixture entry s include_sidecar proof ≡ ok shown
      → (shown.public_values
          ≡ shown.old_root
            ++ (shown.new_root
                ++ (shown.batch_commitment
                    ++ (shown.inbox_chain_from
                        ++ (shown.inbox_chain_to ++ shown.withdrawal_chain)))))
        × (join shown.chunks ≡ shown.batch)
        × (length shown.chunks ≡ shown.chunk_count)
        × (length shown.batch ≡ 2 * shown.batch_length)
  unfolding fixture settled_commitment batch_length settled_chunks settled_chunk_count public_values
  fixture_consistent block entry include_sidecar proof {s} r a settled h =
      let (exits, _, done) = >>=-eq-ok (exits_of entry s.domain) _ h in
      let (whole, w) = for_block-public_values block r a settled in
      let (_, joined) = (chunks_unique s.batch_bytes _).1 refl in
      let chunks = settled_chunks s in
      subst
        (λ (z : Fixture).
          (z.public_values
            ≡ z.old_root
              ++ (z.new_root
                  ++ (z.batch_commitment
                      ++ (z.inbox_chain_from ++ (z.inbox_chain_to ++ z.withdrawal_chain)))))
          × (join z.chunks ≡ z.batch)
          × (length z.chunks ≡ z.chunk_count)
          × (length z.batch ≡ 2 * z.batch_length))
        (ok-injective done)
        (
          ap hex whole
              ∙ hex_words s.old_root s.new_root (batch_commitment s.domain s.batch_bytes)
                  s.old_inbox_chain s.new_inbox_chain s.withdrawal_chain
              ∙ ap
                  (λ t.
                    hex s.old_root
                    ++ (hex s.new_root
                        ++ (hex t
                            ++ (hex s.old_inbox_chain
                                ++ (hex s.new_inbox_chain ++ hex s.withdrawal_chain)))))
                  (sym w.third),
          join-hex chunks ∙ ap hex joined,
          length-map hex chunks ∙ length-chunks s.batch_bytes,
          length-hex s.batch_bytes,
        )
