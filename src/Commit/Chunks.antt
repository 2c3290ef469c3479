-- ===== src/Commit/Chunks.antt =====
-- How a batch is cut into the chunks it is posted in (crates/payment-rollup/src/lib.rs).
use payment_rollup.Prelude.{
  ℕ, zero, suc, ◌≤◌, ◌<◌, ◌≡◌, refl, sym, ap, ◌∙◌, List, [], ◌∷◌, ◌++◌, arith, length, take, drop,
  length-take, length-drop, length-append, take-append, drop-append, append-nil, subst, ◌↔◌,
  take-append-drop,
}
use payment_rollup.Bytes.{Bytes}
use payment_rollup.Commit.{chunk_size, chunk_count, chunks_loop, chunks}

-- The bytes of all chunks, one after the other.
abbrev pub join : List Bytes → Bytes
join [] = []
join (c ∷ cs) = c ++ join cs

-- Full chunks, then one that is not empty.
abbrev pub IsCut : List Bytes → Type 0
IsCut [] = Unit
IsCut (c ∷ []) = (0 < length c) × (length c ≤ chunk_size)
IsCut (c ∷ d ∷ rest) = (length c ≡ chunk_size) × IsCut (d ∷ rest)

join-chunks_loop :
    (fuel : ℕ) (bytes : Bytes) → length bytes ≤ fuel → join (chunks_loop fuel bytes) ≡ bytes
unfolding chunks_loop
join-chunks_loop zero [] h = refl
join-chunks_loop zero (b ∷ bytes) h = absurd (omega arith)
join-chunks_loop (suc fuel) [] h = refl
join-chunks_loop (suc fuel) (b ∷ bytes) h =
    ap (λ z. take chunk_size (b ∷ bytes) ++ z)
      (join-chunks_loop fuel (drop chunk_size (b ∷ bytes))
        (omega (arith, length-drop chunk_size (b ∷ bytes))))
    ∙ take-append-drop chunk_size (b ∷ bytes)

-- A full chunk in front of a cut is a cut, and so is a short one in front of none.
cons-IsCut :
    (c : Bytes) (rest : Bytes) (fuel : ℕ)
    → 0 < length c
    → length c ≤ chunk_size
    → (0 < length rest → length c ≡ chunk_size)
    → IsCut (chunks_loop fuel rest)
    → IsCut (c ∷ chunks_loop fuel rest)
unfolding chunks_loop
cons-IsCut c rest zero pos le full s = (pos, le)
cons-IsCut c [] (suc fuel) pos le full s = (pos, le)
cons-IsCut c (b ∷ rest) (suc fuel) pos le full s = (full (omega arith), s)

chunks_loop-IsCut : (fuel : ℕ) (bytes : Bytes) → IsCut (chunks_loop fuel bytes)
unfolding chunks_loop
chunks_loop-IsCut zero bytes = tt
chunks_loop-IsCut (suc fuel) [] = tt
chunks_loop-IsCut (suc fuel) (b ∷ bytes) =
    let taken = length-take chunk_size (b ∷ bytes) in
    let left = length-drop chunk_size (b ∷ bytes) in
    cons-IsCut (take chunk_size (b ∷ bytes)) (drop chunk_size (b ∷ bytes)) fuel
      (omega (arith, taken)) (omega (arith, taken)) (λ more. omega (arith, taken, left, more))
      (chunks_loop-IsCut fuel (drop chunk_size (b ∷ bytes)))

length-chunks_loop :
    (fuel : ℕ) (bytes : Bytes)
    → length bytes ≤ fuel
    → length (chunks_loop fuel bytes) ≡ chunk_count (length bytes)
unfolding chunks_loop chunk_count
length-chunks_loop zero [] h = omega arith
length-chunks_loop zero (b ∷ bytes) h = absurd (omega arith)
length-chunks_loop (suc fuel) [] h = omega arith
length-chunks_loop (suc fuel) (b ∷ bytes) h =
    let left = length-drop chunk_size (b ∷ bytes) in
    omega (arith, left, length-chunks_loop fuel (drop chunk_size (b ∷ bytes)) (omega (arith, left)))

take_all : (n : ℕ) (xs : Bytes) → length xs ≤ n → take n xs ≡ xs
take_all zero [] h = refl
take_all zero (x ∷ xs) h = absurd (omega arith)
take_all (suc n) [] h = refl
take_all (suc n) (x ∷ xs) h = ap (λ t. x ∷ t) (take_all n xs (omega arith))

drop_all : (n : ℕ) (xs : Bytes) → length xs ≤ n → drop n xs ≡ []
drop_all zero [] h = refl
drop_all zero (x ∷ xs) h = absurd (omega arith)
drop_all (suc n) [] h = refl
drop_all (suc n) (x ∷ xs) h = drop_all n xs (omega arith)

chunks_loop-nil : (fuel : ℕ) → chunks_loop fuel [] ≡ []
unfolding chunks_loop
chunks_loop-nil zero = refl
chunks_loop-nil (suc fuel) = refl

-- The first chunk of bytes whose cut is known.
chunks_loop-cons :
    (fuel : ℕ) (bytes c rest : Bytes)
    → 0 < length bytes
    → take chunk_size bytes ≡ c
    → drop chunk_size bytes ≡ rest
    → chunks_loop (suc fuel) bytes ≡ c ∷ chunks_loop fuel rest
unfolding chunks_loop
chunks_loop-cons fuel [] c rest pos t d = absurd (omega arith)
chunks_loop-cons fuel (b ∷ bytes) c rest pos t d = λ i. t i ∷ chunks_loop fuel (d i)

cut_is_chunks_loop :
    (cs : List Bytes) (fuel : ℕ)
    → IsCut cs
    → length (join cs) ≤ fuel
    → cs ≡ chunks_loop fuel (join cs)
cut_is_chunks_loop [] fuel s h = sym (chunks_loop-nil fuel)
cut_is_chunks_loop (c ∷ []) zero s h = absurd (omega (arith, s.0, h, length-append c []))
cut_is_chunks_loop (c ∷ []) (suc fuel) s h = sym (
    chunks_loop-cons fuel (c ++ []) c [] (omega (arith, s.0, length-append c []))
      (take_all chunk_size (c ++ []) (omega (arith, s.1, length-append c [])) ∙ append-nil c)
      (drop_all chunk_size (c ++ []) (omega (arith, s.1, length-append c [])))
    ∙ ap (λ z. c ∷ z) (chunks_loop-nil fuel))
cut_is_chunks_loop (c ∷ d ∷ rest) zero s h =
    absurd (omega (arith, s.0, h, length-append c (join (d ∷ rest))))
cut_is_chunks_loop (c ∷ d ∷ rest) (suc fuel) s h =
    let total = length-append c (join (d ∷ rest)) in
    ap (λ z. c ∷ z) (cut_is_chunks_loop (d ∷ rest) fuel s.1 (omega (arith, s.0, h, total)))
    ∙ sym (
        chunks_loop-cons fuel (c ++ join (d ∷ rest)) c (join (d ∷ rest)) (omega (arith, s.0, total))
          (subst (λ n. take n (c ++ join (d ∷ rest)) ≡ c) s.0 (take-append c (join (d ∷ rest))))
          (subst (λ n. drop n (c ++ join (d ∷ rest)) ≡ join (d ∷ rest)) s.0
            (drop-append c (join (d ∷ rest)))))

-- The chunks of a batch are the one way to cut its bytes into full chunks and a last, nonempty one.
pub chunks_unique :
    (bytes : Bytes) (cs : List Bytes) → (IsCut cs × (join cs ≡ bytes)) ↔ (cs ≡ chunks bytes)
unfolding chunks
chunks_unique bytes cs = (
  λ (s, e). subst (λ z. cs ≡ chunks z) e (cut_is_chunks_loop cs (length (join cs)) s (omega arith)),
  λ e. (
    subst IsCut (sym e) (chunks_loop-IsCut (length bytes) bytes),
    ap join e ∙ join-chunks_loop (length bytes) bytes (omega arith),
  ),
)

-- A batch is posted in as many chunks as `chunk_count` says of its length.
pub length-chunks : (bytes : Bytes) → length (chunks bytes) ≡ chunk_count (length bytes)
unfolding chunks
length-chunks bytes = length-chunks_loop (length bytes) bytes (omega arith)
