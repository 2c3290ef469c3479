-- ===== src/Codec/Dictionary.antt =====
-- The two address dictionaries of crates/payment-rollup/src/codec.rs stay in step.
use payment_rollup.Prelude.{
  ℕ, zero, suc, ◌+◌, ◌-◌, ◌≤◌, ◌<◌, ◌≡◌, refl, sym, ap, ◌∙◌, subst, inl, inr, false, List, [], ◌∷◌,
  ◌++◌, arith, le→leb, ◌==◌, if◌then◌else◌, Option-cases, Bool-cases, ok, length, length-append,
  get_elem?, Option, none, some,
}
use mathlib.Core.Option.{some-injective}
use payment_rollup.Bytes.{Bytes, IsArray, bytes_eq, bytes_eq→eq}
use payment_rollup.Account.{Address}
use payment_rollup.Codec.Reader.{usize_max, put_varint, varint, read_varint}
use payment_rollup.Codec.Varint.{varint-put_varint}
use payment_rollup.Codec.Fields.{take_bytes-append}
use payment_rollup.Codec.Batch.{Dictionary, position, put_address, take_address}

-- The encoder's positions are the decoder's indices, counted from one.
pub record InStep (d : Dictionary) (seen : List Address) : Type 0 where
  pub paired : length d ≡ length seen
  pub points :
      (a : Address) (n : ℕ)
      → position d a ≡ some n
      → (0 < n) × (n ≤ length seen) × (get_elem? seen (n - 1) ≡ some a)

pub InStep-nil : InStep [] []
unfolding position
InStep-nil = record { paired = refl; points = λ a n h. cc }

position-append :
    (d : Dictionary) (a c : Address) (n : ℕ)
    → position (d ++ (a, n) ∷ []) c
      ≡ elim (position d c) [ some m ↦ some m | none ↦ if bytes_eq a c then some n else none ]
unfolding position
position-append [] a c n = refl
position-append ((b, m) ∷ rest) a c n = elim (Bool-cases (bytes_eq b c)) [
  | inl e ↦ rw e
  | inr e ↦ rw e (position-append rest a c n)
]

get_elem?-append_last :
    (xs : List Address) (a : Address) → get_elem? (xs ++ a ∷ []) (length xs) ≡ some a
get_elem?-append_last [] a = refl
get_elem?-append_last (x ∷ xs) a = get_elem?-append_last xs a

get_elem?-append_lt :
    (xs : List Address) (a : Address) (i : ℕ)
    → i < length xs
    → get_elem? (xs ++ a ∷ []) i ≡ get_elem? xs i
get_elem?-append_lt [] a i h = absurd (omega arith)
get_elem?-append_lt (x ∷ xs) a zero h = refl
get_elem?-append_lt (x ∷ xs) a (suc i) h = get_elem?-append_lt xs a i (omega arith)

same_number : {m n : ℕ} → ◌≡◌ {A = Option ℕ} (some m) (some n) → m ≡ n
same_number {m} {n} e = some-injective m n e

-- Both sides add the same address.
pub InStep-append :
    (d : Dictionary) (seen : List Address) (a : Address)
    → InStep d seen
    → InStep (d ++ (a, length d + 1) ∷ []) (seen ++ a ∷ [])
InStep-append d seen a s = record {
  paired =
      omega
        (arith, s.paired, length-append d ((a, length d + 1) ∷ []), length-append seen (a ∷ []));
  points = λ c n h. elim (Option-cases (position d c)) [
    | inl absent ↦ last c n (rw (position-append d a c (length d + 1), absent) at h)
    | inr (m, present) ↦
        let (pos, le, at) = s.points c m present in
        let e : m ≡ n = same_number (rw (position-append d a c (length d + 1), present) at h) in
        subst (Found c) e (
          pos,
          omega (arith, le, length-append seen (a ∷ [])),
          get_elem?-append_lt seen a (m - 1) (omega (arith, pos, le)) ∙ at,
        )
  ];
}
  where
    Found : Address → ℕ → Type 0
    Found c k =
        (0 < k) × (k ≤ length (seen ++ a ∷ [])) × (get_elem? (seen ++ a ∷ []) (k - 1) ≡ some c)

    last :
        (c : Address) (n : ℕ)
        → (if bytes_eq a c then some (length d + 1) else none) ≡ some n
        → Found c n
    last c n h = elim (Bool-cases (bytes_eq a c)) [
      | inl e ↦
          let m : length d + 1 ≡ n = same_number (rw e at h) in
          let at : n - 1 ≡ length seen = omega (arith, m, s.paired) in
          (
            omega (arith, m),
            omega (arith, m, s.paired, length-append seen (a ∷ [])),
            ap (get_elem? (seen ++ a ∷ [])) at
                ∙ get_elem?-append_last seen a
                ∙ ap some (bytes_eq→eq a c e),
          )
      | inr e ↦ absurd (cc (rw e at h))
    ]

-- What reading a reference gives, whatever follows it: the address, and the dictionary afterwards.
pub record Taken (d : Dictionary) (seen : List Address) (a : Address) : Type 0 where
  pub seen_after : List Address
  pub taken :
      (rest : Bytes) → take_address seen ((put_address d a).0 ++ rest) ≡ ok ((a, seen_after), rest)
  pub in_step : InStep (put_address d a).1 seen_after
  pub grows : length seen_after ≤ length seen + 1

put_known :
    (d : Dictionary) (a : Address) (n : ℕ)
    → position d a ≡ some n
    → put_address d a ≡ (put_varint n, d)
unfolding put_address
put_known d a n e = rw (put_address, e)

put_new :
    (d : Dictionary) (a : Address)
    → position d a ≡ none
    → put_address d a ≡ (0 ∷ a, d ++ (a, length d + 1) ∷ [])
unfolding put_address
put_new d a e = rw (put_address, e)

take_known :
    (seen : List Address) (a : Address) (n : ℕ) (rest : Bytes)
    → 0 < n
    → n ≤ usize_max
    → get_elem? seen (n - 1) ≡ some a
    → take_address seen (put_varint n ++ rest) ≡ ok ((a, seen), rest)
unfolding take_address
take_known seen a n rest pos small at =
    let positive : (n == 0) ≡ false = ground (arith, pos) in
    rw (varint-put_varint n rest (omega (arith, small)))
      (rw (positive, le→leb (n - 1) usize_max (omega (arith, small)), at))

take_new :
    (seen : List Address) (a : Address) (rest : Bytes)
    → length a ≡ 32
    → take_address seen (0 ∷ a ++ rest) ≡ ok ((a, seen ++ a ∷ []), rest)
unfolding take_address varint read_varint
take_new seen a rest h = rw (take_bytes-append 32 a rest h)

-- What one side writes for an address, the other side reads as that address, and their dictionaries
-- stay in step, for an address of 32 bytes and a dictionary whose places fit a size.
pub take_address-put_address :
    (d : Dictionary) (seen : List Address) (a : Address)
    → InStep d seen
    → IsArray 32 a
    → length seen ≤ usize_max
    → Taken d seen a
take_address-put_address d seen a s ha small = elim (Option-cases (position d a)) [
  | inl absent ↦
      let put = sym (put_new d a absent) in
      record {
        seen_after = seen ++ a ∷ [];
        taken = λ rest.
            subst
              (λ (q : Bytes × Dictionary).
                take_address seen (q.0 ++ rest) ≡ ok ((a, seen ++ a ∷ []), rest))
              put (take_new seen a rest ha.0);
        in_step =
            subst (λ (q : Bytes × Dictionary). InStep q.1 (seen ++ a ∷ [])) put
              (InStep-append d seen a s);
        grows = omega (arith, length-append seen (a ∷ []));
      }
  | inr (n, present) ↦
      let put = sym (put_known d a n present) in
      let (pos, le, at) = s.points a n present in
      record {
        seen_after = seen;
        taken = λ rest.
            subst
              (λ (q : Bytes × Dictionary). take_address seen (q.0 ++ rest) ≡ ok ((a, seen), rest))
              put (take_known seen a n rest pos (omega (arith, le, small)) at);
        in_step = subst (λ (q : Bytes × Dictionary). InStep q.1 seen) put s;
        grows = omega arith;
      }
]
