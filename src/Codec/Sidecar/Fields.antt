-- ===== src/Codec/Sidecar/Fields.antt =====
-- The witnesses and signatures of a sidecar (crates/payment-rollup/src/codec.rs) read back what was
-- pushed.
use payment_rollup.Prelude.{
  ◌*◌, ◌≤◌, ◌≡◌, refl, List, [], ◌∷◌, ◌++◌, arith, append_assoc, le→leb, Option, none, some, ok,
  length, length-append, All,
}
use payment_rollup.Bytes.{Bytes, IsArray}
use payment_rollup.Account
use payment_rollup.Account.{
  Account, IsAccount, Digest, Scheme, scheme_size, identifier, from_identifier, managed, ed25519,
  falcon1024_hybrid_ed25519,
}
use payment_rollup.Merkle.Path.{depth_limit}
use payment_rollup.Merkle.Tree.{Slot, own, neighbor}
use payment_rollup.Txn.{Signature, LeafWitness}
use payment_rollup.Codec.Reader.{Read, usize_max, byte, put_varint, put_bytes}
use payment_rollup.Codec.Varint.{put_varint_shape}
use payment_rollup.Codec.Fields.{
  take_bytes-append, account-encode, count-put_varint, read_bytes-put_bytes,
  from_identifier-identifier,
}
use payment_rollup.Codec.Sidecar.{
  put_optional_account, put_siblings, put_slot, put_witness, put_signature, take_tagged_account,
  take_optional_account, take_siblings, take_tagged_slot, take_slot, take_witness, take_signature,
}

-- What the types of a witness allow; a proof is no deeper than an address.
abbrev pub IsOptionalAccount : Option Account → Type 0
IsOptionalAccount none = Unit
IsOptionalAccount (some a) = IsAccount a

abbrev pub IsSlot : Slot → Type 0
IsSlot own = Unit
IsSlot (neighbor address a) = IsArray 32 address × IsAccount a

pub record IsWitness (w : LeafWitness) : Type 0 where
  pub held_fits : IsOptionalAccount w.old_account
  pub shallow : length w.proof.siblings ≤ depth_limit
  pub siblings_fit : All (λ s. length s ≡ 32) w.proof.siblings
  pub slot_fits : IsSlot w.proof.slot

-- A signature whose parts are no longer than a size can be.
pub record IsSignature (s : Signature) : Type 0 where
  pub key_fits : length s.pub_key ≤ usize_max
  pub sig_fits : length s.sig ≤ usize_max

-- A reader that gives `a` from `bytes`, whatever follows them.
abbrev pub Reads : {A : Type 0} → (Bytes → Read A) → Bytes → A → Type 0
Reads read bytes a = (rest : Bytes) → read (bytes ++ rest) ≡ ok (a, rest)

optional_account-Reads :
    (held : Option Account)
    → IsOptionalAccount held
    → Reads take_optional_account (put_optional_account held) held
unfolding take_optional_account take_tagged_account put_optional_account byte
optional_account-Reads none h rest = refl
optional_account-Reads (some a) h rest = rw (account-encode a rest h)

slot-Reads : (slot : Slot) → IsSlot slot → Reads take_slot (put_slot slot) slot
unfolding take_slot take_tagged_slot put_slot byte
slot-Reads own h rest = refl
slot-Reads (neighbor b a) h rest =
    rw (append_assoc b (Account.encode a) rest) (
      rw (take_bytes-append 32 b (Account.encode a ++ rest) h.0.0) (rw (account-encode a rest h.1)))

siblings_read :
    (ss : List Digest)
    → All (λ s. length s ≡ 32) ss
    → Reads (take_siblings (length ss)) (put_siblings ss) ss
unfolding take_siblings put_siblings
siblings_read [] h rest = refl
siblings_read (s ∷ ss) h rest =
    rw (append_assoc s (put_siblings ss) rest)
      (rw (take_bytes-append 32 s (put_siblings ss ++ rest) h.0) (rw (siblings_read ss h.1 rest)))

length-put_siblings :
    (ss : List Digest) → All (λ s. length s ≡ 32) ss → length (put_siblings ss) ≡ length ss * 32
unfolding put_siblings
length-put_siblings [] h = refl
length-put_siblings (s ∷ ss) h =
    omega (arith, length-append s (put_siblings ss), h.0, length-put_siblings ss h.1)

-- `take_witness` reads back what `put_witness` pushed.
pub witness-Reads : (w : LeafWitness) → IsWitness w → Reads take_witness (put_witness w) w
unfolding take_witness put_witness
witness-Reads w h rest =
    let ss : List Digest = w.proof.siblings in
    let held = put_optional_account w.old_account in
    let depth = put_varint (length ss) in
    let body = put_siblings ss in
    let slot = put_slot w.proof.slot in
    rw (append_assoc held (depth ++ (body ++ slot)) rest) (
      rw (optional_account-Reads w.old_account h.held_fits ((depth ++ (body ++ slot)) ++ rest)) (
        rw (append_assoc depth (body ++ slot) rest) (
          rw
            (count-put_varint (length ss) 32 ((body ++ slot) ++ rest) (omega (arith, h.shallow))
              (omega (arith, h.shallow))
              (omega (
                arith,
                length-append (body ++ slot) rest,
                length-append body slot,
                length-put_siblings ss h.siblings_fit,
              )))
            (rw (le→leb (length ss) depth_limit h.shallow, append_assoc body slot rest)
              (rw (siblings_read ss h.siblings_fit (slot ++ rest))
                (rw (slot-Reads w.proof.slot h.slot_fits rest)))))))

length-identifier : (s : Scheme) → length (identifier s) ≡ scheme_size
unfolding identifier
length-identifier managed = refl
length-identifier ed25519 = refl
length-identifier falcon1024_hybrid_ed25519 = refl

-- `take_signature` reads back what was pushed for a signature.
pub signature-Reads : (s : Signature) → IsSignature s → Reads take_signature (put_signature s) s
unfolding take_signature put_signature
signature-Reads s h rest =
    let id = identifier s.scheme in
    let key = put_bytes s.pub_key in
    let sig = put_bytes s.sig in
    rw (append_assoc id (key ++ sig) rest) (
      rw (take_bytes-append scheme_size id ((key ++ sig) ++ rest) (length-identifier s.scheme)) (
        rw (from_identifier-identifier s.scheme, append_assoc key sig rest)
          (rw (read_bytes-put_bytes s.pub_key (sig ++ rest) h.key_fits)
            (rw (read_bytes-put_bytes s.sig rest h.sig_fits)))))

length-put_optional_account : (held : Option Account) → 1 ≤ length (put_optional_account held)
unfolding put_optional_account
length-put_optional_account none = omega arith
length-put_optional_account (some a) = omega arith

length-put_slot : (slot : Slot) → 1 ≤ length (put_slot slot)
unfolding put_slot
length-put_slot own = omega arith
length-put_slot (neighbor b a) = omega arith

-- The three bytes that a witness takes at least.
pub length-put_witness : (w : LeafWitness) → IsWitness w → 3 ≤ length (put_witness w)
unfolding put_witness
length-put_witness w h =
    let depth = put_varint (length w.proof.siblings) in
    let body = put_siblings w.proof.siblings in
    let slot = put_slot w.proof.slot in
    omega (
      arith,
      length-append (put_optional_account w.old_account) (depth ++ (body ++ slot)),
      length-append depth (body ++ slot),
      length-append body slot,
      length-put_optional_account w.old_account,
      (put_varint_shape (length w.proof.siblings) (omega (arith, h.shallow))).0,
      length-put_slot w.proof.slot,
    )
