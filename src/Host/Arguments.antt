-- ===== src/Host/Arguments.antt =====
-- Every setting of crates/sp1-host/src/main.rs can be asked for on its command line.
use payment_rollup.Prelude.{
  ℕ, zero, suc, ◌+◌, ◌*◌, ◌/◌, ◌%◌, ◌^◌, ◌<◌, ◌≡◌, refl, sym, ap, ◌∙◌, List, [], ◌∷◌, ◌++◌,
  append-nil, append_assoc, arith, All, true, false, if◌then◌else◌, Bool, Option, none, some, ok,
}
use native.Mathlib.Nat.{pow-suc}
use payment_rollup.Bytes.{Bytes, ascii, IsU64, IsArray, bytes_eq}
use payment_rollup.Account.{zeros32}
use payment_rollup.Settlement.{hex}
use payment_rollup.Host.{
  Args, networks, contains, parse_digits, parse_unsigned, parse_u64, parse_hash, word_of, Word,
  set_value, parse_loop, parse_args,
}
use payment_rollup.Host.Hash.{parse_hash-hex}

-- The last `k` decimal digits of a number.
unfoldable pub decimal : ℕ → ℕ → Bytes
decimal zero n = []
decimal (suc k) n = decimal k (n / 10) ++ (48 + n % 10) ∷ []

parse_digits-step :
    (acc r : ℕ) (rest : Bytes)
    → r < 10
    → IsU64 (acc * 10 + r)
    → parse_digits acc ((48 + r) ∷ rest) ≡ parse_digits (acc * 10 + r) rest
unfolding parse_digits
parse_digits-step acc r rest h u = ground arith

parse_digits-decimal :
    (k n : ℕ) (rest : Bytes)
    → n < 10 ^ k
    → IsU64 n
    → parse_digits 0 (decimal k n ++ rest) ≡ parse_digits n rest
unfolding decimal
parse_digits-decimal zero n rest h u = ap (λ m. parse_digits m rest) (omega arith)
parse_digits-decimal (suc k) n rest h u =
    let small : n / 10 < 10 ^ k = omega (arith, pow-suc 10 k) in
    let whole : n / 10 * 10 + n % 10 ≡ n = omega arith in
    rw append_assoc (
      parse_digits-decimal k (n / 10) ((48 + n % 10) ∷ rest) small (omega arith)
      ∙ parse_digits-step (n / 10) (n % 10) rest (omega arith) (omega arith)
      ∙ ap (λ m. parse_digits m rest) whole)

-- Two digits or more are read as they are: the first is no sign.
parse_unsigned-decimal :
    (k n : ℕ) (c : ℕ) (rest : Bytes)
    → parse_unsigned (decimal (suc k) n ++ c ∷ rest)
      ≡ parse_digits 0 (decimal (suc k) n ++ c ∷ rest)
unfolding decimal parse_unsigned
parse_unsigned-decimal zero n c rest = ground arith
parse_unsigned-decimal (suc k) n c rest =
    rw append_assoc (parse_unsigned-decimal k (n / 10) (48 + n % 10) (c ∷ rest))

decimal_read : (n : ℕ) → IsU64 n → parse_digits 0 (decimal 20 n) ≡ some n
unfolding parse_digits
decimal_read n u =
    ap (parse_digits 0) (sym (append-nil (decimal 20 n)))
    ∙ parse_digits-decimal 20 n [] (omega (arith, u)) u

decimal_unsigned : (n : ℕ) → parse_unsigned (decimal 20 n) ≡ parse_digits 0 (decimal 20 n)
unfolding decimal
decimal_unsigned n = parse_unsigned-decimal 18 (n / 10) (48 + n % 10) []

parse_u64-decimal : (n : ℕ) → IsU64 n → parse_u64 (decimal 20 n) ≡ ok n
unfolding parse_u64
parse_u64-decimal n u = rw (decimal_unsigned n ∙ decimal_read n u)

hash_read : (hash : Bytes) → IsArray 32 hash → parse_hash (hex hash) ≡ ok hash
hash_read hash h = (parse_hash-hex hash zeros32 h refl (omega arith)).0

-- The arguments that ask for some settings: the flags, the options with their values, the names.
abbrev flag : Bool → Bytes → List Bytes → List Bytes
flag on text rest = if on then text ∷ rest else rest

abbrev out_option : Option Bytes → List Bytes → List Bytes
out_option none rest = rest
out_option (some path) rest = ascii "--out" ∷ path ∷ rest

unfoldable pub command_line : Args → List Bytes
command_line args =
    ascii "--network"
    ∷ args.network
    ∷ ascii "--genesis-hash"
    ∷ hex args.genesis_hash
    ∷ ascii "--app-id"
    ∷ decimal 20 args.app_id
    ∷ flag args.prove (ascii "--prove") (
        flag args.report (ascii "--report")
          (flag args.include_sidecar (ascii "--include-sidecar") (out_option args.out args.names)))

-- Settings within their types, of a network there is, with scenarios that do not look like options.
pub record IsAskable (args : Args) : Type 0 where
  pub hash_fits : IsArray 32 args.genesis_hash
  pub id_fits : IsU64 args.app_id
  pub known : contains networks args.network ≡ true
  pub plain : All (λ n. word_of n ≡ Word.name) args.names

parse_loop-names :
    (names : List Bytes) (args : Args)
    → All (λ n. word_of n ≡ Word.name) names
    → parse_loop names none args ≡ ok (some (record args { names = args.names ++ names }))
unfolding parse_loop
parse_loop-names [] args h = rw append-nil
parse_loop-names (n ∷ ns) args h =
    rw (parse_loop, h.0) (parse_loop-names ns _ h.1 ∙ rw append_assoc)

module _ (rest : List Bytes) (args : Args) where
  prove_flag :
      (on : Bool)
      → parse_loop (flag on (ascii "--prove") rest) none (record args { prove = false })
        ≡ parse_loop rest none (record args { prove = on })
  unfolding parse_loop word_of bytes_eq
  prove_flag true = refl
  prove_flag false = refl

  report_flag :
      (on : Bool)
      → parse_loop (flag on (ascii "--report") rest) none (record args { report = false })
        ≡ parse_loop rest none (record args { report = on })
  unfolding parse_loop word_of bytes_eq
  report_flag true = refl
  report_flag false = refl

  sidecar_flag :
      (on : Bool)
      → parse_loop
          (flag on (ascii "--include-sidecar") rest)
          none
          (record args { include_sidecar = false })
        ≡ parse_loop rest none (record args { include_sidecar = on })
  unfolding parse_loop word_of bytes_eq
  sidecar_flag true = refl
  sidecar_flag false = refl

  out_read :
      (out : Option Bytes)
      → parse_loop (out_option out rest) none (record args { out = none })
        ≡ parse_loop rest none (record args { out = out })
  unfolding parse_loop word_of bytes_eq set_value
  out_read none = refl
  out_read (some path) = refl

-- Settings whose genesis hash is 32 bytes, whose application ID fits 64 bits, whose network there is
-- and whose scenarios do not begin with a dash are what `parse_args` makes of a command line.
pub parse_args-command_line :
    (args : Args) → IsAskable args → parse_args (command_line args) ≡ ok (some args)
unfolding parse_args command_line parse_loop set_value word_of bytes_eq
parse_args-command_line args h =
    let named = out_option args.out args.names in
    let shown = flag args.include_sidecar (ascii "--include-sidecar") named in
    let start : Args = record args {
      out = none;
      include_sidecar = false;
      names = [];
      prove = false;
      report = false;
    } in
    rw (h.known, hash_read args.genesis_hash h.hash_fits, parse_u64-decimal args.app_id h.id_fits)
      (prove_flag (flag args.report (ascii "--report") shown) start args.prove
        ∙ report_flag shown (record start { prove = args.prove }) args.report
        ∙ sidecar_flag named (record start { prove = args.prove; report = args.report })
            args.include_sidecar
        ∙ out_read args.names (record args { out = none; names = [] }) args.out
        ∙ parse_loop-names args.names (record args { names = [] }) h.plain)
