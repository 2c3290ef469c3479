-- ===== src/Host.antt =====
-- The command line of crates/sp1-host/src/main.rs. A text is its UTF-8 bytes.
pub mod Hash
pub mod Arguments
pub mod Proving
pub mod Fixture
pub mod Run
pub mod Agrees
pub mod Consistent
pub mod Fails
pub mod Emits
pub mod Fresh
pub mod Exiting
pub mod Failures
use payment_rollup.Prelude.{
  ℕ, ◌+◌, ◌-◌, ◌*◌, ◌^◌, ltb, leb, ◌==◌, if◌then◌else◌, Bool, true, false, not, ◌&&◌, ◌||◌, Option,
  none, some, List, [], ◌∷◌, ◌++◌, Result, ok, err, guard, ok_or, ◌>>=◌, ◌>>◌, length,
}
use payment_rollup.Bytes.{Bytes, ascii, bytes_eq}
use payment_rollup.Account.{zeros32}

pub record Args : Type 0 where
  pub out : Option Bytes
  pub include_sidecar : Bool
  pub names : List Bytes
  pub genesis_hash : Bytes
  pub app_id : ℕ
  pub prove : Bool
  pub report : Bool
  pub network : Bytes

-- `Args::default`
abbrev pub default_args : Args
default_args = record {
  out = none;
  include_sidecar = false;
  names = [];
  genesis_hash = zeros32;
  app_id = 0;
  prove = false;
  report = false;
  network = ascii "mainnet";
}

-- The options that take the argument after them as their value.
pub data Valued : Type 0 where
  network genesis_hash app_id out : Valued

-- The messages of `parse_args`, and the panic of a slice that cuts a character in two.
pub data ArgsError : Type 0 where
  missing_value : Valued → ArgsError
  unknown_network : Bytes → ArgsError
  hash_length hash_digits app_id_number : ArgsError
  unknown_option : Bytes → ArgsError
  cut_character : ArgsError

-- `NETWORKS`
abbrev pub networks : List Bytes
networks = ascii "mainnet" ∷ ascii "auction" ∷ ascii "reserved" ∷ ascii "hosted" ∷ []

unfoldable pub contains : List Bytes → Bytes → Bool
contains [] name = false
contains (x ∷ xs) name = bytes_eq x name || contains xs name

-- `char::to_digit(16)`
unfoldable pub to_digit : ℕ → Option ℕ
to_digit c =
    if leb 48 c && leb c 57
    then some (c - 48)
    else if leb 97 c && leb c 102
    then some (c - 87)
    else if leb 65 c && leb c 70
    then some (c - 55)
    else none

-- `u8::from_str_radix(text, 16)` on a text of two bytes, of which the first may be a sign.
unfoldable pub from_str_radix : ℕ → ℕ → Option ℕ
from_str_radix c d = elim (to_digit d) [
  | none ↦ none
  | some low ↦
      if c == 43
      then some low
      else elim (to_digit c) [ none ↦ none | some high ↦ some (high * 16 + low) ]
]

-- Whether a slice may begin or end before these bytes: not within a character.
unfoldable pub is_char_boundary : Bytes → Bool
is_char_boundary [] = true
is_char_boundary (b ∷ rest) = not (leb 128 b && ltb b 192)

-- The loop of `parse_hash`, over the bytes that remain.
unfoldable pub hash_bytes : Bytes → Result ArgsError Bytes
hash_bytes [] = ok []
hash_bytes (c ∷ []) = err cut_character
hash_bytes (c ∷ d ∷ rest) = do
  guard (is_char_boundary (c ∷ d ∷ rest) && is_char_boundary rest) cut_character
  byte ← ok_or (from_str_radix c d) hash_digits
  bytes ← hash_bytes rest
  ok (byte ∷ bytes)

unfoldable pub parse_hash : Bytes → Result ArgsError Bytes
parse_hash value = do guard (length value == 64) hash_length; hash_bytes value

-- `str::parse::<u64>`: digits after an optional sign, with the overflow checked at each.
unfoldable pub parse_digits : ℕ → Bytes → Option ℕ
parse_digits acc [] = some acc
parse_digits acc (c ∷ rest) =
    let next = acc * 10 + (c - 48) in
    let parsed = parse_digits next rest in
    if leb 48 c && (leb c 57 && ltb next (2 ^ 64)) then parsed else none

unfoldable pub parse_unsigned : Bytes → Option ℕ
parse_unsigned [] = none
parse_unsigned (c ∷ []) = parse_digits 0 (c ∷ [])
parse_unsigned (c ∷ d ∷ rest) =
    if c == 43 then parse_digits 0 (d ∷ rest) else parse_digits 0 (c ∷ d ∷ rest)

unfoldable pub parse_u64 : Bytes → Result ArgsError ℕ
parse_u64 value = ok_or (parse_unsigned value) app_id_number

-- The arms of the `match` on an argument.
pub data Word : Type 0 where
  help list_scenarios include_sidecar prove report unknown name : Word
  valued : Valued → Word

unfoldable pub word_of : Bytes → Word
word_of arg =
    if bytes_eq arg (ascii "-h") || bytes_eq arg (ascii "--help")
    then Word.help
    else if bytes_eq arg (ascii "--list")
    then Word.list_scenarios
    else if bytes_eq arg (ascii "--include-sidecar")
    then Word.include_sidecar
    else if bytes_eq arg (ascii "--prove")
    then Word.prove
    else if bytes_eq arg (ascii "--report")
    then Word.report
    else if bytes_eq arg (ascii "--network")
    then Word.valued Valued.network
    else if bytes_eq arg (ascii "--genesis-hash")
    then Word.valued Valued.genesis_hash
    else if bytes_eq arg (ascii "--app-id")
    then Word.valued Valued.app_id
    else if bytes_eq arg (ascii "--out")
    then Word.valued Valued.out
    else elim arg [ [] ↦ Word.name | c ∷ rest ↦ if c == 45 then Word.unknown else Word.name ]

unfoldable pub set_value : Valued → Bytes → Args → Result ArgsError Args
set_value Valued.network value args = do
  guard (contains networks value) (unknown_network value)
  ok (record args { network = value })
set_value Valued.genesis_hash value args = do
  hash ← parse_hash value
  ok (record args { genesis_hash = hash })
set_value Valued.app_id value args = do id ← parse_u64 value; ok (record args { app_id = id })
set_value Valued.out value args = ok (record args { out = some value })

-- The loop of `parse_args`, over the arguments that remain, with the option that waits for its
-- value. `none` is a run that prints the usage or the scenarios and is over.
unfoldable pub parse_loop : List Bytes → Option Valued → Args → Result ArgsError (Option Args)
parse_loop [] (some option) args = err (missing_value option)
parse_loop (value ∷ rest) (some option) args = do
  args' ← set_value option value args
  parse_loop rest none args'
parse_loop [] none args = ok (some args)
parse_loop (arg ∷ rest) none args = elim (word_of arg) [
  | Word.help ↦ ok none
  | Word.list_scenarios ↦ ok none
  | Word.include_sidecar ↦ parse_loop rest none (record args { include_sidecar = true })
  | Word.prove ↦ parse_loop rest none (record args { prove = true })
  | Word.report ↦ parse_loop rest none (record args { report = true })
  | Word.unknown ↦ err (unknown_option arg)
  | Word.name ↦ parse_loop rest none (record args { names = args.names ++ arg ∷ [] })
  | Word.valued option ↦ parse_loop rest (some option) args
]

-- `arguments` are those after the name of the program.
unfoldable pub parse_args : List Bytes → Result ArgsError (Option Args)
parse_args arguments = parse_loop arguments none default_args
