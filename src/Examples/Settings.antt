-- ===== src/Examples/Settings.antt =====
-- The command line of crates/sp1-host/src/main.rs on a few settings.
use payment_rollup.Prelude.{◌+◌, ◌^◌, ◌≡◌, refl, true, false, some, [], ◌∷◌, arith, ok}
use payment_rollup.Bytes.{Bytes, ascii, bytes_eq, to_be_bytes, to_be_bytes-IsArray}
use payment_rollup.Settlement.{hex}
use payment_rollup.Host.{Args, parse_hash, parse_args, contains, word_of}
use payment_rollup.Host.Hash.{signed, parse_hash-hex}
use payment_rollup.Host.Arguments.{command_line, IsAskable, parse_args-command_line}
use payment_rollup.Examples.Keys.{strict}

abbrev genesis_id : Bytes
genesis_id = to_be_bytes 32 (2 ^ 250 + 77)

abbrev fives : Bytes
fives =
    5 ∷ 5 ∷ 5 ∷ 5 ∷ 5 ∷ 5 ∷ 5 ∷ 5 ∷ 5 ∷ 5 ∷ 5 ∷ 5 ∷ 5 ∷ 5 ∷ 5 ∷ 5 ∷ 5 ∷ 5 ∷ 5 ∷ 5 ∷ 5 ∷ 5 ∷ 5 ∷ 5
    ∷ 5 ∷ 5 ∷ 5 ∷ 5 ∷ 5 ∷ 5 ∷ 5 ∷ 5 ∷ []

parse_hash-hex_example :
    (parse_hash (hex genesis_id) ≡ ok genesis_id) × (parse_hash (signed fives) ≡ ok fives)
parse_hash-hex_example =
    parse_hash-hex genesis_id fives (to_be_bytes-IsArray 32 (2 ^ 250 + 77)) refl (omega arith)

abbrev settings : Args
settings = record {
  out = some (ascii "fixtures.json");
  include_sidecar = true;
  names = ascii "deposits-only" ∷ [];
  genesis_hash = genesis_id;
  app_id = 2 ^ 40 + 7;
  prove = false;
  report = true;
  network = ascii "reserved";
}

settings-IsAskable : IsAskable settings
unfolding contains word_of bytes_eq
settings-IsAskable = record {
  hash_fits = to_be_bytes-IsArray 32 (2 ^ 250 + 77);
  id_fits = omega arith;
  known = refl;
  plain = (refl, tt);
}

parse_args-command_line_example : parse_args (command_line settings) ≡ ok (some settings)
parse_args-command_line_example = parse_args-command_line settings settings-IsAskable
