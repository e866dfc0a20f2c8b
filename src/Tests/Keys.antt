-- ===== src/Tests/Keys.antt =====
-- agent/pkg/agent/pkg/keygen/keygen.go: a key that is written and read, and one that is cut off.
use mini_shellhub.Prelude.{
  [], ◌∷◌, Text, ◌≡◌, refl, true, Option, none, some, ok, err, lookup, text_eq, insert, text_key,
}
use mini_shellhub.Agent.Startup.{initialize, public_key_failed}
use mini_shellhub.Agent.Keys.{
  Crypto, Attempt, Files, exists, wrote_all, wrote_part, generate_private_key, read_public_key,
  with_files, ensure_private_key, file_exists,
}
use mini_shellhub.Agent.Keys.Laws.{Decodes, partly_written_key_blocks, first_start_registers}
use mini_shellhub.Tests.Agent.{new, outside}

-- A PEM text is marked by its first byte.
abbrev decode : Text → Option Text
decode [] = none
decode (mark ∷ key) = some key

abbrev crypto : Crypto
crypto = record {
  encode_private = λ key. b'P' ∷ key;
  encode_public = λ key. b'P' ∷ key;
  decode_pem = decode;
  parse_private = λ key. some (1 ∷ key);
}

crypto-Decodes : Decodes crypto
crypto-Decodes key = refl

abbrev whole : Attempt
whole = record {
  generated = some (7 ∷ []);
  directory = exists;
  creates = true;
  written = wrote_all;
  syncs = true;
}

abbrev cut_off : Attempt
cut_off = record whole { written = wrote_part [] }

partly_written_key_blocks_example :
    (initialize
      (with_files crypto whole
        (generate_private_key crypto cut_off new.config.private_key []).0
        outside)
      new).1
    ≡ err public_key_failed
unfolding generate_private_key
partly_written_key_blocks_example =
    partly_written_key_blocks crypto cut_off whole [] [] outside new refl refl refl refl

started :
    initialize (with_files crypto whole [] outside) new
    ≡ ((initialize (with_files crypto whole [] outside) new).0, ok tt)
unfolding initialize with_files file_exists generate_private_key ensure_private_key read_public_key
    lookup insert text_eq
started = refl

abbrev no_files : Files
no_files = []

no_file : lookup new.config.private_key no_files ≡ none
unfolding lookup
no_file = refl

first_start_registers_example :
    (initialize (with_files crypto whole [] outside) new).0.pub_key ≡ some (b'P' ∷ 1 ∷ 7 ∷ [])
first_start_registers_example =
    first_start_registers crypto whole [] outside new
      (initialize (with_files crypto whole [] outside) new).0 (7 ∷ []) (1 ∷ 7 ∷ []) crypto-Decodes
      no_file refl refl started
