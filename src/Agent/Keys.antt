-- ===== src/Agent/Keys.antt =====
-- agent/pkg/agent/pkg/keygen/keygen.go, and how agent.go uses it: the private key's file. Keys are
-- their DER bytes; what Go's crypto and PEM libraries make of bytes, and what the system calls return,
-- are parameters.
pub mod Laws
use mini_shellhub.Prelude.{
  ℕ, Text, Bool, true, false, not, Option, none, some, Result, ok, err, panic, Dict, lookup, insert,
  text_key, if◌then◌else◌,
}
use mini_shellhub.Agent.Startup.{Outside}

pub record Crypto : Type 0 where
  -- pem.Encode of a private key, and of a public one.
  pub encode_private : Text → Text
  pub encode_public : Text → Text
  -- pem.Decode: the first block's bytes.
  pub decode_pem : Text → Option Text
  -- x509.ParsePKCS1PrivateKey: the public key.
  pub parse_private : Text → Option Text

-- os.Stat of the file's directory.
pub data Directory : Type 0 where
  exists stat_failed : Directory
  -- Whether MkdirAll then succeeds.
  missing : Bool → Directory

-- How writing the key ends: in full, or with an error behind what was written.
pub data Written : Type 0 where
  wrote_all : Written
  wrote_part : Text → Written

-- What one call of GeneratePrivateKey meets.
pub record Attempt : Type 0 where
  pub generated : Option Text
  pub directory : Directory
  pub creates : Bool
  pub written : Written
  pub syncs : Bool

pub data KeyError : Type 0 where
  generate_failed directory_failed create_failed write_failed sync_failed read_failed
        pem_decode_failed parse_failed :
      KeyError

-- The key files by their names.
abbrev pub Files : Type 0
Files = Dict Text Text

after_write : Crypto → Bool → Text → Written → Text → Files → Files × Result KeyError (Unit {0})
after_write c syncs key (wrote_part bytes) name fs = (insert name bytes fs, err write_failed)
after_write c syncs key wrote_all name fs =
    (insert name (c.encode_private key) fs, if syncs then ok tt else err sync_failed)

create_file : Crypto → Attempt → Text → Text → Files → Files × Result KeyError (Unit {0})
unfolding after_write
create_file c a key name fs =
    if a.creates then after_write c a.syncs key a.written name fs else (fs, err create_failed)

in_directory :
    Crypto → Attempt → Text → Directory → Text → Files → Files × Result KeyError (Unit {0})
unfolding create_file
in_directory c a key exists name fs = create_file c a key name fs
in_directory c a key stat_failed name fs = (fs, err directory_failed)
in_directory c a key (missing made) name fs =
    if made then create_file c a key name fs else (fs, err directory_failed)

with_key : Crypto → Attempt → Option Text → Text → Files → Files × Result KeyError (Unit {0})
unfolding in_directory
with_key c a none name fs = (fs, err generate_failed)
with_key c a (some key) name fs = in_directory c a key a.directory name fs

unfoldable pub generate_private_key :
    Crypto → Attempt → Text → Files → Files × Result KeyError (Unit {0})
unfolding with_key
generate_private_key c a name fs = with_key c a a.generated name fs

parsed : Option Text → Result KeyError Text
parsed none = err parse_failed
parsed (some key) = ok key

decoded : Crypto → Option Text → Result KeyError Text
unfolding parsed
decoded c none = err pem_decode_failed
decoded c (some block) = parsed (c.parse_private block)

read_file : Crypto → Option Text → Result KeyError Text
unfolding decoded
read_file c none = err read_failed
read_file c (some bytes) = decoded c (c.decode_pem bytes)

unfoldable pub read_public_key : Crypto → Text → Files → Result KeyError Text
unfolding read_file
read_public_key c name fs = read_file c (lookup name fs)

unfoldable pub file_exists : Text → Files → Bool
file_exists name fs = elim (lookup name fs) [ none ↦ false | some bytes ↦ true ]

-- The agent's own generatePrivateKey: a file that exists, whatever it holds, is left as it is.
unfoldable pub ensure_private_key :
    Crypto → Attempt → Text → Files → Files × Result KeyError (Unit {0})
unfolding file_exists generate_private_key
ensure_private_key c a name fs =
    if file_exists name fs then (fs, ok tt) else generate_private_key c a name fs

succeeded : {A : Type 0} → Result KeyError A → Bool
succeeded (ok x) = true
succeeded (err e) = false
succeeded panic = false

encoded : Crypto → Result KeyError Text → Option Text
encoded c (ok key) = some (c.encode_public key)
encoded c (err e) = none
encoded c panic = none

-- An agent's surroundings, with the key files in place of their parameters.
unfoldable pub with_files : Crypto → Attempt → Files → Outside → Outside
unfolding succeeded encoded
with_files c a fs o = record o {
  key_exists = λ name. file_exists name fs;
  generate_key = λ name. succeeded (generate_private_key c a name fs).1;
  read_key = λ name. encoded c (read_public_key c name (ensure_private_key c a name fs).0);
}
